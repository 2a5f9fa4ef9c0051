-- ===== src/Modbus/Clients.antt =====
-- What the clients of the Modbus server see over one request or several.
use rust_roast.Prelude.{
  ℕ, ok, err, ◌+◌, ◌≤◌, ◌^◌, ◌%◌, ◌≡◌, refl, ◌∙◌, false, inl, inr, List, [], ◌∷◌, some, length,
  Bool-cases, ltb, take, drop, arith, to_decimal,
}
use rust_roast.Host.{Host}
use rust_roast.Topics.{control_heater_pwm}
use rust_roast.Modbus.Protocol.{
  Request, Response, Reply, illegal_data_address, illegal_function, other,
}
use rust_roast.Modbus.Store.{length-overwrite, take-drop-overwrite, reg-overwrite}
use rust_roast.Modbus.Commands.{message, commands_between, controls}
use rust_roast.Modbus.Service.{
  IsWellFormed, written, write_registers-lem, write_accepted, read_input-lem, read_holding-lem,
}
use rust_roast.Modbus.{
  ModbusSharedState, Message, call, input_image, answer, write_registers, read_input_registers,
  read_holding_registers,
}

module _ (h : Host) where
  -- A request has an answer, and the state after it is again well formed.
  abbrev pub Answers : ModbusSharedState h → Request → Type 0
  Answers state req =
      (r : Reply Response × ModbusSharedState h × List Message) × (call h state req ≡ some r)
      × IsWellFormed h r.1

  write-total :
      (state : ModbusSharedState h) (addr : ℕ) (values : List ℕ)
      → IsWellFormed h state
      → (r : Reply (Unit {0}) × ModbusSharedState h × List Message) × (write_registers h state addr
            values
          ≡ some r)
        × IsWellFormed h r.1
  write-total state addr values v = elim (Bool-cases (ltb 13 (addr + length values))) [
    | inl e ↦
        ((err illegal_data_address, state, []), write_registers-lem h state addr values v ∙ rw e, v)
    | inr e ↦ (
      (
        ok tt,
        written h state addr values,
        commands_between
            (controls h state.device_id (written h state addr values).holding_registers) false addr
            (addr + length values),
      ),
      write_accepted h state addr values v (ground arith),
      length-overwrite state.holding_registers addr values (ground arith) ∙ v,
    )
  ]

  read_input-total :
      (state : ModbusSharedState h) (addr cnt : ℕ)
      → (r : Reply Response) × (read_input_registers h state addr cnt ≡ some r)
  read_input-total state addr cnt = elim (Bool-cases (ltb 8 (addr + cnt))) [
    | inl e ↦ (err illegal_data_address, read_input-lem h state addr cnt ∙ rw e)
    | inr e ↦ (
      ok (Response.read_input_registers (take cnt (drop addr (input_image h state)))),
      read_input-lem h state addr cnt ∙ rw e,
    )
  ]

  read_holding-total :
      (state : ModbusSharedState h) (addr cnt : ℕ)
      → IsWellFormed h state
      → (r : Reply Response) × (read_holding_registers h state addr cnt ≡ some r)
  read_holding-total state addr cnt v = elim (Bool-cases (ltb 13 (addr + cnt))) [
    | inl e ↦ (err illegal_data_address, read_holding-lem h state addr cnt v ∙ rw e)
    | inr e ↦ (
      ok (Response.read_holding_registers (take cnt (drop addr state.holding_registers))),
      read_holding-lem h state addr cnt v ∙ rw e,
    )
  ]

  answer-state :
      (response : Response) (r : Reply (Unit {0}) × ModbusSharedState h × List Message)
      → (answer h response r).1 ≡ r.1
  answer-state response (ok _, state, sent) = refl
  answer-state response (err e, state, sent) = refl

  -- No request makes the server panic: from a state with its thirteen holding registers, each
  -- request, whatever addresses and values it holds, is answered, and the state has its thirteen
  -- registers again.
  pub call-Answers :
      (state : ModbusSharedState h) (req : Request) → IsWellFormed h state → Answers state req
  unfolding call
  call-Answers state (Request.read_input_registers addr cnt) v =
      let (r, e) = read_input-total state addr cnt in ((r, state, []), rw e, v)
  call-Answers state (Request.read_holding_registers addr cnt) v =
      let (r, e) = read_holding-total state addr cnt v in ((r, state, []), rw e, v)
  call-Answers state (Request.write_single_register addr value) v =
      let (r, e, w) = write-total state addr (value ∷ []) v in
      (
        answer h (Response.write_single_register addr value) r,
        rw e,
        rw (answer-state (Response.write_single_register addr value) r) w,
      )
  call-Answers state (Request.write_multiple_registers addr values) v =
      let response = Response.write_multiple_registers addr (length values % 2 ^ 16) in
      let (r, e, w) = write-total state addr values v in
      (answer h response r, rw e, rw (answer-state response r) w)
  call-Answers state other v = ((err illegal_function, state, []), refl, v)

  -- A write of registers that is answered with `ok` is read back: the same registers, asked for
  -- in the next request, hold the values written.
  pub read-write :
      (state : ModbusSharedState h) (addr : ℕ) (values : List ℕ)
      → IsWellFormed h state
      → addr + length values ≤ 13
      → (sent : List Message) × (call h state (Request.write_multiple_registers addr values)
          ≡ some (
            ok (Response.write_multiple_registers addr (length values)),
            written h state addr values,
            sent,
          ))
        × (call h
              (written h state addr values)
              (Request.read_holding_registers addr (length values))
            ≡ some (ok (Response.read_holding_registers values), written h state addr values, []))
  unfolding call
  read-write state addr values v fits =
      let state' = written h state addr values in
      let kept : IsWellFormed h state' =
        length-overwrite state.holding_registers addr values (omega arith) ∙ v in
      let width : length values % 2 ^ 16 ≡ length values = omega arith in
      let low : ltb 13 (addr + length values) ≡ false = ground arith in
      (
        commands_between (controls h state.device_id state'.holding_registers) false addr
            (addr + length values),
        rw (write_accepted h state addr values v fits, width),
        rw (
          read_holding-lem h state' addr (length values) kept,
          low,
          take-drop-overwrite state.holding_registers addr values (omega arith),
        ),
      )

  -- The value of the heater is not checked: whatever word is written to its register is stored
  -- and published to the device, also above the 100 that the HTTP interface allows.
  pub write-heater_pwm :
      (state : ModbusSharedState h) (value : ℕ)
      → IsWellFormed h state
      → call h state (Request.write_single_register 3 value)
        ≡ some (
          ok (Response.write_single_register 3 value),
          written h state 3 (value ∷ []),
          message (control_heater_pwm state.device_id) (to_decimal value) ∷ [],
        )
  unfolding call
  write-heater_pwm state value v = rw (
    write_accepted h state 3 (value ∷ []) v (omega arith),
    reg-overwrite state.holding_registers 3 value (omega arith),
  )
