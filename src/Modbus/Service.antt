-- ===== src/Modbus/Service.antt =====
-- What a Modbus client sees: every request is answered, and a write that is accepted is stored,
-- read back and published.
use rust_roast.Prelude.{
  ℕ, ok, err, ◌+◌, ◌-◌, ◌%◌, ◌^◌, ◌≤◌, ◌≡◌, ap, ◌∙◌, false, ◌⊎◌, inl, inr, List, [], some, none,
  Option, Option-cases, Bool-cases, if◌then◌else◌, ltb, length, lookup, take, drop, arith,
}
use rust_roast.Host.{Host}
use rust_roast.Modbus.Protocol.{Response, Reply, illegal_data_address}
use rust_roast.Modbus.Store.{overwrite, store-overwrite, length-overwrite, slice-some}
use rust_roast.Modbus.Commands.{commands_between, controls, command_loop-lem}
use rust_roast.Modbus.{
  ModbusSharedState, Message, checked_add, input_image, read_input_registers,
  read_holding_registers, write_registers, slice,
}

module _ (h : Host) where
  -- The vector of holding registers has its thirteen entries.
  abbrev pub IsWellFormed : ModbusSharedState h → Type 0
  IsWellFormed state = length state.holding_registers ≡ 13

  -- The state after a write.
  abbrev pub written : ModbusSharedState h → ℕ → List ℕ → ModbusSharedState h
  written state addr values = record state {
    holding_registers = overwrite state.holding_registers addr values;
  }

  abbrev pub Result : Type 0
  Result = Option (Reply (Unit {0}) × ModbusSharedState h × List Message)

  pub write_accepted :
      (state : ModbusSharedState h) (addr : ℕ) (values : List ℕ)
      → IsWellFormed state
      → addr + length values ≤ 13
      → write_registers h state addr values
        ≡ some (
          ok tt,
          written state addr values,
          commands_between
              (controls h state.device_id (written state addr values).holding_registers)
              false
              addr
              (addr + length values),
        )
  unfolding write_registers
  write_accepted state addr values v fits =
      let regs = overwrite state.holding_registers addr values in
      let inside : addr + length values ≤ length state.holding_registers = omega arith in
      let kept : length regs ≡ 13 =
        length-overwrite state.holding_registers addr values inside ∙ v in
      let rounds : addr + length values % 2 ^ 16 - addr ≡ length values = omega arith in
      let low : ltb 13 (addr + length values) ≡ false = ground arith in
      rw (
        low,
        store-overwrite state.holding_registers addr values inside,
        rounds,
        command_loop-lem h state.device_id regs (length values) addr false kept,
      )

  -- A Modbus write on either branch. One that ends within the thirteen registers replaces the
  -- segment and publishes, with the values after the write, one command for each of the setpoint,
  -- the fan, the heater, the mode and the heater enable that the segment touches, and one emergency
  -- stop if it touches that register and the word there is then 1. Any other is refused, changes no
  -- register and publishes nothing.
  pub write_registers-lem :
      (state : ModbusSharedState h) (addr : ℕ) (values : List ℕ)
      → IsWellFormed state
      → write_registers h state addr values ≡ (
          if ltb 13 (addr + length values)
          then some (err illegal_data_address, state, [])
          else some (
            ok tt,
            written state addr values,
            commands_between
                (controls h state.device_id (written state addr values).holding_registers)
                false
                addr
                (addr + length values),
          ))
  write_registers-lem state addr values v = elim (Bool-cases (ltb 13 (addr + length values))) [
    | inl e ↦ rw e (unfold write_registers in rw e)
    | inr e ↦ rw e (write_accepted state addr values v (ground arith))
  ]

  pub input_image-length : (state : ModbusSharedState h) → length (input_image h state) ≡ 8
  unfolding input_image
  input_image-length state = elim (Option-cases (lookup state.device_id state.telemetry_cache)) [
    | inl e ↦ rw (e, input_image)
    | inr (p, e) ↦ rw (e, input_image)
  ]

  checked_add-cases :
      (addr cnt : ℕ)
      → ((checked_add addr cnt ≡ none) × (2 ^ 16 ≤ addr + cnt))
        ⊎ (checked_add addr cnt ≡ some (addr + cnt))
  unfolding checked_add
  checked_add-cases addr cnt = ground arith

  -- A read of input registers on either branch: a refusal, or the part of the image asked for.
  pub read_input-lem :
      (state : ModbusSharedState h) (addr cnt : ℕ)
      → read_input_registers h state addr cnt ≡ (
          if ltb 8 (addr + cnt)
          then some (err illegal_data_address)
          else some
              (ok (Response.read_input_registers (take cnt (drop addr (input_image h state))))))
  unfolding read_input_registers
  read_input-lem state addr cnt =
      let image = input_image h state in
      let width : addr + cnt - addr ≡ cnt = omega arith in
      let inside : addr + cnt ≤ 8
          → slice image addr (addr + cnt) ≡ some (take cnt (drop addr image)) =
        λ le.
          slice-some image addr (addr + cnt) (omega arith) (omega (arith, input_image-length state))
          ∙ ap (λ n. some (take n (drop addr image))) width in
      ground (arith, checked_add-cases addr cnt, inside)

  -- A read of holding registers on either branch.
  pub read_holding-lem :
      (state : ModbusSharedState h) (addr cnt : ℕ)
      → IsWellFormed state
      → read_holding_registers h state addr cnt ≡ (
          if ltb 13 (addr + cnt)
          then some (err illegal_data_address)
          else some
              (ok (Response.read_holding_registers (take cnt (drop addr state.holding_registers)))))
  unfolding read_holding_registers
  read_holding-lem state addr cnt v =
      let regs = state.holding_registers in
      let width : addr + cnt - addr ≡ cnt = omega arith in
      let inside : addr + cnt ≤ 13
          → slice regs addr (addr + cnt) ≡ some (take cnt (drop addr regs)) =
        λ le.
          slice-some regs addr (addr + cnt) (omega arith) (omega arith)
          ∙ ap (λ n. some (take n (drop addr regs))) width in
      ground (arith, checked_add-cases addr cnt, inside)
