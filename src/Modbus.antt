-- ===== src/Modbus.antt =====
-- The Modbus TCP server of crates/server/src/modbus.rs: the service that answers the requests of
-- all connections over one shared state. A panic is the absence of a result (`none`).
mod Examples
pub mod Protocol
pub mod Registers
pub mod Store
pub mod Commands
pub mod Service
pub mod Clients
use rust_roast.Prelude.{
  ℕ, ok, err, zero, suc, ◌+◌, ◌-◌, ◌%◌, ◌^◌, String, Bool, true, false, ◌&&◌, ◌||◌, not, List, [],
  ◌∷◌, ◌++◌, Option, none, some, nat_eq, ltb, leb, if◌then◌else◌, length, get_elem?, set, take,
  drop, replicate, Dict, lookup, to_decimal,
}
use rust_roast.Host.{Host}
use rust_roast.Topics.{
  control_setpoint, control_fan_pwm, control_heater_pwm, control_mode, control_heater_enable,
  control_emergency_stop,
}
use Protocol.{ExceptionCode, illegal_function, illegal_data_address, Request, Response, Reply}
use Registers
use Registers.{input_count, holding_count, f32_to_registers, registers_to_f32}

-- A call of `MqttService::publish`, at QoS 0 and not retained.
pub record Message : Type 0 where
  pub topic : String
  pub payload : String

abbrev pub publish : String → String → Option Message
publish topic payload = some (record { topic = topic; payload = payload })

-- `a.checked_add(b)` of two u16.
unfoldable pub checked_add : ℕ → ℕ → Option ℕ
checked_add a b = if ltb (a + b) (2 ^ 16) then some (a + b) else none

-- `xs[start..end]`, which panics unless `start <= end <= xs.len()`.
unfoldable pub slice : List ℕ → ℕ → ℕ → Option (List ℕ)
slice xs start end =
    if leb start end && leb end (length xs) then some (take (end - start) (drop start xs)) else none

infixl 5 ◌>>=◌ ◌>>◌
abbrev pub ◌>>=◌ {ℓ κ} : {A : Type ℓ} {B : Type κ} → Option A → (A → Option B) → Option B
none >>= f = none
some a >>= f = f a

abbrev pub ◌>>◌ {ℓ} : {B : Type ℓ} → Option (Unit {0}) → Option B → Option B
m >> k = m >>= λ _. k

abbrev pub also : Option Message → List Message → List Message
also none rest = rest
also (some m) rest = m ∷ rest

-- The loop `regs[addr + i] = val` over the values; an address out of range panics.
unfoldable pub store : List ℕ → ℕ → List ℕ → Option (List ℕ)
store regs addr [] = some regs
store regs addr (v ∷ vs) =
    let rest = store (set regs addr v) (addr + 1) vs in
    if ltb addr (length regs) then rest else none

module _ (h : Host) where
  open h use {Value, get, as_f64, as_u64, to_f32, show_f32}

  pub record ModbusSharedState : Type 0 where
    pub telemetry_cache : Dict (Value × ℕ)
    pub device_id : String
    pub holding_registers : List ℕ

  -- `val.get(key).and_then(as_f64).unwrap_or(0.0) as f32`; the bits of 0.0 are 0.
  abbrev pub float_field : Value → String → ℕ
  float_field val key = elim (get val key >>= as_f64) [ none ↦ 0 | some x ↦ to_f32 x ]

  -- `val.get(key).and_then(as_u64).unwrap_or(0) as u16`
  abbrev pub word_field : Value → String → ℕ
  word_field val key = elim (get val key >>= as_u64) [ none ↦ 0 | some n ↦ n % 2 ^ 16 ]

  abbrev pub telemetry_image : Value → List ℕ
  telemetry_image val =
      let bt = f32_to_registers (float_field val "beanTemp") in
      let et = f32_to_registers (float_field val "envTemp") in
      let rr = f32_to_registers (float_field val "rateOfRise") in
      bt.0
      ∷ bt.1
      ∷ et.0
      ∷ et.1
      ∷ rr.0
      ∷ rr.1
      ∷ word_field val "heaterPWM"
      ∷ word_field val "fanPWM"
      ∷ []

  -- The eight registers, all zero while the device has sent nothing.
  unfoldable pub input_image : ModbusSharedState → List ℕ
  unfolding f32_to_registers
  input_image state = elim (lookup state.device_id state.telemetry_cache) [
    | none ↦ replicate 8 0
    | some (val, ts) ↦ telemetry_image val
  ]

  unfoldable pub read_input_registers : ModbusSharedState → ℕ → ℕ → Option (Reply Response)
  unfolding input_image
  read_input_registers state addr cnt = elim (checked_add addr cnt) [
    | none ↦ some (err illegal_data_address)
    | some end ↦ if ltb input_count end then some (err illegal_data_address) else do
      words ← slice (input_image state) addr end
      some (ok (Response.read_input_registers words))
  ]

  unfoldable pub read_holding_registers : ModbusSharedState → ℕ → ℕ → Option (Reply Response)
  read_holding_registers state addr cnt = elim (checked_add addr cnt) [
    | none ↦ some (err illegal_data_address)
    | some end ↦ if ltb holding_count end then some (err illegal_data_address) else do
      words ← slice state.holding_registers addr end
      some (ok (Response.read_holding_registers words))
  ]

  -- One round of the loop over the registers written: the publish that it makes, and whether the
  -- setpoint has been published by now.
  unfoldable pub command : String → List ℕ → Bool → ℕ → Option (Option Message × Bool)
  unfolding registers_to_f32
  command device_id regs published addr =
      if (nat_eq addr Registers.setpoint_hi || nat_eq addr Registers.setpoint_lo) && not published
      then (do
        hi ← get_elem? regs 0
        lo ← get_elem? regs 1
        let text = show_f32 (registers_to_f32 hi lo)
        some (publish (control_setpoint device_id) text, true))
      else if nat_eq addr Registers.fan_pwm
      then (do
        v ← get_elem? regs Registers.fan_pwm
        some (publish (control_fan_pwm device_id) (to_decimal v), published))
      else if nat_eq addr Registers.heater_pwm
      then (do
        v ← get_elem? regs Registers.heater_pwm
        some (publish (control_heater_pwm device_id) (to_decimal v), published))
      else if nat_eq addr Registers.control_mode
      then (do
        v ← get_elem? regs Registers.control_mode
        let mode = if nat_eq v 0 then "manual" else "auto"
        some (publish (control_mode device_id) mode, published))
      else if nat_eq addr Registers.heater_enable
      then (do
        v ← get_elem? regs Registers.heater_enable
        let val = if nat_eq v 0 then "0" else "1"
        some (publish (control_heater_enable device_id) val, published))
      else if nat_eq addr Registers.emergency_stop
      then (do
        v ← get_elem? regs Registers.emergency_stop
        let stop = publish (control_emergency_stop device_id) "1"
        some (if nat_eq v 1 then stop else none, published))
      else some (none, published)

  -- The rounds that are left, from the address on.
  unfoldable pub command_loop : String → List ℕ → ℕ → ℕ → Bool → Option (List Message)
  command_loop device_id regs zero addr published = some []
  command_loop device_id regs (suc n) addr published = do
    (sent, published') ← command device_id regs published addr
    rest ← command_loop device_id regs n (addr + 1) published'
    some (also sent rest)

  unfoldable pub publish_control_commands : ModbusSharedState → ℕ → ℕ → Option (List Message)
  unfolding command_loop
  publish_control_commands state start end =
      command_loop state.device_id state.holding_registers (end - start) start false

  -- The messages that it publishes are added to the answer; the result of a publish is only logged.
  unfoldable pub write_registers :
      ModbusSharedState → ℕ → List ℕ → Option (Reply (Unit {0}) × ModbusSharedState × List Message)
  unfolding store publish_control_commands
  write_registers state addr values =
      if ltb holding_count (addr + length values)
      then some (err illegal_data_address, state, [])
      else (do
        regs ← store state.holding_registers addr values
        let state' = record state { holding_registers = regs }
        sent ← publish_control_commands state' addr (addr + length values % 2 ^ 16)
        some (ok tt, state', sent))

  -- `.map(|_| response)` on the result of a write.
  abbrev pub answer :
      Response
      → Reply (Unit {0}) × ModbusSharedState × List Message
      → Reply Response × ModbusSharedState × List Message
  answer response (ok _, state, sent) = (ok response, state, sent)
  answer response (err e, state, sent) = (err e, state, sent)

  -- The service of a connection: every connection shares the state.
  unfoldable pub call :
      ModbusSharedState → Request → Option (Reply Response × ModbusSharedState × List Message)
  call state (Request.read_input_registers addr cnt) = do
    reply ← read_input_registers state addr cnt
    some (reply, state, [])
  call state (Request.read_holding_registers addr cnt) = do
    reply ← read_holding_registers state addr cnt
    some (reply, state, [])
  call state (Request.write_single_register addr value) = do
    done ← write_registers state addr (value ∷ [])
    some (answer (Response.write_single_register addr value) done)
  call state (Request.write_multiple_registers addr values) = do
    let cnt = length values % 2 ^ 16
    done ← write_registers state addr values
    some (answer (Response.write_multiple_registers addr cnt) done)
  call state Request.other = some (err illegal_function, state, [])

  -- The state that the server starts with.
  unfoldable pub initial : Dict (Value × ℕ) → String → ModbusSharedState
  initial telemetry_cache device_id = record {
    telemetry_cache = telemetry_cache;
    device_id = device_id;
    holding_registers = replicate holding_count 0;
  }
