-- ===== src/Modbus/Commands.antt =====
-- The control commands that a write publishes, against a description that has no loop.
use rust_roast.Prelude.{
  ℕ, zero, suc, ◌+◌, ◌<◌, ◌≡◌, refl, Bool, true, ◌&&◌, ◌||◌, not, List, [], ◌∷◌, some, none, String,
  Option, if◌then◌else◌, leb, ltb, nat_eq, length, get_elem?, arith, to_decimal,
}
use rust_roast.Host.{Host}
use rust_roast.Topics.{
  control_setpoint, control_fan_pwm, control_heater_pwm, control_mode, control_heater_enable,
  control_emergency_stop,
}
use rust_roast.Modbus.Registers.{registers_to_f32}
use rust_roast.Modbus.Store.{reg}
use rust_roast.Modbus.{Message, also, command, command_loop}

get_elem?-reg : (xs : List ℕ) (i : ℕ) → i < length xs → get_elem? xs i ≡ some (reg xs i)
get_elem?-reg [] i h = elim h [ ]
get_elem?-reg (x ∷ xs) zero h = refl
get_elem?-reg (x ∷ xs) (suc i) h = get_elem?-reg xs i (omega arith)

abbrev pub message : String → String → Message
message topic payload = record { topic = topic; payload = payload }

abbrev piece : Bool → Message → List Message → List Message
piece b m rest = if b then m ∷ rest else rest

abbrev covers : ℕ → ℕ → ℕ → Bool
covers start end addr = leb start addr && ltb addr end

-- The messages of the controls, and whether the emergency stop is requested.
pub record Controls : Type 0 where
  pub setpoint : Message
  pub fan_pwm : Message
  pub heater_pwm : Message
  pub mode : Message
  pub heater_enable : Message
  pub emergency_stop : Message
  pub stopping : Bool

module _ (c : Controls) where
  -- One message for each control that the range touches, in the order of the registers: one for
  -- the setpoint if the range touches either half of it, and one for the emergency stop only if
  -- it is requested.
  abbrev pub commands_between : Bool → ℕ → ℕ → List Message
  commands_between published start end =
      piece (not published && (leb start 1 && ltb start end)) c.setpoint (
        piece (covers start end 2) c.fan_pwm (
          piece (covers start end 3) c.heater_pwm (
            piece (covers start end 4) c.mode (
              piece (covers start end 5) c.heater_enable
                (piece (covers start end 12 && c.stopping) c.emergency_stop [])))))

  -- One round, with the reads of the registers done.
  abbrev round : Bool → ℕ → Option Message × Bool
  round published addr =
      if (nat_eq addr 0 || nat_eq addr 1) && not published
      then (some c.setpoint, true)
      else if nat_eq addr 2
      then (some c.fan_pwm, published)
      else if nat_eq addr 3
      then (some c.heater_pwm, published)
      else if nat_eq addr 4
      then (some c.mode, published)
      else if nat_eq addr 5
      then (some c.heater_enable, published)
      else if nat_eq addr 12
      then (if c.stopping then some c.emergency_stop else none, published)
      else (none, published)

  commands_between-step :
      (published : Bool) (start end : ℕ)
      → start < end
      → also (round published start).0 (commands_between (round published start).1 (start + 1) end)
        ≡ commands_between published start end
  commands_between-step published zero end h = ground arith
  commands_between-step published (suc zero) end h = ground arith
  commands_between-step published (suc (suc zero)) end h = ground arith
  commands_between-step published (suc (suc (suc zero))) end h = ground arith
  commands_between-step published (suc (suc (suc (suc zero)))) end h = ground arith
  commands_between-step published (suc (suc (suc (suc (suc zero))))) end h = ground arith
  commands_between-step published (suc (suc (suc (suc (suc (suc zero)))))) end h = ground arith
  commands_between-step published (suc (suc (suc (suc (suc (suc (suc zero))))))) end h =
      ground arith
  commands_between-step published (suc (suc (suc (suc (suc (suc (suc (suc zero)))))))) end h =
      ground arith
  commands_between-step published (suc (suc (suc (suc (suc (suc (suc (suc (suc zero))))))))) end h =
      ground arith
  commands_between-step published (suc (suc (suc (suc (suc (suc (suc (suc (suc (suc zero))))))))))
        end h =
      ground arith
  commands_between-step published
        (suc (suc (suc (suc (suc (suc (suc (suc (suc (suc (suc zero))))))))))) end h =
      ground arith
  commands_between-step published
        (suc (suc (suc (suc (suc (suc (suc (suc (suc (suc (suc (suc zero)))))))))))) end h =
      ground arith
  commands_between-step published
        (suc (suc (suc (suc (suc (suc (suc (suc (suc (suc (suc (suc (suc k))))))))))))) end h =
      ground arith

module _ (h : Host) (device_id : String) (regs : List ℕ) where
  open h use {show_f32}

  -- The messages that the contents of the registers stand for.
  abbrev pub controls : Controls
  controls = record {
    setpoint =
        message (control_setpoint device_id)
          (show_f32 (registers_to_f32 (reg regs 0) (reg regs 1)));
    fan_pwm = message (control_fan_pwm device_id) (to_decimal (reg regs 2));
    heater_pwm = message (control_heater_pwm device_id) (to_decimal (reg regs 3));
    mode = message (control_mode device_id) (if nat_eq (reg regs 4) 0 then "manual" else "auto");
    heater_enable =
        message (control_heater_enable device_id) (if nat_eq (reg regs 5) 0 then "0" else "1");
    emergency_stop = message (control_emergency_stop device_id) "1";
    stopping = nat_eq (reg regs 12) 1;
  }

  command-round :
      (published : Bool) (addr : ℕ)
      → length regs ≡ 13
      → command h device_id regs published addr ≡ some (round controls published addr)
  unfolding command
  command-round published addr l =
      rw
        (
          get_elem?-reg regs 0 (omega arith),
          get_elem?-reg regs 1 (omega arith),
          get_elem?-reg regs 2 (omega arith),
          get_elem?-reg regs 3 (omega arith),
          get_elem?-reg regs 4 (omega arith),
          get_elem?-reg regs 5 (omega arith),
          get_elem?-reg regs 12 (omega arith),
        )
        (ground arith)

  -- The loop publishes what the description says.
  pub command_loop-lem :
      (n addr : ℕ) (published : Bool)
      → length regs ≡ 13
      → command_loop h device_id regs n addr published
        ≡ some (commands_between controls published addr (addr + n))
  unfolding command_loop
  command_loop-lem zero addr published l = ground arith
  command_loop-lem (suc n) addr published l =
      let e : addr + 1 + n ≡ addr + suc n = omega arith in
      rw (
        command-round published addr l,
        command_loop-lem n (addr + 1) (round controls published addr).1 l,
        e,
        commands_between-step controls published addr (addr + suc n) (omega arith),
      )
