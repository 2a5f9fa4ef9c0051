-- ===== src/Modbus/Registers.antt =====
-- The register layout of crates/server/src/modbus.rs, and an f32 as two registers. `bits >> 16` is
-- `bits / 2 ^ 16`, `bits & 0xFFFF` is `bits % 2 ^ 16`, and the two halves of a word, which have no
-- bit in common, are joined by `+`.
use rust_roast.Prelude.{ℕ, ◌+◌, ◌*◌, ◌/◌, ◌%◌, ◌^◌, ◌<◌, ◌≡◌, arith}

abbrev pub input_count : ℕ
input_count = 8

abbrev pub setpoint_hi : ℕ
setpoint_hi = 0x0000

abbrev pub setpoint_lo : ℕ
setpoint_lo = 0x0001

abbrev pub fan_pwm : ℕ
fan_pwm = 0x0002

abbrev pub heater_pwm : ℕ
heater_pwm = 0x0003

abbrev pub control_mode : ℕ
control_mode = 0x0004

abbrev pub heater_enable : ℕ
heater_enable = 0x0005

abbrev pub emergency_stop : ℕ
emergency_stop = 0x000C

abbrev pub holding_count : ℕ
holding_count = 0x000D

unfoldable pub f32_to_registers : ℕ → ℕ × ℕ
f32_to_registers bits = (bits / 2 ^ 16, bits % 2 ^ 16)

unfoldable pub registers_to_f32 : ℕ → ℕ → ℕ
registers_to_f32 hi lo = hi * 2 ^ 16 + lo

-- The two registers of an f32 are 16-bit words, and give its bit pattern back.
pub registers_to_f32-f32_to_registers :
    (bits : ℕ)
    → bits < 2 ^ 32
    → ((f32_to_registers bits).0 < 2 ^ 16)
      × ((f32_to_registers bits).1 < 2 ^ 16)
      × (registers_to_f32 (f32_to_registers bits).0 (f32_to_registers bits).1 ≡ bits)
unfolding f32_to_registers registers_to_f32
registers_to_f32-f32_to_registers bits h = omega arith

-- Two registers make one bit pattern, from which both are read back.
pub f32_to_registers-registers_to_f32 :
    (hi lo : ℕ)
    → hi < 2 ^ 16
    → lo < 2 ^ 16
    → (registers_to_f32 hi lo < 2 ^ 32) × (f32_to_registers (registers_to_f32 hi lo) ≡ (hi, lo))
unfolding f32_to_registers registers_to_f32
f32_to_registers-registers_to_f32 hi lo h k = ground arith
