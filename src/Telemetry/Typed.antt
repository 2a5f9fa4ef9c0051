-- ===== src/Telemetry/Typed.antt =====
-- `TelemetryPayload` and `parse_telemetry` of crates/server/src/telemetry.rs. The derived parsers
-- of the record, from bytes and from a JSON value, are parameters.
use rust_roast.Prelude.{ℕ, ℤ, List, Option, none, some}
use rust_roast.Host.{Host}

module _ (h : Host) where
  open h use {F64, Value, from_slice}

  pub record TelemetryPayload : Type 0 where
    pub bean_temp : F64
    pub env_temp : F64
    pub rate_of_rise : Option F64
    pub heater_pwm : ℤ
    pub fan_pwm : ℤ
    pub setpoint : F64
    pub control_mode : ℤ
    pub heater_enable : ℤ
    pub uptime : Option ℕ
    pub kp : Option F64
    pub ki : Option F64
    pub kd : Option F64
    pub free_heap : Option ℕ
    pub rssi : Option ℤ
    pub system_status : Option ℤ
    pub timestamp : Option ℕ

  module _ (typed_from_slice : List ℕ → Option TelemetryPayload)
      (typed_from_value : Value → Option TelemetryPayload) where
    unfoldable pub parse_telemetry : List ℕ → Option TelemetryPayload
    parse_telemetry payload = elim (typed_from_slice payload) [
      | some t ↦ some t
      | none ↦ elim (from_slice payload) [ none ↦ none | some raw ↦ typed_from_value raw ]
    ]
