-- ===== src/Devices/Profiles.antt =====
-- The device profiles of `DeviceService`, in crates/server/src/services.rs.
use rust_roast.Prelude.{
  ℕ, String, Bool, false, List, [], ◌∷◌, ◌++◌, Option, none, some, Result, ok, err, str_eq,
  if◌then◌else◌, find, any, leb,
}
use rust_roast.Host.{Host}
use rust_roast.Models.DeviceRows.{
  Device, DeviceProfile, CreateDeviceProfileRequest, UpdateDeviceProfileRequest,
}
use rust_roast.Tables.{keep_or, or_else, update_rows, delete_rows, order_by, keyed}
use rust_roast.Devices.{Db, profile_key, unique_failed}

-- `ON DELETE SET NULL`
abbrev pub has_profile : String → Device → Bool
has_profile id d = elim d.profile_id [ none ↦ false | some p ↦ str_eq p id ]

abbrev pub without_profile : Device → Device
without_profile d = record d { profile_id = none }

module _ (h : Host) where
  open h use {F64}

  -- `ORDER BY created_at DESC`
  abbrev pub newer : DeviceProfile F64 → DeviceProfile F64 → Bool
  newer a b = leb b.created_at a.created_at

  unfoldable pub list_profiles : Db h → List (DeviceProfile F64)
  list_profiles db = order_by newer db.device_profiles

  unfoldable pub get_profile : Db h → String → Option (DeviceProfile F64)
  get_profile db id = find (keyed (profile_key h) id) db.device_profiles

  abbrev pub created : CreateDeviceProfileRequest F64 → String → ℕ → DeviceProfile F64
  created req id now = record {
    id = id;
    name = req.name;
    description = req.description;
    default_control_mode = req.default_control_mode;
    default_setpoint = req.default_setpoint;
    default_fan_pwm = req.default_fan_pwm;
    default_kp = req.default_kp;
    default_ki = req.default_ki;
    default_kd = req.default_kd;
    max_temp = req.max_temp;
    min_fan_pwm = req.min_fan_pwm;
    telemetry_interval_ms = req.telemetry_interval_ms;
    created_at = now;
    updated_at = now;
  }

  unfoldable pub create_profile :
      Db h → CreateDeviceProfileRequest F64 → String → ℕ → Result String (DeviceProfile F64) × Db h
  create_profile db req id now =
      if any (keyed (profile_key h) id) db.device_profiles then (err unique_failed, db) else (
        ok (created req id now),
        record db { device_profiles = db.device_profiles ++ created req id now ∷ [] },
      )

  -- Each column is `COALESCE(?, column)`.
  abbrev pub merged : UpdateDeviceProfileRequest F64 → ℕ → DeviceProfile F64 → DeviceProfile F64
  merged req now p = record p {
    name = keep_or req.name p.name;
    description = or_else req.description p.description;
    default_control_mode = or_else req.default_control_mode p.default_control_mode;
    default_setpoint = or_else req.default_setpoint p.default_setpoint;
    default_fan_pwm = or_else req.default_fan_pwm p.default_fan_pwm;
    default_kp = or_else req.default_kp p.default_kp;
    default_ki = or_else req.default_ki p.default_ki;
    default_kd = or_else req.default_kd p.default_kd;
    max_temp = or_else req.max_temp p.max_temp;
    min_fan_pwm = or_else req.min_fan_pwm p.min_fan_pwm;
    telemetry_interval_ms = or_else req.telemetry_interval_ms p.telemetry_interval_ms;
    updated_at = now;
  }

  unfoldable pub update_profile :
      Db h → String → UpdateDeviceProfileRequest F64 → ℕ → Option (DeviceProfile F64) × Db h
  unfolding get_profile
  update_profile db id req now = (
    elim (get_profile db id) [ none ↦ none | some p ↦ some (merged req now p) ],
    record db {
      device_profiles = update_rows (keyed (profile_key h) id) (merged req now) db.device_profiles;
    },
  )

  unfoldable pub delete_profile : Db h → String → Bool × Db h
  delete_profile db id = (
    any (keyed (profile_key h) id) db.device_profiles,
    record db {
      device_profiles = delete_rows (keyed (profile_key h) id) db.device_profiles;
      devices = update_rows (has_profile id) without_profile db.devices;
    },
  )
