-- ===== src/Models/DeviceRows.antt =====
-- The device records of crates/server/src/models.rs. An `f64` and a JSON value are the host's, a
-- time is its number of seconds.
use rust_roast.Prelude.{ℕ, ℤ, String, Bool, Option}
use rust_roast.Models.DeviceStatus.{DeviceStatus}
use rust_roast.Models.Protocol.{Protocol}
use rust_roast.Models.ModbusRegisterType.{ModbusRegisterType}
use rust_roast.Models.ModbusDataType.{ModbusDataType}

pub record Device : Type 0 where
  pub id : String
  pub name : String
  pub device_id : String
  pub profile_id : Option String
  pub status : DeviceStatus
  pub description : Option String
  pub location : Option String
  pub created_at : ℕ
  pub updated_at : ℕ
  pub last_seen_at : Option ℕ

pub record CreateDeviceRequest : Type 0 where
  pub name : String
  pub device_id : String
  pub profile_id : Option String
  pub description : Option String
  pub location : Option String

pub record UpdateDeviceRequest : Type 0 where
  pub name : Option String
  pub profile_id : Option String
  pub status : Option DeviceStatus
  pub description : Option String
  pub location : Option String

pub record CreateRegisterMapEntry (F64 : Type 0) : Type 0 where
  pub register_type : ModbusRegisterType
  pub address : ℤ
  pub name : String
  pub data_type : ModbusDataType
  pub byte_order : Option String
  pub scale_factor : Option F64
  pub offset : Option F64
  pub unit : Option String
  pub description : Option String
  pub writable : Option Bool

pub record ModbusRegisterMap (F64 : Type 0) : Type 0 where
  pub id : String
  pub device_id : String
  pub register_type : ModbusRegisterType
  pub address : ℤ
  pub name : String
  pub data_type : ModbusDataType
  pub byte_order : Option String
  pub scale_factor : Option F64
  pub offset : Option F64
  pub unit : Option String
  pub description : Option String
  pub writable : Bool

pub record DeviceConnection (Value : Type 0) : Type 0 where
  pub id : String
  pub device_id : String
  pub protocol : Protocol
  pub enabled : Bool
  pub priority : ℤ
  pub config : Value
  pub created_at : ℕ
  pub updated_at : ℕ

pub record CreateConnectionRequest (Value : Type 0) : Type 0 where
  pub protocol : Protocol
  pub enabled : Option Bool
  pub priority : Option ℤ
  pub config : Value

pub record UpdateConnectionRequest (Value : Type 0) : Type 0 where
  pub enabled : Option Bool
  pub priority : Option ℤ
  pub config : Option Value

pub record DeviceProfile (F64 : Type 0) : Type 0 where
  pub id : String
  pub name : String
  pub description : Option String
  pub default_control_mode : Option String
  pub default_setpoint : Option F64
  pub default_fan_pwm : Option ℤ
  pub default_kp : Option F64
  pub default_ki : Option F64
  pub default_kd : Option F64
  pub max_temp : Option F64
  pub min_fan_pwm : Option ℤ
  pub telemetry_interval_ms : Option ℤ
  pub created_at : ℕ
  pub updated_at : ℕ

pub record CreateDeviceProfileRequest (F64 : Type 0) : Type 0 where
  pub name : String
  pub description : Option String
  pub default_control_mode : Option String
  pub default_setpoint : Option F64
  pub default_fan_pwm : Option ℤ
  pub default_kp : Option F64
  pub default_ki : Option F64
  pub default_kd : Option F64
  pub max_temp : Option F64
  pub min_fan_pwm : Option ℤ
  pub telemetry_interval_ms : Option ℤ

pub record UpdateDeviceProfileRequest (F64 : Type 0) : Type 0 where
  pub name : Option String
  pub description : Option String
  pub default_control_mode : Option String
  pub default_setpoint : Option F64
  pub default_fan_pwm : Option ℤ
  pub default_kp : Option F64
  pub default_ki : Option F64
  pub default_kd : Option F64
  pub max_temp : Option F64
  pub min_fan_pwm : Option ℤ
  pub telemetry_interval_ms : Option ℤ
