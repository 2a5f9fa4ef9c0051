-- ===== src/Devices/Examples.antt =====
-- The theorems of the device service at a concrete history, with the sample host.
use rust_roast.Prelude.{false, List, [], ◌∷◌, none, some, err, ◌≡◌, refl, pos, ℤ}
use rust_roast.Sample.{sample, SampleValue, text, num}
use rust_roast.Models.Protocol.{mqtt}
use rust_roast.Models.DeviceStatus.{pending}
use rust_roast.Models.ModbusRegisterType.{input}
use rust_roast.Models.ModbusDataType.{int16}
use rust_roast.Models.ConnectionRows.{TestConnectionRequest}
use rust_roast.Models.DeviceRows.{
  CreateDeviceRequest, CreateDeviceProfileRequest, CreateConnectionRequest, CreateRegisterMapEntry,
}
use rust_roast.Telemetry as Telemetry
use rust_roast.Telemetry.{TelemetryService, Received}
use rust_roast.RegisterMaps as RegisterMaps
use rust_roast.Devices as Service
use rust_roast.Devices.Routes as Routes
use rust_roast.Devices.Profiles as Profiles
use rust_roast.Devices.Connections as Connections
use rust_roast.Devices.{Db}
use rust_roast.Devices.Routes.{not_found}
use rust_roast.Devices.Requests.{
  Request, post_device, delete_device, post_profile, delete_profile, post_connection,
  put_register_map, handle, handled,
}
use rust_roast.Devices.Integrity.{IsLinked}
use rust_roast.Devices.Integrity.Histories.{handled-IsLinked}
use rust_roast.Devices.Integrity.Errors.{handle-error_unchanged}
use rust_roast.Devices.ConnectionTest.{device_of, test_mqtt_connection}
use rust_roast.Devices.ConnectionTest.Freshness.{mqtt_test-is_fresh}

abbrev empty : Db sample
empty = record {
  devices = [];
  device_profiles = [];
  device_connections = [];
  modbus_register_maps = [];
}

empty-IsLinked : IsLinked sample empty
empty-IsLinked = record {
  ids = tt;
  names = tt;
  profile_ids = tt;
  connection_ids = tt;
  connections = tt;
  registers = tt;
  profiles = tt;
}

abbrev roaster : CreateDeviceRequest
roaster = record {
  name = "Roaster";
  device_id = "esp32-001";
  profile_id = some "p1";
  description = none;
  location = none;
}

abbrev profile : CreateDeviceProfileRequest ℤ
profile = record {
  name = "Light";
  description = none;
  default_control_mode = some "auto";
  default_setpoint = some (pos 200);
  default_fan_pwm = none;
  default_kp = none;
  default_ki = none;
  default_kd = none;
  max_temp = some (pos 240);
  min_fan_pwm = none;
  telemetry_interval_ms = none;
}

abbrev connection : CreateConnectionRequest SampleValue
connection = record {
  protocol = mqtt;
  enabled = none;
  priority = none;
  config = text "roaster/esp32-001";
}

abbrev bean_temp : CreateRegisterMapEntry ℤ
bean_temp = record {
  register_type = input;
  address = pos 0;
  name = "bean_temp";
  data_type = int16;
  byte_order = none;
  scale_factor = none;
  offset = none;
  unit = none;
  description = none;
  writable = none;
}

-- Newest first.
abbrev requests : List (Request sample)
requests =
    delete_profile "p1"
    ∷ put_register_map "d1" ((bean_temp, "r1") ∷ [])
    ∷ post_connection "d1" connection "c1" 30
    ∷ post_device roaster "d2" 25
    ∷ post_device roaster "d1" 20
    ∷ post_profile profile "p1" 10
    ∷ []

-- The second device of the name was refused.
one_device :
    (handled sample empty requests).devices
    ≡ record {
      id = "d1";
      name = "Roaster";
      device_id = "esp32-001";
      profile_id = none;
      status = pending;
      description = none;
      location = none;
      created_at = 20;
      updated_at = 20;
      last_seen_at = none;
    }
      ∷ []
unfolding handled handle Routes.delete_device_profile Profiles.delete_profile
    Routes.set_register_map Service.get_device Routes.add_connection Routes.create_device
    Service.create_device Routes.create_device_profile Profiles.create_profile
    Connections.add_connection Connections.set_register_map RegisterMaps.set_register_map
    RegisterMaps.insert_registers
one_device = refl

handled-IsLinked_example : IsLinked sample (handled sample empty requests)
handled-IsLinked_example = handled-IsLinked sample empty requests empty-IsLinked

missing :
    (handle sample (handled sample empty requests) (delete_device "d9")).0
    ≡ err (not_found "Device")
unfolding handled handle Routes.delete_device Service.delete_device Routes.delete_device_profile
    Profiles.delete_profile Routes.set_register_map Service.get_device Routes.add_connection
    Routes.create_device Service.create_device Routes.create_device_profile Profiles.create_profile
    Connections.add_connection Connections.set_register_map RegisterMaps.set_register_map
    RegisterMaps.insert_registers
missing = refl

handle-error_unchanged_example :
    (handle sample (handled sample empty requests) (delete_device "d9")).1
    ≡ handled sample empty requests
handle-error_unchanged_example =
    handle-error_unchanged sample (handled sample empty requests) (delete_device "d9")
      (not_found "Device") handled-IsLinked_example missing

abbrev service : TelemetryService sample
service = record {
  telemetry_last_seen = [];
  telemetry_cache = [];
  broadcast = [];
  telemetry = [];
  roast_sessions = [];
  session_telemetry = [];
  last_seen_debounce = [];
  last_seen_updates = [];
}

abbrev message : Received sample
message = record {
  device_id = "esp32-001";
  payload = num (pos 190);
  device_status = none;
  point_id = "t1";
  now = 1000;
  instant = 0;
}

abbrev test : TestConnectionRequest SampleValue
test = record { protocol = mqtt; config = text ""; device_id = some "esp32-001" }

mqtt_test-is_fresh_example :
    (test_mqtt_connection sample
      (Telemetry.after sample service (message ∷ [])).telemetry_cache
      test
      1031).success
    ≡ false
unfolding device_of
mqtt_test-is_fresh_example =
    mqtt_test-is_fresh sample service (message ∷ []) test 1031 "esp32-001" refl
