-- ===== src/Telemetry/Examples.antt =====
-- The theorems of the telemetry service at concrete messages, with the sample host.
use rust_roast.Prelude.{Result, ok, err, ℕ, String, List, [], ◌∷◌, ◌++◌, none, some, ◌≡◌, refl, pos}
use rust_roast.Sample.{sample, num, SampleValue, object}
use rust_roast.Models.DeviceStatus.{DeviceStatus}
use rust_roast.Models.SessionRows.{RoastSession, CreateSessionRequest}
use rust_roast.Sessions.{planned, started}
use rust_roast.Telemetry.{TelemetryService, Received, after}
use rust_roast.Telemetry.Debounce.{IsDebounced, telemetry-IsDebounced}
use rust_roast.Telemetry.Cache.{telemetry-poll}
use rust_roast.Modbus.{ModbusSharedState}
use rust_roast.Poller.{poll_modbus_registers, default_register_map}
use rust_roast.Poller.EndToEnd.{read_from_server, fields}

abbrev request : CreateSessionRequest
request = record {
  name = "Guji";
  device_id = "esp32-001";
  profile_id = none;
  bean_origin = none;
  bean_variety = none;
  green_weight = none;
  target_roast_level = none;
  notes = none;
  ambient_temp = none;
  humidity = none;
}

abbrev session : String → RoastSession
session id = started 1100 (planned request id 1000)

abbrev service : List RoastSession → TelemetryService sample
service sessions = record {
  telemetry_last_seen = [];
  telemetry_cache = [];
  broadcast = [];
  telemetry = [];
  roast_sessions = sessions;
  session_telemetry = [];
  last_seen_debounce = [];
  last_seen_updates = [];
}

abbrev payload : SampleValue
payload = object (("beanTemp", pos 180) ∷ [])

abbrev message : ℕ → Received sample
message instant = record {
  device_id = "esp32-001";
  payload = payload;
  device_status = some DeviceStatus.active;
  point_id = "p1";
  now = 1160;
  instant = instant;
}

start : IsDebounced sample (service [])
start = record { newest = λ d. refl; spaced = tt }

telemetry-IsDebounced_example :
    IsDebounced sample
      (after sample (service []) (message 12000 ∷ message 3000 ∷ message 1000 ∷ []))
telemetry-IsDebounced_example =
    telemetry-IsDebounced sample (service []) (message 12000 ∷ message 3000 ∷ message 1000 ∷ [])
      start

abbrev server : ModbusSharedState sample
server = record { telemetry_cache = []; device_id = "esp32-001"; holding_registers = [] }

abbrev no_holding : ℕ → ℕ → Result String (List ℕ)
no_holding addr cnt = err "no such register"

telemetry-poll_example :
    poll_modbus_registers sample
      (read_from_server sample (record server {
        telemetry_cache = (after sample (service []) (message 3000 ∷ [])).telemetry_cache;
      }))
      no_holding
      (default_register_map sample)
      1161
    ≡ some (ok (sample.of_object (fields sample payload ++ ("timestamp", num (pos 1161)) ∷ [])))
telemetry-poll_example =
    telemetry-poll sample (service []) (message 3000 ∷ []) server no_holding 1161 {ts = 1160} refl
