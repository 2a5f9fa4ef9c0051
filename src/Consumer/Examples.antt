-- ===== src/Consumer/Examples.antt =====
-- The theorems of the consumer at a concrete history, with the sample host.
use rust_roast.Prelude.{true, List, [], ◌∷◌, some, ◌≡◌, refl, pos, lookup, if◌then◌else◌}
use rust_roast.Sample.{sample, num}
use rust_roast.Models.DeviceStatus.{pending}
use rust_roast.Topics.{parse_roaster_topic, telemetry_topic, has_slash}
use rust_roast.Mqtt.{MqttEvent, Poll, connected, publish, conn_ack, incoming_publish, poll_error}
use rust_roast.Devices.{Db, discovered, get_device_by_device_id}
use rust_roast.Devices.Integrity.{IsLinked}
use rust_roast.Consumer.{Env, Consumer, discover, consumed, consume, counted, discovery_request}
use rust_roast.Consumer.DeviceSocket.{on_device_text, consume-on_device_text}
use rust_roast.Consumer.Discovery.{consumed-IsLinked, discover-answers, new_device, mqtt_connection}
use rust_roast.Consumer.Connectivity.{run, gauge-ready}
use rust_roast.Consumer.Registry.{info_of, registry-newest}

abbrev no_devices : Db sample
no_devices = record {
  devices = [];
  device_profiles = [];
  device_connections = [];
  modbus_register_maps = [];
}

no_devices-IsLinked : IsLinked sample no_devices
no_devices-IsLinked = record {
  ids = tt;
  names = tt;
  profile_ids = tt;
  connection_ids = tt;
  connections = tt;
  registers = tt;
  profiles = tt;
}

abbrev start : Consumer sample
start = record {
  mqtt_connected = 0;
  mqtt_rx_total = 0;
  status_last_seen = [];
  telemetry_service = record {
    telemetry_last_seen = [];
    telemetry_cache = [];
    broadcast = [];
    telemetry = [];
    roast_sessions = [];
    session_telemetry = [];
    last_seen_debounce = [];
    last_seen_updates = [];
  };
  device_db = no_devices;
  device_registry = [];
  autotune_status_cache = [];
  autotune_results_cache = [];
  autotune_status = [];
  autotune_results = [];
}

abbrev env : Env
env = record {
  device_uuid = "d1";
  connection_uuid = "c1";
  point_id = "t1";
  now = 1000;
  instant = 0;
}

abbrev later : Env
later = record {
  device_uuid = "d2";
  connection_uuid = "c2";
  point_id = "t2";
  now = 1002;
  instant = 2000;
}

-- Newest first.
abbrev events : List (MqttEvent × Env)
events =
    (publish "roaster/esp32-001/telemetry" (190 ∷ []), later)
    ∷ (publish "roaster/esp32-001/status" (7 ∷ []), later)
    ∷ (publish "roaster/esp32-001/telemetry" (180 ∷ []), env)
    ∷ (connected, env)
    ∷ []

consumed-IsLinked_example : IsLinked sample (consumed sample start events).device_db
consumed-IsLinked_example = consumed-IsLinked sample start events no_devices-IsLinked

discover-answers_example :
    ((discover sample no_devices "esp32-001" env).0 ≡ some pending)
    × (get_device_by_device_id sample (discover sample no_devices "esp32-001" env).1 "esp32-001"
        ≡ some (record {
          device = new_device sample "esp32-001" env;
          connections = mqtt_connection sample "esp32-001" env ∷ [];
        }))
unfolding get_device_by_device_id
discover-answers_example =
    discover-answers sample no_devices "esp32-001" env no_devices-IsLinked refl refl refl

abbrev rounds : List (Poll × Env)
rounds =
    (incoming_publish "roaster/esp32-001/telemetry" (190 ∷ []), later)
    ∷ (conn_ack, later)
    ∷ (poll_error true, env)
    ∷ (conn_ack, env)
    ∷ []

gauge-ready_example :
    (run sample start rounds).1.mqtt_connected
    ≡ (if (run sample start rounds).0.ready then 1 else 0)
gauge-ready_example = gauge-ready sample start rounds refl

registry-newest_example :
    lookup "esp32-001" (consumed sample start events).device_registry
    ≡ some (info_of sample "esp32-001" (num (pos 7)) 1002)
unfolding parse_roaster_topic
registry-newest_example = registry-newest sample start events "esp32-001" refl

abbrev known : Consumer sample
known = record start {
  device_db = record no_devices { devices = discovered (discovery_request "esp32") "d1" 900 ∷ [] };
}

consume-on_device_text_example :
    consume sample known (publish (telemetry_topic "esp32") (123 ∷ 125 ∷ [])) env
    ≡ on_device_text sample (counted sample known) "esp32" "{}" env
unfolding get_device_by_device_id
consume-on_device_text_example =
    consume-on_device_text sample known "esp32"
      (record { device = discovered (discovery_request "esp32") "d1" 900; connections = [] })
      (123 ∷ 125 ∷ []) "{}" env (unfold has_slash in refl) refl refl
