-- ===== src/Control/TestRoutes.antt =====
-- The two routes of crates/server/src/main.rs that publish a message of a device for tests, and
-- their `publish_ok`.
use rust_roast.Prelude.{
  ℕ, suc, pos, negsuc, String, Bool, [], ◌∷◌, Option, none, some, if◌then◌else◌,
}
use rust_roast.Host.{Host}
use rust_roast.Topics as Topics
use rust_roast.Topics.{telemetry_topic, status_topic}
use rust_roast.Control.{Response, AppState, Command, no_content, bad_gateway}

-- A publish at QoS 0, with whether the client takes it: the answer, the metrics, and the message.
unfoldable pub publish_ok :
    AppState → String → String → Bool → Response × (AppState × Option Command)
publish_ok state topic payload takes =
    if takes
    then (
      no_content,
      (
        record state { mqtt_tx_total = suc state.mqtt_tx_total },
        some (record { topic = topic; payload = payload }),
      ),
    )
    else (bad_gateway, (state, none))

module _ (h : Host) where
  open h use {Value, of_f64, of_int, of_i64, of_str, of_object, to_json}

  -- A number with a fraction in the source.
  abbrev pub real : ℕ → Value
  real n = of_f64 (of_int (pos n))

  abbrev pub sample_telemetry : Value
  sample_telemetry = of_object (
      ("timestamp", of_i64 (pos 0))
      ∷ ("beanTemp", real 100)
      ∷ ("envTemp", real 90)
      ∷ ("rateOfRise", real 10)
      ∷ ("heaterPWM", of_i64 (pos 50))
      ∷ ("fanPWM", of_i64 (pos 180))
      ∷ ("setpoint", real 200)
      ∷ ("controlMode", of_i64 (pos 1))
      ∷ ("heaterEnable", of_i64 (pos 1))
      ∷ ("uptime", of_i64 (pos 1))
      ∷ ("Kp", real 15)
      ∷ ("Ki", real 1)
      ∷ ("Kd", real 25)
      ∷ ("freeHeap", of_i64 (pos 0))
      ∷ ("rssi", of_i64 (negsuc 39))
      ∷ ("systemStatus", of_i64 (pos 0))
      ∷ [])

  abbrev pub sample_status : String → Value
  sample_status device_id = of_object (
      ("status", of_str "online")
      ∷ ("id", of_str (Topics.◌++◌ device_id "-TEST"))
      ∷ ("ip", of_str "127.0.0.1")
      ∷ ("rssi", of_i64 (negsuc 39))
      ∷ ("freeHeap", of_i64 (pos 123456))
      ∷ ("version", of_str "test")
      ∷ [])

  abbrev pub body_or : Option Value → Value → String
  body_or none default = to_json default
  body_or (some v) default = to_json v

  unfoldable pub api_test_emit_telemetry :
      AppState → String → Option Value → Bool → Response × (AppState × Option Command)
  unfolding publish_ok
  api_test_emit_telemetry state device_id maybe_body takes =
      publish_ok state (telemetry_topic device_id) (body_or maybe_body sample_telemetry) takes

  unfoldable pub api_test_emit_status :
      AppState → String → Option Value → Bool → Response × (AppState × Option Command)
  unfolding publish_ok
  api_test_emit_status state device_id maybe_body takes =
      publish_ok state (status_topic device_id) (body_or maybe_body (sample_status device_id)) takes
