-- ===== src/Devices/ConnectionTest.antt =====
-- `test_connection` of crates/server/src/routes/devices.rs: the three tests of a connection. What
-- `serde_json` reads from the settings, what the attempt on the network gave, and the milliseconds
-- it took are arguments.
pub mod Freshness
use Prim.Native.Char.{Char, code}
use Prim.Native.String.{[], ◌∷◌}
use rust_roast.Prelude.{
  ℕ, ◌*◌, ◌-◌, String, Bool, true, false, List, Option, none, some, Result, ok, err, leb, nat_eq,
  if◌then◌else◌, lookup, Dict, to_decimal,
}
use rust_roast.Host.{Host}
use rust_roast.Topics.{◌++◌}
use rust_roast.Models.Protocol.{mqtt, web_socket, modbus_tcp}
use rust_roast.Models.ConnectionRows.{
  TestConnectionRequest, TestConnectionResponse, WebSocketConnectionConfig,
  ModbusTcpConnectionConfig,
}

-- `s.strip_prefix(prefix)`
unfoldable pub strip_prefix : String → String → Option String
strip_prefix [] s = some s
strip_prefix (p ∷ ps) [] = none
strip_prefix (p ∷ ps) (c ∷ s) =
    let rest = strip_prefix ps s in if nat_eq (code p) (code c) then rest else none

-- What `timeout` returns: the result of the attempt, or that it took too long.
pub data Attempt (A : Type 0) : Type 0 where
  finished : Result String A → Attempt A
  elapsed : Attempt A

abbrev pub succeeded : String → Option ℕ → TestConnectionResponse
succeeded message latency_ms = record { success = true; message = message; latency_ms = latency_ms }

abbrev pub failed : String → Option ℕ → TestConnectionResponse
failed message latency_ms = record { success = false; message = message; latency_ms = latency_ms }

abbrev pub unwrap_or : String → Option String → String
unwrap_or default none = default
unwrap_or default (some s) = s

-- The device of a topic prefix, which is the prefix itself when it has another form.
abbrev pub device_of_prefix : Option String → Option String
unfolding strip_prefix
device_of_prefix none = none
device_of_prefix (some prefix) = some (unwrap_or prefix (strip_prefix "roaster/" prefix))

abbrev pub quoted : String → String
quoted device_id = "Device '" ++ device_id ++ "' last seen "

-- The answer by the age of the newest message of the device.
abbrev pub by_age : String → ℕ → TestConnectionResponse
by_age device_id age_secs =
    if leb age_secs 30
    then succeeded
        ("Receiving telemetry from device '"
          ++ device_id
          ++ "' (last seen "
          ++ to_decimal age_secs
          ++ "s ago)")
        (some (age_secs * 1000))
    else failed (quoted device_id ++ to_decimal age_secs ++ "s ago (stale, threshold is 30s)") none

abbrev pub no_telemetry : String → TestConnectionResponse
no_telemetry device_id =
    failed
      ("No telemetry found for device '" ++ device_id
        ++ "'. Ensure the device is powered on and publishing MQTT telemetry.")
      none

module _ (h : Host) where
  open h use {Value, get, as_str}

  -- `config.get("topic_prefix").and_then(|v| v.as_str())`
  abbrev pub topic_prefix : Value → Option String
  topic_prefix config = elim (get config "topic_prefix") [ none ↦ none | some v ↦ as_str v ]

  unfoldable pub device_of : TestConnectionRequest Value → Option String
  device_of req = elim req.device_id [
    | some id ↦ some id
    | none ↦ device_of_prefix (topic_prefix req.config)
  ]

  unfoldable pub test_mqtt_connection :
      Dict (Value × ℕ) → TestConnectionRequest Value → ℕ → TestConnectionResponse
  unfolding device_of
  test_mqtt_connection cache req now = elim (device_of req) [
    | none ↦ failed "No device_id provided and could not extract from topic_prefix" none
    | some device_id ↦ elim (lookup device_id cache) [
      | none ↦ no_telemetry device_id
      | some (val, ts) ↦ by_age device_id (now - ts)
    ]
  ]

  abbrev pub address : ModbusTcpConnectionConfig → String
  address config = config.host ++ ":" ++ to_decimal config.port

  module _ (modbus_config : Value → Result String ModbusTcpConnectionConfig)
      (websocket_config : Value → Result String WebSocketConnectionConfig)
      (parse_addr : String → Result String (Unit {0})) (show_registers : List ℕ → String) where
    unfoldable pub test_modbus_connection :
        TestConnectionRequest Value → Attempt (List ℕ) → ℕ → TestConnectionResponse
    test_modbus_connection req result latency_ms = elim (modbus_config req.config) [
      | err e ↦ failed ("Invalid Modbus TCP config: " ++ e) none
      | ok config ↦ elim (parse_addr (address config)) [
        | err e ↦ failed ("Invalid address '" ++ address config ++ "': " ++ e) none
        | ok addr ↦ elim result [
          | finished (ok registers) ↦
              succeeded
                ("Connected to "
                  ++ address config
                  ++ " (unit "
                  ++ to_decimal config.unit_id
                  ++ "). Read registers 0x0000-0x0001: "
                  ++ show_registers registers)
                (some latency_ms)
          | finished (err e) ↦
              failed ("Failed to connect to " ++ address config ++ ": " ++ e) (some latency_ms)
          | elapsed ↦
              failed ("Connection to " ++ address config ++ " timed out after 5 seconds")
                (some 5000)
        ]
      ]
    ]

    unfoldable pub test_websocket_connection :
        TestConnectionRequest Value → Attempt (Unit {0}) → ℕ → TestConnectionResponse
    test_websocket_connection req result latency_ms = elim (websocket_config req.config) [
      | err e ↦ failed ("Invalid WebSocket config: " ++ e) none
      | ok config ↦ elim result [
        | finished (ok t) ↦
            succeeded ("Connected to " ++ config.url ++ " and received a message") (some latency_ms)
        | finished (err e) ↦
            failed ("Failed to connect to " ++ config.url ++ ": " ++ e) (some latency_ms)
        | elapsed ↦
            failed ("Connection to " ++ config.url ++ " timed out after 5 seconds") (some 5000)
      ]
    ]

    unfoldable pub test_connection :
        Dict (Value × ℕ)
        → TestConnectionRequest Value
        → ℕ
        → Attempt (List ℕ)
        → Attempt (Unit {0})
        → ℕ
        → TestConnectionResponse
    unfolding test_mqtt_connection test_modbus_connection test_websocket_connection
    test_connection cache req now read_result socket_result latency_ms = elim req.protocol [
      | mqtt ↦ test_mqtt_connection cache req now
      | modbus_tcp ↦ test_modbus_connection req read_result latency_ms
      | web_socket ↦ test_websocket_connection req socket_result latency_ms
    ]
