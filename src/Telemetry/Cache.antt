-- ===== src/Telemetry/Cache.antt =====
-- The telemetry cache, which the Modbus server reads.
use rust_roast.Prelude.{
  ℕ, String, List, [], ◌∷◌, ◌++◌, Option, some, ◌≡◌, refl, ◌∙◌, str_eq, if◌then◌else◌, lookup,
  lookup-insert, Result, ok, pos,
}
use rust_roast.Host.{Host}
use rust_roast.Modbus.{ModbusSharedState}
use rust_roast.Poller.{poll_modbus_registers, default_register_map}
use rust_roast.Poller.EndToEnd.{read_from_server, fields, poll-server}
use rust_roast.Telemetry.{TelemetryService, Received, process_telemetry, after}

module _ (h : Host) where
  open h use {Value, of_object, of_i64}

  -- The newest message of a device, with its time; failing one, what was there before.
  abbrev pub newest : String → List (Received h) → Option (Value × ℕ) → Option (Value × ℕ)
  newest d [] before = before
  newest d (m ∷ history) before =
      let older = newest d history before in
      if str_eq m.device_id d then some (m.payload, m.now) else older

  pub cache-newest :
      (s : TelemetryService h) (d : String) (history : List (Received h))
      → lookup d (after h s history).telemetry_cache ≡ newest d history (lookup d s.telemetry_cache)
  unfolding after process_telemetry
  cache-newest s d [] = refl
  cache-newest s d (m ∷ history) =
      rw
        (
          lookup-insert m.device_id d (m.payload, m.now) (after h s history).telemetry_cache,
          cache-newest s d history,
        )
        refl

  -- After any history of telemetry messages, of any devices, that holds a message of the device
  -- of the Modbus server, or with one in the cache before: a client that polls the server with the
  -- standard layout gets the fields of the newest message of that device.
  pub telemetry-poll :
      (s : TelemetryService h) (history : List (Received h)) (state : ModbusSharedState h)
      (read_holding : ℕ → ℕ → Result String (List ℕ)) (now : ℕ) {payload : Value} {ts : ℕ}
      → newest state.device_id history (lookup state.device_id s.telemetry_cache)
        ≡ some (payload, ts)
      → poll_modbus_registers h
          (read_from_server h
            (record state { telemetry_cache = (after h s history).telemetry_cache }))
          read_holding
          (default_register_map h)
          now
        ≡ some (ok (of_object (fields h payload ++ ("timestamp", of_i64 (pos now)) ∷ [])))
  telemetry-poll s history state read_holding now e =
      poll-server h (record state { telemetry_cache = (after h s history).telemetry_cache })
        read_holding now (cache-newest s state.device_id history ∙ e)
