-- ===== src/Devices/ConnectionTest/Freshness.antt =====
-- When the MQTT test of a connection succeeds.
use rust_roast.Prelude.{
  ℕ, ◌-◌, String, Bool, false, List, Option, none, some, ◌≡◌, refl, leb, lookup, Option-cases, inl,
  inr, Bool-cases,
}
use rust_roast.Host.{Host}
use rust_roast.Models.ConnectionRows.{TestConnectionRequest}
use rust_roast.Telemetry.{TelemetryService, Received, after}
use rust_roast.Telemetry.Cache.{newest, cache-newest}
use rust_roast.Devices.ConnectionTest.{device_of, test_mqtt_connection}

module _ (h : Host) where
  open h use {Value}

  -- A message of at most thirty seconds ago.
  abbrev pub is_fresh : ℕ → Option (Value × ℕ) → Bool
  is_fresh now none = false
  is_fresh now (some (val, ts)) = leb (now - ts) 30

  -- After any history of telemetry messages, of any devices, the MQTT test of a connection to a
  -- device succeeds exactly when the newest message of that device is at most thirty seconds old.
  pub mqtt_test-is_fresh :
      (s : TelemetryService h) (history : List (Received h)) (req : TestConnectionRequest Value)
      (now : ℕ) (d : String)
      → device_of h req ≡ some d
      → (test_mqtt_connection h (after h s history).telemetry_cache req now).success
        ≡ is_fresh now (newest h d history (lookup d s.telemetry_cache))
  unfolding test_mqtt_connection
  mqtt_test-is_fresh s history req now d e =
      elim (Option-cases (newest h d history (lookup d s.telemetry_cache))) [
        | inl f ↦ rw (test_mqtt_connection, e, cache-newest h s d history, f) refl
        | inr ((val, ts), f) ↦ elim (Bool-cases (leb (now - ts) 30)) [
          | inl k ↦ rw (test_mqtt_connection, e, cache-newest h s d history, f, k) refl
          | inr k ↦ rw (test_mqtt_connection, e, cache-newest h s d history, f, k) refl
        ]
      ]
