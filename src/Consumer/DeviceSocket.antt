-- ===== src/Consumer/DeviceSocket.antt =====
-- The WebSocket of a device in crates/server/src/main.rs: who is let in, and what the telemetry of
-- a device does to the service that the MQTT consumer uses too.
use rust_roast.Prelude.{
  ℕ, String, Bool, true, false, List, none, some, ok, err, ◌≡◌, refl, if◌then◌else◌, lookup,
  Option-cases, inl, inr,
}
use rust_roast.Host.{Host}
use rust_roast.Topics as Topics
use rust_roast.Topics.{telemetry_topic, has_slash}
use rust_roast.Topics.Laws.{parse-telemetry_topic}
use rust_roast.Mqtt.{publish}
use rust_roast.Sessions.Summary.{option_map}
use rust_roast.Sessions.Routes.{Reply}
use rust_roast.Models.DeviceStatus.{DeviceStatus, active, to_string}
use rust_roast.Telemetry.{process_telemetry, is_due}
use rust_roast.Devices as Devices
use rust_roast.Devices.{DeviceWithConnections, get_device_by_device_id, update_last_seen}
use rust_roast.Consumer.{Consumer, Env, consume, counted, on_payload, on_telemetry, discover}

abbrev pub is_active : DeviceStatus → Bool
is_active active = true
is_active _ = false

module _ (h : Host) where
  open h use {Value, from_json, from_slice}

  -- The answer to the upgrade: only an active device is let in.
  unfoldable pub ws_device_telemetry : Devices.Db h → String → Reply (Unit {0})
  ws_device_telemetry db device_id = elim (get_device_by_device_id h db device_id) [
    | none ↦ err (404, Topics.◌++◌ "Device '" (Topics.◌++◌ device_id "' not found"))
    | some dev ↦
        if is_active dev.device.status
        then ok (101, tt)
        else err (
          403,
          Topics.◌++◌ "Device '" (
              Topics.◌++◌ device_id (
                Topics.◌++◌ "' is not active (status: "
                  (Topics.◌++◌ (to_string dev.device.status) ")"))),
        )
  ]

  -- A text from the device in `device_ws_loop`, with the call of `update_last_seen` that
  -- `process_telemetry` makes when one is due.
  unfoldable pub on_device_text : Consumer h → String → String → Env → Consumer h
  on_device_text c device_id text env = elim (from_json text) [
    | none ↦ c
    | some val ↦
        let device_status =
          option_map (λ (d : DeviceWithConnections h). d.device.status)
            (get_device_by_device_id h c.device_db device_id) in
        let due = is_due (lookup device_id c.telemetry_service.last_seen_debounce) env.instant in
        record c {
          telemetry_service =
              process_telemetry h c.telemetry_service device_id val device_status env.point_id
                env.now env.instant;
          device_db = if due then update_last_seen h c.device_db device_id env.now else c.device_db;
        }
  ]

  discover-known :
      (db : Devices.Db h) (device_id : String) (env : Env) (dev : DeviceWithConnections h)
      → get_device_by_device_id h db device_id ≡ some dev
      → discover h db device_id env ≡ (some dev.device.status, db)
  unfolding discover
  discover-known db device_id env dev e = rw (discover, e) refl

  -- The telemetry of a device that is in the table, under an id without a slash: an MQTT message on
  -- its topic leaves the same state as the same JSON text over its WebSocket, but for the counter of
  -- the MQTT messages.
  pub consume-on_device_text :
      (c : Consumer h) (device_id : String) (dev : DeviceWithConnections h) (payload : List ℕ)
      (text : String) (env : Env)
      → has_slash device_id ≡ false
      → get_device_by_device_id h c.device_db device_id ≡ some dev
      → from_slice payload ≡ from_json text
      → consume h c (publish (telemetry_topic device_id) payload) env
        ≡ on_device_text (counted h c) device_id text env
  unfolding consume on_payload on_telemetry on_device_text
  consume-on_device_text c device_id dev payload text env k e same =
      rw (consume, parse-telemetry_topic device_id k, same)
        (elim (Option-cases (from_json text)) [
          | inl f ↦ rw (on_device_text, f) refl
          | inr (val, f) ↦
              rw (on_device_text, f, e, discover-known (counted h c).device_db device_id env dev e)
                refl
        ])
