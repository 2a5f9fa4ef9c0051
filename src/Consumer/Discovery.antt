-- ===== src/Consumer/Discovery.antt =====
-- The devices that the consumer finds out about.
use rust_roast.Prelude.{
  ℕ, pos, String, true, false, List, [], ◌∷◌, ◌++◌, none, some, ok, ◌≡◌, refl, sym, subst, arith,
  str_eq, str_eq_refl, Bool-cases, Option-cases, Result-cases, inl, inr, find, any, lookup,
}
use rust_roast.Host.{Host}
use rust_roast.Topics as Topics
use rust_roast.Topics.{parse_roaster_topic}
use rust_roast.Mqtt.{MqttEvent, connected, disconnected, publish, pub_ack}
use rust_roast.Models.DeviceStatus.{pending}
use rust_roast.Models.Protocol.{mqtt}
use rust_roast.Models.DeviceRows.{Device, DeviceConnection}
use rust_roast.Tables.{keyed, any-find, find-append, any-append_new, select-append_new}
use rust_roast.Telemetry.{is_due}
use rust_roast.Devices.{
  Db, device_key, device_name, connection_key, of_device, create_device, get_device_by_device_id,
}
use rust_roast.Devices.Connections.{add_connection}
use rust_roast.Devices.Integrity.{IsLinked, connection_device}
use rust_roast.Devices.Integrity.Errors.{orphan}
use rust_roast.Devices.Integrity.Rows.{create_device-IsLinked, update_last_seen-IsLinked}
use rust_roast.Devices.Integrity.References.{add_connection-IsLinked}
use rust_roast.Consumer.{
  Env, Consumer, discovery_request, connection_request, discover, on_telemetry, on_status,
  on_autotune, on_payload, counted, consume, consumed,
}

module _ (h : Host) where
  open h use {Value, from_slice, of_object, of_str, of_i64}

  discover-IsLinked :
      (db : Db h) (device_id : String) (env : Env)
      → IsLinked h db
      → IsLinked h (discover h db device_id env).1
  unfolding discover
  discover-IsLinked db device_id env v =
      elim (Option-cases (get_device_by_device_id h db device_id)) [
        | inr (dev, e) ↦ rw (discover, e) v
        | inl e ↦
            let w : IsLinked h
                (create_device h db (discovery_request device_id) env.device_uuid env.now).1 =
              create_device-IsLinked h db (discovery_request device_id) env.device_uuid env.now v in
            elim (Result-cases
              (create_device h db (discovery_request device_id) env.device_uuid env.now).0) [
                | inl (m, f) ↦ rw (discover, e, f) w
                | inr (d, f) ↦
                    rw (discover, e, f)
                      (add_connection-IsLinked h
                        (create_device h db (discovery_request device_id) env.device_uuid env.now).1
                        d.id (connection_request h device_id) env.connection_uuid env.now w)
              ]
      ]

  on_telemetry-IsLinked :
      (c : Consumer h) (device_id : String) (val : Value) (env : Env)
      → IsLinked h c.device_db
      → IsLinked h (on_telemetry h c device_id val env).device_db
  unfolding on_telemetry
  on_telemetry-IsLinked c device_id val env v =
      let w : IsLinked h (discover h c.device_db device_id env).1 =
        discover-IsLinked c.device_db device_id env v in
      elim (Bool-cases
        (is_due (lookup device_id c.telemetry_service.last_seen_debounce) env.instant)) [
          | inl e ↦ rw e (
              update_last_seen-IsLinked h (discover h c.device_db device_id env).1 device_id env.now
                w)
          | inr e ↦ rw e w
        ]

  other_kinds :
      (c : Consumer h) (topic device_id kind : String) (payload : List ℕ) (env : Env)
      → str_eq kind "telemetry" ≡ false
      → (on_payload h c topic device_id kind payload env).device_db ≡ c.device_db
  unfolding on_payload on_status on_autotune
  other_kinds c topic device_id kind payload env e = ground arith

  on_payload-IsLinked :
      (c : Consumer h) (topic device_id kind : String) (payload : List ℕ) (env : Env)
      → IsLinked h c.device_db
      → IsLinked h (on_payload h c topic device_id kind payload env).device_db
  unfolding on_payload
  on_payload-IsLinked c topic device_id kind payload env v =
      elim (Bool-cases (str_eq kind "telemetry")) [
        | inr e ↦
            subst (λ db. IsLinked h db) (sym (other_kinds c topic device_id kind payload env e)) v
        | inl e ↦ elim (Option-cases (from_slice payload)) [
          | inl f ↦ rw (e, f) v
          | inr (val, f) ↦ rw (e, f) (on_telemetry-IsLinked c device_id val env v)
        ]
      ]

  consume-IsLinked :
      (c : Consumer h) (event : MqttEvent) (env : Env)
      → IsLinked h c.device_db
      → IsLinked h (consume h c event env).device_db
  unfolding consume
  consume-IsLinked c connected env v = v
  consume-IsLinked c disconnected env v = v
  consume-IsLinked c (pub_ack pkid) env v = v
  consume-IsLinked c (publish topic payload) env v =
      elim (Option-cases (parse_roaster_topic topic)) [
        | inl e ↦ rw (consume, e) v
        | inr ((device_id, kind), e) ↦
            rw (consume, e) (on_payload-IsLinked (counted h c) topic device_id kind payload env v)
      ]

  -- Over any history of events, any payloads and new UUIDs included, the device tables that start
  -- linked stay linked: no message makes a second device of a name, or a connection without a device.
  pub consumed-IsLinked :
      (c : Consumer h) (history : List (MqttEvent × Env))
      → IsLinked h c.device_db
      → IsLinked h (consumed h c history).device_db
  unfolding consumed
  consumed-IsLinked c [] v = v
  consumed-IsLinked c ((event, env) ∷ history) v =
      consume-IsLinked (consumed h c history) event env (consumed-IsLinked c history v)

  -- The rows of a device that is found, column by column.
  abbrev pub new_device : String → Env → Device
  new_device device_id env = record {
    id = env.device_uuid;
    name = device_id;
    device_id = device_id;
    profile_id = none;
    status = pending;
    description = some "Auto-discovered via MQTT";
    location = none;
    created_at = env.now;
    updated_at = env.now;
    last_seen_at = none;
  }

  abbrev pub mqtt_connection : String → Env → DeviceConnection Value
  mqtt_connection device_id env = record {
    id = env.connection_uuid;
    device_id = env.device_uuid;
    protocol = mqtt;
    enabled = true;
    priority = pos 0;
    config = of_object (
        ("topic_prefix", of_str (Topics.◌++◌ "roaster/" device_id)) ∷ ("qos", of_i64 (pos 0)) ∷ []);
    created_at = env.now;
    updated_at = env.now;
  }

  abbrev with_device : Db h → String → Env → Db h
  with_device db device_id env = record db { devices = db.devices ++ new_device device_id env ∷ [] }

  abbrev with_connection : Db h → String → Env → Db h
  with_connection db device_id env = record db {
    device_connections = db.device_connections ++ mqtt_connection device_id env ∷ [];
  }

  module _ (db : Db h) (device_id : String) (env : Env)
      (new_name : get_device_by_device_id h db device_id ≡ none)
      (new_id : any (keyed device_key env.device_uuid) db.devices ≡ false)
      (new_connection_id : any (keyed (connection_key h) env.connection_uuid) db.device_connections
        ≡ false) where
    no_device : find (keyed device_name device_id) db.devices ≡ none
    unfolding get_device_by_device_id
    no_device = elim (Option-cases (find (keyed device_name device_id) db.devices)) [
      | inl e ↦ e
      | inr (d, e) ↦ ground arith
    ]

    create_device-new :
        create_device h db (discovery_request device_id) env.device_uuid env.now
        ≡ (ok (new_device device_id env), with_device db device_id env)
    unfolding create_device
    create_device-new =
        rw (new_id, any-find (keyed device_name device_id) db.devices no_device) refl

    add_connection-new :
        add_connection h
          (with_device db device_id env)
          env.device_uuid
          (connection_request h device_id)
          env.connection_uuid
          env.now
        ≡ (
          ok (mqtt_connection device_id env),
          with_connection (with_device db device_id env) device_id env,
        )
    unfolding add_connection
    add_connection-new =
        rw (new_connection_id, any-append_new device_key db.devices (new_device device_id env)) refl

    discover-new :
        discover h db device_id env
        ≡ (some pending, with_connection (with_device db device_id env) device_id env)
    unfolding discover
    discover-new =
        rw (discover, new_name, create_device-new, create_device-new, add_connection-new) refl

    unconnected : IsLinked h db → any (of_device h env.device_uuid) db.device_connections ≡ false
    unconnected v =
        orphan (connection_device h) device_key env.device_uuid db.devices db.device_connections
          new_id v.connections

    found :
        IsLinked h db
        → get_device_by_device_id h
            (with_connection (with_device db device_id env) device_id env)
            device_id
          ≡ some (record {
            device = new_device device_id env;
            connections = mqtt_connection device_id env ∷ [];
          })
    unfolding get_device_by_device_id
    found v =
        rw
          (find-append (keyed device_name device_id) db.devices (new_device device_id env) no_device
            (str_eq_refl device_id))
          (rw
            (select-append_new (of_device h env.device_uuid) db.device_connections
              (mqtt_connection device_id env) (unconnected v) (str_eq_refl env.device_uuid))
            refl)

  -- The first telemetry message of a name that no device has, with new UUIDs, is recorded as a
  -- message of a pending device. A read of the name then gives a pending device that bears it as its
  -- name too, with one connection: over MQTT, enabled, with priority 0, quality of service 0 and the
  -- topic prefix `roaster/` before the name.
  pub discover-answers :
      (db : Db h) (device_id : String) (env : Env)
      → IsLinked h db
      → get_device_by_device_id h db device_id ≡ none
      → any (keyed device_key env.device_uuid) db.devices ≡ false
      → any (keyed (connection_key h) env.connection_uuid) db.device_connections ≡ false
      → ((discover h db device_id env).0 ≡ some pending)
        × (get_device_by_device_id h (discover h db device_id env).1 device_id
            ≡ some (record {
              device = new_device device_id env;
              connections = mqtt_connection device_id env ∷ [];
            }))
  discover-answers db device_id env v e f k =
      rw (discover-new db device_id env e f k) (refl, found db device_id env e f k v)
