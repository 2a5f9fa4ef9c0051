-- ===== src/Consumer.antt =====
-- `mqtt_consumer_loop` of crates/server/src/main.rs: what each event of the MQTT service does to
-- the caches, the gauges and the tables. The clocks and the new UUIDs are arguments, and the errors
-- that the loop only logs leave the tables as they are.
pub mod Discovery
pub mod Connectivity
pub mod Registry
pub mod DeviceSocket
mod Examples
use rust_roast.Prelude.{
  ℕ, suc, ℤ, pos, String, Bool, true, false, List, [], ◌∷◌, ◌++◌, Option, none, some, Result, ok,
  err, str_eq, if◌then◌else◌, Dict, lookup, insert,
}
use rust_roast.Host.{Host}
use rust_roast.Topics as Topics
use rust_roast.Topics.{parse_roaster_topic, autotune_sub}
use rust_roast.Mqtt.{MqttEvent, connected, disconnected, publish, pub_ack}
use rust_roast.Models.DeviceStatus.{DeviceStatus, pending}
use rust_roast.Models.Protocol.{mqtt}
use rust_roast.Models.DeviceRows.{Device, CreateDeviceRequest, CreateConnectionRequest}
use rust_roast.Telemetry as Telemetry
use rust_roast.Telemetry.{TelemetryService, process_telemetry, is_due}
use rust_roast.Devices as Devices
use rust_roast.Devices.{get_device_by_device_id, create_device, update_last_seen}
use rust_roast.Devices.Connections.{add_connection}

-- What the environment gives while one event is handled.
pub record Env : Type 0 where
  pub device_uuid : String
  pub connection_uuid : String
  pub point_id : String
  pub now : ℕ
  pub instant : ℕ

abbrev pub discovery_request : String → CreateDeviceRequest
discovery_request device_id = record {
  name = device_id;
  device_id = device_id;
  profile_id = none;
  description = some "Auto-discovered via MQTT";
  location = none;
}

-- A row of `autotune_status` or `autotune_results`.
pub record AutotuneRow : Type 0 where
  pub device_id : String
  pub ts : ℕ
  pub payload : String

module _ (h : Host) where
  open h use {Value, get, as_str, as_i64, of_object, of_str, of_i64, from_slice, from_utf8_lossy}

  pub record DeviceInfo : Type 0 where
    pub device_id : String
    pub last_seen : ℕ
    pub id : Option String
    pub ip : Option String
    pub version : Option String
    pub rssi : Option ℤ
    pub status_raw : Option Value

  -- `mqtt_connected`, `mqtt_rx_total` and `status_last_seen` are metrics.
  pub record Consumer : Type 0 where
    pub mqtt_connected : ℕ
    pub mqtt_rx_total : ℕ
    pub status_last_seen : Dict ℕ
    pub telemetry_service : TelemetryService h
    pub device_db : Devices.Db h
    pub device_registry : Dict DeviceInfo
    pub autotune_status_cache : Dict (Value × ℕ)
    pub autotune_results_cache : Dict (Value × ℕ)
    pub autotune_status : List AutotuneRow
    pub autotune_results : List AutotuneRow

  abbrev pub connection_request : String → CreateConnectionRequest Value
  connection_request device_id = record {
    protocol = mqtt;
    enabled = some true;
    priority = some (pos 0);
    config = of_object (
        ("topic_prefix", of_str (Topics.◌++◌ "roaster/" device_id)) ∷ ("qos", of_i64 (pos 0)) ∷ []);
  }

  -- The status that the message is recorded with; an unknown device is created, with a connection.
  unfoldable pub discover : Devices.Db h → String → Env → Option DeviceStatus × Devices.Db h
  discover db device_id env = elim (get_device_by_device_id h db device_id) [
    | some dev ↦ (some dev.device.status, db)
    | none ↦
        let (answer, db') =
          create_device h db (discovery_request device_id) env.device_uuid env.now in
        elim answer [
          | err e ↦ (none, db')
          | ok dev ↦ (
            some pending,
            (add_connection h db' dev.id (connection_request device_id) env.connection_uuid
                env.now).1,
          )
        ]
  ]

  -- `process_telemetry`, and the call of `update_last_seen` that it makes when one is due.
  unfoldable pub on_telemetry : Consumer → String → Value → Env → Consumer
  unfolding discover
  on_telemetry c device_id val env =
      let (device_status, db) = discover c.device_db device_id env in
      let due = is_due (lookup device_id c.telemetry_service.last_seen_debounce) env.instant in
      record c {
        telemetry_service =
            process_telemetry h c.telemetry_service device_id val device_status env.point_id env.now
              env.instant;
        device_db = if due then update_last_seen h db device_id env.now else db;
      }

  abbrev pub text_field : Value → String → Option String
  text_field val key = elim (get val key) [ none ↦ none | some v ↦ as_str v ]

  abbrev pub int_field : Value → String → Option ℤ
  int_field val key = elim (get val key) [ none ↦ none | some v ↦ as_i64 v ]

  -- `reg.entry(device_id).or_insert(…)`
  abbrev pub entry_or_insert : Dict DeviceInfo → String → ℕ → DeviceInfo
  entry_or_insert reg device_id now = elim (lookup device_id reg) [
    | some entry ↦ entry
    | none ↦ record {
      device_id = device_id;
      last_seen = now;
      id = none;
      ip = none;
      version = none;
      rssi = none;
      status_raw = none;
    }
  ]

  abbrev pub with_status : Value → ℕ → DeviceInfo → DeviceInfo
  with_status val now entry = record entry {
    last_seen = now;
    status_raw = some val;
    id = text_field val "id";
    ip = text_field val "ip";
    version = text_field val "version";
    rssi = int_field val "rssi";
  }

  unfoldable pub on_status : Consumer → String → Value → Env → Consumer
  on_status c device_id val env = record c {
    status_last_seen = insert device_id env.now c.status_last_seen;
    device_registry =
        insert device_id
          (with_status val env.now (entry_or_insert c.device_registry device_id env.now))
          c.device_registry;
  }

  abbrev pub autotune_row : String → ℕ → List ℕ → AutotuneRow
  autotune_row device_id now payload = record {
    device_id = device_id;
    ts = now;
    payload = from_utf8_lossy payload;
  }

  unfoldable pub on_autotune : Consumer → String → String → Value → List ℕ → Env → Consumer
  on_autotune c sub device_id val payload env =
      if str_eq sub "status"
      then record c {
        autotune_status_cache = insert device_id (val, env.now) c.autotune_status_cache;
        autotune_status = c.autotune_status ++ autotune_row device_id env.now payload ∷ [];
      }
      else if str_eq sub "results"
      then record c {
        autotune_results_cache = insert device_id (val, env.now) c.autotune_results_cache;
        autotune_results = c.autotune_results ++ autotune_row device_id env.now payload ∷ [];
      }
      else c

  -- A payload that is no JSON is dropped, as is a kind that is none of the three.
  unfoldable pub on_payload : Consumer → String → String → String → List ℕ → Env → Consumer
  unfolding on_telemetry on_status on_autotune
  on_payload c topic device_id kind payload env =
      if str_eq kind "telemetry"
      then elim (from_slice payload) [ none ↦ c | some val ↦ on_telemetry c device_id val env ]
      else if str_eq kind "status"
      then elim (from_slice payload) [ none ↦ c | some val ↦ on_status c device_id val env ]
      else if str_eq kind "autotune"
      then elim (autotune_sub topic) [
        | none ↦ c
        | some sub ↦ elim (from_slice payload) [
          | none ↦ c
          | some val ↦ on_autotune c sub device_id val payload env
        ]
      ]
      else c

  abbrev pub counted : Consumer → Consumer
  counted c = record c { mqtt_rx_total = suc c.mqtt_rx_total }

  -- One round of the loop.
  unfoldable pub consume : Consumer → MqttEvent → Env → Consumer
  unfolding on_payload
  consume c connected env = record c { mqtt_connected = 1 }
  consume c disconnected env = record c { mqtt_connected = 0 }
  consume c (publish topic payload) env = elim (parse_roaster_topic topic) [
    | none ↦ counted c
    | some (device_id, kind) ↦ on_payload (counted c) topic device_id kind payload env
  ]
  consume c (pub_ack pkid) env = c

  -- The state after the events, the newest event first.
  unfoldable pub consumed : Consumer → List (MqttEvent × Env) → Consumer
  unfolding consume
  consumed c [] = c
  consumed c ((event, env) ∷ history) = consume (consumed c history) event env
