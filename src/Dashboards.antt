-- ===== src/Dashboards.antt =====
-- The loops of the dashboards in crates/server/src/main.rs: `telemetry_ws_loop` forwards the
-- telemetry and the autotune messages, `debug_ws_loop` all MQTT events. Each round of a loop handles
-- one event; whether the socket takes a text is part of the event.
pub mod Gauge
pub mod Messages
mod Examples
use rust_roast.Prelude.{
  ℕ, suc, ◌+◌, ◌-◌, String, Bool, true, false, List, [], ◌∷◌, ◌++◌, Option, none, some, str_eq,
  if◌then◌else◌, get_elem?, set, to_decimal,
}
use rust_roast.Host.{Host}
use rust_roast.Topics as Topics
use rust_roast.Topics.{parse_roaster_topic, autotune_sub, split_slash}
use rust_roast.Artisan.Text.{starts_with}
use rust_roast.Tables.{keep_or}
use rust_roast.Sessions.Summary.{option_map}
use rust_roast.Mqtt.{MqttEvent, connected, disconnected, publish, pub_ack}

pub data Kind : Type 0 where
  telemetry_dashboard debug_dashboard : Kind

-- What a round does: a text for the socket, or the end of the loop.
pub data Reaction : Type 0 where
  ignores leaves : Reaction
  sends : String → Reaction

-- A client: the texts that its socket has taken, oldest first.
pub record Client : Type 0 where
  pub kind : Kind
  pub texts : List String
  pub is_open : Bool

-- `ws_clients` is a gauge of the metrics.
pub record Dashboards : Type 0 where
  pub ws_clients : ℕ
  pub clients : List Client

-- `split('/').nth(1)`
abbrev pub second : List String → Option String
second (_ ∷ s ∷ _) = some s
second _ = none

unfoldable pub device_of : String → Option String
unfolding split_slash starts_with
device_of topic = if starts_with "roaster/" topic then second (split_slash topic) else none

abbrev pub sends_optional : Option String → Reaction
sends_optional none = ignores
sends_optional (some text) = sends text

-- The client after a round; a text that the socket refuses ends the loop.
abbrev pub after_reaction : Client → Reaction → Bool → Client
after_reaction c ignores accepts = c
after_reaction c leaves accepts = record c { is_open = false }
after_reaction c (sends text) true = record c { texts = c.texts ++ text ∷ [] }
after_reaction c (sends text) false = record c { is_open = false }

abbrev pub ended : Client → Client → Bool
ended before after = if before.is_open then (if after.is_open then false else true) else false

module _ (h : Host) where
  open h use {
    Value, get, as_str, of_str, of_object, null, to_json, from_json, from_slice, from_utf8_lossy,
  }

  -- What the channels and the socket give to a round. A receiver that is too slow has lagged.
  pub data Event : Type 0 where
    telemetry : String → Value → Event
    telemetry_lagged telemetry_closed : Event
    mqtt : MqttEvent → Event
    mqtt_lagged mqtt_closed : Event
    client_text : String → Event
    client_closed client_error client_other : Event

  abbrev pub autotune_text : String → String → List ℕ → String
  autotune_text device_id sub payload = elim (from_slice payload) [
    | some val ↦ to_json (
        of_object (
          ("device_id", of_str device_id)
          ∷ ("autotune", of_object (("type", of_str sub) ∷ ("data", val) ∷ []))
          ∷ []))
    | none ↦ to_json (
        of_object (
          ("device_id", of_str device_id)
          ∷ (
            "autotune_raw",
            of_object (("type", of_str sub) ∷ ("data", of_str (from_utf8_lossy payload)) ∷ []),
          )
          ∷ []))
  ]

  -- A round of `telemetry_ws_loop`, which does not read its socket.
  unfoldable pub telemetry_ws_loop : Event → Reaction
  telemetry_ws_loop (telemetry device_id payload) =
      sends (to_json (of_object (("device_id", of_str device_id) ∷ ("telemetry", payload) ∷ [])))
  telemetry_ws_loop telemetry_lagged = ignores
  telemetry_ws_loop telemetry_closed = leaves
  telemetry_ws_loop (mqtt (publish topic payload)) = elim (parse_roaster_topic topic) [
    | none ↦ ignores
    | some (device_id, kind) ↦
        if str_eq kind "autotune"
        then sends_optional
            (option_map (λ sub. autotune_text device_id sub payload) (autotune_sub topic))
        else ignores
  ]
  telemetry_ws_loop (mqtt connected) = ignores
  telemetry_ws_loop (mqtt disconnected) = ignores
  telemetry_ws_loop (mqtt (pub_ack pkid)) = ignores
  telemetry_ws_loop mqtt_lagged = ignores
  telemetry_ws_loop mqtt_closed = leaves
  telemetry_ws_loop _ = ignores

  abbrev pub system_message : String → String → Value
  system_message topic payload = of_object (
      (
        "mqtt",
        of_object (
            ("topic", of_str topic)
            ∷ ("payload", of_str payload)
            ∷ ("direction", of_str "incoming")
            ∷ []),
      )
      ∷ [])

  unfoldable pub debug_message : MqttEvent → Value
  unfolding device_of
  debug_message (publish topic payload) = of_object (
      (
        "mqtt",
        of_object (
            ("topic", of_str topic)
            ∷ ("payload", keep_or (from_slice payload) (of_str (from_utf8_lossy payload)))
            ∷ ("direction", of_str "incoming")
            ∷ ("device_id", keep_or (option_map of_str (device_of topic)) null)
            ∷ []),
      )
      ∷ [])
  debug_message connected = system_message "system/connected" "MQTT connected"
  debug_message disconnected = system_message "system/disconnected" "MQTT disconnected"
  debug_message (pub_ack packet_id) =
      system_message "system/puback"
        (Topics.◌++◌ "PubAck received for packet " (to_decimal packet_id))

  -- Whether the text is a JSON object with the type `ping`.
  abbrev pub type_of : Option Value → Option String
  type_of none = none
  type_of (some parsed) = elim (get parsed "type") [ none ↦ none | some v ↦ as_str v ]

  abbrev pub is_ping : Option String → Bool
  is_ping none = false
  is_ping (some type) = str_eq type "ping"

  -- A round of `debug_ws_loop`, to which every error of the channel is its end.
  unfoldable pub debug_ws_loop : Event → Reaction
  unfolding debug_message
  debug_ws_loop (client_text text) =
      if is_ping (type_of (from_json text))
      then sends (to_json (of_object (("type", of_str "pong") ∷ [])))
      else ignores
  debug_ws_loop client_closed = leaves
  debug_ws_loop client_error = leaves
  debug_ws_loop client_other = ignores
  debug_ws_loop (mqtt evt) = sends (to_json (debug_message evt))
  debug_ws_loop mqtt_lagged = leaves
  debug_ws_loop mqtt_closed = leaves
  debug_ws_loop _ = ignores

  unfoldable pub react : Kind → Event → Reaction
  unfolding telemetry_ws_loop debug_ws_loop
  react telemetry_dashboard event = telemetry_ws_loop event
  react debug_dashboard event = debug_ws_loop event

  unfoldable pub round : Client → Event × Bool → Client
  unfolding react
  round c (event, accepts) = if c.is_open then after_reaction c (react c.kind event) accepts else c

  -- A client that joins, and a round of the loop of one of them. The gauge counts one less when the
  -- loop ends.
  pub data Step : Type 0 where
    joins : Kind → Step
    rounds : ℕ → Event × Bool → Step

  unfoldable pub step : Dashboards → Step → Dashboards
  unfolding round
  step d (joins kind) = record {
    ws_clients = suc d.ws_clients;
    clients = d.clients ++ record { kind = kind; texts = []; is_open = true } ∷ [];
  }
  step d (rounds i event) = elim (get_elem? d.clients i) [
    | none ↦ d
    | some c ↦ record {
      ws_clients = if ended c (round c event) then d.ws_clients - 1 else d.ws_clients;
      clients = set d.clients i (round c event);
    }
  ]

  -- The state after the steps, from the start of the server, the newest step first.
  unfoldable pub after : List Step → Dashboards
  unfolding step
  after [] = record { ws_clients = 0; clients = [] }
  after (s ∷ history) = step (after history) s
