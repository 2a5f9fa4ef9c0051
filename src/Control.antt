-- ===== src/Control.antt =====
-- The control interface of crates/server/src/main.rs: the handlers that check a request and send
-- a command to a device, over the device's WebSocket if it has one and over MQTT otherwise.
mod Examples
pub mod Delivery
pub mod Requests
pub mod Outgoing
pub mod Allowed
pub mod Reconnect
pub mod TestRoutes
use rust_roast.Prelude.{
  ℕ, suc, ◌+◌, String, Bool, true, false, ◌&&◌, ◌||◌, not, List, [], ◌∷◌, ◌++◌, Option, none, some,
  pos, leb, ltb, str_eq, if◌then◌else◌, any, Dict, lookup, insert, to_decimal,
}
use rust_roast.Host.{Host}
use rust_roast.Topics.{
  parse_roaster_topic, control_setpoint, control_fan_pwm, control_heater_pwm, control_mode,
  control_heater_enable, control_pid, control_emergency_stop, autotune_start, autotune_stop,
  autotune_apply,
}
use rust_roast.Mqtt.{MqttEvent}

pub data Response : Type 0 where
  no_content : Response
  bad_request : String → Response
  gateway_timeout : Response
  bad_gateway : Response

-- The JSON text `{"type": "control", "topic": …, "payload": …}` that goes to a device.
pub record Command : Type 0 where
  pub topic : String
  pub payload : String

-- A sender of an unbounded channel: whether the receiver is still there, and what was sent.
pub record Sender : Type 0 where
  pub receiving : Bool
  pub queue : List Command

-- The parts of `AppState` that a command touches; `published` are the MQTT publishes at QoS 1 that
-- the client took, the newest first.
pub record AppState : Type 0 where
  pub device_ws_senders : Dict Sender
  pub published : List Command
  pub mqtt_tx_total : ℕ

-- What the environment answers: whether the client takes a publish, and what the wait for an event
-- yields: an event, an error of the channel, or no event in time.
pub data Wait : Type 0 where
  event : MqttEvent → Wait
  channel_error timeout : Wait

pub record Env : Type 0 where
  pub takes : Bool
  pub wait : Wait

pub record PublishOpts : Type 0 where
  pub wait_ack : Option Bool
  pub timeout_ms : Option ℕ

abbrev pub unwrap_or {ℓ} : {A : Type ℓ} → Option A → A → A
unwrap_or none a = a
unwrap_or (some b) a = b

abbrev pub after_wait : Wait → Response
after_wait (event evt) = no_content
after_wait channel_error = gateway_timeout
after_wait timeout = gateway_timeout

-- The publish over MQTT, at QoS 1.
unfoldable pub publish_mqtt : AppState → String → String → Bool → Env → Response × AppState
publish_mqtt state topic payload wait_ack env =
    if env.takes
    then (
      if wait_ack then after_wait env.wait else no_content,
      record state {
        published = record { topic = topic; payload = payload } ∷ state.published;
        mqtt_tx_total = suc state.mqtt_tx_total;
      },
    )
    else (bad_gateway, state)

-- The sender of the device that the topic names.
abbrev pub sender_of : AppState → String → Option (String × Sender)
sender_of state topic = elim (parse_roaster_topic topic) [
  | none ↦ none
  | some (device_id, kind) ↦ elim (lookup device_id state.device_ws_senders) [
    | none ↦ none
    | some tx ↦ some (device_id, tx)
  ]
]

-- `tx.send(…)`: the sender with the command in its queue.
abbrev pub send : Sender → String → String → Sender
send tx topic payload = record tx { queue = record { topic = topic; payload = payload } ∷ tx.queue }

-- The timeout only bounds the wait that `Env` stands for.
unfoldable pub publish_qos1_and_maybe_wait_ack :
    AppState → String → String → Bool → ℕ → Env → Response × AppState
publish_qos1_and_maybe_wait_ack state topic payload wait_ack timeout_ms env =
    elim (sender_of state topic) [
      | none ↦ publish_mqtt state topic payload wait_ack env
      | some (device_id, tx) ↦
          if tx.receiving
          then (
            no_content,
            record state {
              device_ws_senders = insert device_id (send tx topic payload) state.device_ws_senders;
            },
          )
          else publish_mqtt state topic payload wait_ack env
    ]

abbrev pub publish_with : AppState → String → String → PublishOpts → Env → Response × AppState
publish_with state topic payload opts env =
    publish_qos1_and_maybe_wait_ack state topic payload (unwrap_or opts.wait_ack false)
      (unwrap_or opts.timeout_ms 1000) env

unfoldable pub api_set_fan_pwm : AppState → String → PublishOpts → ℕ → Env → Response × AppState
api_set_fan_pwm state device_id opts value env =
    if ltb 255 value
    then (bad_request "fan_pwm must be 0..255", state)
    else publish_with state (control_fan_pwm device_id) (to_decimal value) opts env

unfoldable pub api_set_heater_pwm : AppState → String → PublishOpts → ℕ → Env → Response × AppState
api_set_heater_pwm state device_id opts value env =
    if ltb 100 value
    then (bad_request "heater_pwm must be 0..100", state)
    else publish_with state (control_heater_pwm device_id) (to_decimal value) opts env

unfoldable pub api_set_heater_enable :
    AppState → String → PublishOpts → Bool → Env → Response × AppState
api_set_heater_enable state device_id opts enabled env =
    publish_with state (control_heater_enable device_id) (if enabled then "1" else "0") opts env

unfoldable pub api_emergency_stop : AppState → String → PublishOpts → Env → Response × AppState
api_emergency_stop state device_id opts env =
    publish_with state (control_emergency_stop device_id) "1" opts env

unfoldable pub api_autotune_stop : AppState → String → PublishOpts → Env → Response × AppState
api_autotune_stop state device_id opts env =
    publish_with state (autotune_stop device_id) "1" opts env

unfoldable pub api_autotune_apply : AppState → String → PublishOpts → Env → Response × AppState
api_autotune_apply state device_id opts env =
    publish_with state (autotune_apply device_id) "1" opts env

module _ (h : Host) where
  open h use {
    F64, of_int, div, le, show_f64, Value, of_f64, of_str, of_object, to_json, to_lowercase,
  }

  -- `(lo..=hi).contains(&x)`
  abbrev pub within : F64 → F64 → F64 → Bool
  within lo hi x = le lo x && le x hi

  unfoldable pub api_set_setpoint :
      AppState → String → PublishOpts → F64 → Env → Response × AppState
  api_set_setpoint state device_id opts value env =
      if not (within (of_int (pos 0)) (of_int (pos 300)) value)
      then (bad_request "setpoint must be between 0 and 300 C", state)
      else publish_with state (control_setpoint device_id) (show_f64 value) opts env

  unfoldable pub api_set_mode : AppState → String → PublishOpts → String → Env → Response × AppState
  api_set_mode state device_id opts body_mode env =
      let mode = to_lowercase body_mode in
      if not (str_eq mode "auto") && not (str_eq mode "manual")
      then (bad_request "mode must be 'auto' or 'manual'", state)
      else publish_with state (control_mode device_id) mode opts env

  unfoldable pub api_set_pid :
      AppState → String → PublishOpts → F64 → F64 → F64 → Env → Response × AppState
  api_set_pid state device_id opts kp ki kd env =
      let payload =
        to_json (of_object (("kp", of_f64 kp) ∷ ("ki", of_f64 ki) ∷ ("kd", of_f64 kd) ∷ [])) in
      publish_with state (control_pid device_id) payload opts env

  pub record AutoTuneStartPayload : Type 0 where
    pub target_temperature : F64
    pub mode : Option String
    pub tuning_method : Option String
    pub bias : Option F64
    pub amplitude : Option F64
    pub hysteresis : Option F64
    pub aggressiveness : Option F64

  -- A field that is absent is not checked, and is not in the JSON text.
  abbrev pub absent_or {ℓ} : {A : Type ℓ} → (A → Bool) → Option A → Bool
  absent_or test none = true
  absent_or test (some a) = test a

  abbrev pub field {ℓ} : {A : Type ℓ} → String → (A → Value) → Option A → List (String × Value)
  field name value none = []
  field name value (some a) = (name, value a) ∷ []

  -- The decimal fraction n / 10, as a literal of the source.
  abbrev pub tenths : ℕ → F64
  tenths n = div (of_int (pos n)) (of_int (pos 10))

  abbrev pub whole : ℕ → F64
  whole n = of_int (pos n)

  abbrev pub methods : List String
  methods = "zn_classic" ∷ "tyreus_luyben" ∷ "zn_some_overshoot" ∷ "zn_no_overshoot" ∷ []

  -- The early returns of `api_autotune_start`, in order; `none` if the body passes them all.
  unfoldable pub autotune_refusal : AutoTuneStartPayload → Option String
  autotune_refusal body =
      if not (within (whole 150) (whole 250) body.target_temperature)
      then some "target_temperature must be between 150 and 250 C"
      else if not (absent_or (λ m. str_eq m "relay" || str_eq m "step_response") body.mode)
      then some "mode must be 'relay' or 'step_response'"
      else if not (absent_or (λ tm. any (str_eq tm) methods) body.tuning_method)
      then some
          "tuning_method must be one of: zn_classic, tyreus_luyben, zn_some_overshoot, zn_no_overshoot"
      else if not (absent_or (within (whole 10) (whole 90)) body.bias)
      then some "bias must be between 10.0 and 90.0"
      else if not (absent_or (within (whole 5) (whole 45)) body.amplitude)
      then some "amplitude must be between 5.0 and 45.0"
      else if not (absent_or (within (tenths 1) (whole 5)) body.hysteresis)
      then some "hysteresis must be between 0.1 and 5.0"
      else if not (absent_or (within (tenths 1) (whole 2)) body.aggressiveness)
      then some "aggressiveness must be between 0.1 and 2.0"
      else none

  -- The fields of the payload in the order of the struct.
  abbrev pub autotune_json : AutoTuneStartPayload → Value
  autotune_json body = of_object (
      ("target_temperature", of_f64 body.target_temperature)
      ∷ (field "mode" of_str body.mode
          ++ (field "tuning_method" of_str body.tuning_method
              ++ (field "bias" of_f64 body.bias
                  ++ (field "amplitude" of_f64 body.amplitude
                      ++ (field "hysteresis" of_f64 body.hysteresis
                          ++ field "aggressiveness" of_f64 body.aggressiveness))))))

  unfoldable pub api_autotune_start :
      AppState → String → PublishOpts → AutoTuneStartPayload → Env → Response × AppState
  api_autotune_start state device_id opts body env = elim (autotune_refusal body) [
    | some message ↦ (bad_request message, state)
    | none ↦ publish_with state (autotune_start device_id) (to_json (autotune_json body)) opts env
  ]
