-- ===== src/Control/Delivery.antt =====
-- Where a command goes.
use rust_roast.Prelude.{
  ℕ, ◌≤◌, String, Bool, true, false, Option, none, some, ◌≡◌, ◌≢◌, ◌⊎◌, arith, lookup, insert,
  lookup-insert, eq_iff, to_decimal, if◌then◌else◌, Option-cases, inl, inr, Bool-cases,
}
use rust_roast.Topics.{
  ◌++◌, parse_roaster_topic, has_slash, control_heater_pwm, control_emergency_stop,
}
use rust_roast.Topics.Laws.{
  parse-control_emergency_stop, parse-control_heater_pwm, parse-nested_device,
}
use rust_roast.Control.{
  Response, no_content, AppState, Sender, Env, PublishOpts, unwrap_or, publish_mqtt, send,
  publish_qos1_and_maybe_wait_ack, publish_with, api_emergency_stop, api_set_heater_pwm,
}

-- The sender of a device whose receiver is still there.
abbrev pub live_sender : AppState → String → Option Sender
live_sender state d = elim (lookup d state.device_ws_senders) [
  | none ↦ none
  | some tx ↦ if tx.receiving then some tx else none
]

-- The command in the queue of the device's WebSocket while its receiver is there, and over MQTT
-- otherwise, with the answer that each gives.
abbrev pub over_socket : AppState → String → Sender → String → String → Response × AppState
over_socket state device_id tx topic payload = (
  no_content,
  record state {
    device_ws_senders = insert device_id (send tx topic payload) state.device_ws_senders;
  },
)

publish_mqtt-senders :
    (state : AppState) (topic payload : String) (wait_ack : Bool) (env : Env)
    → (publish_mqtt state topic payload wait_ack env).1.device_ws_senders ≡ state.device_ws_senders
unfolding publish_mqtt
publish_mqtt-senders state topic payload wait_ack env = ground arith

-- A command goes over MQTT, or into the queue of a device that is registered.
pub publish-cases :
    (s : AppState) (topic payload : String) (opts : PublishOpts) (env : Env)
    → (publish_with s topic payload opts env
        ≡ publish_mqtt s topic payload (unwrap_or opts.wait_ack false) env)
      ⊎ ((d : String) × (tx : Sender) × (lookup d s.device_ws_senders ≡ some tx)
          × (publish_with s topic payload opts env ≡ over_socket s d tx topic payload))
unfolding publish_qos1_and_maybe_wait_ack
publish-cases s topic payload opts env = elim (Option-cases (parse_roaster_topic topic)) [
  | inl e ↦ inl (ground arith)
  | inr ((d, kind), e) ↦ elim (Option-cases (lookup d s.device_ws_senders)) [
    | inl f ↦ inl (ground arith)
    | inr (tx, f) ↦ elim (Bool-cases tx.receiving) [
      | inl r ↦ inr (d, tx, f, ground arith)
      | inr r ↦ inl (ground arith)
    ]
  ]
]

module _ (state : AppState) (d topic payload kind : String) (opts : PublishOpts) (env : Env)
    (reads : parse_roaster_topic topic ≡ some (d, kind)) where
  publish-socket :
      (tx : Sender)
      → lookup d state.device_ws_senders ≡ some tx
      → tx.receiving ≡ true
      → publish_with state topic payload opts env ≡ over_socket state d tx topic payload
  unfolding publish_qos1_and_maybe_wait_ack
  publish-socket tx e r = ground arith

  -- No other device's channel is touched.
  publish-others :
      (e : String)
      → e ≢ d
      → lookup e (publish_with state topic payload opts env).1.device_ws_senders
        ≡ lookup e state.device_ws_senders
  unfolding publish_qos1_and_maybe_wait_ack
  publish-others e ne = elim (Option-cases (lookup d state.device_ws_senders)) [
    | inl missing ↦
        ground (arith, publish_mqtt-senders state topic payload (unwrap_or opts.wait_ack false) env)
    | inr (tx, found) ↦ ground (
      arith,
      publish_mqtt-senders state topic payload (unwrap_or opts.wait_ack false) env,
      lookup-insert d e (send tx topic payload) state.device_ws_senders,
      eq_iff d e,
    )
  ]

-- The emergency stop of a device whose id has no slash. If the device is connected by WebSocket,
-- the stop is put into that device's queue and the answer is success, whatever MQTT does. If it
-- is not, or its receiver is gone, the stop is published at the device's topic, and the answer is
-- success or a failed wait if the client takes the publish, and the error 502 if it does not.
pub emergency_stop-routes :
    (state : AppState) (d : String) (opts : PublishOpts) (env : Env)
    → has_slash d ≡ false
    → api_emergency_stop state d opts env ≡ (elim (live_sender state d) [
      | some tx ↦ over_socket state d tx (control_emergency_stop d) "1"
      | none ↦ publish_mqtt state (control_emergency_stop d) "1" (unwrap_or opts.wait_ack false) env
    ])
unfolding api_emergency_stop publish_qos1_and_maybe_wait_ack
emergency_stop-routes state d opts env h = ground (arith, parse-control_emergency_stop d h)

-- A heater command for a device whose id has no slash touches no other device's channel.
pub set_heater_pwm-others :
    (state : AppState) (d e : String) (opts : PublishOpts) (value : ℕ) (env : Env)
    → has_slash d ≡ false
    → e ≢ d
    → lookup e (api_set_heater_pwm state d opts value env).1.device_ws_senders
      ≡ lookup e state.device_ws_senders
unfolding api_set_heater_pwm
set_heater_pwm-others state d e opts value env h ne = ground (
  arith,
  publish-others state d (control_heater_pwm d) (to_decimal value) "control" opts env
      (parse-control_heater_pwm d h) e ne,
)

-- A heater command for the device id `a/b` goes to the device `a`, if that one is connected by
-- WebSocket: it is put into the queue of `a`.
pub set_heater_pwm-nested :
    (state : AppState) (a b : String) (tx : Sender) (opts : PublishOpts) (value : ℕ) (env : Env)
    → has_slash a ≡ false
    → has_slash b ≡ false
    → lookup a state.device_ws_senders ≡ some tx
    → tx.receiving ≡ true
    → value ≤ 100
    → api_set_heater_pwm state (a ++ "/" ++ b) opts value env
      ≡ over_socket state a tx (control_heater_pwm (a ++ "/" ++ b)) (to_decimal value)
unfolding api_set_heater_pwm
set_heater_pwm-nested state a b tx opts value env ha hb e r le = ground (
  arith,
  publish-socket state a (control_heater_pwm (a ++ "/" ++ b)) (to_decimal value) b opts env
      (parse-nested_device a b ha hb) tx e r,
)
