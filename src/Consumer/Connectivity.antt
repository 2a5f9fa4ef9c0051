-- ===== src/Consumer/Connectivity.antt =====
-- The gauge of the connection, driven by the rounds of the MQTT service.
use rust_roast.Prelude.{
  ℕ, ◌≡◌, refl, ◌∙◌, List, [], ◌∷◌, Option-cases, inl, inr, String, if◌then◌else◌, arith,
}
use rust_roast.Host.{Host}
use rust_roast.Topics.{parse_roaster_topic}
use rust_roast.Mqtt.{
  MqttService, MqttEvent, Poll, conn_ack, incoming_publish, incoming_pub_ack, outgoing_disconnect,
  other, poll_error, connect, step, publish,
}
use rust_roast.Consumer.{Env, Consumer, on_payload, counted, consume}

module _ (h : Host) where
  open h use {from_slice}

  -- The events that a round sends, in their order.
  unfoldable pub deliver : Consumer h → List MqttEvent → Env → Consumer h
  deliver c [] env = c
  deliver c (event ∷ events) env = deliver (consume h c event env) events env

  -- The service and the consumer after the rounds of the event loop, the newest round first; the
  -- consumer takes the events of a round before the next one.
  unfoldable pub run : Consumer h → List (Poll × Env) → MqttService × Consumer h
  unfolding connect
  run c [] = (connect, c)
  run c ((poll, env) ∷ rounds) =
      let (service, consumer) = run c rounds in
      let (service', effects) = step service poll in (service', deliver consumer effects.sent env)

  payload_gauge :
      (c : Consumer h) (topic device_id kind : String) (payload : List ℕ) (env : Env)
      → (on_payload h c topic device_id kind payload env).mqtt_connected ≡ c.mqtt_connected
  unfolding on_payload
  payload_gauge c topic device_id kind payload env = ground arith

  publish_gauge :
      (c : Consumer h) (topic : String) (payload : List ℕ) (env : Env)
      → (consume h c (publish topic payload) env).mqtt_connected ≡ c.mqtt_connected
  unfolding consume
  publish_gauge c topic payload env = elim (Option-cases (parse_roaster_topic topic)) [
    | inl e ↦ rw (consume, e) refl
    | inr ((device_id, kind), e) ↦
        rw (consume, e) (payload_gauge (counted h c) topic device_id kind payload env)
  ]

  -- Through any rounds of the event loop, whose events the consumer takes in their order, the gauge
  -- of the connection is one exactly when the service counts as ready, if it starts at zero.
  pub gauge-ready :
      (c : Consumer h) (rounds : List (Poll × Env))
      → c.mqtt_connected ≡ 0
      → (run c rounds).1.mqtt_connected ≡ (if (run c rounds).0.ready then 1 else 0)
  unfolding run step deliver consume connect
  gauge-ready c [] e = e
  gauge-ready c ((conn_ack, env) ∷ rounds) e = refl
  gauge-ready c ((incoming_publish topic payload, env) ∷ rounds) e =
      publish_gauge (run c rounds).1 topic payload env ∙ gauge-ready c rounds e
  gauge-ready c ((incoming_pub_ack pkid, env) ∷ rounds) e = gauge-ready c rounds e
  gauge-ready c ((outgoing_disconnect, env) ∷ rounds) e = refl
  gauge-ready c ((other, env) ∷ rounds) e = gauge-ready c rounds e
  gauge-ready c ((poll_error rebuilt, env) ∷ rounds) e = refl
