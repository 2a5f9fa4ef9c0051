-- ===== src/Mqtt/Laws.antt =====
-- What holds of the MQTT service after any history of calls and events.
use native.Mathlib.Nat.{pow-suc}
use rust_roast.Prelude.{
  ℕ, zero, suc, ◌^◌, ◌≤◌, ◌≡◌, refl, min, String, Bool, true, false, List, [], ◌∷◌, ◌++◌, Option,
  none, some, lookup, lookup-insert, if◌then◌else◌, str_eq, arith, replicate,
}
use rust_roast.Mqtt.{
  QoS, conn_ack, incoming_publish, incoming_pub_ack, outgoing_disconnect, other, poll_error,
  MqttService, Action, polls, subscribes, disconnects, act, after,
}

-- The wait of a round is between one second and thirty if it follows an error, and there is none
-- otherwise; the backoff stays between one second and sixty.
pub record IsBounded (s : MqttService) : Type 0 where
  pub low : 1 ≤ s.backoff_secs
  pub high : s.backoff_secs ≤ 60

act-IsBounded : (s : MqttService) (a : Action) → IsBounded s → IsBounded (act s a).0
unfolding act
act-IsBounded s (polls p) v = ground arith
act-IsBounded s (subscribes topic qos accepted) v = ground arith
act-IsBounded s disconnects v = ground arith

pub after-IsBounded : (history : List Action) → IsBounded (after history)
unfolding after
after-IsBounded [] = ground arith
after-IsBounded (a ∷ history) = act-IsBounded (after history) a (after-IsBounded history)

-- After any history, the wait that follows an error lasts at least one second and at most thirty,
-- and the backoff is between one second and sixty before and after it.
pub error_waits :
    (history : List Action) (rebuilt : Bool)
    → (1 ≤ (act (after history) (polls (poll_error rebuilt))).1.slept)
      × ((act (after history) (polls (poll_error rebuilt))).1.slept ≤ 30)
      × IsBounded (after history)
      × IsBounded (after (polls (poll_error rebuilt) ∷ history))
unfolding after act
error_waits history rebuilt = ground (arith, after-IsBounded history)

-- From a connection on, the backoff after `k` errors in a row is 2^k seconds, up to sixty.
pub backoff-doubles :
    (k : ℕ) (history : List Action)
    → (after (replicate k (polls (poll_error true)) ++ polls conn_ack ∷ history)).backoff_secs
      ≡ min (2 ^ k) 60
unfolding after act
backoff-doubles zero history = refl
backoff-doubles (suc k) history = omega (arith, backoff-doubles k history, pow-suc 2 k)

-- The newest successful subscription to a topic.
abbrev pub last_subscribed : String → List Action → Option QoS
last_subscribed t [] = none
last_subscribed t (subscribes topic qos accepted ∷ history) =
    let older = last_subscribed t history in
    if accepted then (if str_eq topic t then some qos else older) else older
last_subscribed t (polls p ∷ history) = last_subscribed t history
last_subscribed t (disconnects ∷ history) = last_subscribed t history

table-last_subscribed :
    (history : List Action) (t : String)
    → lookup t (after history).subscriptions ≡ last_subscribed t history
unfolding after act
table-last_subscribed [] t = unfold lookup in refl
table-last_subscribed (subscribes topic qos true ∷ history) t =
    rw (lookup-insert topic t qos (after history).subscriptions, table-last_subscribed history t)
table-last_subscribed (subscribes topic qos false ∷ history) t = table-last_subscribed history t
table-last_subscribed (disconnects ∷ history) t = table-last_subscribed history t
table-last_subscribed (polls conn_ack ∷ history) t = table-last_subscribed history t
table-last_subscribed (polls outgoing_disconnect ∷ history) t = table-last_subscribed history t
table-last_subscribed (polls (poll_error rebuilt) ∷ history) t = table-last_subscribed history t
table-last_subscribed (polls (incoming_publish topic payload) ∷ history) t =
    table-last_subscribed history t
table-last_subscribed (polls (incoming_pub_ack pkid) ∷ history) t = table-last_subscribed history t
table-last_subscribed (polls other ∷ history) t = table-last_subscribed history t

-- No subscription is forgotten over errors, rebuilt clients and disconnects: after any history
-- the table holds for each topic the newest successful subscription to it, and on a connection
-- exactly the table is requested from the broker again, and is kept.
pub subscriptions_restored :
    (history : List Action) (t : String)
    → (lookup t (act (after history) (polls conn_ack)).1.subscribed ≡ last_subscribed t history)
      × (lookup t (after (polls conn_ack ∷ history)).subscriptions ≡ last_subscribed t history)
unfolding after act
subscriptions_restored history t =
    (table-last_subscribed history t, table-last_subscribed history t)

-- The newest of the events `Connected` and `Disconnected` that a history sent.
abbrev pub last_state : List Action → Bool
last_state [] = false
last_state (polls conn_ack ∷ history) = true
last_state (polls outgoing_disconnect ∷ history) = false
last_state (polls (poll_error rebuilt) ∷ history) = false
last_state (_ ∷ history) = last_state history

-- The service reports itself ready only while the newest connectivity event that it sent is
-- `Connected`.
pub ready-last_state :
    (history : List Action) → (after history).ready ≡ true → last_state history ≡ true
unfolding after act
ready-last_state [] e = cc
ready-last_state (polls conn_ack ∷ history) e = refl
ready-last_state (polls outgoing_disconnect ∷ history) e = cc
ready-last_state (polls (poll_error rebuilt) ∷ history) e = cc
ready-last_state (polls (incoming_publish topic payload) ∷ history) e = ready-last_state history e
ready-last_state (polls (incoming_pub_ack pkid) ∷ history) e = ready-last_state history e
ready-last_state (polls other ∷ history) e = ready-last_state history e
ready-last_state (subscribes topic qos true ∷ history) e = ready-last_state history e
ready-last_state (subscribes topic qos false ∷ history) e = ready-last_state history e
ready-last_state (disconnects ∷ history) e = cc
