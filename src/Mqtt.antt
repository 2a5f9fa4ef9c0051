-- ===== src/Mqtt.antt =====
-- `MqttService` and its event loop: crates/mqtt/src/client.rs. The client and the broker of the
-- crate `rumqttc` are behind the events that the loop polls and the results of the requests.
pub mod Laws
pub mod Config
pub mod Reset
mod Examples
use rust_roast.Prelude.{
  ℕ, suc, ◌*◌, min, String, Bool, true, false, List, [], ◌∷◌, ◌++◌, map, Option, none, some, Result,
  ok, err, Dict, insert, if◌then◌else◌,
}

pub data QoS : Type 0 where
  at_most_once at_least_once exactly_once : QoS

pub data MqttEvent : Type 0 where
  connected disconnected : MqttEvent
  publish : String → List ℕ → MqttEvent
  pub_ack : ℕ → MqttEvent

-- What one call of `eventloop.poll()` returns; `other` is any event that the loop only logs.
pub data Poll : Type 0 where
  conn_ack : Poll
  incoming_publish : String → List ℕ → Poll
  incoming_pub_ack : ℕ → Poll
  outgoing_disconnect : Poll
  other : Poll
  -- an error, and whether a new client can be built
  poll_error : Bool → Poll

-- A request to the broker is a subscription with its topic. A new client counts as a generation.
pub record MqttService : Type 0 where
  pub ready : Bool
  pub subscriptions : Dict QoS
  pub backoff_secs : ℕ
  pub generation : ℕ

-- What a round of the loop does besides: the events sent to the subscribers of the channel, the
-- subscriptions requested from the broker, and the seconds slept.
pub record Effects : Type 0 where
  pub sent : List MqttEvent
  pub subscribed : List (String × QoS)
  pub slept : ℕ

abbrev quiet : Effects
quiet = record { sent = []; subscribed = []; slept = 0 }

-- `MqttService::connect`
unfoldable pub connect : MqttService
connect = record { ready = false; subscriptions = []; backoff_secs = 1; generation = 0 }

-- One round of `run_eventloop`. The result of a restored subscription is only logged.
unfoldable pub step : MqttService → Poll → MqttService × Effects
step s conn_ack = (
  record s { ready = true; backoff_secs = 1 },
  record quiet { sent = connected ∷ []; subscribed = s.subscriptions },
)
step s (incoming_publish topic payload) = (s, record quiet { sent = publish topic payload ∷ [] })
step s (incoming_pub_ack pkid) = (s, record quiet { sent = pub_ack pkid ∷ [] })
step s outgoing_disconnect = (record s { ready = false }, record quiet { sent = disconnected ∷ [] })
step s other = (s, quiet)
step s (poll_error rebuilt) = (
  record s {
    ready = false;
    backoff_secs = min (s.backoff_secs * 2) 60;
    generation = if rebuilt then suc s.generation else s.generation;
  },
  record quiet { sent = disconnected ∷ []; slept = min s.backoff_secs 30 },
)

-- `subscribe`, with whether the client accepts the request.
unfoldable pub subscribe : MqttService → String → QoS → Bool → MqttService
subscribe s topic qos accepted =
    if accepted then record s { subscriptions = insert topic qos s.subscriptions } else s

-- `disconnect`
unfoldable pub disconnect : MqttService → MqttService
disconnect s = record s { ready = false }

-- `resubscribe_tracked`, with whether the client accepts each request: the requests made, and
-- whether all of them were accepted. The first that is not ends the loop.
unfoldable pub resubscribe_from : List (String × QoS) → List Bool → List (String × QoS) × Bool
resubscribe_from [] accepted = ([], true)
resubscribe_from (sub ∷ subs) [] = let (made, all) = resubscribe_from subs [] in (sub ∷ made, all)
resubscribe_from (sub ∷ subs) (false ∷ accepted) = (sub ∷ [], false)
resubscribe_from (sub ∷ subs) (true ∷ accepted) =
    let (made, all) = resubscribe_from subs accepted in (sub ∷ made, all)

unfoldable pub resubscribe_tracked : MqttService → List Bool → List (String × QoS) × Bool
unfolding resubscribe_from
resubscribe_tracked s accepted = resubscribe_from s.subscriptions accepted

-- The calls and the rounds of the loop, interleaved as they happen.
pub data Action : Type 0 where
  polls : Poll → Action
  subscribes : String → QoS → Bool → Action
  disconnects : Action

unfoldable pub act : MqttService → Action → MqttService × Effects
unfolding step subscribe disconnect
act s (polls p) = step s p
act s (subscribes topic qos accepted) = (subscribe s topic qos accepted, quiet)
act s disconnects = (disconnect s, quiet)

-- The state after the actions, the newest action first.
unfoldable pub after : List Action → MqttService
unfolding act connect
after [] = connect
after (a ∷ history) = (act (after history) a).0
