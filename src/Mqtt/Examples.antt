-- ===== src/Mqtt/Examples.antt =====
-- The theorems of the MQTT service at concrete histories.
use rust_roast.Prelude.{true, List, [], ◌∷◌, ◌≡◌, lookup}
use rust_roast.Mqtt.{at_least_once, conn_ack, poll_error, Action, polls, subscribes, act, after}
use rust_roast.Mqtt.Laws.{last_subscribed, subscriptions_restored}

-- Newest first.
abbrev history : List Action
history =
    polls (poll_error true)
    ∷ subscribes "roaster/+/telemetry" at_least_once true
    ∷ polls conn_ack
    ∷ []

subscriptions_restored_example :
    (lookup "roaster/+/telemetry" (act (after history) (polls conn_ack)).1.subscribed
      ≡ last_subscribed "roaster/+/telemetry" history)
    × (lookup "roaster/+/telemetry" (after (polls conn_ack ∷ history)).subscriptions
        ≡ last_subscribed "roaster/+/telemetry" history)
subscriptions_restored_example = subscriptions_restored history "roaster/+/telemetry"
