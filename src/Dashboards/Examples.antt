-- ===== src/Dashboards/Examples.antt =====
-- Dashboards with the sample host.
use rust_roast.Prelude.{Bool, true, false, List, [], ◌∷◌, ◌≡◌, refl}
use rust_roast.Sample.{sample, num}
use rust_roast.Prelude.{pos}
use rust_roast.Mqtt.{connected}
use rust_roast.Dashboards.{
  Step, Event, telemetry_dashboard, debug_dashboard, telemetry, telemetry_lagged, mqtt, mqtt_lagged,
  joins, rounds, after, react,
}
use rust_roast.Dashboards.Gauge.{count_open, ws_clients-counts}
use rust_roast.Dashboards.Messages.{messages}

-- Newest first: two clients, of which the second lags and then leaves.
abbrev history : List (Step sample)
history =
    rounds 1 (mqtt_lagged, true)
    ∷ rounds 0 (mqtt_lagged, true)
    ∷ rounds 1 (mqtt connected, true)
    ∷ joins debug_dashboard
    ∷ rounds 0 (telemetry "d1" (num (pos 5)), true)
    ∷ joins telemetry_dashboard
    ∷ []

ws_clients-counts_example :
    (after sample history).ws_clients ≡ count_open (after sample history).clients
ws_clients-counts_example = ws_clients-counts sample history

one_left : (after sample history).ws_clients ≡ 1
unfolding after
one_left = refl

abbrev events : List (Event sample × Bool)
events =
    (telemetry "d1" (num (pos 5)), true)
    ∷ (telemetry_lagged, true)
    ∷ (telemetry "d1" (num (pos 6)), false)
    ∷ []

one_text : messages sample telemetry_dashboard events ≡ "{}" ∷ []
unfolding react
one_text = refl
