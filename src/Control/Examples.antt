-- ===== src/Control/Examples.antt =====
-- The theorems of the control routes at concrete requests, with the sample host.
use rust_roast.Prelude.{
  String, lookup, insert, true, false, List, [], ◌∷◌, none, some, ◌≡◌, ◌≢◌, refl, arith, eq_iff,
  pos,
}
use rust_roast.Sample.{sample}
use rust_roast.Topics.{has_slash, control_emergency_stop}
use rust_roast.Mqtt.{pub_ack}
use rust_roast.Control.{
  no_content, AppState, Env, event, PublishOpts, unwrap_or, publish_mqtt, api_emergency_stop,
}
use rust_roast.Control.Delivery.{live_sender, over_socket, emergency_stop-routes}
use rust_roast.Control.Requests.{
  register_device, unregister_device, Event, requests, connects, forwards, control_setpoint,
  control_heater_pwm as heater, after,
}
use rust_roast.Control.Outgoing.{IsSafe}
use rust_roast.Control.Allowed.{IsAllowed, history-IsSafe}
use rust_roast.Control.Reconnect.{stale_cleanup-routes}

abbrev two_devices : AppState
two_devices = record {
  device_ws_senders =
      ("esp32-001", record { receiving = true; queue = [] })
      ∷ ("esp32-002", record { receiving = true; queue = [] })
      ∷ [];
  published = [];
  mqtt_tx_total = 0;
}

abbrev opts : PublishOpts
opts = record { wait_ack = some true; timeout_ms = none }

abbrev env : Env
env = record { takes = true; wait = event (pub_ack 1) }

distinct : ◌≢◌ {A = String} "esp32-002" "esp32-001"
distinct = ground (arith, eq_iff "esp32-002" "esp32-001")

emergency_stop-routes_example :
    api_emergency_stop two_devices "esp32-001" opts env
    ≡ (elim (live_sender two_devices "esp32-001") [
      | some tx ↦ over_socket two_devices "esp32-001" tx (control_emergency_stop "esp32-001") "1"
      | none ↦
          publish_mqtt two_devices
            (control_emergency_stop "esp32-001")
            "1"
            (unwrap_or opts.wait_ack false)
            env
    ])
unfolding has_slash
emergency_stop-routes_example = emergency_stop-routes two_devices "esp32-001" opts env refl

-- Newest first.
abbrev history : List (Event sample)
history =
    requests "esp32-001" opts (heater 101) env
    ∷ forwards "esp32-001"
    ∷ requests "esp32-001" opts (heater 80) env
    ∷ requests "esp32-002" opts (control_setpoint (pos 210)) env
    ∷ connects "esp32-001"
    ∷ []

history-IsSafe_example : IsSafe (IsAllowed sample) (after sample history)
history-IsSafe_example = history-IsSafe sample history

abbrev connected_twice : AppState
connected_twice = register_device (register_device two_devices "esp32-001") "esp32-001"

stale_cleanup-routes_example :
    (api_emergency_stop connected_twice "esp32-001" opts env ≡ (
      no_content,
      record two_devices {
        device_ws_senders =
            insert "esp32-001"
              (record {
                receiving = true;
                queue = record { topic = control_emergency_stop "esp32-001"; payload = "1" } ∷ [];
              })
              connected_twice.device_ws_senders;
      },
    ))
    × ((lookup "esp32-001" (unregister_device connected_twice "esp32-001").device_ws_senders ≡ none)
        × (api_emergency_stop (unregister_device connected_twice "esp32-001") "esp32-001" opts env
            ≡ publish_mqtt
                (unregister_device connected_twice "esp32-001")
                (control_emergency_stop "esp32-001")
                "1"
                (unwrap_or opts.wait_ack false)
                env))
unfolding has_slash
stale_cleanup-routes_example = stale_cleanup-routes two_devices "esp32-001" opts env refl
