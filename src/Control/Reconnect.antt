-- ===== src/Control/Reconnect.antt =====
-- A device whose WebSocket connects again before the older connection is cleaned up.
use rust_roast.Prelude.{
  String, true, false, [], ◌∷◌, none, ◌≡◌, lookup, insert, lookup-insert, lookup-remove, eq_iff,
  arith,
}
use rust_roast.Topics.{has_slash, control_emergency_stop}
use rust_roast.Control.{
  no_content, AppState, Env, PublishOpts, unwrap_or, publish_mqtt, api_emergency_stop,
}
use rust_roast.Control.Delivery.{emergency_stop-routes}
use rust_roast.Control.Requests.{register_device, unregister_device}

-- A device whose id has no slash connects by WebSocket a second time, whatever was there of it
-- before. An emergency stop for it then goes into the channel of the second connection, which is
-- open and empty, and the answer is success. If the first connection is cleaned up before the stop,
-- the device has no channel, and the stop is published over MQTT.
pub stale_cleanup-routes :
    (s : AppState) (d : String) (opts : PublishOpts) (env : Env)
    → has_slash d ≡ false
    → (api_emergency_stop (register_device (register_device s d) d) d opts env ≡ (
      no_content,
      record s {
        device_ws_senders =
            insert d
              (record {
                receiving = true;
                queue = record { topic = control_emergency_stop d; payload = "1" } ∷ [];
              })
              (register_device (register_device s d) d).device_ws_senders;
      },
    ))
      × ((lookup d (unregister_device (register_device (register_device s d) d) d).device_ws_senders
            ≡ none)
          × (api_emergency_stop
                (unregister_device (register_device (register_device s d) d) d)
                d
                opts
                env
              ≡ publish_mqtt
                  (unregister_device (register_device (register_device s d) d) d)
                  (control_emergency_stop d)
                  "1"
                  (unwrap_or opts.wait_ack false)
                  env))
unfolding register_device unregister_device
stale_cleanup-routes s d opts env h = ground (
  arith,
  emergency_stop-routes (register_device (register_device s d) d) d opts env h,
  lookup-insert d d (record { receiving = true; queue = [] })
      (register_device s d).device_ws_senders,
  emergency_stop-routes (unregister_device (register_device (register_device s d) d) d) d opts env
      h,
  lookup-remove d d (register_device (register_device s d) d).device_ws_senders,
  eq_iff d d,
)
