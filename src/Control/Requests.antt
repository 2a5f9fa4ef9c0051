-- ===== src/Control/Requests.antt =====
-- The control routes of crates/server/src/main.rs, and what `device_ws_loop` does to the channels
-- of the devices.
use rust_roast.Prelude.{ℕ, String, Bool, true, List, [], ◌∷◌, none, some, lookup, insert, remove}
use rust_roast.Host.{Host}
use rust_roast.Control.{
  Response, AppState, Command, Env, PublishOpts, api_set_fan_pwm, api_set_heater_pwm,
  api_set_heater_enable, api_emergency_stop, api_autotune_stop, api_autotune_apply,
  api_set_setpoint, api_set_mode, api_set_pid, AutoTuneStartPayload, api_autotune_start,
}

-- `device_ws_loop`, from its start to its loop: a new channel, in place of an older one.
unfoldable pub register_device : AppState → String → AppState
register_device state device_id = record state {
  device_ws_senders =
      insert device_id (record { receiving = true; queue = [] }) state.device_ws_senders;
}

-- `rx.recv()`: all but the oldest command of a queue, which holds the newest first.
abbrev pub received : List Command → List Command
received [] = []
received (c ∷ []) = []
received (c ∷ d ∷ cs) = c ∷ received (d ∷ cs)

unfoldable pub forward_command : AppState → String → AppState
forward_command state device_id = elim (lookup device_id state.device_ws_senders) [
  | none ↦ state
  | some tx ↦ record state {
    device_ws_senders =
        insert device_id (record tx { queue = received tx.queue }) state.device_ws_senders;
  }
]

-- The cleanup at the end of `device_ws_loop`.
unfoldable pub unregister_device : AppState → String → AppState
unregister_device state device_id = record state {
  device_ws_senders = remove device_id state.device_ws_senders;
}

module _ (h : Host) where
  open h use {F64}

  -- What follows `/api/roaster/:device_id/`, with the decoded body.
  pub data Request : Type 0 where
    control_setpoint : F64 → Request
    control_fan_pwm control_heater_pwm : ℕ → Request
    control_mode : String → Request
    control_heater_enable : Bool → Request
    control_pid : F64 → F64 → F64 → Request
    control_emergency_stop : Request
    autotune_start : AutoTuneStartPayload h → Request
    autotune_stop autotune_apply : Request

  unfoldable pub handle : AppState → String → PublishOpts → Request → Env → Response × AppState
  handle s d opts (control_setpoint value) env = api_set_setpoint h s d opts value env
  handle s d opts (control_fan_pwm value) env = api_set_fan_pwm s d opts value env
  handle s d opts (control_heater_pwm value) env = api_set_heater_pwm s d opts value env
  handle s d opts (control_mode mode) env = api_set_mode h s d opts mode env
  handle s d opts (control_heater_enable enabled) env = api_set_heater_enable s d opts enabled env
  handle s d opts (control_pid kp ki kd) env = api_set_pid h s d opts kp ki kd env
  handle s d opts control_emergency_stop env = api_emergency_stop s d opts env
  handle s d opts (autotune_start body) env = api_autotune_start h s d opts body env
  handle s d opts autotune_stop env = api_autotune_stop s d opts env
  handle s d opts autotune_apply env = api_autotune_apply s d opts env

  -- What happens to the server's state, one access of the shared maps at a time.
  pub data Event : Type 0 where
    requests : String → PublishOpts → Request → Env → Event
    connects forwards disconnects : String → Event

  unfoldable pub act : AppState → Event → AppState
  unfolding handle register_device forward_command unregister_device
  act s (requests d opts req env) = (handle s d opts req env).1
  act s (connects d) = register_device s d
  act s (forwards d) = forward_command s d
  act s (disconnects d) = unregister_device s d

  -- The state after the events, the newest event first.
  unfoldable pub after : List Event → AppState
  unfolding act
  after [] = record { device_ws_senders = []; published = []; mqtt_tx_total = 0 }
  after (e ∷ history) = act (after history) e
