-- ===== src/Control/Allowed.antt =====
-- The commands that the control routes send, over any history.
use rust_roast.Prelude.{
  ℕ, ◌≤◌, String, Bool, true, List, [], ◌∷◌, none, ltb, ◌≡◌, ◌⊎◌, arith, pos, All, str_eq, eq_iff,
  to_decimal, if◌then◌else◌, Bool-cases, Option-cases, inl, inr,
}
use rust_roast.Host.{Host}
use rust_roast.Topics.{
  control_setpoint, control_fan_pwm, control_heater_pwm, control_mode, control_heater_enable,
  control_pid, control_emergency_stop, autotune_start, autotune_stop, autotune_apply,
}
use rust_roast.Control.{
  AppState, Sender, Command, Env, PublishOpts, within, api_set_fan_pwm, api_set_heater_pwm,
  api_set_heater_enable, api_emergency_stop, api_autotune_stop, api_autotune_apply,
  api_set_setpoint, api_set_mode, api_set_pid, AutoTuneStartPayload, autotune_refusal,
  autotune_json, api_autotune_start,
}
use rust_roast.Control.Requests as Requests
use rust_roast.Control.Outgoing.{
  IsSafe, publish-IsSafe, forward_command-IsSafe, insert-IsSafe, AllValues-remove,
}

module _ (h : Host) where
  open h use {F64, of_int, show_f64, of_f64, of_object, to_json, to_lowercase}

  -- The commands that the control routes are meant to send.
  pub data IsAllowed : Command → Type 0 where
    setpoint :
        (d : String) (x : F64)
        → within h (of_int (pos 0)) (of_int (pos 300)) x ≡ true
        → IsAllowed (record { topic = control_setpoint d; payload = show_f64 x })
    fan_pwm :
        (d : String) (n : ℕ)
        → n ≤ 255
        → IsAllowed (record { topic = control_fan_pwm d; payload = to_decimal n })
    heater_pwm :
        (d : String) (n : ℕ)
        → n ≤ 100
        → IsAllowed (record { topic = control_heater_pwm d; payload = to_decimal n })
    mode :
        (d : String) (m : String)
        → (m ≡ "auto") ⊎ (m ≡ "manual")
        → IsAllowed (record { topic = control_mode d; payload = m })
    heater_enable :
        (d : String) (on : Bool)
        → IsAllowed (record { topic = control_heater_enable d; payload = if on then "1" else "0" })
    pid :
        (d : String) (kp ki kd : F64)
        → IsAllowed (record {
          topic = control_pid d;
          payload =
              to_json (of_object (("kp", of_f64 kp) ∷ ("ki", of_f64 ki) ∷ ("kd", of_f64 kd) ∷ []));
        })
    emergency_stop :
        (d : String) → IsAllowed (record { topic = control_emergency_stop d; payload = "1" })
    start :
        (d : String) (body : AutoTuneStartPayload h)
        → autotune_refusal h body ≡ none
        → IsAllowed (record { topic = autotune_start d; payload = to_json (autotune_json h body) })
    stop : (d : String) → IsAllowed (record { topic = autotune_stop d; payload = "1" })
    apply : (d : String) → IsAllowed (record { topic = autotune_apply d; payload = "1" })

  fan_pwm-IsSafe :
      (s : AppState) (d : String) (opts : PublishOpts) (n : ℕ) (env : Env)
      → IsSafe IsAllowed s
      → IsSafe IsAllowed (api_set_fan_pwm s d opts n env).1
  unfolding api_set_fan_pwm
  fan_pwm-IsSafe s d opts n env v = elim (Bool-cases (ltb 255 n)) [
    | inl e ↦ rw (api_set_fan_pwm, e) v
    | inr e ↦
        rw (api_set_fan_pwm, e)
          (publish-IsSafe IsAllowed s (control_fan_pwm d) (to_decimal n) opts env
            (fan_pwm d n (ground arith)) v)
  ]

  heater_pwm-IsSafe :
      (s : AppState) (d : String) (opts : PublishOpts) (n : ℕ) (env : Env)
      → IsSafe IsAllowed s
      → IsSafe IsAllowed (api_set_heater_pwm s d opts n env).1
  unfolding api_set_heater_pwm
  heater_pwm-IsSafe s d opts n env v = elim (Bool-cases (ltb 100 n)) [
    | inl e ↦ rw (api_set_heater_pwm, e) v
    | inr e ↦
        rw (api_set_heater_pwm, e)
          (publish-IsSafe IsAllowed s (control_heater_pwm d) (to_decimal n) opts env
            (heater_pwm d n (ground arith)) v)
  ]

  setpoint-IsSafe :
      (s : AppState) (d : String) (opts : PublishOpts) (x : F64) (env : Env)
      → IsSafe IsAllowed s
      → IsSafe IsAllowed (api_set_setpoint h s d opts x env).1
  unfolding api_set_setpoint
  setpoint-IsSafe s d opts x env v =
      elim (Bool-cases (within h (of_int (pos 0)) (of_int (pos 300)) x)) [
        | inl e ↦
            rw (api_set_setpoint, e)
              (publish-IsSafe IsAllowed s (control_setpoint d) (show_f64 x) opts env
                (setpoint d x e) v)
        | inr e ↦ rw (api_set_setpoint, e) v
      ]

  mode-IsSafe :
      (s : AppState) (d : String) (opts : PublishOpts) (m : String) (env : Env)
      → IsSafe IsAllowed s
      → IsSafe IsAllowed (api_set_mode h s d opts m env).1
  unfolding api_set_mode
  mode-IsSafe s d opts m env v = elim (Bool-cases (str_eq (to_lowercase m) "auto")) [
    | inl e ↦
        rw (api_set_mode, e)
          (publish-IsSafe IsAllowed s (control_mode d) (to_lowercase m) opts env
            (mode d (to_lowercase m) (inl ((eq_iff (to_lowercase m) "auto").0 e))) v)
    | inr e ↦ elim (Bool-cases (str_eq (to_lowercase m) "manual")) [
      | inl f ↦
          rw (api_set_mode, e, f)
            (publish-IsSafe IsAllowed s (control_mode d) (to_lowercase m) opts env
              (mode d (to_lowercase m) (inr ((eq_iff (to_lowercase m) "manual").0 f))) v)
      | inr f ↦ rw (api_set_mode, e, f) v
    ]
  ]

  autotune_start-IsSafe :
      (s : AppState) (d : String) (opts : PublishOpts) (body : AutoTuneStartPayload h) (env : Env)
      → IsSafe IsAllowed s
      → IsSafe IsAllowed (api_autotune_start h s d opts body env).1
  unfolding api_autotune_start
  autotune_start-IsSafe s d opts body env v = elim (Option-cases (autotune_refusal h body)) [
    | inl e ↦
        rw (api_autotune_start, e)
          (publish-IsSafe IsAllowed s (autotune_start d) (to_json (autotune_json h body)) opts env
            (start d body e) v)
    | inr (message, e) ↦ rw (api_autotune_start, e) v
  ]

  handle-IsSafe :
      (s : AppState) (d : String) (opts : PublishOpts) (req : Requests.Request h) (env : Env)
      → IsSafe IsAllowed s
      → IsSafe IsAllowed (Requests.handle h s d opts req env).1
  unfolding Requests.handle
  handle-IsSafe s d opts (Requests.control_setpoint x) env v = setpoint-IsSafe s d opts x env v
  handle-IsSafe s d opts (Requests.control_fan_pwm n) env v = fan_pwm-IsSafe s d opts n env v
  handle-IsSafe s d opts (Requests.control_heater_pwm n) env v = heater_pwm-IsSafe s d opts n env v
  handle-IsSafe s d opts (Requests.control_mode m) env v = mode-IsSafe s d opts m env v
  handle-IsSafe s d opts (Requests.control_heater_enable on) env v =
      unfold api_set_heater_enable in
      publish-IsSafe IsAllowed s (control_heater_enable d) (if on then "1" else "0") opts env
        (heater_enable d on) v
  handle-IsSafe s d opts (Requests.control_pid kp ki kd) env v =
      unfold api_set_pid in
      publish-IsSafe IsAllowed s (control_pid d)
        (to_json (of_object (("kp", of_f64 kp) ∷ ("ki", of_f64 ki) ∷ ("kd", of_f64 kd) ∷ []))) opts
        env (pid d kp ki kd) v
  handle-IsSafe s d opts Requests.control_emergency_stop env v =
      unfold api_emergency_stop in
      publish-IsSafe IsAllowed s (control_emergency_stop d) "1" opts env (emergency_stop d) v
  handle-IsSafe s d opts (Requests.autotune_start body) env v =
      autotune_start-IsSafe s d opts body env v
  handle-IsSafe s d opts Requests.autotune_stop env v =
      unfold api_autotune_stop in
      publish-IsSafe IsAllowed s (autotune_stop d) "1" opts env (stop d) v
  handle-IsSafe s d opts Requests.autotune_apply env v =
      unfold api_autotune_apply in
      publish-IsSafe IsAllowed s (autotune_apply d) "1" opts env (apply d) v

  -- After any history of control requests, devices that connect and disconnect, and commands
  -- forwarded to them, each command in a device's queue and each command published over MQTT is
  -- one that the routes may send: a heater value is at most 100, a fan value at most 255, a
  -- setpoint between 0 and 300, a mode `auto` or `manual`, and the autotune parameters pass every
  -- check of the start route.
  pub history-IsSafe :
      (history : List (Requests.Event h)) → IsSafe IsAllowed (Requests.after h history)
  unfolding Requests.after Requests.act
  history-IsSafe [] = record { queued = tt; sent = tt }
  history-IsSafe (Requests.requests d opts req env ∷ history) =
      handle-IsSafe (Requests.after h history) d opts req env (history-IsSafe history)
  history-IsSafe (Requests.connects d ∷ history) =
      unfold Requests.register_device in
      insert-IsSafe IsAllowed (Requests.after h history) d (record { receiving = true; queue = [] })
        tt (history-IsSafe history)
  history-IsSafe (Requests.forwards d ∷ history) =
      forward_command-IsSafe IsAllowed (Requests.after h history) d (history-IsSafe history)
  history-IsSafe (Requests.disconnects d ∷ history) =
      unfold Requests.unregister_device in
      record {
        queued =
            AllValues-remove (λ (tx : Sender). All IsAllowed tx.queue) d
              (Requests.after h history).device_ws_senders (history-IsSafe history).queued;
        sent = (history-IsSafe history).sent;
      }
