-- ===== src/Consumer/Registry.antt =====
-- The registry of the devices that report a status.
use rust_roast.Prelude.{
  ℕ, String, true, false, List, [], ◌∷◌, Option, none, some, ◌≡◌, refl, sym, subst, ap, ◌∙◌, arith,
  str_eq, eq_iff, if◌then◌else◌, Bool-cases, Option-cases, inl, inr, lookup, lookup-insert, insert,
  Dict,
}
use rust_roast.Host.{Host}
use rust_roast.Topics.{parse_roaster_topic, autotune_sub}
use rust_roast.Mqtt.{MqttEvent, connected, disconnected, publish, pub_ack}
use rust_roast.Consumer.{
  Env, Consumer, DeviceInfo, text_field, int_field, entry_or_insert, with_status, on_telemetry,
  on_status, on_autotune, on_payload, counted, consume, consumed,
}

module _ (h : Host) where
  open h use {Value, from_slice}

  -- What a status message says of its device.
  abbrev pub info_of : String → Value → ℕ → DeviceInfo h
  info_of device_id val now = record {
    device_id = device_id;
    last_seen = now;
    id = text_field h val "id";
    ip = text_field h val "ip";
    version = text_field h val "version";
    rssi = int_field h val "rssi";
    status_raw = some val;
  }

  -- The status that a message has, if its payload is JSON.
  abbrev status_of : String → List ℕ → Option Value
  status_of kind payload = if str_eq kind "status" then from_slice payload else none

  -- The registry after a status, and after any other message.
  abbrev registered : Dict (DeviceInfo h) → String → ℕ → Option Value → Dict (DeviceInfo h)
  registered reg device_id now none = reg
  registered reg device_id now (some val) =
      insert device_id (with_status h val now (entry_or_insert h reg device_id now)) reg

  other_kind : (kind : String) → str_eq kind "telemetry" ≡ true → str_eq kind "status" ≡ false
  other_kind kind e =
      subst (λ k. str_eq k "status" ≡ false) (sym ((eq_iff kind "telemetry").0 e)) refl

  autotune_registry :
      (c : Consumer h) (sub device_id : String) (val : Value) (payload : List ℕ) (env : Env)
      → (on_autotune h c sub device_id val payload env).device_registry ≡ c.device_registry
  unfolding on_autotune
  autotune_registry c sub device_id val payload env = ground arith

  payload_registry :
      (c : Consumer h) (topic device_id kind : String) (payload : List ℕ) (env : Env)
      → (on_payload h c topic device_id kind payload env).device_registry
        ≡ registered c.device_registry device_id env.now (status_of kind payload)
  unfolding on_payload on_status on_telemetry
  payload_registry c topic device_id kind payload env =
      elim (Bool-cases (str_eq kind "telemetry")) [
        | inl e ↦ elim (Option-cases (from_slice payload)) [
          | inl f ↦ rw (e, other_kind kind e, f) refl
          | inr (val, f) ↦ rw (e, other_kind kind e, f) refl
        ]
        | inr e ↦ elim (Bool-cases (str_eq kind "status")) [
          | inl k ↦ elim (Option-cases (from_slice payload)) [
            | inl f ↦ rw (e, k, f) refl
            | inr (val, f) ↦ rw (e, k, f) refl
          ]
          | inr k ↦ elim (Bool-cases (str_eq kind "autotune")) [
            | inr n ↦ rw (e, k, n) refl
            | inl n ↦ elim (Option-cases (autotune_sub topic)) [
              | inl a ↦ rw (e, k, n, a) refl
              | inr (sub, a) ↦ elim (Option-cases (from_slice payload)) [
                | inl f ↦ rw (e, k, n, a, f) refl
                | inr (val, f) ↦
                    rw (e, k, n, a, f) (autotune_registry c sub device_id val payload env)
              ]
            ]
          ]
        ]
      ]

  -- The device and the status of an event.
  abbrev pub status_event : MqttEvent → Option (String × Value)
  status_event (publish topic payload) = elim (parse_roaster_topic topic) [
    | none ↦ none
    | some (device_id, kind) ↦ elim (status_of kind payload) [
      | none ↦ none
      | some val ↦ some (device_id, val)
    ]
  ]
  status_event _ = none

  abbrev newer :
      String → Option (DeviceInfo h) → ℕ → Option (String × Value) → Option (DeviceInfo h)
  newer d older now none = older
  newer d older now (some (device_id, val)) =
      if str_eq device_id d then some (info_of device_id val now) else older

  -- The newest status of a device.
  abbrev pub newest_info : String → List (MqttEvent × Env) → Option (DeviceInfo h)
  newest_info d [] = none
  newest_info d ((event, env) ∷ history) =
      newer d (newest_info d history) env.now (status_event event)

  abbrev event_registry : Dict (DeviceInfo h) → ℕ → Option (String × Value) → Dict (DeviceInfo h)
  event_registry reg now none = reg
  event_registry reg now (some (device_id, val)) = registered reg device_id now (some val)

  consume_registry :
      (c : Consumer h) (event : MqttEvent) (env : Env)
      → (consume h c event env).device_registry
        ≡ event_registry c.device_registry env.now (status_event event)
  unfolding consume
  consume_registry c connected env = refl
  consume_registry c disconnected env = refl
  consume_registry c (pub_ack pkid) env = refl
  consume_registry c (publish topic payload) env = elim (Option-cases (parse_roaster_topic topic)) [
    | inl e ↦ rw (consume, event_registry, status_event, e) refl
    | inr ((device_id, kind), e) ↦
        rw (consume, event_registry, status_event, e)
          (payload_registry (counted h c) topic device_id kind payload env
            ∙ elim (Option-cases (status_of kind payload)) [
              | inl f ↦ rw f refl
              | inr (val, f) ↦ rw f refl
            ])
  ]

  abbrev HasName : String → Option (DeviceInfo h) → Type 0
  HasName d none = Unit
  HasName d (some entry) = entry.device_id ≡ d

  newer-HasName :
      (d : String) (older : Option (DeviceInfo h)) (now : ℕ) (status : Option (String × Value))
      → HasName d older
      → HasName d (newer d older now status)
  newer-HasName d older now none v = v
  newer-HasName d older now (some (device_id, val)) v = elim (Bool-cases (str_eq device_id d)) [
    | inl e ↦ rw e ((eq_iff device_id d).0 e)
    | inr e ↦ rw e v
  ]

  newest-HasName :
      (d : String) (history : List (MqttEvent × Env)) → HasName d (newest_info d history)
  newest-HasName d [] = tt
  newest-HasName d ((event, env) ∷ history) =
      newer-HasName d (newest_info d history) env.now (status_event event)
        (newest-HasName d history)

  -- An entry that has the name of its device is overwritten as a whole.
  overwritten :
      (reg : Dict (DeviceInfo h)) (d : String) (val : Value) (now : ℕ)
      → HasName d (lookup d reg)
      → with_status h val now (entry_or_insert h reg d now) ≡ info_of d val now
  overwritten reg d val now v = elim (Option-cases (lookup d reg)) [
    | inl e ↦ rw (entry_or_insert, e) refl
    | inr (entry, e) ↦
        let name : entry.device_id ≡ d = subst (λ o. HasName d o) e v in
        rw (entry_or_insert, e) (rw name refl)
  ]

  lookup-event :
      (reg : Dict (DeviceInfo h)) (d : String) (now : ℕ) (status : Option (String × Value))
      → ((k : String) → HasName k (lookup k reg))
      → lookup d (event_registry reg now status) ≡ newer d (lookup d reg) now status
  lookup-event reg d now none v = refl
  lookup-event reg d now (some (device_id, val)) v =
      rw (overwritten reg device_id val now (v device_id))
        (lookup-insert device_id d (info_of device_id val now) reg)

  -- From an empty registry, after any history of events, the entry of a device has the time and the
  -- fields of its newest status message with a payload that is JSON, nothing of an older one, and
  -- there is no entry without such a message.
  pub registry-newest :
      (c : Consumer h) (history : List (MqttEvent × Env)) (d : String)
      → c.device_registry ≡ []
      → lookup d (consumed h c history).device_registry ≡ newest_info d history
  unfolding consumed lookup
  registry-newest c [] d e = rw e refl
  registry-newest c ((event, env) ∷ history) d e =
      ap (λ reg. lookup d reg) (consume_registry (consumed h c history) event env)
      ∙ lookup-event (consumed h c history).device_registry d env.now (status_event event)
          (λ k. subst (HasName k) (sym (registry-newest c history k e)) (newest-HasName k history))
      ∙ ap (λ older. newer d older env.now (status_event event)) (registry-newest c history d e)
