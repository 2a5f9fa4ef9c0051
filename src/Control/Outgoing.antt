-- ===== src/Control/Outgoing.antt =====
-- What leaves the server for the devices.
use rust_roast.Prelude.{
  String, Bool, false, List, [], ◌∷◌, some, ◌≡◌, sym, subst, arith, lookup, insert, remove, Dict,
  All, str_eq, Bool-cases, Option-cases, inl, inr,
}
use rust_roast.Control.{
  AppState, unwrap_or, Sender, Command, Env, PublishOpts, publish_mqtt, send, publish_with,
}
use rust_roast.Control.Delivery.{publish-cases}
use rust_roast.Control.Requests as Requests

module _ {ℓ κ} {V : Type ℓ} (Q : V → Type κ) where
  abbrev pub AllValues : Dict V → Type κ
  AllValues [] = Unit
  AllValues ((k, v) ∷ m) = Q v × AllValues m

  AllValues-insert :
      (k : String) (v : V) (m : Dict V) → Q v → AllValues m → AllValues (insert k v m)
  unfolding insert
  AllValues-insert k v [] q a = (q, a)
  AllValues-insert k v ((j, w) ∷ m) q a = elim (Bool-cases (str_eq j k)) [
    | inl e ↦ rw e (q, a.1)
    | inr e ↦ rw e (a.0, AllValues-insert k v m q a.1)
  ]

  pub AllValues-remove : (k : String) (m : Dict V) → AllValues m → AllValues (remove k m)
  unfolding remove
  AllValues-remove k [] a = a
  AllValues-remove k ((j, w) ∷ m) a = elim (Bool-cases (str_eq j k)) [
    | inl e ↦ rw e (AllValues-remove k m a.1)
    | inr e ↦ rw e (a.0, AllValues-remove k m a.1)
  ]

  AllValues-lookup : (k : String) (m : Dict V) {v : V} → lookup k m ≡ some v → AllValues m → Q v
  unfolding lookup
  AllValues-lookup k [] e a = cc
  AllValues-lookup k ((j, w) ∷ m) e a = elim (Bool-cases (str_eq j k)) [
    | inl t ↦ ground arith
    | inr t ↦ AllValues-lookup k m (ground arith) a.1
  ]

module _ (P : Command → Type 0) where
  -- Every command in a queue and every one published has the property.
  pub record IsSafe (s : AppState) : Type 0 where
    pub queued : AllValues (λ (tx : Sender). All P tx.queue) s.device_ws_senders
    pub sent : All P s.published

  pub publish_mqtt-IsSafe :
      (s : AppState) (topic payload : String) (wait_ack : Bool) (env : Env)
      → P (record { topic = topic; payload = payload })
      → IsSafe s
      → IsSafe (publish_mqtt s topic payload wait_ack env).1
  unfolding publish_mqtt
  publish_mqtt-IsSafe s topic payload wait_ack env p v = elim (Bool-cases env.takes) [
    | inl e ↦ rw e (record { queued = v.queued; sent = (p, v.sent) })
    | inr e ↦ rw e v
  ]

  pub insert-IsSafe :
      (s : AppState) (d : String) (tx : Sender)
      → All P tx.queue
      → IsSafe s
      → IsSafe (record s { device_ws_senders = insert d tx s.device_ws_senders })
  insert-IsSafe s d tx q v = record {
    queued = AllValues-insert (λ (tx : Sender). All P tx.queue) d tx s.device_ws_senders q v.queued;
    sent = v.sent;
  }

  pub queue-IsSafe :
      (s : AppState) (d : String) {tx : Sender}
      → lookup d s.device_ws_senders ≡ some tx
      → IsSafe s
      → All P tx.queue
  queue-IsSafe s d e v =
      AllValues-lookup (λ (tx : Sender). All P tx.queue) d s.device_ws_senders e v.queued

  pub publish-IsSafe :
      (s : AppState) (topic payload : String) (opts : PublishOpts) (env : Env)
      → P (record { topic = topic; payload = payload })
      → IsSafe s
      → IsSafe (publish_with s topic payload opts env).1
  publish-IsSafe s topic payload opts env p v = elim (publish-cases s topic payload opts env) [
    | inl e ↦
        subst (λ r. IsSafe r.1) (sym e)
          (publish_mqtt-IsSafe s topic payload (unwrap_or opts.wait_ack false) env p v)
    | inr (d, tx, f, e) ↦
        subst (λ r. IsSafe r.1) (sym e)
          (insert-IsSafe s d (send tx topic payload) (p, queue-IsSafe s d f v) v)
  ]

  received-All : (cs : List Command) → All P cs → All P (Requests.received cs)
  received-All [] a = a
  received-All (c ∷ []) a = tt
  received-All (c ∷ d ∷ cs) a = (a.0, received-All (d ∷ cs) a.1)

  pub forward_command-IsSafe :
      (s : AppState) (d : String) → IsSafe s → IsSafe (Requests.forward_command s d)
  unfolding Requests.forward_command
  forward_command-IsSafe s d v = elim (Option-cases (lookup d s.device_ws_senders)) [
    | inl e ↦ rw (Requests.forward_command, e) v
    | inr (tx, e) ↦
        rw (Requests.forward_command, e)
          (insert-IsSafe s d (record tx { queue = Requests.received tx.queue })
            (received-All tx.queue (queue-IsSafe s d e v)) v)
  ]
