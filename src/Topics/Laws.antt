-- ===== src/Topics/Laws.antt =====
-- What is read back from the topics that the core crate builds.
use Prim.Native.Char.{Char, code}
use Prim.Native.String.{[], ◌∷◌}
use text.Mathlib.TextEquality.{Char-path}
use text.Mathlib.TextLemmas.{nil-append, cons-append, append_assoc}
use rust_roast.Prelude.{
  String, true, false, List, [], ◌∷◌, some, ◌≡◌, refl, arith, Bool-cases, nat_eq_iff, inl, inr,
  eq_iff, subst, sym, ap, ◌∙◌,
}
use rust_roast.Topics.{
  ◌++◌, root, telemetry_topic, status_topic, control_setpoint, control_fan_pwm, control_heater_pwm,
  control_mode, control_heater_enable, control_pid, control_emergency_stop, autotune_status,
  autotune_start, autotune_stop, autotune_apply, autotune_results, is_slash, split_slash, has_slash,
  parse_roaster_topic, parse_parts, push_front,
}

split-slash : (t : String) → split_slash ("/" ++ t) ≡ "" ∷ split_slash t
unfolding split_slash
split-slash t = rw (cons-append, nil-append)

split-append :
    (s t : String) → has_slash s ≡ false → split_slash (s ++ "/" ++ t) ≡ s ∷ split_slash t
unfolding split_slash has_slash
split-append [] t h = rw nil-append (split-slash t)
split-append (c ∷ s) t h = rw cons-append (ground (arith, split-append s t))

parse-route :
    (d tail : String)
    → has_slash d ≡ false
    → parse_roaster_topic (root ++ "/" ++ d ++ "/" ++ tail)
      ≡ parse_parts (root ∷ d ∷ split_slash tail)
unfolding parse_roaster_topic
parse-route d tail h =
    rw (split-append root (d ++ "/" ++ tail) (unfold has_slash in refl), split-append d tail h)

-- The tail of a topic below a device.
below : String → String → String
below d tail = root ++ "/" ++ d ++ "/" ++ tail

-- What is read from a topic whose tail splits into `kind` and more.
reads :
    {t : String} (d tail kind : String) {rest : List String}
    → t ≡ below d tail
    → split_slash tail ≡ kind ∷ rest
    → has_slash d ≡ false
    → parse_roaster_topic t ≡ some (d, kind)
unfolding below
reads d tail kind e p h = rw (e, parse-route d tail h, p)

-- What the server should read off the topics of the device `d`.
abbrev pub ReadsBack : String → Type 0
ReadsBack d =
    (parse_roaster_topic (telemetry_topic d) ≡ some (d, "telemetry"))
    × (parse_roaster_topic (status_topic d) ≡ some (d, "status"))
    × (parse_roaster_topic (control_setpoint d) ≡ some (d, "control"))
    × (parse_roaster_topic (control_fan_pwm d) ≡ some (d, "control"))
    × (parse_roaster_topic (control_heater_pwm d) ≡ some (d, "control"))
    × (parse_roaster_topic (control_mode d) ≡ some (d, "control"))
    × (parse_roaster_topic (control_heater_enable d) ≡ some (d, "control"))
    × (parse_roaster_topic (control_pid d) ≡ some (d, "control"))
    × (parse_roaster_topic (control_emergency_stop d) ≡ some (d, "control"))
    × (parse_roaster_topic (autotune_status d) ≡ some (d, "autotune"))
    × (parse_roaster_topic (autotune_start d) ≡ some (d, "autotune"))
    × (parse_roaster_topic (autotune_stop d) ≡ some (d, "autotune"))
    × (parse_roaster_topic (autotune_apply d) ≡ some (d, "autotune"))
    × (parse_roaster_topic (autotune_results d) ≡ some (d, "autotune"))

module _ (d : String) (plain : has_slash d ≡ false) where
  pub parse-telemetry_topic : parse_roaster_topic (telemetry_topic d) ≡ some (d, "telemetry")
  unfolding telemetry_topic below split_slash
  parse-telemetry_topic = reads d "telemetry" "telemetry" refl refl plain

  parse-status_topic : parse_roaster_topic (status_topic d) ≡ some (d, "status")
  unfolding status_topic below split_slash
  parse-status_topic = reads d "status" "status" refl refl plain

  parse-control_setpoint : parse_roaster_topic (control_setpoint d) ≡ some (d, "control")
  unfolding control_setpoint below split_slash
  parse-control_setpoint = reads d "control/setpoint" "control" (simp append_assoc) refl plain

  parse-control_fan_pwm : parse_roaster_topic (control_fan_pwm d) ≡ some (d, "control")
  unfolding control_fan_pwm below split_slash
  parse-control_fan_pwm = reads d "control/fan_pwm" "control" (simp append_assoc) refl plain

  pub parse-control_heater_pwm : parse_roaster_topic (control_heater_pwm d) ≡ some (d, "control")
  unfolding control_heater_pwm below split_slash
  parse-control_heater_pwm = reads d "control/heater_pwm" "control" (simp append_assoc) refl plain

  parse-control_mode : parse_roaster_topic (control_mode d) ≡ some (d, "control")
  unfolding control_mode below split_slash
  parse-control_mode = reads d "control/mode" "control" (simp append_assoc) refl plain

  parse-control_heater_enable : parse_roaster_topic (control_heater_enable d) ≡ some (d, "control")
  unfolding control_heater_enable below split_slash
  parse-control_heater_enable =
      reads d "control/heater_enable" "control" (simp append_assoc) refl plain

  parse-control_pid : parse_roaster_topic (control_pid d) ≡ some (d, "control")
  unfolding control_pid below split_slash
  parse-control_pid = reads d "control/pid" "control" (simp append_assoc) refl plain

  pub parse-control_emergency_stop :
      parse_roaster_topic (control_emergency_stop d) ≡ some (d, "control")
  unfolding control_emergency_stop below split_slash
  parse-control_emergency_stop =
      reads d "control/emergency_stop" "control" (simp append_assoc) refl plain

  parse-autotune_status : parse_roaster_topic (autotune_status d) ≡ some (d, "autotune")
  unfolding autotune_status below split_slash
  parse-autotune_status = reads d "autotune/status" "autotune" refl refl plain

  parse-autotune_start : parse_roaster_topic (autotune_start d) ≡ some (d, "autotune")
  unfolding autotune_start below split_slash
  parse-autotune_start = reads d "autotune/start" "autotune" refl refl plain

  parse-autotune_stop : parse_roaster_topic (autotune_stop d) ≡ some (d, "autotune")
  unfolding autotune_stop below split_slash
  parse-autotune_stop = reads d "autotune/stop" "autotune" refl refl plain

  parse-autotune_apply : parse_roaster_topic (autotune_apply d) ≡ some (d, "autotune")
  unfolding autotune_apply below split_slash
  parse-autotune_apply = reads d "autotune/apply" "autotune" refl refl plain

  parse-autotune_results : parse_roaster_topic (autotune_results d) ≡ some (d, "autotune")
  unfolding autotune_results below split_slash
  parse-autotune_results = reads d "autotune/results" "autotune" refl refl plain

  -- For a device id with no slash, every topic that the core crate builds for the device is read
  -- back as that id with the kind of the topic: `telemetry`, `status`, `control` for each of the
  -- seven control topics, and `autotune` for each of the five autotune topics.
  pub parse-topics : ReadsBack d
  parse-topics = (
    parse-telemetry_topic, parse-status_topic, parse-control_setpoint, parse-control_fan_pwm,
    parse-control_heater_pwm, parse-control_mode, parse-control_heater_enable, parse-control_pid,
    parse-control_emergency_stop, parse-autotune_status, parse-autotune_start, parse-autotune_stop,
    parse-autotune_apply, parse-autotune_results,
  )

-- The parts put together again.
pub join_slash : List String → String
join_slash [] = ""
join_slash (p ∷ []) = p
join_slash (p ∷ q ∷ ps) = p ++ "/" ++ join_slash (q ∷ ps)

join-push_front : (c : Char) (ps : List String) → join_slash (push_front c ps) ≡ c ∷ join_slash ps
unfolding join_slash
join-push_front c [] = refl
join-push_front c (p ∷ []) = refl
join-push_front c (p ∷ q ∷ ps) = rw cons-append refl

push_front-cons :
    (c : Char) (ps : List String) → (q : String) × (qs : List String) × (push_front c ps ≡ q ∷ qs)
push_front-cons c [] = (c ∷ [], [], refl)
push_front-cons c (p ∷ ps) = (c ∷ p, ps, refl)

split-cons : (s : String) → (p : String) × (ps : List String) × (split_slash s ≡ p ∷ ps)
unfolding split_slash
split-cons [] = ("", [], refl)
split-cons (c ∷ s) = elim (Bool-cases (is_slash c)) [
  | inl e ↦ ("", split_slash s, rw e)
  | inr e ↦ rw e (push_front-cons c (split_slash s))
]

join-empty :
    {ps : List String} (q : String) (qs : List String)
    → ps ≡ q ∷ qs
    → join_slash ("" ∷ ps) ≡ "/" ++ join_slash ps
unfolding join_slash
join-empty q qs e = rw (e, nil-append)

is_slash-eq : (c : Char) → is_slash c ≡ true → c ≡ "/"
is_slash-eq c e = Char-path c "/" ((nat_eq_iff (code c) b'/').0 e)

join-split : (s : String) → join_slash (split_slash s) ≡ s
unfolding split_slash
join-split [] = unfold join_slash in refl
join-split (c ∷ s) =
    let (p, ps, parts) = split-cons s in
    elim (Bool-cases (is_slash c)) [
      | inl e ↦
          rw (e, is_slash-eq c e, join-empty p ps parts, join-split s)
            (rw (cons-append, nil-append))
      | inr e ↦ rw (e, join-push_front c (split_slash s), join-split s)
    ]

-- Every part is free of slashes.
abbrev pub Plain : List String → Type 0
Plain [] = Unit {0}
Plain (p ∷ ps) = (has_slash p ≡ false) × Plain ps

push_front-Plain :
    (c : Char) (ps : List String) → is_slash c ≡ false → Plain ps → Plain (push_front c ps)
unfolding has_slash
push_front-Plain c [] e h = (rw e, tt)
push_front-Plain c (p ∷ ps) e h = (rw (e, h.0), h.1)

split-Plain : (s : String) → Plain (split_slash s)
unfolding split_slash
split-Plain [] = (unfold has_slash in refl, tt)
split-Plain (c ∷ s) = elim (Bool-cases (is_slash c)) [
  | inl e ↦ rw e (unfold has_slash in refl, split-Plain s)
  | inr e ↦ rw e (push_front-Plain c (split_slash s) e (split-Plain s))
]

-- What `parse_parts` accepts.
parse_parts-some :
    (ps : List String) {d k : String}
    → parse_parts ps ≡ some (d, k)
    → (rest : List String) × (ps ≡ root ∷ d ∷ k ∷ rest)
parse_parts-some [] h = cc
parse_parts-some (r ∷ []) h = cc
parse_parts-some (r ∷ d ∷ []) h = cc
parse_parts-some (r ∷ d ∷ k ∷ rest) h = (rest, ground (arith, eq_iff r root))

-- A topic that parses is `roaster/d/k` with more parts behind it or none, and neither the device
-- id `d` nor the kind `k` that is read off it holds a slash.
pub parse_roaster_topic_sound :
    (t : String) {d k : String}
    → parse_roaster_topic t ≡ some (d, k)
    → (rest : List String) × (t ≡ join_slash (root ∷ d ∷ k ∷ rest))
      × (has_slash d ≡ false)
      × (has_slash k ≡ false)
unfolding parse_roaster_topic
parse_roaster_topic_sound t {d} {k} h =
    let (rest, e) = parse_parts-some (split_slash t) h in
    let plain : Plain (root ∷ d ∷ k ∷ rest) = subst Plain e (split-Plain t) in
    (rest, sym (join-split t) ∙ ap join_slash e, plain.1.0, plain.1.1.0)

-- The topics of a device id `a/b` are read as topics of the device `a`: the heater topic of `a/b`
-- parses to the device `a`, with `b` in the place of the kind.
pub parse-nested_device :
    (a b : String)
    → has_slash a ≡ false
    → has_slash b ≡ false
    → parse_roaster_topic (control_heater_pwm (a ++ "/" ++ b)) ≡ some (a, b)
unfolding control_heater_pwm below
parse-nested_device a b h k =
    reads a (b ++ "/" ++ "control/heater_pwm") b (simp append_assoc)
      (split-append b "control/heater_pwm" k) h
