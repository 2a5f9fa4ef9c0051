-- ===== src/Sessions/Summary.antt =====
-- The figures that `complete_session` of crates/server/src/services.rs works out of the telemetry
-- and the events of a session.
use rust_roast.Prelude.{
  ℕ, ℤ, pos, suc, String, Bool, true, false, ◌&&◌, List, [], ◌∷◌, Option, none, some, str_eq,
  if◌then◌else◌, select, find, Dict, lookup, length, ltb,
}
use rust_roast.Host.{Host}
use rust_roast.Models.RoastEventType.{
  RoastEventType, drop, drying_end, first_crack_start, to_string,
}
use rust_roast.Models.SessionRows.{RoastSession, SessionTelemetry, RoastEvent}

abbrev pub option_map {ℓ κ} : {A : Type ℓ} {B : Type κ} → (A → B) → Option A → Option B
option_map f none = none
option_map f (some a) = some (f a)

abbrev pub bind {ℓ κ} : {A : Type ℓ} {B : Type κ} → Option A → (A → Option B) → Option B
bind none f = none
bind (some a) f = f a

abbrev pub or_else {ℓ} : {A : Type ℓ} → Option A → Option A → Option A
or_else none b = b
or_else (some a) b = some a

-- The values that are not NULL.
abbrev pub present {ℓ κ} : {A : Type ℓ} {B : Type κ} → (A → Option B) → List A → List B
present f [] = []
present f (x ∷ xs) = let rest = present f xs in elim (f x) [ none ↦ rest | some b ↦ b ∷ rest ]

-- Two types are equal exactly when their texts are.
abbrev pub is_type : RoastEventType → RoastEvent → Bool
is_type t e = str_eq (to_string e.event_type) (to_string t)

abbrev pub is_positive : ℤ → Bool
is_positive (pos (suc n)) = true
is_positive _ = false

module _ (h : Host) where
  open h use {
    F64, of_int, of_f32, to_f32, mul, add, div, f32_of_int, f32_to_i32, f32_sub, f32_mul, f32_div,
    f32_max, f32_lt, f32_le, parse_f32, avg,
  }

  -- `ORDER BY elapsed_seconds`
  abbrev pub insert_by {ℓ} : {A : Type ℓ} → (A → ℕ) → A → List A → List A
  insert_by key a [] = a ∷ []
  insert_by key a (b ∷ bs) =
      let rest = insert_by key a bs in if f32_le (key a) (key b) then a ∷ b ∷ bs else b ∷ rest

  abbrev pub order_by {ℓ} : {A : Type ℓ} → (A → ℕ) → List A → List A
  order_by key [] = []
  order_by key (a ∷ as') = insert_by key a (order_by key as')

  -- `MAX` of a column: NULL if it has no value.
  abbrev pub max_of : List ℕ → Option ℕ
  max_of [] = none
  max_of (x ∷ xs) = elim (max_of xs) [ none ↦ some x | some y ↦ some (f32_max x y) ]

  unfoldable pub avg_ror_in_range : List SessionTelemetry → ℕ → ℕ → Option ℕ
  avg_ror_in_range telemetry start end =
      elim (present (λ (t : SessionTelemetry). t.rate_of_rise)
        (select
          (λ (t : SessionTelemetry). f32_le start t.elapsed_seconds && f32_lt t.elapsed_seconds end)
          telemetry)) [ [] ↦ none | x ∷ xs ↦ some (avg (x ∷ xs)) ]

  -- The trapezoids under the pairs of neighbours, in °C·s; the bits of the f32 0.0 are 0.
  abbrev pub trapezoids : ℕ → List (ℕ × ℕ) → F64 → F64
  trapezoids base_temp [] sum = sum
  trapezoids base_temp ((t0, bt0) ∷ []) sum = sum
  trapezoids base_temp ((t0, bt0) ∷ (t1, bt1) ∷ rows) sum =
      let v0 = of_f32 (f32_max (f32_sub bt0 base_temp) 0) in
      let v1 = of_f32 (f32_max (f32_sub bt1 base_temp) 0) in
      let dt = of_f32 (f32_sub t1 t0) in
      trapezoids base_temp ((t1, bt1) ∷ rows) (add sum (div (mul dt (add v0 v1)) (of_int (pos 2))))

  abbrev pub elapsed_of : RoastEventType → List RoastEvent → ℕ
  elapsed_of t events = elim (find (is_type t) events) [ none ↦ 0 | some e ↦ e.elapsed_seconds ]

  abbrev pub start_seconds : String → List RoastEvent → ℕ
  start_seconds start_event events =
      if str_eq start_event "drying_end"
      then elapsed_of drying_end events
      else if str_eq start_event "first_crack_start"
      then elapsed_of first_crack_start events
      else 0

  -- `settings` is the table of that name.
  unfoldable pub compute_auc : Dict String → List SessionTelemetry → List RoastEvent → Option ℕ
  compute_auc settings telemetry events =
      let base_temp : ℕ = elim (bind (lookup "auc_base_temp" settings) parse_f32) [
        | none ↦ 0
        | some b ↦ b
      ] in
      let start_event : String = elim (lookup "auc_start_event" settings) [
        | none ↦ "charge"
        | some e ↦ e
      ] in
      let start = start_seconds start_event events in
      let rows =
        present (λ (t : SessionTelemetry). option_map (λ bt. (t.elapsed_seconds, bt)) t.bean_temp)
          (order_by (λ (t : SessionTelemetry). t.elapsed_seconds)
            (select (λ (t : SessionTelemetry). f32_le start t.elapsed_seconds) telemetry)) in
      if ltb (length rows) 2
      then none
      else some (to_f32 (div (trapezoids base_temp rows (of_int (pos 0))) (of_int (pos 60))))

  -- The local variables of `complete_session` that the update binds.
  pub record Summary : Type 0 where
    pub total_time_seconds : Option ℤ
    pub max_temp : Option ℕ
    pub max_ror : Option ℕ
    pub first_crack_time : Option ℤ
    pub development_time_ratio : Option ℕ
    pub weight_loss_pct : Option ℕ
    pub avg_ror_drying : Option ℕ
    pub avg_ror_maillard : Option ℕ
    pub avg_ror_development : Option ℕ
    pub drying_end_time : Option ℤ
    pub drying_end_temp : Option ℕ
    pub auc_value : Option ℕ

  -- DTR: (total_time - fc_start) / total_time, if the total is positive.
  abbrev pub development_ratio : Option ℤ → Option RoastEvent → Option ℕ
  development_ratio (some total) (some fc) =
      if is_positive total
      then some (f32_div (f32_sub (f32_of_int total) fc.elapsed_seconds) (f32_of_int total))
      else none
  development_ratio _ _ = none

  abbrev pub weight_loss : Option ℕ → Option ℕ → Option ℕ
  weight_loss (some green) (some roasted) =
      if f32_lt 0 green
      then some (f32_mul (f32_div (f32_sub green roasted) green) (f32_of_int (pos 100)))
      else none
  weight_loss _ _ = none

  -- The telemetry and the events are those of the session, the events ordered by time.
  unfoldable pub summary :
      Dict String → RoastSession → List SessionTelemetry → List RoastEvent → Summary
  summary settings existing telemetry events =
      let total_time_seconds =
        option_map f32_to_i32
          (max_of (present (λ (t : SessionTelemetry). some t.elapsed_seconds) telemetry)) in
      let drying_end_event = find (is_type drying_end) events in
      let first_crack_event = find (is_type first_crack_start) events in
      let drop_event = find (is_type drop) events in
      let end_seconds =
        or_else (option_map (λ (e : RoastEvent). e.elapsed_seconds) drop_event)
          (option_map f32_of_int total_time_seconds) in
      record {
        total_time_seconds = total_time_seconds;
        max_temp = max_of (present (λ (t : SessionTelemetry). t.bean_temp) telemetry);
        max_ror = max_of (present (λ (t : SessionTelemetry). t.rate_of_rise) telemetry);
        first_crack_time =
            option_map (λ (e : RoastEvent). f32_to_i32 e.elapsed_seconds) first_crack_event;
        development_time_ratio = development_ratio total_time_seconds first_crack_event;
        weight_loss_pct = weight_loss existing.green_weight existing.roasted_weight;
        avg_ror_drying =
            bind drying_end_event
              (λ (de : RoastEvent). avg_ror_in_range telemetry 0 de.elapsed_seconds);
        avg_ror_maillard = bind drying_end_event (λ (de : RoastEvent).
            bind first_crack_event (λ (fc : RoastEvent).
              avg_ror_in_range telemetry de.elapsed_seconds fc.elapsed_seconds));
        avg_ror_development = bind first_crack_event (λ (fc : RoastEvent).
            bind end_seconds (λ end. avg_ror_in_range telemetry fc.elapsed_seconds end));
        drying_end_time =
            option_map (λ (e : RoastEvent). f32_to_i32 e.elapsed_seconds) drying_end_event;
        drying_end_temp = bind drying_end_event (λ (e : RoastEvent). e.temperature);
        auc_value = compute_auc settings telemetry events;
      }
