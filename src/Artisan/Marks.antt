-- ===== src/Artisan/Marks.antt =====
-- The indices of the marks of a roast in an export.
use rust_roast.Prelude.{
  str_eq, ℕ, zero, suc, ◌+◌, ℤ, pos, negsuc, String, true, false, List, [], ◌∷◌, Option, none, some,
  ◌≡◌, refl, sym, ap, subst, arith, ◌⊎◌, inl, inr, find, get_elem?, leb_ℤ, if◌then◌else◌,
  Bool-cases, Option-cases,
}
use rust_roast.Host.{Host}
use rust_roast.Models.RoastEventType.{to_string}
use rust_roast.Models.SessionRows.{RoastEvent}
use rust_roast.Artisan.Export.{type_is, distance, nearest_from, mark_index, as_index}

leb_ℤ-refl : (a : ℤ) → leb_ℤ a a ≡ true
leb_ℤ-refl a = ground arith

leb_ℤ-trans : (a b c : ℤ) → leb_ℤ a b ≡ true → leb_ℤ b c ≡ true → leb_ℤ a c ≡ true
leb_ℤ-trans a b c e f = ground arith

leb_ℤ-total : (a b : ℤ) → leb_ℤ a b ≡ false → leb_ℤ b a ≡ true
leb_ℤ-total a b e = ground arith

module _ (h : Host) where
  open h use {F64, of_int, of_f32, to_i64, abs, mul, sub}

  -- The time at the index `k` has the key `best`, and no time has a lesser one.
  pub record IsNearest (key : F64 → ℤ) (timex : List F64) (k : ℕ) (best : ℤ) : Type 0 where
    pub found : (t : F64) × (get_elem? timex k ≡ some t) × (best ≡ key t)
    pub least : (m : ℕ) (u : F64) → get_elem? timex m ≡ some u → leb_ℤ best (key u) ≡ true

  abbrev Nearest : (F64 → ℤ) → ℕ → List F64 → Option (ℕ × ℤ) → Type 0
  Nearest key i timex none = timex ≡ []
  Nearest key i timex (some (j, best)) = (k : ℕ) × (j ≡ i + k) × IsNearest key timex k best

  abbrev AtMost : (F64 → ℤ) → ℤ → List F64 → Type 0
  AtMost key best timex = (m : ℕ) (u : F64) → get_elem? timex m ≡ some u → leb_ℤ best (key u) ≡ true

  cons-AtMost :
      (key : F64 → ℤ) (best : ℤ) (t : F64) (ts : List F64)
      → leb_ℤ best (key t) ≡ true
      → AtMost key best ts
      → AtMost key best (t ∷ ts)
  cons-AtMost key best t ts e l zero u f =
      let same : t ≡ u = cc in subst (λ x. leb_ℤ best (key x) ≡ true) same e
  cons-AtMost key best t ts e l (suc m) u f = l m u f

  none-AtMost : (key : F64 → ℤ) (best : ℤ) (ts : List F64) → ts ≡ [] → AtMost key best ts
  none-AtMost key best ts e = subst (λ l. AtMost key best l) (sym e) (λ m u f. cc)

  first-IsNearest :
      (key : F64 → ℤ) (t : F64) (ts : List F64)
      → AtMost key (key t) ts
      → IsNearest key (t ∷ ts) 0 (key t)
  first-IsNearest key t ts l = record {
    found = (t, refl, refl);
    least = cons-AtMost key (key t) t ts (leb_ℤ-refl (key t)) l;
  }

  nearest_from-lem :
      (key : F64 → ℤ) (i : ℕ) (ts : List F64) → Nearest key i ts (nearest_from h key i ts)
  unfolding nearest_from
  nearest_from-lem key i [] = refl
  nearest_from-lem key i (t ∷ ts) =
      step (nearest_from h key (suc i) ts) (nearest_from-lem key (suc i) ts)
    where
      step :
          (r : Option (ℕ × ℤ))
          → Nearest key (suc i) ts r
          → Nearest key i (t ∷ ts) (elim r [
            | none ↦ some (i, key t)
            | some (j, best) ↦ if leb_ℤ (key t) best then some (i, key t) else some (j, best)
          ])
      step none v = (0, omega arith, first-IsNearest key t ts (none-AtMost key (key t) ts v))
      step (some (j, best)) (k, e, n) = elim (Bool-cases (leb_ℤ (key t) best)) [
        | inl f ↦ rw f (
          0,
          omega arith,
          first-IsNearest key t ts (λ m u g. leb_ℤ-trans (key t) best (key u) f (n.least m u g)),
        )
        | inr f ↦ rw f (
          suc k,
          omega arith,
          record {
            found = n.found;
            least = cons-AtMost key best t ts (leb_ℤ-total (key t) best f) n.least;
          },
        )
      ]

  -- Either the index of a mark is -1, and there is no event of its type or no telemetry, or it is
  -- the index of a telemetry row whose time is nearest to that of the first event of the type: no
  -- row has a lesser `|t - elapsed| * 1000` as a whole number.
  pub mark_index-IsNearest :
      (timex : List F64) (events : List RoastEvent) (event_type : String)
      → ((mark_index h timex events event_type ≡ negsuc 0)
          × ((find (λ (x : RoastEvent). str_eq (to_string x.event_type) event_type) events ≡ none)
              ⊎ (timex ≡ [])))
        ⊎ ((k : ℕ) × (e : RoastEvent) × (best : ℤ) × (mark_index h timex events event_type ≡ pos k)
            × (find (λ (x : RoastEvent). str_eq (to_string x.event_type) event_type) events
                ≡ some e)
            × IsNearest
                (λ t. to_i64 (abs (mul (sub t (of_f32 e.elapsed_seconds)) (of_int (pos 1000)))))
                timex
                k
                best)
  unfolding mark_index
  mark_index-IsNearest timex events event_type =
      elim (Option-cases (find (type_is event_type) events)) [
        | inl e ↦ rw (mark_index, e) (inl (refl, inl refl))
        | inr (event, e) ↦
            rw (mark_index, e)
              (answer event (nearest_from h (distance h event) 0 timex)
                (nearest_from-lem (distance h event) 0 timex))
      ]
    where
      answer :
          (event : RoastEvent) (r : Option (ℕ × ℤ))
          → Nearest (distance h event) 0 timex r
          → ((as_index h r ≡ negsuc 0) × ((some event ≡ none) ⊎ (timex ≡ [])))
            ⊎ ((k : ℕ) × (e : RoastEvent) × (best : ℤ) × (as_index h r ≡ pos k)
                × (some event ≡ some e)
                × IsNearest (distance h e) timex k best)
      answer event none v = inl (refl, inr v)
      answer event (some (j, best)) (k, e, n) =
          let same : j ≡ k = omega arith in inr (k, event, best, ap pos same, refl, n)
