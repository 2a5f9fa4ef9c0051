-- ===== src/Sessions/Rows.antt =====
-- How the statements on the table of sessions change a row.
use rust_roast.Prelude.{
  String, Bool, not, List, [], ◌∷◌, ◌++◌, none, some, ◌≡◌, refl, sym, subst, arith, str_eq, eq_iff,
  find, any, select, if◌then◌else◌, Bool-cases, inl, inr,
}
use rust_roast.Models.SessionRows.{RoastSession}
use rust_roast.Sessions.Summary.{option_map, or_else}
use rust_roast.Tables.{update_rows, is_none}
use rust_roast.Sessions.{has_id}

-- The row after an update that picks it or not.
abbrev pub changed :
    (RoastSession → Bool) → (RoastSession → RoastSession) → RoastSession → RoastSession
changed p f s = if p s then f s else s

module _ (p : RoastSession → Bool) (f : RoastSession → RoastSession)
    (same_id : (s : RoastSession) → (f s).id ≡ s.id) where
  kept_id : (id : String) (s : RoastSession) {b : Bool} → has_id id s ≡ b → has_id id (f s) ≡ b
  kept_id id s {b} k = subst (λ i. str_eq i id ≡ b) (sym (same_id s)) k

  pub find-update_rows :
      (id : String) (ss : List RoastSession)
      → find (has_id id) (update_rows p f ss) ≡ option_map (changed p f) (find (has_id id) ss)
  find-update_rows id [] = refl
  find-update_rows id (s ∷ ss) = elim (Bool-cases (p s)) [
    | inl e ↦ elim (Bool-cases (has_id id s)) [
      | inl k ↦ rw (e, kept_id id s k, k, e) refl
      | inr k ↦ rw (e, kept_id id s k, k, find-update_rows id ss) refl
    ]
    | inr e ↦ elim (Bool-cases (has_id id s)) [
      | inl k ↦ rw (e, k, e) refl
      | inr k ↦ rw (e, k, find-update_rows id ss) refl
    ]
  ]

pub find-append :
    (q : RoastSession → Bool) (ss : List RoastSession) (s : RoastSession)
    → find q (ss ++ s ∷ []) ≡ or_else (find q ss) (if q s then some s else none)
find-append q [] s = refl
find-append q (r ∷ ss) s = elim (Bool-cases (q r)) [
  | inl e ↦ rw e refl
  | inr e ↦ rw (e, find-append q ss s) refl
]

pub find-removed :
    (id j : String) (ss : List RoastSession)
    → find (has_id id) (select (λ s. not (has_id j s)) ss)
      ≡ (if str_eq id j then none else find (has_id id) ss)
find-removed id j [] = ground arith
find-removed id j (s ∷ ss) =
    ground (arith, find-removed id j ss, eq_iff id j, eq_iff s.id j, eq_iff s.id id)

-- A table has a row with the key exactly when the key is found.
pub any-find :
    (q : RoastSession → Bool) (ss : List RoastSession) → any q ss ≡ not (is_none (find q ss))
any-find q [] = refl
any-find q (s ∷ ss) = elim (Bool-cases (q s)) [
  | inl e ↦ rw e refl
  | inr e ↦ rw (e, any-find q ss) refl
]
