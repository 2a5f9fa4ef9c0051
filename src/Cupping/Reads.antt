-- ===== src/Cupping/Reads.antt =====
-- The read of a cupping, from tables that differ in rows of other sessions.
use rust_roast.Prelude.{
  String, true, List, [], ◌∷◌, some, ◌≡◌, ◌≢◌, refl, sym, ◌∙◌, subst, arith, str_eq, str_eq_refl,
  str_eq_ne, eq_iff, if◌then◌else◌, select, first, any, Bool-cases, Option-cases, inl, inr, All,
  All-impl, All-select,
}
use rust_roast.Models.CuppingRows.{CuppingScore, CuppingAttribute}
use rust_roast.Tables.{delete_rows, order_by, keyed}
use rust_roast.Tables.Owned.{owned, select-kept}
use rust_roast.Tables.Sorted.{All-order_by}
use rust_roast.Cupping.{
  Db, score_key, session_of, cupping_of, with_scores, delete_cupping, newer, by_name, newest,
  get_cupping,
}

first_of :
    (P : CuppingScore → Type 0) (cs : List CuppingScore) (c : CuppingScore)
    → first cs ≡ some c
    → All P cs
    → P c
first_of P [] c e v = cc
first_of P (d ∷ cs) c e v = subst P (cc) v.0

listed :
    (cs : List CuppingScore) → All (λ (c : CuppingScore). any (keyed score_key c.id) cs ≡ true) cs
listed [] = tt
listed (c ∷ cs) = (
  rw (str_eq_refl c.id) refl,
  All-impl (λ (d : CuppingScore). any (keyed score_key d.id) cs ≡ true)
      (λ (d : CuppingScore). any (keyed score_key d.id) (c ∷ cs) ≡ true) (λ d k. ground arith) cs
      (listed cs),
)

-- The cupping that is read stands in the table.
pub newest-listed :
    (db : Db) (e : String) (c : CuppingScore)
    → newest db e ≡ some c
    → any (keyed score_key c.id) db.cupping_scores ≡ true
newest-listed db e c k =
    let P = λ (d : CuppingScore). any (keyed score_key d.id) db.cupping_scores ≡ true in
    first_of P (order_by newer (select (owned session_of e) db.cupping_scores)) c k (
      All-order_by P newer (select (owned session_of e) db.cupping_scores) (
        All-select P P (owned session_of e) (λ d t p. p) db.cupping_scores
          (listed db.cupping_scores)))

-- A read that finds the same cupping with the same attributes.
pub get_cupping-same :
    (db db' : Db) (e : String)
    → newest db' e ≡ newest db e
    → ((c : CuppingScore)
        → newest db' e ≡ some c
        → select (owned cupping_of c.id) db'.cupping_attributes
          ≡ select (owned cupping_of c.id) db.cupping_attributes)
    → get_cupping db' e ≡ get_cupping db e
unfolding get_cupping
get_cupping-same db db' e n f = elim (Option-cases (newest db' e)) [
  | inl k ↦ rw (get_cupping, sym n, k) refl
  | inr (c, k) ↦ rw (get_cupping, sym n, k, f c k) refl
]

-- A read of a session that has one cupping.
pub get_cupping-single :
    (db : Db) (e : String) (c : CuppingScore) (as' : List CuppingAttribute)
    → select (owned session_of e) db.cupping_scores ≡ c ∷ []
    → select (owned cupping_of c.id) db.cupping_attributes ≡ as'
    → get_cupping db e ≡ some (record { cupping = c; attributes = order_by by_name as' })
unfolding get_cupping
get_cupping-single db e c as' k m = rw (get_cupping, k, m) refl

pub select-cascade :
    (k : String) (cs : List CuppingScore) (as' : List CuppingAttribute)
    → select (owned cupping_of k) (select (λ a. any (keyed score_key (cupping_of a)) cs) as')
      ≡ (if any (keyed score_key k) cs then select (owned cupping_of k) as' else [])
select-cascade k cs [] = ground arith
select-cascade k cs (a ∷ as') = elim (Bool-cases (str_eq (cupping_of a) k)) [
  | inl e ↦
      rw
        (subst (λ t. any (keyed score_key t) cs ≡ any (keyed score_key k) cs)
          (sym ((eq_iff (cupping_of a) k).0 e)) refl)
        (elim (Bool-cases (any (keyed score_key k) cs)) [
          | inl m ↦ rw (m, e, select-cascade k cs as', m) refl
          | inr m ↦ rw (m, select-cascade k cs as', m) refl
        ])
  | inr e ↦ elim (Bool-cases (any (keyed score_key (cupping_of a)) cs)) [
    | inl m ↦ rw (m, e, select-cascade k cs as') refl
    | inr m ↦ rw (m, e, select-cascade k cs as') refl
  ]
]

-- The deletion of a cupping leaves the others.
pub delete_cupping-others :
    (db : Db) (session_id e : String)
    → e ≢ session_id
    → get_cupping (delete_cupping db session_id) e ≡ get_cupping db e
unfolding delete_cupping with_scores
delete_cupping-others db session_id e ne =
    get_cupping-same db (delete_cupping db session_id) e
      (rw
        (
          select-kept session_of session_id e db.cupping_scores,
          str_eq_ne session_id e (λ k. ne (sym k)),
        )
        refl)
      (λ c k.
        select-cascade c.id (delete_rows (owned session_of session_id) db.cupping_scores)
          db.cupping_attributes
        ∙ rw (newest-listed (delete_cupping db session_id) e c k) refl)
