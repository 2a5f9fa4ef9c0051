-- ===== src/Cupping/Upsert.antt =====
-- What the creation of a cupping leaves in the tables.
use rust_roast.Prelude.{
  ℕ, ap, String, true, false, List, [], ◌∷◌, ◌++◌, map, none, some, Result, ok, ◌≡◌, ◌≢◌, refl, sym,
  ◌∙◌, arith, str_eq, str_eq_refl, str_eq_ne, eq_iff, select, any, Bool-cases, Option-cases, inl,
  inr, All, append-nil,
}
use rust_roast.Host.{Host}
use rust_roast.Models.CuppingRows.{
  CuppingScore, CuppingAttribute, CuppingWithAttributes, CreateCuppingAttributeRequest,
  CreateCuppingRequest,
}
use rust_roast.Tables.{delete_rows, order_by, keyed}
use rust_roast.Tables.Owned.{owned, select-append, select-replaced}
use rust_roast.Tables.Inserts.{insert_all, insert_all-appends, select-insert_all}
use rust_roast.Sessions.{has_id}
use rust_roast.Cupping.{
  Db, score_key, session_of, attribute_key, cupping_of, with_scores, delete_cupping, by_name,
  newest, str_le, get_cupping, new_attribute, new_cupping, create_cupping,
}
use rust_roast.Cupping.Written.{cupping_row, attribute_row, new_cupping-row}
use rust_roast.Cupping.Reads.{
  newest-listed, get_cupping-same, get_cupping-single, select-cascade, delete_cupping-others,
}

-- The outcome of a creation: on success the session has the new cupping only, and a later read
-- gives it with its attributes in the order of their names; the cupping of any other session
-- stays, on an error too.
pub record IsUpsert (h : Host) (db : Db) (session_id : String) (req : CreateCuppingRequest)
    (attributes : List (CreateCuppingAttributeRequest × String)) (cupping_id : String) (now : ℕ)
    (r : Result String CuppingWithAttributes × Db) : Type 0 where
  pub single :
      (c : CuppingWithAttributes)
      → r.0 ≡ ok c
      → select (λ (s : CuppingScore). str_eq s.session_id session_id) r.1.cupping_scores
        ≡ cupping_row h session_id req cupping_id now ∷ []
  pub stored :
      (c : CuppingWithAttributes)
      → r.0 ≡ ok c
      → get_cupping r.1 session_id
        ≡ some (record {
          cupping = cupping_row h session_id req cupping_id now;
          attributes =
              order_by
                (λ (a : CuppingAttribute) (b : CuppingAttribute).
                  str_le a.attribute_name b.attribute_name)
                (map (attribute_row cupping_id now) attributes);
        })
  pub others : (e : String) → e ≢ session_id → get_cupping r.1 e ≡ get_cupping db e

-- The attributes of a new cupping belong to no other.
new_attributes :
    (id k : String) (now : ℕ) (attrs : List (CreateCuppingAttributeRequest × String))
    → str_eq id k ≡ false
    → All (λ a. owned cupping_of k a ≡ false) (map (new_attribute id now) attrs)
new_attributes id k now [] e = tt
new_attributes id k now (attr ∷ attrs) e = (e, new_attributes id k now attrs e)

own_attributes :
    (id : String) (now : ℕ) (attrs : List (CreateCuppingAttributeRequest × String))
    → select (owned cupping_of id) (map (new_attribute id now) attrs)
      ≡ map (new_attribute id now) attrs
own_attributes id now [] = refl
own_attributes id now (attr ∷ attrs) = rw (str_eq_refl id, own_attributes id now attrs) refl

module _ (h : Host) (db : Db) (session_id : String) (req : CreateCuppingRequest)
    (attributes : List (CreateCuppingAttributeRequest × String)) (cupping_id : String)
    (now : ℕ) where
  -- The tables after the inserts, whether their loop ends with an error or not.
  inserted : Db
  unfolding delete_cupping
  inserted = record (delete_cupping db session_id) {
    cupping_scores =
        delete_rows (owned session_of session_id) db.cupping_scores
        ++ new_cupping h session_id req cupping_id now ∷ [];
    cupping_attributes =
        (insert_all attribute_key (map (new_attribute cupping_id now) attributes)
          (delete_cupping db session_id).cupping_attributes).1;
  }

  module _
      (new : any
          (keyed score_key cupping_id)
          (delete_rows (owned session_of session_id) db.cupping_scores)
        ≡ false) where
    other :
        (k : String)
        → any (keyed score_key k) (delete_rows (owned session_of session_id) db.cupping_scores)
          ≡ true
        → str_eq cupping_id k ≡ false
    other k m = ground (arith, eq_iff cupping_id k)

    inserted-others : (e : String) → e ≢ session_id → get_cupping inserted e ≡ get_cupping db e
    unfolding inserted delete_cupping with_scores
    inserted-others e ne =
        let same : newest inserted e ≡ newest (delete_cupping db session_id) e =
          rw
            (
              select-append (owned session_of e)
                  (delete_rows (owned session_of session_id) db.cupping_scores)
                  (new_cupping h session_id req cupping_id now ∷ []),
              str_eq_ne session_id e (λ k. ne (sym k)),
              append-nil (
                  select (owned session_of e)
                    (delete_rows (owned session_of session_id) db.cupping_scores)),
            )
            refl in
        get_cupping-same (delete_cupping db session_id) inserted e same (λ c k.
          select-insert_all attribute_key (owned cupping_of c.id)
            (map (new_attribute cupping_id now) attributes)
            (delete_cupping db session_id).cupping_attributes
            (new_attributes cupping_id c.id now attributes
              (other c.id (newest-listed (delete_cupping db session_id) e c (sym same ∙ k)))))
        ∙ delete_cupping-others db session_id e ne

    inserted-single :
        select (owned session_of session_id) inserted.cupping_scores
        ≡ new_cupping h session_id req cupping_id now ∷ []
    unfolding inserted delete_cupping with_scores
    inserted-single =
        select-replaced session_of db.cupping_scores session_id session_id
          (new_cupping h session_id req cupping_id now ∷ []) (refl, tt)
        ∙ rw (str_eq_refl session_id) refl

    inserted-attributes :
        (insert_all attribute_key
            (map (new_attribute cupping_id now) attributes)
            (delete_cupping db session_id).cupping_attributes).0
          ≡ none
        → select (owned cupping_of cupping_id) inserted.cupping_attributes
          ≡ map (new_attribute cupping_id now) attributes
    unfolding inserted delete_cupping with_scores
    inserted-attributes f =
        rw
          (insert_all-appends attribute_key (map (new_attribute cupping_id now) attributes)
            (delete_cupping db session_id).cupping_attributes f)
          (select-append (owned cupping_of cupping_id)
              (delete_cupping db session_id).cupping_attributes
              (map (new_attribute cupping_id now) attributes)
            ∙ rw
                (
                  select-cascade cupping_id
                      (delete_rows (owned session_of session_id) db.cupping_scores)
                      db.cupping_attributes,
                  new,
                )
                (own_attributes cupping_id now attributes))

-- The creation of a cupping. On success the session has the new cupping only, with the id and the
-- notes given, under the framework of the request, or `sca` if it names none, and with the average
-- of the scores, or none if the request has no scores or their average is no number; and a later read gives it with the
-- attributes of the request in the order of their names. The cupping of any other session stays, on
-- an error too.
pub create_cupping-upserts :
    (h : Host) (db : Db) (session_id : String) (req : CreateCuppingRequest)
    (attributes : List (CreateCuppingAttributeRequest × String)) (cupping_id : String) (now : ℕ)
    → IsUpsert h db session_id req attributes cupping_id now
        (create_cupping h db session_id req attributes cupping_id now)
unfolding create_cupping inserted delete_cupping with_scores get_cupping
create_cupping-upserts h db session_id req attributes cupping_id now =
    let scores = delete_rows (owned session_of session_id) db.cupping_scores in
    elim (Bool-cases (any (keyed score_key cupping_id) scores)) [
      | inl e ↦ rw e (record {
        single = λ c k. cc;
        stored = λ c k. cc;
        others = λ d ne. delete_cupping-others db session_id d ne;
      })
      | inr new ↦ elim (Bool-cases (any (has_id session_id) db.sessions.roast_sessions)) [
        | inr e ↦
            rw (new, e)
              (record {
                single = λ c k. cc;
                stored = λ c k. cc;
                others = λ d ne. delete_cupping-others db session_id d ne;
              })
        | inl e ↦
            let rest = map (new_attribute cupping_id now) attributes in
            let cleared = (delete_cupping db session_id).cupping_attributes in
            let written = new_cupping-row h session_id req cupping_id now in
            elim (Option-cases (insert_all attribute_key rest cleared).0) [
              | inr (m, f) ↦
                  rw (new, e, f)
                    (record {
                      single = λ c k. cc;
                      stored = λ c k. cc;
                      others = inserted-others h db session_id req attributes cupping_id now new;
                    })
              | inl f ↦
                  rw (new, e, f)
                    (record {
                      single = λ c k.
                          inserted-single h db session_id req attributes cupping_id now new
                          ∙ ap (λ row. row ∷ []) written;
                      stored = λ c k.
                          get_cupping-single
                            (inserted h db session_id req attributes cupping_id now) session_id
                            (new_cupping h session_id req cupping_id now) rest
                            (inserted-single h db session_id req attributes cupping_id now new)
                            (inserted-attributes h db session_id req attributes cupping_id now new
                              f)
                          ∙ ap
                              (λ row.
                                some (record { cupping = row; attributes = order_by by_name rest }))
                              written;
                      others = inserted-others h db session_id req attributes cupping_id now new;
                    })
            ]
      ]
    ]
