-- ===== src/Cupping/Integrity.antt =====
-- The keys of the cupping tables, under every sequence of calls.
use rust_roast.Prelude.{
  ℕ, String, true, false, not, List, [], ◌∷◌, ◌++◌, map, ◌≡◌, refl, arith, Bool-cases, Option-cases,
  inl, inr, All, All-impl, All-append, All-select, any,
}
use rust_roast.Host.{Host}
use rust_roast.Models.SessionRows.{RoastSession}
use rust_roast.Models.CuppingRows.{
  CuppingScore, CuppingAttribute, CreateCuppingAttributeRequest, CreateCuppingRequest,
}
use rust_roast.Tables.{
  delete_rows, keyed, Unique, Unique-select, Unique-append, any-append_left, any-append_new,
  any-delete_rows,
}
use rust_roast.Tables.Owned.{owned}
use rust_roast.Tables.Inserts.{insert_all, All-insert_all}
use rust_roast.Sessions as Service
use rust_roast.Sessions.{has_id}
use rust_roast.Cupping.{
  Db, score_key, session_of, attribute_key, cupping_of, with_scores, delete_cupping, delete_session,
  new_attribute, new_cupping, create_cupping,
}

-- No two cuppings have the same key or the same session, each belongs to a session of the table,
-- and each attribute to a cupping.
pub record IsConsistent (db : Db) : Type 0 where
  pub keys : Unique score_key db.cupping_scores
  pub once : Unique session_of db.cupping_scores
  pub linked :
      All
        (λ (c : CuppingScore). any (has_id c.session_id) db.sessions.roast_sessions ≡ true)
        db.cupping_scores
  pub attached :
      All
        (λ (a : CuppingAttribute). any (keyed score_key a.cupping_id) db.cupping_scores ≡ true)
        db.cupping_attributes

-- The calls that change the tables, with their new UUIDs and their clock.
pub data Call : Type 0 where
  create :
      String
      → CreateCuppingRequest
      → List (CreateCuppingAttributeRequest × String)
      → String
      → ℕ
      → Call
  delete : String → Call
  delete_roast : String → Call

unfoldable pub run : Host → Db → Call → Db
run h db (create session_id req attributes cupping_id now) =
    (create_cupping h db session_id req attributes cupping_id now).1
run h db (delete session_id) = delete_cupping db session_id
run h db (delete_roast session_id) = (delete_session db session_id).1

unfoldable pub run_all : Host → Db → List Call → Db
unfolding run
run_all h db [] = db
run_all h db (call ∷ calls) = run_all h (run h db call) calls

none_left :
    (d : String) (cs : List CuppingScore)
    → any (owned session_of d) (delete_rows (owned session_of d) cs) ≡ false
none_left d [] = refl
none_left d (c ∷ cs) = ground (arith, none_left d cs)

delete_cupping-IsConsistent :
    (db : Db) (session_id : String) → IsConsistent db → IsConsistent (delete_cupping db session_id)
unfolding delete_cupping with_scores
delete_cupping-IsConsistent db session_id v =
    let P = λ (c : CuppingScore). any (has_id c.session_id) db.sessions.roast_sessions ≡ true in
    record {
      keys =
          Unique-select score_key (λ c. not (owned session_of session_id c)) db.cupping_scores
            v.keys;
      once =
          Unique-select session_of (λ c. not (owned session_of session_id c)) db.cupping_scores
            v.once;
      linked =
          All-select P P (λ c. not (owned session_of session_id c)) (λ c e k. k) db.cupping_scores
            v.linked;
      attached =
          All-select
            (λ (a : CuppingAttribute). any (keyed score_key a.cupping_id) db.cupping_scores ≡ true)
            (λ (a : CuppingAttribute).
              any (keyed score_key a.cupping_id)
                (delete_rows (owned session_of session_id) db.cupping_scores)
              ≡ true)
            (λ a.
              any (keyed score_key (cupping_of a))
                (delete_rows (owned session_of session_id) db.cupping_scores))
            (λ a e k. e) db.cupping_attributes v.attached;
    }

-- The cuppings left belong to the sessions left.
still_linked :
    (d : String) (ss : List RoastSession) (cs : List CuppingScore)
    → All (λ (c : CuppingScore). any (has_id c.session_id) ss ≡ true) cs
    → All
        (λ (c : CuppingScore). any (has_id c.session_id) (delete_rows (has_id d) ss) ≡ true)
        (delete_rows (owned session_of d) cs)
still_linked d ss cs v =
    All-select (λ (c : CuppingScore). any (has_id c.session_id) ss ≡ true)
      (λ (c : CuppingScore). any (has_id c.session_id) (delete_rows (has_id d) ss) ≡ true)
      (λ c. not (owned session_of d c))
      (λ c e k. any-delete_rows (λ (s : RoastSession). s.id) c.session_id d ss (ground arith) k) cs
      v

delete_session-IsConsistent :
    (db : Db) (session_id : String)
    → IsConsistent db
    → IsConsistent (delete_session db session_id).1
unfolding delete_session Service.delete_session delete_cupping with_scores
delete_session-IsConsistent db session_id v =
    let w = delete_cupping-IsConsistent db session_id v in
    record {
      keys = w.keys;
      once = w.once;
      linked = still_linked session_id db.sessions.roast_sessions db.cupping_scores v.linked;
      attached = w.attached;
    }

-- The rows of a request belong to its cupping.
new_attached :
    (cupping_id : String) (now : ℕ) (cs : List CuppingScore)
    (attributes : List (CreateCuppingAttributeRequest × String))
    → any (keyed score_key cupping_id) cs ≡ true
    → All
        (λ (a : CuppingAttribute). any (keyed score_key a.cupping_id) cs ≡ true)
        (map (new_attribute cupping_id now) attributes)
new_attached cupping_id now cs [] k = tt
new_attached cupping_id now cs (attr ∷ attributes) k =
    (k, new_attached cupping_id now cs attributes k)

-- A cupping under a new key of a session that has none, and rows for it.
inserted-IsConsistent :
    (db : Db) (c : CuppingScore) (now : ℕ)
    (attributes : List (CreateCuppingAttributeRequest × String))
    → any (keyed score_key c.id) db.cupping_scores ≡ false
    → any (owned session_of c.session_id) db.cupping_scores ≡ false
    → any (has_id c.session_id) db.sessions.roast_sessions ≡ true
    → IsConsistent db
    → IsConsistent (record db {
      cupping_scores = db.cupping_scores ++ c ∷ [];
      cupping_attributes =
          (insert_all attribute_key
            (map (new_attribute c.id now) attributes)
            db.cupping_attributes).1;
    })
inserted-IsConsistent db c now attributes new first known v = record {
  keys = Unique-append score_key db.cupping_scores c v.keys new;
  once = Unique-append session_of db.cupping_scores c v.once first;
  linked =
      All-append (λ (d : CuppingScore). any (has_id d.session_id) db.sessions.roast_sessions ≡ true)
        db.cupping_scores c v.linked known;
  attached =
      All-insert_all attribute_key
        (λ (a : CuppingAttribute).
          any (keyed score_key a.cupping_id) (db.cupping_scores ++ c ∷ []) ≡ true)
        (map (new_attribute c.id now) attributes) db.cupping_attributes
        (new_attached c.id now (db.cupping_scores ++ c ∷ []) attributes
          (any-append_new score_key db.cupping_scores c))
        (All-impl
          (λ (a : CuppingAttribute). any (keyed score_key a.cupping_id) db.cupping_scores ≡ true)
          (λ (a : CuppingAttribute).
            any (keyed score_key a.cupping_id) (db.cupping_scores ++ c ∷ []) ≡ true)
          (λ a k. any-append_left score_key a.cupping_id db.cupping_scores c k)
          db.cupping_attributes v.attached);
}

create_cupping-IsConsistent :
    (h : Host) (db : Db) (session_id : String) (req : CreateCuppingRequest)
    (attributes : List (CreateCuppingAttributeRequest × String)) (cupping_id : String) (now : ℕ)
    → IsConsistent db
    → IsConsistent (create_cupping h db session_id req attributes cupping_id now).1
unfolding create_cupping delete_cupping with_scores
create_cupping-IsConsistent h db session_id req attributes cupping_id now v =
    let scores = delete_rows (owned session_of session_id) db.cupping_scores in
    let rows = map (new_attribute cupping_id now) attributes in
    let w : IsConsistent (delete_cupping db session_id) =
      delete_cupping-IsConsistent db session_id v in
    elim (Bool-cases (any (keyed score_key cupping_id) scores)) [
      | inl e ↦ rw e w
      | inr new ↦ elim (Bool-cases (any (has_id session_id) db.sessions.roast_sessions)) [
        | inr e ↦ rw (new, e) w
        | inl e ↦
            let u =
              inserted-IsConsistent (delete_cupping db session_id)
                (new_cupping h session_id req cupping_id now) now attributes new
                (none_left session_id db.cupping_scores) e w in
            elim (Option-cases
              (insert_all attribute_key rows (delete_cupping db session_id).cupping_attributes).0) [
                | inr (m, f) ↦ rw (new, e, f) u
                | inl f ↦ rw (new, e, f) u
              ]
      ]
    ]

-- From tables whose keys are in order, every sequence of calls leads to such tables: no two
-- cuppings have the same key or the same session, each belongs to a session of the table, and each
-- attribute to a cupping.
pub run_all-IsConsistent :
    (h : Host) (db : Db) (calls : List Call) → IsConsistent db → IsConsistent (run_all h db calls)
unfolding run_all run
run_all-IsConsistent h db [] v = v
run_all-IsConsistent h db (create s req attrs id now ∷ calls) v =
    run_all-IsConsistent h (create_cupping h db s req attrs id now).1 calls
      (create_cupping-IsConsistent h db s req attrs id now v)
run_all-IsConsistent h db (delete s ∷ calls) v =
    run_all-IsConsistent h (delete_cupping db s) calls (delete_cupping-IsConsistent db s v)
run_all-IsConsistent h db (delete_roast s ∷ calls) v =
    run_all-IsConsistent h (delete_session db s).1 calls (delete_session-IsConsistent db s v)
