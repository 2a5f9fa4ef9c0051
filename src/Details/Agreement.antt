-- ===== src/Details/Agreement.antt =====
-- How a stored cupping shows in the read of its session.
use rust_roast.Prelude.{
  ℕ, String, true, List, some, Result, ok, ◌≡◌, ◌≢◌, refl, arith, map, find, any, Bool-cases,
  Option-cases, inl, inr,
}
use rust_roast.Host.{Host}
use rust_roast.Models.CuppingRows.{
  CuppingWithAttributes, CreateCuppingAttributeRequest, CreateCuppingRequest,
}
use rust_roast.Tables.{order_by, keyed, delete_rows, any-find}
use rust_roast.Tables.Owned.{owned}
use rust_roast.Tables.Inserts.{insert_all}
use rust_roast.Sessions.{has_id, get_session}
use rust_roast.Sessions.Summary.{option_map}
use rust_roast.Profiles as Profiles
use rust_roast.Cupping.{
  Db, score_key, session_of, attribute_key, by_name, new_attribute, delete_cupping, with_scores,
  create_cupping,
}
use rust_roast.Cupping.Written.{cupping_row, attribute_row}
use rust_roast.Cupping.Upsert.{create_cupping-upserts}
use rust_roast.Details.{SessionWithTelemetry, get_session_with_telemetry}

-- The reads of the sessions after the creation of a cupping: its session is there and shows it, and
-- any other session shows what it showed before.
pub record IsShown (h : Host) (db : Db) (profiles : Profiles.Db) (session_id : String)
    (req : CreateCuppingRequest) (attributes : List (CreateCuppingAttributeRequest × String))
    (cupping_id : String) (now : ℕ) (r : Result String CuppingWithAttributes × Db) : Type 0 where
  pub shown :
      (c : CuppingWithAttributes)
      → r.0 ≡ ok c
      → option_map
          (λ (d : SessionWithTelemetry). d.cupping)
          (get_session_with_telemetry h r.1 profiles session_id)
        ≡ some (
            some (record {
              cupping = cupping_row h session_id req cupping_id now;
              attributes = order_by by_name (map (attribute_row cupping_id now) attributes);
            }))
  pub others :
      (e : String)
      → e ≢ session_id
      → get_session_with_telemetry h r.1 profiles e ≡ get_session_with_telemetry h db profiles e

module _ (h : Host) (db : Db) (session_id : String) (req : CreateCuppingRequest)
    (attributes : List (CreateCuppingAttributeRequest × String)) (cupping_id : String)
    (now : ℕ) where
  -- A creation leaves the sessions as they are, and succeeds only for one that is there.
  outcome :
      ((create_cupping h db session_id req attributes cupping_id now).1.sessions ≡ db.sessions)
      × ((c : CuppingWithAttributes)
          → (create_cupping h db session_id req attributes cupping_id now).0 ≡ ok c
          → any (has_id session_id) db.sessions.roast_sessions ≡ true)
  unfolding create_cupping delete_cupping with_scores
  outcome =
      let rows = map (new_attribute cupping_id now) attributes in
      elim (Bool-cases (
        any (keyed score_key cupping_id)
          (delete_rows (owned session_of session_id) db.cupping_scores))) [
            | inl e ↦ rw e (refl, λ c k. cc)
            | inr new ↦ elim (Bool-cases (any (has_id session_id) db.sessions.roast_sessions)) [
              | inr e ↦ rw (new, e) (refl, λ c k. cc)
              | inl e ↦
                  elim (Option-cases
                    (insert_all attribute_key rows
                      (delete_cupping db session_id).cupping_attributes).0) [
                        | inr (m, f) ↦ rw (new, e, f) (refl, λ c k. cc)
                        | inl f ↦ rw (new, e, f) (refl, λ c k. refl)
                      ]
            ]
          ]

-- The reads of the sessions after a cupping is created: on success its session shows the new
-- cupping, with the attributes in the order of their names, and any other session shows what it
-- showed before, on an error too.
pub create_cupping-shows :
    (h : Host) (db : Db) (profiles : Profiles.Db) (session_id : String) (req : CreateCuppingRequest)
    (attributes : List (CreateCuppingAttributeRequest × String)) (cupping_id : String) (now : ℕ)
    → IsShown h db profiles session_id req attributes cupping_id now
        (create_cupping h db session_id req attributes cupping_id now)
unfolding get_session_with_telemetry get_session
create_cupping-shows h db profiles session_id req attributes cupping_id now =
    let upsert = create_cupping-upserts h db session_id req attributes cupping_id now in
    let (same, known) = outcome h db session_id req attributes cupping_id now in
    record {
      shown = λ c k. elim (Option-cases (find (has_id session_id) db.sessions.roast_sessions)) [
        | inl e ↦
            ground (arith, any-find (has_id session_id) db.sessions.roast_sessions e, known c k)
        | inr (s, e) ↦ rw (same, e, upsert.stored c k) refl
      ];
      others = λ e ne. rw (same, upsert.others e ne) refl;
    }
