-- ===== src/Sessions/EventUpdate.antt =====
-- `update_roast_event` of crates/server/src/services.rs, whose statement is built from the fields of
-- the request, over the columns that crates/server/migrations gives the table of the events.
use rust_roast.Prelude.{
  String, Bool, true, false, ◌&&◌, not, List, [], ◌∷◌, ◌++◌, Option, none, some, Result, ok, err,
  str_eq, if◌then◌else◌, any, find, ◌≡◌, refl, Bool-cases, inl, inr,
}
use rust_roast.Models.SessionRows.{RoastEvent, UpdateRoastEventRequest}
use rust_roast.Tables.{keep_or, or_else, update_rows}
use rust_roast.Sessions.{Db}
use rust_roast.Sessions.Routes.{Reply, stored}

abbrev pub event_columns : List String
event_columns =
    "id" ∷ "session_id" ∷ "event_type" ∷ "elapsed_seconds" ∷ "temperature" ∷ "notes" ∷ "created_at"
    ∷ []

abbrev pub column_of {ℓ} : {A : Type ℓ} → String → Option A → List String
column_of name none = []
column_of name (some a) = name ∷ []

-- The columns that the statement sets for the fields of the request.
abbrev pub updates : UpdateRoastEventRequest → List String
updates req =
    column_of "elapsed_seconds" req.elapsed_seconds
    ++ column_of "temperature" req.temperature
    ++ column_of "notes" req.notes

-- SQLite prepares a statement only if the table has all its columns.
abbrev pub all_known : List String → Bool
all_known [] = true
all_known (c ∷ cs) = any (str_eq c) event_columns && all_known cs

abbrev pub event_with : UpdateRoastEventRequest → RoastEvent → RoastEvent
event_with req e = record e {
  elapsed_seconds = keep_or req.elapsed_seconds e.elapsed_seconds;
  temperature = or_else req.temperature e.temperature;
  notes = or_else req.notes e.notes;
}

abbrev pub has_event_id : String → RoastEvent → Bool
has_event_id id e = str_eq e.id id

abbrev pub no_updates : List String → Bool
no_updates [] = true
no_updates (c ∷ cs) = false

-- `UPDATE … RETURNING *` of one row.
unfoldable pub update_roast_event :
    Db → String → UpdateRoastEventRequest → Result String RoastEvent × Db
update_roast_event db event_id req =
    if no_updates (updates req)
    then (err "No fields to update", db)
    else if not (all_known (updates req ++ "updated_at" ∷ []))
    then (err "no such column: updated_at", db)
    else (
      elim (find (has_event_id event_id) db.roast_events) [
        | none ↦ err "no rows returned"
        | some e ↦ ok (event_with req e)
      ],
      record db {
        roast_events = update_rows (has_event_id event_id) (event_with req) db.roast_events;
      },
    )

-- The id of the session in the path is not used.
unfoldable pub api_update_roast_event :
    Db → String → String → UpdateRoastEventRequest → Reply RoastEvent × Db
unfolding update_roast_event
api_update_roast_event db session_id event_id req =
    let (answer, db') = update_roast_event db event_id req in
    (stored 200 "Failed to update roast event" answer, db')

unknown_column : (cs : List String) → all_known (cs ++ "updated_at" ∷ []) ≡ false
unknown_column [] = refl
unknown_column (c ∷ cs) = elim (Bool-cases (any (str_eq c) event_columns)) [
  | inl e ↦ rw e (unknown_column cs)
  | inr e ↦ rw e refl
]

-- Every update of an event is answered with 500, whatever its fields, and changes nothing: the
-- statement sets a column that the table of the events has not got.
pub api_update_roast_event-fails :
    (db : Db) (session_id event_id : String) (req : UpdateRoastEventRequest)
    → api_update_roast_event db session_id event_id req
      ≡ (err (500, "Failed to update roast event"), db)
unfolding api_update_roast_event update_roast_event
api_update_roast_event-fails db session_id event_id req =
    elim (Bool-cases (no_updates (updates req))) [
      | inl e ↦ rw e refl
      | inr e ↦ rw (e, unknown_column (updates req)) refl
    ]
