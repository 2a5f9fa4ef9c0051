-- ===== src/Sessions.antt =====
-- `RoastSessionService` of crates/server/src/services.rs: the sessions, their events and their
-- telemetry. A table is a list of rows; a statement is a function on the tables, with the keys of
-- crates/server/migrations enforced. `Utc::now()` and the new UUID are arguments, and an error of
-- the database is the text of its kind.
pub mod Summary
pub mod Lifecycle
pub mod Rows
pub mod Phases
pub mod Integrity
pub mod Routes
pub mod Queries
pub mod EventUpdate
mod Examples
use rust_roast.Prelude.{
  ℕ, ℤ, String, Bool, true, false, ◌&&◌, ◌||◌, not, List, [], ◌∷◌, ◌++◌, Option, none, some, Result,
  ok, err, str_eq, if◌then◌else◌, select, find, first, any, Dict,
}
use rust_roast.Host.{Host}
use rust_roast.Models.SessionStatus.{SessionStatus, planning, active, paused, completed, to_string}
use rust_roast.Models.SessionRows.{
  RoastSession, CreateSessionRequest, UpdateSessionRequest, SessionTelemetry, RoastEvent,
  CreateRoastEventRequest,
}
use rust_roast.Tables.{is_none, keep_or, update_rows}
use Summary.{or_else, order_by, summary}

pub record Db : Type 0 where
  pub roast_sessions : List RoastSession
  pub session_telemetry : List SessionTelemetry
  pub roast_events : List RoastEvent
  pub profile_ids : List String
  pub settings : Dict String

abbrev pub has_id : String → RoastSession → Bool
has_id id s = str_eq s.id id

-- `status = ?`, on the texts of the column and of the parameter.
abbrev pub has_status : SessionStatus → RoastSession → Bool
has_status x s = str_eq (to_string s.status) (to_string x)

-- `UPDATE … SET … WHERE id = ? AND … RETURNING *`, fetched as an optional row.
abbrev pub update_where :
    Db → (RoastSession → Bool) → (RoastSession → RoastSession) → Option RoastSession × Db
update_where db p f = (
  elim (find p db.roast_sessions) [ none ↦ none | some s ↦ some (f s) ],
  record db { roast_sessions = update_rows p f db.roast_sessions },
)

-- A foreign key that may be NULL.
abbrev pub refers : Option String → List String → Bool
refers none ids = true
refers (some id) ids = any (str_eq id) ids

abbrev pub planned : CreateSessionRequest → String → ℕ → RoastSession
planned req id now = record {
  id = id;
  name = req.name;
  device_id = req.device_id;
  profile_id = req.profile_id;
  status = planning;
  start_time = none;
  end_time = none;
  created_at = now;
  updated_at = now;
  bean_origin = req.bean_origin;
  bean_variety = req.bean_variety;
  green_weight = req.green_weight;
  roasted_weight = none;
  target_roast_level = req.target_roast_level;
  notes = req.notes;
  ambient_temp = req.ambient_temp;
  humidity = req.humidity;
  max_temp = none;
  total_time_seconds = none;
  first_crack_time = none;
  development_time_ratio = none;
  weight_loss_pct = none;
  max_ror = none;
  avg_ror_drying = none;
  avg_ror_maillard = none;
  avg_ror_development = none;
  drying_end_time = none;
  drying_end_temp = none;
  auc_value = none;
}

unfoldable pub create_session :
    Db → CreateSessionRequest → String → ℕ → Result String RoastSession × Db
create_session db req id now =
    if any (has_id id) db.roast_sessions
    then (err "UNIQUE constraint failed", db)
    else if not (refers req.profile_id db.profile_ids)
    then (err "FOREIGN KEY constraint failed", db)
    else (
      ok (planned req id now),
      record db { roast_sessions = db.roast_sessions ++ planned req id now ∷ [] },
    )

unfoldable pub get_session : Db → String → Option RoastSession
get_session db id = find (has_id id) db.roast_sessions

abbrev pub no_fields : UpdateSessionRequest → Bool
no_fields req =
    is_none req.name
    && (is_none req.roasted_weight
        && (is_none req.notes
            && (is_none req.first_crack_time && is_none req.development_time_ratio)))

-- The columns of a request that has them; the others are left as they are.
abbrev pub updated : UpdateSessionRequest → ℕ → RoastSession → RoastSession
updated req now s = record s {
  updated_at = now;
  name = keep_or req.name s.name;
  roasted_weight = or_else req.roasted_weight s.roasted_weight;
  notes = or_else req.notes s.notes;
  first_crack_time = or_else req.first_crack_time s.first_crack_time;
  development_time_ratio = or_else req.development_time_ratio s.development_time_ratio;
}

unfoldable pub update_session : Db → String → UpdateSessionRequest → ℕ → Option RoastSession × Db
unfolding get_session
update_session db id req now =
    if no_fields req then (get_session db id, db) else update_where db (has_id id) (updated req now)

abbrev pub id_and_status : String → SessionStatus → RoastSession → Bool
id_and_status id x s = has_id id s && has_status x s

abbrev pub started : ℕ → RoastSession → RoastSession
started now s = record s { status = active; start_time = some now; updated_at = now }

abbrev pub with_status : SessionStatus → ℕ → RoastSession → RoastSession
with_status x now s = record s { status = x; updated_at = now }

unfoldable pub start_session : Db → String → ℕ → Option RoastSession × Db
start_session db id now = update_where db (id_and_status id planning) (started now)

unfoldable pub pause_session : Db → String → ℕ → Option RoastSession × Db
pause_session db id now = update_where db (id_and_status id active) (with_status paused now)

unfoldable pub resume_session : Db → String → ℕ → Option RoastSession × Db
resume_session db id now = update_where db (id_and_status id paused) (with_status active now)

-- The rows that belong to a session, which the foreign keys delete with it.
abbrev pub of_session : String → SessionTelemetry → Bool
of_session id t = str_eq t.session_id id

abbrev pub event_of_session : String → RoastEvent → Bool
event_of_session id e = str_eq e.session_id id

unfoldable pub delete_session : Db → String → Bool × Db
delete_session db id = (
  any (has_id id) db.roast_sessions,
  record db {
    roast_sessions = select (λ s. not (has_id id s)) db.roast_sessions;
    session_telemetry = select (λ t. not (of_session id t)) db.session_telemetry;
    roast_events = select (λ e. not (event_of_session id e)) db.roast_events;
  },
)

abbrev pub event_row : String → CreateRoastEventRequest → String → ℕ → RoastEvent
event_row session_id req event_id now = record {
  id = event_id;
  session_id = session_id;
  event_type = req.event_type;
  elapsed_seconds = req.elapsed_seconds;
  temperature = req.temperature;
  notes = req.notes;
  created_at = now;
}

-- `INSERT` into a table whose rows belong to a session that must exist.
unfoldable pub create_roast_event :
    Db → String → CreateRoastEventRequest → String → ℕ → Result String RoastEvent × Db
create_roast_event db session_id req event_id now =
    let event = event_row session_id req event_id now in
    if any (λ (e : RoastEvent). str_eq e.id event_id) db.roast_events
    then (err "UNIQUE constraint failed", db)
    else if not (any (has_id session_id) db.roast_sessions)
    then (err "FOREIGN KEY constraint failed", db)
    else (ok event, record db { roast_events = db.roast_events ++ event ∷ [] })

unfoldable pub delete_roast_event : Db → String → Result String (Unit {0}) × Db
delete_roast_event db event_id =
    if any (λ (e : RoastEvent). str_eq e.id event_id) db.roast_events
    then (
      ok tt,
      record db {
        roast_events = select (λ (e : RoastEvent). not (str_eq e.id event_id)) db.roast_events;
      },
    )
    else (err "Roast event not found", db)

unfoldable pub add_telemetry_point : Db → SessionTelemetry → Result String (Unit {0}) × Db
add_telemetry_point db point =
    if any (λ (t : SessionTelemetry). str_eq t.id point.id) db.session_telemetry
    then (err "UNIQUE constraint failed", db)
    else if not (any (has_id point.session_id) db.roast_sessions)
    then (err "FOREIGN KEY constraint failed", db)
    else (ok tt, record db { session_telemetry = db.session_telemetry ++ point ∷ [] })

-- The rows that the final update of `complete_session` picks.
abbrev pub running : String → RoastSession → Bool
running id s = has_id id s && (has_status active s || has_status paused s)

module _ (h : Host) where
  unfoldable pub get_session_telemetry : Db → String → List SessionTelemetry
  get_session_telemetry db session_id =
      order_by h (λ (t : SessionTelemetry). t.elapsed_seconds)
        (select (of_session session_id) db.session_telemetry)

  unfoldable pub get_roast_events : Db → String → List RoastEvent
  get_roast_events db session_id =
      order_by h (λ (e : RoastEvent). e.elapsed_seconds)
        (select (event_of_session session_id) db.roast_events)

  -- The columns that the final update of `complete_session` sets.
  abbrev pub completed_with : Summary.Summary h → ℕ → RoastSession → RoastSession
  completed_with sum now s = record s {
    status = completed;
    end_time = some now;
    updated_at = now;
    total_time_seconds = sum.total_time_seconds;
    max_temp = sum.max_temp;
    max_ror = sum.max_ror;
    first_crack_time = or_else sum.first_crack_time s.first_crack_time;
    development_time_ratio = or_else sum.development_time_ratio s.development_time_ratio;
    weight_loss_pct = sum.weight_loss_pct;
    avg_ror_drying = sum.avg_ror_drying;
    avg_ror_maillard = sum.avg_ror_maillard;
    avg_ror_development = sum.avg_ror_development;
    drying_end_time = sum.drying_end_time;
    drying_end_temp = sum.drying_end_temp;
    auc_value = sum.auc_value;
  }

  -- What `complete_session` reads before its update.
  abbrev pub figures : Db → RoastSession → String → Summary.Summary h
  figures db existing id =
      summary h db.settings existing (select (of_session id) db.session_telemetry)
        (get_roast_events db id)

  unfoldable pub complete_session : Db → String → ℕ → Option RoastSession × Db
  complete_session db id now = elim (get_session db id) [
    | none ↦ (none, db)
    | some existing ↦ update_where db (running id) (completed_with (figures db existing id) now)
  ]
