-- ===== src/Sessions/Routes.antt =====
-- The handlers of crates/server/src/main.rs over the session service. A handler answers with a
-- status code and a value, or with a status code and a message.
pub mod Errors
pub mod Completion
use rust_roast.Prelude.{
  ℕ, ℤ, String, Bool, true, false, List, [], ◌∷◌, Option, none, some, Result, ok, err,
}
use rust_roast.Host.{Host}
use rust_roast.Models.SessionRows.{
  RoastSession, CreateSessionRequest, UpdateSessionRequest, SessionTelemetry, RoastEvent,
  CreateRoastEventRequest,
}
use rust_roast.Sessions as Service
use rust_roast.Sessions.{Db}

abbrev pub Reply {ℓ} : Type ℓ → Type ℓ
Reply A = Result (ℕ × String) (ℕ × A)

abbrev pub found {ℓ} : {A : Type ℓ} → String → Option A → Reply A
found message none = err (404, message)
found message (some a) = ok (200, a)

abbrev pub stored {ℓ} : {A : Type ℓ} → ℕ → String → Result String A → Reply A
stored status message (err e) = err (500, message)
stored status message (ok a) = ok (status, a)

abbrev pub deleted : String → Bool → Reply (Unit {0})
deleted message true = ok (204, tt)
deleted message false = err (404, message)

unfoldable pub api_create_session : Db → CreateSessionRequest → String → ℕ → Reply RoastSession × Db
api_create_session db req id now =
    let (answer, db') = Service.create_session db req id now in
    (stored 200 "Failed to create session" answer, db')

unfoldable pub api_update_session : Db → String → UpdateSessionRequest → ℕ → Reply RoastSession × Db
api_update_session db id req now =
    let (session, db') = Service.update_session db id req now in
    (found "Session not found" session, db')

unfoldable pub api_delete_session : Db → String → Reply (Unit {0}) × Db
api_delete_session db id =
    let (answer, db') = Service.delete_session db id in (deleted "Session not found" answer, db')

unfoldable pub api_start_session : Db → String → ℕ → Reply RoastSession × Db
api_start_session db id now =
    let (session, db') = Service.start_session db id now in
    (found "Session not found or not in planning state" session, db')

unfoldable pub api_pause_session : Db → String → ℕ → Reply RoastSession × Db
api_pause_session db id now =
    let (session, db') = Service.pause_session db id now in
    (found "Session not found or not active" session, db')

unfoldable pub api_resume_session : Db → String → ℕ → Reply RoastSession × Db
api_resume_session db id now =
    let (session, db') = Service.resume_session db id now in
    (found "Session not found or not paused" session, db')

unfoldable pub api_add_telemetry_point : Db → SessionTelemetry → Reply (Unit {0}) × Db
api_add_telemetry_point db point =
    let (answer, db') = Service.add_telemetry_point db point in
    (stored 201 "Failed to add telemetry point" answer, db')

unfoldable pub api_create_roast_event :
    Db → String → CreateRoastEventRequest → String → ℕ → Reply RoastEvent × Db
api_create_roast_event db session_id req event_id now =
    let (answer, db') = Service.create_roast_event db session_id req event_id now in
    (stored 201 "Failed to create roast event" answer, db')

-- The id of the session in the path is not used.
unfoldable pub api_delete_roast_event : Db → String → String → Reply (Unit {0}) × Db
api_delete_roast_event db session_id event_id =
    let (answer, db') = Service.delete_roast_event db event_id in
    (stored 204 "Failed to delete roast event" answer, db')

module _ (h : Host) where
  unfoldable pub api_complete_session : Db → String → ℕ → Reply RoastSession × Db
  api_complete_session db id now =
      let (session, db') = Service.complete_session h db id now in
      (found "Session not found or not active/paused" session, db')

  unfoldable pub api_get_roast_events : Db → String → Reply (List RoastEvent)
  api_get_roast_events db session_id = ok (200, Service.get_roast_events h db session_id)
