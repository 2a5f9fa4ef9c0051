-- ===== src/Sessions/Routes/Errors.antt =====
-- What a session request that fails leaves behind.
use rust_roast.Prelude.{
  ℕ, String, Bool, false, List, [], ◌∷◌, Option, none, some, Result, ok, err, ◌≡◌, refl, sym, ap,
  subst, arith, str_eq, eq_iff, find, any, Bool-cases, Option-cases, inl, inr, All,
}
use rust_roast.Host.{Host}
use rust_roast.Models.SessionRows.{
  RoastSession, CreateSessionRequest, UpdateSessionRequest, SessionTelemetry, RoastEvent,
  CreateRoastEventRequest, UpdateRoastEventRequest,
}
use rust_roast.Tables.{update_rows-none, delete_rows-none, any-find}
use rust_roast.Models.SessionStatus.{planning, active, paused}
use rust_roast.Sessions.{
  Db, id_and_status, started, with_status, running, completed_with, figures, has_id, of_session,
  event_of_session, update_where, update_session, updated, no_fields, start_session, pause_session,
  resume_session, complete_session, get_session, delete_session, create_session,
  add_telemetry_point, create_roast_event, delete_roast_event,
}
use rust_roast.Sessions.EventUpdate.{api_update_roast_event, api_update_roast_event-fails}
use rust_roast.Sessions.Integrity.{IsLinked, Known}
use rust_roast.Sessions.Routes.{
  Reply, found, api_create_session, api_update_session, api_delete_session, api_start_session,
  api_pause_session, api_resume_session, api_complete_session, api_add_telemetry_point,
  api_create_roast_event, api_delete_roast_event,
}

-- The requests that change the tables, each with its clock and its new UUID.
pub data Request : Type 0 where
  post_session : CreateSessionRequest → String → ℕ → Request
  put_session : String → UpdateSessionRequest → ℕ → Request
  delete_session_request : String → Request
  post_start post_pause post_resume post_complete : String → ℕ → Request
  post_telemetry : SessionTelemetry → Request
  post_event : String → CreateRoastEventRequest → String → ℕ → Request
  put_event : String → String → UpdateRoastEventRequest → Request
  delete_event : String → String → Request

-- The answer without its value.
abbrev pub code_of {ℓ} : {A : Type ℓ} → Reply A → Result (ℕ × String) ℕ
code_of (err e) = err e
code_of (ok (status, a)) = ok status

abbrev pub outcome {ℓ} : {A : Type ℓ} → Reply A × Db → Result (ℕ × String) ℕ × Db
outcome (reply, db) = (code_of reply, db)

-- An answer of 404 is that of no row.
missing {ℓ} :
    {A : Type ℓ} (message : String) (o : Option A) (e : ℕ × String)
    → code_of (found message o) ≡ err e
    → o ≡ none
missing message none e k = refl
missing message (some a) e k = cc

-- An update that finds no row changes none.
update_where-none :
    (db : Db) (p : RoastSession → Bool) (f : RoastSession → RoastSession)
    → (update_where db p f).0 ≡ none
    → (update_where db p f).1 ≡ db
update_where-none db p f k = elim (Option-cases (find p db.roast_sessions)) [
  | inr (s, g) ↦ ground arith
  | inl g ↦ rw (update_rows-none p f db.roast_sessions (any-find p db.roast_sessions g)) refl
]

-- No row belongs to a session that is not there.
orphans :
    {A : Type 0} (owner : A → String) (db : Db) (id : String) (rows : List A)
    → any (has_id id) db.roast_sessions ≡ false
    → All (λ x. Known db (owner x)) rows
    → any (λ x. str_eq (owner x) id) rows ≡ false
orphans owner db id [] e v = refl
orphans owner db id (x ∷ rows) e v =
    ground (arith, orphans owner db id rows e v.1, eq_iff (owner x) id, v.0)

module _ (h : Host) where
  unfoldable pub serve : Db → Request → Result (ℕ × String) ℕ × Db
  serve db (post_session req id now) = outcome (api_create_session db req id now)
  serve db (put_session id req now) = outcome (api_update_session db id req now)
  serve db (delete_session_request id) = outcome (api_delete_session db id)
  serve db (post_start id now) = outcome (api_start_session db id now)
  serve db (post_pause id now) = outcome (api_pause_session db id now)
  serve db (post_resume id now) = outcome (api_resume_session db id now)
  serve db (post_complete id now) = outcome (api_complete_session h db id now)
  serve db (post_telemetry point) = outcome (api_add_telemetry_point db point)
  serve db (post_event session_id req event_id now) =
      outcome (api_create_roast_event db session_id req event_id now)
  serve db (put_event session_id event_id req) =
      outcome (api_update_roast_event db session_id event_id req)
  serve db (delete_event session_id event_id) =
      outcome (api_delete_roast_event db session_id event_id)

  start-unchanged :
      (db : Db) (id : String) (now : ℕ) (e : ℕ × String)
      → (serve db (post_start id now)).0 ≡ err e
      → (serve db (post_start id now)).1 ≡ db
  unfolding serve api_start_session start_session
  start-unchanged db id now e k =
      update_where-none db (id_and_status id planning) (started now)
        (missing "Session not found or not in planning state" (start_session db id now).0 e k)

  pause-unchanged :
      (db : Db) (id : String) (now : ℕ) (e : ℕ × String)
      → (serve db (post_pause id now)).0 ≡ err e
      → (serve db (post_pause id now)).1 ≡ db
  unfolding serve api_pause_session pause_session
  pause-unchanged db id now e k =
      update_where-none db (id_and_status id active) (with_status paused now)
        (missing "Session not found or not active" (pause_session db id now).0 e k)

  resume-unchanged :
      (db : Db) (id : String) (now : ℕ) (e : ℕ × String)
      → (serve db (post_resume id now)).0 ≡ err e
      → (serve db (post_resume id now)).1 ≡ db
  unfolding serve api_resume_session resume_session
  resume-unchanged db id now e k =
      update_where-none db (id_and_status id paused) (with_status active now)
        (missing "Session not found or not paused" (resume_session db id now).0 e k)

  complete-unchanged :
      (db : Db) (id : String) (now : ℕ) (e : ℕ × String)
      → (serve db (post_complete id now)).0 ≡ err e
      → (serve db (post_complete id now)).1 ≡ db
  unfolding serve api_complete_session complete_session
  complete-unchanged db id now e k = elim (Option-cases (get_session db id)) [
    | inl f ↦ rw (complete_session, f) refl
    | inr (s, f) ↦
        subst (λ r. (r.0 ≡ none) → r.1 ≡ db) (sym (found_session s f))
          (update_where-none db (running id) (completed_with h (figures h db s id) now))
          (missing "Session not found or not active/paused" (complete_session h db id now).0 e k)
  ]
    where
      found_session :
          (s : RoastSession)
          → get_session db id ≡ some s
          → complete_session h db id now
            ≡ update_where db (running id) (completed_with h (figures h db s id) now)
      found_session s f = rw (complete_session, f) refl

  put-unchanged :
      (db : Db) (id : String) (req : UpdateSessionRequest) (now : ℕ) (e : ℕ × String)
      → (serve db (put_session id req now)).0 ≡ err e
      → (serve db (put_session id req now)).1 ≡ db
  unfolding serve api_update_session update_session
  put-unchanged db id req now e k = elim (Bool-cases (no_fields req)) [
    | inl f ↦ rw (update_session, f) refl
    | inr f ↦
        subst (λ r. (r.0 ≡ none) → r.1 ≡ db) (sym (some_fields f))
          (update_where-none db (has_id id) (updated req now))
          (missing "Session not found" (update_session db id req now).0 e k)
  ]
    where
      some_fields :
          no_fields req ≡ false
          → update_session db id req now ≡ update_where db (has_id id) (updated req now)
      some_fields f = rw (update_session, f) refl

  delete-unchanged :
      (db : Db) (id : String) (e : ℕ × String)
      → IsLinked db
      → (serve db (delete_session_request id)).0 ≡ err e
      → (serve db (delete_session_request id)).1 ≡ db
  unfolding serve api_delete_session delete_session
  delete-unchanged db id e v k = elim (Bool-cases (any (has_id id) db.roast_sessions)) [
    | inl f ↦ ground arith
    | inr f ↦ rw (delete_rows-none (has_id id) db.roast_sessions f) (
        rw
          (delete_rows-none (event_of_session id) db.roast_events
            (orphans (λ (x : RoastEvent). x.session_id) db id db.roast_events f v.events))
          (rw
            (delete_rows-none (of_session id) db.session_telemetry (
              orphans (λ (x : SessionTelemetry). x.session_id) db id db.session_telemetry f
                v.telemetry))
            refl))
  ]

  -- A request that is answered with an error, a session that is missing or in another state and a
  -- failure of the database alike, leaves the tables as they were, in which each event and each
  -- telemetry point belongs to a session.
  pub serve-error_unchanged :
      (db : Db) (req : Request) (e : ℕ × String)
      → IsLinked db
      → (serve db req).0 ≡ err e
      → (serve db req).1 ≡ db
  unfolding serve api_create_session api_add_telemetry_point api_create_roast_event
      api_delete_roast_event create_session add_telemetry_point create_roast_event
      delete_roast_event
  serve-error_unchanged db (post_session req id now) e v k = ground arith
  serve-error_unchanged db (put_session id req now) e v k = put-unchanged db id req now e k
  serve-error_unchanged db (delete_session_request id) e v k = delete-unchanged db id e v k
  serve-error_unchanged db (post_start id now) e v k = start-unchanged db id now e k
  serve-error_unchanged db (post_pause id now) e v k = pause-unchanged db id now e k
  serve-error_unchanged db (post_resume id now) e v k = resume-unchanged db id now e k
  serve-error_unchanged db (post_complete id now) e v k = complete-unchanged db id now e k
  serve-error_unchanged db (post_telemetry point) e v k = ground arith
  serve-error_unchanged db (post_event session_id req event_id now) e v k = ground arith
  serve-error_unchanged db (put_event session_id event_id req) e v k =
      ap (λ r. r.1) (api_update_roast_event-fails db session_id event_id req)
  serve-error_unchanged db (delete_event session_id event_id) e v k = ground arith
