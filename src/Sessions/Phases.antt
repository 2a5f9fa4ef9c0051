-- ===== src/Sessions/Phases.antt =====
-- The times of a session against its status.
use rust_roast.Prelude.{
  ℕ, String, List, [], ◌∷◌, Option, none, some, ◌≡◌, refl, subst, Bool-cases, Option-cases, inl,
  inr, All, All-append, All-select, any, not,
}
use rust_roast.Host.{Host}
use rust_roast.Models.SessionStatus.{
  SessionStatus, planning, active, paused, completed, failed, cancelled,
}
use rust_roast.Models.SessionRows.{RoastSession, CreateSessionRequest, UpdateSessionRequest}
use rust_roast.Tables.{All-update_rows}
use rust_roast.Sessions.Lifecycle.{
  Action, act, after, id_and_status-status, running-status, create_roast_event-sessions,
  delete_roast_event-sessions, add_telemetry_point-sessions, creates, updates, starts, pauses,
  resumes, completes, deletes, creates_event, deletes_event, adds_telemetry,
}
use rust_roast.Sessions.{
  Db, has_id, id_and_status, running, create_session, planned, refers, get_session, update_session,
  updated, no_fields, started, with_status, start_session, pause_session, resume_session,
  complete_session, completed_with, figures, delete_session,
}

abbrev pub Set : Option ℕ → Type 0
Set time = (t : ℕ) × (time ≡ some t)

-- The start and the end that a session of the status has.
abbrev pub Phase : SessionStatus → Option ℕ → Option ℕ → Type 0
Phase planning start end = (start ≡ none) × (end ≡ none)
Phase active start end = Set start × (end ≡ none)
Phase paused start end = Set start × (end ≡ none)
Phase completed start end = Set start × Set end
Phase failed start end = ⊥
Phase cancelled start end = ⊥

abbrev pub InPhase : RoastSession → Type 0
InPhase s = Phase s.status s.start_time s.end_time

-- Every session of the table is in its phase.
abbrev pub IsConsistent : Db → Type 0
IsConsistent db = All InPhase db.roast_sessions

was :
    (s : RoastSession) {x : SessionStatus}
    → s.status ≡ x
    → InPhase s
    → Phase x s.start_time s.end_time
was s e v = subst (λ x. Phase x s.start_time s.end_time) e v

create-IsConsistent :
    (db : Db) (req : CreateSessionRequest) (key : String) (now : ℕ)
    → IsConsistent db
    → IsConsistent (create_session db req key now).1
unfolding create_session
create-IsConsistent db req key now v = elim (Bool-cases (any (has_id key) db.roast_sessions)) [
  | inl e ↦ rw e v
  | inr e ↦ elim (Bool-cases (refers req.profile_id db.profile_ids)) [
    | inr k ↦ rw (e, k) v
    | inl k ↦ rw (e, k) (All-append InPhase db.roast_sessions (planned req key now) v (refl, refl))
  ]
]

update-IsConsistent :
    (db : Db) (key : String) (req : UpdateSessionRequest) (now : ℕ)
    → IsConsistent db
    → IsConsistent (update_session db key req now).1
unfolding update_session
update-IsConsistent db key req now v = elim (Bool-cases (no_fields req)) [
  | inl e ↦ rw e v
  | inr e ↦
      rw e (All-update_rows InPhase (has_id key) (updated req now) (λ s k p. p) db.roast_sessions v)
]

complete-IsConsistent :
    (h : Host) (db : Db) (key : String) (now : ℕ)
    → IsConsistent db
    → IsConsistent (complete_session h db key now).1
unfolding complete_session
complete-IsConsistent h db key now v = elim (Option-cases (get_session db key)) [
  | inl e ↦ rw (complete_session, e) v
  | inr (existing, e) ↦
      rw (complete_session, e)
        (All-update_rows InPhase (running key) (completed_with h (figures h db existing key) now)
          (λ s k p. elim (running-status key s k) [
            | inl a ↦ ((was s a p).0, (now, refl))
            | inr a ↦ ((was s a p).0, (now, refl))
          ])
          db.roast_sessions v)
]

act-IsConsistent : (h : Host) (db : Db) (a : Action) → IsConsistent db → IsConsistent (act h db a)
unfolding act start_session pause_session resume_session delete_session
act-IsConsistent h db (creates req key now) v = create-IsConsistent db req key now v
act-IsConsistent h db (updates key req now) v = update-IsConsistent db key req now v
act-IsConsistent h db (starts key now) v =
    All-update_rows InPhase (id_and_status key planning) (started now)
      (λ s k p. ((now, refl), (was s (id_and_status-status key planning s k) p).1))
      db.roast_sessions v
act-IsConsistent h db (pauses key now) v =
    All-update_rows InPhase (id_and_status key active) (with_status paused now)
      (λ s k p. was s (id_and_status-status key active s k) p) db.roast_sessions v
act-IsConsistent h db (resumes key now) v =
    All-update_rows InPhase (id_and_status key paused) (with_status active now)
      (λ s k p. was s (id_and_status-status key paused s k) p) db.roast_sessions v
act-IsConsistent h db (completes key now) v = complete-IsConsistent h db key now v
act-IsConsistent h db (deletes key) v =
    All-select InPhase InPhase (λ s. not (has_id key s)) (λ s k p. p) db.roast_sessions v
act-IsConsistent h db (creates_event session_id req key now) v =
    rw (create_roast_event-sessions db session_id req key now) v
act-IsConsistent h db (deletes_event key) v = rw (delete_roast_event-sessions db key) v
act-IsConsistent h db (adds_telemetry point) v = rw (add_telemetry_point-sessions db point) v

-- From tables whose sessions are consistent, the empty ones among them, every history of calls
-- leads to tables in which each session that is planning has neither a start nor an end, each that
-- is active or paused has a start and no end, each that is completed has both, and none is failed
-- or cancelled.
pub after-IsConsistent :
    (h : Host) (db : Db) (history : List Action)
    → IsConsistent db
    → IsConsistent (after h db history)
unfolding after
after-IsConsistent h db [] v = v
after-IsConsistent h db (a ∷ history) v =
    act-IsConsistent h (after h db history) a (after-IsConsistent h db history v)
