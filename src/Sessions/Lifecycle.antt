-- ===== src/Sessions/Lifecycle.antt =====
-- The life of a session: the calls of the service as a step relation on its status.
use rust_roast.Prelude.{
  ℕ, String, Bool, true, false, List, [], ◌∷◌, Option, none, some, ◌≡◌, ◌⊎◌, refl, sym, subst,
  arith, str_eq, eq_iff, Bool-cases, Option-cases, inl, inr, find, any,
}
use rust_roast.Host.{Host}
use rust_roast.Models.SessionStatus.{SessionStatus, planning, active, paused, completed, to_string}
use rust_roast.Models.SessionStatus.{SessionStatus-from_str_iff}
use rust_roast.Models.SessionRows.{
  RoastSession, CreateSessionRequest, UpdateSessionRequest, SessionTelemetry,
  CreateRoastEventRequest,
}
use rust_roast.Sessions.Summary.{option_map}
use rust_roast.Sessions.Rows.{find-update_rows, find-append, find-removed}
use rust_roast.Sessions.{
  Db, has_id, has_status, id_and_status, running, update_where, create_session, planned,
  get_session, update_session, updated, no_fields, refers, started, with_status, start_session,
  pause_session, resume_session, complete_session, completed_with, figures, delete_session,
  create_roast_event, delete_roast_event, add_telemetry_point,
}

-- The calls that may change the database, with the time and the new key of each.
pub data Action : Type 0 where
  creates : CreateSessionRequest → String → ℕ → Action
  updates : String → UpdateSessionRequest → ℕ → Action
  starts pauses resumes completes : String → ℕ → Action
  deletes : String → Action
  creates_event : String → CreateRoastEventRequest → String → ℕ → Action
  deletes_event : String → Action
  adds_telemetry : SessionTelemetry → Action

unfoldable pub act : Host → Db → Action → Db
act h db (creates req id now) = (create_session db req id now).1
act h db (updates id req now) = (update_session db id req now).1
act h db (starts id now) = (start_session db id now).1
act h db (pauses id now) = (pause_session db id now).1
act h db (resumes id now) = (resume_session db id now).1
act h db (completes id now) = (complete_session h db id now).1
act h db (deletes id) = (delete_session db id).1
act h db (creates_event session_id req id now) = (create_roast_event db session_id req id now).1
act h db (deletes_event id) = (delete_roast_event db id).1
act h db (adds_telemetry point) = (add_telemetry_point db point).1

-- The state after the calls, the newest call first.
unfoldable pub after : Host → Db → List Action → Db
unfolding act
after h db [] = db
after h db (a ∷ history) = act h (after h db history) a

-- The status of the session with the id, if there is one.
abbrev pub status_of : Db → String → Option SessionStatus
status_of db id = option_map (λ (s : RoastSession). s.status) (find (has_id id) db.roast_sessions)

-- A call that deletes the session.
abbrev pub removes : String → Action → Bool
removes id (deletes key) = str_eq id key
removes id _ = false

-- The steps of a session's status, in a call that deletes the session or in one that does not.
pub data Follows : Bool → Option SessionStatus → Option SessionStatus → Type 0 where
  stays : {b : Bool} {x : Option SessionStatus} → Follows b x x
  create : Follows false none (some planning)
  start : Follows false (some planning) (some active)
  pause : Follows false (some active) (some paused)
  resume : Follows false (some paused) (some active)
  complete_active : Follows false (some active) (some completed)
  complete_paused : Follows false (some paused) (some completed)
  delete : {x : SessionStatus} → Follows true (some x) none

-- An update that gives the rows it picks a status which may follow theirs.
update-Follows :
    (p : RoastSession → Bool) (f : RoastSession → RoastSession)
    → ((s : RoastSession) → (f s).id ≡ s.id)
    → ((s : RoastSession) → p s ≡ true → Follows false (some s.status) (some (f s).status))
    → (db : Db) (id : String)
    → Follows false (status_of db id) (status_of (update_where db p f).1 id)
update-Follows p f same_id step db id =
    rw (find-update_rows p f same_id id db.roast_sessions)
      (elim (Option-cases (find (has_id id) db.roast_sessions)) [
        | inl e ↦ rw e stays
        | inr (s, e) ↦
            rw e (elim (Bool-cases (p s)) [ inl k ↦ rw k (step s k) | inr k ↦ rw k stays ])
      ])

-- A status that has the text of another is that other.
status_text : (x y : SessionStatus) → str_eq (to_string x) (to_string y) ≡ true → x ≡ y
status_text x y e =
    let same : to_string x ≡ to_string y = (eq_iff (to_string x) (to_string y)).0 e in
    cc (
      (SessionStatus-from_str_iff (to_string x) x).1 refl,
      (SessionStatus-from_str_iff (to_string x) y).1 same,
    )

pub id_and_status-status :
    (id : String) (x : SessionStatus) (s : RoastSession)
    → id_and_status id x s ≡ true
    → s.status ≡ x
id_and_status-status id x s e = status_text s.status x (ground arith)

pub running-status :
    (id : String) (s : RoastSession)
    → running id s ≡ true
    → (s.status ≡ active) ⊎ (s.status ≡ paused)
running-status id s e = elim (Bool-cases (has_status active s)) [
  | inl k ↦ inl (status_text s.status active k)
  | inr k ↦ inr (status_text s.status paused (ground arith))
]

create-Follows :
    (db : Db) (req : CreateSessionRequest) (key : String) (now : ℕ) (id : String)
    → Follows false (status_of db id) (status_of (create_session db req key now).1 id)
unfolding create_session
create-Follows db req key now id = elim (Bool-cases (any (has_id key) db.roast_sessions)) [
  | inl e ↦ rw e stays
  | inr e ↦ elim (Bool-cases (refers req.profile_id db.profile_ids)) [
    | inr k ↦ rw (e, k) stays
    | inl k ↦
        rw (e, k, find-append (has_id id) db.roast_sessions (planned req key now))
          (elim (Option-cases (find (has_id id) db.roast_sessions)) [
            | inr (s, f) ↦ rw f stays
            | inl f ↦
                rw f
                  (elim (Bool-cases (str_eq key id)) [ inl i ↦ rw i create | inr i ↦ rw i stays ])
          ])
  ]
]

update_session-Follows :
    (db : Db) (key : String) (req : UpdateSessionRequest) (now : ℕ) (id : String)
    → Follows false (status_of db id) (status_of (update_session db key req now).1 id)
unfolding update_session
update_session-Follows db key req now id = elim (Bool-cases (no_fields req)) [
  | inl e ↦ rw e stays
  | inr e ↦ rw e (update-Follows (has_id key) (updated req now) (λ s. refl) (λ s k. stays) db id)
]

complete-Follows :
    (h : Host) (db : Db) (key : String) (now : ℕ) (id : String)
    → Follows false (status_of db id) (status_of (complete_session h db key now).1 id)
unfolding complete_session
complete-Follows h db key now id = elim (Option-cases (get_session db key)) [
  | inl e ↦ rw (complete_session, e) stays
  | inr (existing, e) ↦
      rw (complete_session, e)
        (update-Follows (running key) (completed_with h (figures h db existing key) now) (λ s. refl)
          (λ s k. elim (running-status key s k) [
            | inl a ↦ subst (λ x. Follows false (some x) (some completed)) (sym a) complete_active
            | inr a ↦ subst (λ x. Follows false (some x) (some completed)) (sym a) complete_paused
          ])
          db id)
]

delete-Follows :
    (db : Db) (key id : String)
    → Follows (str_eq id key) (status_of db id) (status_of (delete_session db key).1 id)
unfolding delete_session
delete-Follows db key id =
    rw (find-removed id key db.roast_sessions) (elim (Bool-cases (str_eq id key)) [
      | inr e ↦ rw e stays
      | inl e ↦ rw e (elim (Option-cases (find (has_id id) db.roast_sessions)) [
        | inl f ↦ rw f stays
        | inr (s, f) ↦ rw f delete
      ])
    ])

-- The tables of events and telemetry are kept apart from the sessions.
pub create_roast_event-sessions :
    (db : Db) (session_id : String) (req : CreateRoastEventRequest) (key : String) (now : ℕ)
    → (create_roast_event db session_id req key now).1.roast_sessions ≡ db.roast_sessions
unfolding create_roast_event
create_roast_event-sessions db session_id req key now = ground arith

pub delete_roast_event-sessions :
    (db : Db) (key : String) → (delete_roast_event db key).1.roast_sessions ≡ db.roast_sessions
unfolding delete_roast_event
delete_roast_event-sessions db key = ground arith

pub add_telemetry_point-sessions :
    (db : Db) (point : SessionTelemetry)
    → (add_telemetry_point db point).1.roast_sessions ≡ db.roast_sessions
unfolding add_telemetry_point
add_telemetry_point-sessions db point = ground arith

-- A transition from the one status to the other.
moves :
    (x y : SessionStatus) (f : RoastSession → RoastSession)
    → ((s : RoastSession) → (f s).id ≡ s.id)
    → ((s : RoastSession) → (f s).status ≡ y)
    → Follows false (some x) (some y)
    → (db : Db) (key id : String)
    → Follows false (status_of db id) (status_of (update_where db (id_and_status key x) f).1 id)
moves x y f same_id target allowed db key id =
    update-Follows (id_and_status key x) f same_id
      (λ s k. rw (target s, id_and_status-status key x s k) allowed) db id

-- Whatever call the service gets, the status of each session makes at most one step of its life:
-- it is created as planning, started from planning, paused from active, resumed from paused,
-- completed from active or paused, or deleted by a call that deletes it; in every other case it stays as it is.
pub act-Follows :
    (h : Host) (db : Db) (a : Action) (id : String)
    → Follows (removes id a) (status_of db id) (status_of (act h db a) id)
unfolding act
act-Follows h db (creates req key now) id = create-Follows db req key now id
act-Follows h db (updates key req now) id = update_session-Follows db key req now id
act-Follows h db (starts key now) id =
    unfold start_session in
    moves planning active (started now) (λ s. refl) (λ s. refl) start db key id
act-Follows h db (pauses key now) id =
    unfold pause_session in
    moves active paused (with_status paused now) (λ s. refl) (λ s. refl) pause db key id
act-Follows h db (resumes key now) id =
    unfold resume_session in
    moves paused active (with_status active now) (λ s. refl) (λ s. refl) resume db key id
act-Follows h db (completes key now) id = complete-Follows h db key now id
act-Follows h db (deletes key) id = delete-Follows db key id
act-Follows h db (creates_event session_id req key now) id =
    rw (create_roast_event-sessions db session_id req key now) stays
act-Follows h db (deletes_event key) id = rw (delete_roast_event-sessions db key) stays
act-Follows h db (adds_telemetry point) id = rw (add_telemetry_point-sessions db point) stays

-- What may follow a completed session, unless it is deleted.
completed-Follows :
    {b : Bool} {x y : Option SessionStatus}
    → Follows b x y
    → b ≡ false
    → x ≡ some completed
    → y ≡ some completed
completed-Follows stays k e = e
completed-Follows create k e = cc
completed-Follows start k e = cc
completed-Follows pause k e = cc
completed-Follows resume k e = cc
completed-Follows complete_active k e = refl
completed-Follows complete_paused k e = refl
completed-Follows delete k e = cc

-- A completed session stays completed over any history of calls that does not delete it.
pub completed_final :
    (h : Host) (db : Db) (history : List Action) (id : String)
    → any (removes id) history ≡ false
    → status_of db id ≡ some completed
    → status_of (after h db history) id ≡ some completed
unfolding after
completed_final h db [] id k e = e
completed_final h db (a ∷ history) id k e = elim (Bool-cases (removes id a)) [
  | inl r ↦ ground arith
  | inr r ↦
      completed-Follows (act-Follows h (after h db history) a id) r
        (completed_final h db history id (ground arith) e)
]
