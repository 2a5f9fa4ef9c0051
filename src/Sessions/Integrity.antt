-- ===== src/Sessions/Integrity.antt =====
-- The foreign keys of the events and the telemetry of a session.
use rust_roast.Prelude.{
  ℕ, String, Bool, true, false, not, List, [], ◌∷◌, ◌++◌, ◌≡◌, refl, sym, subst, arith, ap, ◌∙◌,
  Bool-cases, Option-cases, inl, inr, All, All-append, All-impl, All-select, any, find, str_eq,
}
use rust_roast.Host.{Host}
use rust_roast.Models.SessionStatus.{planning, active, paused}
use rust_roast.Models.SessionRows.{
  RoastSession, CreateSessionRequest, UpdateSessionRequest, SessionTelemetry, RoastEvent,
  CreateRoastEventRequest,
}
use rust_roast.Tables.{is_none}
use rust_roast.Sessions.Rows.{find-update_rows, find-removed, any-find}
use rust_roast.Sessions.Lifecycle.{
  Action, act, after, creates, updates, starts, pauses, resumes, completes, deletes, creates_event,
  deletes_event, adds_telemetry,
}
use rust_roast.Sessions.{
  Db, has_id, id_and_status, running, update_where, create_session, planned, refers, get_session,
  update_session, updated, no_fields, started, with_status, start_session, pause_session,
  resume_session, complete_session, completed_with, figures, delete_session, of_session,
  event_of_session, create_roast_event, event_row, delete_roast_event, add_telemetry_point,
}

-- There is a session with the id.
abbrev pub Known : Db → String → Type 0
Known db id = any (has_id id) db.roast_sessions ≡ true

-- Each event and each telemetry point belongs to a session of the table.
pub record IsLinked (db : Db) : Type 0 where
  pub events : All (λ (e : RoastEvent). Known db e.session_id) db.roast_events
  pub telemetry : All (λ (t : SessionTelemetry). Known db t.session_id) db.session_telemetry

-- The tables of events and telemetry as they are, over sessions that all stay.
kept :
    (db db' : Db)
    → db'.roast_events ≡ db.roast_events
    → db'.session_telemetry ≡ db.session_telemetry
    → ((id : String) → Known db id → Known db' id)
    → IsLinked db
    → IsLinked db'
kept db db' e t stay v = record {
  events =
      subst (λ rows. All (λ (e : RoastEvent). Known db' e.session_id) rows) (sym e)
        (All-impl (λ (e : RoastEvent). Known db e.session_id)
          (λ (e : RoastEvent). Known db' e.session_id) (λ e k. stay e.session_id k) db.roast_events
          v.events);
  telemetry =
      subst (λ rows. All (λ (t : SessionTelemetry). Known db' t.session_id) rows) (sym t)
        (All-impl (λ (t : SessionTelemetry). Known db t.session_id)
          (λ (t : SessionTelemetry). Known db' t.session_id) (λ t k. stay t.session_id k)
          db.session_telemetry v.telemetry);
}

-- An update keeps every id.
updated-Known :
    (p : RoastSession → Bool) (f : RoastSession → RoastSession)
    → ((s : RoastSession) → (f s).id ≡ s.id)
    → (db : Db) (id : String) → Known db id
    → Known (update_where db p f).1 id
updated-Known p f same_id db id k = elim (Option-cases (find (has_id id) db.roast_sessions)) [
  | inl e ↦ ground (arith, any-find (has_id id) db.roast_sessions)
  | inr (s, e) ↦
      any-find (has_id id) (update_where db p f).1.roast_sessions
      ∙ ap (λ o. not (is_none o)) (find-update_rows p f same_id id db.roast_sessions)
      ∙ rw e refl
]

update-IsLinked :
    (p : RoastSession → Bool) (f : RoastSession → RoastSession)
    → ((s : RoastSession) → (f s).id ≡ s.id)
    → (db : Db) → IsLinked db
    → IsLinked (update_where db p f).1
update-IsLinked p f same_id db v =
    kept db (update_where db p f).1 refl refl (updated-Known p f same_id db) v

any-append :
    (q : RoastSession → Bool) (ss : List RoastSession) (s : RoastSession)
    → any q ss ≡ true
    → any q (ss ++ s ∷ []) ≡ true
any-append q [] s k = cc
any-append q (r ∷ ss) s k = elim (Bool-cases (q r)) [
  | inl e ↦ rw e refl
  | inr e ↦ rw e (any-append q ss s (ground arith))
]

create-IsLinked :
    (db : Db) (req : CreateSessionRequest) (key : String) (now : ℕ)
    → IsLinked db
    → IsLinked (create_session db req key now).1
unfolding create_session
create-IsLinked db req key now v = elim (Bool-cases (any (has_id key) db.roast_sessions)) [
  | inl e ↦ rw e v
  | inr e ↦ elim (Bool-cases (refers req.profile_id db.profile_ids)) [
    | inr k ↦ rw (e, k) v
    | inl k ↦
        rw (e, k)
          (kept db (record db { roast_sessions = db.roast_sessions ++ planned req key now ∷ [] })
            refl refl (λ id. any-append (has_id id) db.roast_sessions (planned req key now)) v)
  ]
]

-- A session other than the one deleted is still there.
remains :
    (db : Db) (key id : String)
    → str_eq id key ≡ false
    → Known db id
    → Known (delete_session db key).1 id
unfolding delete_session
remains db key id ne k =
    any-find (has_id id) (delete_session db key).1.roast_sessions
    ∙ ap (λ o. not (is_none o)) (find-removed id key db.roast_sessions ∙ rw ne refl)
    ∙ sym (any-find (has_id id) db.roast_sessions)
    ∙ k

delete-IsLinked : (db : Db) (key : String) → IsLinked db → IsLinked (delete_session db key).1
unfolding delete_session
delete-IsLinked db key v = record {
  events =
      All-select (λ (e : RoastEvent). Known db e.session_id)
        (λ (e : RoastEvent). Known (delete_session db key).1 e.session_id)
        (λ (e : RoastEvent). not (event_of_session key e))
        (λ e n k. remains db key e.session_id (ground arith) k) db.roast_events v.events;
  telemetry =
      All-select (λ (t : SessionTelemetry). Known db t.session_id)
        (λ (t : SessionTelemetry). Known (delete_session db key).1 t.session_id)
        (λ (t : SessionTelemetry). not (of_session key t))
        (λ t n k. remains db key t.session_id (ground arith) k) db.session_telemetry v.telemetry;
}

update_session-IsLinked :
    (db : Db) (key : String) (req : UpdateSessionRequest) (now : ℕ)
    → IsLinked db
    → IsLinked (update_session db key req now).1
unfolding update_session
update_session-IsLinked db key req now v = elim (Bool-cases (no_fields req)) [
  | inl e ↦ rw e v
  | inr e ↦ rw e (update-IsLinked (has_id key) (updated req now) (λ s. refl) db v)
]

complete-IsLinked :
    (h : Host) (db : Db) (key : String) (now : ℕ)
    → IsLinked db
    → IsLinked (complete_session h db key now).1
unfolding complete_session
complete-IsLinked h db key now v = elim (Option-cases (get_session db key)) [
  | inl e ↦ rw (complete_session, e) v
  | inr (existing, e) ↦
      rw (complete_session, e)
        (update-IsLinked (running key) (completed_with h (figures h db existing key) now)
          (λ s. refl) db v)
]

create_roast_event-IsLinked :
    (db : Db) (session_id : String) (req : CreateRoastEventRequest) (key : String) (now : ℕ)
    → IsLinked db
    → IsLinked (create_roast_event db session_id req key now).1
unfolding create_roast_event
create_roast_event-IsLinked db session_id req key now v =
    elim (Bool-cases (any (λ (e : RoastEvent). str_eq e.id key) db.roast_events)) [
      | inl e ↦ rw e v
      | inr e ↦ elim (Bool-cases (any (has_id session_id) db.roast_sessions)) [
        | inr k ↦ rw (e, k) v
        | inl k ↦
            rw (e, k)
              (record {
                events =
                    All-append (λ (r : RoastEvent). Known db r.session_id) db.roast_events
                      (event_row session_id req key now) v.events k;
                telemetry = v.telemetry;
              })
      ]
    ]

delete_roast_event-IsLinked :
    (db : Db) (key : String) → IsLinked db → IsLinked (delete_roast_event db key).1
unfolding delete_roast_event
delete_roast_event-IsLinked db key v =
    elim (Bool-cases (any (λ (e : RoastEvent). str_eq e.id key) db.roast_events)) [
      | inl e ↦ rw e (record {
        events =
            All-select (λ (r : RoastEvent). Known db r.session_id)
              (λ (r : RoastEvent). Known db r.session_id)
              (λ (r : RoastEvent). not (str_eq r.id key)) (λ r n k. k) db.roast_events v.events;
        telemetry = v.telemetry;
      })
      | inr e ↦ rw e v
    ]

add_telemetry_point-IsLinked :
    (db : Db) (point : SessionTelemetry) → IsLinked db → IsLinked (add_telemetry_point db point).1
unfolding add_telemetry_point
add_telemetry_point-IsLinked db point v =
    elim (Bool-cases (any (λ (t : SessionTelemetry). str_eq t.id point.id) db.session_telemetry)) [
      | inl e ↦ rw e v
      | inr e ↦ elim (Bool-cases (any (has_id point.session_id) db.roast_sessions)) [
        | inr k ↦ rw (e, k) v
        | inl k ↦
            rw (e, k)
              (record {
                events = v.events;
                telemetry =
                    All-append (λ (t : SessionTelemetry). Known db t.session_id)
                      db.session_telemetry point v.telemetry k;
              })
      ]
    ]

act-IsLinked : (h : Host) (db : Db) (a : Action) → IsLinked db → IsLinked (act h db a)
unfolding act start_session pause_session resume_session
act-IsLinked h db (creates req key now) v = create-IsLinked db req key now v
act-IsLinked h db (updates key req now) v = update_session-IsLinked db key req now v
act-IsLinked h db (starts key now) v =
    update-IsLinked (id_and_status key planning) (started now) (λ s. refl) db v
act-IsLinked h db (pauses key now) v =
    update-IsLinked (id_and_status key active) (with_status paused now) (λ s. refl) db v
act-IsLinked h db (resumes key now) v =
    update-IsLinked (id_and_status key paused) (with_status active now) (λ s. refl) db v
act-IsLinked h db (completes key now) v = complete-IsLinked h db key now v
act-IsLinked h db (deletes key) v = delete-IsLinked db key v
act-IsLinked h db (creates_event session_id req key now) v =
    create_roast_event-IsLinked db session_id req key now v
act-IsLinked h db (deletes_event key) v = delete_roast_event-IsLinked db key v
act-IsLinked h db (adds_telemetry point) v = add_telemetry_point-IsLinked db point v

-- From tables in which each event and each telemetry point belongs to a session, the empty ones
-- among them, every history of calls leads to such tables: what belongs to a session goes with it.
pub after-IsLinked :
    (h : Host) (db : Db) (history : List Action) → IsLinked db → IsLinked (after h db history)
unfolding after
after-IsLinked h db [] v = v
after-IsLinked h db (a ∷ history) v =
    act-IsLinked h (after h db history) a (after-IsLinked h db history v)
