-- ===== src/Sessions/Routes/Completion.antt =====
-- A session can be brought to its end.
use rust_roast.Prelude.{
  ℕ, String, Bool, true, false, List, [], ◌∷◌, ◌++◌, none, some, ok, ◌≡◌, refl, arith, str_eq_refl,
  find, any,
}
use rust_roast.Host.{Host}
use rust_roast.Models.SessionStatus.{planning, completed, to_string}
use rust_roast.Models.SessionRows.{RoastSession, CreateSessionRequest}
use rust_roast.Tables.{update_rows, find-append}
use rust_roast.Sessions.{
  Db, update_where, has_id, id_and_status, running, refers, planned, started, completed_with,
  figures, create_session, start_session, complete_session, get_session,
}
use rust_roast.Sessions.Routes.{api_create_session, api_start_session, api_complete_session}

-- A test of rows with an id that no row has.
no_row :
    (p : RoastSession → Bool) (id : String)
    → ((s : RoastSession) → has_id id s ≡ false → p s ≡ false)
    → (rows : List RoastSession) → any (has_id id) rows ≡ false
    → find p rows ≡ none
no_row p id narrow [] e = refl
no_row p id narrow (s ∷ rows) e = ground (arith, no_row p id narrow rows, narrow s)

update-append :
    (p : RoastSession → Bool) (f : RoastSession → RoastSession) (rows : List RoastSession)
    (s : RoastSession)
    → find p rows ≡ none
    → p s ≡ true
    → update_rows p f (rows ++ s ∷ []) ≡ rows ++ f s ∷ []
update-append p f [] s e k = rw k refl
update-append p f (r ∷ rows) s e k = ground (arith, update-append p f rows s, k)

module _ (db : Db) (req : CreateSessionRequest) (id : String) (t0 t1 t2 : ℕ)
    (new_id : any (has_id id) db.roast_sessions ≡ false) where
  -- The database with one more session.
  abbrev with_row : RoastSession → Db
  with_row s = record db { roast_sessions = db.roast_sessions ++ s ∷ [] }

  create-new :
      refers req.profile_id db.profile_ids ≡ true
      → create_session db req id t0 ≡ (ok (planned req id t0), with_row (planned req id t0))
  unfolding create_session
  create-new known = rw (new_id, known) refl

  -- An update of the new row alone.
  update-new :
      (p : RoastSession → Bool) (f : RoastSession → RoastSession) (s : RoastSession)
      → ((r : RoastSession) → has_id id r ≡ false → p r ≡ false)
      → p s ≡ true
      → update_where (with_row s) p f ≡ (some (f s), with_row (f s))
  update-new p f s narrow e =
      let none_found : find p db.roast_sessions ≡ none =
        no_row p id narrow db.roast_sessions new_id in
      rw
        (
          find-append p db.roast_sessions s none_found e,
          update-append p f db.roast_sessions s none_found e,
        )
        refl

  start-new :
      start_session (with_row (planned req id t0)) id t1
      ≡ (some (started t1 (planned req id t0)), with_row (started t1 (planned req id t0)))
  unfolding start_session to_string
  start-new =
      update-new (id_and_status id planning) (started t1) (planned req id t0) (λ r e. ground arith)
        (rw (str_eq_refl id) refl)

  module _ (h : Host) where
    abbrev finished : RoastSession
    finished =
        let s : RoastSession = started t1 (planned req id t0) in
        completed_with h (figures h (with_row s) s id) t2 s

    complete-new :
        complete_session h (with_row (started t1 (planned req id t0))) id t2
        ≡ (some finished, with_row finished)
    unfolding complete_session get_session to_string
    complete-new =
        let s : RoastSession = started t1 (planned req id t0) in
        rw
          (
            complete_session,
            get_session,
            find-append (has_id id) db.roast_sessions s
                (no_row (has_id id) id (λ r e. e) db.roast_sessions new_id) (str_eq_refl id),
          )
          (update-new (running id) (completed_with h (figures h (with_row s) s id) t2) s
            (λ r e. ground arith) (rw (str_eq_refl id) refl))

    -- A session that is created under a new id, with a profile that is there or none, can be started
    -- and then completed: each of the three requests is answered with success, and the session ends
    -- completed, with the times of the start and of the completion.
    pub roast-completes :
        refers req.profile_id db.profile_ids ≡ true
        → ((api_create_session db req id t0).0 ≡ ok (200, planned req id t0))
          × ((api_start_session (api_create_session db req id t0).1 id t1).0
              ≡ ok (200, started t1 (planned req id t0)))
          × ((s : RoastSession) × ((api_complete_session h
                  (api_start_session (api_create_session db req id t0).1 id t1).1
                  id
                  t2).0
                ≡ ok (200, s))
              × (s.status ≡ completed)
              × (s.start_time ≡ some t1)
              × (s.end_time ≡ some t2))
    unfolding api_create_session api_start_session api_complete_session
    roast-completes known =
        rw (create-new known, start-new, complete-new)
          (refl, refl, (finished, refl, refl, refl, refl))
