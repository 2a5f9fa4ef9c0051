-- ===== src/Sessions/Examples.antt =====
-- The theorems of the session service at a concrete history, with the sample host.
use rust_roast.Prelude.{ok, err, List, [], ◌∷◌, none, some, ◌≡◌, refl}
use rust_roast.Sample.{sample}
use rust_roast.Models.SessionStatus.{completed, to_string}
use rust_roast.Models.RoastEventType.{first_crack_start}
use rust_roast.Models.RoastEventType
use rust_roast.Models.SessionRows.{
  RoastSession, CreateSessionRequest, CreateRoastEventRequest, UpdateRoastEventRequest,
}
use rust_roast.Sessions.Lifecycle.{
  Action, creates, starts, completes, creates_event, act, after, status_of, removes, Follows,
  act-Follows,
}
use rust_roast.Sessions.Phases.{IsConsistent, after-IsConsistent}
use rust_roast.Sessions.Integrity.{IsLinked, after-IsLinked}
use rust_roast.Sessions.Summary.{summary, compute_auc, avg_ror_in_range}
use rust_roast.Sessions.Routes.{api_create_session, api_start_session, api_complete_session}
use rust_roast.Sessions.Routes.Errors.{serve, post_start, serve-error_unchanged}
use rust_roast.Sessions.Routes.Completion.{roast-completes}
use rust_roast.Sessions.Queries.{get_active_session}
use rust_roast.Sessions.EventUpdate.{api_update_roast_event, api_update_roast_event-fails}
use rust_roast.Sessions.{
  planned, started, Db, create_session, start_session, complete_session, get_session,
  get_roast_events, create_roast_event,
}

abbrev empty : Db
empty = record {
  roast_sessions = [];
  session_telemetry = [];
  roast_events = [];
  profile_ids = [];
  settings = [];
}

abbrev request : CreateSessionRequest
request = record {
  name = "Guji";
  device_id = "esp32-001";
  profile_id = none;
  bean_origin = some "Ethiopia";
  bean_variety = none;
  green_weight = some 500;
  target_roast_level = none;
  notes = none;
  ambient_temp = none;
  humidity = none;
}

abbrev first_crack : CreateRoastEventRequest
first_crack = record {
  event_type = first_crack_start;
  elapsed_seconds = 480;
  temperature = some 196;
  notes = none;
}

-- Newest first.
abbrev roast : List Action
roast =
    completes "s1" 1700
    ∷ creates_event "s1" first_crack "e1" 1580
    ∷ starts "s1" 1100
    ∷ creates request "s1" 1000
    ∷ []

roasted : status_of (after sample empty roast) "s1" ≡ some completed
unfolding after create_session start_session complete_session get_session get_roast_events
    create_roast_event to_string RoastEventType.to_string summary compute_auc avg_ror_in_range
roasted = refl

act-Follows_example :
    Follows
      (removes "s1" (starts "s1" 1100))
      (status_of empty "s1")
      (status_of (act sample empty (starts "s1" 1100)) "s1")
act-Follows_example = act-Follows sample empty (starts "s1" 1100) "s1"

after-IsConsistent_example : IsConsistent (after sample empty roast)
after-IsConsistent_example = after-IsConsistent sample empty roast tt

after-IsLinked_example : IsLinked (after sample empty roast)
after-IsLinked_example = after-IsLinked sample empty roast (record { events = tt; telemetry = tt })

serve-error_unchanged_example :
    (serve sample (after sample empty roast) (post_start "s2" 1800)).1 ≡ after sample empty roast
unfolding serve api_start_session start_session after create_session complete_session get_session
    get_roast_events create_roast_event to_string RoastEventType.to_string summary compute_auc
    avg_ror_in_range
serve-error_unchanged_example =
    serve-error_unchanged sample (after sample empty roast) (post_start "s2" 1800)
      (404, "Session not found or not in planning state") after-IsLinked_example refl

roast-completes_example :
    ((api_create_session empty request "s1" 1000).0 ≡ ok (200, planned request "s1" 1000))
    × ((api_start_session (api_create_session empty request "s1" 1000).1 "s1" 1100).0
        ≡ ok (200, started 1100 (planned request "s1" 1000)))
    × ((s : RoastSession) × ((api_complete_session sample
            (api_start_session (api_create_session empty request "s1" 1000).1 "s1" 1100).1
            "s1"
            1700).0
          ≡ ok (200, s))
        × (s.status ≡ completed)
        × (s.start_time ≡ some 1100)
        × (s.end_time ≡ some 1700))
roast-completes_example = roast-completes empty request "s1" 1000 1100 1700 refl sample refl

abbrev listed : Db
listed = record empty {
  roast_sessions =
      planned request "s1" 1000
      ∷ started 1700 (planned request "s2" 1500)
      ∷ started 1900 (planned request "s3" 1200)
      ∷ [];
}

the_running_one :
    get_active_session listed "esp32-001" ≡ some (started 1900 (planned request "s3" 1200))
unfolding get_active_session to_string
the_running_one = refl

abbrev late_crack : UpdateRoastEventRequest
late_crack = record { elapsed_seconds = some 490; temperature = none; notes = none }

api_update_roast_event-fails_example :
    api_update_roast_event listed "s2" "e1" late_crack
    ≡ (err (500, "Failed to update roast event"), listed)
api_update_roast_event-fails_example = api_update_roast_event-fails listed "s2" "e1" late_crack
