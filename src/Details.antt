-- ===== src/Details.antt =====
-- A session with all that belongs to it: `get_session_with_telemetry` of
-- crates/server/src/services.rs and the two handlers over it in crates/server/src/main.rs.
pub mod Agreement
use rust_roast.Prelude.{String, List, Option, none, some}
use rust_roast.Host.{Host}
use rust_roast.Sessions.Summary.{option_map}
use rust_roast.Models.SessionRows.{RoastSession, SessionTelemetry}
use rust_roast.Models.ProfileRows.{ProfileWithPoints}
use rust_roast.Models.CuppingRows.{CuppingWithAttributes}
use rust_roast.Sessions.{get_session, get_session_telemetry}
use rust_roast.Sessions.Routes.{Reply, found}
use rust_roast.Profiles as Profiles
use rust_roast.Profiles.{get_profile_with_points}
use rust_roast.Cupping as Cupping
use rust_roast.Cupping.{get_cupping}

pub record SessionWithTelemetry : Type 0 where
  pub session : RoastSession
  pub telemetry : List SessionTelemetry
  pub profile : Option ProfileWithPoints
  pub cupping : Option CuppingWithAttributes

module _ (h : Host) where
  unfoldable pub get_session_with_telemetry :
      Cupping.Db → Profiles.Db → String → Option SessionWithTelemetry
  unfolding get_session
  get_session_with_telemetry db profiles id =
      option_map
        (λ (session : RoastSession). record {
          session = session;
          telemetry = get_session_telemetry h db.sessions id;
          profile = elim session.profile_id [
            | none ↦ none
            | some profile_id ↦ get_profile_with_points profiles profile_id
          ];
          cupping = get_cupping db id;
        })
        (get_session db.sessions id)

  unfoldable pub api_get_session : Cupping.Db → Profiles.Db → String → Reply SessionWithTelemetry
  api_get_session db profiles id =
      found "Session not found" (get_session_with_telemetry db profiles id)

  unfoldable pub api_get_session_telemetry :
      Cupping.Db → Profiles.Db → String → Reply SessionWithTelemetry
  api_get_session_telemetry db profiles id =
      found "Session not found" (get_session_with_telemetry db profiles id)
