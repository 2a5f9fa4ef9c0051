-- ===== src/Telemetry/Recording.antt =====
-- What a telemetry message leaves in the sessions that are active.
use rust_roast.Prelude.{
  ℕ, String, false, List, [], ◌∷◌, ◌++◌, Option, ◌≡◌, refl, any, select, Bool-cases, inl, inr,
}
use rust_roast.Host.{Host}
use rust_roast.Models.DeviceStatus.{DeviceStatus}
use rust_roast.Models.SessionRows.{RoastSession}
use rust_roast.Telemetry.{
  TelemetryService, process_telemetry, record_points, point_of, has_point, is_recording,
  is_disabled,
}

module _ (h : Host) where
  open h use {Value}

  -- A message of a device that is not disabled, under a new key, while exactly one session of the
  -- device is active: one point is added, of that session and with the values of the payload.
  pub one_active-recorded :
      (s : TelemetryService h) (d : String) (payload : Value) (status : Option DeviceStatus)
      (point_id : String) (now instant : ℕ) (session : RoastSession)
      → is_disabled status ≡ false
      → any (has_point h point_id) s.session_telemetry ≡ false
      → select (is_recording d) s.roast_sessions ≡ session ∷ []
      → (process_telemetry h s d payload status point_id now instant).session_telemetry
        ≡ s.session_telemetry ++ point_of h payload point_id now session ∷ []
  unfolding process_telemetry record_points
  one_active-recorded s d payload status point_id now instant session enabled fresh active =
      rw (enabled, active, fresh) refl

  -- A message of a device while two of its sessions or more are active adds no point at all: the
  -- rows of one statement share one key, so that the statement fails.
  pub two_active-lost :
      (s : TelemetryService h) (d : String) (payload : Value) (status : Option DeviceStatus)
      (point_id : String) (now instant : ℕ) (a b : RoastSession) (more : List RoastSession)
      → select (is_recording d) s.roast_sessions ≡ a ∷ b ∷ more
      → (process_telemetry h s d payload status point_id now instant).session_telemetry
        ≡ s.session_telemetry
  unfolding process_telemetry record_points
  two_active-lost s d payload status point_id now instant a b more active =
      elim (Bool-cases (is_disabled status)) [ inl e ↦ rw e refl | inr e ↦ rw (e, active) refl ]
