-- ===== src/Profiles/Examples.antt =====
-- The update of a profile at a concrete request.
use rust_roast.Prelude.{ℤ, pos, String, List, [], ◌∷◌, none, some}
use rust_roast.Models.ProfileRows.{CreateProfilePointRequest, CreateProfileRequest}
use rust_roast.Profiles.{Db, new_profile, new_point}

abbrev request : CreateProfileRequest
request = record {
  name = "Light";
  description = none;
  target_total_time = some (pos 720);
  target_first_crack = none;
  target_end_temp = some 205;
  preheat_temp = none;
  charge_temp = some 95;
  points = [];
}

abbrev point : ℤ → CreateProfilePointRequest
point time = record {
  time_seconds = time;
  target_temp = 95;
  fan_speed = none;
  notes = none;
  target_env_temp = none;
}

abbrev tables : Db
tables = record {
  roast_profiles = new_profile request "p1" 10 ∷ [];
  profile_points = new_point "p1" 10 (point (pos 5), "a") ∷ [];
  roast_sessions = [];
}

abbrev points : List (CreateProfilePointRequest × String)
points = (point (pos 60), "b") ∷ (point (pos 0), "c") ∷ []
