-- ===== src/Profiles.antt =====
-- The profiles of `RoastSessionService` in crates/server/src/services.rs. A new UUID comes with each
-- row, an error of the database is the text of its kind, and a text key is tested by the statements.
pub mod Replacement
pub mod Routes
mod Examples
use rust_roast.Prelude.{
  ℕ, ℤ, String, Bool, true, false, not, List, [], ◌∷◌, ◌++◌, map, Option, none, some, Result, ok,
  err, str_eq, if◌then◌else◌, select, find, any, leb, leb_ℤ,
}
use rust_roast.Models.SessionRows.{RoastSession}
use rust_roast.Models.ProfileRows.{
  RoastProfile, ProfilePoint, CreateProfilePointRequest, CreateProfileRequest, ProfileWithPoints,
}
use rust_roast.Tables.{update_rows, delete_rows, order_by, keyed}

pub record Db : Type 0 where
  pub roast_profiles : List RoastProfile
  pub profile_points : List ProfilePoint
  pub roast_sessions : List RoastSession

abbrev pub profile_key : RoastProfile → String
profile_key p = p.id

abbrev pub point_key : ProfilePoint → String
point_key p = p.id

abbrev pub of_profile : String → ProfilePoint → Bool
of_profile id p = str_eq p.profile_id id

abbrev pub new_profile : CreateProfileRequest → String → ℕ → RoastProfile
new_profile req id now = record {
  id = id;
  name = req.name;
  description = req.description;
  created_by = none;
  created_at = now;
  updated_at = now;
  is_public = false;
  target_total_time = req.target_total_time;
  target_first_crack = req.target_first_crack;
  target_end_temp = req.target_end_temp;
  preheat_temp = req.preheat_temp;
  charge_temp = req.charge_temp;
}

abbrev pub new_point : String → ℕ → CreateProfilePointRequest × String → ProfilePoint
new_point id now (req, point_id) = record {
  id = point_id;
  profile_id = id;
  time_seconds = req.time_seconds;
  target_temp = req.target_temp;
  fan_speed = req.fan_speed;
  notes = req.notes;
  created_at = now;
  target_env_temp = req.target_env_temp;
}

-- The loop of inserts: the table after it, and the first error. The profile is there.
unfoldable pub insert_points :
    String
    → ℕ
    → List (CreateProfilePointRequest × String)
    → List ProfilePoint
    → Option String × List ProfilePoint
insert_points id now [] table = (none, table)
insert_points id now ((req, point_id) ∷ reqs) table =
    let rest = insert_points id now reqs (table ++ new_point id now (req, point_id) ∷ []) in
    if any (keyed point_key point_id) table then (some "UNIQUE constraint failed", table) else rest

-- No transaction: what was inserted before an error stays. The points of the request come with
-- their UUIDs.
unfoldable pub create_profile :
    Db
    → CreateProfileRequest
    → List (CreateProfilePointRequest × String)
    → String
    → ℕ
    → Result String ProfileWithPoints × Db
unfolding insert_points
create_profile db req points id now =
    if any (keyed profile_key id) db.roast_profiles
    then (err "UNIQUE constraint failed", db)
    else let (failure, table) = insert_points id now points db.profile_points in
      let db' = record db {
        roast_profiles = db.roast_profiles ++ new_profile req id now ∷ [];
        profile_points = table;
      } in
      elim failure [
        | some e ↦ (err e, db')
        | none ↦ (
          ok (record { profile = new_profile req id now; points = map (new_point id now) points }),
          db',
        )
      ]

abbrev pub newer : RoastProfile → RoastProfile → Bool
newer a b = leb b.created_at a.created_at

unfoldable pub list_profiles : Db → Bool → List RoastProfile
list_profiles db include_private =
    if include_private
    then order_by newer db.roast_profiles
    else order_by newer (select (λ (p : RoastProfile). p.is_public) db.roast_profiles)

-- `ORDER BY time_seconds`
abbrev pub earlier : ProfilePoint → ProfilePoint → Bool
earlier a b = leb_ℤ a.time_seconds b.time_seconds

unfoldable pub get_profile_with_points : Db → String → Option ProfileWithPoints
get_profile_with_points db id = elim (find (keyed profile_key id) db.roast_profiles) [
  | none ↦ none
  | some profile ↦ some (record {
    profile = profile;
    points = order_by earlier (select (of_profile id) db.profile_points);
  })
]

-- `ON DELETE CASCADE` of the points, `ON DELETE SET NULL` of the sessions.
abbrev pub has_profile : String → RoastSession → Bool
has_profile id s = elim s.profile_id [ none ↦ false | some p ↦ str_eq p id ]

abbrev pub without_profile : RoastSession → RoastSession
without_profile s = record s { profile_id = none }

unfoldable pub delete_profile : Db → String → Bool × Db
delete_profile db id = (
  any (keyed profile_key id) db.roast_profiles,
  record db {
    roast_profiles = delete_rows (keyed profile_key id) db.roast_profiles;
    profile_points = delete_rows (of_profile id) db.profile_points;
    roast_sessions = update_rows (has_profile id) without_profile db.roast_sessions;
  },
)

abbrev pub updated : CreateProfileRequest → ℕ → RoastProfile → RoastProfile
updated req now p = record p {
  name = req.name;
  description = req.description;
  updated_at = now;
  target_total_time = req.target_total_time;
  target_first_crack = req.target_first_crack;
  target_end_temp = req.target_end_temp;
  preheat_temp = req.preheat_temp;
  charge_temp = req.charge_temp;
}

-- A transaction, which a missing profile and an error leave without a commit.
unfoldable pub update_profile :
    Db
    → String
    → CreateProfileRequest
    → List (CreateProfilePointRequest × String)
    → ℕ
    → Result String (Option ProfileWithPoints) × Db
unfolding insert_points get_profile_with_points
update_profile db id req points now =
    if not (any (keyed profile_key id) db.roast_profiles)
    then (ok none, db)
    else let (failure, table) =
        insert_points id now points (delete_rows (of_profile id) db.profile_points) in
      let db' = record db {
        roast_profiles = update_rows (keyed profile_key id) (updated req now) db.roast_profiles;
        profile_points = table;
      } in
      elim failure [ some e ↦ (err e, db) | none ↦ (ok (get_profile_with_points db' id), db') ]
