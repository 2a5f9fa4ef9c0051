-- ===== src/Profiles/Replacement.antt =====
-- What an update of a profile leaves in the tables.
use rust_roast.Prelude.{ℕ, String, List, map, Option, none, some, Result, ok, err, ◌≡◌, ◌≢◌, select}
use rust_roast.Models.ProfileRows.{
  CreateProfilePointRequest, CreateProfileRequest, ProfileWithPoints,
}
use rust_roast.Tables.{update_rows, delete_rows, keyed, order_by}
use rust_roast.Tables.Sorted.{IsSorted}
use rust_roast.Profiles.{
  Db, profile_key, of_profile, new_point, insert_points, earlier, updated, get_profile_with_points,
}

-- The outcome of an update: an error and a missing profile leave the tables as they were; on
-- success the answer is what a later read of the profile gives, its points are those of the
-- request, in the order of their times, and the points of any other profile are the same.
pub record IsReplacement (db : Db) (id : String) (now : ℕ)
    (points : List (CreateProfilePointRequest × String))
    (r : Result String (Option ProfileWithPoints) × Db) : Type 0 where
  pub rolled_back : (e : String) → r.0 ≡ err e → r.1 ≡ db
  pub missing : r.0 ≡ ok none → r.1 ≡ db
  pub stored : (p : ProfileWithPoints) → r.0 ≡ ok (some p) → get_profile_with_points r.1 id ≡ some p
  pub answered :
      (p : ProfileWithPoints)
      → r.0 ≡ ok (some p)
      → p.points ≡ order_by earlier (map (new_point id now) points)
  pub sorted : (p : ProfileWithPoints) → r.0 ≡ ok (some p) → IsSorted earlier p.points
  pub others :
      (e : String)
      → e ≢ id
      → select (of_profile e) r.1.profile_points ≡ select (of_profile e) db.profile_points

module _ (db : Db) (id : String) (req : CreateProfileRequest)
    (points : List (CreateProfilePointRequest × String)) (now : ℕ) where
  -- The tables after a success.
  committed : Db
  committed = record db {
    roast_profiles = update_rows (keyed profile_key id) (updated req now) db.roast_profiles;
    profile_points =
        (insert_points id now points (delete_rows (of_profile id) db.profile_points)).1;
  }
