-- ===== src/Profiles/Routes.antt =====
-- The handlers of crates/server/src/main.rs over the profiles.
use rust_roast.Prelude.{ℕ, String, Bool, false, List, Option, Result, ok, err}
use rust_roast.Host.{Host}
use rust_roast.Topics as Topics
use rust_roast.Tables.{keep_or}
use rust_roast.Models.ProfileRows.{
  RoastProfile, CreateProfilePointRequest, CreateProfileRequest, ProfileWithPoints,
}
use rust_roast.Sessions.Routes.{Reply, found, stored, deleted}
use rust_roast.Profiles as Service
use rust_roast.Profiles.{Db}
use rust_roast.Artisan.Import.{import_artisan_profile}

-- An answer of a service that gives an optional row.
abbrev pub optional {ℓ} : {A : Type ℓ} → String → String → Result String (Option A) → Reply A
optional failed missing (err e) = err (500, failed)
optional failed missing (ok a) = found missing a

-- The points of a request come with their UUIDs.
unfoldable pub api_create_profile :
    Db
    → CreateProfileRequest
    → List (CreateProfilePointRequest × String)
    → String
    → ℕ
    → Reply ProfileWithPoints × Db
api_create_profile db req points id now =
    let (answer, db') = Service.create_profile db req points id now in
    (stored 200 "Failed to create profile" answer, db')

unfoldable pub api_list_profiles : Db → Option Bool → Reply (List RoastProfile)
api_list_profiles db include_private =
    ok (200, Service.list_profiles db (keep_or include_private false))

unfoldable pub api_get_profile : Db → String → Reply ProfileWithPoints
api_get_profile db id = found "Profile not found" (Service.get_profile_with_points db id)

unfoldable pub api_update_profile :
    Db
    → String
    → CreateProfileRequest
    → List (CreateProfilePointRequest × String)
    → ℕ
    → Reply ProfileWithPoints × Db
api_update_profile db id req points now =
    let (answer, db') = Service.update_profile db id req points now in
    (optional "Failed to update profile" "Profile not found" answer, db')

unfoldable pub api_delete_profile : Db → String → Reply (Unit {0}) × Db
api_delete_profile db id =
    let (answer, db') = Service.delete_profile db id in (deleted "Profile not found" answer, db')

module _ (h : Host) where
  abbrev pub imported : Result String ProfileWithPoints → Reply ProfileWithPoints
  imported (err e) = err (400, Topics.◌++◌ "Failed to import Artisan profile: " e)
  imported (ok profile) = ok (200, profile)

  unfoldable pub api_import_artisan_profile :
      Db → String → Option String → (ℕ → String) → String → ℕ → Reply ProfileWithPoints × Db
  api_import_artisan_profile db alog_content name ids id now =
      let (answer, db') = import_artisan_profile h db alog_content name ids id now in
      (imported answer, db')
