-- ===== src/Models/ProfileRows.antt =====
-- The profile records of crates/server/src/models.rs. An `f32` is its bit pattern, a time is its
-- number of seconds.
use rust_roast.Prelude.{ℕ, ℤ, String, Bool, Option, List}

pub record RoastProfile : Type 0 where
  pub id : String
  pub name : String
  pub description : Option String
  pub created_by : Option String
  pub created_at : ℕ
  pub updated_at : ℕ
  pub is_public : Bool
  pub target_total_time : Option ℤ
  pub target_first_crack : Option ℤ
  pub target_end_temp : Option ℕ
  pub preheat_temp : Option ℕ
  pub charge_temp : Option ℕ

pub record ProfilePoint : Type 0 where
  pub id : String
  pub profile_id : String
  pub time_seconds : ℤ
  pub target_temp : ℕ
  pub fan_speed : Option ℤ
  pub notes : Option String
  pub created_at : ℕ
  pub target_env_temp : Option ℕ

pub record CreateProfilePointRequest : Type 0 where
  pub time_seconds : ℤ
  pub target_temp : ℕ
  pub fan_speed : Option ℤ
  pub notes : Option String
  pub target_env_temp : Option ℕ

pub record CreateProfileRequest : Type 0 where
  pub name : String
  pub description : Option String
  pub target_total_time : Option ℤ
  pub target_first_crack : Option ℤ
  pub target_end_temp : Option ℕ
  pub preheat_temp : Option ℕ
  pub charge_temp : Option ℕ
  pub points : List CreateProfilePointRequest

pub record ProfileWithPoints : Type 0 where
  pub profile : RoastProfile
  pub points : List ProfilePoint
