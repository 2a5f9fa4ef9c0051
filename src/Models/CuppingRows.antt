-- ===== src/Models/CuppingRows.antt =====
-- The cupping records of crates/server/src/models.rs. An `f32` is its bit pattern, a time is its
-- number of seconds.
use rust_roast.Prelude.{ℕ, String, Option, List}

pub record CuppingScore : Type 0 where
  pub id : String
  pub session_id : String
  pub scoring_framework : String
  pub overall_score : Option ℕ
  pub notes : Option String
  pub created_at : ℕ
  pub updated_at : ℕ

pub record CuppingAttribute : Type 0 where
  pub id : String
  pub cupping_id : String
  pub attribute_name : String
  pub score : ℕ
  pub created_at : ℕ

pub record CuppingWithAttributes : Type 0 where
  pub cupping : CuppingScore
  pub attributes : List CuppingAttribute

pub record CreateCuppingAttributeRequest : Type 0 where
  pub name : String
  pub score : ℕ

pub record CreateCuppingRequest : Type 0 where
  pub scoring_framework : Option String
  pub notes : Option String
  pub attributes : List CreateCuppingAttributeRequest
