-- ===== src/Models/SessionRows.antt =====
-- The session records of crates/server/src/models.rs. An `f32` is its bit pattern, a time is its
-- number of seconds.
use rust_roast.Prelude.{ℕ, ℤ, String, Option}
use rust_roast.Models.SessionStatus.{SessionStatus}
use rust_roast.Models.RoastEventType.{RoastEventType}

pub record RoastSession : Type 0 where
  pub id : String
  pub name : String
  pub device_id : String
  pub profile_id : Option String
  pub status : SessionStatus
  pub start_time : Option ℕ
  pub end_time : Option ℕ
  pub created_at : ℕ
  pub updated_at : ℕ
  pub bean_origin : Option String
  pub bean_variety : Option String
  pub green_weight : Option ℕ
  pub roasted_weight : Option ℕ
  pub target_roast_level : Option String
  pub notes : Option String
  pub ambient_temp : Option ℕ
  pub humidity : Option ℕ
  pub max_temp : Option ℕ
  pub total_time_seconds : Option ℤ
  pub first_crack_time : Option ℤ
  pub development_time_ratio : Option ℕ
  pub weight_loss_pct : Option ℕ
  pub max_ror : Option ℕ
  pub avg_ror_drying : Option ℕ
  pub avg_ror_maillard : Option ℕ
  pub avg_ror_development : Option ℕ
  pub drying_end_time : Option ℤ
  pub drying_end_temp : Option ℕ
  pub auc_value : Option ℕ

pub record SessionTelemetry : Type 0 where
  pub id : String
  pub session_id : String
  pub timestamp : ℕ
  pub elapsed_seconds : ℕ
  pub bean_temp : Option ℕ
  pub env_temp : Option ℕ
  pub rate_of_rise : Option ℕ
  pub heater_pwm : Option ℤ
  pub fan_pwm : Option ℤ
  pub setpoint : Option ℕ

pub record CreateSessionRequest : Type 0 where
  pub name : String
  pub device_id : String
  pub profile_id : Option String
  pub bean_origin : Option String
  pub bean_variety : Option String
  pub green_weight : Option ℕ
  pub target_roast_level : Option String
  pub notes : Option String
  pub ambient_temp : Option ℕ
  pub humidity : Option ℕ

pub record UpdateSessionRequest : Type 0 where
  pub name : Option String
  pub roasted_weight : Option ℕ
  pub notes : Option String
  pub first_crack_time : Option ℤ
  pub development_time_ratio : Option ℕ

pub record RoastEvent : Type 0 where
  pub id : String
  pub session_id : String
  pub event_type : RoastEventType
  pub elapsed_seconds : ℕ
  pub temperature : Option ℕ
  pub notes : Option String
  pub created_at : ℕ

pub record CreateRoastEventRequest : Type 0 where
  pub event_type : RoastEventType
  pub elapsed_seconds : ℕ
  pub temperature : Option ℕ
  pub notes : Option String

pub record UpdateRoastEventRequest : Type 0 where
  pub elapsed_seconds : Option ℕ
  pub temperature : Option ℕ
  pub notes : Option String
