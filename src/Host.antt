-- ===== src/Host.antt =====
-- What the program takes from code that is not in the repository: floating-point arithmetic, and
-- the JSON values of the crate `serde_json`. An `f32` is its bit pattern, which `to_bits` and
-- `from_bits` of the standard library hand over unchanged; an `f64` is abstract.
use rust_roast.Prelude.{ℕ, ◌^◌, ◌<◌, String, Bool, Option, List, ℤ}

pub record Host : Type 1 where
  pub F64 : Type 0
  -- `as f64` of an integer and of an f32, `as f32`, `as i64` and `as i32` of an f64
  pub of_int : ℤ → F64
  pub of_f32 : ℕ → F64
  pub to_f32 : F64 → ℕ
  pub to_i64 : F64 → ℤ
  pub mul : F64 → F64 → F64
  pub to_i32 : F64 → ℤ
  pub sub : F64 → F64 → F64
  pub abs : F64 → F64
  pub add : F64 → F64 → F64
  pub div : F64 → F64 → F64
  pub round : F64 → F64
  pub le : F64 → F64 → Bool
  -- arithmetic, sums and comparison of f32, `as f32` and `as i32` of it, and `parse` to it
  pub f32_of_int : ℤ → ℕ
  pub f32_to_i32 : ℕ → ℤ
  pub f32_sub : ℕ → ℕ → ℕ
  pub f32_mul : ℕ → ℕ → ℕ
  pub f32_div : ℕ → ℕ → ℕ
  pub f32_max : ℕ → ℕ → ℕ
  pub f32_sum : List ℕ → ℕ
  pub f32_lt : ℕ → ℕ → Bool
  pub f32_le : ℕ → ℕ → Bool
  pub parse_f32 : String → Option ℕ
  -- `AVG` of a column of SQLite, read as an f32
  pub avg : List ℕ → ℕ
  -- `Display` of the two float types
  pub show_f64 : F64 → String
  pub show_f32 : ℕ → String
  -- `serde_json::Value`, its accessors, and `json!` of a number, a text, an array and
  -- an object
  pub Value : Type 0
  pub get : Value → String → Option Value
  pub as_f64 : Value → Option F64
  pub as_u64 : Value → Option ℕ
  pub as_i64 : Value → Option ℤ
  pub as_str : Value → Option String
  pub as_array : Value → Option (List Value)
  pub null : Value
  pub of_array : List Value → Value
  pub of_i64 : ℤ → Value
  pub of_f64 : F64 → Value
  pub of_str : String → Value
  pub of_object : List (String × Value) → Value
  -- `serde_json::to_string` and `serde_json::from_str` of a value
  pub to_json : Value → String
  pub from_json : String → Option Value
  -- `serde_json::from_slice` of the bytes of a value, and `String::from_utf8_lossy`
  pub from_slice : List ℕ → Option Value
  pub from_utf8_lossy : List ℕ → String
  -- `str::to_lowercase`, over all of Unicode
  pub to_lowercase : String → String
  -- a cast to f32 is an f32
  pub to_f32_lt : (x : F64) → to_f32 x < 2 ^ 32
