-- ===== src/Start.antt =====
-- What `init_db` of crates/server/src/main.rs puts into a database when the server starts: the
-- settings that are not there, and the statements of the migrations.
pub mod Defaults
pub mod Triggers
mod Examples
use Prim.Native.Char.{code}
use Prim.Native.String.{[], ◌∷◌}
use rust_roast.Prelude.{
  String, Bool, true, false, ◌&&◌, not, List, [], ◌∷◌, ◌++◌, map, Option, none, some, Dict, lookup,
  if◌then◌else◌, select,
}
use rust_roast.Prelude.Pieces.{split_on}
use rust_roast.Artisan.Text.{is_whitespace}

abbrev pub default_settings : Dict String
default_settings =
    ("profile_lookahead_seconds", "20")
    ∷ ("auc_base_temp", "0")
    ∷ ("auc_start_event", "charge")
    ∷ ("ror_window_seconds", "30")
    ∷ ("ror_smoothing_algorithm", "moving_average")
    ∷ ("auto_dry_temp", "150")
    ∷ ("auto_event_detection", "true")
    ∷ ("alarm_sound_enabled", "true")
    ∷ (
      "roast_alarms",
      "[{\"name\":\"High Temp Warning\",\"condition_type\":\"temp_above\",\"threshold\":230,\"enabled\":true},{\"name\":\"FC Approaching\",\"condition_type\":\"temp_above\",\"threshold\":195,\"enabled\":true},{\"name\":\"Low RoR Warning\",\"condition_type\":\"ror_below\",\"threshold\":5.0,\"reference_event\":\"first_crack_start\",\"enabled\":true}]",
    )
    ∷ []

-- `INSERT OR IGNORE`
unfoldable pub insert_or_ignore : String × String → Dict String → Dict String
unfolding lookup
insert_or_ignore (key, value) settings = elim (lookup key settings) [
  | some old ↦ settings
  | none ↦ settings ++ (key, value) ∷ []
]

unfoldable pub insert_settings : Dict String → Dict String → Dict String
unfolding insert_or_ignore
insert_settings [] settings = settings
insert_settings (entry ∷ entries) settings =
    insert_settings entries (insert_or_ignore entry settings)

unfoldable pub init_settings : Dict String → Dict String
unfolding insert_settings
init_settings settings = insert_settings default_settings settings

abbrev pub blank : String → Bool
blank [] = true
blank (c ∷ s) = false

unfoldable pub trim_start : String → String
trim_start [] = ""
trim_start (c ∷ s) = let rest = trim_start s in if is_whitespace (code c) then rest else c ∷ s

unfoldable pub trim_end : String → String
trim_end [] = ""
trim_end (c ∷ s) =
    let rest = trim_end s in if blank rest && is_whitespace (code c) then "" else c ∷ rest

-- The pieces of a migration between its semicolons, trimmed, that are not empty.
unfoldable pub statements : String → List String
unfolding split_on trim_start trim_end
statements migration_sql =
    select (λ s. not (blank s)) (map (λ s. trim_end (trim_start s)) (split_on b';' migration_sql))

module _ {ℓ} {Db : Type ℓ} (execute : String → Db → Option Db) where
  -- A statement that fails is only logged.
  unfoldable pub execute_all : List String → Db → Db
  execute_all [] db = db
  execute_all (statement ∷ rest) db = elim (execute statement db) [
    | none ↦ execute_all rest db
    | some db' ↦ execute_all rest db'
  ]

  unfoldable pub run_migrations : List String → Db → Db
  unfolding statements execute_all
  run_migrations [] db = db
  run_migrations (migration_sql ∷ rest) db =
      run_migrations rest (execute_all (statements migration_sql) db)
