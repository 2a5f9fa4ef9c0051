-- ===== src/Csv.antt =====
-- `export_csv` of crates/server/src/services.rs and the two export handlers of
-- crates/server/src/main.rs. What the crate `chrono` prints of a time are parameters.
pub mod Rows
pub mod Printed
pub mod RoundTrip
mod Examples
use rust_roast.Prelude.{
  ℕ, ℤ, pos, negsuc, suc, String, Bool, List, [], ◌∷◌, ◌++◌, map, Option, none, some, str_eq,
  if◌then◌else◌, err, ok, to_decimal, concat,
}
use rust_roast.Prelude.Pieces.{commas, lined}
use rust_roast.Host.{Host}
use rust_roast.Topics as Topics
use rust_roast.Sessions.Summary.{option_map}
use rust_roast.Tables.{keep_or}
use rust_roast.Models.SessionRows.{RoastSession, SessionTelemetry}
use rust_roast.Models.ProfileRows.{ProfileWithPoints}
use rust_roast.Sessions.{Db, get_session, get_session_telemetry}
use rust_roast.Sessions.Routes.{Reply}
use rust_roast.Profiles as Profiles
use rust_roast.Profiles.{get_profile_with_points}
use rust_roast.Artisan.Export.{filename_of, export_artisan_json}

-- `to_string` of an i32
unfoldable pub show_i32 : ℤ → String
show_i32 (pos n) = to_decimal n
show_i32 (negsuc n) = Topics.◌++◌ "-" (to_decimal (suc n))

-- `map(|v| v.to_string()).unwrap_or_default()`
abbrev pub shown {ℓ} : {A : Type ℓ} → (A → String) → Option A → String
shown show value = keep_or (option_map show value) ""

-- A line of the header that is written only when its value is there.
abbrev pub line_of {ℓ} : {A : Type ℓ} → (A → String) → Option A → List String
line_of text none = []
line_of text (some a) = text a ∷ []

abbrev pub bean_line : Option String → String → String
bean_line variety origin =
    if str_eq (keep_or variety "") ""
    then Topics.◌++◌ "# Bean: " origin
    else Topics.◌++◌ "# Bean: "
        (Topics.◌++◌ origin (Topics.◌++◌ " (" (Topics.◌++◌ (keep_or variety "") ")")))

abbrev pub profile_line : String → List String
profile_line name = if str_eq name "" then [] else Topics.◌++◌ "# Profile: " name ∷ []

abbrev pub columns : List String
columns =
    "elapsed_seconds" ∷ "bean_temp" ∷ "env_temp" ∷ "rate_of_rise" ∷ "heater_pwm" ∷ "fan_pwm"
    ∷ "setpoint" ∷ []

unfoldable pub profile_name : Profiles.Db → RoastSession → String
unfolding get_profile_with_points
profile_name profiles session = elim session.profile_id [
  | none ↦ ""
  | some pid ↦
      keep_or
        (option_map (λ (p : ProfileWithPoints). p.profile.name)
          (get_profile_with_points profiles pid))
        ""
]

-- The answer with the type of its content and its disposition. The crate `http` tests the
-- text of a header, and `axum` answers for one that it refuses.
abbrev pub attachment :
    (String → Bool) → String → String → String → Reply (List (String × String) × String)
attachment is_header_value content_type filename body =
    let disposition = Topics.◌++◌ "attachment; filename=\"" (Topics.◌++◌ filename "\"") in
    if is_header_value disposition
    then ok
        (200, (("content-type", content_type) ∷ ("content-disposition", disposition) ∷ [], body))
    else err (500, "failed to parse header value")

module _ (h : Host) where
  open h use {show_f32}

  abbrev pub fields : SessionTelemetry → List String
  fields t =
      show_f32 t.elapsed_seconds
      ∷ shown show_f32 t.bean_temp
      ∷ shown show_f32 t.env_temp
      ∷ shown show_f32 t.rate_of_rise
      ∷ shown show_i32 t.heater_pwm
      ∷ shown show_i32 t.fan_pwm
      ∷ shown show_f32 t.setpoint
      ∷ []

  module _ (show_time : ℕ → String) where
    -- The lines before the columns, by the part of the session that they show.
    abbrev pub header_parts : RoastSession → String → List (List String)
    header_parts session name =
        (Topics.◌++◌ "# Session: " session.name ∷ [])
        ∷ line_of (λ t. Topics.◌++◌ "# Date: " (show_time t)) session.start_time
        ∷ line_of (bean_line session.bean_variety) session.bean_origin
        ∷ profile_line name
        ∷ line_of (λ w. Topics.◌++◌ "# Green Weight: " (Topics.◌++◌ (show_f32 w) "g"))
            session.green_weight
        ∷ line_of (λ w. Topics.◌++◌ "# Roasted Weight: " (Topics.◌++◌ (show_f32 w) "g"))
            session.roasted_weight
        ∷ []

    unfoldable pub header_lines : RoastSession → String → List String
    header_lines session name = concat (header_parts session name)

    unfoldable pub csv_of : RoastSession → String → List SessionTelemetry → String
    unfolding header_lines lined commas show_i32
    csv_of session name telemetry =
        lined (header_lines session name ++ commas columns ∷ map (λ t. commas (fields t)) telemetry)

    module _ (to_rfc3339 : ℕ → String) (format_date : ℕ → String) where
      unfoldable pub export_csv : Db → Profiles.Db → String → Option (String × String)
      unfolding csv_of get_session
      export_csv db profiles id =
          option_map
            (λ session. (
              csv_of session (profile_name profiles session) (get_session_telemetry h db id),
              filename_of h to_rfc3339 format_date session ".csv",
            ))
            (get_session db id)

      unfoldable pub api_export_csv :
          (String → Bool) → Db → Profiles.Db → String → Reply (List (String × String) × String)
      unfolding export_csv
      api_export_csv is_header_value db profiles id = elim (export_csv db profiles id) [
        | none ↦ err (404, "Session not found")
        | some (csv, filename) ↦ attachment is_header_value "text/csv; charset=utf-8" filename csv
      ]

  module _ (to_rfc3339 : ℕ → String) (format_date : ℕ → String) where
    -- The printing of the JSON, with indentation, is a function of `serde_json`.
    unfoldable pub api_export_artisan :
        (String → Bool) → (h.Value → String) → Db → String → Reply (List (String × String) × String)
    unfolding export_artisan_json
    api_export_artisan is_header_value to_string_pretty db id =
        elim (export_artisan_json h to_rfc3339 format_date db id) [
          | none ↦ err (404, "Session not found")
          | some (json, filename) ↦
              attachment is_header_value "application/json; charset=utf-8" filename
                (to_string_pretty json)
        ]
