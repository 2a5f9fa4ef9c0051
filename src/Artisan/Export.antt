-- ===== src/Artisan/Export.antt =====
-- `export_artisan_json` of crates/server/src/services.rs. What the crate `chrono` prints of a time
-- are parameters.
use rust_roast.Prelude.{
  ℕ, suc, ℤ, pos, negsuc, String, Bool, List, [], ◌∷◌, ◌++◌, map, Option, none, some, str_eq,
  if◌then◌else◌, find, leb_ℤ,
}
use rust_roast.Host.{Host}
use rust_roast.Topics as Topics
use rust_roast.Sessions.Summary.{option_map}
use rust_roast.Tables.{keep_or}
use rust_roast.Models.RoastEventType.{to_string}
use rust_roast.Models.SessionRows.{RoastSession, SessionTelemetry, RoastEvent}
use rust_roast.Sessions.{Db, get_session, get_session_telemetry, get_roast_events}
use rust_roast.Artisan.Text.{replace}

-- The bit pattern of -1.0.
abbrev pub minus_one : ℕ
minus_one = 3212836864

abbrev pub event_map : List String
event_map =
    "drying_end" ∷ "first_crack_start" ∷ "first_crack_end" ∷ "second_crack_start"
    ∷ "second_crack_end" ∷ "drop_out" ∷ []

abbrev pub type_is : String → RoastEvent → Bool
type_is t e = str_eq (to_string e.event_type) t

module _ (h : Host) where
  open h use {
    F64, Value, of_int, of_f32, to_i64, sub, mul, abs, null, of_i64, of_f64, of_str, of_array,
    of_object,
  }

  abbrev pub time_of : SessionTelemetry → F64
  time_of t = of_f32 t.elapsed_seconds

  -- `unwrap_or(-1.0) as f64`
  abbrev pub temp_of : Option ℕ → F64
  temp_of temp = of_f32 (keep_or temp minus_one)

  -- The key of `min_by_key`: the distance in milliseconds.
  abbrev pub distance : RoastEvent → F64 → ℤ
  distance e t = to_i64 (abs (mul (sub t (of_f32 e.elapsed_seconds)) (of_int (pos 1000))))

  -- `min_by_key`: the index of the first of the least keys, from the index `i` on.
  unfoldable pub nearest_from : (F64 → ℤ) → ℕ → List F64 → Option (ℕ × ℤ)
  nearest_from key i [] = none
  nearest_from key i (t ∷ ts) = elim (nearest_from key (suc i) ts) [
    | none ↦ some (i, key t)
    | some (j, best) ↦ if leb_ℤ (key t) best then some (i, key t) else some (j, best)
  ]

  abbrev pub as_index : Option (ℕ × ℤ) → ℤ
  as_index none = negsuc 0
  as_index (some (i, best)) = pos i

  -- The index of the telemetry nearest to the first event of a type, and -1 if there is none.
  unfoldable pub mark_index : List F64 → List RoastEvent → String → ℤ
  unfolding nearest_from
  mark_index timex events event_type = elim (find (type_is event_type) events) [
    | none ↦ negsuc 0
    | some e ↦ as_index (nearest_from (distance e) 0 timex)
  ]

  abbrev pub charge_index : List F64 → ℤ
  charge_index [] = negsuc 0
  charge_index (t ∷ ts) = pos 0

  unfoldable pub timeindex_of : List F64 → List RoastEvent → List ℤ
  unfolding mark_index
  timeindex_of timex events =
      charge_index timex ∷ map (mark_index timex events) event_map ++ negsuc 0 ∷ []

  -- `json!` of an f32, a text or a missing value.
  abbrev pub json_f32 : Option ℕ → Value
  json_f32 none = null
  json_f32 (some x) = of_f64 (of_f32 x)

  abbrev pub json_str : Option String → Value
  json_str none = null
  json_str (some s) = of_str s

  abbrev pub special_event : RoastEvent → Value
  special_event e = of_object (
      ("type", of_str (to_string e.event_type))
      ∷ ("time", of_f64 (of_f32 e.elapsed_seconds))
      ∷ ("temperature", json_f32 e.temperature)
      ∷ ("notes", json_str e.notes)
      ∷ [])

  module _ (to_rfc3339 : ℕ → String) (format_date : ℕ → String) where
    -- The JSON value of a session with its telemetry and events.
    unfoldable pub alog_of : RoastSession → List SessionTelemetry → List RoastEvent → Value
    unfolding timeindex_of
    alog_of session telemetry events =
        let timex = map time_of telemetry in
        of_object (
          ("version", of_str "2")
          ∷ ("title", of_str session.name)
          ∷ ("roastdate", of_str (to_rfc3339 (keep_or session.start_time session.created_at)))
          ∷ ("beans", of_str (keep_or session.bean_origin ""))
          ∷ (
            "weight",
            of_array (
                of_f64 (of_f32 (keep_or session.green_weight 0))
                ∷ of_f64 (of_f32 (keep_or session.roasted_weight 0))
                ∷ of_str "g"
                ∷ []),
          )
          ∷ ("timex", of_array (map of_f64 timex))
          ∷ (
            "temp1",
            of_array (map (λ (t : SessionTelemetry). of_f64 (temp_of t.env_temp)) telemetry),
          )
          ∷ (
            "temp2",
            of_array (map (λ (t : SessionTelemetry). of_f64 (temp_of t.bean_temp)) telemetry),
          )
          ∷ ("timeindex", of_array (map of_i64 (timeindex_of timex events)))
          ∷ ("specialevents", of_array (map special_event events))
          ∷ [])

    unfoldable pub filename_of : RoastSession → String → String
    unfolding replace
    filename_of session suffix = Topics.◌++◌ (replace " " "_" session.name) (
        Topics.◌++◌ "_"
          (Topics.◌++◌ (format_date (keep_or session.start_time session.created_at)) suffix))

    unfoldable pub export_artisan_json : Db → String → Option (Value × String)
    unfolding alog_of filename_of get_session
    export_artisan_json db id =
        option_map
          (λ session. (
            alog_of session (get_session_telemetry h db id) (get_roast_events h db id),
            filename_of session ".alog",
          ))
          (get_session db id)
