-- ===== src/Artisan/Examples.antt =====
-- An export at a concrete session, with the sample host.
use rust_roast.Prelude.{
  str_eq, ℕ, ◌^◌, ◌%◌, ℤ, pos, negsuc, String, Bool, true, List, [], ◌∷◌, Option, none, some, ◌≡◌,
  refl, ap, ltb, arith, Dict, lookup, ◌⊎◌, find,
}
use rust_roast.Sample.{sample, SampleValue, pos_part, to_list, of_list, of_dict, lookup_field}
use rust_roast.Sessions.Summary.{option_map}
use rust_roast.Models.RoastEventType.{first_crack_start, to_string}
use rust_roast.Models.RoastEventType.{to_string}
use rust_roast.Models.SessionRows.{RoastSession, SessionTelemetry, RoastEvent, CreateSessionRequest}
use rust_roast.Sessions.{Db, planned, get_session, get_session_telemetry}
use rust_roast.Artisan.Import.{parse_value}
use rust_roast.Artisan.Export.{mark_index, export_artisan_json}
use rust_roast.Artisan.RoundTrip.{JsonLaws, IsFinite, read_back, parse-export}
use rust_roast.Artisan.Marks.{IsNearest, mark_index-IsNearest}

-- The numbers that are the bit pattern of an f32.
abbrev finite : ℤ → Bool
finite z = ltb (pos_part z) (2 ^ 32)

get_fields : (fs : Dict SampleValue) (k : String) → lookup_field k (of_dict fs) ≡ lookup k fs
unfolding lookup
get_fields [] k = refl
get_fields ((name, v) ∷ fs) k = rw (get_fields fs k) refl

listed : (vs : List SampleValue) → to_list (of_list vs) ≡ vs
listed [] = refl
listed (v ∷ vs) = ap (λ l. v ∷ l) (listed vs)

in_range : (x : ℕ) → ltb x (2 ^ 32) ≡ true → x % 2 ^ 32 ≡ x
in_range x e = ground arith

sample_laws : JsonLaws sample finite
sample_laws = record {
  get-of_object = get_fields;
  as_array-of_array = λ vs. ap some (listed vs);
  as_f64-of_f64 = λ x e. refl;
  as_str-of_str = λ s. refl;
  to_f32-of_f32 = in_range;
}

abbrev request : CreateSessionRequest
request = record {
  name = "Guji";
  device_id = "esp32-001";
  profile_id = none;
  bean_origin = some "Ethiopia";
  bean_variety = none;
  green_weight = some 500;
  target_roast_level = none;
  notes = none;
  ambient_temp = none;
  humidity = none;
}

abbrev session : RoastSession
session = planned request "s1" 1000

abbrev row : String → ℕ → Option ℕ → SessionTelemetry
row id elapsed bean = record {
  id = id;
  session_id = "s1";
  timestamp = 1000;
  elapsed_seconds = elapsed;
  bean_temp = bean;
  env_temp = none;
  rate_of_rise = none;
  heater_pwm = none;
  fan_pwm = none;
  setpoint = none;
}

abbrev tables : Db
tables = record {
  roast_sessions = session ∷ [];
  session_telemetry = row "t1" 10 (some 120) ∷ row "t2" 20 (some 140) ∷ [];
  roast_events = [];
  profile_ids = [];
  settings = [];
}

abbrev date : ℕ → String
date t = "2024-01-01"

row-IsFinite :
    (id : String) (elapsed : ℕ) (bean : ℕ)
    → ltb elapsed (2 ^ 32) ≡ true
    → ltb bean (2 ^ 32) ≡ true
    → IsFinite sample finite sample_laws (row id elapsed (some bean))
row-IsFinite id elapsed bean e f = record { elapsed = e; bean = f; env = refl }

parse-export_example :
    option_map (λ r. parse_value sample r.0) (export_artisan_json sample date date tables "s1")
    ≡ some (
        read_back sample finite sample_laws date date session
          (get_session_telemetry sample tables "s1"))
unfolding get_session get_session_telemetry
parse-export_example =
    parse-export sample finite sample_laws date date tables "s1" session refl
      (row-IsFinite "t1" 10 120 refl refl, (row-IsFinite "t2" 20 140 refl refl, tt))

abbrev event : RoastEvent
event = record {
  id = "e1";
  session_id = "s1";
  event_type = first_crack_start;
  elapsed_seconds = 17;
  temperature = none;
  notes = none;
  created_at = 1017;
}

nearer_second : mark_index sample (pos 10 ∷ pos 20 ∷ []) (event ∷ []) "first_crack_start" ≡ pos 1
unfolding mark_index to_string
nearer_second = refl

mark_index-IsNearest_example :
    ((mark_index sample (pos 10 ∷ pos 20 ∷ []) (event ∷ []) "first_crack_start" ≡ negsuc 0)
      × ((find
              (λ (x : RoastEvent). str_eq (to_string x.event_type) "first_crack_start")
              (event ∷ [])
            ≡ none)
          ⊎ (pos 10 ∷ pos 20 ∷ [] ≡ [])))
    ⊎ ((k : ℕ) × (e : RoastEvent) × (best : ℤ) × (mark_index sample
            (pos 10 ∷ pos 20 ∷ [])
            (event ∷ [])
            "first_crack_start"
          ≡ pos k)
        × (find
              (λ (x : RoastEvent). str_eq (to_string x.event_type) "first_crack_start")
              (event ∷ [])
            ≡ some e)
        × IsNearest sample
            (λ t. sample.to_i64 (
              sample.abs (
                sample.mul
                  (sample.sub t (sample.of_f32 e.elapsed_seconds))
                  (sample.of_int (pos 1000)))))
            (pos 10 ∷ pos 20 ∷ [])
            k
            best)
mark_index-IsNearest_example =
    mark_index-IsNearest sample (pos 10 ∷ pos 20 ∷ []) (event ∷ []) "first_crack_start"
