-- ===== src/Csv/Examples.antt =====
-- The export of a concrete session, with the sample host.
use rust_roast.Prelude.{
  ℕ, ℤ, pos, negsuc, String, select, str_eq, [], ◌∷◌, none, some, ◌≡◌, refl, map, holds-to_decimal,
  to_decimal,
}
use rust_roast.Prelude.Pieces.{holds}
use rust_roast.Sample.{sample}
use rust_roast.Artisan.Text.{replace}
use rust_roast.Artisan.Export.{filename_of}
use rust_roast.Models.SessionRows.{RoastSession, SessionTelemetry, CreateSessionRequest}
use rust_roast.Sessions.{Db, planned, get_session_telemetry}
use rust_roast.Sessions.Summary.{option_map, order_by}
use rust_roast.Profiles as Profiles
use rust_roast.Csv.{profile_name, export_csv}
use rust_roast.Csv.Rows.{read_csv}
use rust_roast.Csv.Printed.{printed, by_columns}
use rust_roast.Csv.RoundTrip.{IsPrintable, export_csv-read}

abbrev request : CreateSessionRequest
request = record {
  name = "Guji";
  device_id = "d1";
  profile_id = none;
  bean_origin = some "Ethiopia";
  bean_variety = some "Heirloom";
  green_weight = some 500;
  target_roast_level = none;
  notes = none;
  ambient_temp = none;
  humidity = none;
}

abbrev session : RoastSession
session = planned request "s1" 1000

abbrev row : String → ℕ → ℕ → ℤ → SessionTelemetry
row id elapsed bean fan = record {
  id = id;
  session_id = "s1";
  timestamp = 1000;
  elapsed_seconds = elapsed;
  bean_temp = some bean;
  env_temp = none;
  rate_of_rise = none;
  heater_pwm = none;
  fan_pwm = some fan;
  setpoint = none;
}

abbrev tables : Db
tables = record {
  roast_sessions = session ∷ [];
  session_telemetry = row "t1" 20 140 (negsuc 0) ∷ row "t2" 10 120 (pos 5) ∷ [];
  roast_events = [];
  profile_ids = [];
  settings = [];
}

abbrev profiles : Profiles.Db
profiles = record { roast_profiles = []; profile_points = []; roast_sessions = [] }

abbrev clock : ℕ → String
clock t = "2024-01-01"

session-IsPrintable : IsPrintable sample clock session (profile_name profiles session)
unfolding holds profile_name
session-IsPrintable = record {
  numbers = λ x.
      (holds-to_decimal b',' x refl, (holds-to_decimal 10 x refl, holds-to_decimal b'#' x refl));
  times = λ t. refl;
  title = refl;
  origin = refl;
  variety = refl;
  profile = refl;
}

export_csv-read_example :
    option_map
      (λ (file : String × String). by_columns (read_csv file.0))
      (export_csv sample clock clock clock tables profiles "s1")
    ≡ some (
        map (printed sample) (
          order_by sample
            (λ (t : SessionTelemetry). t.elapsed_seconds)
            (select (λ (t : SessionTelemetry). str_eq t.session_id "s1") tables.session_telemetry)))
export_csv-read_example =
    export_csv-read sample clock clock clock tables profiles "s1" session refl session-IsPrintable

whole_file :
    export_csv sample clock clock clock tables profiles "s1"
    ≡ some (
      "# Session: Guji\n# Bean: Ethiopia (Heirloom)\n# Green Weight: 500g\nelapsed_seconds,bean_temp,env_temp,rate_of_rise,heater_pwm,fan_pwm,setpoint\n10,120,,,,5,\n20,140,,,,-1,\n",
      "Guji_2024-01-01.csv",
    )
unfolding export_csv get_session_telemetry to_decimal replace profile_name filename_of
whole_file = refl
