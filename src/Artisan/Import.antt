-- ===== src/Artisan/Import.antt =====
-- `parse_artisan_alog` and `import_artisan_profile` of crates/server/src/services.rs.
use rust_roast.Prelude.{
  ℕ, suc, pos, String, Bool, List, [], ◌∷◌, Option, none, some, Result, ok, err, str_eq,
  if◌then◌else◌, find, get_elem?,
}
use rust_roast.Host.{Host}
use rust_roast.Topics as Topics
use rust_roast.Sessions.Summary.{bind, option_map, present}
use rust_roast.Tables.{keep_or}
use rust_roast.Models.ProfileRows.{
  CreateProfilePointRequest, CreateProfileRequest, ProfileWithPoints,
}
use rust_roast.Profiles.{Db, create_profile}
use rust_roast.Artisan.Text.{json_content}

abbrev pub last {ℓ} : {A : Type ℓ} → List A → Option A
last [] = none
last (a ∷ []) = some a
last (a ∷ b ∷ as') = last (b ∷ as')

-- The seven marks of a roast, and the name of each.
abbrev pub event_types : List String
event_types = "CHARGE" ∷ "TP" ∷ "DRY" ∷ "FCs" ∷ "FCe" ∷ "SCs" ∷ "DROP" ∷ []

unfoldable pub event_name : String → String
event_name t =
    if str_eq t "CHARGE"
    then "Charge"
    else if str_eq t "TP"
    then "Turning Point"
    else if str_eq t "DRY"
    then "Dry End"
    else if str_eq t "FCs"
    then "First Crack Start"
    else if str_eq t "FCe"
    then "First Crack End"
    else if str_eq t "SCs"
    then "Second Crack Start"
    else if str_eq t "DROP"
    then "Drop"
    else t

module _ (h : Host) where
  open h use {F64, Value, of_int, to_f32, to_i32, get, as_f64, as_str, as_array, from_json}

  pub record ArtisanProfilePoint : Type 0 where
    pub time : F64
    pub bean_temp : ℕ
    pub env_temp : ℕ

  pub record ArtisanRoastEvent : Type 0 where
    pub name : String
    pub time : F64
    pub bean_temp : ℕ
    pub env_temp : ℕ
    pub event_type : String

  pub record ParsedArtisanProfile : Type 0 where
    pub title : String
    pub roast_date : String
    pub total_time : F64
    pub points : List ArtisanProfilePoint
    pub events : List ArtisanRoastEvent

  -- `data[key].as_array().unwrap_or(&vec![])`
  abbrev pub array_at : Value → String → List Value
  array_at alog key = keep_or (bind (get alog key) as_array) []

  -- A key of `data["computed"]`, which is taken for an empty object when it is none.
  abbrev pub computed_at : Value → String → Option F64
  computed_at alog key = bind (bind (get alog "computed") (λ computed. get computed key)) as_f64

  -- `.unwrap_or(0.0) as f32`
  abbrev pub as_f32 : Option F64 → ℕ
  as_f32 x = to_f32 (keep_or x (of_int (pos 0)))

  abbrev pub temp_at : List Value → ℕ → ℕ
  temp_at temps i = as_f32 (bind (get_elem? temps i) as_f64)

  -- A time that is no number makes no point, but counts as an index.
  unfoldable pub points_from : List Value → List Value → ℕ → List Value → List ArtisanProfilePoint
  points_from temp1 temp2 i [] = []
  points_from temp1 temp2 i (time_val ∷ timex) =
      let rest = points_from temp1 temp2 (suc i) timex in
      elim (as_f64 time_val) [
        | none ↦ rest
        | some time ↦
            record { time = time; bean_temp = temp_at temp2 i; env_temp = temp_at temp1 i } ∷ rest
      ]

  unfoldable pub event_of : Value → String → Option ArtisanRoastEvent
  unfolding event_name
  event_of alog key =
      option_map
        (λ time. record {
          name = event_name key;
          time = time;
          bean_temp = as_f32 (computed_at alog (Topics.◌++◌ key "_BT"));
          env_temp = as_f32 (computed_at alog (Topics.◌++◌ key "_ET"));
          event_type = key;
        })
        (computed_at alog (Topics.◌++◌ key "_time"))

  abbrev pub total_time_of : Value → F64
  total_time_of alog =
      keep_or (computed_at alog "totaltime")
        (keep_or (bind (last (array_at alog "timex")) as_f64) (of_int (pos 0)))

  -- What is read from the JSON value of a file.
  unfoldable pub parse_value : Value → ParsedArtisanProfile
  unfolding points_from
  parse_value alog = record {
    title = keep_or (bind (get alog "title") as_str) "Imported Profile";
    roast_date = keep_or (bind (get alog "roastdate") as_str) "";
    total_time = total_time_of alog;
    points = points_from (array_at alog "temp1") (array_at alog "temp2") 0 (array_at alog "timex");
    events = present (event_of alog) event_types;
  }

  unfoldable pub parse_artisan_alog : String → Result String ParsedArtisanProfile
  unfolding parse_value json_content
  parse_artisan_alog content = elim (from_json content) [
    | some alog ↦ ok (parse_value alog)
    | none ↦ elim (from_json (json_content content)) [
      | some alog ↦ ok (parse_value alog)
      | none ↦ err "Unable to parse Artisan profile file format"
    ]
  ]

  -- The i-th point takes the name of the i-th event for its notes.
  unfoldable pub point_requests :
      List ArtisanRoastEvent → ℕ → List ArtisanProfilePoint → List CreateProfilePointRequest
  point_requests events i [] = []
  point_requests events i (point ∷ points) =
      record {
        time_seconds = to_i32 point.time;
        target_temp = point.bean_temp;
        fan_speed = none;
        notes = option_map (λ (e : ArtisanRoastEvent). e.name) (get_elem? events i);
        target_env_temp = none;
      }
      ∷ point_requests events (suc i) points

  abbrev pub of_type : String → ArtisanRoastEvent → Bool
  of_type t e = str_eq e.event_type t

  abbrev pub unwrap_name : Option String → String → String
  unwrap_name (some name) title = name
  unwrap_name none title = if str_eq title "" then "Imported Artisan Profile" else title

  unfoldable pub import_request : Option String → ParsedArtisanProfile → CreateProfileRequest
  unfolding point_requests
  import_request name parsed = record {
    name = unwrap_name name parsed.title;
    description = some (Topics.◌++◌ "Imported from Artisan - Date: " parsed.roast_date);
    target_total_time = some (to_i32 parsed.total_time);
    target_first_crack =
        option_map (λ (e : ArtisanRoastEvent). to_i32 e.time) (find (of_type "FCs") parsed.events);
    target_end_temp = option_map (λ (p : ArtisanProfilePoint). p.bean_temp) (last parsed.points);
    preheat_temp = none;
    charge_temp =
        option_map (λ (e : ArtisanRoastEvent). e.bean_temp) (find (of_type "CHARGE") parsed.events);
    points = point_requests parsed.events 0 parsed.points;
  }

  -- The new UUIDs come as a function from the place of a point.
  abbrev pub with_ids :
      (ℕ → String) → ℕ → List CreateProfilePointRequest → List (CreateProfilePointRequest × String)
  with_ids ids i [] = []
  with_ids ids i (p ∷ ps) = (p, ids i) ∷ with_ids ids (suc i) ps

  unfoldable pub import_artisan_profile :
      Db → String → Option String → (ℕ → String) → String → ℕ → Result String ProfileWithPoints × Db
  unfolding parse_artisan_alog import_request
  import_artisan_profile db alog_content name ids id now = elim (parse_artisan_alog alog_content) [
    | err e ↦ (err e, db)
    | ok parsed ↦
        let req = import_request name parsed in
        create_profile db req (with_ids ids 0 req.points) id now
  ]
