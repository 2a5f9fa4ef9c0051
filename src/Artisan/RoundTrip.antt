-- ===== src/Artisan/RoundTrip.antt =====
-- An export of a session that is imported again.
use rust_roast.Prelude.{
  ℕ, suc, pos, String, Bool, true, List, [], ◌∷◌, map, none, some, ◌≡◌, refl, ap, ◌∙◌, All,
  Option-cases, inl, inr, lookup, Dict,
}
use rust_roast.Host.{Host}
use rust_roast.Sessions.Summary.{bind, option_map, present}
use rust_roast.Tables.{keep_or}
use rust_roast.Models.SessionRows.{RoastSession, SessionTelemetry, RoastEvent}
use rust_roast.Sessions.{Db, get_session, get_session_telemetry, get_roast_events}
use rust_roast.Artisan.Import.{
  ParsedArtisanProfile, ArtisanProfilePoint, points_from, parse_value, last, event_of, computed_at,
  event_types,
}
use rust_roast.Artisan.Export.{alog_of, export_artisan_json, time_of, temp_of, minus_one}

-- What `serde_json` says of the values that `json!` makes, and that a finite f32 comes back from
-- an f64.
pub record JsonLaws (h : Host) (finite : h.F64 → Bool) : Type 0 where
  pub get-of_object : (fs : Dict h.Value) (k : String) → h.get (h.of_object fs) k ≡ lookup k fs
  pub as_array-of_array : (vs : List h.Value) → h.as_array (h.of_array vs) ≡ some vs
  pub as_f64-of_f64 : (x : h.F64) → finite x ≡ true → h.as_f64 (h.of_f64 x) ≡ some x
  pub as_str-of_str : (s : String) → h.as_str (h.of_str s) ≡ some s
  pub to_f32-of_f32 : (x : ℕ) → finite (h.of_f32 x) ≡ true → h.to_f32 (h.of_f32 x) ≡ x

module _ (h : Host) (finite : h.F64 → Bool) (laws : JsonLaws h finite) where
  open h use {F64, Value, of_f32, of_f64, of_array}

  -- The columns that are exported hold finite numbers.
  pub record IsFinite (t : SessionTelemetry) : Type 0 where
    pub elapsed : finite (time_of h t) ≡ true
    pub bean : finite (temp_of h t.bean_temp) ≡ true
    pub env : finite (temp_of h t.env_temp) ≡ true

  -- A missing temperature comes back as -1.
  abbrev pub point_of : SessionTelemetry → ArtisanProfilePoint h
  point_of t = record {
    time = time_of h t;
    bean_temp = keep_or t.bean_temp minus_one;
    env_temp = keep_or t.env_temp minus_one;
  }

  abbrev env_values : List SessionTelemetry → List Value
  env_values ts = map (λ (t : SessionTelemetry). of_f64 (temp_of h t.env_temp)) ts

  abbrev bean_values : List SessionTelemetry → List Value
  bean_values ts = map (λ (t : SessionTelemetry). of_f64 (temp_of h t.bean_temp)) ts

  abbrev time_values : List SessionTelemetry → List Value
  time_values ts = map of_f64 (map (time_of h) ts)

  -- The first of the temperatures is not read any more after the first time.
  points_from-suc :
      (a b : Value) (temp1 temp2 : List Value) (i : ℕ) (timex : List Value)
      → points_from h (a ∷ temp1) (b ∷ temp2) (suc i) timex ≡ points_from h temp1 temp2 i timex
  unfolding points_from
  points_from-suc a b temp1 temp2 i [] = refl
  points_from-suc a b temp1 temp2 i (t ∷ timex) = elim (Option-cases (h.as_f64 t)) [
    | inl e ↦ rw (points_from, e) (points_from-suc a b temp1 temp2 (suc i) timex)
    | inr (time, e) ↦ rw (points_from, e) (rw (points_from-suc a b temp1 temp2 (suc i) timex) refl)
  ]

  points_back :
      (ts : List SessionTelemetry)
      → All IsFinite ts
      → points_from h (env_values ts) (bean_values ts) 0 (time_values ts) ≡ map point_of ts
  unfolding points_from
  points_back [] a = refl
  points_back (t ∷ ts) a =
      rw
        (
          laws.as_f64-of_f64 (time_of h t) a.0.elapsed,
          laws.as_f64-of_f64 (temp_of h t.bean_temp) a.0.bean,
          laws.as_f64-of_f64 (temp_of h t.env_temp) a.0.env,
          laws.to_f32-of_f32 (keep_or t.bean_temp minus_one) a.0.bean,
          laws.to_f32-of_f32 (keep_or t.env_temp minus_one) a.0.env,
        )
        (ap (λ ps. point_of t ∷ ps)
          (points_from-suc (of_f64 (temp_of h t.env_temp)) (of_f64 (temp_of h t.bean_temp))
              (env_values ts) (bean_values ts) 0 (time_values ts)
            ∙ points_back ts a.1))

  no_event :
      (alog : Value) (key : String) → h.get alog "computed" ≡ none → event_of h alog key ≡ none
  unfolding event_of
  no_event alog key e = rw (event_of, computed_at, e) refl

  no_events :
      (alog : Value) (keys : List String)
      → h.get alog "computed" ≡ none
      → present (event_of h alog) keys ≡ []
  no_events alog [] e = refl
  no_events alog (key ∷ keys) e = rw (present, no_event alog key e) (no_events alog keys e)

  last_time :
      (ts : List SessionTelemetry)
      → All IsFinite ts
      → bind (last (time_values ts)) h.as_f64 ≡ option_map (time_of h) (last ts)
  last_time [] a = refl
  last_time (t ∷ []) a = laws.as_f64-of_f64 (time_of h t) a.0.elapsed
  last_time (t ∷ u ∷ ts) a = last_time (u ∷ ts) a.1

  module _ (to_rfc3339 : ℕ → String) (format_date : ℕ → String) where
    -- What is read again of an exported session.
    abbrev pub read_back : RoastSession → List SessionTelemetry → ParsedArtisanProfile h
    read_back session telemetry = record {
      title = session.name;
      roast_date = to_rfc3339 (keep_or session.start_time session.created_at);
      total_time = keep_or (option_map (time_of h) (last telemetry)) (h.of_int (pos 0));
      points = map point_of telemetry;
      events = [];
    }

    parse-alog_of :
        (session : RoastSession) (telemetry : List SessionTelemetry) (events : List RoastEvent)
        → All IsFinite telemetry
        → parse_value h (alog_of h to_rfc3339 format_date session telemetry events)
          ≡ read_back session telemetry
    unfolding parse_value alog_of lookup
    parse-alog_of session telemetry events a =
        rw
          (
            laws.get-of_object,
            laws.get-of_object,
            laws.get-of_object,
            laws.get-of_object,
            laws.get-of_object,
            laws.get-of_object,
            laws.as_str-of_str session.name,
            laws.as_str-of_str (to_rfc3339 (keep_or session.start_time session.created_at)),
            laws.as_array-of_array (time_values telemetry),
            laws.as_array-of_array (env_values telemetry),
            laws.as_array-of_array (bean_values telemetry),
            last_time telemetry a,
            points_back telemetry a,
          )
          (rw
            (no_events (alog_of h to_rfc3339 format_date session telemetry events) event_types
              (laws.get-of_object _ "computed"))
            refl)

    -- A session that is exported and read again as a profile keeps its name and its date, the time
    -- of its last telemetry row is the total time, and every telemetry row comes back as a point, in
    -- the order of the export, with -1 for a temperature that is missing. None of the marks of the
    -- roast comes back. The session is in the database, and the times and temperatures of its
    -- telemetry are finite numbers.
    pub parse-export :
        (db : Db) (id : String) (session : RoastSession)
        → get_session db id ≡ some session
        → All IsFinite (get_session_telemetry h db id)
        → option_map (λ r. parse_value h r.0) (export_artisan_json h to_rfc3339 format_date db id)
          ≡ some (read_back session (get_session_telemetry h db id))
    unfolding export_artisan_json
    parse-export db id session e a =
        rw (export_artisan_json, e)
          (ap some
            (parse-alog_of session (get_session_telemetry h db id) (get_roast_events h db id) a))
