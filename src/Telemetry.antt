-- ===== src/Telemetry.antt =====
-- `TelemetryService::process_telemetry` of crates/server/src/telemetry.rs. The wall clock in
-- seconds, the monotonic clock in milliseconds and the new UUID are arguments; the writes of the
-- database, whose errors are only logged, are the tables of the state.
pub mod Debounce
pub mod Recording
pub mod Cache
pub mod Typed
mod Examples
use rust_roast.Prelude.{
  ℕ, suc, ◌+◌, ◌-◌, ℤ, pos, negsuc, String, Bool, true, false, ◌&&◌, ◌||◌, List, [], ◌∷◌, ◌++◌, map,
  Option, none, some, ltb, leb, str_eq, if◌then◌else◌, select, any, Dict, lookup, insert,
}
use rust_roast.Host.{Host}
use rust_roast.Models.SessionStatus.{active, to_string}
use rust_roast.Models.DeviceStatus.{DeviceStatus, disabled}
use rust_roast.Models.SessionRows.{RoastSession}

-- The difference of two times in seconds.
abbrev pub seconds_between : ℕ → ℕ → ℤ
seconds_between now start = if ltb now start then negsuc (start - now - 1) else pos (now - start)

-- `status = 'active'` and the device of a session.
abbrev pub is_recording : String → RoastSession → Bool
is_recording device_id s = str_eq s.device_id device_id && str_eq (to_string s.status) "active"

abbrev pub is_disabled : Option DeviceStatus → Bool
is_disabled (some disabled) = true
is_disabled _ = false

-- `last.elapsed() >= debounce_interval`
abbrev pub is_due : Option ℕ → ℕ → Bool
is_due none instant = true
is_due (some last) instant = leb 10000 (instant - last)

module _ (h : Host) where
  open h use {Value, get, to_json}

  -- A row of `session_telemetry`; a column has what `json_extract` finds in the payload.
  pub record Point : Type 0 where
    pub id : String
    pub session_id : String
    pub timestamp : ℕ
    pub elapsed_seconds : ℤ
    pub bean_temp : Option Value
    pub env_temp : Option Value
    pub rate_of_rise : Option Value
    pub heater_pwm : Option Value
    pub fan_pwm : Option Value
    pub setpoint : Option Value

  pub record TelemetryRow : Type 0 where
    pub device_id : String
    pub ts : ℕ
    pub payload : String

  -- The gauge `telemetry_last_seen`, the cache, the events broadcast, the three tables that are
  -- written or read, the debounce map and the calls of `update_last_seen`, newest first, each with
  -- its instant.
  pub record TelemetryService : Type 0 where
    pub telemetry_last_seen : Dict ℕ
    pub telemetry_cache : Dict (Value × ℕ)
    pub broadcast : List (String × Value)
    pub telemetry : List TelemetryRow
    pub roast_sessions : List RoastSession
    pub session_telemetry : List Point
    pub last_seen_debounce : Dict ℕ
    pub last_seen_updates : Dict ℕ

  abbrev pub elapsed_since : Option ℕ → ℕ → ℤ
  elapsed_since none now = pos 0
  elapsed_since (some start) now = seconds_between now start

  abbrev pub point_of : Value → String → ℕ → RoastSession → Point
  point_of payload point_id now s = record {
    id = point_id;
    session_id = s.id;
    timestamp = now;
    elapsed_seconds = elapsed_since s.start_time now;
    bean_temp = get payload "beanTemp";
    env_temp = get payload "envTemp";
    rate_of_rise = get payload "rateOfRise";
    heater_pwm = get payload "heaterPWM";
    fan_pwm = get payload "fanPWM";
    setpoint = get payload "setpoint";
  }

  abbrev pub has_point : String → Point → Bool
  has_point point_id p = str_eq p.id point_id

  -- Rows that all have one key: a second row, or a row of the table with the key, fails the insert.
  abbrev pub insert_points : String → List Point → List Point → List Point
  insert_points point_id table [] = table
  insert_points point_id table (p ∷ []) =
      if any (has_point point_id) table then table else table ++ p ∷ []
  insert_points point_id table (p ∷ q ∷ ps) = table

  -- `INSERT INTO session_telemetry … SELECT … FROM roast_sessions`
  unfoldable pub record_points : TelemetryService → String → Value → String → ℕ → List Point
  record_points s device_id payload point_id now =
      insert_points point_id s.session_telemetry
        (map (point_of payload point_id now) (select (is_recording device_id) s.roast_sessions))

  unfoldable pub process_telemetry :
      TelemetryService → String → Value → Option DeviceStatus → String → ℕ → ℕ → TelemetryService
  process_telemetry s device_id payload device_status point_id now instant =
      let due = is_due (lookup device_id s.last_seen_debounce) instant in
      record s {
        telemetry_last_seen = insert device_id now s.telemetry_last_seen;
        telemetry_cache = insert device_id (payload, now) s.telemetry_cache;
        broadcast = (device_id, payload) ∷ s.broadcast;
        telemetry =
            s.telemetry
            ++ record { device_id = device_id; ts = now; payload = to_json payload } ∷ [];
        session_telemetry =
            if is_disabled device_status
            then s.session_telemetry
            else record_points s device_id payload point_id now;
        last_seen_debounce =
            if due then insert device_id instant s.last_seen_debounce else s.last_seen_debounce;
        last_seen_updates =
            if due then (device_id, instant) ∷ s.last_seen_updates else s.last_seen_updates;
      }

  -- One message: the arguments of a call, with what the environment gives it.
  pub record Received : Type 0 where
    pub device_id : String
    pub payload : Value
    pub device_status : Option DeviceStatus
    pub point_id : String
    pub now : ℕ
    pub instant : ℕ

  -- The state after the messages, the newest message first.
  unfoldable pub after : TelemetryService → List Received → TelemetryService
  after s [] = s
  after s (m ∷ history) =
      process_telemetry (after s history) m.device_id m.payload m.device_status m.point_id m.now
        m.instant
