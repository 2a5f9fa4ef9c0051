-- ===== src/History.antt =====
-- The read endpoints of crates/server/src/main.rs over the telemetry and autotune tables and caches,
-- and `retention_cleanup_loop`, which deletes old telemetry. An error of the database is not
-- modelled; a time is a number of seconds below 2^63, so that its cast to i64 keeps it.
pub mod Pages
pub mod Retention
mod Examples
use rust_roast.Prelude.{
  ℕ, ◌-◌, min, String, Bool, true, false, ◌&&◌, List, [], ◌∷◌, Option, none, some, Result, ok, err,
  str_eq, leb, ltb, select, take, length, lookup, Dict, map,
}
use rust_roast.Host.{Host}
use rust_roast.Tables.{keep_or, delete_rows, order_by}
use rust_roast.Sessions.Summary.{present, option_map}
use rust_roast.Telemetry.{TelemetryRow, TelemetryService}
use rust_roast.Consumer.{AutotuneRow, Consumer, DeviceInfo}

pub record HistoryQuery : Type 0 where
  pub since_secs : Option ℕ
  pub limit : Option ℕ

-- `now.saturating_sub(q.since_secs.unwrap_or(3600))`
abbrev pub since_ts : HistoryQuery → ℕ → ℕ
since_ts q now = now - keep_or q.since_secs 3600

-- `q.limit.unwrap_or(200).min(1000)`
abbrev pub row_limit : HistoryQuery → ℕ
row_limit q = min (keep_or q.limit 200) 1000

pub record TelemetryItem (Value : Type 0) : Type 0 where
  pub ts : ℕ
  pub telemetry : Value

pub record TelemetryHistoryResponse (Value : Type 0) : Type 0 where
  pub device_id : String
  pub count : ℕ
  pub items : List (TelemetryItem Value)

module _ (h : Host) where
  open h use {Value, from_json}

  -- A table whose rows have a device, a time and a payload.
  module _ {Row : Type 0} (device : Row → String) (ts : Row → ℕ) (payload : Row → String) where
    abbrev pub wanted : String → ℕ → Row → Bool
    wanted device_id since r = str_eq (device r) device_id && leb since (ts r)

    -- `ORDER BY ts DESC`
    abbrev pub newer : Row → Row → Bool
    newer a b = leb (ts b) (ts a)

    -- `SELECT ts, payload FROM … WHERE device_id = ? AND ts >= ? ORDER BY ts DESC LIMIT ?`
    unfoldable pub query : List Row → String → ℕ → ℕ → List Row
    query table device_id since limit =
        take limit (order_by newer (select (wanted device_id since) table))

    abbrev pub item_of : Row → Option (TelemetryItem Value)
    item_of r = option_map (λ val. record { ts = ts r; telemetry = val }) (from_json (payload r))

    unfoldable pub history : List Row → String → HistoryQuery → ℕ → TelemetryHistoryResponse Value
    unfolding query
    history table device_id q now =
        let items = present item_of (query table device_id (since_ts q now) (row_limit q)) in
        record { device_id = device_id; count = length items; items = items }

  abbrev pub row_device : TelemetryRow h → String
  row_device r = r.device_id

  abbrev pub row_ts : TelemetryRow h → ℕ
  row_ts r = r.ts

  abbrev pub row_payload : TelemetryRow h → String
  row_payload r = r.payload

  unfoldable pub api_get_telemetry_history :
      TelemetryService h → String → HistoryQuery → ℕ → TelemetryHistoryResponse Value
  unfolding history
  api_get_telemetry_history s device_id q now =
      history row_device row_ts row_payload s.telemetry device_id q now

  abbrev pub autotune_history :
      List AutotuneRow → String → HistoryQuery → ℕ → TelemetryHistoryResponse Value
  unfolding history
  autotune_history table device_id q now =
      history (λ (r : AutotuneRow). r.device_id) (λ (r : AutotuneRow). r.ts)
        (λ (r : AutotuneRow). r.payload) table device_id q now

  unfoldable pub api_get_autotune_status_history :
      Consumer h → String → HistoryQuery → ℕ → TelemetryHistoryResponse Value
  unfolding autotune_history
  api_get_autotune_status_history c device_id q now =
      autotune_history c.autotune_status device_id q now

  unfoldable pub api_get_autotune_results_history :
      Consumer h → String → HistoryQuery → ℕ → TelemetryHistoryResponse Value
  unfolding autotune_history
  api_get_autotune_results_history c device_id q now =
      autotune_history c.autotune_results device_id q now

  -- The newest value of a device with its time, or that there is none.
  unfoldable pub api_get_latest_telemetry : TelemetryService h → String → Result String (Value × ℕ)
  api_get_latest_telemetry s device_id = elim (lookup device_id s.telemetry_cache) [
    | none ↦ err "No telemetry"
    | some entry ↦ ok entry
  ]

  unfoldable pub api_get_autotune_status_latest : Consumer h → String → Option (Value × ℕ)
  api_get_autotune_status_latest c device_id = lookup device_id c.autotune_status_cache

  unfoldable pub api_get_autotune_results_latest : Consumer h → String → Option (Value × ℕ)
  api_get_autotune_results_latest c device_id = lookup device_id c.autotune_results_cache

  -- One tick of `retention_cleanup_loop`.
  unfoldable pub cleanup : List (TelemetryRow h) → ℕ → ℕ → List (TelemetryRow h)
  cleanup table ttl now = delete_rows (λ (r : TelemetryRow h). ltb r.ts (now - ttl)) table

  -- The entries of the registry; the order of a `HashMap` is not that of this list.
  unfoldable pub api_get_devices : Consumer h → List (DeviceInfo h)
  api_get_devices c = map (λ (entry : String × DeviceInfo h). entry.1) c.device_registry
