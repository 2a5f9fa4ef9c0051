-- ===== src/History/Retention.antt =====
-- What the deletion of old telemetry leaves to be read.
use rust_roast.Prelude.{ℕ, ◌≤◌, ◌-◌, String, List, [], ◌∷◌, ◌≡◌, refl, arith, select}
use rust_roast.Host.{Host}
use rust_roast.Tables.{keep_or}
use rust_roast.Telemetry.{TelemetryRow, TelemetryService}
use rust_roast.History.{
  HistoryQuery, since_ts, wanted, query, history, row_device, row_ts, row_payload,
  api_get_telemetry_history, cleanup,
}

module _ (h : Host) where
  -- Rows that are deleted are older than those that are asked for.
  select-cleanup :
      (table : List (TelemetryRow h)) (device_id : String) (since ttl now : ℕ)
      → now - ttl ≤ since
      → select
          (wanted h (row_device h) (row_ts h) (row_payload h) device_id since)
          (cleanup h table ttl now)
        ≡ select (wanted h (row_device h) (row_ts h) (row_payload h) device_id since) table
  unfolding cleanup
  select-cleanup [] device_id since ttl now le = refl
  select-cleanup (r ∷ table) device_id since ttl now le =
      ground (arith, select-cleanup table device_id since ttl now le)

  -- The retention loses no history that is asked for within its time: after a tick at `before`, a
  -- request at `now` or later for no more seconds than the rows are kept gets the same answer as
  -- without the tick.
  pub cleanup-history :
      (s : TelemetryService h) (device_id : String) (q : HistoryQuery) (ttl before now : ℕ)
      → before ≤ now
      → keep_or q.since_secs 3600 ≤ ttl
      → api_get_telemetry_history h
          (record s { telemetry = cleanup h s.telemetry ttl before })
          device_id
          q
          now
        ≡ api_get_telemetry_history h s device_id q now
  unfolding api_get_telemetry_history history query
  cleanup-history s device_id q ttl before now le kept =
      rw (select-cleanup s.telemetry device_id (since_ts q now) ttl before (omega arith)) refl
