-- ===== src/History/Examples.antt =====
-- The history of a device at a concrete request, with the sample host.
use rust_roast.Prelude.{ℕ, [], ◌∷◌, none, some, ◌≡◌, arith}
use rust_roast.Sample.{sample}
use rust_roast.Telemetry.{TelemetryRow, TelemetryService}
use rust_roast.History.{HistoryQuery, api_get_telemetry_history, cleanup}
use rust_roast.History.Pages.{IsPage, api_get_telemetry_history-IsPage}
use rust_roast.History.Retention.{cleanup-history}

abbrev row : ℕ → TelemetryRow sample
row ts = record { device_id = "esp32-001"; ts = ts; payload = "{}" }

abbrev service : TelemetryService sample
service = record {
  telemetry_last_seen = [];
  telemetry_cache = [];
  broadcast = [];
  telemetry = row 100 ∷ row 5000 ∷ row 6000 ∷ [];
  roast_sessions = [];
  session_telemetry = [];
  last_seen_debounce = [];
  last_seen_updates = [];
}

abbrev request : HistoryQuery
request = record { since_secs = none; limit = some 2 }

api_get_telemetry_history-IsPage_example :
    IsPage sample
      (λ (r : TelemetryRow sample). r.device_id)
      (λ (r : TelemetryRow sample). r.ts)
      (λ (r : TelemetryRow sample). r.payload)
      service.telemetry
      "esp32-001"
      request
      8000
      (api_get_telemetry_history sample service "esp32-001" request 8000)
api_get_telemetry_history-IsPage_example =
    api_get_telemetry_history-IsPage sample service "esp32-001" request 8000

cleanup-history_example :
    api_get_telemetry_history sample
      (record service { telemetry = cleanup sample service.telemetry 7200 7900 })
      "esp32-001"
      request
      8000
    ≡ api_get_telemetry_history sample service "esp32-001" request 8000
cleanup-history_example =
    cleanup-history sample service "esp32-001" request 7200 7900 8000 (omega arith) (omega arith)
