-- ===== src/Telemetry/Debounce.antt =====
-- The database is not written for every message of a device.
use rust_roast.Prelude.{
  ℕ, ◌+◌, ◌≤◌, String, true, List, [], ◌∷◌, Option, some, ◌≡◌, refl, arith, subst, ◌∙◌, Dict,
  lookup, lookup-insert, Bool-cases, inl, inr,
}
use rust_roast.Host.{Host}
use rust_roast.Models.DeviceStatus.{DeviceStatus}
use rust_roast.Telemetry.{TelemetryService, Received, process_telemetry, after, is_due}

-- Each update comes ten seconds or more after the one before it of the same device, newest first.
abbrev pub Spaced : Dict ℕ → Type 0
Spaced [] = Unit
Spaced ((d, t) ∷ older) = ((t' : ℕ) → lookup d older ≡ some t' → t' + 10000 ≤ t) × Spaced older

-- The debounce map has the newest update of each device.
pub record IsDebounced (h : Host) (s : TelemetryService h) : Type 0 where
  pub newest : (d : String) → lookup d s.last_seen_debounce ≡ lookup d s.last_seen_updates
  pub spaced : Spaced s.last_seen_updates

due-late : (t' instant : ℕ) → is_due (some t') instant ≡ true → t' + 10000 ≤ instant
due-late t' instant e = ground arith

module _ (h : Host) where
  open h use {Value}

  process_telemetry-IsDebounced :
      (s : TelemetryService h) (device_id : String) (payload : Value) (status : Option DeviceStatus)
      (point_id : String) (now instant : ℕ)
      → IsDebounced h s
      → IsDebounced h (process_telemetry h s device_id payload status point_id now instant)
  unfolding process_telemetry
  process_telemetry-IsDebounced s device_id payload status point_id now instant v =
      elim (Bool-cases (is_due (lookup device_id s.last_seen_debounce) instant)) [
        | inr e ↦ record { newest = λ d. rw e (v.newest d); spaced = rw e v.spaced }
        | inl e ↦ record {
          newest = λ d.
              rw (e, lookup-insert device_id d instant s.last_seen_debounce, v.newest d)
                (unfold lookup in refl);
          spaced = rw e (
            λ t' found.
                due-late t' instant
                  (subst (λ o. is_due o instant ≡ true) (v.newest device_id ∙ found) e),
            v.spaced,
          );
        }
      ]

  -- From a state in which the debounce map has the newest last-seen update of each device and the
  -- updates of a device are ten seconds or more apart, the start of the server among them, every
  -- history of telemetry messages, of any devices and at any instants, leads to such a state.
  pub telemetry-IsDebounced :
      (s : TelemetryService h) (history : List (Received h))
      → IsDebounced h s
      → IsDebounced h (after h s history)
  unfolding after
  telemetry-IsDebounced s [] v = v
  telemetry-IsDebounced s (m ∷ history) v =
      process_telemetry-IsDebounced (after h s history) m.device_id m.payload m.device_status
        m.point_id m.now m.instant (telemetry-IsDebounced s history v)
