-- ===== src/Poller/Loops.antt =====
-- Which loops crates/server/src/device_poller.rs starts, and how long a loop waits between two
-- attempts. What `serde_json` reads from the settings, and the parser of socket addresses, are
-- parameters.
use native.Mathlib.Nat.{pow-suc}
use rust_roast.Prelude.{
  ℕ, zero, suc, ◌*◌, ◌^◌, ◌≤◌, min, String, not, List, [], ◌∷◌, ◌++◌, Option, none, some, Result,
  ok, err, ◌≡◌, arith, if◌then◌else◌, replicate, to_decimal,
}
use rust_roast.Host.{Host}
use rust_roast.Topics as Topics
use rust_roast.Models.DeviceStatus.{active}
use rust_roast.Models.Protocol.{mqtt, web_socket, modbus_tcp}
use rust_roast.Models.DeviceRows.{Device, DeviceConnection, ModbusRegisterMap}
use rust_roast.Models.ConnectionRows.{ModbusTcpConnectionConfig}
use rust_roast.Sessions.Summary.{present}
use rust_roast.Devices.{Db, DeviceWithConnections, list_devices, get_device}
use rust_roast.Devices.Connections.{get_register_map}
use rust_roast.Poller.{default_register_map}

module _ (h : Host) where
  open h use {F64, Value}

  -- A loop with the name of its device and its connection.
  pub data Loop : Type 0 where
    modbus_poller_loop : String → DeviceConnection Value → Loop
    websocket_client_loop : String → DeviceConnection Value → Loop

  abbrev pub loop_of : String → DeviceConnection Value → Option Loop
  loop_of device_id conn = if not conn.enabled then none else elim conn.protocol [
    | modbus_tcp ↦ some (modbus_poller_loop device_id conn)
    | web_socket ↦ some (websocket_client_loop device_id conn)
    | mqtt ↦ none
  ]

  abbrev pub loops_of : Option (DeviceWithConnections h) → List Loop
  loops_of none = []
  loops_of (some dev) = present (loop_of dev.device.device_id) dev.connections

  unfoldable pub start_loops : Db h → List Device → List Loop
  start_loops db [] = []
  start_loops db (device ∷ devices) = loops_of (get_device h db device.id) ++ start_loops db devices

  unfoldable pub start_device_pollers : Db h → List Loop
  unfolding start_loops
  start_device_pollers db = start_loops db (list_devices h db (some active))

  abbrev pub or_default : List (ModbusRegisterMap F64) → List (ModbusRegisterMap F64)
  or_default [] = default_register_map h
  or_default (r ∷ rs) = r ∷ rs

  -- What the Modbus loop reads before its first attempt: the settings and the register map, or that
  -- it ends.
  unfoldable pub prepare :
      (Value → Result String ModbusTcpConnectionConfig)
      → (String → Result String (Unit {0}))
      → Db h
      → DeviceConnection Value
      → Option (ModbusTcpConnectionConfig × List (ModbusRegisterMap F64))
  prepare modbus_config parse_addr db conn = elim (modbus_config conn.config) [
    | err e ↦ none
    | ok config ↦
        elim (parse_addr (Topics.◌++◌ config.host (Topics.◌++◌ ":" (to_decimal config.port)))) [
          | err e ↦ none
          | ok addr ↦ some (config, or_default (get_register_map h db conn.device_id))
        ]
  ]

-- An attempt to connect fails, or gives a connection that ends at some time.
pub data Attempt : Type 0 where
  failed ended : Attempt

-- The seconds that the loop waits after an attempt, and its backoff then.
unfoldable pub retry : ℕ → Attempt → ℕ × ℕ
retry backoff failed = (backoff, min (backoff * 2) 30)
retry backoff ended = (1, min (1 * 2) 30)

-- The backoff after the attempts, the newest first.
unfoldable pub backoff_after : List Attempt → ℕ
unfolding retry
backoff_after [] = 1
backoff_after (a ∷ history) = (retry (backoff_after history) a).1

backoff_bounds :
    (history : List Attempt) → (1 ≤ backoff_after history) × (backoff_after history ≤ 30)
unfolding backoff_after retry
backoff_bounds [] = omega arith
backoff_bounds (failed ∷ history) = omega (arith, backoff_bounds history)
backoff_bounds (ended ∷ history) = omega arith

backoff_doubles :
    (k : ℕ) (history : List Attempt)
    → backoff_after (replicate k failed ++ ended ∷ history) ≡ min (2 ^ suc k) 30
unfolding backoff_after retry
backoff_doubles zero history = omega (arith, pow-suc 2 0)
backoff_doubles (suc k) history = omega (arith, backoff_doubles k history, pow-suc 2 (suc k))

-- After any history of attempts, a loop waits at least one second and at most thirty before the next
-- one; and after a connection and `k` failures in a row, the next failure is followed by 2^(k+1)
-- seconds, up to thirty.
pub retry-waits :
    (history : List Attempt) (a : Attempt) (k : ℕ)
    → (1 ≤ (retry (backoff_after history) a).0)
      × ((retry (backoff_after history) a).0 ≤ 30)
      × ((retry (backoff_after (replicate k failed ++ ended ∷ history)) failed).0
          ≡ min (2 ^ suc k) 30)
unfolding retry
retry-waits history failed k =
    let b : (1 ≤ backoff_after history) × (backoff_after history ≤ 30) = backoff_bounds history in
    (b.0, b.1, backoff_doubles k history)
retry-waits history ended k = (omega arith, omega arith, backoff_doubles k history)
