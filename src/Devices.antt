-- ===== src/Devices.antt =====
-- `DeviceService` of crates/server/src/services.rs: the devices, their profiles, their connections
-- and their register maps. A table is a list of rows; the keys of
-- crates/server/migrations/003_device_configuration.sql are enforced by the statements. A new UUID
-- and `Utc::now()` are arguments, and an error of the database is the text of its kind. A JSON
-- configuration is kept as the value that is written as text and read back.
pub mod Profiles
pub mod Connections
pub mod Routes
pub mod Requests
pub mod Integrity
pub mod ConnectionTest
mod Examples
use rust_roast.Prelude.{
  ℕ, String, Bool, true, false, ◌&&◌, not, List, [], ◌∷◌, ◌++◌, Option, none, some, Result, ok, err,
  str_eq, if◌then◌else◌, select, find, any, leb, leb_ℤ, first,
}
use rust_roast.Host.{Host}
use rust_roast.Models.DeviceStatus.{DeviceStatus, pending, to_string}
use rust_roast.Models.DeviceRows.{
  Device, CreateDeviceRequest, UpdateDeviceRequest, DeviceProfile, DeviceConnection,
  ModbusRegisterMap,
}
use rust_roast.Tables.{is_none, keep_or, or_else, update_rows, delete_rows, order_by, keyed}

abbrev pub device_key : Device → String
device_key d = d.id

abbrev pub device_name : Device → String
device_name d = d.device_id

abbrev pub unique_failed : String
unique_failed = "UNIQUE constraint failed"

abbrev pub foreign_key_failed : String
foreign_key_failed = "FOREIGN KEY constraint failed"

-- `ORDER BY created_at DESC`
abbrev pub newer : Device → Device → Bool
newer a b = leb b.created_at a.created_at

abbrev pub no_fields : UpdateDeviceRequest → Bool
no_fields req =
    is_none req.name
    && (is_none req.profile_id
        && (is_none req.status && (is_none req.description && is_none req.location)))

abbrev pub updated : UpdateDeviceRequest → ℕ → Device → Device
updated req now d = record d {
  updated_at = now;
  name = keep_or req.name d.name;
  profile_id = or_else req.profile_id d.profile_id;
  status = keep_or req.status d.status;
  description = or_else req.description d.description;
  location = or_else req.location d.location;
}

abbrev pub discovered : CreateDeviceRequest → String → ℕ → Device
discovered req id now = record {
  id = id;
  name = req.name;
  device_id = req.device_id;
  profile_id = req.profile_id;
  status = pending;
  description = req.description;
  location = req.location;
  created_at = now;
  updated_at = now;
  last_seen_at = none;
}

abbrev pub with_status : DeviceStatus → ℕ → Device → Device
with_status status now d = record d { status = status; updated_at = now }

abbrev pub seen : ℕ → Device → Device
seen now d = record d { last_seen_at = some now }

module _ (h : Host) where
  open h use {F64, Value}

  pub record Db : Type 0 where
    pub devices : List Device
    pub device_profiles : List (DeviceProfile F64)
    pub device_connections : List (DeviceConnection Value)
    pub modbus_register_maps : List (ModbusRegisterMap F64)

  pub record DeviceWithConnections : Type 0 where
    pub device : Device
    pub connections : List (DeviceConnection Value)

  abbrev pub profile_key : DeviceProfile F64 → String
  profile_key p = p.id

  abbrev pub connection_key : DeviceConnection Value → String
  connection_key c = c.id

  abbrev pub of_device : String → DeviceConnection Value → Bool
  of_device id c = str_eq c.device_id id

  abbrev pub register_of : String → ModbusRegisterMap F64 → Bool
  register_of id r = str_eq r.device_id id

  -- `ORDER BY priority DESC`
  abbrev pub preferred : DeviceConnection Value → DeviceConnection Value → Bool
  preferred a b = leb_ℤ b.priority a.priority

  -- A foreign key that may be NULL.
  abbrev pub profile_known : Db → Option String → Bool
  profile_known db none = true
  profile_known db (some id) = any (keyed profile_key id) db.device_profiles

  unfoldable pub list_devices : Db → Option DeviceStatus → List Device
  list_devices db none = order_by newer db.devices
  list_devices db (some status) =
      order_by newer (select (λ d. str_eq (to_string d.status) (to_string status)) db.devices)

  abbrev pub with_connections : Db → Option Device → Option DeviceWithConnections
  with_connections db none = none
  with_connections db (some d) = some (record {
    device = d;
    connections = order_by preferred (select (of_device d.id) db.device_connections);
  })

  unfoldable pub get_device : Db → String → Option DeviceWithConnections
  get_device db id = with_connections db (find (keyed device_key id) db.devices)

  unfoldable pub get_device_by_device_id : Db → String → Option DeviceWithConnections
  get_device_by_device_id db device_id =
      with_connections db (find (keyed device_name device_id) db.devices)

  unfoldable pub create_device : Db → CreateDeviceRequest → String → ℕ → Result String Device × Db
  create_device db req id now =
      if any (keyed device_key id) db.devices
      then (err unique_failed, db)
      else if any (keyed device_name req.device_id) db.devices
      then (err unique_failed, db)
      else if not (profile_known db req.profile_id)
      then (err foreign_key_failed, db)
      else (
        ok (discovered req id now),
        record db { devices = db.devices ++ discovered req id now ∷ [] },
      )

  -- `UPDATE devices SET … WHERE id = ? RETURNING *`; the foreign key is tested on a row that is
  -- updated.
  unfoldable pub update_device :
      Db → String → UpdateDeviceRequest → ℕ → Result String (Option Device) × Db
  update_device db id req now = elim (find (keyed device_key id) db.devices) [
    | none ↦ (ok none, db)
    | some d ↦
        if no_fields req
        then (ok (some d), db)
        else if not (profile_known db req.profile_id)
        then (err foreign_key_failed, db)
        else (
          ok (some (updated req now d)),
          record db { devices = update_rows (keyed device_key id) (updated req now) db.devices },
        )
  ]

  -- The connections and the register map of the device are deleted with it.
  unfoldable pub delete_device : Db → String → Bool × Db
  delete_device db id = (
    any (keyed device_key id) db.devices,
    record db {
      devices = delete_rows (keyed device_key id) db.devices;
      device_connections = delete_rows (of_device id) db.device_connections;
      modbus_register_maps = delete_rows (register_of id) db.modbus_register_maps;
    },
  )

  abbrev pub update_devices : Db → (Device → Bool) → (Device → Device) → Db
  update_devices db p f = record db { devices = update_rows p f db.devices }

  abbrev pub map_option : (Device → Device) → Option Device → Option Device
  map_option f none = none
  map_option f (some d) = some (f d)

  unfoldable pub update_device_status : Db → String → DeviceStatus → ℕ → Option Device × Db
  update_device_status db id status now = (
    map_option (with_status status now) (find (keyed device_key id) db.devices),
    update_devices db (keyed device_key id) (with_status status now),
  )

  unfoldable pub update_last_seen : Db → String → ℕ → Db
  update_last_seen db device_id now = update_devices db (keyed device_name device_id) (seen now)
