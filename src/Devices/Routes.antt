-- ===== src/Devices/Routes.antt =====
-- The handlers of crates/server/src/routes/devices.rs. A handler answers with a status code and a
-- value, or with an `AppError`; the new UUIDs and the clock are arguments.
use rust_roast.Prelude.{ℕ, String, Bool, true, false, List, Option, none, some, Result, ok, err}
use rust_roast.Host.{Host}
use rust_roast.Topics.{◌++◌}
use rust_roast.Models.DeviceStatus.{pending, from_str}
use rust_roast.Models.DeviceRows.{
  Device, CreateDeviceRequest, UpdateDeviceRequest, DeviceProfile, CreateDeviceProfileRequest,
  UpdateDeviceProfileRequest, DeviceConnection, CreateConnectionRequest, UpdateConnectionRequest,
  CreateRegisterMapEntry, ModbusRegisterMap,
}
use rust_roast.Devices as Service
use rust_roast.Devices.Profiles as Profiles
use rust_roast.Devices.Connections as Connections
use rust_roast.Devices.{Db, DeviceWithConnections}

pub record AppError : Type 0 where
  pub status : ℕ
  pub message : String

abbrev pub not_found : String → AppError
not_found entity = record { status = 404; message = entity ++ " not found" }

abbrev pub internal : String → AppError
internal msg = record { status = 500; message = msg }

abbrev pub Reply {ℓ} : Type ℓ → Type ℓ
Reply A = Result AppError (ℕ × A)

-- `.ok_or_else(|| AppError::not_found(entity))?` and `Ok(Json(…))`
abbrev pub found {ℓ} : {A : Type ℓ} → String → Option A → Reply A
found entity none = err (not_found entity)
found entity (some a) = ok (200, a)

-- `?` of an error of the service, and the answer 201 otherwise.
abbrev pub created {ℓ} : {A : Type ℓ} → Result String A → Reply A
created (err e) = err (internal e)
created (ok a) = ok (201, a)

abbrev pub found_or_failed {ℓ} : {A : Type ℓ} → String → Result String (Option A) → Reply A
found_or_failed entity (err e) = err (internal e)
found_or_failed entity (ok found_row) = found entity found_row

abbrev pub deleted_or_missing : String → Bool → Reply (Unit {0})
deleted_or_missing entity true = ok (204, tt)
deleted_or_missing entity false = err (not_found entity)

module _ (h : Host) where
  open h use {F64, Value, get, as_str}

  -- A filter that does not parse is no filter.
  unfoldable pub list_devices : Db h → Option String → Reply (List Device)
  list_devices db none = ok (200, Service.list_devices h db none)
  list_devices db (some text) = elim (from_str text) [
    | ok status ↦ ok (200, Service.list_devices h db (some status))
    | err e ↦ ok (200, Service.list_devices h db none)
  ]

  unfoldable pub list_discovered_devices : Db h → Reply (List Device)
  list_discovered_devices db = ok (200, Service.list_devices h db (some pending))

  unfoldable pub get_device : Db h → String → Reply (DeviceWithConnections h)
  get_device db id = found "Device" (Service.get_device h db id)

  unfoldable pub create_device : Db h → CreateDeviceRequest → String → ℕ → Reply Device × Db h
  create_device db req id now =
      let (answer, db') = Service.create_device h db req id now in (created answer, db')

  unfoldable pub update_device : Db h → String → UpdateDeviceRequest → ℕ → Reply Device × Db h
  update_device db id req now =
      let (answer, db') = Service.update_device h db id req now in
      (found_or_failed "Device" answer, db')

  unfoldable pub delete_device : Db h → String → Reply (Unit {0}) × Db h
  delete_device db id =
      let (deleted, db') = Service.delete_device h db id in
      (deleted_or_missing "Device" deleted, db')

  unfoldable pub list_device_profiles : Db h → Reply (List (DeviceProfile F64))
  list_device_profiles db = ok (200, Profiles.list_profiles h db)

  unfoldable pub get_device_profile : Db h → String → Reply (DeviceProfile F64)
  get_device_profile db id = found "Device profile" (Profiles.get_profile h db id)

  unfoldable pub create_device_profile :
      Db h → CreateDeviceProfileRequest F64 → String → ℕ → Reply (DeviceProfile F64) × Db h
  create_device_profile db req id now =
      let (answer, db') = Profiles.create_profile h db req id now in (created answer, db')

  unfoldable pub update_device_profile :
      Db h → String → UpdateDeviceProfileRequest F64 → ℕ → Reply (DeviceProfile F64) × Db h
  update_device_profile db id req now =
      let (profile, db') = Profiles.update_profile h db id req now in
      (found "Device profile" profile, db')

  unfoldable pub delete_device_profile : Db h → String → Reply (Unit {0}) × Db h
  delete_device_profile db id =
      let (deleted, db') = Profiles.delete_profile h db id in
      (deleted_or_missing "Device profile" deleted, db')

  unfoldable pub add_connection :
      Db h
      → String
      → CreateConnectionRequest Value
      → String
      → ℕ
      → Reply (DeviceConnection Value) × Db h
  add_connection db device_id req id now = elim (Service.get_device h db device_id) [
    | none ↦ (err (not_found "Device"), db)
    | some d ↦
        let (answer, db') = Connections.add_connection h db device_id req id now in
        (created answer, db')
  ]

  -- The id of the device in the path is not used.
  unfoldable pub update_connection :
      Db h
      → String
      → String
      → UpdateConnectionRequest Value
      → ℕ
      → Reply (DeviceConnection Value) × Db h
  update_connection db device_id conn_id req now =
      let (connection, db') = Connections.update_connection h db conn_id req now in
      (found "Connection" connection, db')

  unfoldable pub remove_connection : Db h → String → String → Reply (Unit {0}) × Db h
  remove_connection db device_id conn_id =
      let (deleted, db') = Connections.remove_connection h db conn_id in
      (deleted_or_missing "Connection" deleted, db')

  unfoldable pub get_register_map : Db h → String → Reply (List (ModbusRegisterMap F64))
  get_register_map db device_id = elim (Service.get_device h db device_id) [
    | none ↦ err (not_found "Device")
    | some d ↦ ok (200, Connections.get_register_map h db device_id)
  ]

  unfoldable pub set_register_map :
      Db h
      → String
      → List (CreateRegisterMapEntry F64 × String)
      → Reply (List (ModbusRegisterMap F64)) × Db h
  set_register_map db device_id registers = elim (Service.get_device h db device_id) [
    | none ↦ (err (not_found "Device"), db)
    | some d ↦
        let (answer, db') = Connections.set_register_map h db device_id registers in
        elim answer [
          | err e ↦ (err (internal e), db')
          | ok rows ↦ (ok (200, Connections.get_register_map h db' device_id), db')
        ]
  ]
