-- ===== src/Devices/Requests.antt =====
-- The mutating routes of crates/server/src/routes/devices.rs as requests to one database.
use rust_roast.Prelude.{ℕ, String, List, [], ◌∷◌, Result, ok, err}
use rust_roast.Host.{Host}
use rust_roast.Models.DeviceRows.{
  CreateDeviceRequest, UpdateDeviceRequest, CreateDeviceProfileRequest, UpdateDeviceProfileRequest,
  CreateConnectionRequest, UpdateConnectionRequest, CreateRegisterMapEntry,
}
use rust_roast.Devices.{Db}
use rust_roast.Devices.Routes as Routes
use rust_roast.Devices.Routes.{AppError, Reply}

-- The answer without its value.
abbrev pub code_of {ℓ} : {A : Type ℓ} → Reply A → Result AppError ℕ
code_of (err e) = err e
code_of (ok (status, a)) = ok status

abbrev pub answered {ℓ κ} : {A : Type ℓ} {D : Type κ} → Reply A × D → Result AppError ℕ × D
answered (reply, db) = (code_of reply, db)

module _ (h : Host) where
  open h use {F64, Value}

  -- Each with the new UUID and the time that it is handled with.
  pub data Request : Type 0 where
    post_device : CreateDeviceRequest → String → ℕ → Request
    put_device : String → UpdateDeviceRequest → ℕ → Request
    delete_device : String → Request
    post_profile : CreateDeviceProfileRequest F64 → String → ℕ → Request
    put_profile : String → UpdateDeviceProfileRequest F64 → ℕ → Request
    delete_profile : String → Request
    post_connection : String → CreateConnectionRequest Value → String → ℕ → Request
    put_connection : String → String → UpdateConnectionRequest Value → ℕ → Request
    delete_connection : String → String → Request
    put_register_map : String → List (CreateRegisterMapEntry F64 × String) → Request

  unfoldable pub handle : Db h → Request → Result AppError ℕ × Db h
  handle db (post_device req id now) = answered (Routes.create_device h db req id now)
  handle db (put_device id req now) = answered (Routes.update_device h db id req now)
  handle db (delete_device id) = answered (Routes.delete_device h db id)
  handle db (post_profile req id now) = answered (Routes.create_device_profile h db req id now)
  handle db (put_profile id req now) = answered (Routes.update_device_profile h db id req now)
  handle db (delete_profile id) = answered (Routes.delete_device_profile h db id)
  handle db (post_connection device_id req id now) =
      answered (Routes.add_connection h db device_id req id now)
  handle db (put_connection device_id id req now) =
      answered (Routes.update_connection h db device_id id req now)
  handle db (delete_connection device_id id) = answered (Routes.remove_connection h db device_id id)
  handle db (put_register_map device_id entries) =
      answered (Routes.set_register_map h db device_id entries)

  -- The database after the requests, the newest request first.
  unfoldable pub handled : Db h → List Request → Db h
  unfolding handle
  handled db [] = db
  handled db (req ∷ history) = (handle (handled db history) req).1
