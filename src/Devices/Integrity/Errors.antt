-- ===== src/Devices/Integrity/Errors.antt =====
-- What a request that fails leaves behind.
use rust_roast.Prelude.{
  ℕ, String, true, false, List, [], ◌∷◌, Result, err, ◌≡◌, refl, subst, arith, str_eq, eq_iff,
  Bool-cases, Option-cases, inl, inr, All, find, any,
}
use rust_roast.Host.{Host}
use rust_roast.Models.DeviceRows.{
  Device, CreateDeviceRequest, UpdateDeviceRequest, DeviceProfile, CreateDeviceProfileRequest,
  UpdateDeviceProfileRequest, CreateConnectionRequest, UpdateConnectionRequest,
  CreateRegisterMapEntry,
}
use rust_roast.Tables.{keyed, delete_rows-none, update_rows-none, any-find}
use rust_roast.RegisterMaps.{insert_registers, row_of, has_key}
use rust_roast.RegisterMaps as RegisterMaps
use rust_roast.Devices.{
  Db, device_key, device_name, profile_key, connection_key, profile_known, of_device, register_of,
  create_device, discovered, update_device, updated, no_fields, update_devices, update_last_seen,
  seen, update_device_status, with_status,
}
use rust_roast.Devices.Profiles as Profiles
use rust_roast.Devices.Connections as Connections
use rust_roast.Devices.Integrity.{
  IsLinked, Refers, known_profile, connection_device, register_device,
}
use rust_roast.Devices as Service
use rust_roast.Devices.Routes as Routes
use rust_roast.Devices.Routes.{AppError}
use rust_roast.Devices.Requests as Requests
use rust_roast.Devices.Requests.{
  Request, post_device, put_device, post_profile, put_profile, delete_profile, post_connection,
  put_connection, delete_connection, put_register_map, handle, handled,
}

-- No row refers to a key that is not there.
pub orphan :
    {A : Type 0} {B : Type 0} (ref : A → String) (key : B → String) (k : String) (ys : List B)
    (xs : List A)
    → any (keyed key k) ys ≡ false
    → Refers ref key ys xs
    → any (λ x. str_eq (ref x) k) xs ≡ false
orphan ref key k ys [] e r = refl
orphan ref key k ys (x ∷ xs) e r =
    ground (arith, orphan ref key k ys xs e r.1, eq_iff (ref x) k, r.0)

module _ (h : Host) where
  open h use {F64, Value}

  -- The answer of a step, when it is an error, comes with the database as it was.
  abbrev Keeps : {A : Type 0} → Db h → Result AppError A × Db h → Type 0
  Keeps db r = (e : AppError) → r.0 ≡ err e → r.1 ≡ db

  delete_device-Keeps :
      (db : Db h) (id : String) → IsLinked h db → Keeps db (handle h db (Requests.delete_device id))
  unfolding handle Routes.delete_device Service.delete_device
  delete_device-Keeps db id v e k = elim (Bool-cases (any (keyed device_key id) db.devices)) [
    | inl f ↦ ground arith
    | inr f ↦ rw (delete_rows-none (keyed device_key id) db.devices f) (
        rw
          (delete_rows-none (of_device h id) db.device_connections (
            orphan (connection_device h) device_key id db.devices db.device_connections f
              v.connections))
          (rw
            (delete_rows-none (register_of h id) db.modbus_register_maps (
              orphan (register_device h) device_key id db.devices db.modbus_register_maps f
                v.registers))
            refl))
  ]

  create_device-Keeps :
      (db : Db h) (req : CreateDeviceRequest) (id : String) (now : ℕ)
      → Keeps db (handle h db (post_device req id now))
  unfolding handle Routes.create_device Service.create_device
  create_device-Keeps db req id now e k = ground arith

  update_device-Keeps :
      (db : Db h) (id : String) (req : UpdateDeviceRequest) (now : ℕ)
      → Keeps db (handle h db (put_device id req now))
  unfolding handle Routes.update_device Service.update_device
  update_device-Keeps db id req now e k = ground arith

  create_profile-Keeps :
      (db : Db h) (req : CreateDeviceProfileRequest F64) (id : String) (now : ℕ)
      → Keeps db (handle h db (post_profile req id now))
  unfolding handle Routes.create_device_profile Profiles.create_profile
  create_profile-Keeps db req id now e k = ground arith

  update_profile-Keeps :
      (db : Db h) (id : String) (req : UpdateDeviceProfileRequest F64) (now : ℕ)
      → Keeps db (handle h db (put_profile id req now))
  unfolding handle Routes.update_device_profile Profiles.update_profile
  update_profile-Keeps db id req now e k =
      elim (Option-cases (find (keyed (profile_key h) id) db.device_profiles)) [
        | inr (p, f) ↦ ground arith
        | inl f ↦
            rw
              (update_rows-none (keyed (profile_key h) id) (Profiles.merged h req now)
                db.device_profiles (any-find (keyed (profile_key h) id) db.device_profiles f))
              refl
      ]

  -- No device has a profile that is not there.
  no_device :
      (id : String) (profiles : List (DeviceProfile F64)) (devices : List Device)
      → any (keyed (profile_key h) id) profiles ≡ false
      → All (λ (d : Device). known_profile h profiles d ≡ true) devices
      → any (Profiles.has_profile id) devices ≡ false
  no_device id profiles [] e a = refl
  no_device id profiles (d ∷ devices) e a = elim (Option-cases d.profile_id) [
    | inl f ↦ rw f (no_device id profiles devices e a.1)
    | inr (p, f) ↦ rw f (
        ground (
          arith,
          no_device id profiles devices e a.1,
          eq_iff p id,
          subst (λ o. known_profile h profiles (record d { profile_id = o }) ≡ true) f a.0,
        ))
  ]

  delete_profile-Keeps :
      (db : Db h) (id : String)
      → IsLinked h db
      → Keeps db (handle h db (Requests.delete_profile id))
  unfolding handle Routes.delete_device_profile Profiles.delete_profile
  delete_profile-Keeps db id v e k =
      elim (Bool-cases (any (keyed (profile_key h) id) db.device_profiles)) [
        | inl f ↦ ground arith
        | inr f ↦ rw (delete_rows-none (keyed (profile_key h) id) db.device_profiles f) (
            rw
              (update_rows-none (Profiles.has_profile id) Profiles.without_profile db.devices
                (no_device id db.device_profiles db.devices f v.profiles))
              refl)
      ]

  add_connection-Keeps :
      (db : Db h) (device_id : String) (req : CreateConnectionRequest Value) (id : String) (now : ℕ)
      → Keeps db (handle h db (post_connection device_id req id now))
  unfolding handle Routes.add_connection Connections.add_connection
  add_connection-Keeps db device_id req id now e k = ground arith

  update_connection-Keeps :
      (db : Db h) (device_id id : String) (req : UpdateConnectionRequest Value) (now : ℕ)
      → Keeps db (handle h db (put_connection device_id id req now))
  unfolding handle Routes.update_connection Connections.update_connection
  update_connection-Keeps db device_id id req now e k = ground arith

  remove_connection-Keeps :
      (db : Db h) (device_id id : String)
      → Keeps db (handle h db (Requests.delete_connection device_id id))
  unfolding handle Routes.remove_connection Connections.remove_connection
  remove_connection-Keeps db device_id id e k =
      elim (Bool-cases (any (keyed (connection_key h) id) db.device_connections)) [
        | inl f ↦ ground arith
        | inr f ↦ rw (delete_rows-none (keyed (connection_key h) id) db.device_connections f) refl
      ]

  set_register_map-Keeps :
      (db : Db h) (device_id : String) (entries : List (CreateRegisterMapEntry F64 × String))
      → Keeps db (handle h db (put_register_map device_id entries))
  unfolding handle Routes.set_register_map Connections.set_register_map
      RegisterMaps.set_register_map
  set_register_map-Keeps db device_id entries e k = ground arith

  -- A request to linked tables that is answered with an error, a missing row or a failure of the
  -- database alike, leaves the tables as they were.
  pub handle-error_unchanged :
      (db : Db h) (req : Request h) (e : AppError)
      → IsLinked h db
      → (handle h db req).0 ≡ err e
      → (handle h db req).1 ≡ db
  handle-error_unchanged db (post_device req id now) e v k = create_device-Keeps db req id now e k
  handle-error_unchanged db (put_device id req now) e v k = update_device-Keeps db id req now e k
  handle-error_unchanged db (Requests.delete_device id) e v k = delete_device-Keeps db id v e k
  handle-error_unchanged db (post_profile req id now) e v k = create_profile-Keeps db req id now e k
  handle-error_unchanged db (put_profile id req now) e v k = update_profile-Keeps db id req now e k
  handle-error_unchanged db (Requests.delete_profile id) e v k = delete_profile-Keeps db id v e k
  handle-error_unchanged db (post_connection device_id req id now) e v k =
      add_connection-Keeps db device_id req id now e k
  handle-error_unchanged db (put_connection device_id id req now) e v k =
      update_connection-Keeps db device_id id req now e k
  handle-error_unchanged db (Requests.delete_connection device_id id) e v k =
      remove_connection-Keeps db device_id id e k
  handle-error_unchanged db (put_register_map device_id entries) e v k =
      set_register_map-Keeps db device_id entries e k
