-- ===== src/Devices/Integrity/Histories.antt =====
-- The device tables over every history of requests.
use rust_roast.Prelude.{ℕ, String, List, [], ◌∷◌, Option-cases, Result-cases, inl, inr}
use rust_roast.Host.{Host}
use rust_roast.Models.DeviceRows.{CreateConnectionRequest, CreateRegisterMapEntry}
use rust_roast.Devices.{
  Db, device_key, device_name, profile_key, connection_key, profile_known, of_device, register_of,
  create_device, discovered, update_device, updated, no_fields, update_devices, update_last_seen,
  seen, update_device_status, with_status,
}
use rust_roast.Devices.Connections as Connections
use rust_roast.Devices.Integrity.{IsLinked, delete_device-IsLinked}
use rust_roast.Devices.Integrity.Rows as Rows
use rust_roast.Devices.Integrity.References as References
use rust_roast.Devices as Service
use rust_roast.Devices.Routes as Routes
use rust_roast.Devices.Requests.{
  Request, post_device, put_device, delete_device, post_profile, put_profile, delete_profile,
  post_connection, put_connection, delete_connection, put_register_map, handle, handled,
}

module _ (h : Host) where
  open h use {F64, Value}

  -- The guard of the routes below a device.
  add_connection-IsLinked :
      (db : Db h) (device_id : String) (req : CreateConnectionRequest Value) (id : String) (now : ℕ)
      → IsLinked h db
      → IsLinked h (Routes.add_connection h db device_id req id now).1
  unfolding Routes.add_connection
  add_connection-IsLinked db device_id req id now v =
      elim (Option-cases (Service.get_device h db device_id)) [
        | inl e ↦ rw (Routes.add_connection, e) v
        | inr (d, e) ↦
            rw (Routes.add_connection, e)
              (References.add_connection-IsLinked h db device_id req id now v)
      ]

  set_register_map-IsLinked :
      (db : Db h) (device_id : String) (entries : List (CreateRegisterMapEntry F64 × String))
      → IsLinked h db
      → IsLinked h (Routes.set_register_map h db device_id entries).1
  unfolding Routes.set_register_map
  set_register_map-IsLinked db device_id entries v =
      let w : IsLinked h (Connections.set_register_map h db device_id entries).1 =
        References.set_register_map-IsLinked h db device_id entries v in
      elim (Option-cases (Service.get_device h db device_id)) [
        | inl e ↦ rw (Routes.set_register_map, e) v
        | inr (d, e) ↦ elim (Result-cases (Connections.set_register_map h db device_id entries).0) [
          | inl (m, f) ↦ rw (Routes.set_register_map, e, f) w
          | inr (rows, f) ↦ rw (Routes.set_register_map, e, f) w
        ]
      ]

  handle-IsLinked : (db : Db h) (req : Request h) → IsLinked h db → IsLinked h (handle h db req).1
  unfolding handle Routes.create_device Routes.update_device Routes.delete_device
      Routes.create_device_profile Routes.update_device_profile Routes.delete_device_profile
      Routes.update_connection Routes.remove_connection
  handle-IsLinked db (post_device req id now) v = Rows.create_device-IsLinked h db req id now v
  handle-IsLinked db (put_device id req now) v = Rows.update_device-IsLinked h db id req now v
  handle-IsLinked db (delete_device id) v = delete_device-IsLinked h db id v
  handle-IsLinked db (post_profile req id now) v = Rows.create_profile-IsLinked h db req id now v
  handle-IsLinked db (put_profile id req now) v = Rows.update_profile-IsLinked h db id req now v
  handle-IsLinked db (delete_profile id) v = References.delete_profile-IsLinked h db id v
  handle-IsLinked db (post_connection device_id req id now) v =
      add_connection-IsLinked db device_id req id now v
  handle-IsLinked db (put_connection device_id id req now) v =
      References.update_connection-IsLinked h db id req now v
  handle-IsLinked db (delete_connection device_id id) v =
      References.remove_connection-IsLinked h db id v
  handle-IsLinked db (put_register_map device_id entries) v =
      set_register_map-IsLinked db device_id entries v

  -- Over any history of requests to tables that start linked, the ids of the devices, of the
  -- profiles and of the connections and the names of the devices stay unique, every connection and
  -- every row of a register map belongs to a device that is there, and every profile that a device
  -- names is there.
  pub handled-IsLinked :
      (db : Db h) (history : List (Request h)) → IsLinked h db → IsLinked h (handled h db history)
  unfolding handled
  handled-IsLinked db [] v = v
  handled-IsLinked db (req ∷ history) v =
      handle-IsLinked (handled h db history) req (handled-IsLinked db history v)
