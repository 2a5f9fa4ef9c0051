-- ===== src/Devices/Integrity/References.antt =====
-- The operations on the rows that refer to other rows keep the device tables linked.
use rust_roast.Prelude.{
  ℕ, String, Bool, true, not, List, [], ◌∷◌, ◌++◌, map, ok, ◌≡◌, refl, subst, arith, str_eq, eq_iff,
  Bool-cases, Option-cases, Result-cases, inl, inr, All, All-append, All-select, find, any, select,
}
use rust_roast.Host.{Host}
use rust_roast.Models.DeviceRows.{
  Device, DeviceProfile, DeviceConnection, CreateConnectionRequest, UpdateConnectionRequest,
  CreateRegisterMapEntry, ModbusRegisterMap,
}
use rust_roast.Tables.{
  update_rows, delete_rows, keyed, Unique, Unique-append, Unique-select, Unique-update_rows,
  any-delete_rows, All-update_rows,
}
use rust_roast.RegisterMaps.{insert_registers, row_of, has_key}
use rust_roast.RegisterMaps as RegisterMaps
use rust_roast.Devices.{Db, device_key, profile_key, connection_key, update_devices}
use rust_roast.Devices.Profiles as Profiles
use rust_roast.Devices.Connections as Connections
use rust_roast.Devices.Integrity.{
  IsLinked, Refers, known_profile, connection_device, register_device, update_devices-IsLinked,
}

module _ (h : Host) where
  open h use {F64, Value}

  -- `ON DELETE SET NULL` leaves no device with the deleted profile.
  set_null :
      (id : String) (profiles : List (DeviceProfile F64)) (devices : List Device)
      → All (λ (d : Device). known_profile h profiles d ≡ true) devices
      → All
          (λ (d : Device).
            known_profile h (delete_rows (keyed (profile_key h) id) profiles) d ≡ true)
          (update_rows (Profiles.has_profile id) Profiles.without_profile devices)
  set_null id profiles [] a = tt
  set_null id profiles (d ∷ devices) a = elim (Option-cases d.profile_id) [
    | inl e ↦ rw e (refl, set_null id profiles devices a.1)
    | inr (p, e) ↦ elim (Bool-cases (str_eq p id)) [
      | inl f ↦ rw (e, f) (refl, set_null id profiles devices a.1)
      | inr f ↦
          rw (e, f)
            (
              any-delete_rows (profile_key h) p id profiles f (
                  subst (λ o. known_profile h profiles (record d { profile_id = o }) ≡ true) e a.0),
              set_null id profiles devices a.1,
            )
    ]
  ]

  pub delete_profile-IsLinked :
      (db : Db h) (id : String) → IsLinked h db → IsLinked h (Profiles.delete_profile h db id).1
  unfolding Profiles.delete_profile
  delete_profile-IsLinked db id v =
      let w : IsLinked h (update_devices h db (Profiles.has_profile id) Profiles.without_profile) =
        update_devices-IsLinked h db (Profiles.has_profile id) Profiles.without_profile (λ d. refl)
          (λ d. refl) (λ d e. refl) v in
      record {
        ids = w.ids;
        names = w.names;
        profile_ids =
            Unique-select (profile_key h) (λ p. not (keyed (profile_key h) id p)) db.device_profiles
              v.profile_ids;
        connection_ids = v.connection_ids;
        connections = w.connections;
        registers = w.registers;
        profiles = set_null id db.device_profiles db.devices v.profiles;
      }

  -- Connections with keys of their own to devices that are there.
  with_connections-IsLinked :
      (db : Db h) (connections : List (DeviceConnection Value))
      → Unique (connection_key h) connections
      → Refers (connection_device h) device_key db.devices connections
      → IsLinked h db
      → IsLinked h (record db { device_connections = connections })
  with_connections-IsLinked db connections u r v = record {
    ids = v.ids;
    names = v.names;
    profile_ids = v.profile_ids;
    connection_ids = u;
    connections = r;
    registers = v.registers;
    profiles = v.profiles;
  }

  abbrev HasDevice : Db h → DeviceConnection Value → Type 0
  HasDevice db c = any (keyed device_key c.device_id) db.devices ≡ true

  pub add_connection-IsLinked :
      (db : Db h) (device_id : String) (req : CreateConnectionRequest Value) (id : String) (now : ℕ)
      → IsLinked h db
      → IsLinked h (Connections.add_connection h db device_id req id now).1
  unfolding Connections.add_connection
  add_connection-IsLinked db device_id req id now v =
      let c : DeviceConnection Value = Connections.connected h device_id req id now in
      elim (Bool-cases (any (keyed (connection_key h) id) db.device_connections)) [
        | inl e ↦ rw e v
        | inr e ↦ elim (Bool-cases (any (keyed device_key device_id) db.devices)) [
          | inr f ↦ rw (e, f) v
          | inl f ↦
              rw (e, f)
                (with_connections-IsLinked db (db.device_connections ++ c ∷ [])
                  (Unique-append (connection_key h) db.device_connections c v.connection_ids e)
                  (All-append (HasDevice db) db.device_connections c v.connections f) v)
        ]
      ]

  pub update_connection-IsLinked :
      (db : Db h) (id : String) (req : UpdateConnectionRequest Value) (now : ℕ)
      → IsLinked h db
      → IsLinked h (Connections.update_connection h db id req now).1
  unfolding Connections.update_connection
  update_connection-IsLinked db id req now v =
      let p : DeviceConnection Value → Bool = keyed (connection_key h) id in
      elim (Option-cases (find p db.device_connections)) [
        | inl e ↦ rw (Connections.update_connection, e) v
        | inr (c, e) ↦ elim (Bool-cases (Connections.no_fields h req)) [
          | inl f ↦ rw (Connections.update_connection, e, f) v
          | inr f ↦
              rw (Connections.update_connection, e, f)
                (with_connections-IsLinked db
                  (update_rows p (Connections.updated h req now) db.device_connections)
                  (Unique-update_rows (connection_key h) p (Connections.updated h req now)
                    (λ c. refl) db.device_connections v.connection_ids)
                  (All-update_rows (HasDevice db) p (Connections.updated h req now) (λ c e k. k)
                    db.device_connections v.connections)
                  v)
        ]
      ]

  pub remove_connection-IsLinked :
      (db : Db h) (id : String)
      → IsLinked h db
      → IsLinked h (Connections.remove_connection h db id).1
  unfolding Connections.remove_connection
  remove_connection-IsLinked db id v =
      let q : DeviceConnection Value → Bool = λ c. not (keyed (connection_key h) id c) in
      with_connections-IsLinked db (select q db.device_connections)
        (Unique-select (connection_key h) q db.device_connections v.connection_ids)
        (All-select (HasDevice db) (HasDevice db) q (λ c e k. k) db.device_connections
          v.connections)
        v

  -- The column of ids that an insert tests its device in.
  ids_hold :
      (d : String) (devices : List Device)
      → any (str_eq d) (map device_key devices) ≡ true
      → any (keyed device_key d) devices ≡ true
  ids_hold d [] e = e
  ids_hold d (x ∷ devices) e = ground (arith, ids_hold d devices, eq_iff d x.id, eq_iff x.id d)

  insert_registers-Refers :
      (devices : List Device) (d : String) (entries : List (CreateRegisterMapEntry F64 × String))
      (table : List (ModbusRegisterMap F64)) {table' : List (ModbusRegisterMap F64)}
      → insert_registers F64 (map device_key devices) d entries table ≡ ok table'
      → Refers (register_device h) device_key devices table
      → Refers (register_device h) device_key devices table'
  unfolding insert_registers
  insert_registers-Refers devices d [] table e r =
      subst (λ t. Refers (register_device h) device_key devices t) (ground arith) r
  insert_registers-Refers devices d ((entry, id) ∷ entries) table e r =
      elim (Bool-cases (any (has_key F64 id) table)) [
        | inl k ↦ ground arith
        | inr k ↦ elim (Bool-cases (any (str_eq d) (map device_key devices))) [
          | inr f ↦ ground arith
          | inl f ↦
              insert_registers-Refers devices d entries (table ++ row_of F64 d (entry, id) ∷ [])
                (ground arith)
                (All-append (λ r. any (keyed device_key (register_device h r)) devices ≡ true) table
                  (row_of F64 d (entry, id)) r (ids_hold d devices f))
        ]
      ]

  pub set_register_map-IsLinked :
      (db : Db h) (device_id : String) (entries : List (CreateRegisterMapEntry F64 × String))
      → IsLinked h db
      → IsLinked h (Connections.set_register_map h db device_id entries).1
  unfolding Connections.set_register_map RegisterMaps.set_register_map
  set_register_map-IsLinked db device_id entries v =
      let kept : List (ModbusRegisterMap F64) =
        select (λ r. not (RegisterMaps.of_device F64 device_id r)) db.modbus_register_maps in
      elim (Result-cases
        (insert_registers F64 (map device_key db.devices) device_id entries kept)) [
          | inl (m, f) ↦ rw (RegisterMaps.set_register_map, f) v
          | inr (table, f) ↦
              rw (RegisterMaps.set_register_map, f)
                (record {
                  ids = v.ids;
                  names = v.names;
                  profile_ids = v.profile_ids;
                  connection_ids = v.connection_ids;
                  connections = v.connections;
                  registers = insert_registers-Refers db.devices device_id entries kept f (
                      All-select
                        (λ r. any (keyed device_key (register_device h r)) db.devices ≡ true)
                        (λ r. any (keyed device_key (register_device h r)) db.devices ≡ true)
                        (λ r. not (RegisterMaps.of_device F64 device_id r)) (λ r e k. k)
                        db.modbus_register_maps v.registers);
                  profiles = v.profiles;
                })
        ]
