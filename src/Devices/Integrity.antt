-- ===== src/Devices/Integrity.antt =====
-- The keys of the device tables.
pub mod Rows
pub mod References
pub mod Histories
pub mod Errors
use rust_roast.Prelude.{
  ℕ, String, Bool, true, false, ◌&&◌, not, List, [], ◌∷◌, ◌++◌, map, Option, none, some, Result, ok,
  err, ◌≡◌, refl, sym, subst, ap, ◌∙◌, arith, str_eq, eq_iff, if◌then◌else◌, Bool-cases,
  Option-cases, Result-cases, inl, inr, All, All-append, All-impl, All-select, find, any, select,
}
use rust_roast.Host.{Host}
use rust_roast.Models.DeviceRows.{
  Device, CreateDeviceRequest, UpdateDeviceRequest, DeviceProfile, DeviceConnection,
  CreateDeviceProfileRequest, UpdateDeviceProfileRequest, CreateConnectionRequest,
  UpdateConnectionRequest, CreateRegisterMapEntry, ModbusRegisterMap,
}
use rust_roast.Tables.{
  update_rows, delete_rows, keyed, Unique, Unique-append, Unique-select, Unique-update_rows,
  any-append_left, any-update_rows, any-delete_rows, All-update_rows, or_else,
}
use rust_roast.RegisterMaps.{insert_registers, row_of, has_key}
use rust_roast.RegisterMaps as RegisterMaps
use rust_roast.Devices.{
  Db, device_key, device_name, profile_key, connection_key, profile_known, of_device, register_of,
  create_device, discovered, update_device, updated, no_fields, delete_device, update_devices,
  update_last_seen, seen, update_device_status, with_status,
}
use rust_roast.Devices.Profiles as Profiles
use rust_roast.Devices.Connections as Connections

-- The references of some rows all stand in a column of keys.
abbrev pub Refers :
    {A : Type 0} {B : Type 0} → (A → String) → (B → String) → List B → List A → Type 0
Refers ref key ys xs = All (λ x. any (keyed key (ref x)) ys ≡ true) xs

module _ {A : Type 0} {B : Type 0} (ref : A → String) (key : B → String) where
  -- Rows that keep every key keep the references.
  pub Refers-kept :
      (ys zs : List B)
      → ((k : String) → any (keyed key k) ys ≡ true → any (keyed key k) zs ≡ true)
      → (xs : List A) → Refers ref key ys xs
      → Refers ref key zs xs
  Refers-kept ys zs kept xs r =
      All-impl (λ x. any (keyed key (ref x)) ys ≡ true) (λ x. any (keyed key (ref x)) zs ≡ true)
        (λ x e. kept (ref x) e) xs r

  -- `ON DELETE CASCADE`
  pub Refers-deleted :
      (k : String) (ys : List B) (xs : List A)
      → Refers ref key ys xs
      → Refers ref key (delete_rows (keyed key k) ys) (delete_rows (λ x. str_eq (ref x) k) xs)
  Refers-deleted k ys xs r =
      All-select (λ x. any (keyed key (ref x)) ys ≡ true)
        (λ x. any (keyed key (ref x)) (delete_rows (keyed key k) ys) ≡ true)
        (λ x. not (str_eq (ref x) k)) (λ x e f. any-delete_rows key (ref x) k ys (ground arith) f)
        xs r

module _ (h : Host) where
  open h use {F64, Value}

  abbrev pub connection_device : DeviceConnection Value → String
  connection_device c = c.device_id

  abbrev pub register_device : ModbusRegisterMap F64 → String
  register_device r = r.device_id

  abbrev pub known_profile : List (DeviceProfile F64) → Device → Bool
  known_profile profiles d = elim d.profile_id [
    | none ↦ true
    | some id ↦ any (keyed (profile_key h) id) profiles
  ]

  -- The primary keys and the device ids are unique, and every reference is to a row that is there.
  pub record IsLinked (db : Db h) : Type 0 where
    pub ids : Unique device_key db.devices
    pub names : Unique device_name db.devices
    pub profile_ids : Unique (profile_key h) db.device_profiles
    pub connection_ids : Unique (connection_key h) db.device_connections
    pub connections : Refers connection_device device_key db.devices db.device_connections
    pub registers : Refers register_device device_key db.devices db.modbus_register_maps
    pub profiles : All (λ (d : Device). known_profile db.device_profiles d ≡ true) db.devices

  -- A new device.
  pub append-IsLinked :
      (db : Db h) (d : Device)
      → IsLinked db
      → any (keyed device_key d.id) db.devices ≡ false
      → any (keyed device_name d.device_id) db.devices ≡ false
      → known_profile db.device_profiles d ≡ true
      → IsLinked (record db { devices = db.devices ++ d ∷ [] })
  append-IsLinked db d v e f k = record {
    ids = Unique-append device_key db.devices d v.ids e;
    names = Unique-append device_name db.devices d v.names f;
    profile_ids = v.profile_ids;
    connection_ids = v.connection_ids;
    connections =
        Refers-kept connection_device device_key db.devices (db.devices ++ d ∷ [])
          (λ k e. any-append_left device_key k db.devices d e) db.device_connections v.connections;
    registers =
        Refers-kept register_device device_key db.devices (db.devices ++ d ∷ [])
          (λ k e. any-append_left device_key k db.devices d e) db.modbus_register_maps v.registers;
    profiles =
        All-append (λ (x : Device). known_profile db.device_profiles x ≡ true) db.devices d
          v.profiles k;
  }

  -- New values in columns of a device that are no keys, and another profile that is there.
  pub update_devices-IsLinked :
      (db : Db h) (p : Device → Bool) (f : Device → Device)
      → ((d : Device) → (f d).id ≡ d.id)
      → ((d : Device) → (f d).device_id ≡ d.device_id)
      → ((d : Device)
          → known_profile db.device_profiles d ≡ true
          → known_profile db.device_profiles (f d) ≡ true)
      → IsLinked db
      → IsLinked (update_devices h db p f)
  update_devices-IsLinked db p f same_id same_name known v =
      let devices : List Device = update_rows p f db.devices in
      let kept : (k : String)
          → any (keyed device_key k) db.devices ≡ true
          → any (keyed device_key k) devices ≡ true =
        λ k e. any-update_rows device_key p f same_id k db.devices ∙ e in
      record {
        ids = Unique-update_rows device_key p f same_id db.devices v.ids;
        names = Unique-update_rows device_name p f same_name db.devices v.names;
        profile_ids = v.profile_ids;
        connection_ids = v.connection_ids;
        connections =
            Refers-kept connection_device device_key db.devices devices kept db.device_connections
              v.connections;
        registers =
            Refers-kept register_device device_key db.devices devices kept db.modbus_register_maps
              v.registers;
        profiles =
            All-update_rows (λ (x : Device). known_profile db.device_profiles x ≡ true) p f
              (λ x e k. known x k) db.devices v.profiles;
      }

  pub delete_device-IsLinked :
      (db : Db h) (id : String) → IsLinked db → IsLinked (delete_device h db id).1
  unfolding delete_device
  delete_device-IsLinked db id v = record {
    ids = Unique-select device_key (λ d. not (keyed device_key id d)) db.devices v.ids;
    names = Unique-select device_name (λ d. not (keyed device_key id d)) db.devices v.names;
    profile_ids = v.profile_ids;
    connection_ids =
        Unique-select (connection_key h) (λ c. not (of_device h id c)) db.device_connections
          v.connection_ids;
    connections =
        Refers-deleted connection_device device_key id db.devices db.device_connections
          v.connections;
    registers =
        Refers-deleted register_device device_key id db.devices db.modbus_register_maps v.registers;
    profiles =
        All-select (λ (x : Device). known_profile db.device_profiles x ≡ true)
          (λ (x : Device). known_profile db.device_profiles x ≡ true)
          (λ d. not (keyed device_key id d)) (λ x e k. k) db.devices v.profiles;
  }
