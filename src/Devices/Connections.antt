-- ===== src/Devices/Connections.antt =====
-- The connections and the register maps of `DeviceService`, in crates/server/src/services.rs.
use rust_roast.Prelude.{
  ℕ, pos, String, Bool, true, ◌&&◌, ◌||◌, not, List, [], ◌∷◌, ◌++◌, Option, none, some, Result, ok,
  err, if◌then◌else◌, find, any, select, map, ltb, nat_eq, leb_ℤ,
}
use rust_roast.Host.{Host}
use rust_roast.Models.DeviceRows.{
  DeviceConnection, CreateConnectionRequest, UpdateConnectionRequest, CreateRegisterMapEntry,
  ModbusRegisterMap,
}
use rust_roast.Models.ModbusRegisterType.{ModbusRegisterType, coil, discrete, holding, input}
use rust_roast.Tables.{is_none, keep_or, update_rows, delete_rows, order_by, keyed}
use rust_roast.RegisterMaps
use rust_roast.Devices.{
  Db, device_key, connection_key, register_of, unique_failed, foreign_key_failed,
}

-- The place of a type's text in the order of the texts: coil, discrete, holding, input.
abbrev pub register_rank : ModbusRegisterType → ℕ
register_rank coil = 0
register_rank discrete = 1
register_rank holding = 2
register_rank input = 3

module _ (h : Host) where
  open h use {F64, Value}

  abbrev pub connected :
      String → CreateConnectionRequest Value → String → ℕ → DeviceConnection Value
  connected device_id req id now = record {
    id = id;
    device_id = device_id;
    protocol = req.protocol;
    enabled = keep_or req.enabled true;
    priority = keep_or req.priority (pos 0);
    config = req.config;
    created_at = now;
    updated_at = now;
  }

  unfoldable pub add_connection :
      Db h
      → String
      → CreateConnectionRequest Value
      → String
      → ℕ
      → Result String (DeviceConnection Value) × Db h
  add_connection db device_id req id now =
      if any (keyed (connection_key h) id) db.device_connections
      then (err unique_failed, db)
      else if not (any (keyed device_key device_id) db.devices)
      then (err foreign_key_failed, db)
      else (
        ok (connected device_id req id now),
        record db {
          device_connections = db.device_connections ++ connected device_id req id now ∷ [];
        },
      )

  abbrev pub no_fields : UpdateConnectionRequest Value → Bool
  no_fields req = is_none req.enabled && (is_none req.priority && is_none req.config)

  abbrev pub updated :
      UpdateConnectionRequest Value → ℕ → DeviceConnection Value → DeviceConnection Value
  updated req now c = record c {
    updated_at = now;
    enabled = keep_or req.enabled c.enabled;
    priority = keep_or req.priority c.priority;
    config = keep_or req.config c.config;
  }

  unfoldable pub update_connection :
      Db h → String → UpdateConnectionRequest Value → ℕ → Option (DeviceConnection Value) × Db h
  update_connection db connection_id req now =
      elim (find (keyed (connection_key h) connection_id) db.device_connections) [
        | none ↦ (none, db)
        | some c ↦ if no_fields req then (some c, db) else (
          some (updated req now c),
          record db {
            device_connections =
                update_rows (keyed (connection_key h) connection_id) (updated req now)
                  db.device_connections;
          },
        )
      ]

  unfoldable pub remove_connection : Db h → String → Bool × Db h
  remove_connection db connection_id = (
    any (keyed (connection_key h) connection_id) db.device_connections,
    record db {
      device_connections =
          delete_rows (keyed (connection_key h) connection_id) db.device_connections;
    },
  )

  -- `ORDER BY register_type, address`
  abbrev pub earlier : ModbusRegisterMap F64 → ModbusRegisterMap F64 → Bool
  earlier a b =
      ltb (register_rank a.register_type) (register_rank b.register_type)
      || (nat_eq (register_rank a.register_type) (register_rank b.register_type)
          && leb_ℤ a.address b.address)

  unfoldable pub get_register_map : Db h → String → List (ModbusRegisterMap F64)
  get_register_map db device_id =
      order_by earlier (select (register_of h device_id) db.modbus_register_maps)

  -- The tables that `RegisterMaps` replaces a map in.
  abbrev pub register_db : Db h → RegisterMaps.Db F64
  register_db db = record {
    device_ids = map device_key db.devices;
    modbus_register_maps = db.modbus_register_maps;
  }

  unfoldable pub set_register_map :
      Db h
      → String
      → List (CreateRegisterMapEntry F64 × String)
      → Result String (List (ModbusRegisterMap F64)) × Db h
  set_register_map db device_id entries =
      let (answer, maps) = RegisterMaps.set_register_map F64 (register_db db) device_id entries in
      (answer, record db { modbus_register_maps = maps.modbus_register_maps })
