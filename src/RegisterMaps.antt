-- ===== src/RegisterMaps.antt =====
-- `DeviceService::set_register_map` of crates/server/src/services.rs: the register maps that the
-- Modbus poller decodes by. The table is a list of rows, a new UUID comes with each entry, and an
-- error of the database is the text of its kind.
pub mod Replacement
mod Examples
use rust_roast.Prelude.{
  String, Bool, true, false, not, List, [], ◌∷◌, ◌++◌, map, Option, none, some, Result, ok, err,
  str_eq, if◌then◌else◌, select, any,
}
use rust_roast.Models.DeviceRows.{CreateRegisterMapEntry, ModbusRegisterMap}

module _ (F64 : Type 0) where
  pub record Db : Type 0 where
    pub device_ids : List String
    pub modbus_register_maps : List (ModbusRegisterMap F64)

  abbrev pub unwrap_or_false : Option Bool → Bool
  unwrap_or_false none = false
  unwrap_or_false (some b) = b

  abbrev pub row_of : String → CreateRegisterMapEntry F64 × String → ModbusRegisterMap F64
  row_of device_id (entry, id) = record {
    id = id;
    device_id = device_id;
    register_type = entry.register_type;
    address = entry.address;
    name = entry.name;
    data_type = entry.data_type;
    byte_order = entry.byte_order;
    scale_factor = entry.scale_factor;
    offset = entry.offset;
    unit = entry.unit;
    description = entry.description;
    writable = unwrap_or_false entry.writable;
  }

  abbrev pub of_device : String → ModbusRegisterMap F64 → Bool
  of_device device_id r = str_eq r.device_id device_id

  abbrev pub has_key : String → ModbusRegisterMap F64 → Bool
  has_key id r = str_eq r.id id

  -- The loop of inserts: the table after them, or the first error.
  unfoldable pub insert_registers :
      List String
      → String
      → List (CreateRegisterMapEntry F64 × String)
      → List (ModbusRegisterMap F64)
      → Result String (List (ModbusRegisterMap F64))
  insert_registers device_ids device_id [] table = ok table
  insert_registers device_ids device_id ((entry, id) ∷ entries) table =
      let rest =
        insert_registers device_ids device_id entries
          (table ++ row_of device_id (entry, id) ∷ []) in
      if any (has_key id) table
      then err "UNIQUE constraint failed"
      else if not (any (str_eq device_id) device_ids)
      then err "FOREIGN KEY constraint failed"
      else rest

  -- The transaction: an error rolls the deletion and the inserts back.
  unfoldable pub set_register_map :
      Db
      → String
      → List (CreateRegisterMapEntry F64 × String)
      → Result String (List (ModbusRegisterMap F64)) × Db
  set_register_map db device_id entries =
      elim (insert_registers db.device_ids device_id entries
        (select (λ r. not (of_device device_id r)) db.modbus_register_maps)) [
          | err e ↦ (err e, db)
          | ok table ↦
              (ok (map (row_of device_id) entries), record db { modbus_register_maps = table })
        ]
