-- ===== src/RegisterMaps/Examples.antt =====
-- A replacement of a register map, and its theorem at a concrete request.
use rust_roast.Prelude.{String, [], ◌∷◌, none, some, pos, ◌≡◌, refl}
use rust_roast.Sample.{sample}
use rust_roast.Models.ModbusRegisterType.{input}
use rust_roast.Models.ModbusDataType.{uint16}
use rust_roast.Models.DeviceRows.{CreateRegisterMapEntry}
use rust_roast.RegisterMaps.{Db, row_of, insert_registers, set_register_map}
use rust_roast.RegisterMaps.Replacement.{IsReplacement, set_register_map-replaces}

abbrev entry : String → CreateRegisterMapEntry sample.F64
entry name = record {
  register_type = input;
  address = pos 6;
  name = name;
  data_type = uint16;
  byte_order = none;
  scale_factor = none;
  offset = none;
  unit = some "%";
  description = none;
  writable = none;
}

abbrev two_devices : Db sample.F64
two_devices = record {
  device_ids = "d1" ∷ "d2" ∷ [];
  modbus_register_maps =
      row_of sample.F64 "d1" (entry "drum", "r1") ∷ row_of sample.F64 "d2" (entry "fan", "r2") ∷ [];
}

replaced :
    (set_register_map sample.F64 two_devices "d1"
      ((entry "heater", "r3") ∷ [])).1.modbus_register_maps
    ≡ row_of sample.F64 "d2" (entry "fan", "r2")
      ∷ row_of sample.F64 "d1" (entry "heater", "r3")
      ∷ []
unfolding set_register_map insert_registers
replaced = refl

set_register_map-replaces_example :
    IsReplacement sample.F64 two_devices "d1"
      ((entry "heater", "r3") ∷ [])
      (set_register_map sample.F64 two_devices "d1" ((entry "heater", "r3") ∷ []))
set_register_map-replaces_example =
    set_register_map-replaces sample.F64 two_devices "d1" ((entry "heater", "r3") ∷ [])
