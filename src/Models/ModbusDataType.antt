-- ===== src/Models/ModbusDataType.antt =====
-- `ModbusDataType` of crates/server/src/models.rs: its text form, which is stored in the database.
use text.Mathlib.Text.{◌==◌ as str_eq}
use rust_roast.Prelude.{String, Result, ok, err, if◌then◌else◌, ◌≡◌, refl, ◌↔◌, eq_iff, arith}
use rust_roast.Topics.{◌++◌}

pub data ModbusDataType : Type 0 where
  uint16 int16 float32 uint32 int32 bool : ModbusDataType

-- `Display`
unfoldable pub to_string : ModbusDataType → String
to_string uint16 = "uint16"
to_string int16 = "int16"
to_string float32 = "float32"
to_string uint32 = "uint32"
to_string int32 = "int32"
to_string bool = "bool"

-- `FromStr`
unfoldable pub from_str : String → Result String ModbusDataType
from_str s =
    if str_eq s "uint16"
    then ok uint16
    else if str_eq s "int16"
    then ok int16
    else if str_eq s "float32"
    then ok float32
    else if str_eq s "uint32"
    then ok uint32
    else if str_eq s "int32"
    then ok int32
    else if str_eq s "bool"
    then ok bool
    else err ("Invalid modbus data type: " ++ s)

from_str-to_string : (x : ModbusDataType) → from_str (to_string x) ≡ ok x
unfolding from_str to_string
from_str-to_string uint16 = refl
from_str-to_string int16 = refl
from_str-to_string float32 = refl
from_str-to_string uint32 = refl
from_str-to_string int32 = refl
from_str-to_string bool = refl

from_str_sound : (s : String) (x : ModbusDataType) → from_str s ≡ ok x → s ≡ to_string x
unfolding from_str to_string
from_str_sound s x e = ground (
  arith,
  eq_iff s "uint16",
  eq_iff s "int16",
  eq_iff s "float32",
  eq_iff s "uint32",
  eq_iff s "int32",
  eq_iff s "bool",
)

-- A text parses to a value exactly when it is the text form of the value, so that what is written
-- to the database is read back, and no other text is accepted.
pub ModbusDataType-from_str_iff :
    (s : String) (x : ModbusDataType) → (from_str s ≡ ok x) ↔ (s ≡ to_string x)
ModbusDataType-from_str_iff s x = (from_str_sound s x, λ e. rw e (from_str-to_string x))
