-- ===== src/Models/ModbusRegisterType.antt =====
-- `ModbusRegisterType` of crates/server/src/models.rs: its text form, which is stored in the database.
use text.Mathlib.Text.{◌==◌ as str_eq}
use rust_roast.Prelude.{String, Result, ok, err, if◌then◌else◌, ◌≡◌, refl, ◌↔◌, eq_iff, arith}
use rust_roast.Topics.{◌++◌}

pub data ModbusRegisterType : Type 0 where
  input holding coil discrete : ModbusRegisterType

-- `Display`
unfoldable pub to_string : ModbusRegisterType → String
to_string input = "input"
to_string holding = "holding"
to_string coil = "coil"
to_string discrete = "discrete"

-- `FromStr`
unfoldable pub from_str : String → Result String ModbusRegisterType
from_str s =
    if str_eq s "input"
    then ok input
    else if str_eq s "holding"
    then ok holding
    else if str_eq s "coil"
    then ok coil
    else if str_eq s "discrete"
    then ok discrete
    else err ("Invalid modbus register type: " ++ s)

from_str-to_string : (x : ModbusRegisterType) → from_str (to_string x) ≡ ok x
unfolding from_str to_string
from_str-to_string input = refl
from_str-to_string holding = refl
from_str-to_string coil = refl
from_str-to_string discrete = refl

from_str_sound : (s : String) (x : ModbusRegisterType) → from_str s ≡ ok x → s ≡ to_string x
unfolding from_str to_string
from_str_sound s x e =
    ground (arith, eq_iff s "input", eq_iff s "holding", eq_iff s "coil", eq_iff s "discrete")

-- A text parses to a value exactly when it is the text form of the value, so that what is written
-- to the database is read back, and no other text is accepted.
pub ModbusRegisterType-from_str_iff :
    (s : String) (x : ModbusRegisterType) → (from_str s ≡ ok x) ↔ (s ≡ to_string x)
ModbusRegisterType-from_str_iff s x = (from_str_sound s x, λ e. rw e (from_str-to_string x))
