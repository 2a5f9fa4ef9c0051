-- ===== src/Models/DeviceStatus.antt =====
-- `DeviceStatus` of crates/server/src/models.rs: its text form, which is stored in the database.
use text.Mathlib.Text.{◌==◌ as str_eq}
use rust_roast.Prelude.{String, Result, ok, err, if◌then◌else◌, ◌≡◌, refl, ◌↔◌, eq_iff, arith}
use rust_roast.Topics.{◌++◌}

pub data DeviceStatus : Type 0 where
  pending active disabled error : DeviceStatus

-- `Display`
unfoldable pub to_string : DeviceStatus → String
to_string pending = "pending"
to_string active = "active"
to_string disabled = "disabled"
to_string error = "error"

-- `FromStr`
unfoldable pub from_str : String → Result String DeviceStatus
from_str s =
    if str_eq s "pending"
    then ok pending
    else if str_eq s "active"
    then ok active
    else if str_eq s "disabled"
    then ok disabled
    else if str_eq s "error"
    then ok error
    else err ("Invalid device status: " ++ s)

from_str-to_string : (x : DeviceStatus) → from_str (to_string x) ≡ ok x
unfolding from_str to_string
from_str-to_string pending = refl
from_str-to_string active = refl
from_str-to_string disabled = refl
from_str-to_string error = refl

from_str_sound : (s : String) (x : DeviceStatus) → from_str s ≡ ok x → s ≡ to_string x
unfolding from_str to_string
from_str_sound s x e =
    ground (arith, eq_iff s "pending", eq_iff s "active", eq_iff s "disabled", eq_iff s "error")

-- A text parses to a value exactly when it is the text form of the value, so that what is written
-- to the database is read back, and no other text is accepted.
pub DeviceStatus-from_str_iff :
    (s : String) (x : DeviceStatus) → (from_str s ≡ ok x) ↔ (s ≡ to_string x)
DeviceStatus-from_str_iff s x = (from_str_sound s x, λ e. rw e (from_str-to_string x))
