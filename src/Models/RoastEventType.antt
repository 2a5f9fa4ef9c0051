-- ===== src/Models/RoastEventType.antt =====
-- `RoastEventType` of crates/server/src/models.rs: its text form, which is stored in the database.
use text.Mathlib.Text.{◌==◌ as str_eq}
use rust_roast.Prelude.{String, Result, ok, err, if◌then◌else◌, ◌≡◌, refl, ◌↔◌, eq_iff, arith}
use rust_roast.Topics.{◌++◌}

pub data RoastEventType : Type 0 where
  drop drying_end first_crack_start first_crack_end second_crack_start second_crack_end
        development_start drop_out custom :
      RoastEventType

-- `Display`
unfoldable pub to_string : RoastEventType → String
to_string drop = "drop"
to_string drying_end = "drying_end"
to_string first_crack_start = "first_crack_start"
to_string first_crack_end = "first_crack_end"
to_string second_crack_start = "second_crack_start"
to_string second_crack_end = "second_crack_end"
to_string development_start = "development_start"
to_string drop_out = "drop_out"
to_string custom = "custom"

-- `FromStr`
unfoldable pub from_str : String → Result String RoastEventType
from_str s =
    if str_eq s "drop"
    then ok drop
    else if str_eq s "drying_end"
    then ok drying_end
    else if str_eq s "first_crack_start"
    then ok first_crack_start
    else if str_eq s "first_crack_end"
    then ok first_crack_end
    else if str_eq s "second_crack_start"
    then ok second_crack_start
    else if str_eq s "second_crack_end"
    then ok second_crack_end
    else if str_eq s "development_start"
    then ok development_start
    else if str_eq s "drop_out"
    then ok drop_out
    else if str_eq s "custom"
    then ok custom
    else err ("Invalid roast event type: " ++ s)

from_str-to_string : (x : RoastEventType) → from_str (to_string x) ≡ ok x
unfolding from_str to_string
from_str-to_string drop = refl
from_str-to_string drying_end = refl
from_str-to_string first_crack_start = refl
from_str-to_string first_crack_end = refl
from_str-to_string second_crack_start = refl
from_str-to_string second_crack_end = refl
from_str-to_string development_start = refl
from_str-to_string drop_out = refl
from_str-to_string custom = refl

from_str_sound : (s : String) (x : RoastEventType) → from_str s ≡ ok x → s ≡ to_string x
unfolding from_str to_string
from_str_sound s x e = ground (
  arith,
  eq_iff s "drop",
  eq_iff s "drying_end",
  eq_iff s "first_crack_start",
  eq_iff s "first_crack_end",
  eq_iff s "second_crack_start",
  eq_iff s "second_crack_end",
  eq_iff s "development_start",
  eq_iff s "drop_out",
  eq_iff s "custom",
)

-- A text parses to a value exactly when it is the text form of the value, so that what is written
-- to the database is read back, and no other text is accepted.
pub RoastEventType-from_str_iff :
    (s : String) (x : RoastEventType) → (from_str s ≡ ok x) ↔ (s ≡ to_string x)
RoastEventType-from_str_iff s x = (from_str_sound s x, λ e. rw e (from_str-to_string x))
