-- ===== src/Models/SessionStatus.antt =====
-- `SessionStatus` of crates/server/src/models.rs: its text form, which is stored in the database.
use text.Mathlib.Text.{◌==◌ as str_eq}
use rust_roast.Prelude.{String, Result, ok, err, if◌then◌else◌, ◌≡◌, refl, ◌↔◌, eq_iff, arith}
use rust_roast.Topics.{◌++◌}

pub data SessionStatus : Type 0 where
  planning active paused completed failed cancelled : SessionStatus

-- `Display`
unfoldable pub to_string : SessionStatus → String
to_string planning = "planning"
to_string active = "active"
to_string paused = "paused"
to_string completed = "completed"
to_string failed = "failed"
to_string cancelled = "cancelled"

-- `FromStr`
unfoldable pub from_str : String → Result String SessionStatus
from_str s =
    if str_eq s "planning"
    then ok planning
    else if str_eq s "active"
    then ok active
    else if str_eq s "paused"
    then ok paused
    else if str_eq s "completed"
    then ok completed
    else if str_eq s "failed"
    then ok failed
    else if str_eq s "cancelled"
    then ok cancelled
    else err ("Invalid session status: " ++ s)

from_str-to_string : (x : SessionStatus) → from_str (to_string x) ≡ ok x
unfolding from_str to_string
from_str-to_string planning = refl
from_str-to_string active = refl
from_str-to_string paused = refl
from_str-to_string completed = refl
from_str-to_string failed = refl
from_str-to_string cancelled = refl

from_str_sound : (s : String) (x : SessionStatus) → from_str s ≡ ok x → s ≡ to_string x
unfolding from_str to_string
from_str_sound s x e = ground (
  arith,
  eq_iff s "planning",
  eq_iff s "active",
  eq_iff s "paused",
  eq_iff s "completed",
  eq_iff s "failed",
  eq_iff s "cancelled",
)

-- A text parses to a value exactly when it is the text form of the value, so that what is written
-- to the database is read back, and no other text is accepted.
pub SessionStatus-from_str_iff :
    (s : String) (x : SessionStatus) → (from_str s ≡ ok x) ↔ (s ≡ to_string x)
SessionStatus-from_str_iff s x = (from_str_sound s x, λ e. rw e (from_str-to_string x))
