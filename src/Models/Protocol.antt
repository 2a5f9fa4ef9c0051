-- ===== src/Models/Protocol.antt =====
-- `Protocol` of crates/server/src/models.rs: its text form, which is stored in the database.
use text.Mathlib.Text.{◌==◌ as str_eq}
use rust_roast.Prelude.{String, Result, ok, err, if◌then◌else◌, ◌≡◌, refl, ◌↔◌, eq_iff, arith}
use rust_roast.Topics.{◌++◌}

pub data Protocol : Type 0 where
  mqtt web_socket modbus_tcp : Protocol

-- `Display`
unfoldable pub to_string : Protocol → String
to_string mqtt = "mqtt"
to_string web_socket = "websocket"
to_string modbus_tcp = "modbus_tcp"

-- `FromStr`
unfoldable pub from_str : String → Result String Protocol
from_str s =
    if str_eq s "mqtt"
    then ok mqtt
    else if str_eq s "websocket"
    then ok web_socket
    else if str_eq s "modbus_tcp"
    then ok modbus_tcp
    else err ("Invalid protocol: " ++ s)

from_str-to_string : (x : Protocol) → from_str (to_string x) ≡ ok x
unfolding from_str to_string
from_str-to_string mqtt = refl
from_str-to_string web_socket = refl
from_str-to_string modbus_tcp = refl

from_str_sound : (s : String) (x : Protocol) → from_str s ≡ ok x → s ≡ to_string x
unfolding from_str to_string
from_str_sound s x e = ground (arith, eq_iff s "mqtt", eq_iff s "websocket", eq_iff s "modbus_tcp")

-- A text parses to a value exactly when it is the text form of the value, so that what is written
-- to the database is read back, and no other text is accepted.
pub Protocol-from_str_iff : (s : String) (x : Protocol) → (from_str s ≡ ok x) ↔ (s ≡ to_string x)
Protocol-from_str_iff s x = (from_str_sound s x, λ e. rw e (from_str-to_string x))
