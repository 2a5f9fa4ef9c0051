-- ===== src/Sessions/Queries.antt =====
-- `list_sessions` and `get_active_session` of crates/server/src/services.rs, and the handler of the
-- first in crates/server/src/main.rs.
pub mod Listing
pub mod Latest
use rust_roast.Prelude.{
  ℕ, ℤ, pos, negsuc, suc, ◌≤◌, ◌<◌, String, Bool, true, false, ◌&&◌, ◌||◌, not, List, [], ◌∷◌,
  Option, none, some, ok, ◌≡◌, refl, ◌∙◌, sym, arith, subst, str_eq, leb, ltb, if◌then◌else◌,
  select, any, find, first, take, length, Bool-cases, Option-cases, inl, inr, All, All-select, zero,
}
use rust_roast.Models.SessionStatus.{active, paused}
use rust_roast.Models.SessionRows.{RoastSession}
use rust_roast.Tables.{order_by}
use rust_roast.Tables.Sorted.{
  IsOrdered, IsOrdered-IsSorted, order_by-IsSorted, take-IsOrdered, All-take, All-order_by,
  any-order_by,
}
use rust_roast.Sessions.{Db, has_id, has_status}
use rust_roast.Sessions.Routes.{Reply}

-- `LIMIT`: SQLite takes a negative number for no limit.
abbrev pub limited {ℓ} : {A : Type ℓ} → Option ℤ → List A → List A
limited none rows = rows
limited (some (pos n)) rows = take n rows
limited (some (negsuc n)) rows = rows

-- `ORDER BY created_at DESC`
abbrev pub newer : RoastSession → RoastSession → Bool
newer a b = leb b.created_at a.created_at

-- `WHERE device_id = ?`, when a device is given.
abbrev pub of_device : Option String → RoastSession → Bool
of_device none s = true
of_device (some id) s = str_eq s.device_id id

unfoldable pub list_sessions : Db → Option String → Option ℤ → List RoastSession
list_sessions db device_id limit =
    limited limit (order_by newer (select (of_device device_id) db.roast_sessions))

unfoldable pub api_list_sessions : Db → Option String → Option ℤ → Reply (List RoastSession)
api_list_sessions db device_id limit = ok (200, list_sessions db device_id limit)

-- `ORDER BY start_time DESC`, which puts NULL last.
abbrev pub later_time : Option ℕ → Option ℕ → Bool
later_time u none = true
later_time none (some t) = false
later_time (some u) (some t) = leb t u

abbrev pub later : RoastSession → RoastSession → Bool
later a b = later_time a.start_time b.start_time

-- `device_id = ? AND status IN (?, ?)`
abbrev pub live : String → RoastSession → Bool
live device_id s = str_eq s.device_id device_id && (has_status active s || has_status paused s)

unfoldable pub get_active_session : Db → String → Option RoastSession
get_active_session db device_id = first (order_by later (select (live device_id) db.roast_sessions))
