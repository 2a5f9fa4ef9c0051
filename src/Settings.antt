-- ===== src/Settings.antt =====
-- The routes of the settings in crates/server/src/main.rs, over the table that the figures of a
-- completed roast are computed with.
pub mod Upsert
use rust_roast.Prelude.{String, List, [], ◌∷◌, map, ok, insert}
use rust_roast.Host.{Host}
use rust_roast.Sessions.{Db}
use rust_roast.Sessions.Routes.{Reply}

-- `INSERT … ON CONFLICT(key) DO UPDATE`
unfoldable pub api_set_setting : Db → String → String → Reply (Unit {0}) × Db
unfolding insert
api_set_setting db key value = (ok (204, tt), record db { settings = insert key value db.settings })

module _ (h : Host) where
  open h use {Value, of_str, of_object}

  abbrev pub text_entry : String × String → String × Value
  text_entry (key, value) = (key, of_str value)

  unfoldable pub api_get_settings : Db → Reply Value
  api_get_settings db = ok (200, of_object (map text_entry db.settings))
