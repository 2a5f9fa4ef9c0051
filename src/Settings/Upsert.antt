-- ===== src/Settings/Upsert.antt =====
-- What a read of the settings gives after a setting is stored.
use rust_roast.Prelude.{
  String, [], ◌∷◌, map, Option, none, some, Dict, lookup, lookup-insert, ok, err, ◌≡◌, refl, str_eq,
  if◌then◌else◌, Bool-cases, inl, inr,
}
use rust_roast.Host.{Host}
use rust_roast.Sessions.Summary.{option_map}
use rust_roast.Sessions.{Db}
use rust_roast.Sessions.Routes.{Reply}
use rust_roast.Settings.{text_entry, api_get_settings, api_set_setting}

-- The value of an answer that is no error.
abbrev pub value_of {ℓ} : {A : Type ℓ} → Reply A → Option A
value_of (ok (status, a)) = some a
value_of (err e) = none

lookup-entries :
    (h : Host) (key : String) (settings : Dict String)
    → lookup key (map (text_entry h) settings) ≡ option_map h.of_str (lookup key settings)
unfolding lookup
lookup-entries h key [] = refl
lookup-entries h key ((name, val) ∷ settings) = elim (Bool-cases (str_eq name key)) [
  | inl e ↦ rw e refl
  | inr e ↦ rw (e, lookup-entries h key settings) refl
]

-- A setting is stored, on a host whose JSON objects give the first entry of a key. The read that
-- follows is an object that has the value under the key, and under every other key what the object
-- before had.
pub api_set_setting-stores :
    (h : Host)
    → ((fs : Dict h.Value) (k : String) → h.get (h.of_object fs) k ≡ lookup k fs)
    → (db : Db) (key value other : String)
    → (option_map
        (λ v. h.get v other)
        (value_of (api_get_settings h (api_set_setting db key value).1)))
      ≡ (if str_eq key other
          then some (some (h.of_str value))
          else option_map (λ v. h.get v other) (value_of (api_get_settings h db)))
unfolding api_set_setting api_get_settings
api_set_setting-stores h laws db key value other =
    rw (laws, lookup-entries h other, laws, lookup-entries h other, lookup-insert key other value)
      (elim (Bool-cases (str_eq key other)) [ inl e ↦ rw e refl | inr e ↦ rw e refl ])
