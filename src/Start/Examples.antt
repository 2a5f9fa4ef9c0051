-- ===== src/Start/Examples.antt =====
-- The start of the server on a concrete migration.
use rust_roast.Prelude.{String, false, [], ◌∷◌, some, ◌≡◌, refl, any, str_eq, lookup}
use rust_roast.Prelude.Pieces.{holds}
use rust_roast.Start.{statements, init_settings}
use rust_roast.Start.Triggers.{statements-none}

abbrev trigger : String
trigger = "CREATE TRIGGER t AFTER UPDATE ON d BEGIN UPDATE d SET u = 1; END"

abbrev migration : String
migration =
    "CREATE TABLE d (id TEXT);\nCREATE TRIGGER t AFTER UPDATE ON d BEGIN UPDATE d SET u = 1; END;\n"

statements-none_example : any (λ s. str_eq s trigger) (statements migration) ≡ false
statements-none_example = statements-none migration trigger (unfold holds in refl)

broken_trigger :
    statements migration
    ≡ "CREATE TABLE d (id TEXT)" ∷ "CREATE TRIGGER t AFTER UPDATE ON d BEGIN UPDATE d SET u = 1"
      ∷ "END" ∷ []
unfolding statements
broken_trigger = refl

kept_setting : lookup "auto_dry_temp" (init_settings (("auto_dry_temp", "160") ∷ [])) ≡ some "160"
unfolding init_settings lookup
kept_setting = refl
