-- ===== src/Start/Defaults.antt =====
-- What the start of the server leaves of the settings.
use rust_roast.Prelude.{
  String, [], ◌∷◌, ◌++◌, Option, none, some, Dict, lookup, ◌≡◌, refl, ◌∙◌, sym, ap, subst, str_eq,
  eq_iff, Bool-cases, Option-cases, inl, inr,
}
use rust_roast.Tables.{or_else}
use rust_roast.Start.{default_settings, insert_or_ignore, insert_settings, init_settings}

lookup-append :
    (key : String) (a b : Dict String) → lookup key (a ++ b) ≡ or_else (lookup key a) (lookup key b)
unfolding lookup
lookup-append key [] b = refl
lookup-append key ((name, val) ∷ a) b = elim (Bool-cases (str_eq name key)) [
  | inl e ↦ rw e refl
  | inr e ↦ rw (e, lookup-append key a b) refl
]

or_else-none : (o : Option String) → or_else o none ≡ o
or_else-none none = refl
or_else-none (some a) = refl

or_else_assoc : (a b c : Option String) → or_else (or_else a b) c ≡ or_else a (or_else b c)
or_else_assoc none b c = refl
or_else_assoc (some a) b c = refl

insert_or_ignore-lookup :
    (entry : String × String) (key : String) (s : Dict String)
    → lookup key (insert_or_ignore entry s) ≡ or_else (lookup key s) (lookup key (entry ∷ []))
unfolding insert_or_ignore lookup
insert_or_ignore-lookup (name, val) key s = elim (Option-cases (lookup name s)) [
  | inl e ↦ rw (insert_or_ignore, e) (lookup-append key s ((name, val) ∷ []))
  | inr (old, e) ↦ elim (Bool-cases (str_eq name key)) [
    | inr k ↦ rw (insert_or_ignore, e, k) (sym (or_else-none (lookup key s)))
    | inl k ↦
        let found : lookup key s ≡ some old =
          subst (λ n. lookup n s ≡ some old) ((eq_iff name key).0 k) e in
        rw (insert_or_ignore, e, k, found) refl
  ]
]

insert_settings-lookup :
    (entries : Dict String) (key : String) (s : Dict String)
    → lookup key (insert_settings entries s) ≡ or_else (lookup key s) (lookup key entries)
unfolding insert_settings
insert_settings-lookup [] key s = sym (or_else-none (lookup key s))
insert_settings-lookup (entry ∷ entries) key s =
    insert_settings-lookup entries key (insert_or_ignore entry s)
    ∙ ap (λ o. or_else o (lookup key entries)) (insert_or_ignore-lookup entry key s)
    ∙ or_else_assoc (lookup key s) (lookup key (entry ∷ [])) (lookup key entries)
    ∙ ap (or_else (lookup key s)) (sym (lookup-append key (entry ∷ []) entries))

-- A start of the server keeps every setting that is stored and gives every other the default.
pub init_settings-lookup :
    (key : String) (settings : Dict String)
    → lookup key (init_settings settings)
      ≡ or_else (lookup key settings) (lookup key default_settings)
unfolding init_settings
init_settings-lookup key settings = insert_settings-lookup default_settings key settings
