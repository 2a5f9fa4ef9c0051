-- ===== src/Start/Triggers.antt =====
-- The statements that a migration is split into.
use Prim.Native.Char.{Char, code}
use Prim.Native.String.{[], ◌∷◌}
use rust_roast.Prelude.{
  ℕ, String, true, false, ◌&&◌, not, List, [], ◌∷◌, map, ◌≡◌, refl, arith, str_eq, eq_iff, nat_eq,
  any, Bool-cases, inl, inr, All, All-select,
}
use rust_roast.Prelude.Pieces.{holds, split_on, to_front}
use rust_roast.Artisan.Text.{is_whitespace}
use rust_roast.Start.{blank, trim_start, trim_end, statements}

All-to_front :
    (sep : ℕ) (c : Char) (pieces : List String)
    → nat_eq (code c) sep ≡ false
    → All (λ s. holds sep s ≡ false) pieces
    → All (λ s. holds sep s ≡ false) (to_front c pieces)
unfolding holds
All-to_front sep c [] e v = (rw e refl, tt)
All-to_front sep c (p ∷ pieces) e v = (rw e v.0, v.1)

pieces_plain : (sep : ℕ) (s : String) → All (λ p. holds sep p ≡ false) (split_on sep s)
unfolding split_on
pieces_plain sep [] = (unfold holds in refl, tt)
pieces_plain sep (c ∷ s) = elim (Bool-cases (nat_eq (code c) sep)) [
  | inl e ↦ rw e (unfold holds in refl, pieces_plain sep s)
  | inr e ↦ rw e (All-to_front sep c (split_on sep s) e (pieces_plain sep s))
]

holds-trim_start : (sep : ℕ) (s : String) → holds sep s ≡ false → holds sep (trim_start s) ≡ false
unfolding trim_start holds
holds-trim_start sep [] e = refl
holds-trim_start sep (c ∷ s) e = elim (Bool-cases (is_whitespace (code c))) [
  | inl k ↦ rw k (holds-trim_start sep s (ground arith))
  | inr k ↦ rw k e
]

holds-trim_end : (sep : ℕ) (s : String) → holds sep s ≡ false → holds sep (trim_end s) ≡ false
unfolding trim_end holds
holds-trim_end sep [] e = refl
holds-trim_end sep (c ∷ s) e = elim (Bool-cases (blank (trim_end s) && is_whitespace (code c))) [
  | inl k ↦ rw k refl
  | inr k ↦ rw k (ground (arith, holds-trim_end sep s))
]

trimmed :
    (pieces : List String)
    → All (λ p. holds b';' p ≡ false) pieces
    → All (λ p. holds b';' p ≡ false) (map (λ s. trim_end (trim_start s)) pieces)
trimmed [] v = tt
trimmed (p ∷ pieces) v =
    (holds-trim_end b';' (trim_start p) (holds-trim_start b';' p v.0), trimmed pieces v.1)

other_text : (t s : String) → holds b';' t ≡ true → holds b';' s ≡ false → str_eq s t ≡ false
other_text t s e k = ground (arith, eq_iff s t)

none_equal :
    (t : String) (ss : List String)
    → holds b';' t ≡ true
    → All (λ s. holds b';' s ≡ false) ss
    → any (λ s. str_eq s t) ss ≡ false
none_equal t [] e v = refl
none_equal t (s ∷ ss) e v = rw (other_text t s e v.0) (none_equal t ss e v.1)

-- A statement with a semicolon inside, such as the creation of a trigger, is not executed from any
-- migration: none of the statements that a text is split into is that statement.
pub statements-none :
    (migration_sql statement : String)
    → holds b';' statement ≡ true
    → any (λ s. str_eq s statement) (statements migration_sql) ≡ false
unfolding statements
statements-none migration_sql statement e = none_equal statement (statements migration_sql) e (
    All-select (λ s. holds b';' s ≡ false) (λ s. holds b';' s ≡ false) (λ s. not (blank s))
      (λ s k v. v) (map (λ s. trim_end (trim_start s)) (split_on b';' migration_sql))
      (trimmed (split_on b';' migration_sql) (pieces_plain b';' migration_sql)))
