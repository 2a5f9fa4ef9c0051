-- ===== src/Prelude/Pieces.antt =====
-- Texts made of pieces between separators, and the pieces read back.
use Prim.Native.Nat.{ℕ}
use Prim.Native.Char.{Char, code}
use Prim.Native.String
use Prim.Native.String.{String, [], ◌∷◌}
use mathlib.Core.Path.{◌≡◌, refl, ◌∙◌}
use mathlib.Core.Bool.{Bool, true, false, ◌||◌}
use mathlib.Core.List.{List, [], ◌∷◌, ◌++◌}
use native.Mathlib.Omega.{arith}
use text.Mathlib.TextLemmas.{nil-append, cons-append}
use rust_roast.Prelude.Tests.{nat_eq, if◌then◌else◌}
use rust_roast.Prelude.Lists.{All}

infixr 65 ◌⁀◌
abbrev ◌⁀◌ : String → String → String
s ⁀ t = String.◌++◌ s t

-- Whether a character of the code stands in the text.
unfoldable pub holds : ℕ → String → Bool
holds sep [] = false
holds sep (c ∷ s) = nat_eq (code c) sep || holds sep s

abbrev pub to_front : Char → List String → List String
to_front c [] = (c ∷ []) ∷ []
to_front c (piece ∷ pieces) = (c ∷ piece) ∷ pieces

-- `split` of the standard library at a character.
unfoldable pub split_on : ℕ → String → List String
split_on sep [] = "" ∷ []
split_on sep (c ∷ s) =
    let pieces = split_on sep s in if nat_eq (code c) sep then "" ∷ pieces else to_front c pieces

-- `join(",")`
unfoldable pub commas : List String → String
commas [] = ""
commas (s ∷ []) = s
commas (s ∷ t ∷ rest) = s ⁀ "," ⁀ commas (t ∷ rest)

-- The lines one after the other, each with its end.
unfoldable pub lined : List String → String
lined [] = ""
lined (s ∷ rest) = s ⁀ "\n" ⁀ lined rest

pub holds-append : (sep : ℕ) (s t : String) → holds sep (s ⁀ t) ≡ holds sep s || holds sep t
unfolding holds
holds-append sep [] t = rw nil-append refl
holds-append sep (c ∷ s) t = rw cons-append (ground (arith, holds-append sep s t))

split_on-last : (sep : ℕ) (s : String) → holds sep s ≡ false → split_on sep s ≡ s ∷ []
unfolding split_on holds
split_on-last sep [] k = refl
split_on-last sep (c ∷ s) k = ground (arith, split_on-last sep s)

split_on-append :
    (sep : ℕ) (s : String) (d : Char) (t : String)
    → holds sep s ≡ false
    → nat_eq (code d) sep ≡ true
    → split_on sep (s ⁀ (d ∷ t)) ≡ s ∷ split_on sep t
unfolding split_on holds
split_on-append sep [] d t k e = rw (nil-append, e) refl
split_on-append sep (c ∷ s) d t k e = rw cons-append (ground (arith, split_on-append sep s d t))

-- Fields without a comma are read back from their line.
pub split_on-commas :
    (s : String) (rest : List String)
    → All (λ t. holds b',' t ≡ false) (s ∷ rest)
    → split_on b',' (commas (s ∷ rest)) ≡ s ∷ rest
unfolding commas
split_on-commas s [] v = split_on-last b',' s v.0
split_on-commas s (t ∷ rest) v =
    rw (cons-append, nil-append)
      (split_on-append b',' s "," (commas (t ∷ rest)) v.0 refl
        ∙ rw (split_on-commas t rest v.1) refl)

-- Lines without an end of line are read back, before an empty piece.
pub split_on-lined :
    (ls : List String) → All (λ t. holds 10 t ≡ false) ls → split_on 10 (lined ls) ≡ ls ++ "" ∷ []
unfolding lined
split_on-lined [] v = unfold split_on in refl
split_on-lined (s ∷ rest) v =
    rw (cons-append, nil-append)
      (split_on-append 10 s "\n" (lined rest) v.0 refl ∙ rw (split_on-lined rest v.1) refl)

pub holds-commas :
    (sep : ℕ) (fs : List String)
    → nat_eq b',' sep ≡ false
    → All (λ t. holds sep t ≡ false) fs
    → holds sep (commas fs) ≡ false
unfolding commas holds
holds-commas sep [] e v = refl
holds-commas sep (s ∷ []) e v = v.0
holds-commas sep (s ∷ t ∷ rest) e v = ground (
  arith,
  holds-append sep s ("," ⁀ commas (t ∷ rest)),
  holds-append sep "," (commas (t ∷ rest)),
  holds-commas sep (t ∷ rest) e v.1,
)
