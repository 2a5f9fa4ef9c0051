-- ===== src/Prelude/Decimal.antt =====
-- `to_string` of an unsigned integer: its decimal digits, the last one split off in each round.
use Prim.Native.Nat.{ℕ, zero, suc, ◌/◌, ◌%◌}
use Prim.Native.String
use Prim.Native.String.{String}
use mathlib.Core.Path.{◌≡◌, refl, ◌∙◌}
use mathlib.Core.Logic.{inl, inr}
use mathlib.Core.Bool.{true, false}
use native.Mathlib.Omega.{arith}
use rust_roast.Prelude.Tests.{ltb, if◌then◌else◌, Bool-cases}
use rust_roast.Prelude.Pieces.{holds, holds-append}

unfoldable pub digit : ℕ → String
digit zero = "0"
digit (suc zero) = "1"
digit (suc (suc zero)) = "2"
digit (suc (suc (suc zero))) = "3"
digit (suc (suc (suc (suc zero)))) = "4"
digit (suc (suc (suc (suc (suc zero))))) = "5"
digit (suc (suc (suc (suc (suc (suc zero)))))) = "6"
digit (suc (suc (suc (suc (suc (suc (suc zero))))))) = "7"
digit (suc (suc (suc (suc (suc (suc (suc (suc zero)))))))) = "8"
digit _ = "9"

unfoldable pub decimal_from : ℕ → ℕ → String
decimal_from zero n = ""
decimal_from (suc fuel) n =
    let front = decimal_from fuel (n / 10) in
    if ltb n 10 then digit n else String.◌++◌ front (digit (n % 10))

-- Twenty digits are enough for a `u64`.
unfoldable pub to_decimal : ℕ → String
unfolding decimal_from digit
to_decimal n = decimal_from 20 n

holds-digit : (k n : ℕ) → ltb k 48 ≡ true → holds k (digit n) ≡ false
unfolding holds digit
holds-digit k zero e = ground arith
holds-digit k (suc zero) e = ground arith
holds-digit k (suc (suc zero)) e = ground arith
holds-digit k (suc (suc (suc zero))) e = ground arith
holds-digit k (suc (suc (suc (suc zero)))) e = ground arith
holds-digit k (suc (suc (suc (suc (suc zero))))) e = ground arith
holds-digit k (suc (suc (suc (suc (suc (suc zero)))))) e = ground arith
holds-digit k (suc (suc (suc (suc (suc (suc (suc zero))))))) e = ground arith
holds-digit k (suc (suc (suc (suc (suc (suc (suc (suc zero)))))))) e = ground arith
holds-digit k (suc (suc (suc (suc (suc (suc (suc (suc (suc n))))))))) e = ground arith

holds-decimal_from : (k fuel n : ℕ) → ltb k 48 ≡ true → holds k (decimal_from fuel n) ≡ false
unfolding decimal_from holds
holds-decimal_from k zero n e = refl
holds-decimal_from k (suc fuel) n e = elim (Bool-cases (ltb n 10)) [
  | inl c ↦ rw c (holds-digit k n e)
  | inr c ↦ rw c (
      holds-append k (decimal_from fuel (n / 10)) (digit (n % 10))
      ∙ rw (holds-decimal_from k fuel (n / 10) e) (holds-digit k (n % 10) e))
]

-- No character below the digits is printed.
pub holds-to_decimal : (k n : ℕ) → ltb k 48 ≡ true → holds k (to_decimal n) ≡ false
unfolding to_decimal
holds-to_decimal k n e = holds-decimal_from k 20 n e
