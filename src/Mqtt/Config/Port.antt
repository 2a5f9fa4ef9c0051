-- ===== src/Mqtt/Config/Port.antt =====
-- A number that is printed is read back as a u16.
use Prim.Native.Char.{code}
use Prim.Native.String.{[], ◌∷◌}
use text.Mathlib.TextLemmas.{nil-append, cons-append}
use rust_roast.Prelude.{
  ℕ, zero, suc, ◌+◌, ◌-◌, ◌*◌, ◌/◌, ◌%◌, ◌^◌, ◌<◌, String, Bool, true, false, some, ◌≡◌, refl, ap,
  ◌∙◌, sym, arith, ltb, leb, Bool-cases, inl, inr, to_decimal, digit, decimal_from,
  holds-to_decimal, ◌&&◌,
}
use rust_roast.Prelude.Pieces.{holds}
use rust_roast.Topics as Topics
use rust_roast.Sessions.Summary.{bind}
use rust_roast.Mqtt.Config.{parse_digits, parse_u16}

parse-append :
    (acc : ℕ) (s t : String)
    → parse_digits acc (Topics.◌++◌ s t) ≡ bind (parse_digits acc s) (λ a. parse_digits a t)
unfolding parse_digits
parse-append acc [] t = rw nil-append refl
parse-append acc (c ∷ s) t =
    elim (Bool-cases
      ((leb 48 (code c) && leb (code c) 57) && ltb (acc * 10 + (code c - 48)) (2 ^ 16))) [
        | inl e ↦ rw (cons-append, e) (parse-append (acc * 10 + (code c - 48)) s t)
        | inr e ↦ rw (cons-append, e) refl
      ]

parse-digit :
    (acc n : ℕ) → n < 10 → acc * 10 + n < 2 ^ 16 → parse_digits acc (digit n) ≡ some (acc * 10 + n)
unfolding parse_digits digit
parse-digit acc zero k e = ground arith
parse-digit acc (suc zero) k e = ground arith
parse-digit acc (suc (suc zero)) k e = ground arith
parse-digit acc (suc (suc (suc zero))) k e = ground arith
parse-digit acc (suc (suc (suc (suc zero)))) k e = ground arith
parse-digit acc (suc (suc (suc (suc (suc zero))))) k e = ground arith
parse-digit acc (suc (suc (suc (suc (suc (suc zero)))))) k e = ground arith
parse-digit acc (suc (suc (suc (suc (suc (suc (suc zero))))))) k e = ground arith
parse-digit acc (suc (suc (suc (suc (suc (suc (suc (suc zero)))))))) k e = ground arith
parse-digit acc (suc (suc (suc (suc (suc (suc (suc (suc (suc n))))))))) k e = ground arith

last-digit :
    (acc d n : ℕ) → d < 10 → n ≡ acc * 10 + d → n < 2 ^ 16 → parse_digits acc (digit d) ≡ some n
last-digit acc d n k e l = parse-digit acc d k (omega (arith, e)) ∙ ap some (sym e)

-- Enough digits for a number below a power of ten.
parse-decimal_from :
    (fuel n : ℕ) → n < 10 ^ fuel → n < 2 ^ 16 → parse_digits 0 (decimal_from fuel n) ≡ some n
unfolding parse_digits decimal_from
parse-decimal_from zero n k e = ap some (omega arith)
parse-decimal_from (suc fuel) n k e =
    let rest = parse-decimal_from fuel (n / 10) (omega arith) (omega arith) in
    elim (Bool-cases (ltb n 10)) [
      | inl c ↦ rw c (last-digit 0 n n (ground arith) (omega arith) e)
      | inr c ↦ rw c (
          parse-append 0 (decimal_from fuel (n / 10)) (digit (n % 10))
          ∙ ap (λ o. bind o (λ a. parse_digits a (digit (n % 10)))) rest
          ∙ last-digit (n / 10) (n % 10) n (omega arith) (omega arith) e)
    ]

abbrev pub blank : String → Bool
blank [] = true
blank (c ∷ s) = false

-- No sign is printed, and a digit at least.
unsigned :
    (s : String) (n : ℕ)
    → holds b'+' s ≡ false
    → blank s ≡ false
    → parse_digits 0 s ≡ some n
    → parse_u16 s ≡ some n
unfolding parse_u16 holds
unsigned [] n k b e = cc
unsigned (c ∷ s) n k b e = ground arith

blank-digit : (n : ℕ) → blank (digit n) ≡ false
unfolding digit
blank-digit zero = refl
blank-digit (suc zero) = refl
blank-digit (suc (suc zero)) = refl
blank-digit (suc (suc (suc zero))) = refl
blank-digit (suc (suc (suc (suc zero)))) = refl
blank-digit (suc (suc (suc (suc (suc zero))))) = refl
blank-digit (suc (suc (suc (suc (suc (suc zero)))))) = refl
blank-digit (suc (suc (suc (suc (suc (suc (suc zero))))))) = refl
blank-digit (suc (suc (suc (suc (suc (suc (suc (suc zero)))))))) = refl
blank-digit (suc (suc (suc (suc (suc (suc (suc (suc (suc n))))))))) = refl

blank-append : (s t : String) → blank t ≡ false → blank (Topics.◌++◌ s t) ≡ false
blank-append [] t e = rw nil-append e
blank-append (c ∷ s) t e = rw cons-append refl

printed : (fuel n : ℕ) → blank (decimal_from (suc fuel) n) ≡ false
unfolding decimal_from
printed fuel n = elim (Bool-cases (ltb n 10)) [
  | inl c ↦ rw c (blank-digit n)
  | inr c ↦ rw c (blank-append (decimal_from fuel (n / 10)) (digit (n % 10)) (blank-digit (n % 10)))
]

-- A u16 that is printed is read back.
pub parse_u16-to_decimal : (n : ℕ) → n < 2 ^ 16 → parse_u16 (to_decimal n) ≡ some n
unfolding to_decimal
parse_u16-to_decimal n e =
    unsigned (decimal_from 20 n) n (holds-to_decimal b'+' n refl) (printed 19 n)
      (parse-decimal_from 20 n (omega arith) e)
