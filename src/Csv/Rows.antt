-- ===== src/Csv/Rows.antt =====
-- The rows of an exported CSV file, and the fields that are read back from them.
use Prim.Native.Char.{code}
use Prim.Native.String.{[], ◌∷◌}
use text.Mathlib.TextLemmas.{nil-append, cons-append}
use rust_roast.Prelude.{
  ℕ, ℤ, pos, negsuc, suc, String, Bool, true, false, not, List, [], ◌∷◌, map, Option, none, some,
  ◌≡◌, refl, arith, nat_eq, select, All, holds-to_decimal,
}
use rust_roast.Prelude.Pieces.{commas, holds, split_on, split_on-commas, holds-commas}
use rust_roast.Host.{Host}
use rust_roast.Topics as Topics
use rust_roast.Models.SessionRows.{SessionTelemetry}
use rust_roast.Csv.{show_i32, shown, fields}

-- A line that is not empty and no comment.
abbrev pub is_row : String → Bool
is_row [] = false
is_row (c ∷ s) = not (nat_eq (code c) b'#')

-- The rows of a CSV file with comments: its fields by commas.
unfoldable pub read_csv : String → List (List String)
unfolding split_on
read_csv text = map (split_on b',') (select is_row (split_on 10 text))

-- A text that a reader takes for one field.
abbrev pub IsPlain : String → Type 0
IsPlain s = (holds b',' s ≡ false) × ((holds 10 s ≡ false) × (holds b'#' s ≡ false))

-- A text on one line.
abbrev pub IsOneLine : String → Type 0
IsOneLine s = holds 10 s ≡ false

show_i32-IsPlain : (z : ℤ) → IsPlain (show_i32 z)
unfolding show_i32 holds
show_i32-IsPlain (pos n) =
    (holds-to_decimal b',' n refl, (holds-to_decimal 10 n refl, holds-to_decimal b'#' n refl))
show_i32-IsPlain (negsuc n) = (
  rw (cons-append, nil-append) (holds-to_decimal b',' (suc n) refl),
  (
    rw (cons-append, nil-append) (holds-to_decimal 10 (suc n) refl),
    rw (cons-append, nil-append) (holds-to_decimal b'#' (suc n) refl),
  ),
)

shown-IsPlain {ℓ} :
    {A : Type ℓ} (show : A → String) (o : Option A)
    → ((a : A) → IsPlain (show a))
    → IsPlain (shown show o)
unfolding holds
shown-IsPlain show none f = (refl, (refl, refl))
shown-IsPlain show (some a) f = f a

module _ (h : Host) (plain : (x : ℕ) → IsPlain (h.show_f32 x)) where
  fields-IsPlain : (t : SessionTelemetry) → All IsPlain (fields h t)
  fields-IsPlain t = (
    plain t.elapsed_seconds,
    (
      shown-IsPlain h.show_f32 t.bean_temp plain,
      (
        shown-IsPlain h.show_f32 t.env_temp plain,
        (
          shown-IsPlain h.show_f32 t.rate_of_rise plain,
          (
            shown-IsPlain show_i32 t.heater_pwm show_i32-IsPlain,
            (
              shown-IsPlain show_i32 t.fan_pwm show_i32-IsPlain,
              (shown-IsPlain h.show_f32 t.setpoint plain, tt),
            ),
          ),
        ),
      ),
    ),
  )

no_commas : (fs : List String) → All IsPlain fs → All (λ t. holds b',' t ≡ false) fs
no_commas [] v = tt
no_commas (f ∷ fs) v = (v.0.0, no_commas fs v.1)

no_ends : (fs : List String) → All IsPlain fs → All IsOneLine fs
no_ends [] v = tt
no_ends (f ∷ fs) v = (v.0.1.0, no_ends fs v.1)

row-append :
    (s t : String) → holds b'#' s ≡ false → is_row (Topics.◌++◌ s (Topics.◌++◌ "," t)) ≡ true
unfolding holds
row-append [] t k = rw (nil-append, cons-append) refl
row-append (c ∷ s) t k = rw cons-append (ground arith)

-- The line of two fields or more is a row, and gives the fields.
commas-IsRow :
    (s t : String) (fs : List String)
    → All IsPlain (s ∷ t ∷ fs)
    → (is_row (commas (s ∷ t ∷ fs)) ≡ true)
      × ((holds 10 (commas (s ∷ t ∷ fs)) ≡ false)
          × (split_on b',' (commas (s ∷ t ∷ fs)) ≡ s ∷ t ∷ fs))
unfolding commas
commas-IsRow s t fs v = (
  row-append s (commas (t ∷ fs)) v.0.1.1,
  (
    holds-commas 10 (s ∷ t ∷ fs) refl (no_ends (s ∷ t ∷ fs) v),
    split_on-commas s (t ∷ fs) (no_commas (s ∷ t ∷ fs) v),
  ),
)

module _ (h : Host) (plain : (x : ℕ) → IsPlain (h.show_f32 x)) where
  pub rows-read :
      (ts : List SessionTelemetry)
      → map (split_on b',') (select is_row (map (λ t. commas (fields h t)) ts)) ≡ map (fields h) ts
  rows-read [] = refl
  rows-read (t ∷ ts) =
      let (row, (line, split)) =
        commas-IsRow (h.show_f32 t.elapsed_seconds) (shown h.show_f32 t.bean_temp)
          (shown h.show_f32 t.env_temp
            ∷ shown h.show_f32 t.rate_of_rise
            ∷ shown show_i32 t.heater_pwm
            ∷ shown show_i32 t.fan_pwm
            ∷ shown h.show_f32 t.setpoint
            ∷ [])
          (fields-IsPlain h plain t) in
      rw (row, split, rows-read ts) refl

  pub rows-one_lines :
      (ts : List SessionTelemetry) → All IsOneLine (map (λ t. commas (fields h t)) ts)
  rows-one_lines [] = tt
  rows-one_lines (t ∷ ts) = (
    holds-commas 10 (fields h t) refl (no_ends (fields h t) (fields-IsPlain h plain t)),
    rows-one_lines ts,
  )
