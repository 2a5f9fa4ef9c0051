-- ===== src/Csv/Printed.antt =====
-- What the rows of an exported CSV file say of each point, by the names of the columns.
use rust_roast.Prelude.{
  ℕ, suc, ℤ, pos, negsuc, to_decimal, String, List, [], ◌∷◌, map, Option, none, some, ◌≡◌, refl, ap,
  ◌∙◌,
}
use rust_roast.Host.{Host}
use rust_roast.Topics as Topics
use rust_roast.Models.SessionRows.{SessionTelemetry}
use rust_roast.Csv.{show_i32, shown, columns, fields}

-- An integer in decimal, with a minus sign before a negative one.
abbrev pub decimal : ℤ → String
decimal (pos n) = to_decimal n
decimal (negsuc n) = Topics.◌++◌ "-" (to_decimal (suc n))

-- What a row of the file says of a point: each column's name with the point's text there, which is
-- empty if the point has no value.
abbrev pub printed : Host → SessionTelemetry → List (String × String)
printed h t =
    ("elapsed_seconds", h.show_f32 t.elapsed_seconds)
    ∷ ("bean_temp", elim t.bean_temp [ none ↦ "" | some x ↦ h.show_f32 x ])
    ∷ ("env_temp", elim t.env_temp [ none ↦ "" | some x ↦ h.show_f32 x ])
    ∷ ("rate_of_rise", elim t.rate_of_rise [ none ↦ "" | some x ↦ h.show_f32 x ])
    ∷ ("heater_pwm", elim t.heater_pwm [ none ↦ "" | some z ↦ decimal z ])
    ∷ ("fan_pwm", elim t.fan_pwm [ none ↦ "" | some z ↦ decimal z ])
    ∷ ("setpoint", elim t.setpoint [ none ↦ "" | some x ↦ h.show_f32 x ])
    ∷ []

-- A row of texts under the names of the columns.
abbrev pub under : List String → List String → List (String × String)
under (name ∷ names) (text ∷ texts) = (name, text) ∷ under names texts
under [] texts = []
under (name ∷ names) [] = []

-- What a reader makes of the lines of a table: the first line names the columns of the others.
abbrev pub by_columns : List (List String) → List (List (String × String))
by_columns [] = []
by_columns (names ∷ lines) = map (under names) lines

show_i32-decimal : (z : ℤ) → show_i32 z ≡ decimal z
unfolding show_i32
show_i32-decimal (pos n) = refl
show_i32-decimal (negsuc n) = refl

real_text :
    (show : ℕ → String) (o : Option ℕ) → shown show o ≡ (elim o [ none ↦ "" | some x ↦ show x ])
real_text show none = refl
real_text show (some x) = refl

integer_text : (o : Option ℤ) → shown show_i32 o ≡ (elim o [ none ↦ "" | some z ↦ decimal z ])
integer_text none = refl
integer_text (some z) = show_i32-decimal z

under-printed : (h : Host) (t : SessionTelemetry) → under columns (fields h t) ≡ printed h t
under-printed h t =
    rw
      (
        real_text h.show_f32 t.bean_temp,
        real_text h.show_f32 t.env_temp,
        real_text h.show_f32 t.rate_of_rise,
        integer_text t.heater_pwm,
        integer_text t.fan_pwm,
        real_text h.show_f32 t.setpoint,
      )
      refl

pub all_printed :
    (h : Host) (ts : List SessionTelemetry)
    → by_columns (columns ∷ map (fields h) ts) ≡ map (printed h) ts
all_printed h [] = refl
all_printed h (t ∷ ts) =
    ap (λ row. row ∷ by_columns (columns ∷ map (fields h) ts)) (under-printed h t)
    ∙ ap (λ rows. printed h t ∷ rows) (all_printed h ts)
