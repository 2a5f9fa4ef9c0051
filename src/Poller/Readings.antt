-- ===== src/Poller/Readings.antt =====
-- What the words that a device sent say of a register, against the decoder of the poller.
use rust_roast.Prelude.{
  ℕ, zero, suc, ◌+◌, ◌%◌, ◌^◌, ◌<◌, ◌≡◌, refl, List, [], ◌∷◌, Option, none, some, pos, Dict,
  get_elem?, length, ltb, true, false, ◌*◌, ap, insert, drop, nat_eq, if◌then◌else◌, arith, as_i16,
  as_i32,
}
use rust_roast.Host.{Host}
use rust_roast.Models.DeviceRows.{ModbusRegisterMap}
use rust_roast.Models.ModbusDataType.{ModbusDataType, uint16, int16, float32, uint32, int32, bool}
use rust_roast.Modbus.Registers.{registers_to_f32}
use rust_roast.Modbus.{◌>>=◌}
use rust_roast.Poller.{raw_value, put, two_words, one_word, is_integer, json_value}

-- What a function makes of the first word of a list, or of the first two.
abbrev pub first_word {ℓ} : {A : Type ℓ} → (ℕ → A) → List ℕ → Option A
first_word f [] = none
first_word f (v ∷ words) = some (f v)

abbrev pub first_two {ℓ} : {A : Type ℓ} → (ℕ → ℕ → A) → List ℕ → Option A
first_two f [] = none
first_two f (hi ∷ []) = none
first_two f (hi ∷ lo ∷ words) = some (f hi lo)

one_word-lem {ℓ} :
    {A : Type ℓ} (words : List ℕ) (addr : ℕ) (f : ℕ → A)
    → one_word words addr f ≡ some (first_word f (drop addr words))
one_word-lem [] zero f = refl
one_word-lem [] (suc i) f = refl
one_word-lem (v ∷ words) zero f = refl
one_word-lem (v ∷ words) (suc i) f = one_word-lem words i f

two_words-at {ℓ} :
    {A : Type ℓ} (words : List ℕ) (i : ℕ) (f : ℕ → ℕ → A)
    → (if ltb (suc i) (length words)
        then (do hi ← get_elem? words i; lo ← get_elem? words (suc i); some (some (f hi lo)))
        else some none)
      ≡ some (first_two f (drop i words))
two_words-at [] zero f = refl
two_words-at [] (suc i) f = let short : ltb (suc (suc i)) 0 ≡ false = ground arith in rw short refl
two_words-at (hi ∷ []) zero f = refl
two_words-at (hi ∷ lo ∷ words) zero f =
    let long : ltb 1 (length (hi ∷ lo ∷ words)) ≡ true = ground arith in rw long refl
two_words-at (v ∷ words) (suc i) f =
    let shorter : ltb (suc (suc i)) (length (v ∷ words)) ≡ ltb (suc i) (length words) =
      ground arith in
    rw shorter (two_words-at words i f)

two_words-lem {ℓ} :
    {A : Type ℓ} (words : List ℕ) (addr : ℕ) (f : ℕ → ℕ → A)
    → addr < 2 ^ 31
    → two_words words addr f ≡ some (first_two f (drop addr words))
two_words-lem words addr f b =
    let next : (addr + 1) % 2 ^ 64 ≡ suc addr = omega arith in rw next (two_words-at words addr f)

module _ (h : Host) where
  open h use {F64, Value, of_int, of_f32, to_i64, mul, add, div, round, of_i64, of_f64}

  -- The value that the first words give: of one word, or of two with the high one first.
  abbrev pub read_value : ModbusDataType → List ℕ → Option F64
  read_value uint16 = first_word (λ v. of_int (pos v))
  read_value int16 = first_word (λ v. of_int (as_i16 v))
  read_value bool = first_word (λ v. of_int (if nat_eq v 0 then pos 0 else pos 1))
  read_value float32 = first_two (λ hi lo. of_f32 (registers_to_f32 hi lo))
  read_value uint32 = first_two (λ hi lo. of_int (pos (hi * 2 ^ 16 + lo)))
  read_value int32 = first_two (λ hi lo. of_int (as_i32 (hi * 2 ^ 16 + lo)))

  pub raw_value-lem :
      (t : ModbusDataType) (words : List ℕ) (addr : ℕ)
      → addr < 2 ^ 31
      → raw_value h t words addr ≡ some (read_value t (drop addr words))
  unfolding raw_value
  raw_value-lem uint16 words addr b = one_word-lem words addr _
  raw_value-lem int16 words addr b = one_word-lem words addr _
  raw_value-lem float32 words addr b = two_words-lem words addr _ b
  raw_value-lem uint32 words addr b = two_words-lem words addr _ b
  raw_value-lem int32 words addr b = two_words-lem words addr _ b
  raw_value-lem bool words addr b = one_word-lem words addr _

  -- The value of a register: scaled and shifted, then a whole number if its type is of one word and
  -- it has no scale, and rounded to two decimals otherwise.
  abbrev pub reading : ModbusRegisterMap F64 → F64 → Value
  reading reg raw =
      let scaled : F64 = elim reg.scale_factor [ none ↦ raw | some scale ↦ mul raw scale ] in
      let val : F64 = elim reg.offset [ none ↦ scaled | some offset ↦ add scaled offset ] in
      let rounded : Value = of_f64 (div (round (mul val (of_int (pos 100)))) (of_int (pos 100))) in
      let whole : Value = elim reg.scale_factor [
        | none ↦ of_i64 (to_i64 val)
        | some scale ↦ rounded
      ] in
      elim reg.data_type [
        | uint16 ↦ whole
        | int16 ↦ whole
        | bool ↦ whole
        | float32 ↦ rounded
        | uint32 ↦ rounded
        | int32 ↦ rounded
      ]

  by_type :
      (t : ModbusDataType) (whole rounded : Value)
      → (elim t [
        | uint16 ↦ whole
        | int16 ↦ whole
        | bool ↦ whole
        | float32 ↦ rounded
        | uint32 ↦ rounded
        | int32 ↦ rounded
      ])
        ≡ (if is_integer h t then whole else rounded)
  by_type uint16 whole rounded = refl
  by_type int16 whole rounded = refl
  by_type bool whole rounded = refl
  by_type float32 whole rounded = refl
  by_type uint32 whole rounded = refl
  by_type int32 whole rounded = refl

  json_value-reading :
      (reg : ModbusRegisterMap F64) (raw : F64) → json_value h reg raw ≡ reading reg raw
  json_value-reading reg raw = rw (by_type reg.data_type _ _) (ground arith)

  pub put-reading :
      (reg : ModbusRegisterMap F64) (o : Option F64) (payload : Dict Value)
      → put h reg o payload
        ≡ (elim o [ none ↦ payload | some raw ↦ insert reg.name (reading reg raw) payload ])
  put-reading reg none payload = refl
  put-reading reg (some raw) payload =
      ap (λ v. insert reg.name v payload) (json_value-reading reg raw)
