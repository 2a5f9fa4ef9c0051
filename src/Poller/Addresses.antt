-- ===== src/Poller/Addresses.antt =====
-- Which addresses of a register map the decoder survives.
use rust_roast.Prelude.{
  ℕ, zero, suc, ◌-◌, ◌^◌, ◌≤◌, ◌<◌, ◌≡◌, refl, List, [], ◌∷◌, none, some, pos, negsuc, ℤ, Dict,
  get_elem?, length, All, insert, drop, arith, as_usize, as_i32,
}
use rust_roast.Host.{Host}
use rust_roast.Models.DeviceRows.{ModbusRegisterMap}
use rust_roast.Models.ModbusDataType.{ModbusDataType, uint16, int16, float32, uint32, int32, bool}
use rust_roast.Modbus.Registers.{registers_to_f32}
use rust_roast.Poller.Readings.{read_value, raw_value-lem, reading, put-reading}
use rust_roast.Poller.{raw_value, decode_registers, width, put, two_words, join_words}

-- An address that an `i32` holds and that is not negative.
abbrev pub IsAddress : ℤ → Type 0
IsAddress (pos n) = n < 2 ^ 31
IsAddress (negsuc n) = ⊥

as_usize-address : (z : ℤ) → IsAddress z → as_usize z < 2 ^ 31
unfolding as_usize
as_usize-address (pos n) b = omega arith
as_usize-address (negsuc n) b = elim b [ ]

get_elem?-none : (xs : List ℕ) (i : ℕ) → length xs ≤ i → get_elem? xs i ≡ none
get_elem?-none [] i h = refl
get_elem?-none (x ∷ xs) zero h = absurd (omega arith)
get_elem?-none (x ∷ xs) (suc i) h = get_elem?-none xs i (omega arith)

two_words-wraps {ℓ} :
    {A : Type ℓ} (word : ℕ) (words : List ℕ) (f : ℕ → ℕ → A)
    → length words < 2 ^ 63
    → two_words (word ∷ words) (2 ^ 64 - 1) f ≡ none
two_words-wraps word words f l =
    rw (get_elem?-none (word ∷ words) (2 ^ 64 - 1) (omega arith)) (ground arith)

module _ (h : Host) where
  open h use {F64, Value, of_int, of_f32, to_i64, mul, add, div, round, of_i64, of_f64}

  raw_value-wraps :
      (t : ModbusDataType) (word : ℕ) (words : List ℕ)
      → width t ≡ 2
      → length words < 2 ^ 63
      → raw_value h t (word ∷ words) (2 ^ 64 - 1) ≡ none
  unfolding raw_value
  raw_value-wraps uint16 word words w l = absurd (omega arith)
  raw_value-wraps int16 word words w l = absurd (omega arith)
  raw_value-wraps float32 word words w l =
      two_words-wraps word words (λ hi lo. of_f32 (registers_to_f32 hi lo)) l
  raw_value-wraps uint32 word words w l =
      two_words-wraps word words (λ hi lo. of_int (pos (join_words hi lo))) l
  raw_value-wraps int32 word words w l =
      two_words-wraps word words (λ hi lo. of_int (as_i32 (join_words hi lo))) l
  raw_value-wraps bool word words w l = absurd (omega arith)

  -- The payload with the value of each register of the map in turn, by its name.
  abbrev pub with_readings : List (ModbusRegisterMap F64) → List ℕ → Dict Value → Dict Value
  with_readings [] words payload = payload
  with_readings (reg ∷ regs) words payload =
      with_readings regs words
        (elim (read_value h reg.data_type (drop (as_usize reg.address) words)) [
          | none ↦ payload
          | some raw ↦ insert reg.name (reading h reg raw) payload
        ])

  -- With addresses that are not negative, the decoder does not panic, however many registers the
  -- device sent. It adds to the payload, register by register of the map and under its name, the
  -- value that the words from its address give, scaled and shifted: as a whole number if it is of
  -- one word and has no scale, and rounded to two decimals otherwise. A value whose words are
  -- missing is left out.
  pub decode_registers-total :
      (regs : List (ModbusRegisterMap F64)) (words : List ℕ) (payload : Dict Value)
      → All (λ r. IsAddress r.address) regs
      → decode_registers h regs words payload ≡ some (with_readings regs words payload)
  unfolding decode_registers
  decode_registers-total [] words payload a = refl
  decode_registers-total (reg ∷ regs) words payload a =
      let addr = as_usize reg.address in
      let step : put h reg (read_value h reg.data_type (drop addr words)) payload
          ≡ (elim (read_value h reg.data_type (drop addr words)) [
            | none ↦ payload
            | some raw ↦ insert reg.name (reading h reg raw) payload
          ]) =
        put-reading h reg (read_value h reg.data_type (drop addr words)) payload in
      rw
        (
          raw_value-lem h reg.data_type words addr (as_usize-address reg.address a.0),
          decode_registers-total regs words
              (put h reg (read_value h reg.data_type (drop addr words)) payload) a.1,
          step,
        )
        refl

  -- A value of two registers at the address -1 makes the decoder panic, whatever the device sent,
  -- as soon as it sent a register: `addr + 1` wraps to 0, so the bounds test passes, and the
  -- index is out of range. Nothing keeps such an address out of a register map.
  pub decode_registers-panics :
      (reg : ModbusRegisterMap F64) (regs : List (ModbusRegisterMap F64)) (word : ℕ)
      (words : List ℕ) (payload : Dict Value)
      → reg.address ≡ negsuc 0
      → width reg.data_type ≡ 2
      → length words < 2 ^ 63
      → decode_registers h (reg ∷ regs) (word ∷ words) payload ≡ none
  unfolding decode_registers as_usize
  decode_registers-panics reg regs word words payload e w l =
      rw (e, raw_value-wraps reg.data_type word words w l)
