-- ===== src/Poller.antt =====
-- The Modbus poller of crates/server/src/device_poller.rs. A panic is the absence of a result
-- (`none`); `usize` and `u16` arithmetic wraps, as in the release build that the image runs.
mod Examples
pub mod FieldNames
pub mod Readings
pub mod Addresses
pub mod Loops
pub mod EndToEnd
use rust_roast.Prelude.{
  ℕ, suc, ◌+◌, ◌*◌, ◌%◌, ◌^◌, max, String, Bool, true, false, List, [], ◌∷◌, Option, none, some,
  Result, ok, err, ℤ, pos, as_i16, as_i32, as_u16, as_usize, nat_eq, ltb, if◌then◌else◌, length,
  get_elem?, select, Dict, lookup, insert, remove,
}
use rust_roast.Host.{Host}
use rust_roast.Models.ModbusRegisterType.{ModbusRegisterType, input, holding, coil, discrete}
use rust_roast.Models.ModbusDataType.{ModbusDataType, uint16, int16, float32, uint32, int32, bool}
use rust_roast.Models.DeviceRows.{ModbusRegisterMap}
use rust_roast.Modbus.Registers.{registers_to_f32}
use rust_roast.Modbus.{◌>>=◌}

-- The number of registers that a value takes.
abbrev pub width : ModbusDataType → ℕ
width float32 = 2
width uint32 = 2
width int32 = 2
width _ = 1

abbrev pub is_input : ModbusRegisterType → Bool
is_input input = true
is_input _ = false

abbrev pub is_holding : ModbusRegisterType → Bool
is_holding holding = true
is_holding _ = false

-- `hi << 16 | lo` of two 16-bit words.
abbrev pub join_words : ℕ → ℕ → ℕ
join_words hi lo = hi * 2 ^ 16 + lo

-- The branch of a value of two registers; the index panics where it is out of range.
abbrev pub two_words {ℓ} : {A : Type ℓ} → List ℕ → ℕ → (ℕ → ℕ → A) → Option (Option A)
two_words data' addr f =
    if ltb ((addr + 1) % 2 ^ 64) (length data')
    then (do
      hi ← get_elem? data' addr
      lo ← get_elem? data' ((addr + 1) % 2 ^ 64)
      some (some (f hi lo)))
    else some none

abbrev pub one_word {ℓ} : {A : Type ℓ} → List ℕ → ℕ → (ℕ → A) → Option (Option A)
one_word data' addr f = elim (get_elem? data' addr) [
  | none ↦ some none
  | some v ↦ some (some (f v))
]

-- The pairs of `normalize_field_names`.
abbrev pub mappings : List (String × String)
mappings =
    ("bean_temp", "beanTemp")
    ∷ ("env_temp", "envTemp")
    ∷ ("rate_of_rise", "rateOfRise")
    ∷ ("heater_pwm", "heaterPWM")
    ∷ ("fan_pwm", "fanPWM")
    ∷ ("control_mode", "controlMode")
    ∷ ("heater_enable", "heaterEnable")
    ∷ ("system_status", "systemStatus")
    ∷ ("free_heap", "freeHeap")
    ∷ ("fan_pwm_setpoint", "fanPWM_setpoint")
    ∷ ("heater_pwm_setpoint", "heaterPWM_setpoint")
    ∷ ("emergency_stop", "emergencyStop")
    ∷ []

module _ {ℓ} {V : Type ℓ} where
  -- One round: the value goes from the one name to the other.
  unfoldable pub rename : String → String → Dict V → Dict V
  rename snake camel payload = elim (lookup snake payload) [
    | none ↦ payload
    | some val ↦ insert camel val (remove snake payload)
  ]

  unfoldable pub rename_all : List (String × String) → Dict V → Dict V
  rename_all [] payload = payload
  rename_all ((snake, camel) ∷ ms) payload = rename_all ms (rename snake camel payload)

  unfoldable pub normalize_field_names : Dict V → Dict V
  normalize_field_names payload = rename_all mappings payload

module _ (h : Host) where
  open h use {F64, of_int, of_f32, to_i64, mul, add, div, round, Value, of_i64, of_f64, of_object}

  -- The raw value of a register, as a float.
  unfoldable pub raw_value : ModbusDataType → List ℕ → ℕ → Option (Option F64)
  raw_value uint16 data' addr = one_word data' addr (λ v. of_int (pos v))
  raw_value int16 data' addr = one_word data' addr (λ v. of_int (as_i16 v))
  raw_value float32 data' addr = two_words data' addr (λ hi lo. of_f32 (registers_to_f32 hi lo))
  raw_value uint32 data' addr = two_words data' addr (λ hi lo. of_int (pos (join_words hi lo)))
  raw_value int32 data' addr = two_words data' addr (λ hi lo. of_int (as_i32 (join_words hi lo)))
  raw_value bool data' addr =
      one_word data' addr (λ v. of_int (if nat_eq v 0 then pos 0 else pos 1))

  abbrev pub scaled : Option F64 → F64 → F64
  scaled none val = val
  scaled (some scale) val = mul val scale

  abbrev pub shifted : Option F64 → F64 → F64
  shifted none val = val
  shifted (some offset) val = add val offset

  -- `(val * 100.0).round() / 100.0`
  abbrev pub two_decimals : F64 → F64
  two_decimals val = div (round (mul val (of_int (pos 100)))) (of_int (pos 100))

  abbrev pub is_integer : ModbusDataType → Bool
  is_integer uint16 = true
  is_integer int16 = true
  is_integer bool = true
  is_integer _ = false

  abbrev pub is_none : Option F64 → Bool
  is_none none = true
  is_none (some _) = false

  abbrev pub json_value : ModbusRegisterMap F64 → F64 → Value
  json_value reg raw =
      let val = shifted reg.offset (scaled reg.scale_factor raw) in
      if (if is_integer reg.data_type then is_none reg.scale_factor else false)
      then of_i64 (to_i64 val)
      else of_f64 (two_decimals val)

  abbrev pub put : ModbusRegisterMap F64 → Option F64 → Dict Value → Dict Value
  put reg none payload = payload
  put reg (some raw) payload = insert reg.name (json_value reg raw) payload

  unfoldable pub decode_registers :
      List (ModbusRegisterMap F64) → List ℕ → Dict Value → Option (Dict Value)
  decode_registers [] data' payload = some payload
  decode_registers (reg ∷ regs) data' payload = do
    raw ← raw_value reg.data_type data' (as_usize reg.address)
    decode_registers regs data' (put reg raw payload)

  -- One past the last register that the map names, in 16 bits.
  unfoldable pub max_addr : List (ModbusRegisterMap F64) → ℕ
  max_addr [] = 0
  max_addr (reg ∷ regs) = max ((as_u16 reg.address + width reg.data_type) % 2 ^ 16) (max_addr regs)

  abbrev pub is_nil : List (ModbusRegisterMap F64) → Bool
  is_nil [] = true
  is_nil (_ ∷ _) = false

  -- One batch read, and its values added to the payload. No register of the type: no read.
  unfoldable pub read_batch :
      (ℕ → ℕ → Result String (List ℕ))
      → List (ModbusRegisterMap F64)
      → Dict Value
      → Option (Result String (Dict Value))
  read_batch read regs payload =
      if is_nil regs then some (ok payload) else elim (read 0 (max_addr regs)) [
        | err e ↦ some (err e)
        | ok data' ↦ decode_registers regs data' payload >>= λ p. some (ok p)
      ]

  -- The two reads of the device are arguments; each takes a start address and a count.
  unfoldable pub poll_modbus_registers :
      (ℕ → ℕ → Result String (List ℕ))
      → (ℕ → ℕ → Result String (List ℕ))
      → List (ModbusRegisterMap F64)
      → ℕ
      → Option (Result String Value)
  poll_modbus_registers read_input read_holding register_map now = do
    first ← read_batch read_input (select (λ r. is_input r.register_type) register_map) []
    elim first [
      | err e ↦ some (err e)
      | ok payload ↦
          read_batch read_holding (select (λ r. is_holding r.register_type) register_map) payload
          >>= (λ second. elim second [
            | err e ↦ some (err e)
            | ok all ↦
                some (
                  ok
                    (of_object (insert "timestamp" (of_i64 (pos now)) (normalize_field_names all))))
          ])
    ]

  abbrev pub default_register : ℕ → String → ModbusDataType → Option String → ModbusRegisterMap F64
  default_register address name data_type unit = record {
    id = "";
    device_id = "";
    register_type = input;
    address = pos address;
    name = name;
    data_type = data_type;
    byte_order = none;
    scale_factor = none;
    offset = none;
    unit = unit;
    description = none;
    writable = false;
  }

  unfoldable pub default_register_map : List (ModbusRegisterMap F64)
  default_register_map =
      default_register 0 "beanTemp" float32 (some "°C")
      ∷ default_register 2 "envTemp" float32 (some "°C")
      ∷ default_register 4 "rateOfRise" float32 (some "°C/min")
      ∷ default_register 6 "heaterPWM" uint16 (some "%")
      ∷ default_register 7 "fanPWM" uint16 none
      ∷ []
