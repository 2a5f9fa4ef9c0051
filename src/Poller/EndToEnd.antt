-- ===== src/Poller/EndToEnd.antt =====
-- The poller, with its standard register layout, against the program's own Modbus server.
use rust_roast.Prelude.{
  ℕ, ◌<◌, ◌^◌, ◌≡◌, refl, ◌++◌, inl, inr, Option-cases, arith, String, List, [], ◌∷◌, Option, some,
  Result, ok, err, pos, Dict, lookup, insert, as_usize, as_u16,
}
use rust_roast.Host.{Host}
use rust_roast.Modbus.Protocol.{Response, Reply}
use rust_roast.Modbus.Registers.{
  registers_to_f32, f32_to_registers, registers_to_f32-f32_to_registers,
}
use rust_roast.Modbus.Service.{read_input-lem}
use rust_roast.Modbus.{
  ◌>>=◌, ModbusSharedState, read_input_registers, input_image, telemetry_image, float_field,
  word_field,
}
use rust_roast.Poller.{
  raw_value, two_decimals, decode_registers, max_addr, read_batch, poll_modbus_registers,
  default_register_map, normalize_field_names, rename_all, rename,
}

module _ (h : Host) where
  open h use {F64, get, as_f64, of_int, of_f32, to_i64, to_f32_lt, Value, of_i64, of_f64, of_object}

  -- What a client gets of the server's input registers.
  abbrev pub served : Option (Reply Response) → Result String (List ℕ)
  served (some (ok (Response.read_input_registers words))) = ok words
  served _ = err "Modbus exception"

  abbrev pub read_from_server : ModbusSharedState h → ℕ → ℕ → Result String (List ℕ)
  read_from_server state addr cnt = served (read_input_registers h state addr cnt)

  -- The fields that the telemetry of the device amounts to: floats at two decimals, PWM values as
  -- 16-bit words.
  abbrev pub fields : Value → Dict Value
  fields val =
      ("beanTemp", of_f64 (two_decimals h (of_f32 (float_field h val "beanTemp"))))
      ∷ ("envTemp", of_f64 (two_decimals h (of_f32 (float_field h val "envTemp"))))
      ∷ ("rateOfRise", of_f64 (two_decimals h (of_f32 (float_field h val "rateOfRise"))))
      ∷ ("heaterPWM", of_i64 (to_i64 (of_int (pos (word_field h val "heaterPWM")))))
      ∷ ("fanPWM", of_i64 (to_i64 (of_int (pos (word_field h val "fanPWM")))))
      ∷ []

  word_back : (key : String) (val : Value) → float_field h val key < 2 ^ 32
  word_back key val = elim (Option-cases (get val key >>= as_f64)) [
    | inl e ↦ rw (e, float_field) (omega arith)
    | inr (x, e) ↦ rw (e, float_field) (to_f32_lt x)
  ]

  float_back :
      (key : String) (val : Value)
      → let pair = f32_to_registers (float_field h val key) in
        registers_to_f32 pair.0 pair.1 ≡ float_field h val key
  float_back key val =
      (registers_to_f32-f32_to_registers (float_field h val key) (word_back key val)).2

  decode-telemetry_image :
      (val : Value)
      → decode_registers h (default_register_map h) (telemetry_image h val) [] ≡ some (fields val)
  unfolding decode_registers default_register_map raw_value as_usize insert
  decode-telemetry_image val =
      rw (float_back "beanTemp" val, float_back "envTemp" val, float_back "rateOfRise" val)

  normalize-fields : (val : Value) → normalize_field_names (fields val) ≡ fields val
  unfolding normalize_field_names rename_all rename lookup
  normalize-fields val = refl

  input_image-lem :
      (state : ModbusSharedState h) {val : Value} {ts : ℕ}
      → lookup state.device_id state.telemetry_cache ≡ some (val, ts)
      → input_image h state ≡ telemetry_image h val
  unfolding input_image
  input_image-lem state e = rw (e, input_image)

  -- A poller that reads the program's own Modbus server with the standard layout gets what the
  -- server has in its cache: the three temperatures as floats, with no bit lost on the way
  -- through the 16-bit registers, at two decimals, and the two PWM values, under the names that
  -- the dashboard reads, and the time of the poll.
  pub poll-server :
      (state : ModbusSharedState h) (read_holding : ℕ → ℕ → Result String (List ℕ)) (now : ℕ)
      {val : Value} {ts : ℕ}
      → lookup state.device_id state.telemetry_cache ≡ some (val, ts)
      → poll_modbus_registers h (read_from_server state) read_holding (default_register_map h) now
        ≡ some (ok (of_object (fields val ++ ("timestamp", of_i64 (pos now)) ∷ [])))
  unfolding poll_modbus_registers read_batch max_addr default_register_map as_u16 insert
  poll-server state read_holding now {val} e = rw (
    read_input-lem h state 0 8,
    input_image-lem state e,
    decode-telemetry_image val,
    normalize-fields val,
  )
