-- ===== src/Poller/Examples.antt =====
-- The theorems of the poller at concrete register maps and payloads, with the sample host.
use rust_roast.Prelude.{
  ℕ, String, List, [], ◌∷◌, none, some, Result, ok, err, pos, negsuc, ◌≡◌, refl, lookup, Dict,
  arith, ◌++◌,
}
use rust_roast.Sample.{sample, SampleValue, num, object}
use rust_roast.Models.DeviceRows.{ModbusRegisterMap}
use rust_roast.Models.ModbusDataType.{float32}
use rust_roast.Modbus.{ModbusSharedState}
use rust_roast.Poller.{
  decode_registers, default_register, default_register_map, poll_modbus_registers,
}
use rust_roast.Poller.Addresses.{with_readings, decode_registers-total}
use rust_roast.Poller.Loops.{failed, ended, retry, backoff_after, retry-waits}
use rust_roast.Prelude.{◌≤◌, ◌^◌, min, replicate}
use rust_roast.Poller.EndToEnd.{read_from_server, fields, poll-server}

abbrev snapshot : Dict ℕ
snapshot = ("bean_temp", 190) ∷ ("site", 7) ∷ []

decode_registers-total_example :
    decode_registers sample (default_register_map sample) (1 ∷ 2 ∷ 3 ∷ []) []
    ≡ some (with_readings sample (default_register_map sample) (1 ∷ 2 ∷ 3 ∷ []) [])
unfolding default_register_map
decode_registers-total_example =
    decode_registers-total sample (default_register_map sample) (1 ∷ 2 ∷ 3 ∷ []) [] (omega arith)

abbrev negative : ModbusRegisterMap sample.F64
negative = record (default_register sample 0 "drum" float32 none) { address = negsuc 0 }

abbrev cached : SampleValue
cached = object (("beanTemp", pos 200) ∷ ("heaterPWM", pos 70) ∷ [])

abbrev server : ModbusSharedState sample
server = record {
  telemetry_cache = ("esp32-001", (cached, 100)) ∷ [];
  device_id = "esp32-001";
  holding_registers = [];
}

abbrev no_holding : ℕ → ℕ → Result String (List ℕ)
no_holding addr cnt = err "no such register"

poll-server_example :
    poll_modbus_registers sample
      (read_from_server sample server)
      no_holding
      (default_register_map sample)
      105
    ≡ some (ok (sample.of_object (fields sample cached ++ ("timestamp", num (pos 105)) ∷ [])))
unfolding lookup
poll-server_example = poll-server sample server no_holding 105 {ts = 100} refl

retry-waits_example :
    (1 ≤ (retry (backoff_after (failed ∷ [])) failed).0)
    × ((retry (backoff_after (failed ∷ [])) failed).0 ≤ 30)
    × ((retry (backoff_after (replicate 3 failed ++ ended ∷ failed ∷ [])) failed).0
        ≡ min (2 ^ 4) 30)
retry-waits_example = retry-waits (failed ∷ []) failed 3
