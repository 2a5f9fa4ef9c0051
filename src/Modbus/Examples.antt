-- ===== src/Modbus/Examples.antt =====
-- Runs of the Modbus server, and its theorems at concrete requests, with the sample host.
use rust_roast.Prelude.{
  false, ℕ, ◌+◌, List, [], ◌∷◌, some, ok, err, ◌≡◌, refl, arith, length, if◌then◌else◌, ltb,
  to_decimal,
}
use rust_roast.Sample.{sample}
use rust_roast.Topics.{control_setpoint}
use rust_roast.Modbus.Protocol.{Request, Response, illegal_data_address}
use rust_roast.Modbus.Registers.{registers_to_f32}
use rust_roast.Modbus.Commands.{commands_between, controls, message}
use rust_roast.Modbus.Service.{written, write_registers-lem}
use rust_roast.Modbus.Clients.{Answers, call-Answers, read-write}
use rust_roast.Modbus.{
  ModbusSharedState, Message, initial, call, write_registers, store, publish_control_commands,
  command_loop, command,
}

abbrev start : ModbusSharedState sample
unfolding initial
start = initial sample [] "esp32-001"

-- The setpoint is published once for its two registers, and the gap publishes nothing.
write_of_setpoint :
    write_registers sample start 0 (1 ∷ 2 ∷ [])
    ≡ some (
      ok tt,
      written sample start 0 (1 ∷ 2 ∷ []),
      message (control_setpoint "esp32-001") "65538" ∷ [],
    )
unfolding write_registers store publish_control_commands command_loop command initial
    registers_to_f32 to_decimal
write_of_setpoint = refl

abbrev stopping : List ℕ
stopping = 0 ∷ 1 ∷ 0 ∷ []

write_registers-lem_example : write_registers sample start 11 stopping ≡ (
    if ltb 13 (11 + length stopping)
    then some (err illegal_data_address, start, [])
    else some (
      ok tt,
      written sample start 11 stopping,
      commands_between
          (controls sample start.device_id (written sample start 11 stopping).holding_registers)
          false
          11
          (11 + length stopping),
    ))
unfolding initial
write_registers-lem_example = write_registers-lem sample start 11 stopping refl

call-Answers_example : Answers sample start (Request.read_holding_registers 65535 1)
unfolding initial
call-Answers_example = call-Answers sample start (Request.read_holding_registers 65535 1) refl

read-write_example :
    (sent : List Message) × (call sample start (Request.write_multiple_registers 2 (255 ∷ 80 ∷ []))
      ≡ some (
        ok (Response.write_multiple_registers 2 2),
        written sample start 2 (255 ∷ 80 ∷ []),
        sent,
      ))
    × (call sample (written sample start 2 (255 ∷ 80 ∷ [])) (Request.read_holding_registers 2 2)
        ≡ some (
          ok (Response.read_holding_registers (255 ∷ 80 ∷ [])),
          written sample start 2 (255 ∷ 80 ∷ []),
          [],
        ))
unfolding initial
read-write_example = read-write sample start 2 (255 ∷ 80 ∷ []) refl (omega arith)
