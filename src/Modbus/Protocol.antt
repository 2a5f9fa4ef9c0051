-- ===== src/Modbus/Protocol.antt =====
-- The requests and answers of the crate `tokio_modbus` that the server in
-- crates/server/src/modbus.rs names; `other` is any request that it does not match.
use rust_roast.Prelude.{ℕ, List, Result}

pub data ExceptionCode : Type 0 where
  illegal_function illegal_data_address : ExceptionCode

pub data Request : Type 0 where
  read_input_registers : ℕ → ℕ → Request
  read_holding_registers : ℕ → ℕ → Request
  write_single_register : ℕ → ℕ → Request
  write_multiple_registers : ℕ → List ℕ → Request
  other : Request

pub data Response : Type 0 where
  read_input_registers : List ℕ → Response
  read_holding_registers : List ℕ → Response
  write_single_register : ℕ → ℕ → Response
  write_multiple_registers : ℕ → ℕ → Response

abbrev pub Reply {ℓ} : Type ℓ → Type ℓ
Reply A = Result ExceptionCode A
