-- ===== src/Models/ConnectionRows.antt =====
-- The requests that test a connection and the settings of each protocol, in
-- crates/server/src/models.rs.
use rust_roast.Prelude.{ℕ, String, Bool, Option}
use rust_roast.Models.Protocol.{Protocol}

pub record TestConnectionRequest (Value : Type 0) : Type 0 where
  pub protocol : Protocol
  pub config : Value
  pub device_id : Option String

pub record TestConnectionResponse : Type 0 where
  pub success : Bool
  pub message : String
  pub latency_ms : Option ℕ

pub record MqttConnectionConfig : Type 0 where
  pub topic_prefix : String
  pub qos : ℕ

pub record WebSocketConnectionConfig : Type 0 where
  pub url : String
  pub reconnect_interval_ms : ℕ

pub record ModbusTcpConnectionConfig : Type 0 where
  pub host : String
  pub port : ℕ
  pub unit_id : ℕ
  pub poll_interval_ms : ℕ
