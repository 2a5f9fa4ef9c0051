-- ===== src/Models.antt =====
-- crates/server/src/models.rs: the enumerations with their text forms, and the records.
pub mod SessionStatus
pub mod RoastEventType
pub mod DeviceStatus
pub mod Protocol
pub mod ModbusRegisterType
pub mod ModbusDataType
pub mod DeviceRows
pub mod ConnectionRows
pub mod SessionRows
pub mod ProfileRows
pub mod CuppingRows
