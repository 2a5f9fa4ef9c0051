-- ===== src/Artisan.antt =====
-- The Artisan import and export of crates/server/src/services.rs.
pub mod Text
pub mod Import
pub mod Export
pub mod RoundTrip
pub mod Marks
mod Examples
