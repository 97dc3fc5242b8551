-- ===== src/Vector.antt =====
-- src/vector: reading a transaction's fields.
pub mod Dates
pub mod Json
pub mod Ensures
pub mod Floats
pub mod Range
pub mod Fields
pub mod Compact
pub mod Skip
pub mod Members
pub mod SinglePass
pub mod Payload
pub mod Serde
pub mod Query
