-- ===== src/Datatype.antt =====
-- src/datatype: the value types.
pub mod Double
pub mod Object
pub mod Payload
