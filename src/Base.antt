-- ===== src/Base.antt =====
-- src/base: the pure helpers that the data types and the storage share, and the configuration.
pub mod RangeClip
pub mod IntParse
pub mod Config
