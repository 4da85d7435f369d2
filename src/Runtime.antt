-- ===== src/Runtime.antt =====
-- telamon-gen/src/print/runtime: the types that the generated search space is built on.
pub mod NumSet
pub mod Range
pub mod HalfRange
pub mod NumericSet
pub mod Conversions
