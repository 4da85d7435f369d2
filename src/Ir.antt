-- ===== src/Ir.antt =====
-- src/ir: the intermediate representation.
pub mod Size
