-- ===== src/Model.antt =====
-- src/model: the performance model.
pub mod Size
