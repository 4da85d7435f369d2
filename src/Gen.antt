-- ===== src/Gen.antt =====
-- telamon-gen: the generator of the search space.
pub mod Variables
pub mod Enums
pub mod Values
pub mod Filter
pub mod Normalize
pub mod TruthTable
pub mod TableView
pub mod Evaluation
pub mod Alternatives
pub mod Optimised
