-- ===== src/Utils.antt =====
-- telamon-utils: the data structures that the other crates share.
pub mod VecSet
pub mod TfRecord
pub mod NdArray
pub mod Permutations
pub mod Iterators
pub mod Dag
pub mod Trivalent
