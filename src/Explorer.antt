-- ===== src/Explorer.antt =====
-- src/explorer: the exploration of the search space.
pub mod Candidate
pub mod Heap
pub mod CandidateList
pub mod ParallelList
pub mod NodeOrder
pub mod LocalSelection
