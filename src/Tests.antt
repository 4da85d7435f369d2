-- ===== src/Tests.antt =====
-- Runs on concrete inputs, and an instance of each theorem that has hypotheses.
mod Graphs
mod Filters
mod Alternatives
mod Iterators
mod Permutations
mod Models
mod Arrays
mod Records
mod Rollouts
mod Explorer
mod Sizes
mod Runtime
mod VecSets
