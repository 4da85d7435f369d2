-- ===== src/Lib.antt =====
-- Telamon, a framework that searches for good implementations of computational kernels. A search space is
-- described by decisions with domains, a performance model bounds the time of every candidate from below,
-- and the exploration goes down the tree of decisions and prunes by the bounds.
--
-- The parts that are modelled, with the files of the repository that they follow:
--
-- Utils: the crate telamon-utils.
--   Utils/VecSet         telamon-utils/src/vec_set.rs: sets as sorted vectors. Members has membership,
--                        insertion and the set operations, Sorting `new`, Compare the order by inclusion,
--                        Iterators `difference` and `intersection`, and InPlace `relative_difference`,
--                        with its moves within the two buffers.
--   Utils/NdArray        telamon-utils/src/ndarray.rs: the index arithmetic, the order in which `NDRange`
--                        visits the cells (Enumeration), and the split views (Views).
--   Utils/TfRecord       telamon-utils/src/tfrecord.rs: record files, over a reader that may be cut into
--                        chunks and interrupted anywhere (Streams, RoundTrip).
--   Utils/Iterators      telamon-utils/src/iterator.rs: `FilterList`, `ZipCopy`, `at_most_one`, `to_map`.
--   Utils/Permutations   telamon-utils/src/iterator.rs: `PartialPermutations`, by moves within its vector.
--   Utils/Dag            telamon-utils/src/dag.rs: the minima and the walk to the predecessors.
--   Utils/Trivalent      telamon-utils/src/lib.rs: `Trivalent`.
-- Runtime: telamon-gen/src/print/runtime, the domains that generated code is built on.
--   Runtime/NumSet       integer_domain.rs: the trait of numeric domains and its comparisons.
--   Runtime/Range, Runtime/HalfRange
--                        range.rs: intervals of `u32`, with the differences used for counters.
--   Runtime/NumericSet   integer_set.rs: a `u16` of bits over a sorted universe.
--   Runtime/Conversions  the conversions `into_num_set`, `gcd` and `lcm`.
-- Ir/Size: src/ir/size.rs, sizes as fractions of dimension sizes. They are kept in lowest terms by
--   `VecSet::relative_difference` (Utils/VecSet/InPlace).
-- Model/Size: src/model/size.rs, bounds of a size (Ir/Size) from the domains of its dimensions
--   (Runtime/NumericSet).
-- Explorer: src/explorer.
--   Explorer/Candidate   candidate.rs: a node of the search tree, over an interface `Space` to the search
--                        space and the performance model.
--   Explorer/Heap        the crate interval_heap, as an interface with the laws of its documentation; the
--                        file Selection fills it with a list.
--   Explorer/CandidateList, Explorer/ParallelList
--                        parallel_list.rs: the queue below the cut, and the queue shared by the workers. A
--                        step of the relation `Step` is what one worker does while it holds the lock.
--   Explorer/NodeOrder   local_selection.rs, config.rs: the four policies that pick a child, with the draws of
--                        the thread's generator and the panics of the weighted choice.
--   Explorer/LocalSelection
--                        local_selection.rs: what a policy picks (Weights, Best, Picking), the rollout that
--                        backtracks (Slots, Backtracking), and those that do not (Paths).
-- Gen: telamon-gen/src, the filters of the generator: from the rules of a choice to nested switches on the
--   values of other choices, the inputs.
--   Gen/Variables        ir/filter.rs, ir/set.rs, ir/adaptator.rs: variables, pieces of code, constraints on
--                        sets, and their renaming.
--   Gen/Enums            ir/mod.rs: `Enum`, with its aliases and the inversion of its values.
--   Gen/Values           ir/filter.rs, ir/choice.rs: `CmpOp`, `ValueType` and `ValueSet` with its operations.
--   Gen/Filter           ir/filter.rs, ir/choice.rs: choices, `Condition` and `Rule`, and their instances once
--                        some inputs are known.
--   Gen/Normalize        ir/filter.rs: normal forms of code, conditions and rules.
--   Gen/TruthTable       truth_table.rs: `Cell` and `TruthTable::build`, over the arrays of Utils/NdArray.
--                        Equality and Building are about cells, CellRules and CellAt about the rules of a
--                        cell, Dimensions, Indexes and Filling about the table.
--   Gen/TableView        truth_table.rs: `TableView`, `table_min_split` and `truth_table_to_filter`. Cells,
--                        Branches, Meaning, Merging, Splitting, Configurations, Choosing and Filtering follow
--                        its steps, and Whole is about the view of a whole table.
--   Gen/Evaluation       what conditions, sets and rules mean for given values of the inputs (a `Context`).
--   Gen/Optimised        `opt_rules`.
--   Gen/Alternatives     ir/filter.rs: `Condition::alternatives_of`.
-- Prelude has the names and lemmas that all parts share, Tests the runs on concrete inputs.
--
-- Numbers: a machine word is a natural number; `u16`, `u32` and `u64` arithmetic keeps its wrap-around as
-- in a release build (Prelude/Words, Model/Size), and so do the counters of the candidate list and the
-- weights of a choice. Indexes of arrays and vectors are not bounded. A panic is `none` or a case of the
-- result type. An `f64` bound is a value of any ordered type, so it stands for a number that is not a NaN.
--
-- Fuel: the iterators of `VecSet` have one round more than the first set has items, the loop of
-- `relative_difference` one more than both sets have together, `update_cut` one more than the queue is
-- long, the loop over the children one more than there are children, and a rollout the depth of the tree.
-- `predecessors` has two rounds more than the id of its node. The iterators over the cells of a table have
-- one round more than there are cells, and `truth_table_to_filter` one call more than there are inputs.
--
-- Parameters: the checksum of the crate crc, the writer of record files, `gcd` and `lcm` of the crate num,
-- the interval heap, the search space with its choices, the performance model; of the crate rand
-- `gen_range` and `WeightedChoice`, on the state of the thread's generator; the operations of `f64` that the
-- weights of `choose_cand_weighted` are computed with; and of strings `str::replace`, the printing of a
-- variable and the pattern made of a name.
--
-- Names: the names of choices, enums, values, variables and pieces of code are numbers, as they are only
-- compared. A hash map is the list of its entries, a `BTreeSet` a sorted list. A hash set is kept sorted
-- too: the order in which the code reads it is not specified.
--
-- Not modelled: who owns an item of a vector, logging and printing, the Monte-Carlo search, the generator
-- of the search space but for its filters and its runtime types, code generation, the devices and backends,
-- and the bindings.
pub mod Prelude
pub mod Utils
pub mod Runtime
pub mod Ir
pub mod Model
pub mod Explorer
pub mod Gen
pub mod Tests
