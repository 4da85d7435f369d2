-- ===== src/Runtime/NumSet/Order.antt =====
-- telamon-gen/src/print/runtime/integer_domain.rs: the comparisons of two domains, in terms of values.
use telamon.Prelude.{ℕ, ◌≤◌, ◌<◌, ◌≡◌, ◌≢◌, true, some, arith}
use telamon.Runtime.NumSet.{
  NumSet, is_lt, is_gt, is_leq, is_geq, is_eq, is_neq, as_constrained, u32_num_set,
}

-- What an implementation owes: its values lie between `min_value` and `max_value`.
pub record Lawful {D U : Type 0} (n : NumSet D U) : Type 1 where
  pub Holds : D → U → ℕ → Type 0
  pub min_le : (d : D) (u : U) (a : ℕ) → Holds d u a → n.min_value d u ≤ a
  pub le_max : (d : D) (u : U) (a : ℕ) → Holds d u a → a ≤ n.max_value d u

module _ {D U E V : Type 0} ⦃n : NumSet D U⦄ ⦃m : NumSet E V⦄ (ln : Lawful n) (lm : Lawful m) where
  -- Every comparison that answers `true` holds of each value of the one domain and each of the other.
  pub comparisons_sound :
      (d : D) (u : U) (e : E) (v : V) (a b : ℕ)
      → ln.Holds d u a
      → lm.Holds e v b
      → (is_lt d u e v ≡ true → a < b)
        × (is_gt d u e v ≡ true → b < a)
        × (is_leq d u e v ≡ true → a ≤ b)
        × (is_geq d u e v ≡ true → b ≤ a)
        × (is_eq d u e v ≡ true → a ≡ b)
        × (is_neq d u e v ≡ true → a ≢ b)
  unfolding is_lt is_gt is_leq is_geq is_eq is_neq
  comparisons_sound d u e v a b ha hb =
      let low = ln.min_le d u a ha in
      let high = ln.le_max d u a ha in
      let low' = lm.min_le e v b hb in
      let high' = lm.le_max e v b hb in
      (ground arith, ground arith, ground arith, ground arith, ground arith, ground arith)

module _ {D U : Type 0} ⦃n : NumSet D U⦄ (ln : Lawful n) where
  -- A domain that `as_constrained` answers for holds no other value.
  pub as_constrained_sound :
      (d : D) (u : U) (a b : ℕ) → as_constrained d u ≡ some b → ln.Holds d u a → a ≡ b
  unfolding as_constrained
  as_constrained_sound d u a b e h =
      let low = ln.min_le d u a h in let high = ln.le_max d u a h in ground arith

-- An integer holds itself.
abbrev pub u32_lawful : Lawful u32_num_set
u32_lawful = record {
  Holds = λ d _ a. a ≡ d;
  min_le = λ d _ a e. omega (arith, e);
  le_max = λ d _ a e. omega (arith, e);
}
