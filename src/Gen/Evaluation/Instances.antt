-- ===== src/Gen/Evaluation/Instances.antt =====
-- telamon-gen/src/ir/filter.rs: `instantiate` of conditions and of sets of values, once some inputs are known.
use telamon.Prelude.{
  ℕ, ◌≡◌, refl, sym, ap, ◌∙◌, subst, Bool, true, false, not, ◌||◌, some, List, [], ◌∷◌, arith, ◌==◌,
  Bool-cases, Option-cases, inl, inr,
}
use telamon.Prelude.Keys.{any-extend, nat_key, pair_key, bool_key, extend}
use telamon.Utils.Trivalent.{Trivalent, never, maybe, always, and, or, negated, as_bool}
use telamon.Gen.Variables.{find}
use telamon.Gen.Enums.{Enum, has, inverse}
use telamon.Gen.Values.{
  CmpOp, ValueSet, enum, get_enum, normalize_values, normalized_enum_set, is, inverse_set,
}
use telamon.Gen.Filter.{
  ◌>>=◌, IrDesc, ChoiceInstance, Condition, code_cond, enum_cond, bool, cmp_code, cmp_input,
  enum_of_input, Mapping, evaluate, evaluate_op, inversed_if, instantiate_condition,
}
use telamon.Gen.Normalize.{Texts}
use telamon.Gen.Evaluation.{Context, xor, holds_op, turned, holds}
use telamon.Gen.Evaluation.Conditions.{IsContext, IsTyped, has-normalize_values, eq_comm}

-- What a trivalent answer says of a condition.
abbrev Agrees : Trivalent → Bool → Type 0
Agrees never b = b ≡ false
Agrees maybe b = Unit
Agrees always b = b ≡ true

abbrev answer : Bool → Trivalent
answer true = always
answer false = never

answer-Agrees : (b : Bool) → Agrees (answer b) b
answer-Agrees true = refl
answer-Agrees false = refl

is-single :
    (n m x : ℕ) (others : List ℕ)
    → is (enum n (x ∷ []) []) (enum m others []) ≡ some (answer (has x others))
unfolding is
is-single n m x others = elim (Bool-cases (has x others)) [
  | inl e ↦ ground (arith, e)
  | inr e ↦ ground (arith, e)
]

Agrees-and : (p q r : Bool) → p ≡ r → q ≡ r → Agrees (and (answer p) (answer q)) r
unfolding and
Agrees-and true true r e f = sym e
Agrees-and true false r e f = ground arith
Agrees-and false q r e f = sym e

Agrees-neq :
    (p q r : Bool) → p ≡ r → q ≡ r → Agrees (or (negated (answer p)) (negated (answer q))) (not r)
unfolding or negated
Agrees-neq true true r e f = ground arith
Agrees-neq true false r e f = ground arith
Agrees-neq false q r e f = ground arith

or_false : (b : Bool) → (b || false) ≡ b
or_false b = ground arith

evaluate_op-single :
    (op : CmpOp) (n m x y : ℕ)
    → (t : Trivalent) × (evaluate_op op (enum n (x ∷ []) []) (enum m (y ∷ []) []) ≡ some t)
      × Agrees t (holds_op op x y)
unfolding evaluate_op holds_op
evaluate_op-single CmpOp.lt n m x y = (maybe, refl, tt)
evaluate_op-single CmpOp.gt n m x y = (maybe, refl, tt)
evaluate_op-single CmpOp.leq n m x y = (maybe, refl, tt)
evaluate_op-single CmpOp.geq n m x y = (maybe, refl, tt)
evaluate_op-single CmpOp.equal n m x y = (
  and (answer (has x (y ∷ []))) (answer (has y (x ∷ []))),
  ap
        (λ o. o >>= λ forth.
          is (enum m (y ∷ []) []) (enum n (x ∷ []) []) >>= λ back. some (and forth back))
        (is-single n m x (y ∷ []))
      ∙ ap (λ o. o >>= λ back. some (and (answer (has x (y ∷ []))) back))
          (is-single m n y (x ∷ [])),
  Agrees-and (has x (y ∷ [])) (has y (x ∷ [])) (x == y) (or_false (x == y))
      (or_false (y == x) ∙ eq_comm y x),
)
evaluate_op-single CmpOp.neq n m x y = (
  or (negated (answer (has x (y ∷ [])))) (negated (answer (has y (x ∷ [])))),
  ap
        (λ o. o >>= λ forth. is (enum m (y ∷ []) []) (enum n (x ∷ []) []) >>= λ back.
          some (or (negated forth) (negated back)))
        (is-single n m x (y ∷ []))
      ∙ ap (λ o. o >>= λ back. some (or (negated (answer (has x (y ∷ [])))) (negated back)))
          (is-single m n y (x ∷ [])),
  Agrees-neq (has x (y ∷ [])) (has y (x ∷ [])) (x == y) (or_false (x == y))
      (or_false (y == x) ∙ eq_comm y x),
)

module _ (t : Texts) (d : IrDesc) (inputs : List ChoiceInstance) (c : Context) (m : Mapping) where
  -- An input that is known has the one value of the context.
  abbrev pub IsMapping : Type 0
  IsMapping =
      (i : ℕ) (s : ValueSet)
      → find i m ≡ some s
      → (e : Enum) × (enum_of_input d inputs i ≡ some e)
        × (get_enum d.enums e.name ≡ some e)
        × (s ≡ enum e.name (c.value i ∷ []) [])

  pub inversed_if-single :
      (e : Enum) (v : Bool) (x : ℕ)
      → get_enum d.enums e.name ≡ some e
      → inversed_if d.enums v (enum e.name (x ∷ []) [])
        ≡ some (enum e.name (turned (some e) v x ∷ []) [])
  unfolding extend inverse_set inverse
  inversed_if-single e false x found = refl
  inversed_if-single e true x found = rw (inverse_set, found) refl

  module _ (h : IsContext t d inputs c) (known : IsMapping) where
    evaluate-Agrees :
        (k : Condition)
        → IsTyped d inputs k
        → (a : Trivalent) × (evaluate d inputs m k ≡ some a) × Agrees a (holds d inputs c k)
    unfolding evaluate holds normalized_enum_set
    evaluate-Agrees (bool true) w = (always, refl, refl)
    evaluate-Agrees (bool false) w = (never, refl, refl)
    evaluate-Agrees (code_cond code n) w = (maybe, refl, tt)
    evaluate-Agrees (cmp_code lhs rhs op) w = (maybe, refl, tt)
    evaluate-Agrees (enum_cond i values n v) (e, found) = elim (Option-cases (find i m)) [
      | inl missing ↦ (maybe, rw (evaluate, found, missing) refl, tt)
      | inr (s, there) ↦
          let (e', found', named, single) = known i s there in
          let set = extend [] (normalize_values values n v e) in
          let same =
            any-extend (λ y. c.value i == y) [] (normalize_values values n v e)
            ∙ has-normalize_values e (c.value i) values n v (h.involutive i e found)
                (h.valued i e found)
            ∙ ap (λ o. xor n (has (turned o v (c.value i)) values)) (sym found) in
          (
            answer (has (c.value i) set),
            rw (evaluate, found, there, single) (is-single e'.name e.name (c.value i) set),
            subst (Agrees (answer (has (c.value i) set))) same
                (answer-Agrees (has (c.value i) set)),
          )
    ]
    evaluate-Agrees (cmp_input lhs rhs op v) w = elim (Option-cases (find lhs m)) [
      | inl missing ↦ (maybe, rw (evaluate, missing) refl, tt)
      | inr (l, left) ↦ elim (Option-cases (find rhs m)) [
        | inl missing ↦ (maybe, rw (evaluate, left, missing) refl, tt)
        | inr (r, right) ↦
            let (e, found, named, single) = known lhs l left in
            let (f, found', named', single') = known rhs r right in
            let (a, answered, agrees) =
              evaluate_op-single op e.name f.name (turned (some e) v (c.value lhs)) (c.value rhs) in
            (
              a,
              rw
                  (
                    evaluate,
                    left,
                    right,
                    single,
                    single',
                    inversed_if-single e v (c.value lhs) named,
                  )
                  answered,
              subst (λ o. Agrees a (holds_op op (turned o v (c.value lhs)) (c.value rhs)))
                  (sym found) agrees,
            )
      ]
    ]

    pub instantiate_condition-holds :
        (k : Condition)
        → IsTyped d inputs k
        → (k' : Condition) × (instantiate_condition d inputs m k ≡ some k')
          × IsTyped d inputs k'
          × (holds d inputs c k' ≡ holds d inputs c k)
    unfolding instantiate_condition as_bool holds
    instantiate_condition-holds k w =
        let (a, e, agrees) = evaluate-Agrees k w in after_answer a e agrees
      where
        after_answer :
            (a : Trivalent)
            → evaluate d inputs m k ≡ some a
            → Agrees a (holds d inputs c k)
            → (k' : Condition) × (instantiate_condition d inputs m k ≡ some k')
              × IsTyped d inputs k'
              × (holds d inputs c k' ≡ holds d inputs c k)
        after_answer never e agrees = (bool false, rw e refl, tt, sym agrees)
        after_answer maybe e agrees = (k, rw e refl, w, refl)
        after_answer always e agrees = (bool true, rw e refl, tt, sym agrees)
