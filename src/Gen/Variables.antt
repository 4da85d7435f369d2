-- ===== src/Gen/Variables.antt =====
-- telamon-gen/src/ir: variables, pieces of code, sets and constraints on them (filter.rs, set.rs), and the
-- renaming of an `Adaptator` (adaptator.rs). A name is its number, as it is only compared; the definition
-- of a set is its name, by which it is compared. A hash map is the list of its entries.
use package.telamon.Prelude.{
  ℕ, ◌+◌, ◌≡◌, Bool, true, false, Option, none, some, List, [], ◌∷◌, map, arith, compare, Ordering,
}
use Prim.Native.Nat.Ordering.{lt, eq, gt}
use package.telamon.Prelude.Keys.{Key, and_then, nat_key, pair_key, list_cmp, list_cmp-same}

pub data Variable : Type 0 where
  arg forall : ℕ → Variable

-- The derived order.
abbrev pub variable_cmp : Variable → Variable → Ordering
variable_cmp (arg a) (arg b) = compare a b
variable_cmp (arg a) (forall b) = lt
variable_cmp (forall a) (arg b) = gt
variable_cmp (forall a) (forall b) = compare a b

pub variable_cmp-same : (a b : Variable) → variable_cmp a b ≡ eq → a ≡ b
variable_cmp-same (arg a) (arg b) e = ground arith
variable_cmp-same (arg a) (forall b) e = ground arith
variable_cmp-same (forall a) (arg b) e = ground arith
variable_cmp-same (forall a) (forall b) e = ground arith

instance abbrev pub variable_key : Key Variable
variable_key = record { cmp = variable_cmp; same = variable_cmp-same }

pub record Code : Type 0 where
  pub code : ℕ
  pub vars : List (Variable × ℕ)

abbrev pub code_cmp : Code → Code → Ordering
code_cmp a b = and_then (compare a.code b.code) (list_cmp a.vars b.vars)

pub code_cmp-same : (a b : Code) → code_cmp a b ≡ eq → a ≡ b
code_cmp-same a b e = ground (arith, list_cmp-same a.vars b.vars, nat_key.same a.code b.code)

instance abbrev pub code_key : Key Code
code_key = record { cmp = code_cmp; same = code_cmp-same }

-- `Set`, with the constraint of a set that comes from a reversal.
pub data Set : Type 0 where
  plain : ℕ → Option Variable → Set
  reversed : ℕ → Option Variable → Set → Set

abbrev pub def_of : Set → ℕ
def_of (plain d v) = d
def_of (reversed d v s) = d

pub record SetConstraints : Type 0 where
  pub constraints : List (Variable × Set)

abbrev pub no_constraints : SetConstraints
no_constraints = record { constraints = [] }

pub record Adaptator : Type 0 where
  pub variables : List (Variable × Variable)
  pub inputs : List (ℕ × (ℕ × Bool))

module _ {K V : Type 0} ⦃k : Key K⦄ where
  unfoldable pub find : K → List (K × V) → Option V
  find a [] = none
  find a ((b, v) ∷ entries) =
      let rest = find a entries in elim (k.cmp a b) [ eq ↦ some v | _ ↦ rest ]

  -- `HashMap::insert`
  unfoldable pub put : K → V → List (K × V) → List (K × V)
  put a v [] = (a, v) ∷ []
  put a v ((b, w) ∷ entries) = elim (k.cmp a b) [
    | eq ↦ (b, v) ∷ entries
    | _ ↦ (b, w) ∷ put a v entries
  ]

  pub find-put_self :
      (a : K) (v : V) (entries : List (K × V)) → k.cmp a a ≡ eq → find a (put a v entries) ≡ some v
  unfolding find put
  find-put_self a v [] e = ground arith
  find-put_self a v ((b, w) ∷ entries) e = ground (arith, find-put_self a v entries)

abbrev pub or_default : {A : Type 0} → A → Option A → A
or_default a none = a
or_default a (some b) = b

abbrev from_arguments_at : ℕ → List Variable → List (Variable × Variable)
from_arguments_at id [] = []
from_arguments_at id (v ∷ args) = (arg id, v) ∷ from_arguments_at (id + 1) args

unfoldable pub from_arguments : List Variable → Adaptator
from_arguments args = record { variables = from_arguments_at 0 args; inputs = [] }

unfoldable pub variable : Adaptator → Variable → Variable
unfolding find
variable a var = or_default var (find var a.variables)

unfoldable pub input : Adaptator → ℕ → ℕ × Bool
unfolding find
input a i = or_default (i, false) (find i a.inputs)

-- The previous mapping is returned as well.
unfoldable pub set_variable : Adaptator → Variable → Variable → Option Variable × Adaptator
unfolding find put
set_variable a old new = (find old a.variables, record a { variables = put old new a.variables })

unfoldable pub set_input : Adaptator → ℕ → ℕ → Adaptator
unfolding input put
set_input a old new = record a { inputs = put old (new, (input a old).1) a.inputs }

unfoldable pub set_inversed : Adaptator → ℕ → Adaptator
unfolding input put
set_inversed a i = record a { inputs = put i ((input a i).0, true) a.inputs }

unfoldable pub adapt_code : Adaptator → Code → Code
unfolding variable
adapt_code a c = record c { vars = map (λ v. (variable a v.0, v.1)) c.vars }

abbrev pub adapt_arg : Adaptator → Option Variable → Option Variable
unfolding variable
adapt_arg a none = none
adapt_arg a (some v) = some (variable a v)

unfoldable pub adapt_set : Adaptator → Set → Set
unfolding adapt_arg
adapt_set a (plain d v) = plain d (adapt_arg a v)
adapt_set a (reversed d v s) = reversed d (adapt_arg a v) (adapt_set a s)

-- The sort of `SetConstraints::new` by the order of the definitions, which `def_order` gives, and then by
-- the variable. It is stable.
module _ (def_order : ℕ → ℕ) where
  abbrev pub constraint_cmp : Variable × Set → Variable × Set → Ordering
  constraint_cmp (v, s) (w, t) =
      and_then (compare (def_order (def_of s)) (def_order (def_of t))) (variable_cmp v w)

  unfoldable pub insert_constraint : Variable × Set → List (Variable × Set) → List (Variable × Set)
  insert_constraint c [] = c ∷ []
  insert_constraint c (d ∷ ds) = elim (constraint_cmp c d) [
    | gt ↦ d ∷ insert_constraint c ds
    | _ ↦ c ∷ d ∷ ds
  ]

  unfoldable pub sort_constraints : List (Variable × Set) → List (Variable × Set)
  unfolding insert_constraint
  sort_constraints [] = []
  sort_constraints (c ∷ cs) = insert_constraint c (sort_constraints cs)

  unfoldable pub new_constraints : List (Variable × Set) → SetConstraints
  unfolding sort_constraints
  new_constraints cs = record { constraints = sort_constraints cs }

  unfoldable pub adapt_constraints : Adaptator → SetConstraints → SetConstraints
  unfolding new_constraints variable adapt_set
  adapt_constraints a cs =
      new_constraints (map (λ c. (variable a c.0, adapt_set a c.1)) cs.constraints)

unfoldable pub find_set : SetConstraints → Variable → Option Set
unfolding find
find_set cs v = find v cs.constraints
