-- ===== src/Gen/Enums.antt =====
-- telamon-gen/src/ir/mod.rs: `Enum`, the values of a choice with their aliases and the pairs of values that
-- are each other's inverse. The documentation of a value is left out, and an `IndexMap` is the list of its
-- entries. `none` is the panic of an assertion.
use package.telamon.Prelude.{
  ℕ, Bool, ◌||◌, Option, none, some, List, [], ◌∷◌, ◌++◌, if◌then◌else◌, ◌==◌,
}
use package.telamon.Prelude.Keys.{nat_key, any, add, extend}
use package.telamon.Gen.Variables.{find}

pub record Enum : Type 0 where
  pub name : ℕ
  pub values : List ℕ
  pub aliases : List (ℕ × List ℕ)
  pub pairs : Option (List (ℕ × ℕ))

abbrev pub has : ℕ → List ℕ → Bool
has v xs = any (λ x. v == x) xs

unfoldable pub new : ℕ → Option (List (ℕ × ℕ)) → Enum
new name pairs = record { name = name; values = []; aliases = []; pairs = pairs }

unfoldable pub add_value : Enum → ℕ → Option Enum
add_value e name =
    if any (λ a. name == a.0) e.aliases || has name e.values
    then none
    else some (record e { values = e.values ++ name ∷ [] })

unfoldable pub add_alias : Enum → ℕ → List ℕ → Option Enum
add_alias e name vals =
    if has name e.values || any (λ a. name == a.0) e.aliases
    then none
    else some (record e { aliases = e.aliases ++ (name, vals) ∷ [] })

-- The loop of `expand`.
unfoldable pub expand_from : Enum → List ℕ → List ℕ → List ℕ
unfolding find add extend
expand_from e new_set [] = new_set
expand_from e new_set (a ∷ set) =
    expand_from e
      (elim (find a e.aliases) [ none ↦ add a new_set | some vals ↦ extend new_set vals ]) set

unfoldable pub expand : Enum → List ℕ → List ℕ
unfolding expand_from
expand e set = expand_from e [] set

-- The loop of `inverse`: the first pair that has the value.
abbrev pub inverse_in : List (ℕ × ℕ) → ℕ → ℕ
inverse_in [] value = value
inverse_in ((lhs, rhs) ∷ pairs) value =
    let rest = inverse_in pairs value in
    if lhs == value then rhs else if rhs == value then lhs else rest

unfoldable pub inverse : Enum → ℕ → ℕ
inverse e value = elim e.pairs [ none ↦ value | some pairs ↦ inverse_in pairs value ]
