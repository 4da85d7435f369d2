-- ===== src/Tests/Alternatives.antt =====
-- Instances for the values that a condition leaves to an input.
use telamon.Prelude.{◌≡◌, refl, false, Option, some}
use telamon.Gen.Values.{CmpOp, ValueSet, enum_type, get_enum}
use telamon.Gen.Filter.{Condition, cmp_input, enum_of_input}
use telamon.Gen.Alternatives.{alternatives_of}
use telamon.Gen.Alternatives.Restricted.{IsInput, Fits, IsRestriction}
use telamon.Gen.Alternatives.Compared.{alternatives_of-IsRestricted}
use telamon.Tests.Filters.{texts, colors, description, inputs, context, context-IsContext}

-- The inputs are not equal.
abbrev differ : Condition
differ = cmp_input 0 1 CmpOp.neq false

first-IsInput : IsInput texts description inputs context context-IsContext 0 2 (enum_type 0)
unfolding enum_of_input get_enum
first-IsInput = (colors, refl, refl, refl)

differ-Fits : Fits texts description inputs context context-IsContext 0 2 (enum_type 0) differ
differ-Fits = (tt, tt)

alternatives_of-IsRestricted_example :
    (o : Option ValueSet) × (alternatives_of 0 (enum_type 0) description differ ≡ some o)
    × IsRestriction texts description inputs context context-IsContext 0 2 differ o
alternatives_of-IsRestricted_example =
    alternatives_of-IsRestricted texts description inputs context context-IsContext 0 2
      (enum_type 0) differ first-IsInput differ-Fits
