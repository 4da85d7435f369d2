-- ===== src/Utils/Trivalent.antt =====
-- telamon-utils/src/lib.rs: `Trivalent`, the Booleans with a third value. `never`, `maybe` and `always` are
-- the cases `False`, `Maybe` and `True`.
use package.telamon.Prelude.{Bool, true, false, Option, none, some}

pub data Trivalent : Type 0 where
  never maybe always : Trivalent

unfoldable pub as_bool : Trivalent → Option Bool
as_bool never = some false
as_bool maybe = none
as_bool always = some true

unfoldable pub maybe_true : Trivalent → Bool
maybe_true never = false
maybe_true maybe = true
maybe_true always = true

unfoldable pub maybe_false : Trivalent → Bool
maybe_false never = true
maybe_false maybe = true
maybe_false always = false

unfoldable pub is_true : Trivalent → Bool
is_true never = false
is_true maybe = false
is_true always = true

unfoldable pub is_false : Trivalent → Bool
is_false never = true
is_false maybe = false
is_false always = false

unfoldable pub is_maybe : Trivalent → Bool
is_maybe never = false
is_maybe maybe = true
is_maybe always = false

-- `impl BitAnd`, with the arms in the order of the source.
unfoldable pub and : Trivalent → Trivalent → Trivalent
and never b = never
and maybe never = never
and maybe maybe = maybe
and maybe always = maybe
and always b = b

-- `impl BitOr`
unfoldable pub or : Trivalent → Trivalent → Trivalent
or always b = always
or maybe always = always
or maybe maybe = maybe
or maybe never = maybe
or never b = b

-- `impl Not`
unfoldable pub negated : Trivalent → Trivalent
negated never = always
negated maybe = maybe
negated always = never
