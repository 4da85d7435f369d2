-- ===== src/Utils/TfRecord/Bytes.antt =====
-- telamon-utils/src/tfrecord.rs: words and their bytes.
use telamon.Prelude.{ℕ, zero, suc, ◌/◌, ◌^◌, ◌<◌, ◌≡◌, refl, ap, List, [], ◌∷◌, arith, length}
use telamon.Utils.TfRecord.{to_le, of_le, pad}
use native.Mathlib.Nat.{pow-suc}

pub length-to_le : (w n : ℕ) → length (to_le w n) ≡ w
length-to_le zero n = refl
length-to_le (suc w) n = ap suc (length-to_le w (n / 256))

pub of_le-to_le : (w n : ℕ) → n < 256 ^ w → of_le (to_le w n) ≡ n
of_le-to_le zero n h = omega arith
of_le-to_le (suc w) n h = omega (arith, of_le-to_le w (n / 256) (omega (arith, pow-suc 256 w)))

pub pad-full : (w : ℕ) (bs : List ℕ) → length bs ≡ w → pad w bs ≡ bs
pad-full zero [] h = refl
pad-full zero (b ∷ bs) h = absurd (omega arith)
pad-full (suc w) [] h = absurd (omega arith)
pad-full (suc w) (b ∷ bs) h = ap (λ t. b ∷ t) (pad-full w bs (omega arith))
