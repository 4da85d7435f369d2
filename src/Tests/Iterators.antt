-- ===== src/Tests/Iterators.antt =====
-- Runs and instances for the extensions of the iterators.
use telamon.Prelude.{ℕ, ◌+◌, ◌≡◌, refl, some, List, [], ◌∷◌, ltb, ◌==◌}
use telamon.Utils.Iterators.{filter_next, to_map}

abbrev items : List ℕ
items = 4 ∷ 7 ∷ 9 ∷ []

abbrev object : ℕ
object = 1

filtered : filter_next (λ x. ltb 5 x) [] items ≡ (some 7, (4 ∷ [], 9 ∷ []))
unfolding filter_next
filtered = refl

abbrev pairs : List (ℕ × ℕ)
pairs = (1, 10) ∷ (2, 20) ∷ (1, 5) ∷ []

mapped : to_map ◌==◌ (λ a b. a + b) pairs ≡ (1, 15) ∷ (2, 20) ∷ []
unfolding to_map
mapped = refl
