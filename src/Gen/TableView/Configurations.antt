-- ===== src/Gen/TableView/Configurations.antt =====
-- telamon-gen/src/truth_table.rs: the lists of branches and cases that `table_min_split` goes through.
use telamon.Prelude.{
  ℕ, zero, suc, ◌+◌, ◌<◌, ◌≡◌, refl, ap, ◌∙◌, subst, ◌⊎◌, inl, inr, Bool, true, false, ◌&&◌, ◌||◌,
  some, List, [], ◌∷◌, arith, ltb, leb, ◌==◌, get_elem?, All,
}
use telamon.Prelude.Keys.{any}
use mathlib.Core.Option.{some-injective}
use telamon.Gen.Values.{ValueSet}
use telamon.Gen.TableView.{TableView, Instance, last, find_view}
use telamon.Gen.TableView.Meaning.{onto}

pub any-onto :
    (f : ValueSet × TableView → Bool) (seen rest : List (ValueSet × TableView))
    → any f (onto seen rest) ≡ (any f seen || any f rest)
any-onto f seen [] = ground arith
any-onto f seen (b ∷ rest) = ground (arith, any-onto f (b ∷ seen) rest)

pub All-onto :
    (P : ValueSet × TableView → Type 0) (seen rest : List (ValueSet × TableView))
    → All P (onto seen rest)
    → All P seen × All P rest
All-onto P seen [] h = (h, tt)
All-onto P seen (b ∷ rest) h = let (k, l) = All-onto P (b ∷ seen) rest h in (k.1, (k.0, l))

pub All-at :
    (P : ValueSet × TableView → Type 0) (bs : List (ValueSet × TableView)) (n : ℕ)
    (b : ValueSet × TableView)
    → All P bs
    → get_elem? bs n ≡ some b
    → P b
All-at P [] n b h e = ground arith
All-at P (c ∷ bs) zero b h e = subst P (some-injective _ _ e) h.0
All-at P (c ∷ bs) (suc n) b h e = All-at P bs n b h.1 e

pub last-at :
    (b : ValueSet × TableView) (bs : List (ValueSet × TableView))
    → (n : ℕ) × (c : ValueSet × TableView) × (get_elem? (b ∷ bs) n ≡ some c)
      × (last (b ∷ bs) ≡ some c.1)
last-at b [] = (0, b, refl, refl)
last-at b (c ∷ bs) = let (n, d, read, e) = last-at c bs in (suc n, d, read, e)

-- The view of an instance, with its values.
abbrev pub case_of : Instance → ValueSet × TableView
case_of i = (i.values, i.table)

abbrev pub cases_of : List Instance → List (ValueSet × TableView)
cases_of [] = []
cases_of (i ∷ is) = case_of i ∷ cases_of is

pub find_view-at :
    (at d : ℕ) (views : List (ValueSet × TableView)) (b : ValueSet × TableView)
    → get_elem? views d ≡ some b
    → (rest : List (ValueSet × TableView)) × (find_view (at + d) at views ≡ some (b.1, rest))
      × ((k : ℕ) → get_elem? rest k ≡ get_elem? views (suc (d + k)))
unfolding find_view
find_view-at at d [] b e = ground arith
find_view-at at zero (v ∷ views) b e =
    let here : (at == at + 0) ≡ true = ground arith in
    (
      views,
      rw (here, some-injective _ _ e) refl,
      λ k. ap (λ (n : ℕ). get_elem? views n) (omega arith),
    )
find_view-at at (suc d) (v ∷ views) b e =
    let there : (at == at + suc d) ≡ false = ground arith in
    let (rest, found, tail) = find_view-at (at + 1) d views b e in
    (
      rest,
      rw there (ap (λ (n : ℕ). find_view n (at + 1) views) (omega arith) ∙ found),
      λ k. tail k ∙ ap (λ (n : ℕ). get_elem? views n) (omega arith),
    )

pub in_range : (k n : ℕ) (x : Bool) → k < n → ((leb 0 k && ltb k (0 + n)) && x) ≡ x
in_range k n x l = ground arith

pub only {ℓ} : {A : Type ℓ} → A ⊎ ⊥ → A
only (inl x) = x
only (inr h) = absurd h

pub only_known : ⊥ ⊎ (0 < 0) → ⊥
only_known (inl h) = h
only_known (inr l) = omega (arith, l)
