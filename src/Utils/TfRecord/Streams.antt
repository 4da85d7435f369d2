-- ===== src/Utils/TfRecord/Streams.antt =====
-- telamon-utils/src/tfrecord.rs: the reader on streams cut into chunks and interrupted.
use telamon.Prelude.{
  ℕ, zero, suc, ◌-◌, ◌≤◌, ◌<◌, ◌≡◌, refl, ap, inl, inr, true, false, none, List, [], ◌∷◌, ◌++◌,
  arith, leb, ◌==◌, leb→le, Bool-cases, length, take, drop,
}
use native.Mathlib.Nat.{sub-zero}
use telamon.Utils.TfRecord.{
  Event, chunk, interrupted, failed, Filled, filled, retry_read, with_prefix,
}

-- No call fails, and no chunk is empty, which would stand for the end of the file.
abbrev pub IsClean : List Event → Type 0
IsClean [] = Unit
IsClean (failed ∷ events) = ⊥
IsClean (interrupted ∷ events) = IsClean events
IsClean (chunk [] ∷ events) = ⊥
IsClean (chunk (b ∷ bs) ∷ events) = IsClean events

-- All bytes of the stream.
abbrev pub bytes_of : List Event → List ℕ
bytes_of [] = []
bytes_of (failed ∷ events) = bytes_of events
bytes_of (interrupted ∷ events) = bytes_of events
bytes_of (chunk bs ∷ events) = bs ++ bytes_of events

-- The bytes `bs` were read without an error, and `left` are still to be read.
pub record Reads (f : Filled) (bs left : List ℕ) : Type 0 where
  pub bytes : f.bytes ≡ bs
  pub no_error : f.error ≡ none
  pub clean : IsClean f.rest
  pub remains : bytes_of f.rest ≡ left

take-shorter : (xs ys : List ℕ) (n : ℕ) → n ≤ length xs → take n (xs ++ ys) ≡ take n xs
take-shorter xs ys zero h = refl
take-shorter [] ys (suc n) h = absurd (omega arith)
take-shorter (x ∷ xs) ys (suc n) h = ap (λ t. x ∷ t) (take-shorter xs ys n (omega arith))

drop-shorter : (xs ys : List ℕ) (n : ℕ) → n ≤ length xs → drop n (xs ++ ys) ≡ drop n xs ++ ys
drop-shorter xs ys zero h = refl
drop-shorter [] ys (suc n) h = absurd (omega arith)
drop-shorter (x ∷ xs) ys (suc n) h = drop-shorter xs ys n (omega arith)

take-longer :
    (xs ys : List ℕ) (n : ℕ) → length xs ≤ n → take n (xs ++ ys) ≡ xs ++ take (n - length xs) ys
take-longer [] ys n h = rw (sub-zero n) refl
take-longer (x ∷ xs) ys zero h = absurd (omega arith)
take-longer (x ∷ xs) ys (suc n) h =
    let e : suc n - suc (length xs) ≡ n - length xs = omega arith in
    rw e (ap (λ t. x ∷ t) (take-longer xs ys n (omega arith)))

drop-longer : (xs ys : List ℕ) (n : ℕ) → length xs ≤ n → drop n (xs ++ ys) ≡ drop (n - length xs) ys
drop-longer [] ys n h = rw (sub-zero n) refl
drop-longer (x ∷ xs) ys zero h = absurd (omega arith)
drop-longer (x ∷ xs) ys (suc n) h =
    let e : suc n - suc (length xs) ≡ n - length xs = omega arith in
    rw e (drop-longer xs ys n (omega arith))

drop-IsClean :
    (bs : List ℕ) (n : ℕ) (events : List Event)
    → n < length bs
    → IsClean events
    → IsClean (chunk (drop n bs) ∷ events)
drop-IsClean [] n events h c = absurd (omega arith)
drop-IsClean (b ∷ bs) zero events h c = c
drop-IsClean (b ∷ bs) (suc n) events h c = drop-IsClean bs n events (omega arith) c

retry_interrupted :
    (events : List Event) (n : ℕ)
    → retry_read (interrupted ∷ events) (suc n) ≡ retry_read events (suc n)
unfolding retry_read
retry_interrupted events n =
    let more : (suc n == 0) ≡ false = ground arith in rw (more, retry_read) refl

retry_nothing : (n : ℕ) → Reads (retry_read [] n) [] []
unfolding retry_read
retry_nothing n = record { bytes = refl; no_error = refl; clean = tt; remains = refl }

retry_none :
    (events : List Event)
    → IsClean events
    → Reads (retry_read (interrupted ∷ events) 0) [] (bytes_of events)
unfolding retry_read
retry_none events c = record { bytes = refl; no_error = refl; clean = c; remains = refl }

retry_whole :
    (b : ℕ) (bs : List ℕ) (events : List Event) (n : ℕ)
    → leb (suc (length bs)) n ≡ true
    → retry_read (chunk (b ∷ bs) ∷ events) n
      ≡ with_prefix (b ∷ bs) (retry_read events (n - suc (length bs)))
unfolding retry_read
retry_whole b bs events n h = rw (h, retry_read) refl

retry_part :
    (b : ℕ) (bs : List ℕ) (events : List Event) (n : ℕ)
    → leb (suc (length bs)) n ≡ false
    → retry_read (chunk (b ∷ bs) ∷ events) n
      ≡ filled (take n (b ∷ bs)) (chunk (drop n (b ∷ bs)) ∷ events)
unfolding retry_read
retry_part b bs events n h = rw (h, retry_read) refl

take-nil : (n : ℕ) → take {A = ℕ} n [] ≡ []
take-nil zero = refl
take-nil (suc n) = refl

drop-nil : (n : ℕ) → drop {A = ℕ} n [] ≡ []
drop-nil zero = refl
drop-nil (suc n) = refl

-- `retry_read` of a clean stream reads the first `n` bytes of it, or all if there are fewer.
pub retry_read-Reads :
    (events : List Event) (n : ℕ)
    → IsClean events
    → Reads (retry_read events n) (take n (bytes_of events)) (drop n (bytes_of events))
retry_read-Reads [] n c = rw (take-nil n, drop-nil n) (retry_nothing n)
retry_read-Reads (failed ∷ events) n c = absurd c
retry_read-Reads (interrupted ∷ events) zero c = retry_none events c
retry_read-Reads (interrupted ∷ events) (suc n) c =
    rw (retry_interrupted events n) (retry_read-Reads events (suc n) c)
retry_read-Reads (chunk [] ∷ events) n c = absurd c
retry_read-Reads (chunk (b ∷ bs) ∷ events) n c = elim (Bool-cases (leb (suc (length bs)) n)) [
  | inl whole ↦
      let fits = leb→le (suc (length bs)) n whole in
      let later = retry_read-Reads events (n - suc (length bs)) c in
      rw
        (
          retry_whole b bs events n whole,
          take-longer (b ∷ bs) (bytes_of events) n fits,
          drop-longer (b ∷ bs) (bytes_of events) n fits,
        )
        record {
          bytes = ap (λ t. b ∷ bs ++ t) later.bytes;
          no_error = later.no_error;
          clean = later.clean;
          remains = later.remains;
        }
  | inr part ↦
      let less : n < suc (length bs) = ground arith in
      rw
        (
          retry_part b bs events n part,
          take-shorter (b ∷ bs) (bytes_of events) n (omega arith),
          drop-shorter (b ∷ bs) (bytes_of events) n (omega arith),
        )
        record {
          bytes = refl;
          no_error = refl;
          clean = drop-IsClean (b ∷ bs) n events less c;
          remains = refl;
        }
]
