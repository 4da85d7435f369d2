-- ===== src/Tests/Records.antt =====
-- Runs and instances for the record files, with the sum of the bytes in the place of the checksum.
use telamon.Prelude.{ℕ, ◌+◌, ◌≡◌, refl, some, List, [], ◌∷◌, ◌++◌, arith}
use telamon.Utils.TfRecord.{
  Event, chunk, interrupted, failed, ok, err, corrupted, failure, read_record, write_record,
  masked_crc32,
}
use telamon.Utils.TfRecord.RoundTrip.{Holds, write_records, collect, collect-write_records}

abbrev sum : List ℕ → ℕ
sum [] = 0
sum (b ∷ bs) = b + sum bs

abbrev first : List ℕ
first = 1 ∷ 2 ∷ []

abbrev records : List (List ℕ)
records = first ∷ (3 ∷ []) ∷ []

abbrev start : List ℕ
start = 2 ∷ 0 ∷ 0 ∷ 0 ∷ 0 ∷ []

abbrev middle : List ℕ
middle = 0 ∷ 0 ∷ 0 ∷ 216 ∷ 234 ∷ 134 ∷ 162 ∷ 1 ∷ 2 ∷ 216 ∷ 234 ∷ 136 ∷ 162 ∷ 1 ∷ 0 ∷ []

abbrev rest : List ℕ
rest = 0 ∷ 0 ∷ 0 ∷ 0 ∷ 0 ∷ 0 ∷ 216 ∷ 234 ∷ 132 ∷ 162 ∷ 3 ∷ 216 ∷ 234 ∷ 136 ∷ 162 ∷ []

-- The file of the two records.
abbrev file : List ℕ
file = start ++ (middle ++ rest)

-- It is read in three parts, with interruptions.
abbrev cut : List Event
cut = chunk start ∷ interrupted ∷ chunk middle ∷ interrupted ∷ interrupted ∷ chunk rest ∷ []

cut-Holds : Holds cut file
cut-Holds = record { clean = tt; holds = refl }

written : write_records sum records [] ≡ some file
unfolding write_record masked_crc32
written = refl

collect-write_records_example : collect sum 3 cut ≡ ok first ∷ ok (3 ∷ []) ∷ []
collect-write_records_example =
    collect-write_records sum records file cut (omega arith, (omega arith, tt)) written cut-Holds

-- A file that begins with a wrong byte, and one that fails.
abbrev broken : List Event
broken = chunk (7 ∷ file) ∷ []

broken_run : (read_record sum [] broken).0 ≡ err corrupted
unfolding read_record masked_crc32
broken_run = refl

failing_run : (read_record sum [] (chunk (1 ∷ []) ∷ failed ∷ [])).0 ≡ err failure
unfolding read_record
failing_run = refl
