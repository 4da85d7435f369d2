-- ===== src/Utils/TfRecord/RoundTrip.antt =====
-- telamon-utils/src/tfrecord.rs: the writer against the reader.
use telamon.Prelude.{
  ℕ, zero, suc, ◌<◌, ◌≡◌, refl, sym, ap, ◌∙◌, true, false, Option, none, some, List, [], ◌∷◌, ◌++◌,
  map, arith, ◌==◌, if◌then◌else◌, length, take, drop, All, take-append, drop-append, u32_mod,
}
use mathlib.Core.List.{append_assoc, append-nil}
use mathlib.Core.Option.{some-injective}
use telamon.Utils.TfRecord.{
  Event, Filled, Result, ok, err, corrupted, truncated, word_of, to_le, of_le, retry_read, read_u32,
  masked_crc32, check_payload, payload_of, read_payload, check_header, header_of, read_record, next,
  item_of, write_record,
}
use telamon.Utils.TfRecord.Bytes.{of_le-to_le}
use telamon.Utils.TfRecord.Streams.{IsClean, bytes_of, retry_read-Reads}

-- A clean stream of these bytes.
pub record Holds (events : List Event) (bs : List ℕ) : Type 0 where
  pub clean : IsClean events
  pub holds : bytes_of events ≡ bs

-- A read of as many bytes as `bs` has, where the stream begins with them.
read_exactly :
    (events : List Event) (bs later : List ℕ)
    → Holds events (bs ++ later)
    → (rest : List Event) × (retry_read events (length bs)
        ≡ record { bytes = bs; error = none; rest = rest })
      × Holds rest later
read_exactly events bs later h =
    let r = retry_read-Reads events (length bs) h.clean in
    let f = retry_read events (length bs) in
    let whole : f.bytes ≡ bs =
      r.bytes ∙ ap (λ t. take (length bs) t) h.holds ∙ take-append bs later in
    let left : bytes_of f.rest ≡ later =
      r.remains ∙ ap (λ t. drop (length bs) t) h.holds ∙ drop-append bs later in
    (f.rest, filled_ext f whole r.no_error, record { clean = r.clean; holds = left })
  where
    filled_ext :
        (f : Filled)
        → f.bytes ≡ bs
        → f.error ≡ none
        → f ≡ record { bytes = bs; error = none; rest = f.rest }
    filled_ext f p q = λ i. record { bytes = p i; error = q i; rest = f.rest }

read_word :
    (events : List Event) (n : ℕ) (later : List ℕ)
    → n < u32_mod
    → Holds events (to_le 4 n ++ later)
    → (rest : List Event) × (read_u32 events ≡ (ok n, rest)) × Holds rest later
unfolding read_u32
read_word events n later small h =
    let (rest, read, holds) = read_exactly events (to_le 4 n) later h in
    let at_four : retry_read events 4 ≡ record { bytes = to_le 4 n; error = none; rest = rest } =
      read in
    let back = of_le-to_le 4 n (omega arith) in
    (rest, ap word_of at_four ∙ ap (λ (m : ℕ). (ok m, rest)) back, holds)

-- The bytes that `write_record` writes, before `later`.
module _ (crc : List ℕ → ℕ) where
  abbrev pub framed : List ℕ → List ℕ → List ℕ
  framed bs later =
      to_le 8 (length bs)
      ++ (to_le 4 (masked_crc32 crc (to_le 8 (length bs)))
          ++ (bs ++ (to_le 4 (masked_crc32 crc bs) ++ later)))

  masked-small : (bs : List ℕ) → masked_crc32 crc bs < u32_mod
  unfolding masked_crc32
  masked-small bs = omega arith

  payload_back :
      (buf bs later : List ℕ) (events : List Event)
      → Holds events (bs ++ (to_le 4 (masked_crc32 crc bs) ++ later))
      → (rest : List Event) × (read_payload crc (length bs) buf events
          ≡ (ok true, (buf ++ bs, rest)))
        × Holds rest later
  unfolding read_payload payload_of check_payload
  payload_back buf bs later events h =
      let (mid, read, held) = read_exactly events bs (to_le 4 (masked_crc32 crc bs) ++ later) h in
      let (rest, word, holds) = read_word mid (masked_crc32 crc bs) later (masked-small bs) held in
      let full : (length bs == length bs) ≡ true = ground arith in
      let right : (masked_crc32 crc bs == masked_crc32 crc bs) ≡ true = ground arith in
      let all = buf ++ bs in
      (
        rest,
        ap (payload_of crc (length bs) buf) read
            ∙ ap
                (λ t.
                  if t
                  then check_payload crc all bs (read_u32 mid)
                  else (err truncated, (all, mid)))
                full
            ∙ ap (check_payload crc all bs) word
            ∙ ap (λ t. if t then (ok true, (all, rest)) else (err corrupted, (all, rest))) right,
        holds,
      )

  -- Reading a record that was written appends its bytes to the buffer, from any stream that begins with
  -- what was written, and leaves what follows.
  pub read_record-framed :
      (buf bs later : List ℕ) (events : List Event)
      → length bs < 18_446_744_073_709_551_616
      → Holds events (framed bs later)
      → (rest : List Event) × (read_record crc buf events ≡ (ok true, (buf ++ bs, rest)))
        × Holds rest later
  unfolding read_record header_of check_header
  read_record-framed buf bs later events small h =
      let header = to_le 8 (length bs) in
      let (mid, read, held) = read_exactly events header _ h in
      let (left, word, holds) =
        read_word mid (masked_crc32 crc header) _ (masked-small header) held in
      let (rest, payload, last) = payload_back buf bs later left holds in
      let at_eight : retry_read events 8 ≡ record { bytes = header; error = none; rest = mid } =
        read in
      let right : (masked_crc32 crc header == masked_crc32 crc header) ≡ true = ground arith in
      let size : of_le header ≡ length bs = of_le-to_le 8 (length bs) (omega arith) in
      (
        rest,
        ap (header_of crc buf) at_eight
            ∙ ap (check_header crc buf header) word
            ∙ ap
                (λ t.
                  if t
                  then read_payload crc (of_le header) buf left
                  else (err corrupted, (buf, left)))
                right
            ∙ ap (λ n. read_payload crc n buf left) size
            ∙ payload,
        last,
      )

  -- A vector of bytes as a writer.
  abbrev pub append_all : List ℕ → List ℕ → Option (List ℕ)
  append_all bs w = some (w ++ bs)

  abbrev pub write_records : List (List ℕ) → List ℕ → Option (List ℕ)
  write_records [] w = some w
  write_records (bs ∷ records) w = elim (write_record crc append_all bs w) [
    | none ↦ none
    | some w ↦ write_records records w
  ]

  -- The records that an iterator over them yields, `rounds` of them at most.
  abbrev pub collect : ℕ → List Event → List (Result (List ℕ))
  collect zero events = []
  collect (suc rounds) events = elim (next crc events).0 [
    | none ↦ []
    | some item ↦ item ∷ collect rounds (next crc events).1
  ]

  abbrev file_of : List (List ℕ) → List ℕ
  file_of [] = []
  file_of (bs ∷ records) = framed bs (file_of records)

  write_record-framed :
      (bs w later : List ℕ)
      → (v : List ℕ) × (write_record crc append_all bs w ≡ some v)
        × (v ++ later ≡ w ++ framed bs later)
  unfolding write_record
  write_record-framed bs w later =
      let a = to_le 8 (length bs) in
      let b = to_le 4 (masked_crc32 crc a) in
      let c = to_le 4 (masked_crc32 crc bs) in
      (
        w ++ a ++ b ++ bs ++ c,
        refl,
        append_assoc (w ++ a ++ b ++ bs) c later
            ∙ append_assoc (w ++ a ++ b) bs (c ++ later)
            ∙ append_assoc (w ++ a) b (bs ++ (c ++ later))
            ∙ append_assoc w a (b ++ (bs ++ (c ++ later))),
      )

  write_records-file :
      (records : List (List ℕ)) (w : List ℕ) → write_records records w ≡ some (w ++ file_of records)
  write_records-file [] w = ap some (sym (append-nil w))
  write_records-file (bs ∷ records) w =
      let (v, wrote, same) = write_record-framed bs w (file_of records) in
      ap (λ (o : Option (List ℕ)). elim o [ none ↦ none | some w ↦ write_records records w ]) wrote
      ∙ write_records-file records v
      ∙ ap some same

  next-end : (events : List Event) → Holds events [] → (next crc events).0 ≡ none
  unfolding next read_record header_of
  next-end events h =
      let (rest, read, holds) = read_exactly events [] [] h in
      let r = retry_read-Reads events 8 h.clean in
      let empty : (retry_read events 8).bytes ≡ [] = r.bytes ∙ ap (λ t. take 8 t) h.holds in
      ap (λ r. (item_of crc r).0) (ended (retry_read events 8) empty r.no_error)
    where
      ended :
          (f : Filled)
          → f.bytes ≡ []
          → f.error ≡ none
          → header_of crc [] f ≡ (ok false, ([], f.rest))
      ended f p q =
          ap (λ (g : Filled). header_of crc [] g)
            (λ i. record { bytes = p i; error = q i; rest = f.rest })

  next-framed :
      (bs later : List ℕ) (events : List Event)
      → length bs < 18_446_744_073_709_551_616
      → Holds events (framed bs later)
      → (rest : List Event) × (next crc events ≡ (some (ok bs), rest)) × Holds rest later
  unfolding next
  next-framed bs later events small h =
      let (rest, read, holds) = read_record-framed [] bs later events small h in
      (rest, ap (item_of crc) read, holds)

  -- The records that were written to a file are the items of the iterator over it, in order and without
  -- an error, however the reads of the file are cut or interrupted; after them the iterator ends.
  pub collect-write_records :
      (records : List (List ℕ)) (file : List ℕ) (events : List Event)
      → All (λ bs. length bs < 18_446_744_073_709_551_616) records
      → write_records records [] ≡ some file
      → Holds events file
      → collect (suc (length records)) events ≡ map ok records
  collect-write_records records file events short wrote h =
      let same : file_of records ≡ file =
        some-injective _ _ (sym (write_records-file records []) ∙ wrote) in
      read_back records events short record { clean = h.clean; holds = h.holds ∙ sym same }
    where
      read_back :
          (records : List (List ℕ)) (events : List Event)
          → All (λ bs. length bs < 18_446_744_073_709_551_616) records
          → Holds events (file_of records)
          → collect (suc (length records)) events ≡ map ok records
      read_back [] events short h =
          ap (λ (o : Option (Result (List ℕ))). elim o [ none ↦ [] | some item ↦ item ∷ [] ])
            (next-end events h)
      read_back (bs ∷ records) events short h =
          let (rest, step, holds) = next-framed bs (file_of records) events short.0 h in
          ap
            (λ (p : Option (Result (List ℕ)) × List Event). elim p.0 [
              | none ↦ []
              | some item ↦ item ∷ collect (suc (length records)) p.1
            ])
            step
          ∙ ap (λ t. ok bs ∷ t) (read_back records rest short.1 holds)
