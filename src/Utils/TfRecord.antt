-- ===== src/Utils/TfRecord.antt =====
-- telamon-utils/src/tfrecord.rs: files of records with masked checksums. A byte is a number below 256. A
-- reader of std::io is the list of what its calls of `read` meet; `read_exact` and `read_to_end` of the
-- standard library retry on an interruption as `retry_read` does.
pub mod Bytes
pub mod Streams
pub mod RoundTrip
use package.telamon.Prelude.{
  ℕ, zero, suc, ◌+◌, ◌-◌, ◌*◌, ◌/◌, ◌%◌, ◌^◌, ◌≤◌, ◌<◌, compare, Ordering, bit_and, bit_or, ◌≡◌,
  refl, sym, ap, ◌∙◌, subst, fun_ext, ◌≢◌, ◌↔◌, ◌⊎◌, inl, inr, Bool, true, false, not, ◌&&◌, ◌||◌,
  Option, none, some, List, [], ◌∷◌, ◌++◌, map, arith, ltb, leb, ◌==◌, if◌then◌else◌, ltb→lt,
  lt→ltb, leb→le, ==→≡, tests, Bool-cases, Option-cases, Ordering-cases, length, get_elem?, take,
  drop, replicate, ◌∈◌, All, length-append, length-replicate, length-set, take-append, drop-append,
  All-get_elem?, get_elem?-total, get_elem?-lt, mem-append_left, mem-append_right, mem-append_cases,
  u32_max, u32_mod, u16_mod, IsU32, add32, sub32, mul32, saturating_add, saturating_sub,
  saturating_mul, shl16_one, pred16,
}

-- What a call of `read` meets: some bytes that are there, an interruption, or another error. A call that
-- asks for less than there is leaves the rest.
pub data Event : Type 0 where
  chunk : List ℕ → Event
  interrupted : Event
  failed : Event

-- The errors that a reader or a writer returns.
pub data Error : Type 0 where
  failure : Error
  unexpected_eof : Error
  corrupted : Error
  truncated : Error

pub data Result (A : Type 0) : Type 0 where
  ok : A → Result A
  err : Error → Result A

-- The bytes of a word of `w` bytes, the lowest first, and the word that bytes stand for.
abbrev pub to_le : ℕ → ℕ → List ℕ
to_le zero n = []
to_le (suc w) n = n % 256 ∷ to_le w (n / 256)

abbrev pub of_le : List ℕ → ℕ
of_le [] = 0
of_le (b ∷ bs) = b + of_le bs * 256

-- `nread` bytes are read into a buffer of `w` zeros.
abbrev pub pad : ℕ → List ℕ → List ℕ
pad zero bs = []
pad (suc w) [] = 0 ∷ pad w []
pad (suc w) (b ∷ bs) = b ∷ pad w bs

-- What a read into a buffer leaves: the bytes in it, the error that ended it, and the reader.
pub record Filled : Type 0 where
  pub bytes : List ℕ
  pub error : Option Error
  pub rest : List Event

abbrev pub with_prefix : List ℕ → Filled → Filled
with_prefix bs f = record { bytes = bs ++ f.bytes; error = f.error; rest = f.rest }

abbrev pub filled : List ℕ → List Event → Filled
filled bs events = record { bytes = bs; error = none; rest = events }

-- `retry_read` into a buffer of `n` bytes.
unfoldable pub retry_read : List Event → ℕ → Filled
retry_read [] n = filled [] []
retry_read (interrupted ∷ events) n =
    let again = retry_read events n in if n == 0 then filled [] (interrupted ∷ events) else again
retry_read (failed ∷ events) n =
    if n == 0
    then filled [] (failed ∷ events)
    else record { bytes = []; error = some failure; rest = events }
retry_read (chunk [] ∷ events) n = filled [] (if n == 0 then chunk [] ∷ events else events)
retry_read (chunk (b ∷ bs) ∷ events) n =
    let more = with_prefix (b ∷ bs) (retry_read events (n - suc (length bs))) in
    if leb (suc (length bs)) n
    then more
    else filled (take n (b ∷ bs)) (chunk (drop n (b ∷ bs)) ∷ events)

-- The word that was read, if the buffer is full.
abbrev pub word_of : Filled → Result ℕ × List Event
word_of f = elim f.error [
  | some e ↦ (err e, f.rest)
  | none ↦
      if length f.bytes == 4 then (ok (of_le f.bytes), f.rest) else (err unexpected_eof, f.rest)
]

-- `read_u32::<LittleEndian>`
unfoldable pub read_u32 : List Event → Result ℕ × List Event
unfolding retry_read
read_u32 events = word_of (retry_read events 4)

module _ (checksum_castagnoli : List ℕ → ℕ) where
  -- `((crc >> 15) | (crc << 17)).wrapping_add(0xa282_ead8)`
  unfoldable pub masked_crc32 : List ℕ → ℕ
  masked_crc32 bytes =
      let crc = checksum_castagnoli bytes in
      (bit_or (crc / 32_768) (crc * 131_072 % u32_mod) + 2_726_488_792) % u32_mod

  -- The checksum of the payload `bytes`, once `buf` holds it.
  unfoldable pub check_payload :
      List ℕ → List ℕ → Result ℕ × List Event → Result Bool × (List ℕ × List Event)
  unfolding masked_crc32
  check_payload buf bytes (err e, rest) = (err e, (buf, rest))
  check_payload buf bytes (ok c, rest) =
      if c == masked_crc32 bytes then (ok true, (buf, rest)) else (err corrupted, (buf, rest))

  -- What follows the read of the payload, which is appended to the buffer.
  unfoldable pub payload_of : ℕ → List ℕ → Filled → Result Bool × (List ℕ × List Event)
  unfolding read_u32 check_payload
  payload_of len buf f = elim f.error [
    | some e ↦ (err e, (buf ++ f.bytes, f.rest))
    | none ↦
        if length f.bytes == len
        then check_payload (buf ++ f.bytes) f.bytes (read_u32 f.rest)
        else (err truncated, (buf ++ f.bytes, f.rest))
  ]

  unfoldable pub read_payload : ℕ → List ℕ → List Event → Result Bool × (List ℕ × List Event)
  unfolding retry_read payload_of
  read_payload len buf events = payload_of len buf (retry_read events len)

  -- The checksum of the header.
  unfoldable pub check_header :
      List ℕ → List ℕ → Result ℕ × List Event → Result Bool × (List ℕ × List Event)
  unfolding masked_crc32 read_payload
  check_header buf len_bytes (err e, rest) = (err e, (buf, rest))
  check_header buf len_bytes (ok c, rest) =
      if c == masked_crc32 len_bytes
      then read_payload (of_le len_bytes) buf rest
      else (err corrupted, (buf, rest))

  -- What follows the read of the header.
  unfoldable pub header_of : List ℕ → Filled → Result Bool × (List ℕ × List Event)
  unfolding read_u32 check_header
  header_of buf f = elim f.error [
    | some e ↦ (err e, (buf, f.rest))
    | none ↦
        if length f.bytes == 0
        then (ok false, (buf, f.rest))
        else check_header buf (pad 8 f.bytes) (read_u32 f.rest)
  ]

  -- `Reader::read_record`: the answer, the buffer, and the reader after it.
  unfoldable pub read_record : List ℕ → List Event → Result Bool × (List ℕ × List Event)
  unfolding retry_read header_of
  read_record buf events = header_of buf (retry_read events 8)

  abbrev pub item_of : Result Bool × (List ℕ × List Event) → Option (Result (List ℕ)) × List Event
  item_of (err e, (buffer, rest)) = (some (err e), rest)
  item_of (ok true, (buffer, rest)) = (some (ok buffer), rest)
  item_of (ok false, (buffer, rest)) = (none, rest)

  -- `Records::next`
  unfoldable pub next : List Event → Option (Result (List ℕ)) × List Event
  unfolding read_record
  next events = item_of (read_record [] events)

  -- `Writer::write_record`, over `write_all` of the writer, where `none` is an error.
  module _ {W : Type 0} (write_all : List ℕ → W → Option W) where
    unfoldable pub write_record : List ℕ → W → Option W
    unfolding masked_crc32
    write_record bytes w =
        let len_bytes = to_le 8 (length bytes) in
        elim (write_all len_bytes w) [
          | none ↦ none
          | some w ↦ elim (write_all (to_le 4 (masked_crc32 len_bytes)) w) [
            | none ↦ none
            | some w ↦ elim (write_all bytes w) [
              | none ↦ none
              | some w ↦ write_all (to_le 4 (masked_crc32 bytes)) w
            ]
          ]
        ]
