-- ===== src/Wal/SegmentHeader.antt =====
-- The header that the writer puts in front of a segment, as the reader checks it.
use distr_hnsw.Common.{
  ℕ, ◌^◌, ◌<◌, ◌≡◌, refl, ap, false, List, [], ◌∷◌, ◌++◌, append_assoc, length, slice,
  bytes_eq_refl, ok, length-append, slice-append, le→ltb, arith,
}
use distr_hnsw.Common.Bytes.{to_le, from_le, length-to_le, from_le-to_le}
use distr_hnsw.Wal.Segment.{
  wal_magic, wal_version, header_len, encode_header, decode_header, all_zero,
}

-- Magic, version and the two unused bytes.
abbrev prefix : List ℕ
prefix = 68 ∷ 72 ∷ 87 ∷ 76 ∷ 1 ∷ 0 ∷ 0 ∷ 0 ∷ []

header_split :
    (id log : List ℕ) (first : ℕ)
    → encode_header id first ++ log ≡ prefix ++ (id ++ (to_le 8 first ++ log))
unfolding encode_header to_le
header_split id log first = ap (λ t. prefix ++ t) (append_assoc id (to_le 8 first) log)

pub length-encode_header :
    (id : List ℕ) (first : ℕ) → length id ≡ 16 → length (encode_header id first) ≡ header_len
unfolding encode_header
length-encode_header id first h = omega (
  arith,
  length-to_le 2 wal_version,
  length-to_le 8 first,
  length-append id (to_le 8 first),
  length-append (to_le 2 wal_version) ((0 ∷ 0 ∷ []) ++ (id ++ to_le 8 first)),
)

-- A header is not the run of zeros that an interrupted rotation leaves.
pub all_zero-encode_header :
    (id log : List ℕ) (first : ℕ) → all_zero (encode_header id first ++ log) ≡ false
all_zero-encode_header id log first = rw header_split

header_magic : (id log : List ℕ) (first : ℕ) → slice 0 4 (encode_header id first ++ log) ≡ wal_magic
header_magic id log first = rw header_split

header_version :
    (id log : List ℕ) (first : ℕ)
    → from_le (slice 4 6 (encode_header id first ++ log)) ≡ wal_version
unfolding from_le
header_version id log first = rw header_split

header_id :
    (id log : List ℕ) (first : ℕ) → length id ≡ 16 → slice 8 24 (encode_header id first ++ log) ≡ id
header_id id log first h =
    rw header_split (slice-append prefix id (to_le 8 first ++ log) 8 24 refl (omega arith))

header_number :
    (id log : List ℕ) (first : ℕ)
    → length id ≡ 16
    → first < 2 ^ 64
    → from_le (slice 24 32 (encode_header id first ++ log)) ≡ first
header_number id log first h lt =
    let number = to_le 8 first in
    rw header_split (
      rw
        (slice-append (prefix ++ id) number log 24 32 (omega arith)
          (omega (arith, length-to_le 8 first)))
        (from_le-to_le 8 first lt))

-- The reader takes the first sequence number back from the header, for the partition's own id.
pub decode-encode_header :
    (id log : List ℕ) (first : ℕ)
    → length id ≡ 16
    → first < 2 ^ 64
    → decode_header (encode_header id first ++ log) id ≡ ok first
unfolding decode_header
decode-encode_header id log first h lt =
    let size = length-append (encode_header id first) log in
    let own = length-encode_header id first h in
    rw (
      le→ltb (length (encode_header id first ++ log)) header_len (omega arith),
      header_magic id log first,
      header_version id log first,
      header_id id log first h,
      bytes_eq_refl id,
      header_number id log first h lt,
    )
