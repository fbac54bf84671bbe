-- ===== src/Wal/Segment.antt =====
-- wal.rs: the header of a segment, `SegmentRead`, `read_segment`, `truncate_torn_tail`.
-- A file is its bytes; its name enters as the sequence number that `name_first_seq` reads from it.
use distr_hnsw.Common.{
  ℕ, zero, suc, ◌+◌, ◌-◌, ◌%◌, ◌^◌, String, Bool, true, false, not, ◌&&◌, ◌||◌, Option, none, some,
  List, [], ◌∷◌, ◌++◌, length, take, drop, slice, ltb, ◌==◌, bytes_eq, if◌then◌else◌, Result, ok,
  err, ◌>>=◌, ◌>>◌, refuse,
}
use distr_hnsw.Common.Bytes.{to_le, from_le}
use distr_hnsw.Wal.Entry.{
  WalError, plain, in_a_sealed_segment, before_a_valid_entry, bad_header, unsupported_version,
  wrong_partition, sequence_gap, Entry, Checksum,
}
use distr_hnsw.Wal.Frame.{FrameError, unreadable, parse_entry, next_valid_frame}

-- b"DHWL"
abbrev pub wal_magic : List ℕ
wal_magic = 68 ∷ 72 ∷ 87 ∷ 76 ∷ []

abbrev pub wal_version : ℕ
wal_version = 1

abbrev pub header_len : ℕ
header_len = 32

-- The header array starts as zeros, and bytes 6 and 7 stay so.
unfoldable pub encode_header : List ℕ → ℕ → List ℕ
encode_header partition_id first_seq =
    wal_magic ++ (to_le 2 wal_version ++ ((0 ∷ 0 ∷ []) ++ (partition_id ++ to_le 8 first_seq)))

unfoldable pub decode_header : List ℕ → List ℕ → Result WalError ℕ
decode_header bytes expected = do
  refuse (ltb (length bytes) header_len) (bad_header "short header")
  refuse (not (bytes_eq (slice 0 4 bytes) wal_magic)) (bad_header "magic")
  let version = from_le (slice 4 6 bytes)
  refuse (not (version == wal_version)) (unsupported_version version)
  let id = slice 8 24 bytes
  refuse (not (bytes_eq id expected)) (wrong_partition id expected)
  ok (from_le (slice 24 32 bytes))

-- A `u64` is counted up by one: it wraps at its end, as a release build has it.
abbrev pub next_u64 : ℕ → ℕ
next_u64 n = (n + 1) % 2 ^ 64

-- `torn_tail` is the offset of the tear and the number of bytes after it.
pub record SegmentRead : Type 0 where
  pub entries : List Entry
  pub torn_tail : Option (ℕ × ℕ)

abbrev pub last_entry_seq : Option ℕ → List Entry → Option ℕ
last_entry_seq seen [] = seen
last_entry_seq seen (e ∷ es) = last_entry_seq (some e.seq) es

unfoldable pub last_seq : SegmentRead → Option ℕ
last_seq r = last_entry_seq none r.entries

abbrev pub push_front : Entry → SegmentRead → SegmentRead
push_front e r = record { entries = e ∷ r.entries; torn_tail = r.torn_tail }

abbrev pub all_zero : List ℕ → Bool
all_zero [] = true
all_zero (b ∷ bs) = (b == 0) && all_zero bs

-- `name_first_seq(path).is_some_and(|named| named != first_seq)`
abbrev pub name_disagrees : Option ℕ → ℕ → Bool
name_disagrees none first_seq = false
name_disagrees (some named) first_seq = not (named == first_seq)

-- `active` marks the newest segment, and `bytes` is the whole file.
module _ (c : Checksum) (active : Bool) (bytes : List ℕ) where
  -- The loop's branch for a frame that cannot be read at `offset`.
  unfoldable pub unreadable_at : ℕ → String → Result WalError SegmentRead
  unreadable_at offset reason =
      if active
      then elim (next_valid_frame c bytes (offset + 1)) [
        | some at ↦ err (WalError.corrupt offset (before_a_valid_entry reason at))
        | none ↦ ok (record { entries = []; torn_tail = some (offset, length bytes - offset) })
      ]
      else err (WalError.corrupt offset (in_a_sealed_segment reason))

  -- The loop of `read_segment`, one byte a step: `rest` is what stands at `offset`, and the first
  -- argument counts the bytes of the last frame that are still to be passed over.
  unfoldable pub read_entries : ℕ → List ℕ → ℕ → ℕ → Result WalError SegmentRead
  read_entries skip [] offset expected = ok (record { entries = []; torn_tail = none })
  read_entries (suc skip) (b ∷ rest) offset expected = read_entries skip rest (offset + 1) expected
  read_entries zero (b ∷ rest) offset expected = elim (parse_entry c (b ∷ rest)) [
    | ok (entry, consumed) ↦
        (let more = read_entries (consumed - 1) rest (offset + 1) (next_u64 expected) in
          if entry.seq == expected
          then (more >>= λ r. ok (push_front entry r))
          else err (sequence_gap expected entry.seq))
    | err (unreadable reason) ↦ unreadable_at offset reason
    | err (FrameError.corrupt reason) ↦ err (WalError.corrupt offset (plain reason))
  ]

module _ (c : Checksum) where
  unfoldable pub read_segment : Option ℕ → List ℕ → Bool → List ℕ → Result WalError SegmentRead
  read_segment named partition_id active bytes =
      if active && (ltb (length bytes) header_len || all_zero bytes)
      then ok (record { entries = []; torn_tail = some (0, length bytes) })
      else do
        first_seq ← decode_header bytes partition_id
        refuse (name_disagrees named first_seq)
            (bad_header "first sequence disagrees with the segment name")
        read_entries c active bytes 0 (drop header_len bytes) header_len first_seq

-- What the repair leaves of the file: nothing (it is removed), or its first `offset` bytes.
unfoldable pub truncate_torn_tail : List ℕ → ℕ → Option (List ℕ)
truncate_torn_tail bytes offset = if ltb offset header_len then none else some (take offset bytes)
