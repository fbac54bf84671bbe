-- ===== src/Wal/Recovery.antt =====
-- Crash and repair of the newest segment, for any file and for the files that the writer leaves.
use distr_hnsw.Common.{
  ok_injective, ℕ, ◌+◌, ◌-◌, ◌^◌, ◌<◌, ◌≤◌, ◌≡◌, ◌≢◌, ◌⊎◌, refl, subst, ap, ◌∙◌, Bool, true, false,
  ◌&&◌, ◌||◌, Option, none, some, List, [], ◌∷◌, ◌++◌, length, take, drop, slice, ltb, bytes_eq,
  append_assoc, take-append, length-append, take-take, drop-take, length-take, le→ltb, ok, inl, inr,
  Bool-cases, arith, refuse, >>=-eq-ok,
}
use distr_hnsw.Wal.Entry.{Entry, Checksum, WalError, bad_header, encode}
use distr_hnsw.Wal.Frame.{has_frame, next_valid_frame}
use distr_hnsw.Wal.FrameRead.{next_valid_frame-none, parse_entry_cut}
use distr_hnsw.Wal.Segment.{
  wal_magic, header_len, SegmentRead, encode_header, decode_header, all_zero, name_disagrees,
  read_entries, read_segment, truncate_torn_tail,
}
use distr_hnsw.Wal.SegmentHeader.{length-encode_header}
use distr_hnsw.Wal.SegmentRead.{Log, segment_bytes, read_segment-Log, read_segment_torn}
use distr_hnsw.Wal.SegmentSound.{Consecutive, TornSound, read_entries_faithful}
use distr_hnsw.Wal.SegmentRepair.{read_entries_repair}

header_ok :
    (bytes id : List ℕ) (first : ℕ)
    → decode_header bytes id ≡ ok first
    → (header_len ≤ length bytes) × (bytes_eq (slice 0 4 bytes) wal_magic ≡ true)
unfolding decode_header
header_ok bytes id first h = ground arith

magic_not_zero :
    (bytes : List ℕ) → bytes_eq (slice 0 4 bytes) wal_magic ≡ true → all_zero bytes ≡ false
magic_not_zero [] h = cc
magic_not_zero (b ∷ bs) h = ground arith

-- The header lies in the first 32 bytes.
decode_header-take :
    (bytes id : List ℕ) (at : ℕ)
    → header_len ≤ at
    → header_len ≤ length bytes
    → decode_header (take at bytes) id ≡ decode_header bytes id
unfolding decode_header
decode_header-take bytes id at h long = rw (
  take-take 4 at bytes (omega arith),
  take-take 6 at bytes (omega arith),
  take-take 24 at bytes (omega arith),
  take-take 32 at bytes h,
  le→ltb (length (take at bytes)) header_len (omega (arith, length-take at bytes)),
  le→ltb (length bytes) header_len long,
)

abbrev disagreement : WalError
disagreement = bad_header "first sequence disagrees with the segment name"

refuse_ok : (b : Bool) (e : WalError) {u : Unit {0}} → refuse b e ≡ ok u → b ≡ false
refuse_ok true e h = cc
refuse_ok false e h = refl

module _ (c : Checksum) (named : Option ℕ) (id : List ℕ) where
  -- A segment is read as an interrupted rotation, with no entries, or behind its checked header.
  read_segment_cases :
      (active : Bool) (bytes : List ℕ) (r : SegmentRead)
      → read_segment c named id active bytes ≡ ok r
      → (record { entries = []; torn_tail = some (0, length bytes) } ≡ r)
        ⊎ ((first : ℕ) × (decode_header bytes id ≡ ok first)
            × (name_disagrees named first ≡ false)
            × (read_entries c active bytes 0 (drop header_len bytes) header_len first ≡ ok r))
  unfolding read_segment
  read_segment_cases active bytes r h =
      elim (Bool-cases (active && (ltb (length bytes) header_len || all_zero bytes))) [
        | inl short ↦ inl (ok_injective (rw short at h))
        | inr long ↦
            let (first, head, h') = >>=-eq-ok (decode_header bytes id) _ (rw long at h) in
            let (u, agrees, h'') =
              >>=-eq-ok (refuse (name_disagrees named first) disagreement) _ h' in
            inr (first, head, refuse_ok _ _ agrees, h'')
      ]

  read_segment_parts :
      (active : Bool) (bytes : List ℕ) (at after : ℕ) (r : SegmentRead)
      → read_segment c named id active bytes ≡ ok r
      → r.torn_tail ≡ some (at, after)
      → 0 < at
      → (first : ℕ) × (decode_header bytes id ≡ ok first)
        × (name_disagrees named first ≡ false)
        × (read_entries c active bytes 0 (drop header_len bytes) header_len first ≡ ok r)
  read_segment_parts active bytes at after r h torn pos =
      elim (read_segment_cases active bytes r h) [
        | inl short ↦
            let start = ap (λ (x : SegmentRead). x.torn_tail) short in
            absurd (ground (arith, start, torn))
        | inr parts ↦ parts
      ]

  read_segment_from_parts :
      (active : Bool) (bytes : List ℕ) (first : ℕ)
      → decode_header bytes id ≡ ok first
      → name_disagrees named first ≡ false
      → read_segment c named id active bytes
        ≡ read_entries c active bytes 0 (drop header_len bytes) header_len first
  unfolding read_segment
  read_segment_from_parts active bytes first h agrees =
      let (long, magic) = header_ok bytes id first h in
      let zeros = magic_not_zero bytes magic in ground (arith, zeros, h, agrees, long)

  -- A tear past the start of the file is reported only in the newest segment and only where no intact frame starts behind it;
  -- it takes in all the bytes from there on, and the file cut there reads, as the newest or as a
  -- sealed segment, as the same entries with nothing torn.
  pub torn_tail_sound :
      (active sealed : Bool) (bytes : List ℕ) (at after : ℕ) (r : SegmentRead)
      → read_segment c named id active bytes ≡ ok r
      → r.torn_tail ≡ some (at, after)
      → 0 < at
      → (active ≡ true)
        × ((p : ℕ) → at < p → has_frame c (drop p bytes) ≡ false)
        × (after ≡ length bytes - at)
        × (truncate_torn_tail bytes at ≡ some (take at bytes))
        × (read_segment c named id sealed (take at bytes)
            ≡ ok (record { entries = r.entries; torn_tail = none }))
  unfolding truncate_torn_tail
  torn_tail_sound active sealed bytes at after r h torn pos =
      let (first, head, agrees, loop) = read_segment_parts active bytes at after r h torn pos in
      let sound =
        read_entries_faithful c active bytes (drop header_len bytes) 0 header_len first r loop in
      let (on, alone, rest, low) = subst (TornSound c active bytes (header_len + 0)) torn sound.1 in
      let (long, _) = header_ok bytes id first head in
      let repaired =
        read_entries_repair c active sealed bytes (take at bytes) (drop header_len bytes) 0
          header_len first at after r loop torn in
      (
        on,
        (λ p later. next_valid_frame-none c bytes (at + 1) p alone (omega arith)),
        rest,
        rw (le→ltb at header_len (omega arith)),
        read_segment_from_parts sealed (take at bytes) first
              (decode_header-take bytes id at (omega arith) long ∙ head) agrees
            ∙ (rw drop-take repaired),
      )

-- The entries of a segment named `first` carry the sequence numbers from `first` on, without a gap,
-- counted modulo 2 ^ 64.
pub read_segment-Consecutive :
    (c : Checksum) (id : List ℕ) (first : ℕ) (active : Bool) (bytes : List ℕ) (r : SegmentRead)
    → read_segment c (some first) id active bytes ≡ ok r
    → Consecutive first r.entries
read_segment-Consecutive c id first active bytes r h =
    elim (read_segment_cases c (some first) id active bytes r h) [
      | inl short ↦ subst (Consecutive first) (ap (λ (x : SegmentRead). x.entries) short) tt
      | inr (found, head, agrees, loop) ↦
          let same : found ≡ first = ground arith in
          subst (λ n. Consecutive n r.entries) same
            (read_entries_faithful c active bytes (drop header_len bytes) 0 header_len found r
              loop).0
    ]

module _ (c : Checksum) (id : List ℕ) (first : ℕ) (id_len : length id ≡ 16)
    (in_range : first < 2 ^ 64) where
  -- A crash that leaves a part of the last frame, where no frame starts inside that part, loses
  -- that entry alone: the newest segment reads as the entries before it with the part as its torn
  -- tail, and truncation at the reported offset leaves a segment that reads as those entries with
  -- nothing torn.
  pub crash_recovery :
      {es : List Entry} {log : List ℕ} (e : Entry) (front back : List ℕ)
      → Log c first es log
      → length e.op_id ≡ 16
      → encode c e ≡ ok (front ++ back)
      → front ≢ []
      → back ≢ []
      → next_valid_frame c (segment_bytes id first (log ++ front)) (header_len + length log + 1)
        ≡ none
      → (read_segment c (some first) id true (segment_bytes id first (log ++ front))
          ≡ ok (record { entries = es; torn_tail = some (header_len + length log, length front) }))
        × (truncate_torn_tail (segment_bytes id first (log ++ front)) (header_len + length log)
            ≡ some (segment_bytes id first log))
        × (read_segment c (some first) id true (segment_bytes id first log)
            ≡ ok (record { entries = es; torn_tail = none }))
  unfolding truncate_torn_tail
  crash_recovery {es} {log} e front back h hid enc begun cut alone =
      let (reason, bad) = parse_entry_cut c e front back hid enc cut in
      let head = length-encode_header id first id_len in
      (
        read_segment_torn c id first id_len in_range true front reason h begun bad ∙ rw alone,
        rw (
          le→ltb (header_len + length log) header_len (omega arith),
          ← append_assoc,
          take-append (encode_header id first ++ log) front (header_len + length log)
              (omega (arith, length-append (encode_header id first) log)),
        ),
        read_segment-Log c id first id_len in_range true h,
      )
