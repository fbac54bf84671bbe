-- ===== src/Wal/SegmentRead.antt =====
-- `read_segment` on a file that the writer produced, whole or cut short.
use distr_hnsw.Common.{
  ℕ, zero, suc, ◌+◌, ◌-◌, ◌%◌, ◌^◌, ◌≤◌, ◌<◌, ◌≡◌, ◌≢◌, refl, sym, ap, ap₂, ◌∙◌, String, Bool, true,
  false, ◌&&◌, ◌||◌, none, some, List, [], ◌∷◌, ◌++◌, append-nil, append_assoc, length, ltb, ◌==◌,
  ==_iff, ==_refl, le→ltb, if◌then◌else◌, Result, ok, err, ◌>>=◌, length-append, drop-append, arith,
}
use distr_hnsw.Wal.Entry.{
  WalError, in_a_sealed_segment, before_a_valid_entry, Entry, Checksum, encode,
}
use distr_hnsw.Wal.EntryCodec.{IsStorable}
use distr_hnsw.Wal.Frame.{unreadable, parse_entry, next_valid_frame}
use distr_hnsw.Wal.FrameWritten.{parse_entry-encode}
use distr_hnsw.Wal.FrameRead.{parse_entry_bounds}
use distr_hnsw.Wal.SegmentHeader.{
  length-encode_header, all_zero-encode_header, decode-encode_header,
}
use distr_hnsw.Wal.Segment.{
  header_len, next_u64, encode_header, SegmentRead, push_front, all_zero, unreadable_at,
  read_entries, read_segment,
}

-- `Log c n es bytes`: the bytes are the frames of the entries, whose numbers count from `n`.
pub data Log (c : Checksum) : ℕ → List Entry → List ℕ → Type 0 where
  nil : {n : ℕ} → Log c n [] []
  cons :
      {n : ℕ} {es : List Entry} {rest : List ℕ} (e : Entry) (frame : List ℕ)
      → IsStorable e
      → e.seq ≡ n
      → encode c e ≡ ok frame
      → Log c (n + 1) es rest
      → Log c n (e ∷ es) (frame ++ rest)

abbrev pub push_all : List Entry → SegmentRead → SegmentRead
push_all es r = record { entries = es ++ r.entries; torn_tail = r.torn_tail }

bind_push_nil : (m : Result WalError SegmentRead) → (m >>= λ r. ok (push_all [] r)) ≡ m
bind_push_nil (ok r) = refl
bind_push_nil (err e) = refl

bind_push_cons :
    (e : Entry) (es : List Entry) (m : Result WalError SegmentRead)
    → ((m >>= λ r. ok (push_all es r)) >>= λ r. ok (push_front e r))
      ≡ (m >>= λ r. ok (push_all (e ∷ es) r))
bind_push_cons e es (ok r) = refl
bind_push_cons e es (err x) = refl

module _ (c : Checksum) (active : Bool) (bytes : List ℕ) where
  pub read_entries_pass :
      (b : ℕ) (rest : List ℕ) (skip offset expected : ℕ)
      → read_entries c active bytes (suc skip) (b ∷ rest) offset expected
        ≡ read_entries c active bytes skip rest (offset + 1) expected
  unfolding read_entries
  read_entries_pass b rest skip offset expected = refl

  pub read_entries_skip :
      (xs rest : List ℕ) (skip offset expected : ℕ)
      → skip ≡ length xs
      → read_entries c active bytes skip (xs ++ rest) offset expected
        ≡ read_entries c active bytes zero rest (offset + length xs) expected
  read_entries_skip [] rest zero offset expected h =
      ap (λ t. read_entries c active bytes zero rest t expected) (omega arith)
  read_entries_skip [] rest (suc skip) offset expected h = absurd (omega arith)
  read_entries_skip (x ∷ xs) rest zero offset expected h = absurd (omega arith)
  read_entries_skip (x ∷ xs) rest (suc skip) offset expected h =
      read_entries_pass x (xs ++ rest) skip offset expected
      ∙ (read_entries_skip xs rest skip (offset + 1) expected (omega arith)
          ∙ ap (λ t. read_entries c active bytes zero rest t expected) (omega arith))

  -- The step at a readable entry, whose number must be the one that is due.
  pub read_entries_entry :
      (b : ℕ) (rest : List ℕ) (offset expected consumed : ℕ) (e : Entry)
      → parse_entry c (b ∷ rest) ≡ ok (e, consumed)
      → e.seq ≡ expected
      → read_entries c active bytes zero (b ∷ rest) offset expected ≡ (
          read_entries c active bytes (consumed - 1) rest (offset + 1) (next_u64 expected) >>= λ r.
          ok (push_front e r))
  unfolding read_entries
  read_entries_entry b rest offset expected consumed e h due =
      let test : (e.seq == expected) ≡ true = (==_iff e.seq expected).1 due in
      rw (h, read_entries, test)

  pub read_entries_unreadable :
      (rest : List ℕ) (offset expected : ℕ) (reason : String)
      → rest ≢ []
      → parse_entry c rest ≡ err (unreadable reason)
      → read_entries c active bytes zero rest offset expected
        ≡ unreadable_at c active bytes offset reason
  unfolding read_entries
  read_entries_unreadable [] offset expected reason h bad = absurd (h refl)
  read_entries_unreadable (b ∷ rest) offset expected reason h bad = rw (bad, read_entries)

  -- One readable frame with the number that is due.
  read_entries_frame :
      (e : Entry) (frame rest : List ℕ) (offset expected : ℕ)
      → parse_entry c (frame ++ rest) ≡ ok (e, length frame)
      → 36 ≤ length frame
      → e.seq ≡ expected
      → read_entries c active bytes zero (frame ++ rest) offset expected ≡ (
          read_entries c active bytes zero rest (offset + length frame) (next_u64 expected) >>= λ r.
          ok (push_front e r))
  read_entries_frame e [] rest offset expected h long due = absurd (omega arith)
  read_entries_frame e (x ∷ xs) rest offset expected h long due =
      read_entries_entry x (xs ++ rest) offset expected (length (x ∷ xs)) e h due
      ∙ ap (λ m. m >>= λ r. ok (push_front e r))
          (read_entries_skip xs rest (length (x ∷ xs) - 1) (offset + 1) (next_u64 expected)
              (omega arith)
            ∙ ap (λ t. read_entries c active bytes zero rest t (next_u64 expected)) (omega arith))

  -- The loop passes over a written log with its entries and goes on behind it.
  pub read_entries-Log :
      {n : ℕ} {es : List Entry} {log : List ℕ} (tail : List ℕ) (offset due : ℕ)
      → due ≡ n % 2 ^ 64
      → n ≤ 2 ^ 64
      → Log c n es log
      → read_entries c active bytes zero (log ++ tail) offset due ≡ (
          read_entries c active bytes zero tail (offset + length log) ((due + length es) % 2 ^ 64)
          >>= λ r. ok (push_all es r))
  read_entries-Log tail offset due same low nil =
      ap₂ (read_entries c active bytes zero tail) {x = offset} {y = offset + 0} {u = due}
        {v = (due + 0) % 2 ^ 64} (omega arith) (omega (arith, same))
      ∙ sym
          (bind_push_nil (read_entries c active bytes zero tail (offset + 0) ((due + 0) % 2 ^ 64)))
  read_entries-Log tail offset due same low (cons {n} {es} {rest} e frame s hseq h log) =
      let parsed = parse_entry-encode c e frame (rest ++ tail) s h in
      let (long, _) = parse_entry_bounds c (frame ++ (rest ++ tail)) e (length frame) parsed in
      let in_range : n < 2 ^ 64 = omega (arith, s.seq, hseq) in
      ap (λ t. read_entries c active bytes zero t offset due) (append_assoc frame rest tail)
      ∙ (read_entries_frame e frame (rest ++ tail) offset due parsed long
            (omega (arith, hseq, same, in_range))
          ∙ (ap (λ m. m >>= λ r. ok (push_front e r))
                (read_entries-Log tail (offset + length frame) (next_u64 due)
                  (omega (arith, same, in_range)) (omega (arith, in_range)) log)
              ∙ (bind_push_cons e es _
                  ∙ ap₂
                      (λ p q.
                        read_entries c active bytes zero tail p q >>= λ r. ok (push_all (e ∷ es) r))
                      {x = offset + length frame + length rest}
                      {y = offset + length (frame ++ rest)}
                      {u = (next_u64 due + length es) % 2 ^ 64}
                      {v = (due + length (e ∷ es)) % 2 ^ 64}
                      (omega (arith, length-append frame rest)) (omega arith))))

-- A segment file of the partition `id`: the header, then the bytes `log`.
abbrev pub segment_bytes : List ℕ → ℕ → List ℕ → List ℕ
segment_bytes id first log = encode_header id first ++ log

module _ (c : Checksum) (id : List ℕ) (first : ℕ) (id_len : length id ≡ 16)
    (in_range : first < 2 ^ 64) where
  -- Behind its checked header, a named segment is read by the loop.
  read_segment-body :
      (active : Bool) (log : List ℕ)
      → read_segment c (some first) id active (segment_bytes id first log)
        ≡ read_entries c active (segment_bytes id first log) zero log header_len first
  unfolding read_segment
  read_segment-body active log =
      let size = length-append (encode_header id first) log in
      let own = length-encode_header id first id_len in
      let test : (active
            && (ltb (length (segment_bytes id first log)) header_len
                || all_zero (segment_bytes id first log)))
          ≡ false =
        rw
          (
            le→ltb (length (segment_bytes id first log)) header_len (omega arith),
            all_zero-encode_header id log first,
          )
          (ground arith) in
      rw (
        test,
        decode-encode_header id log first id_len in_range,
        ==_refl first,
        drop-append (encode_header id first) log header_len (sym own),
      )

  -- A segment that the writer completed reads as the entries it holds, with no torn tail.
  pub read_segment-Log :
      (active : Bool) {es : List Entry} {log : List ℕ}
      → Log c first es log
      → read_segment c (some first) id active (segment_bytes id first log)
        ≡ ok (record { entries = es; torn_tail = none })
  read_segment-Log active {es} {log} h =
      let bytes = segment_bytes id first log in
      read_segment-body active log
      ∙ (ap (λ t. read_entries c active bytes zero t header_len first) (sym (append-nil log))
          ∙ (read_entries-Log c active bytes [] header_len first (omega (arith, in_range))
                (omega (arith, in_range)) h
              ∙ nothing_left active bytes log es))
    where
      nothing_left :
          (active : Bool) (bytes log : List ℕ) (es : List Entry)
          → (read_entries c active bytes zero []
                (header_len + length log)
                ((first + length es) % 2 ^ 64)
              >>= λ r. ok (push_all es r))
            ≡ ok (record { entries = es; torn_tail = none })
      nothing_left active bytes log es =
          unfold read_entries in
          ap (λ t. ok (record { entries = t; torn_tail = none })) (append-nil es)

  -- What a file is read as, that ends in bytes from which no frame can be read.
  abbrev pub torn_result :
      Bool → List Entry → List ℕ → List ℕ → String → Result WalError SegmentRead
  torn_result active es log tail reason =
      let bytes = segment_bytes id first (log ++ tail) in
      let at = header_len + length log in
      if active
      then elim (next_valid_frame c bytes (at + 1)) [
        | none ↦ ok (record { entries = es; torn_tail = some (at, length tail) })
        | some found ↦ err (WalError.corrupt at (before_a_valid_entry reason found))
      ]
      else err (WalError.corrupt at (in_a_sealed_segment reason))

  unreadable_result :
      (active : Bool) (es : List Entry) (log tail : List ℕ) (reason : String)
      → (unreadable_at c active
            (segment_bytes id first (log ++ tail))
            (header_len + length log)
            reason
          >>= λ r. ok (push_all es r))
        ≡ torn_result active es log tail reason
  unfolding unreadable_at
  unreadable_result active es log tail reason = ground (
    arith,
    append-nil es,
    length-append log tail,
    length-append (encode_header id first) (log ++ tail),
    length-encode_header id first id_len,
  )

  -- What stands behind a written log and cannot be read is a torn tail in the newest segment, if no
  -- frame follows it, and corruption in every other case.
  pub read_segment_torn :
      (active : Bool) {es : List Entry} {log : List ℕ} (tail : List ℕ) (reason : String)
      → Log c first es log
      → tail ≢ []
      → parse_entry c tail ≡ err (unreadable reason)
      → read_segment c (some first) id active (segment_bytes id first (log ++ tail))
        ≡ torn_result active es log tail reason
  read_segment_torn active {es} {log} tail reason h some_left bad =
      let bytes = segment_bytes id first (log ++ tail) in
      read_segment-body active (log ++ tail)
      ∙ (read_entries-Log c active bytes tail header_len first (omega (arith, in_range))
            (omega (arith, in_range)) h
          ∙ (ap (λ m. m >>= λ r. ok (push_all es r))
                (read_entries_unreadable c active bytes tail (header_len + length log)
                  ((first + length es) % 2 ^ 64) reason some_left bad)
              ∙ unreadable_result active es log tail reason))
