-- ===== src/Wal/Open.antt =====
-- wal.rs: `WalWriter::open`, whose sums on `u64` wrap as a release build has them. The directory is given as its segments, the newest apart, as
-- `list_segments` sorts them; of the creation of a segment only the success is kept.
use distr_hnsw.Common.{
  ℕ, ◌+◌, ◌-◌, ◌%◌, ◌^◌, ◌<◌, ◌≡◌, refl, sym, subst, ap, ◌∙◌, Bool, true, false, not, ◌&&◌, Option,
  none, some, List, [], ◌∷◌, ◌++◌, append-nil, length, length-append, ltb, leb, ◌==◌, ==_iff,
  if◌then◌else◌, Result, ok, err, ◌>>=◌, arith,
}
use distr_hnsw.Wal.Entry.{WalError, plain, sequence_gap, io, Entry, Checksum}
use distr_hnsw.Wal.Segment.{
  header_len, next_u64, encode_header, SegmentRead, last_entry_seq, last_seq, read_segment,
}
use distr_hnsw.Wal.SegmentHeader.{length-encode_header}
use distr_hnsw.Wal.SegmentRead.{Log, segment_bytes, read_segment-Log}
use distr_hnsw.Wal.Writer.{segment_rotate_bytes, SegmentFile, WalWriter}
use distr_hnsw.Wal.WriterLaws.{Stored, snoc, IsOpen}

abbrev pub end_of : Option ℕ → ℕ → ℕ
end_of none first = (first + (2 ^ 64 - 1)) % 2 ^ 64
end_of (some seq) first = seq

abbrev pub files_of : Option SegmentFile → List SegmentFile
files_of none = []
files_of (some f) = f ∷ []

abbrev pub is_ready : Bool → Option SegmentFile → Bool
is_ready creates none = creates
is_ready creates (some f) = true

module _ (c : Checksum) where
  -- What the newest segment allows, once it is read: to go on in it, or to start a new one.
  abbrev pub extend_read : ℕ → ℕ → List ℕ → SegmentRead → Result WalError (Option SegmentFile)
  extend_read last first bytes r = elim r.torn_tail [
    | some (at, after) ↦ err (WalError.corrupt at (plain "torn tail not yet repaired by recovery"))
    | none ↦
        let end = end_of (last_seq r) first in
        if not (end == last)
        then err (sequence_gap (next_u64 last) (next_u64 end))
        else ok (if ltb (length bytes) segment_rotate_bytes then some (first, bytes) else none)
  ]

  unfoldable pub extend : List ℕ → ℕ → Option SegmentFile → Result WalError (Option SegmentFile)
  extend partition_id last none = ok none
  extend partition_id last (some (first, bytes)) =
      if leb first (next_u64 last)
      then read_segment c (some first) partition_id true bytes >>= extend_read last first bytes
      else err (sequence_gap (next_u64 last) first)

  -- The writer that goes on in a segment, or starts a new one behind all of them.
  abbrev pub opened :
      List ℕ → ℕ → List SegmentFile → Option SegmentFile → Option SegmentFile → WalWriter
  opened partition_id last older newest none = record {
    partition_id = partition_id;
    older = older ++ files_of newest;
    path = next_u64 last;
    file = encode_header partition_id (next_u64 last);
    leftover = [];
    bytes = header_len;
    next_seq = next_u64 last;
    is_poisoned = false;
  }
  opened partition_id last older newest (some (first, bytes)) = record {
    partition_id = partition_id;
    older = older;
    path = first;
    file = bytes;
    leftover = [];
    bytes = length bytes;
    next_seq = next_u64 last;
    is_poisoned = false;
  }

  -- `creates` and `reopens` say whether the file system creates a segment and opens one.
  unfoldable pub open_writer :
      Bool → Bool → List ℕ → ℕ → List SegmentFile → Option SegmentFile → Result WalError WalWriter
  open_writer creates reopens partition_id last older newest =
      extend partition_id last newest >>= λ place.
      if is_ready creates place && reopens
      then ok (opened partition_id last older newest place)
      else err io

  end_of-Log :
      {n : ℕ} {es : List Entry} {log : List ℕ} (last : ℕ) (seen : Option ℕ) (first : ℕ)
      → Log c n es log
      → (0 < n → end_of seen first ≡ n - 1)
      → last + 1 ≡ n + length es
      → end_of (last_entry_seq seen es) first ≡ last
  end_of-Log last seen first Log.nil h size = h (omega (arith, size)) ∙ omega (arith, size)
  end_of-Log last seen first (Log.cons e frame s due he more) h size =
      end_of-Log last (some e.seq) first more (λ pos. omega (arith, due)) (omega (arith, size))

  module _ (id : List ℕ) (start first last : ℕ) (sealed current : List Entry) (log : List ℕ)
      (older : List SegmentFile) (id_len : length id ≡ 16) (in_range : first < 2 ^ 64)
      (stored : Stored c id start sealed older first) (is_log : Log c first current log)
      (size : last + 1 ≡ first + length current) (total : first ≡ start + length sealed)
      (room : last + 1 < 2 ^ 64) where
    extend-Log :
        extend id last (some (first, segment_bytes id first log))
        ≡ ok (
            if ltb (length (segment_bytes id first log)) segment_rotate_bytes
            then some (first, segment_bytes id first log)
            else none)
    unfolding extend last_seq
    extend-Log =
        let end : end_of (last_entry_seq none current) first ≡ last =
          end_of-Log last none first is_log (λ pos. omega (arith, pos, in_range)) size in
        let same : (end_of (last_entry_seq none current) first == last) ≡ true =
          (==_iff _ last).1 end in
        let low : leb first (next_u64 last) ≡ true = ground (arith, size, room) in
        rw (low, read_segment-Log c id first id_len in_range true is_log, same) refl

    -- Where the file system creates and opens what it is asked to, a writer that is opened behind a
    -- complete log goes on where the log ends: it is open, its files hold the log's entries, and its
    -- next entry gets the next number; the number after the last entry is below 2 ^ 64.
    pub open_writer-IsOpen :
        (w : WalWriter) × (open_writer true true id last older
            (some (first, segment_bytes id first log))
          ≡ ok w)
        × IsOpen c start (sealed ++ current) w
    unfolding open_writer
    open_writer-IsOpen =
        let kept : next_u64 last ≡ last + 1 = omega (arith, room) in
        by_size kept (ltb (length (segment_bytes id first log)) segment_rotate_bytes) refl
      where
        by_size :
            next_u64 last ≡ last + 1
            → (small : Bool)
            → ltb (length (segment_bytes id first log)) segment_rotate_bytes ≡ small
            → (w : WalWriter) × (open_writer true true id last older
                  (some (first, segment_bytes id first log))
                ≡ ok w)
              × IsOpen c start (sealed ++ current) w
        by_size kept true small = (
          opened id last older (some (first, segment_bytes id first log))
              (some (first, segment_bytes id first log)),
          rw (extend-Log, small) refl,
          record {
            holds = record {
              sealed = sealed;
              current = current;
              log = log;
              split = refl;
              stored = stored;
              is_log = is_log;
              content = ap (segment_bytes id first) (sym (append-nil log));
            };
            healthy = refl;
            no_leftover = refl;
            counted = refl;
            next = omega (arith, kept, size, total, length-append sealed current);
          },
        )
        by_size kept false large = (
          opened id last older (some (first, segment_bytes id first log)) none,
          rw (extend-Log, large) refl,
          record {
            holds = record {
              sealed = sealed ++ current;
              current = [];
              log = [];
              split = sym (append-nil (sealed ++ current));
              stored =
                  subst
                    (Stored c id start (sealed ++ current)
                      (older ++ ((first, segment_bytes id first log) ∷ [])))
                    (sym (kept ∙ size)) (snoc stored is_log);
              is_log = Log.nil;
              content = sym (append-nil (encode_header id (next_u64 last)));
            };
            healthy = refl;
            no_leftover = refl;
            counted = sym (length-encode_header id (next_u64 last) id_len);
            next = omega (arith, kept, size, total, length-append sealed current);
          },
        )
