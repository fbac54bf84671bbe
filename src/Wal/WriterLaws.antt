-- ===== src/Wal/WriterLaws.antt =====
-- What the writer's files hold, whatever the file system does.
use distr_hnsw.Common.{
  ℕ, ◌+◌, ◌≡◌, refl, sym, subst, ap, ◌∙◌, inl, inr, true, false, List, [], ◌∷◌, ◌++◌, append-nil,
  append_assoc, length, length-append, take, ok, err, Bool-cases, arith,
}
use distr_hnsw.Wal.Entry.{io, Entry, Checksum, encode}
use distr_hnsw.Wal.EntryCodec.{IsStorable}
use distr_hnsw.Wal.Segment.{header_len, encode_header}
use distr_hnsw.Wal.SegmentRead.{Log, segment_bytes}
use distr_hnsw.Wal.SegmentHeader.{length-encode_header}
use distr_hnsw.Wal.Writer.{
  SegmentFile, complete, fails_after, Outcome, WalWriter, poison, create_segment, rotate,
  write_frame,
}

-- The writer after a rotation that succeeds.
abbrev rotated : WalWriter → WalWriter
rotated w = record w {
  older = w.older ++ ((w.path, w.file) ∷ []);
  path = w.next_seq;
  file = encode_header w.partition_id w.next_seq;
  bytes = header_len;
}

rotate-true : (o : Outcome) (w : WalWriter) → (rotate o w).1 ≡ true → (rotate o w).0 ≡ rotated w
unfolding rotate
rotate-true o w h = ground arith

rotate-false :
    (o : Outcome) (w : WalWriter)
    → w.leftover ≡ []
    → (rotate o w).1 ≡ false
    → (files : List SegmentFile) × ((rotate o w).0 ≡ record w { leftover = files })
unfolding rotate
rotate-false o w clean h = elim (Bool-cases o.seals) [
  | inl seals ↦ ((create_segment o w).0, ground arith)
  | inr stays ↦ ([], ground arith)
]

module _ (c : Checksum) where
  pub Log-snoc :
      {n : ℕ} {es : List Entry} {log : List ℕ} (e : Entry) (frame : List ℕ)
      → Log c n es log
      → IsStorable e
      → e.seq ≡ n + length es
      → encode c e ≡ ok frame
      → Log c n (es ++ (e ∷ [])) (log ++ frame)
  Log-snoc {n} e frame Log.nil s due h =
      subst (Log c n (e ∷ [])) (append-nil frame) (Log.cons e frame s (omega arith) h Log.nil)
  Log-snoc {n} e frame (Log.cons {es = es} {rest} d front t hd hf more) s due h =
      subst (Log c n (d ∷ (es ++ (e ∷ [])))) (sym (append_assoc front rest frame))
        (Log.cons d front t hd hf (Log-snoc e frame more s (omega arith) h))

  -- `Stored id start es files next`: complete segments that hold the entries from `start` up to
  -- `next`, each named by its first number.
  pub data Stored (id : List ℕ) (start : ℕ) : List Entry → List SegmentFile → ℕ → Type 0 where
    empty : Stored id start [] [] start
    snoc :
        {es fs : List Entry} {files : List SegmentFile} {n : ℕ} {log : List ℕ}
        → Stored id start es files n
        → Log c n fs log
        → Stored id start (es ++ fs) (files ++ ((n, segment_bytes id n log) ∷ [])) (n + length fs)

  -- The files of the writer hold the entries `es`, numbered from `start`, and nothing else but
  -- `tail` behind the last of them.
  pub record Holds (start : ℕ) (es : List Entry) (tail : List ℕ) (w : WalWriter) : Type 0 where
    pub sealed : List Entry
    pub current : List Entry
    pub log : List ℕ
    pub split : es ≡ sealed ++ current
    pub stored : Stored w.partition_id start sealed w.older w.path
    pub is_log : Log c w.path current log
    pub content : w.file ≡ segment_bytes w.partition_id w.path (log ++ tail)

  -- A writer that may append: its counters agree with its files.
  pub record IsOpen (start : ℕ) (es : List Entry) (w : WalWriter) : Type 0 where
    pub holds : Holds start es [] w
    pub healthy : w.is_poisoned ≡ false
    pub no_leftover : w.leftover ≡ []
    pub counted : w.bytes ≡ length w.file
    pub next : w.next_seq ≡ start + length es

  pub Stored-next :
      {id : List ℕ} {start n : ℕ} {es : List Entry} {files : List SegmentFile}
      → Stored id start es files n
      → n ≡ start + length es
  Stored-next empty = omega arith
  Stored-next (snoc {es = es} {fs} st l) = omega (arith, Stored-next st, length-append es fs)

  -- The file system writes the whole frame, or a part of it.
  pub write_frame_complete :
      (o : Outcome) (w : WalWriter) (start : ℕ) (es : List Entry) (e : Entry) (frame : List ℕ)
      → IsOpen start es w
      → IsStorable e
      → e.seq ≡ w.next_seq
      → encode c e ≡ ok frame
      → o.frame ≡ complete
      → ((write_frame o w frame).1 ≡ ok w.next_seq)
        × IsOpen start (es ++ (e ∷ [])) (write_frame o w frame).0
  unfolding write_frame
  write_frame_complete o w start es e frame op s due h done =
      let hs = op.holds in
      let from = Stored-next hs.stored in
      let parts = length-append hs.sealed hs.current in
      let total = ap length hs.split in
      rw done (
        refl,
        record {
          holds = record {
            sealed = hs.sealed;
            current = hs.current ++ (e ∷ []);
            log = hs.log ++ frame;
            split = rw hs.split (append_assoc hs.sealed hs.current (e ∷ []));
            stored = hs.stored;
            is_log = Log-snoc e frame hs.is_log s (omega (arith, op.next)) h;
            content = ap (λ t. t ++ frame) hs.content ∙ simp (append-nil, append_assoc);
          };
          healthy = op.healthy;
          no_leftover = op.no_leftover;
          counted = omega (arith, op.counted, length-append w.file frame);
          next = omega (arith, op.next, length-append es (e ∷ []));
        },
      )

  pub write_frame_cut :
      (o : Outcome) (w : WalWriter) (start n : ℕ) (es : List Entry) (frame : List ℕ)
      → IsOpen start es w
      → o.frame ≡ fails_after n
      → ((write_frame o w frame).1 ≡ err io)
        × ((write_frame o w frame).0.is_poisoned ≡ true)
        × Holds start es (take n frame) (write_frame o w frame).0
  unfolding write_frame poison
  write_frame_cut o w start n es frame op cut =
      let hs = op.holds in
      rw cut (
        refl,
        refl,
        record {
          sealed = hs.sealed;
          current = hs.current;
          log = hs.log;
          split = hs.split;
          stored = hs.stored;
          is_log = hs.is_log;
          content = ap (λ t. t ++ take n frame) hs.content ∙ simp (append-nil, append_assoc);
        },
      )

  -- A rotation that succeeds starts an empty segment under the next number.
  pub rotate_done :
      (o : Outcome) (w : WalWriter) (start : ℕ) (es : List Entry)
      → length w.partition_id ≡ 16
      → IsOpen start es w
      → (rotate o w).1 ≡ true
      → IsOpen start es (rotate o w).0
        × ((rotate o w).0.next_seq ≡ w.next_seq)
        × ((rotate o w).0.partition_id ≡ w.partition_id)
  rotate_done o w start es hid op done =
      let hs = op.holds in
      let same = rotate-true o w done in
      let at : w.path + length hs.current ≡ w.next_seq = omega (
        arith,
        op.next,
        Stored-next hs.stored,
        ap length hs.split,
        length-append hs.sealed hs.current,
      ) in
      let fresh : IsOpen start es (rotated w) = record {
        holds = record {
          sealed = hs.sealed ++ hs.current;
          current = [];
          log = [];
          split = hs.split ∙ sym (append-nil (hs.sealed ++ hs.current));
          stored =
              subst (Stored w.partition_id start (hs.sealed ++ hs.current) (rotated w).older) at
                (rw hs.content (rw append-nil (snoc hs.stored hs.is_log)));
          is_log = Log.nil;
          content = sym (append-nil (encode_header w.partition_id w.next_seq));
        };
        healthy = op.healthy;
        no_leftover = op.no_leftover;
        counted = sym (length-encode_header w.partition_id w.next_seq hid);
        next = op.next;
      } in
      (
        subst (IsOpen start es) (sym same) fresh,
        ap (λ (x : WalWriter). x.next_seq) same,
        ap (λ (x : WalWriter). x.partition_id) same,
      )

  -- One that fails touches no segment that holds entries.
  pub rotate_failed :
      (o : Outcome) (w : WalWriter) (start : ℕ) (es : List Entry)
      → IsOpen start es w
      → (rotate o w).1 ≡ false
      → Holds start es [] (rotate o w).0
  rotate_failed o w start es op done =
      let (files, same) = rotate-false o w op.no_leftover done in
      let hs = op.holds in
      subst (Holds start es []) (sym same) (record {
        sealed = hs.sealed;
        current = hs.current;
        log = hs.log;
        split = hs.split;
        stored = hs.stored;
        is_log = hs.is_log;
        content = hs.content;
      })
