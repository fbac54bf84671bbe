-- ===== src/Wal/WriterRuns.antt =====
-- Appends, one and many, against a file system that may fail at every call.
use distr_hnsw.Common.{
  ℕ, ◌≡◌, refl, sym, subst, ap, ◌∙◌, inl, inr, Bool, true, false, List, [], ◌∷◌, ◌++◌, length, take,
  drop, take-append-drop, leb, Result, ok, err, if◌then◌else◌, Bool-cases, arith,
}
use distr_hnsw.Wal.Entry.{WalError, io, Operation, Entry, Checksum, encode}
use distr_hnsw.Wal.EntryCodec.{IsStorable}
use distr_hnsw.Wal.Writer.{
  segment_rotate_bytes, Write, complete, fails_after, Outcome, WalWriter, poison, rotate,
  write_frame, append_unsynced,
}
use distr_hnsw.Wal.WriterLaws.{
  Holds, IsOpen, write_frame_complete, write_frame_cut, rotate_done, rotate_failed,
}

abbrev pub next_entry : WalWriter → List ℕ → Operation → Entry
next_entry w op_id operation = record { seq = w.next_seq; op_id = op_id; operation = operation }

module _ (c : Checksum) where
  -- How an append of the entry `e` to an open writer `w` can end.
  pub data AppendOutcome (start : ℕ) (es : List Entry) (w : WalWriter) (e : Entry) (w' : WalWriter)
      (r : Result WalError ℕ) : Type 0 where
    -- The entry is the last one in the files.
    acknowledged :
        r ≡ ok e.seq → IsOpen c start (es ++ (e ∷ [])) w' → AppendOutcome start es w e w' r
    -- The entry cannot be encoded, and nothing has changed.
    refused :
        (x : WalError) → r ≡ err x → encode c e ≡ err x → w' ≡ w → AppendOutcome start es w e w' r
    -- The writer is poisoned, and its files hold the earlier entries and a part of the frame.
    failed :
        (front back : List ℕ)
        → r ≡ err io
        → w'.is_poisoned ≡ true
        → encode c e ≡ ok (front ++ back)
        → Holds c start es front w'
        → AppendOutcome start es w e w' r

  write_frame_outcome :
      (o : Outcome) (before w : WalWriter) (start : ℕ) (es : List Entry) (e : Entry)
      (frame : List ℕ)
      → IsOpen c start es w
      → IsStorable e
      → e.seq ≡ w.next_seq
      → encode c e ≡ ok frame
      → AppendOutcome start es before e (write_frame o w frame).0 (write_frame o w frame).1
  write_frame_outcome o before w start es e frame op s due h = split o.frame refl
    where
      split :
          (f : Write)
          → o.frame ≡ f
          → AppendOutcome start es before e (write_frame o w frame).0 (write_frame o w frame).1
      split complete done =
          let (r, after) = write_frame_complete c o w start es e frame op s due h done in
          acknowledged (r ∙ ap ok (sym due)) after
      split (fails_after n) cut =
          let (r, p, kept) = write_frame_cut c o w start n es frame op cut in
          failed (take n frame) (drop n frame) r p (rw (take-append-drop n frame) h) kept

  append_refused :
      (o : Outcome) (w : WalWriter) (op_id : List ℕ) (operation : Operation) (x : WalError)
      → w.is_poisoned ≡ false
      → encode c (next_entry w op_id operation) ≡ err x
      → append_unsynced c o w op_id operation ≡ (w, err x)
  unfolding append_unsynced
  append_refused o w op_id operation x healthy h = simp (healthy, h)

  append_in_place :
      (o : Outcome) (w : WalWriter) (op_id frame : List ℕ) (operation : Operation)
      → w.is_poisoned ≡ false
      → encode c (next_entry w op_id operation) ≡ ok frame
      → leb segment_rotate_bytes w.bytes ≡ false
      → append_unsynced c o w op_id operation ≡ write_frame o w frame
  unfolding append_unsynced
  append_in_place o w op_id frame operation healthy h small = simp (healthy, h, small)

  append_rotated :
      (o : Outcome) (w : WalWriter) (op_id frame : List ℕ) (operation : Operation)
      → w.is_poisoned ≡ false
      → encode c (next_entry w op_id operation) ≡ ok frame
      → leb segment_rotate_bytes w.bytes ≡ true
      → append_unsynced c o w op_id operation ≡ (
          if (rotate o w).1
          then write_frame o (rotate o w).0 frame
          else (poison (rotate o w).0, err io))
  unfolding append_unsynced
  append_rotated o w op_id frame operation healthy h large = simp (healthy, h, large)

  pub poison-Holds :
      (start : ℕ) (es : List Entry) (w : WalWriter)
      → Holds c start es [] w
      → Holds c start es [] (poison w)
  unfolding poison
  poison-Holds start es w hs = record {
    sealed = hs.sealed;
    current = hs.current;
    log = hs.log;
    split = hs.split;
    stored = hs.stored;
    is_log = hs.is_log;
    content = hs.content;
  }

  pub poison_poisons : (w : WalWriter) → (poison w).is_poisoned ≡ true
  unfolding poison
  poison_poisons w = refl

  -- The three ends are all there are, whatever the file system does: an append is acknowledged with
  -- its entry last in the log, refused with nothing changed, or it fails, poisons the writer and
  -- leaves every earlier entry in place with at most a part of the new frame behind them.
  pub append_unsynced_outcome :
      (o : Outcome) (w : WalWriter) (start : ℕ) (es : List Entry) (op_id : List ℕ)
      (operation : Operation)
      → length w.partition_id ≡ 16
      → IsOpen c start es w
      → IsStorable (next_entry w op_id operation)
      → AppendOutcome start es w
          (next_entry w op_id operation)
          (append_unsynced c o w op_id operation).0
          (append_unsynced c o w op_id operation).1
  append_unsynced_outcome o w start es op_id operation hid op s = by_encoding (encode c e) refl
    where
      e : Entry
      e = next_entry w op_id operation

      Ends : WalWriter × Result WalError ℕ → Type 0
      Ends p = AppendOutcome start es w e p.0 p.1

      by_rotation :
          (frame : List ℕ)
          → encode c e ≡ ok frame
          → (done : Bool) → (rotate o w).1 ≡ done
          → Ends
              (if done then write_frame o (rotate o w).0 frame else (poison (rotate o w).0, err io))
      by_rotation frame h true done =
          let (fresh, same, _) = rotate_done c o w start es hid op done in
          write_frame_outcome o w (rotate o w).0 start es e frame fresh s (sym same) h
      by_rotation frame h false stays =
          let kept = rotate_failed c o w start es op stays in
          failed [] frame refl (poison_poisons (rotate o w).0) h
            (poison-Holds start es (rotate o w).0 kept)

      by_encoding :
          (r : Result WalError (List ℕ))
          → encode c e ≡ r
          → Ends (append_unsynced c o w op_id operation)
      by_encoding (err x) h =
          subst Ends (sym (append_refused o w op_id operation x op.healthy h))
            (refused x refl h refl)
      by_encoding (ok frame) h = elim (Bool-cases (leb segment_rotate_bytes w.bytes)) [
        | inr small ↦
            subst Ends (sym (append_in_place o w op_id frame operation op.healthy h small))
              (write_frame_outcome o w w start es e frame op s refl h)
        | inl large ↦
            subst Ends (sym (append_rotated o w op_id frame operation op.healthy h large))
              (by_rotation frame h (rotate o w).1 refl)
      ]

  -- The partition's id never changes.
  pub partition_id-append_unsynced :
      (o : Outcome) (w : WalWriter) (op_id : List ℕ) (operation : Operation)
      → (append_unsynced c o w op_id operation).0.partition_id ≡ w.partition_id
  unfolding append_unsynced rotate write_frame
  partition_id-append_unsynced o w op_id operation = ground arith
