-- ===== src/Wal/Writer.antt =====
-- wal.rs: `WalWriter` with `append`, `append_unsynced`, `sync`, `rotate`, `poison`, and
-- `create_segment`. The files of the log directory are part of the state, and what each call of the
-- file system does is an argument.
use distr_hnsw.Common.{
  ℕ, ◌+◌, ◌*◌, Bool, true, false, not, List, [], ◌∷◌, ◌++◌, length, take, leb, if◌then◌else◌,
  Result, ok, err,
}
use distr_hnsw.Wal.Entry.{WalError, poisoned, io, Operation, Checksum, encode}
use distr_hnsw.Wal.Segment.{header_len, encode_header}

abbrev pub segment_rotate_bytes : ℕ
segment_rotate_bytes = 64 * 1024 * 1024

-- A segment file: the number in its name, and its bytes.
abbrev pub SegmentFile : Type 0
SegmentFile = ℕ × List ℕ

-- `write_all` writes everything, or fails after some of the bytes.
pub data Write : Type 0 where
  complete : Write
  fails_after : ℕ → Write

-- What the file system does in one call of the writer, a field for each of its calls.
pub record Outcome : Type 0 where
  -- `rotate`: `sync_all` of the full segment
  pub seals : Bool
  -- `create_segment`: `create_new`, the header, and the two syncs
  pub creates : Bool
  pub header : Write
  pub header_syncs : Bool
  -- `rotate`: the new segment opened for appending
  pub reopens : Bool
  -- `append_unsynced`: the frame
  pub frame : Write
  -- `sync`: `sync_data`
  pub syncs : Bool

-- `older` are the segments before the one that is written to, which is `path` with the bytes `file`;
-- `leftover` is the segment that a failed rotation left behind it.
pub record WalWriter : Type 0 where
  pub partition_id : List ℕ
  pub older : List SegmentFile
  pub path : ℕ
  pub file : List ℕ
  pub leftover : List SegmentFile
  pub bytes : ℕ
  pub next_seq : ℕ
  pub is_poisoned : Bool

abbrev pub segment_files : WalWriter → List SegmentFile
segment_files w = w.older ++ ((w.path, w.file) ∷ w.leftover)

abbrev pub written : Write → List ℕ → List ℕ
written complete bytes = bytes
written (fails_after n) bytes = take n bytes

abbrev pub succeeds : Write → Bool
succeeds complete = true
succeeds (fails_after n) = false

unfoldable pub poison : WalWriter → WalWriter
poison w = record w { is_poisoned = true }

-- The file that `create_segment` leaves, and whether it succeeds.
unfoldable pub create_segment : Outcome → WalWriter → List SegmentFile × Bool
create_segment o w =
    let header = encode_header w.partition_id w.next_seq in
    if o.creates
    then (
      (w.next_seq, written o.header header) ∷ [],
      if succeeds o.header then o.header_syncs else false,
    )
    else ([], false)

unfoldable pub rotate : Outcome → WalWriter → WalWriter × Bool
unfolding create_segment
rotate o w =
    let (created, synced) = create_segment o w in
    if not o.seals
    then (w, false)
    else if not synced
    then (record w { leftover = created }, false)
    else if not o.reopens
    then (record w { leftover = created }, false)
    else (
      record w {
        older = w.older ++ ((w.path, w.file) ∷ []);
        path = w.next_seq;
        file = encode_header w.partition_id w.next_seq;
        bytes = header_len;
      },
      true,
    )

-- `write_all(&frame)` and what follows it.
unfoldable pub write_frame : Outcome → WalWriter → List ℕ → WalWriter × Result WalError ℕ
unfolding poison
write_frame o w frame =
    let w' = record w { file = w.file ++ written o.frame frame } in
    if succeeds o.frame
    then (record w' { bytes = w.bytes + length frame; next_seq = w.next_seq + 1 }, ok w.next_seq)
    else (poison w', err io)

module _ (c : Checksum) where
  unfoldable pub append_unsynced :
      Outcome → WalWriter → List ℕ → Operation → WalWriter × Result WalError ℕ
  unfolding poison
  append_unsynced o w op_id operation =
      if w.is_poisoned
      then (w, err poisoned)
      else elim (encode c (record { seq = w.next_seq; op_id = op_id; operation = operation })) [
        | err e ↦ (w, err e)
        | ok frame ↦
            if leb segment_rotate_bytes w.bytes
            then (let (w', rotated) = rotate o w in
                if rotated then write_frame o w' frame else (poison w', err io))
            else write_frame o w frame
      ]

unfoldable pub sync : Outcome → WalWriter → WalWriter × Result WalError (Unit {0})
unfolding poison
sync o w =
    if w.is_poisoned then (w, err poisoned) else if o.syncs then (w, ok tt) else (poison w, err io)

-- `append_unsynced(..).and_then(|seq| { self.sync()?; Ok(seq) })`
unfoldable pub and_then_sync :
    Outcome → WalWriter → Result WalError ℕ → WalWriter × Result WalError ℕ
and_then_sync o w (err e) = (w, err e)
and_then_sync o w (ok seq) =
    let (w', synced) = sync o w in (w', elim synced [ ok u ↦ ok seq | err e ↦ err e ])

unfoldable pub append :
    Checksum → Outcome → WalWriter → List ℕ → Operation → WalWriter × Result WalError ℕ
append c o w op_id operation =
    let (w', appended) = append_unsynced c o w op_id operation in and_then_sync o w' appended
