-- ===== src/Wal/Examples.antt =====
-- Runs of the log on small inputs.
use distr_hnsw.Common.{
  ℕ, zero, suc, ◌+◌, ◌-◌, ◌%◌, ◌^◌, ◌≤◌, ◌<◌, ◌≡◌, refl, sym, true, false, List, [], ◌∷◌, ◌++◌,
  append-nil, none, some, length, take, drop, ok, err, arith,
}
use distr_hnsw.Wal.Entry.{
  upsert, delete, Entry, Checksum, encode_body, encode, encode_operation, check_key, vector_bytes,
  frame_of, min_frame_len, max_frame_len,
}
use distr_hnsw.Common.Bytes.{to_le, from_le}
use distr_hnsw.Wal.Decode.{decode}
use distr_hnsw.Wal.EntryCodec.{IsStorable, decode-encode_body, length-encode_body}
use distr_hnsw.Wal.Frame.{
  unreadable, parse_entry, has_frame, next_valid_frame, find_frame, frame_len, crc_matches,
}
use distr_hnsw.Wal.FrameWritten.{parse_entry-encode}
use distr_hnsw.Wal.Segment.{
  header_len, encode_header, SegmentRead, read_segment, truncate_torn_tail,
}
use distr_hnsw.Wal.SegmentRead.{
  Log, segment_bytes, read_segment-Log, read_segment_torn, torn_result,
}
use distr_hnsw.Wal.SegmentHeader.{length-encode_header}
use distr_hnsw.Wal.SegmentSound.{Consecutive}
use distr_hnsw.Wal.Recovery.{torn_tail_sound, read_segment-Consecutive, crash_recovery}
use distr_hnsw.Wal.Writer.{complete, fails_after, Outcome, WalWriter, append_unsynced}
use distr_hnsw.Wal.WriterLaws.{Stored, IsOpen}
use distr_hnsw.Wal.WriterRuns.{next_entry, AppendOutcome, append_unsynced_outcome}
use distr_hnsw.Wal.Open.{open_writer, open_writer-IsOpen}
use distr_hnsw.Wal.Durability.{Request, run, Kept, acknowledged_survive}

abbrev sum_of : List ℕ → ℕ
sum_of [] = 0
sum_of (b ∷ bs) = b + sum_of bs

-- A checksum that adds the bytes up.
abbrev pub additive : Checksum
additive = record { crc32c = λ bytes. sum_of bytes % 2 ^ 32; crc32c-lt = λ bytes. omega arith }

abbrev pub repeated : ℕ → ℕ → List ℕ
repeated zero b = []
repeated (suc n) b = b ∷ repeated n b

abbrev pub id : List ℕ
id = repeated 16 7

abbrev pub put : Entry
put = record { seq = 5; op_id = repeated 16 1; operation = upsert (107 ∷ []) (1 ∷ 2 ∷ []) (0 ∷ []) }

abbrev body : List ℕ
body =
    5
    ∷ 0
    ∷ 0
    ∷ 0
    ∷ 0
    ∷ 0
    ∷ 0
    ∷ 0
    ∷ (repeated 16 1
        ++ (1 ∷ 1 ∷ 0 ∷ 107 ∷ 2 ∷ 0 ∷ 0 ∷ 0 ∷ 1 ∷ 2 ∷ 1 ∷ 0 ∷ 0 ∷ 0 ∷ 0 ∷ 0 ∷ 0 ∷ 0 ∷ []))

abbrev frame : List ℕ
frame = 46 ∷ 0 ∷ 0 ∷ 0 ∷ 136 ∷ 0 ∷ 0 ∷ 0 ∷ body

put-body : encode_body put ≡ ok body
unfolding encode_body encode_operation check_key vector_bytes to_le
put-body = refl

pub put-IsStorable : IsStorable put
put-IsStorable = record { seq = omega arith; op_id = refl; words = (omega arith, tt) }

put_frame : encode additive put ≡ ok frame
unfolding encode encode_body encode_operation check_key vector_bytes frame_of to_le
put_frame = refl

decode-encode_body_example : decode body ≡ ok put
decode-encode_body_example = decode-encode_body put body put-IsStorable put-body

length-encode_body_example : (min_frame_len ≤ length body + 4) × (length body + 4 ≤ max_frame_len)
length-encode_body_example = length-encode_body put body refl put-body

parse_entry-encode_example : parse_entry additive (frame ++ (9 ∷ [])) ≡ ok (put, length frame)
parse_entry-encode_example = parse_entry-encode additive put frame (9 ∷ []) put-IsStorable put_frame

-- A segment with the entry.
one_Log : Log additive 5 (put ∷ []) (frame ++ [])
one_Log = Log.cons put frame put-IsStorable refl put_frame Log.nil

read_segment-Log_example :
    read_segment additive (some 5) id true (segment_bytes id 5 (frame ++ []))
    ≡ ok (record { entries = put ∷ []; torn_tail = none })
read_segment-Log_example = read_segment-Log additive id 5 refl (omega arith) true one_Log

too_short : parse_entry additive (0 ∷ []) ≡ err (unreadable "short frame")
unfolding parse_entry frame_len
too_short = refl

read_segment_torn_example :
    read_segment additive (some 5) id true (segment_bytes id 5 ((frame ++ []) ++ (0 ∷ [])))
    ≡ torn_result additive id 5 refl
        (omega arith)
        true
        (put ∷ [])
        (frame ++ [])
        (0 ∷ [])
        "short frame"
read_segment_torn_example =
    read_segment_torn additive id 5 refl (omega arith) true (0 ∷ []) "short frame" one_Log
      (ground arith) too_short

-- The first 20 bytes of a second frame.
abbrev next : Entry
next = record { seq = 6; op_id = repeated 16 2; operation = delete (107 ∷ []) }

abbrev next_frame : List ℕ
next_frame =
    32
    ∷ 0
    ∷ 0
    ∷ 0
    ∷ 148
    ∷ 0
    ∷ 0
    ∷ 0
    ∷ 6
    ∷ 0
    ∷ 0
    ∷ 0
    ∷ 0
    ∷ 0
    ∷ 0
    ∷ 0
    ∷ (repeated 16 2 ++ (2 ∷ 1 ∷ 0 ∷ 107 ∷ []))

abbrev cut_bytes : List ℕ
cut_bytes = segment_bytes id 5 ((frame ++ []) ++ take 20 next_frame)

next_encodes : encode additive next ≡ ok (take 20 next_frame ++ drop 20 next_frame)
unfolding encode encode_body encode_operation check_key vector_bytes frame_of to_le
next_encodes = refl

nothing_inside : next_valid_frame additive cut_bytes (header_len + length (frame ++ []) + 1) ≡ none
unfolding next_valid_frame find_frame has_frame parse_entry frame_len crc_matches from_le
    encode_header to_le
nothing_inside = refl

crash_recovery_example :
    (read_segment additive (some 5) id true cut_bytes
      ≡ ok
          (record { entries = put ∷ []; torn_tail = some (header_len + length (frame ++ []), 20) }))
    × (truncate_torn_tail cut_bytes (header_len + length (frame ++ []))
        ≡ some (segment_bytes id 5 (frame ++ [])))
    × (read_segment additive (some 5) id true (segment_bytes id 5 (frame ++ []))
        ≡ ok (record { entries = put ∷ []; torn_tail = none }))
crash_recovery_example =
    crash_recovery additive id 5 refl (omega arith) next (take 20 next_frame) (drop 20 next_frame)
      one_Log refl next_encodes (ground arith) (ground arith) nothing_inside

abbrev torn : SegmentRead
torn = record { entries = put ∷ []; torn_tail = some (header_len + length (frame ++ []), 20) }

torn_read : read_segment additive (some 5) id true cut_bytes ≡ ok torn
torn_read =
    (crash_recovery additive id 5 refl (omega arith) next (take 20 next_frame) (drop 20 next_frame)
      one_Log refl next_encodes (ground arith) (ground arith) nothing_inside).0

torn_tail_sound_example :
    (true ≡ true)
    × ((p : ℕ)
        → header_len + length (frame ++ []) < p
        → has_frame additive (drop p cut_bytes) ≡ false)
    × (20 ≡ length cut_bytes - (header_len + length (frame ++ [])))
    × (truncate_torn_tail cut_bytes (header_len + length (frame ++ []))
        ≡ some (take (header_len + length (frame ++ [])) cut_bytes))
    × (read_segment additive (some 5) id false (take (header_len + length (frame ++ [])) cut_bytes)
        ≡ ok (record { entries = put ∷ []; torn_tail = none }))
torn_tail_sound_example =
    torn_tail_sound additive (some 5) id true false cut_bytes (header_len + length (frame ++ [])) 20
      torn torn_read refl (omega arith)

read_segment-Consecutive_example : Consecutive 5 torn.entries
read_segment-Consecutive_example =
    read_segment-Consecutive additive id 5 true cut_bytes torn torn_read

-- A writer with an empty segment.
abbrev pub fresh : WalWriter
fresh = record {
  partition_id = id;
  older = [];
  path = 5;
  file = encode_header id 5;
  leftover = [];
  bytes = header_len;
  next_seq = 5;
  is_poisoned = false;
}

pub fresh-IsOpen : IsOpen additive 5 [] fresh
fresh-IsOpen = record {
  holds = record {
    sealed = [];
    current = [];
    log = [];
    split = refl;
    stored = Stored.empty;
    is_log = Log.nil;
    content = sym (append-nil (encode_header id 5));
  };
  healthy = refl;
  no_leftover = refl;
  counted = sym (length-encode_header id 5 refl);
  next = refl;
}

abbrev pub works : Outcome
works = record {
  seals = true;
  creates = true;
  header = complete;
  header_syncs = true;
  reopens = true;
  frame = complete;
  syncs = true;
}

abbrev pub breaks : Outcome
breaks = record works { frame = fails_after 20 }

pub put_next-IsStorable : IsStorable (next_entry fresh put.op_id put.operation)
put_next-IsStorable = put-IsStorable

append_unsynced_outcome_example :
    AppendOutcome additive 5 [] fresh
      (next_entry fresh put.op_id put.operation)
      (append_unsynced additive breaks fresh put.op_id put.operation).0
      (append_unsynced additive breaks fresh put.op_id put.operation).1
append_unsynced_outcome_example =
    append_unsynced_outcome additive breaks fresh 5 [] put.op_id put.operation refl fresh-IsOpen
      put_next-IsStorable

abbrev requests : List Request
requests =
    record { outcome = works; op_id = put.op_id; operation = put.operation }
    ∷ record { outcome = breaks; op_id = next.op_id; operation = next.operation }
    ∷ []

acknowledged_survive_example :
    Kept additive 5 [] (run additive requests fresh).1 (run additive requests fresh).0
acknowledged_survive_example =
    acknowledged_survive additive requests fresh 5 [] refl
      ((refl, (omega arith, tt)), ((refl, tt), tt)) (omega arith) fresh-IsOpen

open_writer-IsOpen_example :
    (w : WalWriter) × (open_writer additive true true id 5 []
        (some (5, segment_bytes id 5 (frame ++ [])))
      ≡ ok w)
    × IsOpen additive 5 (put ∷ []) w
open_writer-IsOpen_example =
    open_writer-IsOpen additive id 5 5 5 [] (put ∷ []) (frame ++ []) [] refl (omega arith)
      Stored.empty one_Log refl refl (omega arith)
