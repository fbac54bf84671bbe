-- ===== src/Partition/Examples.antt =====
-- Runs of the partition on small inputs.
use distr_hnsw.Common.{arith, ◌≡◌, refl, true, false, [], ◌∷◌, none, some, ok}
use distr_hnsw.Common.ByteMap.{Bytes, lookup, insert}
use distr_hnsw.Common.Bytes.{to_le}
use distr_hnsw.Wal.Entry.{
  upsert, Entry, encode, encode_body, encode_operation, check_key, vector_bytes, frame_of,
}
use distr_hnsw.Wal.Examples.{
  additive, repeated, put, fresh, fresh-IsOpen, works, breaks, put_next-IsStorable,
}
use distr_hnsw.Wal.WriterRuns.{next_entry}
use distr_hnsw.Partition.Window.{new, get, push_new, remember, trim, entries, restore}
use distr_hnsw.Partition.WindowLaws.{Remembered, remember_lem}
use distr_hnsw.Partition.WindowRestore.{restore-entries}
use distr_hnsw.Hnsw.Graph.{new_hnsw, tombstone}
use distr_hnsw.Hnsw.Index.{insert_vector, inserted}
use distr_hnsw.Hnsw.Sample.{sample_index, with_row}
use distr_hnsw.Partition.State.{
  after_wal_sync, apply_upsert, apply_operation, apply, initial, Memory,
}
use distr_hnsw.Partition.Consistent.{IsConsistent}
use distr_hnsw.Partition.Apply.{apply-IsConsistent, initial-IsConsistent}
use distr_hnsw.Partition.View.{view, updated, view-apply}
use distr_hnsw.Partition.Mutate.{
  Served, mutate, delete_key, upsert_key, after_append, sync_and_apply, after_sync, finish_mutate,
  hit,
}
use distr_hnsw.Wal.Writer.{append_unsynced, sync, write_frame}
use distr_hnsw.Partition.Replay.{replay, replay_entry, replay-IsConsistent}
use distr_hnsw.Partition.Agree.{InStep, MutateOutcome, mutate_outcome}
use distr_hnsw.Partition.Retry.{retry_deduplicated}
use distr_hnsw.Partition.Compaction.{
  CompactionInput, capture_compaction, capture, captured_row, push_row, build, staged,
}
use distr_hnsw.Partition.CatchUp.{Alike, caught_up, caught_up-Alike}
use distr_hnsw.Partition.Compacted.{Compacted, compaction_keeps}

-- A partition of one-dimensional vectors whose log starts at the number 5.
abbrev base : Memory sample_index
base = record {
  dims = 1;
  index = sample_index.new;
  key_table = [];
  keys = [];
  slots = [];
  idempotency = record { capacity = 4; order = []; seqs = [] };
  high_water = 4;
}

base-IsConsistent : IsConsistent sample_index base
unfolding initial new
base-IsConsistent =
    let c = initial-IsConsistent sample_index 1 4 in
    record {
      sized = c.sized;
      in_table = c.in_table;
      live = c.live;
      masked = c.masked;
      owned = c.owned;
      window = c.window;
    }

-- The key 107 is written, and then written again.
abbrev after_put : Memory sample_index
after_put = record {
  dims = 1;
  index = with_row sample_index.new (0 ∷ []);
  key_table = (107 ∷ []) ∷ [];
  keys = (107 ∷ [], (0, some 0)) ∷ [];
  slots = record { version = 5; tombstone = false; key_index = 0; payload = 1 ∷ 2 ∷ [] } ∷ [];
  idempotency = record { capacity = 4; order = put.op_id ∷ []; seqs = (put.op_id, 5) ∷ [] };
  high_water = 5;
}

put_applies : apply sample_index base put ≡ ok after_put
unfolding insert_vector inserted new_hnsw apply apply_operation apply_upsert lookup insert remember
    push_new trim
put_applies = refl

abbrev again : Entry
again = record { seq = 6; op_id = repeated 16 2; operation = upsert (107 ∷ []) [] (9 ∷ []) }

abbrev after_again : Memory sample_index
after_again = record {
  dims = 1;
  index = sample_index.tombstone (with_row (with_row sample_index.new (0 ∷ [])) (9 ∷ [])) 0;
  key_table = (107 ∷ []) ∷ [];
  keys = (107 ∷ [], (0, some 1)) ∷ (107 ∷ [], (0, some 0)) ∷ [];
  slots =
      record { version = 5; tombstone = true; key_index = 0; payload = 1 ∷ 2 ∷ [] }
      ∷ record { version = 6; tombstone = false; key_index = 0; payload = [] }
      ∷ [];
  idempotency = record {
    capacity = 4;
    order = put.op_id ∷ again.op_id ∷ [];
    seqs = (again.op_id, 6) ∷ (put.op_id, 5) ∷ [];
  };
  high_water = 6;
}

again_applies : apply sample_index after_put again ≡ ok after_again
unfolding insert_vector inserted new_hnsw apply apply_operation apply_upsert lookup insert remember
    push_new trim
again_applies = refl

after_put-IsConsistent : IsConsistent sample_index after_put
after_put-IsConsistent =
    apply-IsConsistent sample_index base after_put put put_applies (omega arith) base-IsConsistent

view-apply_example :
    view sample_index after_again (107 ∷ [])
    ≡ updated sample_index 6 again.operation (view sample_index after_put) (107 ∷ [])
view-apply_example =
    view-apply sample_index after_put after_again again (107 ∷ []) after_put-IsConsistent
      again_applies

apply-IsConsistent_example : IsConsistent sample_index after_again
apply-IsConsistent_example =
    apply-IsConsistent sample_index after_put after_again again again_applies (omega arith)
      after_put-IsConsistent

both_replay : replay sample_index base (put ∷ again ∷ []) ≡ ok after_again
unfolding insert_vector inserted new_hnsw replay replay_entry apply apply_operation apply_upsert
    lookup insert remember push_new trim
both_replay = refl

replay-IsConsistent_example : IsConsistent sample_index after_again
replay-IsConsistent_example =
    replay-IsConsistent sample_index base after_again (put ∷ again ∷ []) both_replay (omega arith)
      base-IsConsistent

after_again-IsConsistent : IsConsistent sample_index after_again
after_again-IsConsistent =
    replay-IsConsistent sample_index base after_again (put ∷ again ∷ []) both_replay (omega arith)
      base-IsConsistent

remember_lem_example :
    Remembered after_again.idempotency put.op_id 7 (remember after_again.idempotency put.op_id 7)
remember_lem_example =
    remember_lem after_again.idempotency put.op_id 7 after_again-IsConsistent.window

restore-entries_example :
    ((restore (new 4) (entries after_again.idempotency)).order ≡ put.op_id ∷ again.op_id ∷ [])
    × ((k : Bytes)
        → get (restore (new 4) (entries after_again.idempotency)) k ≡ get after_again.idempotency k)
restore-entries_example = restore-entries after_again.idempotency after_again-IsConsistent.window

-- The slot that is left after the second write.
abbrev captured : CompactionInput
captured = record {
  rebuild_point = 6;
  vectors = (9 ∷ []) ∷ [];
  old_slots = 1 ∷ [];
  slots = record { version = 6; tombstone = false; key_index = 0; payload = [] } ∷ [];
  key_table = (107 ∷ []) ∷ [];
  keys = after_again.keys;
  idempotency = (put.op_id, 5) ∷ (again.op_id, 6) ∷ [];
}

captures : capture_compaction sample_index after_again ≡ ok captured
unfolding insert_vector inserted new_hnsw tombstone capture_compaction capture captured_row push_row
    entries lookup
captures = refl

compaction_keeps_example :
    Compacted sample_index after_again (staged sample_index 1 4 (build sample_index captured))
compaction_keeps_example =
    compaction_keeps sample_index after_again 4 captured after_again-IsConsistent refl captures

-- A capture after the first write, while the second one comes in.
abbrev captured_early : CompactionInput
captured_early = record {
  rebuild_point = 5;
  vectors = (0 ∷ []) ∷ [];
  old_slots = 0 ∷ [];
  slots = after_put.slots;
  key_table = after_put.key_table;
  keys = after_put.keys;
  idempotency = (put.op_id, 5) ∷ [];
}

captures_early : capture_compaction sample_index after_put ≡ ok captured_early
unfolding insert_vector inserted new_hnsw tombstone capture_compaction capture captured_row push_row
    entries lookup
captures_early = refl

again_replays : replay sample_index after_put (again ∷ []) ≡ ok after_again
unfolding insert_vector inserted new_hnsw replay replay_entry apply apply_operation apply_upsert
    lookup insert remember push_new trim
again_replays = refl

caught_up-Alike_example :
    (q : Memory sample_index) × (caught_up sample_index
        (build sample_index captured_early).rebuild_point
        6
        (staged sample_index 1 4 (build sample_index captured_early))
        (put ∷ again ∷ [])
      ≡ ok q)
    × Alike sample_index after_again q
caught_up-Alike_example =
    caught_up-Alike sample_index after_put after_again 4 captured_early (put ∷ []) (again ∷ [])
      after_put-IsConsistent refl captures_early (omega arith, tt) (refl, tt) again_replays
      (omega arith)

abbrev served : Served sample_index
served = record { memory = base; writer = fresh; failpoint = some after_wal_sync }

served-InStep : InStep sample_index additive base 5 [] served
unfolding replay
served-InStep = record { is_open = fresh-IsOpen; due = refl; replayed = refl }

mutate_outcome_example :
    MutateOutcome sample_index additive base 5 [] served
      (next_entry fresh put.op_id put.operation)
      (mutate sample_index additive works served put.op_id put.operation).0
      (mutate sample_index additive works served put.op_id put.operation).1
mutate_outcome_example =
    mutate_outcome sample_index additive works base 5 [] served put.op_id put.operation refl
      put_next-IsStorable served-InStep

abbrev healthy : Served sample_index
healthy = record { memory = base; writer = fresh; failpoint = none }

healthy-InStep : InStep sample_index additive base 5 [] healthy
unfolding replay
healthy-InStep = record { is_open = fresh-IsOpen; due = refl; replayed = refl }

abbrev rewritten : Served sample_index
rewritten = record {
  memory = after_put;
  writer = (append_unsynced additive works fresh put.op_id put.operation).0;
  failpoint = none;
}

put_acknowledged :
    mutate sample_index additive works healthy put.op_id put.operation
    ≡ (rewritten, ok (record { seq = 5; deduplicated = false }))
unfolding mutate after_append sync_and_apply after_sync finish_mutate hit sync append_unsynced
    encode encode_body encode_operation check_key vector_bytes frame_of to_le write_frame
    insert_vector inserted new_hnsw apply apply_operation apply_upsert lookup insert remember
    push_new trim
put_acknowledged = refl

retry_deduplicated_example :
    (delete_key sample_index additive breaks rewritten put.op_id (107 ∷ [])
      ≡ (rewritten, ok (record { seq = 5; deduplicated = true })))
    × (upsert_key sample_index additive
          (λ v. some v)
          (λ p n. true)
          breaks
          rewritten
          put.op_id
          (107 ∷ [])
          (9 ∷ [])
          []
        ≡ (rewritten, ok (record { seq = 5; deduplicated = true })))
retry_deduplicated_example =
    retry_deduplicated sample_index additive (λ v. some v) (λ p n. true) works breaks base 5 []
      healthy rewritten put.op_id (107 ∷ []) [] (9 ∷ []) put.operation
      (record { seq = 5; deduplicated = false }) refl put_next-IsStorable base-IsConsistent.window
      healthy-InStep put_acknowledged
