-- ===== src/Partition/Mutate.antt =====
-- partition.rs: `upsert`, `delete`, `mutate`, `sync_and_apply`, `hit`. The served state is the memory
-- and the writer of the log.
use distr_hnsw.Common.{
  ℕ, Bool, true, false, not, Option, none, some, length, ◌==◌, if◌then◌else◌, Result, ok, err, ◌>>◌,
  refuse,
}
use distr_hnsw.Common.ByteMap.{Bytes}
use distr_hnsw.Wal.Entry.{WalError, Operation, upsert, delete, Entry, Checksum}
use distr_hnsw.Wal.Writer.{Outcome, WalWriter, poison, sync, append_unsynced}
use distr_hnsw.Partition.Window
use distr_hnsw.Partition.Index.{all_finite, Vector, non_finite, wrong_dims, VectorIndex}
use distr_hnsw.Partition.State.{
  Failpoint, after_wal_append, after_wal_sync, after_apply, snapshot_before_rename,
  snapshot_after_rename, compaction_before_swap, PartitionError, zero_vector, over_budget, injected,
  vector, wal, Memory, apply,
}

pub record Applied : Type 0 where
  pub seq : ℕ
  pub deduplicated : Bool

abbrev point_number : Failpoint → ℕ
point_number after_wal_append = 0
point_number after_wal_sync = 1
point_number after_apply = 2
point_number snapshot_before_rename = 3
point_number snapshot_after_rename = 4
point_number compaction_before_swap = 5

unfoldable pub hit : Option Failpoint → Failpoint → Result PartitionError (Unit {0})
hit none point = ok tt
hit (some set) point = refuse (point_number set == point_number point) (injected point)

module _ (x : VectorIndex) where
  pub record Served : Type 0 where
    pub memory : Memory x
    pub writer : WalWriter
    pub failpoint : Option Failpoint

  abbrev applied_to :
      Served → Result PartitionError (Memory x) → Served × Result PartitionError (Unit {0})
  applied_to s (ok m) = (record s { memory = m }, ok tt)
  applied_to s (err e) = (s, err e)

  -- What follows the sync of the log.
  unfoldable pub after_sync :
      Entry → Served → Result WalError (Unit {0}) → Served × Result PartitionError (Unit {0})
  after_sync e s (err x) = (s, err (wal x))
  after_sync e s (ok u) = elim (hit s.failpoint after_wal_sync) [
    | err x ↦ (s, err x)
    | ok u ↦ applied_to s (apply x s.memory e)
  ]

  unfoldable pub sync_and_apply :
      Outcome → Served → Entry → Served × Result PartitionError (Unit {0})
  sync_and_apply o s e = elim (hit s.failpoint after_wal_append) [
    | err x ↦ (s, err x)
    | ok u ↦ let (w, synced) = sync o s.writer in after_sync e (record s { writer = w }) synced
  ]

  -- The end of `mutate`: an early exit poisons the writer.
  unfoldable pub finish_mutate :
      ℕ → Served → Result PartitionError (Unit {0}) → Served × Result PartitionError Applied
  finish_mutate seq s (err e) = (record s { writer = poison s.writer }, err e)
  finish_mutate seq s (ok u) =
      (s, hit s.failpoint after_apply >> ok (record { seq = seq; deduplicated = false }))

  -- What follows the append.
  unfoldable pub after_append :
      Outcome
      → Served
      → Bytes
      → Operation
      → Result WalError ℕ
      → Served × Result PartitionError Applied
  after_append o s op_id operation (err e) = (s, err (wal e))
  after_append o s op_id operation (ok seq) =
      let (s', done) =
        sync_and_apply o s (record { seq = seq; op_id = op_id; operation = operation }) in
      finish_mutate seq s' done

  module _ (c : Checksum) where
    unfoldable pub mutate :
        Outcome → Served → Bytes → Operation → Served × Result PartitionError Applied
    mutate o s op_id operation =
        let (w, appended) = append_unsynced c o s.writer op_id operation in
        after_append o (record s { writer = w }) op_id operation appended

    -- The operation `delete` of the partition.
    unfoldable pub delete_key :
        Outcome → Served → Bytes → Bytes → Served × Result PartitionError Applied
    delete_key o s op_id key = elim (Window.get s.memory.idempotency op_id) [
      | some seq ↦ (s, ok (record { seq = seq; deduplicated = true }))
      | none ↦ mutate o s op_id (delete key)
    ]

    -- `normalize` is the metric's, in floating point: none for a vector with no direction. `admits`
    -- is `admit`, the test of the memory budget.
    module _ (normalize : Vector → Option Vector) (admits : Memory x → ℕ → Bool) where
      -- The operation `upsert` of the partition.
      unfoldable pub upsert_key :
          Outcome → Served → Bytes → Bytes → Vector → Bytes → Served × Result PartitionError Applied
      upsert_key o s op_id key v payload = elim (Window.get s.memory.idempotency op_id) [
        | some seq ↦ (s, ok (record { seq = seq; deduplicated = true }))
        | none ↦
            if not (length v == s.memory.dims)
            then (s, err (vector (wrong_dims s.memory.dims (length v))))
            else if not (all_finite v)
            then (s, err (vector non_finite))
            else elim (normalize v) [
              | none ↦ (s, err zero_vector)
              | some stored ↦
                  if admits s.memory (length payload)
                  then mutate o s op_id (upsert key payload stored)
                  else (s, err over_budget)
            ]
      ]
