-- ===== src/Partition/Compaction.antt =====
-- partition.rs: `capture_compaction`, `CompactionInput::build`, and the state that
-- `finish_compaction` stages; vector.rs: `FlatVectors::push` of a row that is kept as given.
use distr_hnsw.Common.{
  ℕ, suc, not, Option, none, some, List, [], ◌∷◌, map, length, ◌==◌, if◌then◌else◌, Result, ok, err,
  ◌>>=◌, ok_or, map_err,
}
use distr_hnsw.Common.ByteMap.{Bytes, ByteMap, map_values}
use distr_hnsw.Partition.Window
use distr_hnsw.Partition.Window.{entries, restore}
use distr_hnsw.Partition.Index.{
  all_finite, Vector, VectorError, non_finite, wrong_dims, VectorIndex,
}
use distr_hnsw.Partition.State.{SlotRecord, KeyEntry, PartitionError, manifest, vector, Memory}

-- A live slot as it is captured: its number, its row and its record.
pub record Captured : Type 0 where
  pub old_slot : ℕ
  pub row : Vector
  pub slot : SlotRecord

pub record CompactionInput : Type 0 where
  pub rebuild_point : ℕ
  pub vectors : List Vector
  pub old_slots : List ℕ
  pub slots : List SlotRecord
  pub key_table : List Bytes
  pub keys : ByteMap KeyEntry
  pub idempotency : List (Bytes × ℕ)

-- `push` without normalization
unfoldable pub push_row : ℕ → Vector → Result VectorError Vector
push_row dims v =
    if not (length v == dims)
    then err (wrong_dims dims (length v))
    else if not (all_finite v)
    then err non_finite
    else ok v

unfoldable pub captured_row : ℕ → ℕ → SlotRecord → Option Vector → Result PartitionError Captured
unfolding push_row
captured_row dims i r row = do
  v ← ok_or row (manifest "slot without vector")
  v' ← map_err vector (push_row dims v)
  ok (record { old_slot = i; row = v'; slot = r })

-- The loop over the slots, from the slot `i` on.
unfoldable pub capture :
    ℕ → (ℕ → Option Vector) → ℕ → List SlotRecord → Result PartitionError (List Captured)
capture dims row i [] = ok []
capture dims row i (r ∷ rs) =
    let rest = capture dims row (suc i) rs in
    if r.tombstone then rest else captured_row dims i r (row i) >>= λ c. rest >>= λ cs. ok (c ∷ cs)

-- `old_to_new`: the place of a slot number in the list of the old ones; a later one wins.
unfoldable pub old_to_new : ℕ → List ℕ → ℕ → Option ℕ
old_to_new n [] slot = none
old_to_new n (o ∷ os) slot = elim (old_to_new (suc n) os slot) [
  | some j ↦ some j
  | none ↦ if o == slot then some n else none
]

abbrev pub and_then : Option ℕ → (ℕ → Option ℕ) → Option ℕ
and_then none f = none
and_then (some s) f = f s

module _ (x : VectorIndex) where
  pub record CompactionPlan : Type 0 where
    pub rebuild_point : ℕ
    pub index : x.Graph
    pub key_table : List Bytes
    pub keys : ByteMap KeyEntry
    pub slots : List SlotRecord
    pub idempotency : List (Bytes × ℕ)

  unfoldable pub capture_compaction : Memory x → Result PartitionError CompactionInput
  capture_compaction p = do
    cs ← capture p.dims (x.row p.index) 0 p.slots
    ok (record {
      rebuild_point = p.high_water;
      vectors = map (λ (c : Captured). c.row) cs;
      old_slots = map (λ (c : Captured). c.old_slot) cs;
      slots = map (λ (c : Captured). c.slot) cs;
      key_table = p.key_table;
      keys = p.keys;
      idempotency = entries p.idempotency;
    })

  abbrev pub moved : List ℕ → KeyEntry → KeyEntry
  moved old_slots (i, live) = (i, and_then live (old_to_new 0 old_slots))

  unfoldable pub build : CompactionInput → CompactionPlan
  build input = record {
    rebuild_point = input.rebuild_point;
    index = x.build input.vectors;
    key_table = input.key_table;
    keys = map_values (moved input.old_slots) input.keys;
    slots = input.slots;
    idempotency = input.idempotency;
  }

  -- The staged state before the log is caught up; `window` is the configured one.
  unfoldable pub staged : ℕ → ℕ → CompactionPlan → Memory x
  staged dims window plan = record {
    dims = dims;
    index = plan.index;
    key_table = plan.key_table;
    keys = plan.keys;
    slots = plan.slots;
    idempotency = restore (Window.new window) plan.idempotency;
    high_water = plan.rebuild_point;
  }
