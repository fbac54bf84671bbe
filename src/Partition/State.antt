-- ===== src/Partition/State.antt =====
-- partition.rs: the state of `Partition` in memory, `apply`, `slot_for_key`.
use distr_hnsw.Common.{
  ℕ, zero, suc, ◌%◌, ◌^◌, Bool, true, false, not, Option, none, some, List, [], ◌∷◌, ◌++◌, length,
  ◌==◌, if◌then◌else◌, Result, ok, err, ◌>>=◌, map_err, String,
}
use distr_hnsw.Common.ByteMap.{Bytes, ByteMap, lookup, insert}
use distr_hnsw.Wal.Entry.{WalError, Operation, upsert, delete, Entry}
use distr_hnsw.Partition.Window
use distr_hnsw.Partition.Window.{IdempotencyWindow, remember}
use distr_hnsw.Partition.Index.{Vector, VectorError, wrong_dims, VectorIndex}

-- snapshot.rs: `SlotRecord`
pub record SlotRecord : Type 0 where
  pub version : ℕ
  pub tombstone : Bool
  pub key_index : ℕ
  pub payload : Bytes

-- `Failpoint`
pub data Failpoint : Type 0 where
  after_wal_append after_wal_sync after_apply : Failpoint
  snapshot_before_rename snapshot_after_rename compaction_before_swap : Failpoint

-- The errors that the modelled operations return; the sizes in the text of `over_budget` are left
-- out.
pub data PartitionError : Type 0 where
  manifest : String → PartitionError
  zero_vector over_budget : PartitionError
  injected : Failpoint → PartitionError
  missing_history : ℕ → PartitionError
  vector : VectorError → PartitionError
  wal : WalError → PartitionError

-- The key's place in the key table, and its live slot if it has one.
abbrev pub KeyEntry : Type 0
KeyEntry = ℕ × Option ℕ

-- `slots[i].tombstone = true`
abbrev pub mark : List SlotRecord → ℕ → List SlotRecord
mark [] i = []
mark (r ∷ rs) zero = record r { tombstone = true } ∷ rs
mark (r ∷ rs) (suc i) = r ∷ mark rs i

-- The index of a key, new keys going to the end of the table: the index is cast to 32 bits.
abbrev pub key_place : Option KeyEntry → Bytes → List Bytes → ℕ × List Bytes
key_place none key table = (length table % 2 ^ 32, table ++ (key ∷ []))
key_place (some (i, live)) key table = (i, table)

module _ (x : VectorIndex) where
  pub record Memory : Type 0 where
    pub dims : ℕ
    pub index : x.Graph
    pub key_table : List Bytes
    pub keys : ByteMap KeyEntry
    pub slots : List SlotRecord
    pub idempotency : IdempotencyWindow
    pub high_water : ℕ

  unfoldable pub slot_for_key : Memory → Bytes → Option ℕ
  slot_for_key p key = elim (lookup key p.keys) [ none ↦ none | some (i, live) ↦ live ]

  -- The slot that the key had is masked in the index and marked in its record.
  abbrev pub retire : Option KeyEntry → x.Graph → List SlotRecord → x.Graph × List SlotRecord
  retire none g slots = (g, slots)
  retire (some (i, none)) g slots = (g, slots)
  retire (some (i, some previous)) g slots = (x.tombstone g previous, mark slots previous)

  unfoldable pub apply_upsert : Memory → ℕ → Bytes → Bytes → Vector → Result PartitionError Memory
  apply_upsert p seq key payload v =
      if not (length v == p.dims) then err (vector (wrong_dims p.dims (length v))) else do
        (g, slot) ← map_err vector (x.insert p.index v)
        let known = lookup key p.keys
        let (i, table) = key_place known key p.key_table
        let (g', slots) = retire known g p.slots
        ok (record p {
          index = g';
          key_table = table;
          keys = insert key (i, some slot) p.keys;
          slots =
              slots
              ++ (record { version = seq; tombstone = false; key_index = i; payload = payload }
                  ∷ []);
        })

  abbrev pub delete_known : Memory → Bytes → Option KeyEntry → Memory
  delete_known p key none = p
  delete_known p key (some (i, none)) = p
  delete_known p key (some (i, some previous)) = record p {
    index = x.tombstone p.index previous;
    slots = mark p.slots previous;
    keys = insert key (i, none) p.keys;
  }

  unfoldable pub apply_operation : Memory → ℕ → Operation → Result PartitionError Memory
  unfolding apply_upsert
  apply_operation p seq (upsert key payload v) = apply_upsert p seq key payload v
  apply_operation p seq (delete key) = ok (delete_known p key (lookup key p.keys))

  -- The entry's operation, then the window and the high-water mark.
  unfoldable pub apply : Memory → Entry → Result PartitionError Memory
  apply p e = do
    p' ← apply_operation p e.seq e.operation
    ok (record p' { idempotency = remember p'.idempotency e.op_id e.seq; high_water = e.seq })

  -- The state before any entry.
  unfoldable pub initial : ℕ → ℕ → Memory
  initial dims window = record {
    dims = dims;
    index = x.new;
    key_table = [];
    keys = [];
    slots = [];
    idempotency = Window.new window;
    high_water = 0;
  }
