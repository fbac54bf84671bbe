-- ===== src/Partition/Window.antt =====
-- partition.rs: `IdempotencyWindow`. `order` is the deque of the operation ids, oldest first, and
-- `seqs` their sequence numbers.
use distr_hnsw.Common.{ℕ, Option, none, some, List, [], ◌∷◌, ◌++◌, length, ltb, max, if◌then◌else◌}
use distr_hnsw.Common.ByteMap.{Bytes, ByteMap, lookup, insert, remove}

pub record IdempotencyWindow : Type 0 where
  pub capacity : ℕ
  pub order : List Bytes
  pub seqs : ByteMap ℕ

unfoldable pub new : ℕ → IdempotencyWindow
new capacity = record { capacity = max capacity 1; order = []; seqs = [] }

unfoldable pub get : IdempotencyWindow → Bytes → Option ℕ
get w op_id = lookup op_id w.seqs

-- The loop that pops the front while the deque is longer than the capacity.
unfoldable pub trim : ℕ → List Bytes → ByteMap ℕ → List Bytes × ByteMap ℕ
trim capacity [] seqs = ([], seqs)
trim capacity (old ∷ order) seqs =
    let popped = trim capacity order (remove old seqs) in
    if ltb capacity (length (old ∷ order)) then popped else (old ∷ order, seqs)

-- the id goes to the back where `insert` found no older number
unfoldable pub push_new : Option ℕ → Bytes → List Bytes → List Bytes
push_new none op_id order = order ++ (op_id ∷ [])
push_new (some seq) op_id order = order

unfoldable pub remember : IdempotencyWindow → Bytes → ℕ → IdempotencyWindow
remember w op_id seq =
    let (order, seqs) =
      trim w.capacity (push_new (lookup op_id w.seqs) op_id w.order) (insert op_id seq w.seqs) in
    record w { order = order; seqs = seqs }

abbrev pub entries_from : List Bytes → ByteMap ℕ → List (Bytes × ℕ)
entries_from [] seqs = []
entries_from (id ∷ order) seqs = elim (lookup id seqs) [
  | some seq ↦ (id, seq) ∷ entries_from order seqs
  | none ↦ entries_from order seqs
]

unfoldable pub entries : IdempotencyWindow → List (Bytes × ℕ)
entries w = entries_from w.order w.seqs

-- The loop that records saved entries in a window, in a restore from a snapshot and in compaction.
unfoldable pub restore : IdempotencyWindow → List (Bytes × ℕ) → IdempotencyWindow
restore w [] = w
restore w ((op_id, seq) ∷ saved) = restore (remember w op_id seq) saved
