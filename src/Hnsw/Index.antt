-- ===== src/Hnsw/Index.antt =====
-- hnsw.rs: `insert`, and `build_parallel`. The threads of a build link the rows in an order that the
-- scheduler sets, so the links that they and the repair of orphans leave are an argument.
use distr_hnsw.Common.{
  ℕ, zero, suc, ◌+◌, ◌/◌, ◌%◌, ◌^◌, ◌*◌, Bool, false, not, List, [], ◌∷◌, ◌++◌, length, ltb, ◌==◌,
  if◌then◌else◌, Result, ok, err,
}
use distr_hnsw.Partition.Index.{
  all_finite, Vector, VectorError, wrong_dims, non_finite, slots_exhausted,
}
use distr_hnsw.Hnsw.Graph.{Metric, HnswParams, Kernel, Links, Hnsw, new_hnsw, level_for, stored_row}
use distr_hnsw.Hnsw.Linking.{insert_links}

abbrev pub copies {ℓ} : {A : Type ℓ} → ℕ → A → List A
copies zero a = []
copies (suc n) a = a ∷ copies n a

-- A word of 64 clear bits is added when the words do not cover the slots.
abbrev pub grown : List Bool → ℕ → List Bool
grown bits slots = if ltb (length bits) slots then bits ++ copies 64 false else bits

-- Lists of neighbours for one more slot of the given level.
abbrev pub widened : Links → ℕ → Links
widened links level = record links {
  level0 = links.level0 ++ ([] ∷ []);
  upper = links.upper ++ (copies level [] ∷ []);
}

-- The index with one more row, its slot linked.
unfoldable pub inserted : Kernel → Hnsw → Vector → Hnsw
inserted k h v =
    let slot = length h.vectors in
    let rows = h.vectors ++ (stored_row k h.metric v ∷ []) in
    let level = level_for k h.params slot in
    record h {
      vectors = rows;
      levels = h.levels ++ (level ∷ []);
      tombstones = grown h.tombstones (length h.levels + 1);
      links = insert_links (k.distance h.metric) h.params rows slot level (widened h.links level);
    }

unfoldable pub insert_vector : Kernel → Hnsw → Vector → Result VectorError (Hnsw × ℕ)
insert_vector k h v =
    if not (length v == h.dims)
    then err (wrong_dims h.dims (length v))
    else if not (all_finite v)
    then err non_finite
    else if not (ltb (length h.vectors) (2 ^ 32))
    then err slots_exhausted
    else ok (inserted k h v, length h.vectors)

-- The levels of `count` slots from `slot` on.
abbrev pub levels_from : Kernel → HnswParams → ℕ → ℕ → List ℕ
levels_from k params slot zero = []
levels_from k params slot (suc count) =
    level_for k params (slot % 2 ^ 32) ∷ levels_from k params (slot + 1) count

unfoldable pub build_parallel :
    Kernel → (List Vector → Links) → ℕ → Metric → HnswParams → List Vector → Hnsw
build_parallel k linked dims metric params [] = new_hnsw dims metric params
build_parallel k linked dims metric params (v ∷ rows) = record {
  params = params;
  metric = metric;
  dims = dims;
  vectors = v ∷ rows;
  levels = levels_from k params 0 (length (v ∷ rows));
  links = linked (v ∷ rows);
  tombstones = copies ((length (v ∷ rows) + 63) / 64 * 64) false;
  tombstone_count = 0;
}
