-- ===== src/Partition/Index.antt =====
-- The vector index as the partition uses it: the operations of `Hnsw` that `partition.rs` calls on
-- slots, rows and tombstones, with what it relies on; Hnsw.Instance shows that the model of `Hnsw`
-- fills it. A vector is the list of its `f32` bit patterns.
use distr_hnsw.Common.{
  ℕ, ◌/◌, ◌%◌, ◌^◌, ◌&&◌, not, [], ◌∷◌, ◌+◌, ◌≤◌, ◌<◌, ◌≡◌, Bool, true, false, Option, some, List,
  length, get_elem?, ◌==◌, if◌then◌else◌, Result, ok,
}

abbrev pub Vector : Type 0
Vector = List ℕ

-- `is_finite` on the bit pattern of an `f32`: the exponent is not all ones.
abbrev pub is_finite : ℕ → Bool
is_finite bits = not ((bits / 2 ^ 23) % 256 == 255)

abbrev pub all_finite : Vector → Bool
all_finite [] = true
all_finite (v ∷ vs) = is_finite v && all_finite vs

-- vector.rs: `VectorError`, and the panic of `insert` in hnsw.rs when the slots of 32 bits are used up
pub data VectorError : Type 0 where
  zero_dims non_finite mapped_region_out_of_bounds mapped_region_misaligned : VectorError
  slots_exhausted : VectorError
  ragged wrong_dims : ℕ → ℕ → VectorError

pub record VectorIndex : Type 1 where
  pub Graph : Type 0
  pub new : Graph
  pub len : Graph → ℕ
  -- the full-precision row of a slot
  pub row : Graph → ℕ → Option Vector
  pub is_tombstoned : Graph → ℕ → Bool
  pub insert : Graph → Vector → Result VectorError (Graph × ℕ)
  pub tombstone : Graph → ℕ → Graph
  -- `build_parallel`, over rows that are stored as they stand
  pub build : List Vector → Graph
  -- what `insert` stores of a vector
  pub stored : Vector → Vector
  pub len-new : len new ≡ 0
  pub insert-slot : (g g' : Graph) (v : Vector) (s : ℕ) → insert g v ≡ ok (g', s) → s ≡ len g
  -- whether a vector is accepted depends on no row, only on the room that is left
  pub insert-accepts :
      (g g' h : Graph) (v : Vector) (s : ℕ)
      → insert g v ≡ ok (g', s)
      → len h ≤ len g
      → (h' : Graph) × (t : ℕ) × (insert h v ≡ ok (h', t))
  pub len-insert :
      (g g' : Graph) (v : Vector) (s : ℕ) → insert g v ≡ ok (g', s) → len g' ≡ len g + 1
  pub row-insert_new :
      (g g' : Graph) (v : Vector) (s : ℕ) → insert g v ≡ ok (g', s) → row g' s ≡ some (stored v)
  pub row-insert_old :
      (g g' : Graph) (v : Vector) (s i : ℕ)
      → insert g v ≡ ok (g', s)
      → i < len g
      → row g' i ≡ row g i
  pub tombstoned-insert_new :
      (g g' : Graph) (v : Vector) (s : ℕ) → insert g v ≡ ok (g', s) → is_tombstoned g' s ≡ false
  pub tombstoned-insert_old :
      (g g' : Graph) (v : Vector) (s i : ℕ)
      → insert g v ≡ ok (g', s)
      → i < len g
      → is_tombstoned g' i ≡ is_tombstoned g i
  pub len-tombstone : (g : Graph) (s : ℕ) → s < len g → len (tombstone g s) ≡ len g
  pub row-tombstone : (g : Graph) (s i : ℕ) → s < len g → row (tombstone g s) i ≡ row g i
  pub tombstoned-tombstone :
      (g : Graph) (s i : ℕ)
      → s < len g
      → is_tombstoned (tombstone g s) i ≡ (if s == i then true else is_tombstoned g i)
  pub len-build : (rows : List Vector) → len (build rows) ≡ length rows
  pub row-build : (rows : List Vector) (i : ℕ) → row (build rows) i ≡ get_elem? rows i
  pub tombstoned-build : (rows : List Vector) (i : ℕ) → is_tombstoned (build rows) i ≡ false
