-- ===== src/Hnsw/Graph.antt =====
-- hnsw.rs: `HnswParams`, `Far`, `Hnsw` and its lists of neighbours; vector.rs: `FlatVectors::push`.
-- A list of neighbours is the used part of its array; its length, a `u8` there, is at most `m0`, which
-- is 32 or 64. The quantized rows, which only a search reads,
-- are left out.
use Prim.Native.Nat.{bit_xor}
use distr_hnsw.Common.{
  ℕ, zero, suc, ◌+◌, ◌*◌, ◌/◌, ◌%◌, ◌^◌, Bool, true, false, not, ◌&&◌, ◌||◌, Option, none, some,
  List, [], ◌∷◌, length, get_elem?, ltb, if◌then◌else◌,
}
use distr_hnsw.Common.Distance.{Distance, lt_distance}
use distr_hnsw.Partition.Index.{Vector}

pub data Metric : Type 0 where
  cosine dot l2 : Metric

pub record HnswParams : Type 0 where
  pub m : ℕ
  pub m0 : ℕ
  pub ef_construction : ℕ
  pub seed : ℕ

-- What is computed in floating point: the distance of two rows, the normal form of a row, and the
-- geometric draw of a level from 53 random bits with the multiplier `1 / ln m`.
pub record Kernel : Type 0 where
  pub distance : Metric → Vector → Vector → Distance
  pub normalize : Vector → Vector
  pub draw : ℕ → ℕ → ℕ

pub record Far : Type 0 where
  pub distance : Distance
  pub slot : ℕ

-- `Far::cmp` gives `Less`: by distance where the distances compare, then by slot.
abbrev pub far_lt : Far → Far → Bool
far_lt a b =
    lt_distance a.distance b.distance
    || (not (lt_distance b.distance a.distance) && ltb a.slot b.slot)

-- The links of the graph: the neighbours of each slot at level 0, and of each slot and level above.
pub record Links : Type 0 where
  pub level0 : List (List ℕ)
  pub upper : List (List (List ℕ))
  pub entry : Option ℕ
  pub max_level : ℕ

-- `tombstones` are the bits of its words, 64 a word.
pub record Hnsw : Type 0 where
  pub params : HnswParams
  pub metric : Metric
  pub dims : ℕ
  pub vectors : List Vector
  pub levels : List ℕ
  pub links : Links
  pub tombstones : List Bool
  pub tombstone_count : ℕ

unfoldable pub new_hnsw : ℕ → Metric → HnswParams → Hnsw
new_hnsw dims metric params = record {
  params = params;
  metric = metric;
  dims = dims;
  vectors = [];
  levels = [];
  links = record { level0 = []; upper = []; entry = none; max_level = 0 };
  tombstones = [];
  tombstone_count = 0;
}

abbrev pub get_bit : List Bool → ℕ → Bool
get_bit [] i = false
get_bit (b ∷ bits) zero = b
get_bit (b ∷ bits) (suc i) = get_bit bits i

abbrev pub set_bit : List Bool → ℕ → List Bool
set_bit [] i = []
set_bit (b ∷ bits) zero = true ∷ bits
set_bit (b ∷ bits) (suc i) = b ∷ set_bit bits i

abbrev pub is_tombstoned : Hnsw → ℕ → Bool
is_tombstoned h slot = get_bit h.tombstones slot

-- A slot out of range panics, with the index as it was.
unfoldable pub tombstone : Hnsw → ℕ → Hnsw
tombstone h slot =
    if not (ltb slot (length h.levels))
    then h
    else if get_bit h.tombstones slot
    then h
    else record h {
      tombstones = set_bit h.tombstones slot;
      tombstone_count = h.tombstone_count + 1;
    }

-- splitmix64 over the seed and the slot; products and sums wrap at 2 ^ 64.
abbrev pub mix : ℕ → ℕ → ℕ → ℕ
mix x shift factor = (bit_xor x (x / 2 ^ shift) * factor) % 2 ^ 64

unfoldable pub level_bits : ℕ → ℕ → ℕ
level_bits seed slot =
    let x =
      bit_xor ((seed * 0x9E37_79B9_7F4A_7C15) % 2 ^ 64) ((slot + 0x6A09_E667_F3BC_C909) % 2 ^ 64) in
    let y = (x + 0x9E37_79B9_7F4A_7C15) % 2 ^ 64 in
    let z = mix (mix y 30 0xBF58_476D_1CE4_E5B9) 27 0x94D0_49BB_1331_11EB in
    bit_xor z (z / 2 ^ 31) / 2 ^ 11

unfoldable pub level_for : Kernel → HnswParams → ℕ → ℕ
level_for k params slot =
    let level = k.draw params.m (level_bits params.seed slot) in if ltb level 31 then level else 31

-- What `push` stores of a vector
abbrev pub stored_row : Kernel → Metric → Vector → Vector
stored_row k cosine v = k.normalize v
stored_row k dot v = v
stored_row k l2 v = v

abbrev pub row_of : List Vector → ℕ → Vector
row_of rows slot = elim (get_elem? rows slot) [ none ↦ [] | some v ↦ v ]

-- The element at an index of a list of lists, and its replacement.
abbrev pub list_at {ℓ} : {A : Type ℓ} → List (List A) → ℕ → List A
list_at [] i = []
list_at (xs ∷ xss) zero = xs
list_at (xs ∷ xss) (suc i) = list_at xss i

abbrev pub set_at {ℓ} : {A : Type ℓ} → List A → ℕ → A → List A
set_at [] i y = []
set_at (x ∷ xs) zero y = y ∷ xs
set_at (x ∷ xs) (suc i) y = x ∷ set_at xs i y

unfoldable pub neighbours : Links → ℕ → ℕ → List ℕ
neighbours links slot zero = list_at links.level0 slot
neighbours links slot (suc index) = list_at (list_at links.upper slot) index

unfoldable pub set_neighbours : Links → ℕ → ℕ → List ℕ → Links
set_neighbours links slot zero list = record links { level0 = set_at links.level0 slot list }
set_neighbours links slot (suc index) list = record links {
  upper = set_at links.upper slot (set_at (list_at links.upper slot) index list);
}

abbrev pub capacity : HnswParams → ℕ → ℕ
capacity params zero = params.m0
capacity params (suc index) = params.m
