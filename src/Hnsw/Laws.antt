-- ===== src/Hnsw/Laws.antt =====
-- The rows, slots and masks of an index behind `insert`, `tombstone` and `build_parallel`.
use distr_hnsw.Common.{
  ℕ, zero, suc, ◌+◌, ◌/◌, ◌*◌, ◌^◌, ◌≤◌, ◌<◌, ◌≡◌, refl, sym, ap, ◌∙◌, inl, inr, Bool, true, false,
  some, List, [], ◌∷◌, ◌++◌, length, length-append, get_elem?, ltb, ◌==◌, if◌then◌else◌, ok,
  Bool-cases, arith,
}
use distr_hnsw.Partition.Index.{all_finite, Vector}
use distr_hnsw.Hnsw.Graph.{
  Metric, HnswParams, Kernel, Links, Hnsw, new_hnsw, get_bit, set_bit, is_tombstoned, tombstone,
}
use distr_hnsw.Hnsw.Index.{copies, grown, inserted, insert_vector, levels_from, build_parallel}

-- The words of the masks cover the slots, and no bit behind the slots is set.
pub record IsSound (dims : ℕ) (metric : Metric) (h : Hnsw) : Type 0 where
  pub same_dims : h.dims ≡ dims
  pub same_metric : h.metric ≡ metric
  pub rows_levels : length h.vectors ≡ length h.levels
  pub covered : length h.levels ≤ length h.tombstones
  pub clear : (i : ℕ) → length h.levels ≤ i → get_bit h.tombstones i ≡ false

pub get_bit-copies : (n i : ℕ) → get_bit (copies n false) i ≡ false
get_bit-copies zero i = refl
get_bit-copies (suc n) zero = refl
get_bit-copies (suc n) (suc i) = get_bit-copies n i

length-copies : (n : ℕ) → length (copies n false) ≡ n
length-copies zero = refl
length-copies (suc n) = ap suc (length-copies n)

get_bit-append : (bits : List Bool) (n i : ℕ) → get_bit (bits ++ copies n false) i ≡ get_bit bits i
get_bit-append [] n i = get_bit-copies n i
get_bit-append (b ∷ bits) n zero = refl
get_bit-append (b ∷ bits) n (suc i) = get_bit-append bits n i

pub get_bit-grown : (bits : List Bool) (slots i : ℕ) → get_bit (grown bits slots) i ≡ get_bit bits i
get_bit-grown bits slots i = elim (Bool-cases (ltb (length bits) slots)) [
  | inl short ↦ rw short (get_bit-append bits 64 i)
  | inr long ↦ rw long refl
]

length-grown :
    (bits : List Bool) (slots : ℕ)
    → slots ≤ length bits
    → slots + 1 ≤ length (grown bits (slots + 1))
length-grown bits slots h = elim (Bool-cases (ltb (length bits) (slots + 1))) [
  | inl short ↦ rw short (omega (arith, length-append bits (copies 64 false), length-copies 64))
  | inr long ↦ rw long (ground (arith, long))
]

length-set_bit : (bits : List Bool) (i : ℕ) → length (set_bit bits i) ≡ length bits
length-set_bit [] i = refl
length-set_bit (b ∷ bits) zero = refl
length-set_bit (b ∷ bits) (suc i) = ap suc (length-set_bit bits i)

pub get_bit-set_bit :
    (bits : List Bool) (s i : ℕ)
    → s < length bits
    → get_bit (set_bit bits s) i ≡ (if s == i then true else get_bit bits i)
get_bit-set_bit [] s i h = elim h [ ]
get_bit-set_bit (b ∷ bits) zero zero h = refl
get_bit-set_bit (b ∷ bits) zero (suc i) h = ground arith
get_bit-set_bit (b ∷ bits) (suc s) zero h = ground arith
get_bit-set_bit (b ∷ bits) (suc s) (suc i) h =
    ground (arith, get_bit-set_bit bits s i (omega arith))

pub length-levels_from :
    (k : Kernel) (params : HnswParams) (slot n : ℕ) → length (levels_from k params slot n) ≡ n
length-levels_from k params slot zero = refl
length-levels_from k params slot (suc n) = ap suc (length-levels_from k params (slot + 1) n)

pub row-last :
    (rows : List Vector) (v : Vector) → get_elem? (rows ++ (v ∷ [])) (length rows) ≡ some v
row-last [] v = refl
row-last (r ∷ rows) v = row-last rows v

pub row-before :
    (rows : List Vector) (v : Vector) (i : ℕ)
    → i < length rows
    → get_elem? (rows ++ (v ∷ [])) i ≡ get_elem? rows i
row-before [] v i h = elim h [ ]
row-before (r ∷ rows) v zero h = refl
row-before (r ∷ rows) v (suc i) h = row-before rows v i (omega arith)

-- When `insert` accepts a vector, and what it then returns.
pub insert_ok :
    (k : Kernel) (h h' : Hnsw) (v : Vector) (s : ℕ)
    → insert_vector k h v ≡ ok (h', s)
    → (length v ≡ h.dims)
      × (all_finite v ≡ true)
      × (length h.vectors < 2 ^ 32)
      × (inserted k h v ≡ h')
      × (length h.vectors ≡ s)
unfolding insert_vector
insert_ok k h h' v s e = ground arith

pub insert_accepted :
    (k : Kernel) (h : Hnsw) (v : Vector)
    → length v ≡ h.dims
    → all_finite v ≡ true
    → length h.vectors < 2 ^ 32
    → insert_vector k h v ≡ ok (inserted k h v, length h.vectors)
unfolding insert_vector
insert_accepted k h v size finite room = ground (arith, size, finite, room)

module _ (k : Kernel) (linked : List Vector → Links) (dims : ℕ) (metric : Metric)
    (params : HnswParams) where
  pub inserted-IsSound :
      (h : Hnsw) (v : Vector) → IsSound dims metric h → IsSound dims metric (inserted k h v)
  unfolding inserted
  inserted-IsSound h v i =
      let levels = length-append h.levels in
      let rows = length-append h.vectors in
      record {
        same_dims = i.same_dims;
        same_metric = i.same_metric;
        rows_levels = omega (arith, levels (_ ∷ []), rows (_ ∷ []), i.rows_levels);
        covered =
            omega (arith, levels (_ ∷ []), length-grown h.tombstones (length h.levels) i.covered);
        clear = λ j far.
            get_bit-grown h.tombstones (length h.levels + 1) j
            ∙ i.clear j (omega (arith, levels (_ ∷ []), far));
      }

  pub tombstone-IsSound :
      (h : Hnsw) (s : ℕ) → IsSound dims metric h → IsSound dims metric (tombstone h s)
  unfolding tombstone
  tombstone-IsSound h s i = elim (Bool-cases (ltb s (length h.levels))) [
    | inr out ↦ rw out i
    | inl low ↦ elim (Bool-cases (get_bit h.tombstones s)) [
      | inl set ↦ rw (low, set) i
      | inr unset ↦
          rw (low, unset)
            (record {
              same_dims = i.same_dims;
              same_metric = i.same_metric;
              rows_levels = i.rows_levels;
              covered = omega (arith, i.covered, length-set_bit h.tombstones s);
              clear = λ j far.
                  let at = get_bit-set_bit h.tombstones s j (ground (arith, low, i.covered)) in
                  let blank = i.clear j far in ground (arith, at, blank, low, far);
            })
    ]
  ]

  pub new_hnsw-IsSound : IsSound dims metric (new_hnsw dims metric params)
  unfolding new_hnsw
  new_hnsw-IsSound = record {
    same_dims = refl;
    same_metric = refl;
    rows_levels = refl;
    covered = omega arith;
    clear = λ i low. refl;
  }

  pub build-IsSound :
      (rows : List Vector) → IsSound dims metric (build_parallel k linked dims metric params rows)
  unfolding build_parallel new_hnsw
  build-IsSound [] = new_hnsw-IsSound
  build-IsSound (v ∷ rows) = record {
    same_dims = refl;
    same_metric = refl;
    rows_levels = sym (length-levels_from k params 0 (length (v ∷ rows)));
    covered = omega (
      arith,
      length-levels_from k params 0 (length (v ∷ rows)),
      length-copies ((length (v ∷ rows) + 63) / 64 * 64),
    );
    clear = λ i low. get_bit-copies ((length (v ∷ rows) + 63) / 64 * 64) i;
  }

  -- What a mask does to the fields that the interface speaks of.
  pub tombstone_kept :
      (h : Hnsw) (s : ℕ)
      → ((tombstone h s).vectors ≡ h.vectors) × ((tombstone h s).levels ≡ h.levels)
  unfolding tombstone
  tombstone_kept h s = elim (Bool-cases (ltb s (length h.levels))) [
    | inr out ↦ rw out (refl, refl)
    | inl low ↦ elim (Bool-cases (get_bit h.tombstones s)) [
      | inl set ↦ rw (low, set) (refl, refl)
      | inr unset ↦ rw (low, unset) (refl, refl)
    ]
  ]

  pub bit-tombstone :
      (h : Hnsw) (s i : ℕ)
      → IsSound dims metric h
      → s < length h.levels
      → is_tombstoned (tombstone h s) i ≡ (if s == i then true else is_tombstoned h i)
  unfolding tombstone
  bit-tombstone h s i sound low =
      let at = get_bit-set_bit h.tombstones s i (omega (arith, low, sound.covered)) in
      elim (Bool-cases (get_bit h.tombstones s)) [
        | inl set ↦ ground (arith, set, low)
        | inr unset ↦ ground (arith, unset, low, at)
      ]
