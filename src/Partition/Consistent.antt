-- ===== src/Partition/Consistent.antt =====
-- The invariant that ties keys, slots and the index together, and the parts of an update.
use distr_hnsw.Common.{
  ℕ, zero, suc, ◌<◌, ◌≤◌, ◌≡◌, refl, ap, Bool, true, false, Option, none, some, List, [], ◌∷◌, ◌++◌,
  length, get_elem?, get_elem?-lt, ◌==◌, if◌then◌else◌, inl, inr, Bool-cases, bytes_eq,
  bytes_eq_refl, ==_iff, subst, arith,
}
use distr_hnsw.Common.ByteMap.{Bytes, lookup, map_option}
use distr_hnsw.Partition.WindowLaws.{IsWindow}
use distr_hnsw.Partition.Index.{VectorIndex}
use distr_hnsw.Partition.State.{SlotRecord, KeyEntry, mark, Memory, retire}

-- A slot has one record; a key's live slot carries the key's index and is not masked; the record
-- and the index agree on what is masked, and every slot that is not masked is some key's live one.
pub record IsConsistent (x : VectorIndex) (p : Memory x) : Type 0 where
  pub sized : length p.slots ≡ x.len p.index
  pub in_table :
      (k : Bytes) (i : ℕ) (l : Option ℕ)
      → lookup k p.keys ≡ some (i, l)
      → get_elem? p.key_table i ≡ some k
  pub live :
      (k : Bytes) (i s : ℕ)
      → lookup k p.keys ≡ some (i, some s)
      → (r : SlotRecord) × (get_elem? p.slots s ≡ some r)
        × (r.tombstone ≡ false)
        × (r.key_index ≡ i)
  pub masked :
      (s : ℕ) (r : SlotRecord)
      → get_elem? p.slots s ≡ some r
      → x.is_tombstoned p.index s ≡ r.tombstone
  pub owned :
      (s : ℕ) (r : SlotRecord)
      → get_elem? p.slots s ≡ some r
      → r.tombstone ≡ false
      → (k : Bytes) × (lookup k p.keys ≡ some (r.key_index, some s))
  pub window : IsWindow p.idempotency

abbrev pub marked : SlotRecord → SlotRecord
marked r = record r { tombstone = true }

pub get-mark :
    (rs : List SlotRecord) (i j : ℕ)
    → get_elem? (mark rs i) j
      ≡ (if i == j then map_option marked (get_elem? rs j) else get_elem? rs j)
get-mark [] i j = ground arith
get-mark (r ∷ rs) zero zero = refl
get-mark (r ∷ rs) zero (suc j) = ground arith
get-mark (r ∷ rs) (suc i) zero = ground arith
get-mark (r ∷ rs) (suc i) (suc j) = ground (arith, get-mark rs i j)

pub length-mark : (rs : List SlotRecord) (i : ℕ) → length (mark rs i) ≡ length rs
length-mark [] i = refl
length-mark (r ∷ rs) zero = refl
length-mark (r ∷ rs) (suc i) = ap suc (length-mark rs i)

pub get-snoc {ℓ} :
    {A : Type ℓ} (xs : List A) (a : A) (j : ℕ)
    → get_elem? (xs ++ (a ∷ [])) j ≡ (if j == length xs then some a else get_elem? xs j)
get-snoc [] a zero = refl
get-snoc [] a (suc j) = ground arith
get-snoc (x ∷ xs) a zero = ground arith
get-snoc (x ∷ xs) a (suc j) = ground (arith, get-snoc xs a j)

-- Whether `retire` masks the slot `s`.
abbrev pub is_retired : Option KeyEntry → ℕ → Bool
is_retired none s = false
is_retired (some (i, none)) s = false
is_retired (some (i, some previous)) s = previous == s

-- The live slot of the entry, if any, lies in the graph.
abbrev pub InGraph : ℕ → Option KeyEntry → Type 0
InGraph n none = Unit
InGraph n (some (i, none)) = Unit
InGraph n (some (i, some previous)) = previous < n

module _ (x : VectorIndex) where
  pub get-retire :
      (known : Option KeyEntry) (g : x.Graph) (slots : List SlotRecord) (s : ℕ)
      → get_elem? (retire x known g slots).1 s
        ≡ (if is_retired known s then map_option marked (get_elem? slots s) else get_elem? slots s)
  get-retire none g slots s = refl
  get-retire (some (i, none)) g slots s = refl
  get-retire (some (i, some previous)) g slots s = get-mark slots previous s

  pub length-retire :
      (known : Option KeyEntry) (g : x.Graph) (slots : List SlotRecord)
      → length (retire x known g slots).1 ≡ length slots
  length-retire none g slots = refl
  length-retire (some (i, none)) g slots = refl
  length-retire (some (i, some previous)) g slots = length-mark slots previous

  pub len-retire :
      (known : Option KeyEntry) (g : x.Graph) (slots : List SlotRecord)
      → InGraph (x.len g) known
      → x.len (retire x known g slots).0 ≡ x.len g
  len-retire none g slots h = refl
  len-retire (some (i, none)) g slots h = refl
  len-retire (some (i, some previous)) g slots h = x.len-tombstone g previous h

  pub row-retire :
      (known : Option KeyEntry) (g : x.Graph) (slots : List SlotRecord) (s : ℕ)
      → InGraph (x.len g) known
      → x.row (retire x known g slots).0 s ≡ x.row g s
  row-retire none g slots s h = refl
  row-retire (some (i, none)) g slots s h = refl
  row-retire (some (i, some previous)) g slots s h = x.row-tombstone g previous s h

  pub tombstoned-retire :
      (known : Option KeyEntry) (g : x.Graph) (slots : List SlotRecord) (s : ℕ)
      → InGraph (x.len g) known
      → x.is_tombstoned (retire x known g slots).0 s
        ≡ (if is_retired known s then true else x.is_tombstoned g s)
  tombstoned-retire none g slots s h = refl
  tombstoned-retire (some (i, none)) g slots s h = refl
  tombstoned-retire (some (i, some previous)) g slots s h = x.tombstoned-tombstone g previous s h

  module _ (p : Memory x) (c : IsConsistent x p) where
    pub live-lt : (k : Bytes) (i s : ℕ) → lookup k p.keys ≡ some (i, some s) → s < length p.slots
    live-lt k i s h = let (r, at, _, _) = c.live k i s h in get_elem?-lt p.slots s r at

    -- Two keys have the same live slot only if they are the same key.
    pub live_injective :
        (k j : Bytes) (i i' s : ℕ)
        → lookup k p.keys ≡ some (i, some s)
        → lookup j p.keys ≡ some (i', some s)
        → k ≡ j
    live_injective k j i i' s h h' =
        let (r, at, _, index) = c.live k i s h in
        let (r', at', _, index') = c.live j i' s h' in
        ground
          (arith, at, at', index, index', c.in_table k i (some s) h, c.in_table j i' (some s) h')

    -- A key's update masks no other key's slot.
    pub others_not_retired :
        (key k : Bytes) (i s : ℕ)
        → bytes_eq key k ≡ false
        → lookup k p.keys ≡ some (i, some s)
        → is_retired (lookup key p.keys) s ≡ false
    others_not_retired key k i s ne h = by_entry (lookup key p.keys) refl
      where
        by_entry :
            (known : Option KeyEntry) → lookup key p.keys ≡ known → is_retired known s ≡ false
        by_entry none e = refl
        by_entry (some (j, none)) e = refl
        by_entry (some (j, some previous)) e = elim (Bool-cases (previous == s)) [
          | inl same ↦
              let at : previous ≡ s = (==_iff previous s).0 same in
              let one =
                live_injective key k j i s (subst (λ t. lookup key p.keys ≡ some (j, some t)) at e)
                  h in
              absurd (ground (arith, one, ne, bytes_eq_refl key))
          | inr other ↦ other
        ]

    pub in_graph : (key : Bytes) (n : ℕ) → length p.slots ≤ n → InGraph n (lookup key p.keys)
    in_graph key n h = by_entry (lookup key p.keys) refl
      where
        by_entry : (known : Option KeyEntry) → lookup key p.keys ≡ known → InGraph n known
        by_entry none e = tt
        by_entry (some (j, none)) e = tt
        by_entry (some (j, some previous)) e = omega (arith, live-lt key j previous e)
