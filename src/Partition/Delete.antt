-- ===== src/Partition/Delete.antt =====
-- An applied delete keeps the partition consistent.
use distr_hnsw.Common.{
  ℕ, ◌<◌, ◌≡◌, sym, subst, ap, ◌∙◌, false, Option, none, some, get_elem?, ◌==◌, if◌then◌else◌, inl,
  inr, Bool-cases, bytes_eq, bytes_eq→eq, arith,
}
use distr_hnsw.Common.ByteMap.{Bytes, lookup, insert, lookup-insert}
use distr_hnsw.Partition.Index.{VectorIndex}
use distr_hnsw.Partition.State.{SlotRecord, KeyEntry, mark, Memory, delete_known}
use distr_hnsw.Partition.Consistent.{
  IsConsistent, is_retired, get-mark, length-mark, live-lt, others_not_retired,
}

module _ (x : VectorIndex) where
  module _ (p : Memory x) (c : IsConsistent x p) (key : Bytes) where
    -- A delete of a key with the live slot `s`.
    pub deleted-IsConsistent :
        (i s : ℕ)
        → lookup key p.keys ≡ some (i, some s)
        → IsConsistent x (delete_known x p key (some (i, some s)))
    deleted-IsConsistent i s h =
        let low = live-lt x p c key i s h in
        let low' : s < x.len p.index = omega (arith, c.sized) in
        record {
          sized = omega (arith, length-mark p.slots s, x.len-tombstone p.index s low', c.sized);
          in_table = λ k j l e. in_table k j l e;
          live = λ k j t e. live k j t e;
          masked = λ t r e. masked low' t r e;
          owned = λ t r e awake. owned t r e awake;
          window = c.window;
        }
      where
        at :
            (k : Bytes)
            → lookup k (insert key (i, none) p.keys)
              ≡ (if bytes_eq key k then some (i, none) else lookup k p.keys)
        at k = lookup-insert key k (i, none) p.keys

        in_table :
            (k : Bytes) (j : ℕ) (l : Option ℕ)
            → lookup k (insert key (i, none) p.keys) ≡ some (j, l)
            → get_elem? p.key_table j ≡ some k
        in_table k j l e = elim (Bool-cases (bytes_eq key k)) [
          | inl same ↦
              let eq : ◌≡◌ {A = Option KeyEntry} (some (i, none)) (some (j, l)) =
                sym (at k ∙ rw same) ∙ e in
              let index : i ≡ j = ground arith in
              subst (λ t. get_elem? p.key_table t ≡ some k) index
                (c.in_table key i (some s) h ∙ ap some (bytes_eq→eq key k same))
          | inr other ↦ c.in_table k j l (sym (at k ∙ rw other) ∙ e)
        ]

        live :
            (k : Bytes) (j t : ℕ)
            → lookup k (insert key (i, none) p.keys) ≡ some (j, some t)
            → (r : SlotRecord) × (get_elem? (mark p.slots s) t ≡ some r)
              × (r.tombstone ≡ false)
              × (r.key_index ≡ j)
        live k j t e = elim (Bool-cases (bytes_eq key k)) [
          | inl same ↦ ground (arith, at k, same, e)
          | inr other ↦
              let old : lookup k p.keys ≡ some (j, some t) = sym (at k ∙ rw other) ∙ e in
              let (r, here, awake, index) = c.live k j t old in
              let apart =
                ap (λ q. is_retired q t) (sym h) ∙ others_not_retired x p c key k j t other old in
              (r, get-mark p.slots s t ∙ rw apart here, awake, index)
        ]

        masked :
            s < x.len p.index
            → (t : ℕ) (r : SlotRecord) → get_elem? (mark p.slots s) t ≡ some r
            → x.is_tombstoned (x.tombstone p.index s) t ≡ r.tombstone
        masked low t r e = elim (Bool-cases (s == t)) [
          | inl gone ↦
              ground (arith, get-mark p.slots s t, gone, x.tombstoned-tombstone p.index s t low)
          | inr kept ↦
              let here : get_elem? p.slots t ≡ some r =
                ground (arith, get-mark p.slots s t, kept) in
              ground (arith, x.tombstoned-tombstone p.index s t low, kept, c.masked t r here)
        ]

        owned :
            (t : ℕ) (r : SlotRecord)
            → get_elem? (mark p.slots s) t ≡ some r
            → r.tombstone ≡ false
            → (k : Bytes) × (lookup k (insert key (i, none) p.keys) ≡ some (r.key_index, some t))
        owned t r e awake = elim (Bool-cases (s == t)) [
          | inl gone ↦ ground (arith, get-mark p.slots s t, gone)
          | inr kept ↦
              let here : get_elem? p.slots t ≡ some r =
                ground (arith, get-mark p.slots s t, kept) in
              let (k, owner) = c.owned t r here awake in
              (k, at k ∙ rw (apart k r.key_index t owner kept) owner)
        ]
          where
            apart :
                (k : Bytes) (j t : ℕ)
                → lookup k p.keys ≡ some (j, some t)
                → (s == t) ≡ false
                → bytes_eq key k ≡ false
            apart k j t owner kept = elim (Bool-cases (bytes_eq key k)) [
              | inr other ↦ other
              | inl same ↦
                  let mine = ap (λ q. lookup q p.keys) (bytes_eq→eq key k same) ∙ owner in
                  absurd (ground (arith, mine, h, kept))
            ]
