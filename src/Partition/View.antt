-- ===== src/Partition/View.antt =====
-- The partition as a client sees it, a map from keys to live records, and `apply` as an update of
-- that map.
use distr_hnsw.Common.{
  refl, sym, ap, ◌∙◌, ◌==◌, bytes_eq→eq, ℕ, ◌<◌, ◌≡◌, Option, none, some, ok, get_elem?,
  if◌then◌else◌, inl, inr, Bool-cases, Option-cases, bytes_eq, ok_injective, false, arith,
}
use distr_hnsw.Common.ByteMap.{Bytes, lookup, lookup-insert, map_option}
use distr_hnsw.Wal.Entry.{Operation, upsert, delete, Entry}
use distr_hnsw.Partition.Index.{Vector, VectorIndex}
use distr_hnsw.Partition.State.{
  SlotRecord, KeyEntry, Memory, key_place, delete_known, apply_operation, apply,
}
use distr_hnsw.Partition.Consistent.{
  IsConsistent, row-retire, live-lt, others_not_retired, is_retired, get-mark,
}
use distr_hnsw.Partition.Upsert.{upserted, apply_upsert_ok, slot_new, in_new, get_upserted}
use distr_hnsw.Partition.Apply.{apply_ok}

pub record Live : Type 0 where
  pub vector : Option Vector
  pub payload : Bytes
  pub version : ℕ

abbrev pub live_of : Option Vector → SlotRecord → Live
live_of v r = record { vector = v; payload = r.payload; version = r.version }

module _ (x : VectorIndex) where
  abbrev pub view_at : Memory x → Option KeyEntry → Option Live
  view_at p none = none
  view_at p (some (i, none)) = none
  view_at p (some (i, some s)) = map_option (live_of (x.row p.index s)) (get_elem? p.slots s)

  -- The live record of a key: the row, the payload and the version of its live slot.
  abbrev pub view : Memory x → Bytes → Option Live
  view p key = view_at p (lookup key p.keys)

  -- What an entry does to the map.
  unfoldable pub updated : ℕ → Operation → (Bytes → Option Live) → Bytes → Option Live
  updated seq (upsert key payload v) m k =
      if bytes_eq key k
      then some (record { vector = some (x.stored v); payload = payload; version = seq })
      else m k
  updated seq (delete key) m k = if bytes_eq key k then none else m k

  module _ (p : Memory x) (c : IsConsistent x p) (key k : Bytes) where
    view-upserted :
        (seq : ℕ) (payload : Bytes) (v : Vector) (g : x.Graph) (slot : ℕ)
        → x.insert p.index v ≡ ok (g, slot)
        → view (upserted x p seq key payload g slot) k
          ≡ updated seq (upsert key payload v) (view p) k
    unfolding updated
    view-upserted seq payload v g slot done =
        let known = lookup key p.keys in
        let at = lookup-insert key k ((key_place known key p.key_table).0, some slot) p.keys in
        let get = get_upserted x p c seq key payload v g slot done in
        let fresh = slot_new x p c seq key payload v g slot done in
        let row =
          λ (s : ℕ). row-retire x known g p.slots s (in_new x p c seq key payload v g slot done) in
        elim (Bool-cases (bytes_eq key k)) [
          | inl same ↦
              rw (at, same)
                (ground (arith, get slot, fresh, row slot, x.row-insert_new p.index g v slot done))
          | inr other ↦
              rw (at, other)
                (elim (Option-cases (lookup k p.keys)) [
                  | inl absent ↦ ground (arith, absent)
                  | inr ((i, none), present) ↦ ground (arith, present)
                  | inr ((i, some s), present) ↦
                      let low = live-lt x p c k i s present in
                      let low' : s < x.len p.index = omega (arith, c.sized) in
                      ground (
                        arith,
                        present,
                        get s,
                        others_not_retired x p c key k i s other present,
                        row s,
                        x.row-insert_old p.index g v slot s done low',
                      )
                ])
        ]

    view-deleted :
        (seq : ℕ)
        → view (delete_known x p key (lookup key p.keys)) k ≡ updated seq (delete key) (view p) k
    unfolding updated
    view-deleted seq = by_entry (lookup key p.keys) refl
      where
        absent : view p key ≡ none → view p k ≡ (if bytes_eq key k then none else view p k)
        absent e = elim (Bool-cases (bytes_eq key k)) [
          | inl same ↦ rw (same) (ap (view p) (sym (bytes_eq→eq key k same)) ∙ e)
          | inr other ↦ rw (other) refl
        ]

        by_entry :
            (known : Option KeyEntry)
            → lookup key p.keys ≡ known
            → view (delete_known x p key known) k ≡ (if bytes_eq key k then none else view p k)
        by_entry none e = absent (ap (view_at p) e)
        by_entry (some (i, none)) e = absent (ap (view_at p) e)
        by_entry (some (i, some s)) e =
            let at = lookup-insert key k (i, none) p.keys in
            let low : s < x.len p.index = omega (arith, live-lt x p c key i s e, c.sized) in
            elim (Bool-cases (bytes_eq key k)) [
              | inl same ↦ rw (at, same) refl
              | inr other ↦
                  rw (at, other)
                    (elim (Option-cases (lookup k p.keys)) [
                      | inl gone ↦ ground (arith, gone)
                      | inr ((j, none), present) ↦ ground (arith, present)
                      | inr ((j, some t), present) ↦
                          let kept = others_not_retired x p c key k j t other present in
                          let apart : (s == t) ≡ false = ap (λ q. is_retired q t) (sym e) ∙ kept in
                          ground (
                            arith,
                            present,
                            get-mark p.slots s t,
                            apart,
                            x.row-tombstone p.index s t low,
                          )
                    ])
            ]

  -- Refinement: an entry that `apply` accepts in a consistent state changes the map from keys to live records as
  -- `updated` says. An upsert sets its key to the stored vector, the payload and the sequence
  -- number as the version, a delete removes its key, and every other key keeps its record.
  pub view-apply :
      (p p' : Memory x) (e : Entry) (k : Bytes)
      → IsConsistent x p
      → apply x p e ≡ ok p'
      → view p' k ≡ updated e.seq e.operation (view p) k
  unfolding apply_operation
  view-apply p p' e k c h =
      let (q, done, same) = apply_ok x p p' e h in
      ap (λ t. view t k) (sym same) ∙ by_operation q e.operation done
    where
      by_operation :
          (q : Memory x) (operation : Operation)
          → apply_operation x p e.seq operation ≡ ok q
          → view q k ≡ updated e.seq operation (view p) k
      by_operation q (upsert key payload v) done =
          let (_, g, slot, inserted, at) = apply_upsert_ok x p q e.seq key payload v done in
          ap (λ t. view t k) (sym at) ∙ view-upserted p c key k e.seq payload v g slot inserted
      by_operation q (delete key) done =
          ap (λ t. view t k) (sym (ok_injective done)) ∙ view-deleted p c key k e.seq
