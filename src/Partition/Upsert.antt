-- ===== src/Partition/Upsert.antt =====
-- An applied upsert keeps the partition consistent.
use distr_hnsw.Common.{
  ℕ, ◌+◌, ◌^◌, ◌<◌, ◌≡◌, refl, sym, subst, ap, ap₂, ◌∙◌, true, false, Option, none, some, [], ◌∷◌,
  ◌++◌, length, length-append, get_elem?, get_elem?-lt, get_elem?-append_left,
  get_elem?-append_last, ◌==◌, ==_iff, ==_refl, if◌then◌else◌, inl, inr, Bool-cases, bytes_eq,
  bytes_eq→eq, bytes_eq_refl, ok, Result-cases, ok_injective, arith,
}
use distr_hnsw.Common.ByteMap.{Bytes, lookup, insert, lookup-insert, map_option}
use distr_hnsw.Partition.Index.{Vector, VectorIndex}
use distr_hnsw.Partition.State.{SlotRecord, KeyEntry, key_place, Memory, retire, apply_upsert}
use distr_hnsw.Partition.Consistent.{
  IsConsistent, is_retired, InGraph, marked, get-snoc, get-retire, length-retire, len-retire,
  tombstoned-retire, live-lt, others_not_retired, in_graph,
}

module _ (x : VectorIndex) where
  -- The state after an upsert whose vector went into the graph `g` as the slot `slot`.
  abbrev pub upserted : Memory x → ℕ → Bytes → Bytes → x.Graph → ℕ → Memory x
  upserted p seq key payload g slot =
      let known = lookup key p.keys in
      let (i, table) = key_place known key p.key_table in
      let (g', slots) = retire x known g p.slots in
      record p {
        index = g';
        key_table = table;
        keys = insert key (i, some slot) p.keys;
        slots =
            slots
            ++ (record { version = seq; tombstone = false; key_index = i; payload = payload } ∷ []);
      }

  pub apply_upsert_ok :
      (p p' : Memory x) (seq : ℕ) (key payload : Bytes) (v : Vector)
      → apply_upsert x p seq key payload v ≡ ok p'
      → (length v ≡ p.dims)
        × (g : x.Graph) × (slot : ℕ) × (x.insert p.index v ≡ ok (g, slot))
        × (upserted p seq key payload g slot ≡ p')
  unfolding apply_upsert
  apply_upsert_ok p p' seq key payload v h = elim (Bool-cases (length v == p.dims)) [
    | inr bad ↦ ground (arith, bad)
    | inl good ↦ elim (Result-cases (x.insert p.index v)) [
      | inr (e, fails) ↦ ground (arith, good, fails)
      | inl ((g, slot), done) ↦
          ((==_iff (length v) p.dims).0 good, g, slot, done, ok_injective (simp (good, done) at h))
    ]
  ]

  module _ (p : Memory x) (c : IsConsistent x p) (seq : ℕ) (key payload : Bytes) (v : Vector)
      (g : x.Graph) (slot : ℕ) (done : x.insert p.index v ≡ ok (g, slot)) where
    pub slot_new : slot ≡ length p.slots
    slot_new = x.insert-slot p.index g v slot done ∙ sym c.sized

    pub size_new : x.len g ≡ length p.slots + 1
    size_new = omega (arith, x.len-insert p.index g v slot done, c.sized)

    pub in_new : InGraph (x.len g) (lookup key p.keys)
    in_new = in_graph x p c key (x.len g) (omega (arith, size_new))

    -- The slots after the update, one by one.
    pub get_upserted :
        (s : ℕ)
        → get_elem? (upserted p seq key payload g slot).slots s ≡ (
            if s == length p.slots
            then some (record {
              version = seq;
              tombstone = false;
              key_index = (key_place (lookup key p.keys) key p.key_table).0;
              payload = payload;
            })
            else if is_retired (lookup key p.keys) s
            then map_option marked (get_elem? p.slots s)
            else get_elem? p.slots s)
    get_upserted s =
        let known = lookup key p.keys in
        ground (
          arith,
          get-snoc (retire x known g p.slots).1
              (record {
                version = seq;
                tombstone = false;
                key_index = (key_place known key p.key_table).0;
                payload = payload;
              })
              s,
          length-retire x known g p.slots,
          get-retire x known g p.slots s,
        )

    not_retired_new : is_retired (lookup key p.keys) (length p.slots) ≡ false
    not_retired_new =
        by_entry (lookup key p.keys) (in_graph x p c key (length p.slots) (omega arith))
      where
        by_entry :
            (known : Option KeyEntry)
            → InGraph (length p.slots) known
            → is_retired known (length p.slots) ≡ false
        by_entry none h = refl
        by_entry (some (i, none)) h = refl
        by_entry (some (i, some previous)) h = ground arith

    in_table_place :
        length p.key_table < 2 ^ 32
        → (k : Bytes) → bytes_eq key k ≡ true
        → get_elem?
            (upserted p seq key payload g slot).key_table
            (key_place (lookup key p.keys) key p.key_table).0
          ≡ some k
    in_table_place room k same = by_entry (lookup key p.keys) refl
      where
        by_entry :
            (known : Option KeyEntry)
            → lookup key p.keys ≡ known
            → get_elem? (key_place known key p.key_table).1 (key_place known key p.key_table).0
              ≡ some k
        by_entry none e =
            ap (get_elem? (p.key_table ++ (key ∷ []))) {y = length p.key_table}
              (omega (arith, room))
            ∙ get_elem?-append_last p.key_table key
            ∙ ap some (bytes_eq→eq key k same)
        by_entry (some (i, l)) e = c.in_table key i l e ∙ ap some (bytes_eq→eq key k same)

    in_table_old :
        (k : Bytes) (i : ℕ)
        → get_elem? p.key_table i ≡ some k
        → get_elem? (upserted p seq key payload g slot).key_table i ≡ some k
    in_table_old k i h = by_entry (lookup key p.keys)
      where
        by_entry :
            (known : Option KeyEntry) → get_elem? (key_place known key p.key_table).1 i ≡ some k
        by_entry none =
            get_elem?-append_left p.key_table (key ∷ []) i (get_elem?-lt p.key_table i k h) ∙ h
        by_entry (some (j, l)) = h

    upserted-in_table :
        length p.key_table < 2 ^ 32
        → (k : Bytes) (i : ℕ) (l : Option ℕ)
        → lookup k (upserted p seq key payload g slot).keys ≡ some (i, l)
        → get_elem? (upserted p seq key payload g slot).key_table i ≡ some k
    upserted-in_table room k i l h =
        let (j, table) = key_place (lookup key p.keys) key p.key_table in
        let at = lookup-insert key k (j, some slot) p.keys in
        elim (Bool-cases (bytes_eq key k)) [
          | inl same ↦
              let e : ◌≡◌ {A = Option (ℕ × Option ℕ)} (some (j, some slot)) (some (i, l)) =
                sym (at ∙ rw same) ∙ h in
              let index : j ≡ i = ground arith in
              subst (λ t. get_elem? (upserted p seq key payload g slot).key_table t ≡ some k) index
                (in_table_place room k same)
          | inr other ↦ in_table_old k i (c.in_table k i l (sym (at ∙ rw other) ∙ h))
        ]

    upserted-live :
        (k : Bytes) (i s : ℕ)
        → lookup k (upserted p seq key payload g slot).keys ≡ some (i, some s)
        → (r : SlotRecord) × (get_elem? (upserted p seq key payload g slot).slots s ≡ some r)
          × (r.tombstone ≡ false)
          × (r.key_index ≡ i)
    upserted-live k i s h =
        let (j, table) = key_place (lookup key p.keys) key p.key_table in
        let at = lookup-insert key k (j, some slot) p.keys in
        elim (Bool-cases (bytes_eq key k)) [
          | inl same ↦
              let e : some (j, some slot) ≡ some (i, some s) = sym (at ∙ rw same) ∙ h in
              (
                record { version = seq; tombstone = false; key_index = j; payload = payload },
                ground (arith, get_upserted s, slot_new, e),
                refl,
                ground (arith, e),
              )
          | inr other ↦
              let old : lookup k p.keys ≡ some (i, some s) = sym (at ∙ rw other) ∙ h in
              let (r, here, awake, index) = c.live k i s old in
              let low = live-lt x p c k i s old in
              (
                r,
                ground (
                  arith,
                  get_upserted s,
                  others_not_retired x p c key k i s other old,
                  low,
                  here,
                ),
                awake,
                index,
              )
        ]

    -- A slot that the update left alone has the record that it had.
    pub kept_record :
        (s : ℕ) (r : SlotRecord)
        → get_elem? (upserted p seq key payload g slot).slots s ≡ some r
        → (s == length p.slots) ≡ false
        → is_retired (lookup key p.keys) s ≡ false
        → get_elem? p.slots s ≡ some r
    kept_record s r h old kept = ground (arith, get_upserted s)

    other_owner :
        (k : Bytes) (i s : ℕ)
        → lookup k p.keys ≡ some (i, some s)
        → is_retired (lookup key p.keys) s ≡ false
        → bytes_eq key k ≡ false
    other_owner k i s owner kept = elim (Bool-cases (bytes_eq key k)) [
      | inr other ↦ other
      | inl same ↦
          let mine : lookup key p.keys ≡ some (i, some s) =
            ap (λ t. lookup t p.keys) (bytes_eq→eq key k same) ∙ owner in
          absurd (cc (kept, ap (λ t. is_retired t s) mine, ==_refl s))
    ]

    upserted-masked :
        (s : ℕ) (r : SlotRecord)
        → get_elem? (upserted p seq key payload g slot).slots s ≡ some r
        → x.is_tombstoned (upserted p seq key payload g slot).index s ≡ r.tombstone
    upserted-masked s r h =
        let known = lookup key p.keys in
        let mask = tombstoned-retire x known g p.slots s in_new in
        elim (Bool-cases (s == length p.slots)) [
          | inl new ↦
              let at : s ≡ slot = (==_iff s (length p.slots)).0 new ∙ sym slot_new in
              ground (
                arith,
                get_upserted s,
                mask,
                ap (is_retired known) (at ∙ slot_new),
                ap (x.is_tombstoned g) at,
                not_retired_new,
                x.tombstoned-insert_new p.index g v slot done,
              )
          | inr old ↦ elim (Bool-cases (is_retired known s)) [
            | inl gone ↦ ground (arith, get_upserted s, mask, old, gone)
            | inr kept ↦
                let here = kept_record s r h old kept in
                let low = get_elem?-lt p.slots s r here in
                ground (
                  arith,
                  mask,
                  kept,
                  x.tombstoned-insert_old p.index g v slot s done (omega (arith, c.sized)),
                  c.masked s r here,
                )
          ]
        ]

    upserted-owned :
        (s : ℕ) (r : SlotRecord)
        → get_elem? (upserted p seq key payload g slot).slots s ≡ some r
        → r.tombstone ≡ false
        → (k : Bytes) × (lookup k (upserted p seq key payload g slot).keys
            ≡ some (r.key_index, some s))
    upserted-owned s r h awake =
        let known = lookup key p.keys in
        let (j, table) = key_place known key p.key_table in
        elim (Bool-cases (s == length p.slots)) [
          | inl new ↦
              let e : record { version = seq; tombstone = false; key_index = j; payload = payload }
                  ≡ r =
                ground (arith, get_upserted s, new, h) in
              let at : slot ≡ s = slot_new ∙ sym ((==_iff s (length p.slots)).0 new) in
              let index = ap (λ (q : SlotRecord). q.key_index) e in
              (
                key,
                lookup-insert key key (j, some slot) p.keys
                    ∙ rw (bytes_eq_refl key) (ap₂ (λ a b. some (a, some b)) index at),
              )
          | inr old ↦ elim (Bool-cases (is_retired known s)) [
            | inl gone ↦ ground (arith, get_upserted s, old, gone, h)
            | inr kept ↦
                let (k, owner) = c.owned s r (kept_record s r h old kept) awake in
                (
                  k,
                  lookup-insert key k (j, some slot) p.keys
                      ∙ rw (other_owner k r.key_index s owner kept) owner,
                )
          ]
        ]

    -- An upsert keeps the partition consistent, if the key table has room.
    pub upserted-IsConsistent :
        length p.key_table < 2 ^ 32 → IsConsistent x (upserted p seq key payload g slot)
    upserted-IsConsistent room =
        let known = lookup key p.keys in
        record {
          sized = omega (
            arith,
            length-append (retire x known g p.slots).1 (
                record {
                  version = seq;
                  tombstone = false;
                  key_index = (key_place known key p.key_table).0;
                  payload = payload;
                }
                ∷ []),
            length-retire x known g p.slots,
            len-retire x known g p.slots in_new,
            size_new,
          );
          in_table = upserted-in_table room;
          live = upserted-live;
          masked = upserted-masked;
          owned = upserted-owned;
          window = c.window;
        }
