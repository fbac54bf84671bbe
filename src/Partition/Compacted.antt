-- ===== src/Partition/Compacted.antt =====
-- A compaction changes no answer: the rebuilt state is consistent, holds live slots only, and has the
-- live record of every key.
use distr_hnsw.Common.{
  ℕ, suc, max, ◌≤◌, ◌≡◌, refl, sym, subst, ap, ◌∙◌, false, Option, none, some, List, [], ◌∷◌, map,
  length, get_elem?, Option-cases, inl, inr, ok, >>=-eq-ok, ok_injective, arith,
}
use distr_hnsw.Common.ByteMap.{Bytes, lookup, map_option, map_values, lookup-map_values}
use distr_hnsw.Partition.Window.{IdempotencyWindow, new, get, remember, entries, restore}
use distr_hnsw.Partition.WindowLaws.{IsWindow, remember_lem, new-IsWindow}
use distr_hnsw.Partition.WindowRestore.{restore-entries}
use distr_hnsw.Partition.Index.{Vector, VectorIndex}
use distr_hnsw.Partition.State.{SlotRecord, KeyEntry, Memory}
use distr_hnsw.Partition.Consistent.{IsConsistent}
use distr_hnsw.Partition.View.{view_at, view}
use distr_hnsw.Partition.Compaction.{
  Captured, CompactionInput, capture, capture_compaction, moved, build, staged, old_to_new,
}
use distr_hnsw.Partition.CaptureLaws.{
  old_slots_of, get_elem?-map, capture_fewer, Found, capture_complete, capture_sound,
}

length-map {ℓ κ} :
    {A : Type ℓ} {B : Type κ} (f : A → B) (xs : List A) → length (map f xs) ≡ length xs
length-map f [] = refl
length-map f (x ∷ xs) = ap suc (length-map f xs)

restore-IsWindow :
    (w : IdempotencyWindow) (saved : List (Bytes × ℕ)) → IsWindow w → IsWindow (restore w saved)
unfolding restore
restore-IsWindow w [] v = v
restore-IsWindow w ((op_id, seq) ∷ saved) v =
    restore-IsWindow (remember w op_id seq) saved (remember_lem w op_id seq v).is_window

same_new : (window capacity : ℕ) → max window 1 ≡ capacity → new window ≡ new capacity
unfolding new
same_new window capacity e =
    ap (λ n. record { capacity = n; order = []; seqs = [] }) (omega (arith, e))

module _ (x : VectorIndex) where
  -- The plan that is built from a capture.
  abbrev pub rows : List Captured → List Vector
  rows cs = map (λ (c : Captured). c.row) cs

  abbrev pub records : List Captured → List SlotRecord
  records cs = map (λ (c : Captured). c.slot) cs

  abbrev pub rebuilt : Memory x → ℕ → List Captured → Memory x
  rebuilt p window cs = record p {
    index = x.build (rows cs);
    keys = map_values (moved x (old_slots_of cs)) p.keys;
    slots = records cs;
    idempotency = restore (new window) (entries p.idempotency);
  }

  pub rebuilt_lem :
      (p : Memory x) (window : ℕ) (input : CompactionInput)
      → capture_compaction x p ≡ ok input
      → (cs : List Captured) × (capture p.dims (x.row p.index) 0 p.slots ≡ ok cs)
        × (rebuilt p window cs ≡ staged x p.dims window (build x input))
  unfolding capture_compaction build staged
  rebuilt_lem p window input h =
      let (cs, done, same) = >>=-eq-ok (capture p.dims (x.row p.index) 0 p.slots) _ h in
      (cs, done, ap (λ t. staged x p.dims window (build x t)) (ok_injective same))

  module _ (p : Memory x) (c : IsConsistent x p) (window : ℕ) (cs : List Captured)
      (done : capture p.dims (x.row p.index) 0 p.slots ≡ ok cs) where
    moved_entry :
        (k : Bytes) (e : Option KeyEntry)
        → lookup k p.keys ≡ e
        → lookup k (rebuilt p window cs).keys ≡ map_option (moved x (old_slots_of cs)) e
    moved_entry k e h =
        lookup-map_values (moved x (old_slots_of cs)) k p.keys
        ∙ ap (map_option (moved x (old_slots_of cs))) h

    -- Where the live slot of a key has gone.
    moved_live :
        (k : Bytes) (i s : ℕ)
        → lookup k p.keys ≡ some (i, some s)
        → (r : SlotRecord) × (j : ℕ) × (get_elem? p.slots s ≡ some r)
          × (r.tombstone ≡ false)
          × (r.key_index ≡ i)
          × Found p.dims (x.row p.index) 0 s r cs j
          × (lookup k (rebuilt p window cs).keys ≡ some (i, some j))
    moved_live k i s h =
        let (r, here, awake, index) = c.live k i s h in
        let (j, found') =
          capture_complete p.dims (x.row p.index) 0 0 s r p.slots cs done here awake in
        let found : Found p.dims (x.row p.index) 0 s r cs j =
          subst (λ t. Found p.dims (x.row p.index) 0 t r cs j) (omega arith) found' in
        let (_, _, _, _, _, place) = found in
        (
          r,
          j,
          here,
          awake,
          index,
          found,
          moved_entry k (some (i, some s)) h
              ∙ ap (λ t. some (i, t)) (place ∙ ap some (omega arith)),
        )

    get_records :
        (j : ℕ) (r : SlotRecord)
        → get_elem? (records cs) j ≡ some r
        → (d : Captured) × (get_elem? cs j ≡ some d) × (d.slot ≡ r)
    get_records j r h = elim (Option-cases (get_elem? cs j)) [
      | inl gone ↦ ground (arith, gone, get_elem?-map (λ (c : Captured). c.slot) cs j)
      | inr (d, here) ↦
          (d, here, ground (arith, here, get_elem?-map (λ (c : Captured). c.slot) cs j))
    ]

    view-rebuilt : (k : Bytes) → view x (rebuilt p window cs) k ≡ view x p k
    view-rebuilt k = by_entry (lookup k p.keys) refl
      where
        by_entry :
            (e : Option KeyEntry)
            → lookup k p.keys ≡ e
            → view x (rebuilt p window cs) k ≡ view x p k
        by_entry none h =
            ap (view_at x (rebuilt p window cs)) (moved_entry k none h) ∙ sym (ap (view_at x p) h)
        by_entry (some (i, none)) h =
            ap (view_at x (rebuilt p window cs)) (moved_entry k (some (i, none)) h)
            ∙ sym (ap (view_at x p) h)
        by_entry (some (i, some s)) h =
            let (r, j, here, _, _, (d, at, _, same, row, _), now) = moved_live k i s h in
            ap (view_at x (rebuilt p window cs)) now
            ∙ ground (
              arith,
              here,
              at,
              same,
              row,
              x.row-build (rows cs) j,
              get_elem?-map (λ (c : Captured). c.row) cs j,
              get_elem?-map (λ (c : Captured). c.slot) cs j,
            )
            ∙ sym (ap (view_at x p) h)

    rebuilt-live :
        (k : Bytes) (i j : ℕ)
        → lookup k (rebuilt p window cs).keys ≡ some (i, some j)
        → (r : SlotRecord) × (get_elem? (records cs) j ≡ some r)
          × (r.tombstone ≡ false)
          × (r.key_index ≡ i)
    rebuilt-live k i j h = by_entry (lookup k p.keys) refl
      where
        by_entry :
            (e : Option KeyEntry)
            → lookup k p.keys ≡ e
            → (r : SlotRecord) × (get_elem? (records cs) j ≡ some r)
              × (r.tombstone ≡ false)
              × (r.key_index ≡ i)
        by_entry none old = absurd (ground (arith, sym (moved_entry k none old) ∙ h))
        by_entry (some (i', none)) old =
            absurd (ground (arith, sym (moved_entry k (some (i', none)) old) ∙ h))
        by_entry (some (i', some s)) old =
            let (r, j', here, awake, index, (d, at, _, same, _, _), now) = moved_live k i' s old in
            let e : ◌≡◌ {A = Option KeyEntry} (some (i', some j')) (some (i, some j)) =
              sym now ∙ h in
            let place : j' ≡ j = ground (arith, e) in
            let key : i' ≡ i = ground (arith, e) in
            (
              r,
              ground (arith, at, same, place, get_elem?-map (λ (c : Captured). c.slot) cs j),
              awake,
              index ∙ key,
            )

    rebuilt-in_table :
        (k : Bytes) (i : ℕ) (l : Option ℕ)
        → lookup k (rebuilt p window cs).keys ≡ some (i, l)
        → get_elem? p.key_table i ≡ some k
    rebuilt-in_table k i l h = by_entry (lookup k p.keys) refl
      where
        by_entry : (e : Option KeyEntry) → lookup k p.keys ≡ e → get_elem? p.key_table i ≡ some k
        by_entry none old = absurd (ground (arith, sym (moved_entry k none old) ∙ h))
        by_entry (some (i', l')) old =
            let place : i' ≡ i = ground (arith, sym (moved_entry k (some (i', l')) old) ∙ h) in
            subst (λ t. get_elem? p.key_table t ≡ some k) place (c.in_table k i' l' old)

    rebuilt-owned :
        (j : ℕ) (r : SlotRecord)
        → get_elem? (records cs) j ≡ some r
        → (r.tombstone ≡ false)
          × (k : Bytes) × (lookup k (rebuilt p window cs).keys ≡ some (r.key_index, some j))
    rebuilt-owned j r h =
        let (d, at, same) = get_records j r h in
        let (s, here, awake, (_, _, _, _, _, place)) =
          capture_sound p.dims (x.row p.index) 0 0 j d p.slots cs done at in
        let (k, owner) = c.owned s d.slot here awake in
        let place' : old_to_new 0 (old_slots_of cs) s ≡ some j =
          ap (old_to_new 0 (old_slots_of cs)) (omega arith) ∙ place ∙ ap some (omega arith) in
        (
          ap (λ (t : SlotRecord). t.tombstone) (sym same) ∙ awake,
          k,
          moved_entry k (some (d.slot.key_index, some s)) owner
              ∙ ap (λ t. some (d.slot.key_index, t)) place'
              ∙ ap (λ (t : SlotRecord). some (t.key_index, some j)) same,
        )

    rebuilt-IsConsistent : IsConsistent x (rebuilt p window cs)
    rebuilt-IsConsistent = record {
      sized = omega (
        arith,
        length-map (λ (c : Captured). c.slot) cs,
        length-map (λ (c : Captured). c.row) cs,
        x.len-build (rows cs),
      );
      in_table = rebuilt-in_table;
      live = rebuilt-live;
      masked = λ j r h. x.tombstoned-build (rows cs) j ∙ sym (rebuilt-owned j r h).0;
      owned = λ j r h awake. let (_, k, owner) = rebuilt-owned j r h in (k, owner);
      window = restore-IsWindow (new window) (entries p.idempotency) (new-IsWindow window);
    }

  pub staged_slots :
      (p : Memory x) (window : ℕ) (input : CompactionInput)
      → capture_compaction x p ≡ ok input
      → length (staged x p.dims window (build x input)).slots ≤ length p.slots
  staged_slots p window input h =
      let (cs, done, same) = rebuilt_lem p window input h in
      omega (
        arith,
        ap (λ t. length t.slots) same,
        length-map (λ (c : Captured). c.slot) cs,
        capture_fewer p.dims (x.row p.index) 0 p.slots cs done,
      )

  -- What a compaction keeps of a partition.
  pub record Compacted (p q : Memory x) : Type 0 where
    pub is_consistent : IsConsistent x q
    pub same_view : (k : Bytes) → view x q k ≡ view x p k
    pub no_tombstones :
        (s : ℕ) (r : SlotRecord) → get_elem? q.slots s ≡ some r → r.tombstone ≡ false
    pub same_ids : (k : Bytes) → get q.idempotency k ≡ get p.idempotency k
    pub same_mark : q.high_water ≡ p.high_water

  -- Compaction is invisible to clients: the state rebuilt from a capture is consistent, has the same
  -- live record for every key, no masked slot, the same number for every operation id, and the same
  -- high-water mark. The window's capacity is the configured one.
  pub compaction_keeps :
      (p : Memory x) (window : ℕ) (input : CompactionInput)
      → IsConsistent x p
      → max window 1 ≡ p.idempotency.capacity
      → capture_compaction x p ≡ ok input
      → Compacted p (staged x p.dims window (build x input))
  compaction_keeps p window input c size h =
      let (cs, done, same) = rebuilt_lem p window input h in
      subst (Compacted p) same (record {
        is_consistent = rebuilt-IsConsistent p c window cs done;
        same_view = view-rebuilt p c window cs done;
        no_tombstones = λ s r e. (rebuilt-owned p c window cs done s r e).0;
        same_ids = λ k.
            ap (λ w. get (restore w (entries p.idempotency)) k)
              (same_new window p.idempotency.capacity size)
            ∙ (restore-entries p.idempotency c.window).1 k;
        same_mark = refl;
      })
