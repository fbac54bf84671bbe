-- ===== src/Partition/CatchUp.antt =====
-- partition.rs: the catch-up of `finish_compaction`. The staged state follows the log from the rebuild
-- point, and ends as the served one for every client.
use distr_hnsw.Common.{
  ℕ, max, length-append, false, ◌^◌, ◌<◌, ◌+◌, ◌≤◌, ◌≡◌, refl, sym, subst, ap, ◌∙◌, true, not, ◌||◌,
  Option, none, some, List, [], ◌∷◌, ◌++◌, length, All, ltb, leb, ◌==◌, ==_iff, if◌then◌else◌,
  Result, ok, err, ◌>>=◌, >>=-eq-ok, ok_injective, arith,
}
use distr_hnsw.Common.ByteMap.{Bytes, lookup}
use distr_hnsw.Wal.Entry.{sequence_gap, Operation, upsert, delete, Entry}
use distr_hnsw.Partition.Index.{Vector, VectorIndex}
use distr_hnsw.Partition.State.{
  SlotRecord, key_place, retire, KeyEntry, PartitionError, wal, missing_history, Memory,
  apply_upsert, delete_known, apply_operation, apply,
}
use distr_hnsw.Partition.Consistent.{IsConsistent, length-mark, length-retire}
use distr_hnsw.Partition.Upsert.{upserted, apply_upsert_ok}
use distr_hnsw.Partition.Apply.{noted, apply_ok, apply_table, apply-IsConsistent}
use distr_hnsw.Partition.View.{Live, view, updated, view-apply}
use distr_hnsw.Partition.Replay.{replay_entry, replay}
use distr_hnsw.Partition.Compaction.{CompactionInput, capture_compaction, build, staged}
use distr_hnsw.Partition.Compacted.{rebuilt_lem, staged_slots, compaction_keeps}

-- The sequence numbers count up from `n`.
abbrev pub CountsFrom : ℕ → List Entry → Type 0
CountsFrom n [] = Unit
CountsFrom n (e ∷ es) = (e.seq ≡ n) × CountsFrom (n + 1) es

-- The slots that an operation adds.
abbrev added_slots : Operation → ℕ
added_slots (upsert key payload v) = 1
added_slots (delete key) = 0

module _ (x : VectorIndex) where
  -- The body of the loop: entries outside the range are passed over.
  unfoldable pub catch_up_entry : ℕ → ℕ → Memory x → Entry → Result PartitionError (Memory x)
  catch_up_entry rebuild_point high_water q e =
      if leb e.seq rebuild_point || ltb high_water e.seq
      then ok q
      else if not (e.seq == q.high_water + 1)
      then err (wal (sequence_gap (q.high_water + 1) e.seq))
      else apply x q e

  unfoldable pub catch_up : ℕ → ℕ → Memory x → List Entry → Result PartitionError (Memory x)
  catch_up rebuild_point high_water q [] = ok q
  catch_up rebuild_point high_water q (e ∷ es) =
      catch_up_entry rebuild_point high_water q e >>= λ r. catch_up rebuild_point high_water r es

  -- The loop and the check behind it.
  unfoldable pub caught_up : ℕ → ℕ → Memory x → List Entry → Result PartitionError (Memory x)
  caught_up rebuild_point high_water q es = catch_up rebuild_point high_water q es >>= λ r.
      if not (r.high_water == high_water) then err (missing_history r.high_water) else ok r

  -- Two states that no client tells apart.
  pub record Alike (p q : Memory x) : Type 0 where
    pub left : IsConsistent x p
    pub right : IsConsistent x q
    pub same_dims : q.dims ≡ p.dims
    pub same_mark : q.high_water ≡ p.high_water
    pub fewer_slots : length q.slots ≤ length p.slots
    pub same_view : (k : Bytes) → view x q k ≡ view x p k

  updated_same :
      (seq : ℕ) (operation : Operation) (m n : Bytes → Option Live) (k : Bytes)
      → m k ≡ n k
      → updated x seq operation m k ≡ updated x seq operation n k
  unfolding updated
  updated_same seq (upsert key payload v) m n k h = ground (arith, h)
  updated_same seq (delete key) m n k h = ground (arith, h)

  dims-delete_known :
      (p : Memory x) (key : Bytes) (known : Option KeyEntry)
      → (delete_known x p key known).dims ≡ p.dims
  dims-delete_known p key none = refl
  dims-delete_known p key (some (i, none)) = refl
  dims-delete_known p key (some (i, some s)) = refl

  apply_upsert_accepted :
      (q : Memory x) (seq : ℕ) (key payload : Bytes) (v : Vector) (g : x.Graph) (t : ℕ)
      → length v ≡ q.dims
      → x.insert q.index v ≡ ok (g, t)
      → apply_upsert x q seq key payload v ≡ ok (upserted x q seq key payload g t)
  unfolding apply_upsert
  apply_upsert_accepted q seq key payload v g t size done =
      let fits : (length v == q.dims) ≡ true = (==_iff (length v) q.dims).1 size in
      simp (fits, done)

  -- An operation that one state accepts is accepted by all with its dimensions.
  accepts :
      (p q p' : Memory x) (seq : ℕ) (operation : Operation)
      → q.dims ≡ p.dims
      → x.len q.index ≤ x.len p.index
      → apply_operation x p seq operation ≡ ok p'
      → (q' : Memory x) × (apply_operation x q seq operation ≡ ok q')
        × (q'.dims ≡ q.dims)
        × (p'.dims ≡ p.dims)
  unfolding apply_operation
  accepts p q p' seq (delete key) same fewer h = (
    delete_known x q key (lookup key q.keys),
    refl,
    dims-delete_known q key (lookup key q.keys),
    ap (λ t. t.dims) (sym (ok_injective h)) ∙ dims-delete_known p key (lookup key p.keys),
  )
  accepts p q p' seq (upsert key payload v) same fewer h =
      let (size, g, s, done, at) = apply_upsert_ok x p p' seq key payload v h in
      let (g', t, done') = x.insert-accepts p.index g q.index v s done fewer in
      (
        upserted x q seq key payload g' t,
        apply_upsert_accepted q seq key payload v g' t (size ∙ sym same) done',
        refl,
        ap (λ t. t.dims) (sym at),
      )

  slots-delete_known :
      (p : Memory x) (key : Bytes) (known : Option KeyEntry)
      → length (delete_known x p key known).slots ≡ length p.slots
  slots-delete_known p key none = refl
  slots-delete_known p key (some (i, none)) = refl
  slots-delete_known p key (some (i, some s)) = length-mark p.slots s

  operation_slots :
      (p p' : Memory x) (seq : ℕ) (operation : Operation)
      → apply_operation x p seq operation ≡ ok p'
      → length p'.slots ≡ length p.slots + added_slots operation
  unfolding apply_operation
  operation_slots p p' seq (delete key) h =
      let at = ap (λ t. length t.slots) (ok_injective h) in
      omega (arith, at, slots-delete_known p key (lookup key p.keys))
  operation_slots p p' seq (upsert key payload v) h =
      let (_, g, s, done, at) = apply_upsert_ok x p p' seq key payload v h in
      let known = lookup key p.keys in
      let r : SlotRecord = record {
        version = seq;
        tombstone = false;
        key_index = (key_place known key p.key_table).0;
        payload = payload;
      } in
      omega (
        arith,
        ap (λ t. length t.slots) at,
        length-append (retire x known g p.slots).1 (r ∷ []),
        length-retire x known g p.slots,
      )

  noted_ok :
      (q q' : Memory x) (e : Entry)
      → apply_operation x q e.seq e.operation ≡ ok q'
      → apply x q e ≡ ok (noted x q' e)
  unfolding apply
  noted_ok q q' e h = simp h

  -- The same entry keeps two states alike.
  Alike-apply :
      (p q p' : Memory x) (e : Entry)
      → Alike p q
      → length p.key_table < 2 ^ 32
      → length q.key_table < 2 ^ 32
      → apply x p e ≡ ok p'
      → (q' : Memory x) × (apply x q e ≡ ok q') × Alike p' q'
  Alike-apply p q p' e a room room' h =
      let (m, run, at) = apply_ok x p p' e h in
      let (n, run', dims, dims') =
        accepts p q m e.seq e.operation a.same_dims
          (omega (arith, a.fewer_slots, a.left.sized, a.right.sized)) run in
      let done : apply x q e ≡ ok (noted x n e) = noted_ok q n e run' in
      (
        noted x n e,
        done,
        record {
          left = apply-IsConsistent x p p' e h room a.left;
          right = apply-IsConsistent x q (noted x n e) e done room' a.right;
          same_dims = dims ∙ a.same_dims ∙ sym dims' ∙ ap (λ t. t.dims) at;
          same_mark = ap (λ t. t.high_water) at;
          fewer_slots = omega (
            arith,
            ap (λ t. length t.slots) at,
            operation_slots p m e.seq e.operation run,
            operation_slots q n e.seq e.operation run',
            a.fewer_slots,
          );
          same_view = λ k.
              view-apply x q (noted x n e) e k a.right done
              ∙ updated_same e.seq e.operation (view x q) (view x p) k (a.same_view k)
              ∙ sym (view-apply x p p' e k a.left h);
        },
      )

  replay_entry_due :
      (p : Memory x) (e : Entry) → e.seq ≡ p.high_water + 1 → replay_entry x p e ≡ apply x p e
  unfolding replay_entry
  replay_entry_due p e due = ground (arith, due)

  catch_up_entry_due :
      (rebuild_point high_water : ℕ) (q : Memory x) (e : Entry)
      → e.seq ≡ q.high_water + 1
      → rebuild_point ≤ q.high_water
      → e.seq ≤ high_water
      → catch_up_entry rebuild_point high_water q e ≡ apply x q e
  unfolding catch_up_entry
  catch_up_entry_due rebuild_point high_water q e due low high = ground (arith, due)

  apply-mark : (p p' : Memory x) (e : Entry) → apply x p e ≡ ok p' → p'.high_water ≡ e.seq
  apply-mark p p' e h = let (q, _, same) = apply_ok x p p' e h in ap (λ t. t.high_water) (sym same)

  catch_up-Alike :
      (rebuild_point high_water : ℕ) (p q p' : Memory x) (es : List Entry)
      → Alike p q
      → CountsFrom (p.high_water + 1) es
      → replay x p es ≡ ok p'
      → rebuild_point ≤ p.high_water
      → high_water ≡ p.high_water + length es
      → length p.key_table + length es ≤ 2 ^ 32
      → length q.key_table + length es ≤ 2 ^ 32
      → (q' : Memory x) × (catch_up rebuild_point high_water q es ≡ ok q')
        × Alike p' q'
        × (p'.high_water ≡ high_water)
  unfolding catch_up replay
  catch_up-Alike r h p q p' [] a order run low size room room' =
      let same : p ≡ p' = ok_injective run in
      (
        q,
        refl,
        subst (λ t. Alike t q) same a,
        ap (λ t. t.high_water) (sym same) ∙ omega (arith, size),
      )
  catch_up-Alike r h p q p' (e ∷ es) a (due, order) run low size room room' =
      let (m, step, rest) = >>=-eq-ok (replay_entry x p e) (λ t. replay x t es) run in
      let step' : apply x p e ≡ ok m = sym (replay_entry_due p e due) ∙ step in
      let (n, done, a') = Alike-apply p q m e a (omega arith) (omega arith) step' in
      let mark : m.high_water ≡ p.high_water + 1 = apply-mark p m e step' ∙ due in
      let (q', go, alike, at) =
        catch_up-Alike r h m n p' es a' (subst (λ t. CountsFrom (t + 1) es) (sym mark) order) rest
          (omega (arith, mark)) (omega (arith, mark, size))
          (omega (arith, apply_table x p m e step')) (omega (arith, apply_table x q n e done)) in
      (
        q',
        rw
            (
              catch_up_entry_due r h q e (due ∙ ap (λ t. t + 1) (sym a.same_mark))
                  (omega (arith, a.same_mark)) (omega (arith, due, size)),
              done,
            )
            go,
        alike,
        at,
      )

  -- Entries up to the rebuild point are passed over.
  catch_up_old :
      (rebuild_point high_water : ℕ) (q : Memory x) (old es : List Entry)
      → All (λ e. e.seq ≤ rebuild_point) old
      → catch_up rebuild_point high_water q (old ++ es) ≡ catch_up rebuild_point high_water q es
  unfolding catch_up catch_up_entry
  catch_up_old r h q [] es low = refl
  catch_up_old r h q (e ∷ old) es (here, low) = ground (arith, here, catch_up_old r h q old es low)

  caught_up_done :
      (rebuild_point high_water : ℕ) (q q' : Memory x) (es : List Entry)
      → catch_up rebuild_point high_water q es ≡ ok q'
      → q'.high_water ≡ high_water
      → caught_up rebuild_point high_water q es ≡ ok q'
  unfolding caught_up
  caught_up_done r h q q' es done mark =
      let same : (q'.high_water == h) ≡ true = (==_iff q'.high_water h).1 mark in simp (done, same)

  staged-dims :
      (p : Memory x) (window : ℕ) (input : CompactionInput)
      → ((staged x p.dims window (build x input)).dims ≡ p.dims)
        × ((staged x p.dims window (build x input)).high_water ≡ (build x input).rebuild_point)
  unfolding staged
  staged-dims p window input = (refl, refl)

  staged_table :
      (p : Memory x) (window : ℕ) (input : CompactionInput)
      → capture_compaction x p ≡ ok input
      → (staged x p.dims window (build x input)).key_table ≡ p.key_table
  staged_table p window input captured =
      let (cs, done, same) = rebuilt_lem x p window input captured in
      ap (λ t. t.key_table) (sym same)

  -- A compaction that runs beside the writers ends, and its state serves as theirs does: captured in a
  -- consistent state `p`, while the entries `es`, numbered from behind it, lead the served state to
  -- `p'`, the rebuilt state catches up over the log, with the older entries in it, and is then
  -- consistent, at the same high-water mark, and holds the same live record for every key. The key table has room for a key for
  -- each entry, up to 2 ^ 32.
  pub caught_up-Alike :
      (p p' : Memory x) (window : ℕ) (input : CompactionInput) (old es : List Entry)
      → IsConsistent x p
      → max window 1 ≡ p.idempotency.capacity
      → capture_compaction x p ≡ ok input
      → All (λ e. e.seq ≤ p.high_water) old
      → CountsFrom (p.high_water + 1) es
      → replay x p es ≡ ok p'
      → length p.key_table + length es ≤ 2 ^ 32
      → (q' : Memory x) × (caught_up
            (build x input).rebuild_point
            p'.high_water
            (staged x p.dims window (build x input))
            (old ++ es)
          ≡ ok q')
        × Alike p' q'
  caught_up-Alike p p' window input old es c size captured low order run room =
      let q : Memory x = staged x p.dims window (build x input) in
      let kept = compaction_keeps x p window input c size captured in
      let (dims, mark) = staged-dims p window input in
      let point : (build x input).rebuild_point ≡ p.high_water = sym mark ∙ kept.same_mark in
      let a : Alike p q = record {
        left = c;
        right = kept.is_consistent;
        same_dims = dims;
        same_mark = kept.same_mark;
        fewer_slots = staged_slots x p window input captured;
        same_view = kept.same_view;
      } in
      let (q', done, alike, at) =
        catch_up-Alike p.high_water (p.high_water + length es) p q p' es a order run (omega arith)
          refl room (rw (staged_table p window input captured) room) in
      let whole = catch_up_old p.high_water (p.high_water + length es) q old es low ∙ done in
      (
        q',
        subst (λ r. caught_up r p'.high_water q (old ++ es) ≡ ok q') (sym point)
            (subst (λ h. caught_up p.high_water h q (old ++ es) ≡ ok q') (sym at)
              (caught_up_done p.high_water (p.high_water + length es) q q' (old ++ es) whole
                (alike.same_mark ∙ at))),
        alike,
      )
