-- ===== src/Partition/Agree.antt =====
-- The memory of a served partition is the replay of its log, through every write and every failure
-- that does not poison the writer.
use distr_hnsw.Common.{
  ℕ, ◌+◌, ◌≡◌, refl, sym, subst, ap, ◌∙◌, ◌⊎◌, inl, inr, Bool, true, false, List, [], ◌∷◌, ◌++◌,
  append-nil, length, length-append, Result, ok, err, if◌then◌else◌, ok_injective, Result-cases,
  Bool-cases, arith,
}
use distr_hnsw.Common.ByteMap.{Bytes}
use distr_hnsw.Wal.Entry.{WalError, Operation, Entry, Checksum, io}
use distr_hnsw.Wal.EntryCodec.{IsStorable}
use distr_hnsw.Wal.Writer.{Outcome, WalWriter, poison, sync, append_unsynced}
use distr_hnsw.Wal.WriterLaws.{Holds, IsOpen}
use distr_hnsw.Wal.WriterRuns.{
  next_entry, AppendOutcome, acknowledged, refused, failed, append_unsynced_outcome, poison_poisons,
  poison-Holds,
}
use distr_hnsw.Partition.Index.{VectorIndex}
use distr_hnsw.Partition.State.{
  PartitionError, injected, after_apply, wal, Memory, apply, after_wal_append, after_wal_sync,
}
use distr_hnsw.Partition.Apply.{apply_ok}
use distr_hnsw.Partition.Mutate.{
  Applied, hit, Served, after_sync, sync_and_apply, finish_mutate, after_append, mutate,
}
use distr_hnsw.Partition.Replay.{replay, replay-snoc}

module _ (x : VectorIndex) (c : Checksum) where
  -- The writer may append, its log holds `es` from the sequence number `start` on, and the memory is
  -- their replay from `base`.
  pub record InStep (base : Memory x) (start : ℕ) (es : List Entry) (s : Served x) : Type 0 where
    pub is_open : IsOpen c start es s.writer
    pub due : s.writer.next_seq ≡ s.memory.high_water + 1
    pub replayed : replay x base es ≡ ok s.memory

  -- How a write of the entry `e` can end.
  pub data MutateOutcome (base : Memory x) (start : ℕ) (es : List Entry) (s : Served x) (e : Entry)
      (s' : Served x) (r : Result PartitionError Applied) : Type 0 where
    -- The entry is in the log and in the memory; a failure point may still report an error.
    done :
        (r ≡ ok (record { seq = e.seq; deduplicated = false })) ⊎ (r ≡ err (injected after_apply))
        → InStep base start (es ++ (e ∷ [])) s'
        → MutateOutcome base start es s e s' r
    unchanged : (y : PartitionError) → r ≡ err y → s' ≡ s → MutateOutcome base start es s e s' r
    -- The writer is poisoned, the memory is the old one, and the log may hold the entry.
    stopped :
        (y : PartitionError) (extra : List Entry) (front : List ℕ)
        → r ≡ err y
        → s'.writer.is_poisoned ≡ true
        → s'.memory ≡ s.memory
        → (extra ≡ []) ⊎ (extra ≡ e ∷ [])
        → Holds c start (es ++ extra) front s'.writer
        → MutateOutcome base start es s e s' r

  -- How the sync and the application of an entry can end.
  data SyncOutcome (s : Served x) (e : Entry) (s' : Served x) (r : Result PartitionError (Unit {0}))
      : Type 0 where
    applies :
        (m : Memory x)
        → r ≡ ok tt
        → apply x s.memory e ≡ ok m
        → s' ≡ record s { memory = m }
        → SyncOutcome s e s' r
    fails :
        (y : PartitionError)
        → r ≡ err y
        → s'.memory ≡ s.memory
        → (s'.writer ≡ s.writer) ⊎ (s'.writer ≡ poison s.writer)
        → SyncOutcome s e s' r

  abbrev Ends : Served x → Entry → Served x × Result PartitionError (Unit {0}) → Type 0
  Ends s e p = SyncOutcome s e p.0 p.1

  after_sync-hit :
      (s : Served x) (e : Entry) (y : PartitionError)
      → hit s.failpoint after_wal_sync ≡ err y
      → after_sync x e s (ok tt) ≡ (s, err y)
  unfolding after_sync
  after_sync-hit s e y h = ground (arith, h)

  after_sync_ok :
      (s : Served x) (e : Entry) (m : Memory x)
      → hit s.failpoint after_wal_sync ≡ ok tt
      → apply x s.memory e ≡ ok m
      → after_sync x e s (ok tt) ≡ (record s { memory = m }, ok tt)
  unfolding after_sync
  after_sync_ok s e m h k = ground (arith, h, k)

  after_sync_err :
      (s : Served x) (e : Entry) (y : PartitionError)
      → hit s.failpoint after_wal_sync ≡ ok tt
      → apply x s.memory e ≡ err y
      → after_sync x e s (ok tt) ≡ (s, err y)
  unfolding after_sync
  after_sync_err s e y h k = ground (arith, h, k)

  after_sync_outcome : (s : Served x) (e : Entry) → Ends s e (after_sync x e s (ok tt))
  after_sync_outcome s e = elim (Result-cases (hit s.failpoint after_wal_sync)) [
    | inr (y, h) ↦ subst (Ends s e) (sym (after_sync-hit s e y h)) (fails y refl refl (inl refl))
    | inl (u, h) ↦ elim (Result-cases (apply x s.memory e)) [
      | inr (y, k) ↦
          subst (Ends s e) (sym (after_sync_err s e y h k)) (fails y refl refl (inl refl))
      | inl (m, k) ↦ subst (Ends s e) (sym (after_sync_ok s e m h k)) (applies m refl k refl)
    ]
  ]

  sync_and_apply-hit :
      (o : Outcome) (s : Served x) (e : Entry) (y : PartitionError)
      → hit s.failpoint after_wal_append ≡ err y
      → sync_and_apply x o s e ≡ (s, err y)
  unfolding sync_and_apply
  sync_and_apply-hit o s e y h = ground (arith, h)

  sync_and_apply_synced :
      (o : Outcome) (s : Served x) (e : Entry)
      → hit s.failpoint after_wal_append ≡ ok tt
      → s.writer.is_poisoned ≡ false
      → sync_and_apply x o s e ≡ (
          if o.syncs
          then after_sync x e s (ok tt)
          else (record s { writer = poison s.writer }, err (wal io)))
  unfolding sync_and_apply sync after_sync
  sync_and_apply_synced o s e h healthy = elim (Bool-cases o.syncs) [
    | inl good ↦ ground (arith, h, healthy, good)
    | inr bad ↦ ground (arith, h, healthy, bad)
  ]

  sync_outcome :
      (o : Outcome) (s : Served x) (e : Entry)
      → s.writer.is_poisoned ≡ false
      → Ends s e (sync_and_apply x o s e)
  sync_outcome o s e healthy = elim (Result-cases (hit s.failpoint after_wal_append)) [
    | inr (y, h) ↦
        subst (Ends s e) (sym (sync_and_apply-hit o s e y h)) (fails y refl refl (inl refl))
    | inl (u, h) ↦ subst (Ends s e) (sym (sync_and_apply_synced o s e h healthy)) (by_sync o.syncs)
  ]
    where
      by_sync :
          (synced : Bool)
          → Ends s e (
              if synced
              then after_sync x e s (ok tt)
              else (record s { writer = poison s.writer }, err (wal io)))
      by_sync true = after_sync_outcome s e
      by_sync false = fails (wal io) refl refl (inr refl)

  finished :
      (seq : ℕ) (s : Served x)
      → ((finish_mutate x seq s (ok tt)).1 ≡ ok (record { seq = seq; deduplicated = false }))
        ⊎ ((finish_mutate x seq s (ok tt)).1 ≡ err (injected after_apply))
  unfolding finish_mutate hit
  finished seq s = ground arith

  -- The entry is in the log and due: what the rest of `mutate` makes of it.
  logged :
      (base : Memory x) (start : ℕ) (es : List Entry) (s : Served x) (e : Entry) (t t' : Served x)
      (r : Result PartitionError (Unit {0}))
      → InStep base start es s
      → e.seq ≡ s.writer.next_seq
      → IsOpen c start (es ++ (e ∷ [])) t.writer
      → t.memory ≡ s.memory
      → SyncOutcome t e t' r
      → MutateOutcome base start es s e
          (finish_mutate x e.seq t' r).0
          (finish_mutate x e.seq t' r).1
  unfolding finish_mutate
  logged base start es s e t t' (ok u) i due op same (fails y bad kept writer) = cc
  logged base start es s e t t' (err y) i due op same (applies m good run after) = cc
  logged base start es s e t t' (ok u) i due op same (applies m good run after) =
      let run' : apply x s.memory e ≡ ok m = subst (λ q. apply x q e ≡ ok m) same run in
      let (q, _, at) = apply_ok x s.memory m e run' in
      let e_due : e.seq ≡ s.memory.high_water + 1 = due ∙ i.due in
      done (finished e.seq t') (
        subst (InStep base start (es ++ (e ∷ []))) (sym after) (record {
          is_open = op;
          due = omega (
            arith,
            op.next,
            i.is_open.next,
            length-append es (e ∷ []),
            ap (λ (n : Memory x). n.high_water) at,
          );
          replayed = replay-snoc x base s.memory es e i.replayed e_due ∙ run';
        }))
  logged base start es s e t t' (err y) i due op same (fails y' bad kept writer) =
      stopped y (e ∷ []) [] refl (poison_poisons c t'.writer) (kept ∙ same) (inr refl) (dead writer)
    where
      alive : Holds c start (es ++ (e ∷ [])) [] (poison t.writer)
      alive = poison-Holds c start (es ++ (e ∷ [])) t.writer op.holds

      dead :
          (t'.writer ≡ t.writer) ⊎ (t'.writer ≡ poison t.writer)
          → Holds c start (es ++ (e ∷ [])) [] (poison t'.writer)
      dead (inl at) = subst (λ w. Holds c start (es ++ (e ∷ [])) [] (poison w)) (sym at) alive
      dead (inr at) =
          subst (λ w. Holds c start (es ++ (e ∷ [])) [] (poison w)) (sym at)
            (poison-Holds c start (es ++ (e ∷ [])) (poison t.writer) alive)

  appended :
      (o : Outcome) (base : Memory x) (start : ℕ) (es : List Entry) (s : Served x) (op_id : Bytes)
      (operation : Operation) (w : WalWriter) (r : Result WalError ℕ)
      → InStep base start es s
      → AppendOutcome c start es s.writer (next_entry s.writer op_id operation) w r
      → MutateOutcome base start es s
          (next_entry s.writer op_id operation)
          (after_append x o (record s { writer = w }) op_id operation r).0
          (after_append x o (record s { writer = w }) op_id operation r).1
  unfolding after_append
  appended o base start es s op_id operation w (err y) i (acknowledged h op) = cc
  appended o base start es s op_id operation w (ok seq) i (refused y h enc same) = cc
  appended o base start es s op_id operation w (ok seq) i (failed front back h dead enc holds) = cc
  appended o base start es s op_id operation w (err y) i (refused y' h enc same) =
      unchanged (wal y) refl (ap (λ t. record s { writer = t }) same)
  appended o base start es s op_id operation w (err y) i (failed front back h dead enc holds) =
      stopped (wal y) [] front refl dead refl (inl refl)
        (subst (λ t. Holds c start t front w) (sym (append-nil es)) holds)
  appended o base start es s op_id operation w (ok seq) i (acknowledged h op) =
      let e : Entry = next_entry s.writer op_id operation in
      let t : Served x = record s { writer = w } in
      subst
        (λ q.
          MutateOutcome base start es s e (after_append x o t op_id operation (ok q)).0
            (after_append x o t op_id operation (ok q)).1)
        (sym (ok_injective h))
        (logged base start es s e t (sync_and_apply x o t e).0 (sync_and_apply x o t e).1 i refl op
          refl (sync_outcome o t e op.healthy))

  -- A write ends in one of three ways, whatever the file system does and whichever failure point is
  -- set: the entry is in the log and applied, nothing has changed, or the writer is poisoned with the
  -- memory as it was and at most this entry behind the old log. So the memory of a writable partition
  -- is always the replay of its log.
  pub mutate_outcome :
      (o : Outcome) (base : Memory x) (start : ℕ) (es : List Entry) (s : Served x) (op_id : Bytes)
      (operation : Operation)
      → length s.writer.partition_id ≡ 16
      → IsStorable (next_entry s.writer op_id operation)
      → InStep base start es s
      → MutateOutcome base start es s
          (next_entry s.writer op_id operation)
          (mutate x c o s op_id operation).0
          (mutate x c o s op_id operation).1
  unfolding mutate
  mutate_outcome o base start es s op_id operation hid good i =
      appended o base start es s op_id operation (append_unsynced c o s.writer op_id operation).0
        (append_unsynced c o s.writer op_id operation).1 i
        (append_unsynced_outcome c o s.writer start es op_id operation hid i.is_open good)
