-- ===== src/Partition/Retry.antt =====
-- A retried write is answered from the idempotency window.
use distr_hnsw.Common.{
  ℕ, ◌≡◌, refl, sym, subst, ap, ◌∙◌, inl, inr, Bool, true, List, length, Option, none, some, ok,
  ok_injective, arith,
}
use distr_hnsw.Common.ByteMap.{Bytes, lookup}
use distr_hnsw.Wal.Entry.{Operation, upsert, delete, Entry, Checksum}
use distr_hnsw.Wal.EntryCodec.{IsStorable}
use distr_hnsw.Wal.Writer.{Outcome}
use distr_hnsw.Wal.WriterRuns.{next_entry}
use distr_hnsw.Partition.Window.{get}
use distr_hnsw.Partition.WindowLaws.{IsWindow, remember_lem}
use distr_hnsw.Partition.Index.{Vector, VectorIndex}
use distr_hnsw.Partition.State.{KeyEntry, Memory, delete_known, apply_operation, apply}
use distr_hnsw.Partition.Upsert.{apply_upsert_ok}
use distr_hnsw.Partition.Apply.{apply_ok}
use distr_hnsw.Partition.Mutate.{Applied, Served, mutate, delete_key, upsert_key}
use distr_hnsw.Partition.Replay.{replay-snoc}
use distr_hnsw.Partition.Agree.{InStep, MutateOutcome, done, unchanged, stopped, mutate_outcome}

module _ (x : VectorIndex) where
  idempotency-apply_operation :
      (p q : Memory x) (seq : ℕ) (operation : Operation)
      → apply_operation x p seq operation ≡ ok q
      → q.idempotency ≡ p.idempotency
  unfolding apply_operation
  idempotency-apply_operation p q seq (upsert key payload v) h =
      let (_, g, slot, _, same) = apply_upsert_ok x p q seq key payload v h in
      ap (λ t. t.idempotency) (sym same)
  idempotency-apply_operation p q seq (delete key) h =
      ap (λ t. t.idempotency) (sym (ok_injective h)) ∙ by_entry (lookup key p.keys)
    where
      by_entry :
          (known : Option KeyEntry) → (delete_known x p key known).idempotency ≡ p.idempotency
      by_entry none = refl
      by_entry (some (i, none)) = refl
      by_entry (some (i, some s)) = refl

  -- An applied entry's operation id has the entry's number in the window.
  pub get-apply :
      (p p' : Memory x) (e : Entry)
      → IsWindow p.idempotency
      → apply x p e ≡ ok p'
      → get p'.idempotency e.op_id ≡ some e.seq
  get-apply p p' e v h =
      let (q, run, same) = apply_ok x p p' e h in
      let kept = idempotency-apply_operation p q e.seq e.operation run in
      ap (λ t. get t.idempotency e.op_id) (sym same)
      ∙ (remember_lem q.idempotency e.op_id e.seq (subst IsWindow (sym kept) v)).newest

  module _ (c : Checksum) where
    -- A write that was acknowledged is in the window.
    acknowledged_known :
        (base : Memory x) (start : ℕ) (es : List Entry) (s : Served x) (e : Entry) (s' : Served x)
        (a : Applied)
        → IsWindow s.memory.idempotency
        → InStep x c base start es s
        → e.seq ≡ s.writer.next_seq
        → MutateOutcome x c base start es s e s' (ok a)
        → get s'.memory.idempotency e.op_id ≡ some a.seq
    acknowledged_known base start es s e s' a v i due (done (inl same) i') =
        get-apply s.memory s'.memory e v
          (sym (replay-snoc x base s.memory es e i.replayed (due ∙ i.due)) ∙ i'.replayed)
        ∙ ap (λ (b : Applied). some b.seq) (sym (ok_injective same))
    acknowledged_known base start es s e s' a v i due (done (inr bad) i') = cc
    acknowledged_known base start es s e s' a v i due (unchanged y bad same) = cc
    acknowledged_known base start es s e s' a v i due (stopped y extra front bad dead m w h) = cc

    module _ (normalize : Vector → Option Vector) (admits : Memory x → ℕ → Bool) where
      known_retried :
          (o : Outcome) (s : Served x) (op_id key payload : Bytes) (v : Vector) (seq : ℕ)
          → get s.memory.idempotency op_id ≡ some seq
          → (delete_key x c o s op_id key ≡ (s, ok (record { seq = seq; deduplicated = true })))
            × (upsert_key x c normalize admits o s op_id key v payload
                ≡ (s, ok (record { seq = seq; deduplicated = true })))
      unfolding delete_key upsert_key
      known_retried o s op_id key payload v seq h = (ground (arith, h), ground (arith, h))

      -- A write that was acknowledged, in a partition in step with its log, is not applied again: the
      -- next call with its operation id, whatever it asks for, changes nothing and returns the same
      -- sequence number, marked as deduplicated.
      pub retry_deduplicated :
          (o o' : Outcome) (base : Memory x) (start : ℕ) (es : List Entry) (s s' : Served x)
          (op_id key payload : Bytes) (v : Vector) (operation : Operation) (a : Applied)
          → length s.writer.partition_id ≡ 16
          → IsStorable (next_entry s.writer op_id operation)
          → IsWindow s.memory.idempotency
          → InStep x c base start es s
          → mutate x c o s op_id operation ≡ (s', ok a)
          → (delete_key x c o' s' op_id key
              ≡ (s', ok (record { seq = a.seq; deduplicated = true })))
            × (upsert_key x c normalize admits o' s' op_id key v payload
                ≡ (s', ok (record { seq = a.seq; deduplicated = true })))
      retry_deduplicated o o' base start es s s' op_id key payload v operation a hid good w i h =
          let e : Entry = next_entry s.writer op_id operation in
          known_retried o' s' op_id key payload v a.seq (
            acknowledged_known base start es s e s' a w i refl (
              subst (λ p. MutateOutcome x c base start es s e p.0 p.1) h
                (mutate_outcome x c o base start es s op_id operation hid good i)))
