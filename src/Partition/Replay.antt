-- ===== src/Partition/Replay.antt =====
-- partition.rs: the loop of `recover` that replays the entries of a segment. Its counters are left out.
use distr_hnsw.Common.{
  ◌+◌, ◌^◌, ◌<◌, ◌≤◌, ◌≡◌, length, refl, sym, subst, ap, ◌∙◌, not, List, [], ◌∷◌, ◌++◌, leb, ◌==◌,
  if◌then◌else◌, Result, ok, err, ◌>>=◌, Result-cases, Bool-cases, inl, inr, ok_injective, arith,
}
use distr_hnsw.Wal.Entry.{sequence_gap, Entry}
use distr_hnsw.Partition.Index.{VectorIndex}
use distr_hnsw.Partition.State.{PartitionError, wal, Memory, apply}
use distr_hnsw.Partition.Apply.{apply_ok, apply_table, apply-IsConsistent}
use distr_hnsw.Partition.Consistent.{IsConsistent}

module _ (x : VectorIndex) where
  -- The body of the loop: an entry that the state has is passed over, and the next one must be due.
  unfoldable pub replay_entry : Memory x → Entry → Result PartitionError (Memory x)
  replay_entry p e =
      if leb e.seq p.high_water
      then ok p
      else if not (e.seq == p.high_water + 1)
      then err (wal (sequence_gap (p.high_water + 1) e.seq))
      else apply x p e

  unfoldable pub replay : Memory x → List Entry → Result PartitionError (Memory x)
  replay p [] = ok p
  replay p (e ∷ es) = replay_entry p e >>= λ q. replay q es

  pub replay-append :
      (p : Memory x) (es fs : List Entry) → replay p (es ++ fs) ≡ (replay p es >>= λ q. replay q fs)
  unfolding replay
  replay-append p [] fs = refl
  replay-append p (e ∷ es) fs = elim (Result-cases (replay_entry p e)) [
    | inr (x, h) ↦ simp h
    | inl (q, h) ↦ simp (h, replay-append q es fs)
  ]

  replay_entry-IsConsistent :
      (p p' : Memory x) (e : Entry)
      → replay_entry p e ≡ ok p'
      → length p.key_table < 2 ^ 32
      → IsConsistent x p
      → IsConsistent x p'
  unfolding replay_entry
  replay_entry-IsConsistent p p' e h room c = elim (Bool-cases (leb e.seq p.high_water)) [
    | inl old ↦ subst (IsConsistent x) (ok_injective (simp (old) at h)) c
    | inr new ↦ elim (Bool-cases (e.seq == p.high_water + 1)) [
      | inl due ↦ apply-IsConsistent x p p' e (simp (new, due) at h) room c
      | inr gap ↦ ground (arith, new, gap)
    ]
  ]

  replay_entry_table :
      (p p' : Memory x) (e : Entry)
      → replay_entry p e ≡ ok p'
      → length p'.key_table ≤ length p.key_table + 1
  unfolding replay_entry
  replay_entry_table p p' e h = elim (Bool-cases (leb e.seq p.high_water)) [
    | inl old ↦
        let same : p ≡ p' = ok_injective (simp (old) at h) in
        omega (arith, ap (λ t. length t.key_table) same)
    | inr new ↦ elim (Bool-cases (e.seq == p.high_water + 1)) [
      | inl due ↦ apply_table x p p' e (simp (new, due) at h)
      | inr gap ↦ ground (arith, new, gap)
    ]
  ]

  -- A replay that succeeds keeps the partition consistent, so recovery from a consistent state ends
  -- in one, whatever the entries are, if the key table has room for a key for each, up to 2 ^ 32.
  pub replay-IsConsistent :
      (p p' : Memory x) (es : List Entry)
      → replay p es ≡ ok p'
      → length p.key_table + length es ≤ 2 ^ 32
      → IsConsistent x p
      → IsConsistent x p'
  unfolding replay
  replay-IsConsistent p p' [] h room c = subst (IsConsistent x) (ok_injective h) c
  replay-IsConsistent p p' (e ∷ es) h room c = elim (Result-cases (replay_entry p e)) [
    | inr (x, fails) ↦ ground (arith, fails)
    | inl (q, done) ↦
        replay-IsConsistent q p' es (simp (done) at h)
          (omega (arith, replay_entry_table p q e done))
          (replay_entry-IsConsistent p q e done (omega arith) c)
  ]

  apply-high_water : (p p' : Memory x) (e : Entry) → apply x p e ≡ ok p' → p'.high_water ≡ e.seq
  apply-high_water p p' e h =
      let (q, _, same) = apply_ok x p p' e h in ap (λ t. t.high_water) (sym same)

  -- One more entry, when it is due.
  pub replay-snoc :
      (p q : Memory x) (es : List Entry) (e : Entry)
      → replay p es ≡ ok q
      → e.seq ≡ q.high_water + 1
      → replay p (es ++ (e ∷ [])) ≡ apply x q e
  unfolding replay replay_entry
  replay-snoc p q es e h due = elim (Result-cases (apply x q e)) [
    | inl (r, done) ↦ replay-append p es (e ∷ []) ∙ simp (h) (ground (arith, done))
    | inr (y, fails) ↦ replay-append p es (e ∷ []) ∙ simp (h) (ground (arith, fails))
  ]
