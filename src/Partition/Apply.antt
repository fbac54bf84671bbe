-- ===== src/Partition/Apply.antt =====
-- `apply` keeps the partition consistent, for every entry that it accepts.
use distr_hnsw.Common.{
  ℕ, ◌+◌, ◌^◌, ◌<◌, ◌≤◌, ◌≡◌, refl, ap, sym, subst, length, length-append, [], ◌∷◌, Option, none,
  some, List, ok, inl, inr, Result-cases, ok_injective, arith,
}
use distr_hnsw.Common.ByteMap.{lookup}
use distr_hnsw.Wal.Entry.{Operation, upsert, delete, Entry}
use distr_hnsw.Partition.Window.{remember}
use distr_hnsw.Partition.WindowLaws.{remember_lem, new-IsWindow}
use distr_hnsw.Partition.Index.{VectorIndex}
use distr_hnsw.Partition.State.{
  KeyEntry, key_place, Memory, delete_known, apply_operation, apply, initial,
}
use distr_hnsw.Partition.Consistent.{IsConsistent}
use distr_hnsw.Partition.Upsert.{apply_upsert_ok, upserted-IsConsistent}
use distr_hnsw.Partition.Delete.{deleted-IsConsistent}

nothing : {A : Type 0} {a : A} → none ≡ some a → ⊥
nothing h = ground (arith, h)

module _ (x : VectorIndex) where
  -- The state after an entry's operation, with the entry noted in the window and the mark.
  abbrev pub noted : Memory x → Entry → Memory x
  noted p e = record p { idempotency = remember p.idempotency e.op_id e.seq; high_water = e.seq }

  pub apply_ok :
      (p p' : Memory x) (e : Entry)
      → apply x p e ≡ ok p'
      → (q : Memory x) × (apply_operation x p e.seq e.operation ≡ ok q) × (noted q e ≡ p')
  unfolding apply
  apply_ok p p' e h = elim (Result-cases (apply_operation x p e.seq e.operation)) [
    | inl (q, done) ↦ (q, done, ok_injective (simp (done) at h))
    | inr (r, fails) ↦ ground (arith, fails)
  ]

  noted-IsConsistent : (p : Memory x) (e : Entry) → IsConsistent x p → IsConsistent x (noted p e)
  noted-IsConsistent p e c = record {
    sized = c.sized;
    in_table = λ k i l h. c.in_table k i l h;
    live = λ k i s h. c.live k i s h;
    masked = λ s r h. c.masked s r h;
    owned = λ s r h awake. c.owned s r h awake;
    window = (remember_lem p.idempotency e.op_id e.seq c.window).is_window;
  }

  pub delete_known-IsConsistent :
      (p : Memory x) (key : List ℕ)
      → IsConsistent x p
      → IsConsistent x (delete_known x p key (lookup key p.keys))
  delete_known-IsConsistent p key c = by_entry (lookup key p.keys) refl
    where
      by_entry :
          (known : Option KeyEntry)
          → lookup key p.keys ≡ known
          → IsConsistent x (delete_known x p key known)
      by_entry none h = c
      by_entry (some (i, none)) h = c
      by_entry (some (i, some s)) h = deleted-IsConsistent x p c key i s h

  operation-IsConsistent :
      (p p' : Memory x) (seq : ℕ) (operation : Operation)
      → apply_operation x p seq operation ≡ ok p'
      → length p.key_table < 2 ^ 32
      → IsConsistent x p
      → IsConsistent x p'
  unfolding apply_operation
  operation-IsConsistent p p' seq (upsert key payload v) h room c =
      let (_, g, slot, done, same) = apply_upsert_ok x p p' seq key payload v h in
      subst (IsConsistent x) same (upserted-IsConsistent x p c seq key payload v g slot done room)
  operation-IsConsistent p p' seq (delete key) h room c =
      subst (IsConsistent x) (ok_injective h) (delete_known-IsConsistent p key c)

  -- An entry that `apply` accepts keeps the partition consistent, whatever its operation, if the key
  -- table has less than 2 ^ 32 keys.
  pub apply-IsConsistent :
      (p p' : Memory x) (e : Entry)
      → apply x p e ≡ ok p'
      → length p.key_table < 2 ^ 32
      → IsConsistent x p
      → IsConsistent x p'
  apply-IsConsistent p p' e h room c =
      let (q, done, same) = apply_ok p p' e h in
      subst (IsConsistent x) same
        (noted-IsConsistent q e (operation-IsConsistent p q e.seq e.operation done room c))

  delete_known_table :
      (p : Memory x) (key : List ℕ) (known : Option KeyEntry)
      → (delete_known x p key known).key_table ≡ p.key_table
  delete_known_table p key none = refl
  delete_known_table p key (some (i, none)) = refl
  delete_known_table p key (some (i, some s)) = refl

  key_place_table :
      (known : Option KeyEntry) (key : List ℕ) (table : List (List ℕ))
      → length (key_place known key table).1 ≤ length table + 1
  key_place_table none key table = omega (arith, length-append table (key ∷ []))
  key_place_table (some (i, l)) key table = omega arith

  operation_table :
      (p p' : Memory x) (seq : ℕ) (operation : Operation)
      → apply_operation x p seq operation ≡ ok p'
      → length p'.key_table ≤ length p.key_table + 1
  unfolding apply_operation
  operation_table p p' seq (upsert key payload v) h =
      let (_, g, slot, done, same) = apply_upsert_ok x p p' seq key payload v h in
      subst (λ t. length t.key_table ≤ length p.key_table + 1) same
        (key_place_table (lookup key p.keys) key p.key_table)
  operation_table p p' seq (delete key) h =
      subst (λ t. length t.key_table ≤ length p.key_table + 1) (ok_injective h)
        (omega (arith, ap length (delete_known_table p key (lookup key p.keys))))

  -- An entry adds at most one key to the table.
  pub apply_table :
      (p p' : Memory x) (e : Entry)
      → apply x p e ≡ ok p'
      → length p'.key_table ≤ length p.key_table + 1
  apply_table p p' e h =
      let (q, done, same) = apply_ok p p' e h in
      subst (λ t. length t.key_table ≤ length p.key_table + 1) same
        (operation_table p q e.seq e.operation done)

  -- The state before any entry is consistent.
  pub initial-IsConsistent : (dims window : ℕ) → IsConsistent x (initial x dims window)
  unfolding initial lookup
  initial-IsConsistent dims window = record {
    sized = sym x.len-new;
    in_table = λ k i l e. absurd (nothing e);
    live = λ k i s e. absurd (nothing e);
    masked = λ s r e. absurd (nothing e);
    owned = λ s r e awake. absurd (nothing e);
    window = new-IsWindow window;
  }
