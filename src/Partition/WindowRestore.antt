-- ===== src/Partition/WindowRestore.antt =====
-- A window that is saved as its `entries` and recorded anew is the same window.
use distr_hnsw.Common.{
  ℕ, ◌+◌, ◌-◌, ◌≤◌, ◌≡◌, refl, sym, subst, ap, ◌∙◌, false, ◌||◌, none, some, List, [], ◌∷◌, ◌++◌,
  append-nil, append_assoc, length, length-append, drop, if◌then◌else◌, inl, inr, Bool-cases,
  Option-cases, bytes_eq, bytes_eq→eq, bytes_eq_refl, arith,
}
use distr_hnsw.Common.ByteMap.{Bytes, ByteMap, lookup}
use distr_hnsw.Partition.Window.{
  IdempotencyWindow, new, get, remember, entries_from, entries, restore,
}
use distr_hnsw.Partition.WindowLaws.{
  contains, Distinct, IsWindow, Remembered, remember_lem, contains-append, new-IsWindow,
}

-- A window that knows of `w` what its own order lists.
record Partial (w u : IdempotencyWindow) : Type 0 where
  is_window : IsWindow u
  capacity : u.capacity ≡ w.capacity
  agrees : (k : Bytes) → get u k ≡ (if contains k u.order then get w k else none)

Distinct-middle :
    (pre : List Bytes) (id : Bytes) (rest : List Bytes)
    → Distinct (pre ++ (id ∷ rest))
    → contains id pre ≡ false
Distinct-middle [] id rest d = refl
Distinct-middle (x ∷ pre) id rest (once, d) = ground (
  arith,
  Distinct-middle pre id rest d,
  contains-append x pre (id ∷ rest),
  bytes_eq→eq x id,
  bytes_eq→eq id x,
  bytes_eq_refl x,
)

entries_cons :
    (id : Bytes) (rest : List Bytes) (seqs : ByteMap ℕ) (seq : ℕ)
    → lookup id seqs ≡ some seq
    → entries_from (id ∷ rest) seqs ≡ (id, seq) ∷ entries_from rest seqs
entries_cons id rest seqs seq h = rw (h, entries_from)

module _ (w : IdempotencyWindow) (v : IsWindow w) where
  fresh_in :
      (u : IdempotencyWindow) (id : Bytes)
      → Partial w u
      → contains id u.order ≡ false
      → lookup id u.seqs ≡ none
  unfolding get
  fresh_in u id p h = ground (arith, p.agrees id)

  remember-Partial :
      (u : IdempotencyWindow) (id : Bytes) (seq : ℕ)
      → Partial w u
      → contains id u.order ≡ false
      → length u.order + 1 ≤ u.capacity
      → get w id ≡ some seq
      → Partial w (remember u id seq) × ((remember u id seq).order ≡ u.order ++ (id ∷ []))
  remember-Partial u id seq p fresh room h =
      let r = remember_lem u id seq p.is_window in
      let none_over : length (u.order ++ (id ∷ [])) - u.capacity ≡ 0 =
        omega (arith, length-append u.order (id ∷ [])) in
      let order : (remember u id seq).order ≡ u.order ++ (id ∷ []) =
        r.order_new (fresh_in u id p fresh) ∙ ap (λ n. drop n (u.order ++ (id ∷ []))) none_over in
      (
        record {
          is_window = r.is_window;
          capacity = r.same_capacity ∙ p.capacity;
          agrees = λ k.
              subst (λ t. get (remember u id seq) k ≡ (if contains k t then get w k else none))
                (sym order) (agrees_at u id seq p fresh order h r k);
        },
        order,
      )
    where
      agrees_at :
          (u : IdempotencyWindow) (id : Bytes) (seq : ℕ)
          → Partial w u
          → contains id u.order ≡ false
          → (remember u id seq).order ≡ u.order ++ (id ∷ [])
          → get w id ≡ some seq
          → Remembered u id seq (remember u id seq)
          → (k : Bytes)
          → get (remember u id seq) k
            ≡ (if contains k (u.order ++ (id ∷ [])) then get w k else none)
      agrees_at u id seq p fresh order h r k = elim (Bool-cases (bytes_eq id k)) [
        | inl same ↦
            ground (arith, bytes_eq→eq id k, r.newest, contains-append k u.order (id ∷ []), h, same)
        | inr other ↦
            ground (
              arith,
              r.others k other,
              order,
              p.agrees k,
              contains-append k u.order (id ∷ []),
              other,
            )
      ]

  restore-Partial :
      (pre rest : List Bytes) (u : IdempotencyWindow)
      → Partial w u
      → u.order ≡ pre
      → pre ++ rest ≡ w.order
      → Partial w (restore u (entries_from rest w.seqs))
        × ((restore u (entries_from rest w.seqs)).order ≡ w.order)
  unfolding restore
  restore-Partial pre [] u p at whole = (p, at ∙ (sym (append-nil pre) ∙ whole))
  restore-Partial pre (id ∷ rest) u p at whole = elim (Option-cases (lookup id w.seqs)) [
    | inl gone ↦ absurd (
        ground (
          arith,
          v.known id,
          subst (λ t. contains id t ≡ (contains id pre || contains id (id ∷ rest))) whole
              (contains-append id pre (id ∷ rest)),
          bytes_eq_refl id,
        ))
    | inr (seq, found) ↦
        let fresh = Distinct-middle pre id rest (subst Distinct (sym whole) v.distinct) in
        let (p', order) =
          remember-Partial u id seq p (subst (λ t. contains id t ≡ false) (sym at) fresh)
            (omega (
              arith,
              ap length at,
              ap length whole,
              length-append pre (id ∷ rest),
              v.bounded,
              p.capacity,
            ))
            (unfold get in found) in
        subst (λ t. Partial w (restore u t) × ((restore u t).order ≡ w.order))
          (sym (entries_cons id rest w.seqs seq found))
          (restore-Partial (pre ++ (id ∷ [])) rest (remember u id seq) p'
            (order ∙ ap (λ t. t ++ (id ∷ [])) at) (append_assoc pre (id ∷ []) rest ∙ whole))
  ]

  -- A window that is saved and recorded anew, in a window of its capacity, has the same order and
  -- gives the same number for every id.
  pub restore-entries :
      ((restore (new w.capacity) (entries w)).order ≡ w.order)
      × ((k : Bytes) → get (restore (new w.capacity) (entries w)) k ≡ get w k)
  unfolding entries
  restore-entries =
      let (p, order) =
        restore-Partial [] w.order (new w.capacity) start (unfold new in refl) refl in
      (order, λ k. same k p order)
    where
      start : Partial w (new w.capacity)
      start = record {
        is_window = new-IsWindow w.capacity;
        capacity = unfold new in omega (arith, v.positive);
        agrees = λ k. unfold new get lookup in refl;
      }

      same :
          {u : IdempotencyWindow} (k : Bytes) → Partial w u → u.order ≡ w.order → get u k ≡ get w k
      same {u} k p order =
          p.agrees k
          ∙ subst (λ t. (if contains k t then get w k else none) ≡ get w k) (sym order)
              (unfold get in ground (arith, v.known k))
