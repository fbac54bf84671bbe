-- ===== src/Partition/WindowLaws.antt =====
-- The idempotency window remembers the newest operation ids, up to its capacity, each with its
-- sequence number, and forgets all others.
use distr_hnsw.Common.{
  ℕ, ◌-◌, ◌≤◌, ◌<◌, ◌≡◌, refl, sym, ap, subst, Bool, true, false, ◌||◌, Option, none, some, List,
  [], ◌∷◌, ◌++◌, length, length-append, drop, ltb, if◌then◌else◌, inl, inr, Bool-cases,
  Option-cases, bytes_eq, bytes_eq→eq, bytes_eq_refl, le→ltb, ltb→lt, lt→ltb, arith,
}
use distr_hnsw.Common.ByteMap.{Bytes, ByteMap, lookup, insert, remove, lookup-insert, lookup-remove}
use distr_hnsw.Partition.Window.{IdempotencyWindow, new, get, trim, push_new, remember}

abbrev pub contains : Bytes → List Bytes → Bool
contains k [] = false
contains k (x ∷ xs) = bytes_eq x k || contains k xs

abbrev pub Distinct : List Bytes → Type 0
Distinct [] = Unit
Distinct (x ∷ xs) = (contains x xs ≡ false) × Distinct xs

abbrev pub is_known : Option ℕ → Bool
is_known none = false
is_known (some seq) = true

pub record IsWindow (w : IdempotencyWindow) : Type 0 where
  pub positive : 1 ≤ w.capacity
  pub bounded : length w.order ≤ w.capacity
  pub distinct : Distinct w.order
  pub known : (k : Bytes) → is_known (lookup k w.seqs) ≡ contains k w.order

pub contains-append :
    (k : Bytes) (xs ys : List Bytes) → contains k (xs ++ ys) ≡ (contains k xs || contains k ys)
contains-append k [] ys = refl
contains-append k (x ∷ xs) ys = ground (arith, contains-append k xs ys)

Distinct-snoc :
    (x : Bytes) (xs : List Bytes) → Distinct xs → contains x xs ≡ false → Distinct (xs ++ (x ∷ []))
Distinct-snoc x [] d h = (refl, tt)
Distinct-snoc x (y ∷ ys) (fresh, d) h = (
  ground (
    arith,
    contains-append y ys (x ∷ []),
    bytes_eq→eq y x,
    bytes_eq→eq x y,
    bytes_eq_refl x,
    fresh,
  ),
  Distinct-snoc x ys d (ground arith),
)

trim_short :
    (capacity : ℕ) (order : List Bytes) (seqs : ByteMap ℕ)
    → length order ≤ capacity
    → trim capacity order seqs ≡ (order, seqs)
unfolding trim
trim_short capacity [] seqs h = refl
trim_short capacity (x ∷ xs) seqs h = rw (le→ltb capacity (length (x ∷ xs)) h)

trim_one :
    (capacity : ℕ) (old : Bytes) (order : List Bytes) (seqs : ByteMap ℕ)
    → length order ≡ capacity
    → trim capacity (old ∷ order) seqs ≡ (order, remove old seqs)
unfolding trim
trim_one capacity old order seqs h = rw (
  lt→ltb capacity (length (old ∷ order)) (omega arith),
  trim_short capacity order (remove old seqs) (omega arith),
)

-- An id that is known keeps its place; only its number is new.
remember_known :
    (w : IdempotencyWindow) (op_id : Bytes) (seq old : ℕ)
    → IsWindow w
    → lookup op_id w.seqs ≡ some old
    → remember w op_id seq ≡ record w { seqs = insert op_id seq w.seqs }
unfolding remember push_new
remember_known w op_id seq old v h =
    simp (h, trim_short w.capacity w.order (insert op_id seq w.seqs) v.bounded)

remember_room :
    (w : IdempotencyWindow) (op_id : Bytes) (seq : ℕ)
    → lookup op_id w.seqs ≡ none
    → length w.order < w.capacity
    → remember w op_id seq
      ≡ record w { order = w.order ++ (op_id ∷ []); seqs = insert op_id seq w.seqs }
unfolding remember push_new
remember_room w op_id seq h room = simp (
  h,
  trim_short w.capacity (w.order ++ (op_id ∷ [])) (insert op_id seq w.seqs)
      (omega (arith, length-append w.order (op_id ∷ []))),
)

remember_full :
    (w : IdempotencyWindow) (op_id old : Bytes) (rest : List Bytes) (seq : ℕ)
    → lookup op_id w.seqs ≡ none
    → w.order ≡ old ∷ rest
    → length w.order ≡ w.capacity
    → remember w op_id seq
      ≡ record w { order = rest ++ (op_id ∷ []); seqs = remove old (insert op_id seq w.seqs) }
unfolding remember push_new
remember_full w op_id old rest seq h full at = simp (
  h,
  full,
  trim_one w.capacity old (rest ++ (op_id ∷ [])) (insert op_id seq w.seqs)
      (omega (arith, length-append rest (op_id ∷ []), ap length full)),
)

pub not_known : (o : Option ℕ) → is_known o ≡ false → o ≡ none
not_known none h = refl
not_known (some x) h = cc

-- What a window promises of a call of `record`.
pub record Remembered (w : IdempotencyWindow) (op_id : Bytes) (seq : ℕ) (w' : IdempotencyWindow)
    : Type 0 where
  pub is_window : IsWindow w'
  pub same_capacity : w'.capacity ≡ w.capacity
  pub newest : get w' op_id ≡ some seq
  -- a new id is the newest, and the oldest ones are dropped down to the capacity
  pub order_new :
      lookup op_id w.seqs ≡ none
      → w'.order ≡ drop (length (w.order ++ (op_id ∷ [])) - w.capacity) (w.order ++ (op_id ∷ []))
  pub order_known : (old : ℕ) → lookup op_id w.seqs ≡ some old → w'.order ≡ w.order
  -- any other id is forgotten exactly if it has left the order
  pub others :
      (j : Bytes)
      → bytes_eq op_id j ≡ false
      → get w' j ≡ (if contains j w'.order then get w j else none)

module _ (w : IdempotencyWindow) (op_id : Bytes) (seq : ℕ) (v : IsWindow w) where
  others_known :
      (j : Bytes) (order : List Bytes) (m : ByteMap ℕ)
      → contains j order ≡ is_known (lookup j m)
      → lookup j m ≡ (if contains j order then lookup j m else none)
  others_known j order m h = ground arith

  Remembered-known :
      (old : ℕ)
      → lookup op_id w.seqs ≡ some old
      → Remembered w op_id seq (record w { seqs = insert op_id seq w.seqs })
  unfolding get
  Remembered-known old h = record {
    is_window = record {
      positive = v.positive;
      bounded = v.bounded;
      distinct = v.distinct;
      known = λ k.
          ground (
            arith,
            lookup-insert op_id k seq w.seqs,
            v.known k,
            v.known op_id,
            bytes_eq→eq op_id k,
          );
    };
    same_capacity = refl;
    newest = rw lookup-insert (rw bytes_eq_refl refl);
    order_new = λ fresh. cc;
    order_known = λ other same. refl;
    others = λ j ne. ground (arith, lookup-insert op_id j seq w.seqs, v.known j);
  }

  fresh_id : lookup op_id w.seqs ≡ none → contains op_id w.order ≡ false
  fresh_id h = ground (arith, v.known op_id)

  Remembered-room :
      lookup op_id w.seqs ≡ none
      → length w.order < w.capacity
      → Remembered w op_id seq
          (record w { order = w.order ++ (op_id ∷ []); seqs = insert op_id seq w.seqs })
  unfolding get
  Remembered-room h room =
      let size = length-append w.order (op_id ∷ []) in
      record {
        is_window = record {
          positive = v.positive;
          bounded = omega (arith, size);
          distinct = Distinct-snoc op_id w.order v.distinct (fresh_id h);
          known = λ k. ground (
            arith,
            lookup-insert op_id k seq w.seqs,
            v.known k,
            contains-append k w.order (op_id ∷ []),
          );
        };
        same_capacity = refl;
        newest = rw lookup-insert (rw bytes_eq_refl refl);
        order_new = λ fresh.
            let none_over : length (w.order ++ (op_id ∷ [])) - w.capacity ≡ 0 =
              omega (arith, size) in
            rw none_over;
        order_known = λ other same. cc;
        others = λ j ne. ground (
          arith,
          lookup-insert op_id j seq w.seqs,
          v.known j,
          contains-append j w.order (op_id ∷ []),
        );
      }

  Remembered-full :
      (old : Bytes) (rest : List Bytes)
      → lookup op_id w.seqs ≡ none
      → w.order ≡ old ∷ rest
      → length w.order ≡ w.capacity
      → Remembered w op_id seq
          (record w { order = rest ++ (op_id ∷ []); seqs = remove old (insert op_id seq w.seqs) })
  unfolding get
  Remembered-full old rest h full at =
      let size = length-append rest (op_id ∷ []) in
      let all = ap length full in
      let (once, distinct) = subst Distinct full v.distinct in
      let fresh = subst (λ t. contains op_id t ≡ false) full (fresh_id h) in
      let known =
        λ (k : Bytes). subst (λ t. is_known (lookup k w.seqs) ≡ contains k t) full (v.known k) in
      record {
        is_window = record {
          positive = v.positive;
          bounded = omega (arith, size);
          distinct = Distinct-snoc op_id rest distinct (ground arith);
          known = λ k. ground (
            arith,
            lookup-remove old k (insert op_id seq w.seqs),
            lookup-insert op_id k seq w.seqs,
            known k,
            contains-append k rest (op_id ∷ []),
            bytes_eq→eq old k,
            bytes_eq→eq op_id k,
            bytes_eq_refl old,
          );
        };
        same_capacity = refl;
        newest = ground (
          arith,
          lookup-remove old op_id (insert op_id seq w.seqs),
          lookup-insert op_id op_id seq w.seqs,
          bytes_eq_refl op_id,
          fresh,
        );
        order_new = λ unknown.
            let size' = length-append w.order (op_id ∷ []) in
            let one_over : length (w.order ++ (op_id ∷ [])) - w.capacity ≡ 1 =
              omega (arith, size') in
            rw one_over (sym (ap (λ t. drop 1 (t ++ (op_id ∷ []))) full));
        order_known = λ other same. cc;
        others = λ j ne. ground (
          arith,
          lookup-remove old j (insert op_id seq w.seqs),
          lookup-insert op_id j seq w.seqs,
          known j,
          contains-append j rest (op_id ∷ []),
          bytes_eq→eq old j,
          once,
        );
      }

  full_order :
      (order : List Bytes)
      → 1 ≤ length order
      → (old : Bytes) × (rest : List Bytes) × (order ≡ old ∷ rest)
  full_order [] h = absurd (omega arith)
  full_order (old ∷ rest) h = (old, rest, refl)

  -- The whole effect of recording an id in a window.
  pub remember_lem : Remembered w op_id seq (remember w op_id seq)
  remember_lem = elim (Option-cases (lookup op_id w.seqs)) [
    | inr (old, h) ↦
        subst (Remembered w op_id seq) (sym (remember_known w op_id seq old v h))
          (Remembered-known old h)
    | inl h ↦ elim (Bool-cases (ltb (length w.order) w.capacity)) [
      | inl room ↦
          let less = ltb→lt (length w.order) w.capacity room in
          subst (Remembered w op_id seq) (sym (remember_room w op_id seq h less))
            (Remembered-room h less)
      | inr full ↦
          let at : length w.order ≡ w.capacity = ground (arith, v.bounded) in
          let (old, rest, order) = full_order w.order (omega (arith, v.positive)) in
          subst (Remembered w op_id seq) (sym (remember_full w op_id old rest seq h order at))
            (Remembered-full old rest h order at)
    ]
  ]

pub new-IsWindow : (capacity : ℕ) → IsWindow (new capacity)
unfolding new lookup
new-IsWindow capacity = record {
  positive = omega arith;
  bounded = omega arith;
  distinct = tt;
  known = λ k. refl;
}
