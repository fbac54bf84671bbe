-- ===== src/Oracle/Exact.antt =====
-- The collector keeps the first `k` hits of all that it was given, in rank order.
use distr_hnsw.Common.{
  ℕ, zero, suc, ◌+◌, ◌≤◌, ◌<◌, ◌≡◌, refl, sym, ap, ◌∙◌, Bool, true, false, not, ◌&&◌, ◌||◌, Option,
  none, some, List, [], ◌∷◌, length, take, length-take, ltb→lt, All, ltb, if◌then◌else◌, Bool-cases,
  inl, inr, arith,
}
use distr_hnsw.Oracle.TopK.{
  Hit, rank_lt, ranks_before, heap_push, heap_peek, heap_pop, push_hit, search_rows,
}
use distr_hnsw.Common.Distance.{Distance, number, nan}

-- All hits of the allowed rows in one heap.
unfoldable pub ranked {ℓ} :
    {Row : Type ℓ} → (Row → Distance) → (ℕ → Bool) → ℕ → List Row → List Hit → List Hit
ranked distance_to allow id [] seen = seen
ranked distance_to allow id (row ∷ rows) seen = ranked distance_to allow (id + 1) rows (
    if not (allow id)
    then seen
    else heap_push (record { id = id; distance = distance_to row }) seen)

abbrev pub Ranked : List Hit → Type 0
Ranked [] = Unit
Ranked (x ∷ xs) = All (λ y. ranks_before y x ≡ false) xs × Ranked xs

-- The order of two places, each a distance and an id.
abbrev pub before : Distance → ℕ → Distance → ℕ → Bool
before a i b j = rank_lt a b || (not (rank_lt b a) && ltb i j)

place_trans :
    (a b c : Distance) (i j k : ℕ)
    → before a i b j ≡ true
    → before c k b j ≡ false
    → before a i c k ≡ true
place_trans (number a) (number b) (number c) i j k p q = ground (arith, p, q)
place_trans (number a) (number b) nan i j k p q = ground (arith, p, q)
place_trans (number a) nan (number c) i j k p q = ground (arith, p, q)
place_trans (number a) nan nan i j k p q = ground (arith, p, q)
place_trans nan (number b) (number c) i j k p q = ground (arith, p, q)
place_trans nan (number b) nan i j k p q = ground (arith, p, q)
place_trans nan nan (number c) i j k p q = ground (arith, p, q)
place_trans nan nan nan i j k p q = ground (arith, p, q)

place_not : (a b : Distance) (i j : ℕ) → before a i b j ≡ true → before b j a i ≡ false
place_not (number a) (number b) i j p = ground (arith, p)
place_not (number a) nan i j p = ground (arith, p)
place_not nan (number b) i j p = ground (arith, p)
place_not nan nan i j p = ground (arith, p)

before_trans :
    (h x y : Hit) → ranks_before h x ≡ true → ranks_before y x ≡ false → ranks_before h y ≡ true
unfolding ranks_before
before_trans h x y a b = place_trans h.distance x.distance y.distance h.id x.id y.id a b

pub before_not : (h x : Hit) → ranks_before h x ≡ true → ranks_before x h ≡ false
unfolding ranks_before
before_not h x a = place_not h.distance x.distance h.id x.id a

not_before_trans :
    (h x y : Hit) → ranks_before h x ≡ true → ranks_before y x ≡ false → ranks_before y h ≡ false
not_before_trans h x y a b = before_not h y (before_trans h x y a b)

pub All-heap_push :
    (P : Hit → Type 0) (h : Hit) (xs : List Hit) → P h → All P xs → All P (heap_push h xs)
unfolding heap_push
All-heap_push P h [] p all = (p, tt)
All-heap_push P h (x ∷ xs) p (px, all) = elim (Bool-cases (ranks_before h x)) [
  | inl before ↦ rw before (p, (px, all))
  | inr after ↦ rw after (px, All-heap_push P h xs p all)
]

after-All :
    (h x : Hit) (xs : List Hit)
    → ranks_before h x ≡ true
    → All (λ y. ranks_before y x ≡ false) xs
    → All (λ y. ranks_before y h ≡ false) xs
after-All h x [] before all = tt
after-All h x (y ∷ xs) before (here, all) =
    (not_before_trans h x y before here, after-All h x xs before all)

pub heap_push-Ranked : (h : Hit) (xs : List Hit) → Ranked xs → Ranked (heap_push h xs)
unfolding heap_push
heap_push-Ranked h [] r = (tt, tt)
heap_push-Ranked h (x ∷ xs) (all, r) = elim (Bool-cases (ranks_before h x)) [
  | inl before ↦ rw before ((before_not h x before, after-All h x xs before all), (all, r))
  | inr after ↦
      rw after
        (All-heap_push (λ y. ranks_before y x ≡ false) h xs after all, heap_push-Ranked h xs r)
]

heap_pop-take : (k : ℕ) (xs : List Hit) → k < length xs → heap_pop (take (suc k) xs) ≡ take k xs
unfolding heap_pop
heap_pop-take k [] h = elim h [ ]
heap_pop-take zero (x ∷ xs) h = refl
heap_pop-take (suc k) (x ∷ []) h = absurd (omega arith)
heap_pop-take (suc k) (x ∷ y ∷ xs) h = ap (λ t. x ∷ t) (heap_pop-take k (y ∷ xs) (omega arith))

-- The greatest of the first hits.
peek_found :
    (P : Hit → Type 0) (k : ℕ) (xs : List Hit)
    → k < length xs
    → All P xs
    → (w : Hit) × (heap_peek (take (suc k) xs) ≡ some w) × P w
unfolding heap_peek
peek_found P k [] h all = elim h [ ]
peek_found P zero (x ∷ xs) h (p, all) = (x, refl, p)
peek_found P (suc k) (x ∷ []) h all = absurd (omega arith)
peek_found P (suc k) (x ∷ y ∷ xs) h (p, all) = peek_found P k (y ∷ xs) (omega arith) all

abbrev replaced : Hit → Option Hit → List Hit → List Hit
replaced h none heap = heap
replaced h (some worst) heap = if ranks_before h worst then heap_push h (heap_pop heap) else heap

replaced_full :
    (h : Hit) (k : ℕ) (xs : List Hit)
    → k < length xs
    → Ranked xs
    → replaced h (heap_peek (take (suc k) xs)) (take (suc k) xs) ≡ take (suc k) (heap_push h xs)
unfolding heap_push heap_peek heap_pop
replaced_full h k [] low r = elim low [ ]
replaced_full h zero (x ∷ xs) low r = ground arith
replaced_full h (suc k) (x ∷ []) low r = absurd (omega arith)
replaced_full h (suc k) (x ∷ y ∷ xs) low (all, r) =
    let low' : k < length (y ∷ xs) = omega arith in
    let (w, at, ordered) = peek_found (λ y. ranks_before y x ≡ false) k (y ∷ xs) low' all in
    let pop = heap_pop-take k (y ∷ xs) low' in
    let deeper = replaced_full h k (y ∷ xs) low' r in
    elim (Bool-cases (ranks_before h x)) [
      | inl before ↦ ground (arith, at, pop, before, before_trans h x w before ordered)
      | inr after ↦ elim (Bool-cases (ranks_before h w)) [
        | inl better ↦ ground (arith, at, after, better, deeper)
        | inr worse ↦ ground (arith, at, after, worse, deeper)
      ]
    ]

pub take_all : (n : ℕ) (xs : List Hit) → length xs ≤ n → take n xs ≡ xs
take_all zero [] h = refl
take_all (suc n) [] h = refl
take_all zero (x ∷ xs) h = absurd (omega arith)
take_all (suc n) (x ∷ xs) h = ap (λ t. x ∷ t) (take_all n xs (omega arith))

length-heap_push : (h : Hit) (xs : List Hit) → length (heap_push h xs) ≡ length xs + 1
unfolding heap_push
length-heap_push h [] = refl
length-heap_push h (x ∷ xs) = ground (arith, length-heap_push h xs)

push_room :
    (k : ℕ) (heap : List Hit) (h : Hit) → length heap < k → push_hit k heap h ≡ heap_push h heap
unfolding push_hit
push_room k heap h low = ground (arith, low)

push_full :
    (k : ℕ) (heap : List Hit) (h : Hit)
    → 0 < k
    → length heap ≡ k
    → push_hit k heap h ≡ replaced h (heap_peek heap) heap
unfolding push_hit
push_full k heap h pos size = ground (arith, pos, size)

push_hit-take :
    (k : ℕ) (xs : List Hit) (h : Hit)
    → Ranked xs
    → push_hit k (take k xs) h ≡ take k (heap_push h xs)
push_hit-take zero xs h r = unfold push_hit in refl
push_hit-take (suc k) xs h r = elim (Bool-cases (ltb (length xs) (suc k))) [
  | inl low ↦
      let room : length xs < suc k = ltb→lt (length xs) (suc k) low in
      ap (λ t. push_hit (suc k) t h) (take_all (suc k) xs (omega arith))
      ∙ push_room (suc k) xs h room
      ∙ sym (take_all (suc k) (heap_push h xs) (omega (arith, length-heap_push h xs)))
  | inr high ↦
      let full : k < length xs = ground (arith, high) in
      push_full (suc k) (take (suc k) xs) h (omega arith) (omega (arith, length-take (suc k) xs))
      ∙ replaced_full h k xs full r
]

pub search_rows-ranked {ℓ} :
    {Row : Type ℓ} (distance_to : Row → Distance) (allow : ℕ → Bool) (k id : ℕ) (rows : List Row)
    (seen : List Hit)
    → Ranked seen
    → (search_rows distance_to allow k id rows (take k seen)
        ≡ take k (ranked distance_to allow id rows seen))
      × Ranked (ranked distance_to allow id rows seen)
unfolding search_rows ranked
search_rows-ranked distance_to allow k id [] seen r = (refl, r)
search_rows-ranked distance_to allow k id (row ∷ rows) seen r =
    let hit : Hit = record { id = id; distance = distance_to row } in
    elim (Bool-cases (allow id)) [
      | inr hidden ↦ rw hidden (search_rows-ranked distance_to allow k (id + 1) rows seen r)
      | inl shown ↦
          rw (shown, push_hit-take k seen hit r)
            (search_rows-ranked distance_to allow k (id + 1) rows (heap_push hit seen)
              (heap_push-Ranked hit seen r))
    ]
