-- ===== src/Oracle/TopK.antt =====
-- oracle.rs: `TopK` and `search`; lib.rs: `Hit`. The standard library's heap is the list of its
-- elements, the greatest one last.
use distr_hnsw.Common.{
  ℕ, Bool, true, false, not, ◌&&◌, ◌||◌, Option, none, some, List, [], ◌∷◌, length, ltb, ◌==◌, ◌+◌,
  if◌then◌else◌,
}
use distr_hnsw.Common.Distance.{Distance, number, nan}

pub record Hit : Type 0 where
  pub id : ℕ
  pub distance : Distance

-- The order of the distances in `cmp_rank`: `partial_cmp`, with NaN behind all numbers.
abbrev pub rank_lt : Distance → Distance → Bool
rank_lt (number a) (number b) = ltb a b
rank_lt (number a) nan = true
rank_lt nan b = false

-- `cmp_rank` gives `Less`: by distance, then by id.
unfoldable pub ranks_before : Hit → Hit → Bool
ranks_before a b =
    rank_lt a.distance b.distance || (not (rank_lt b.distance a.distance) && ltb a.id b.id)

unfoldable pub heap_push : Hit → List Hit → List Hit
heap_push h [] = h ∷ []
heap_push h (x ∷ xs) =
    let rest = heap_push h xs in if ranks_before h x then h ∷ x ∷ xs else x ∷ rest

unfoldable pub heap_peek : List Hit → Option Hit
heap_peek [] = none
heap_peek (x ∷ []) = some x
heap_peek (x ∷ y ∷ xs) = heap_peek (y ∷ xs)

unfoldable pub heap_pop : List Hit → List Hit
heap_pop [] = []
heap_pop (x ∷ []) = []
heap_pop (x ∷ y ∷ xs) = x ∷ heap_pop (y ∷ xs)

unfoldable pub push_hit : ℕ → List Hit → Hit → List Hit
push_hit k heap hit =
    if k == 0
    then heap
    else if ltb (length heap) k
    then heap_push hit heap
    else elim (heap_peek heap) [
      | none ↦ heap
      | some worst ↦ if ranks_before hit worst then heap_push hit (heap_pop heap) else heap
    ]

-- `sort_by(cmp_rank)`, which is stable
abbrev pub insert_hit : Hit → List Hit → List Hit
insert_hit h [] = h ∷ []
insert_hit h (x ∷ xs) =
    let rest = insert_hit h xs in if ranks_before x h then x ∷ rest else h ∷ x ∷ xs

unfoldable pub into_sorted : List Hit → List Hit
into_sorted [] = []
into_sorted (x ∷ xs) = insert_hit x (into_sorted xs)

-- The loop of `search` over rows, numbered from `id` on. `distance_to` is the metric's distance to the
-- query.
unfoldable pub search_rows {ℓ} :
    {Row : Type ℓ} → (Row → Distance) → (ℕ → Bool) → ℕ → ℕ → List Row → List Hit → List Hit
search_rows distance_to allow k id [] top = top
search_rows distance_to allow k id (row ∷ rows) top =
    let pushed = push_hit k top (record { id = id; distance = distance_to row }) in
    search_rows distance_to allow k (id + 1) rows (if not (allow id) then top else pushed)

unfoldable pub search {ℓ} : {Row : Type ℓ} → (Row → Distance) → (ℕ → Bool) → ℕ → List Row → List Hit
search distance_to allow k rows = into_sorted (search_rows distance_to allow k 0 rows [])
