-- ===== src/Oracle/Examples.antt =====
-- A run of exact search on five rows, of which the second is hidden and the third has no distance.
use distr_hnsw.Common.{ℕ, ◌≡◌, refl, Bool, not, ◌==◌, List, [], ◌∷◌}
use distr_hnsw.Common.Distance.{Distance, number, nan}
use distr_hnsw.Oracle.TopK.{
  ranks_before, heap_push, heap_peek, heap_pop, push_hit, search_rows, into_sorted, search,
}

abbrev rows : List Distance
rows = number 4 ∷ number 1 ∷ nan ∷ number 2 ∷ number 4 ∷ []

abbrev shown : ℕ → Bool
shown id = not (id == 1)

best_two :
    search (λ d. d) shown 2 rows
    ≡ record { id = 3; distance = number 2 } ∷ record { id = 0; distance = number 4 } ∷ []
unfolding search search_rows push_hit heap_push heap_peek heap_pop into_sorted ranks_before
best_two = refl
