-- ===== src/Oracle/Best.antt =====
-- What exact search promises, against a description of the best hits that knows no heap.
use distr_hnsw.Common.{ℕ, ◌+◌, ◌<◌, ◌≡◌, ◌⊎◌, Bool, List, [], ◌∷◌, All, if◌then◌else◌}
use mathlib.Core.List.{Permᴰ}
use mathlib.Core.List.Permᴰ
use distr_hnsw.Common.Distance.{Distance, number, nan}
use distr_hnsw.Oracle.TopK.{Hit}

-- The order of distances: numbers by their size, and all of them before NaN.
abbrev pub Nearer : Distance → Distance → Type 0
Nearer (number a) (number b) = a < b
Nearer (number a) nan = Unit
Nearer nan b = ⊥

-- Nearer, or as near with a smaller id.
abbrev pub Precedes : Hit → Hit → Type 0
Precedes a b = Nearer a.distance b.distance ⊎ ((a.distance ≡ b.distance) × (a.id < b.id))

abbrev pub Ascending : List Hit → Type 0
Ascending [] = Unit
Ascending (x ∷ xs) = All (λ y. Precedes x y) xs × Ascending xs

-- The hits of the allowed rows, in the order of the rows.
unfoldable pub allowed_hits {ℓ} :
    {Row : Type ℓ} → (Row → Distance) → (ℕ → Bool) → ℕ → List Row → List Hit
allowed_hits distance_to allow id [] = []
allowed_hits distance_to allow id (row ∷ rows) =
    let rest = allowed_hits distance_to allow (id + 1) rows in
    if allow id then record { id = id; distance = distance_to row } ∷ rest else rest

abbrev Ahead : Distance → ℕ → Distance → ℕ → Type 0
Ahead a i b j = Nearer a b ⊎ ((a ≡ b) × (i < j))

abbrev Below : ℕ → List Hit → Type 0
Below id = All (λ x. x.id < id)
