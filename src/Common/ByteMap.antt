-- ===== src/Common/ByteMap.antt =====
-- Rust's `HashMap` over byte strings, as an association list that is read from the front. The
-- program never depends on the order in which it iterates over one.
use Prim.Native.Nat.{ℕ}
use mathlib.Core.Path.{◌≡◌, refl}
use mathlib.Core.Bool.{false}
use mathlib.Core.Option.{Option, none, some}
use mathlib.Core.List.{List, [], ◌∷◌}
use native.Mathlib.Omega.{arith}
use distr_hnsw.Common.Tests.{if◌then◌else◌, Bool-cases}
use distr_hnsw.Common.Lists.{bytes_eq, bytes_eq→eq, bytes_eq_refl}
use mathlib.Core.Logic.{◌≢◌, inl, inr}

abbrev pub Bytes : Type 0
Bytes = List ℕ

abbrev pub ByteMap {ℓ} : Type ℓ → Type ℓ
ByteMap V = List (Bytes × V)

module _ {ℓ} {V : Type ℓ} where
  unfoldable pub lookup : Bytes → ByteMap V → Option V
  lookup k [] = none
  lookup k ((j, v) ∷ m) = if bytes_eq j k then some v else lookup k m

  -- An entry in front hides the older one of its key.
  unfoldable pub insert : Bytes → V → ByteMap V → ByteMap V
  insert k v m = (k, v) ∷ m

  unfoldable pub remove : Bytes → ByteMap V → ByteMap V
  remove k [] = []
  remove k ((j, v) ∷ m) = let rest = remove k m in if bytes_eq j k then rest else (j, v) ∷ rest

  pub lookup-insert :
      (k j : Bytes) (v : V) (m : ByteMap V)
      → lookup j (insert k v m) ≡ (if bytes_eq k j then some v else lookup j m)
  unfolding lookup insert
  lookup-insert k j v m = refl

  pub lookup-remove :
      (k j : Bytes) (m : ByteMap V)
      → lookup j (remove k m) ≡ (if bytes_eq k j then none else lookup j m)
  unfolding lookup remove
  lookup-remove k j [] = ground arith
  lookup-remove k j ((i, v) ∷ m) = ground (
    arith,
    lookup-remove k j m,
    bytes_eq→eq i k,
    bytes_eq→eq i j,
    bytes_eq→eq k j,
    bytes_eq_refl j,
    bytes_eq_refl k,
  )

-- `into_iter().map(..).collect()` on the values
unfoldable pub map_values {ℓ κ} : {V : Type ℓ} {W : Type κ} → (V → W) → ByteMap V → ByteMap W
map_values f [] = []
map_values f ((k, v) ∷ m) = (k, f v) ∷ map_values f m

abbrev pub map_option {ℓ κ} : {V : Type ℓ} {W : Type κ} → (V → W) → Option V → Option W
map_option f none = none
map_option f (some v) = some (f v)

pub lookup-map_values {ℓ κ} :
    {V : Type ℓ} {W : Type κ} (f : V → W) (k : Bytes) (m : ByteMap V)
    → lookup k (map_values f m) ≡ map_option f (lookup k m)
unfolding lookup map_values
lookup-map_values f k [] = refl
lookup-map_values f k ((j, v) ∷ m) = elim (Bool-cases (bytes_eq j k)) [
  | inl same ↦ rw same
  | inr other ↦ rw other (lookup-map_values f k m)
]

pub bytes_eq_ne : (k j : Bytes) → k ≢ j → bytes_eq k j ≡ false
bytes_eq_ne k j h = elim (Bool-cases (bytes_eq k j)) [
  | inl same ↦ absurd (h (bytes_eq→eq k j same))
  | inr other ↦ other
]
