-- ===== src/Common/Bytes.antt =====
-- Little-endian encodings of unsigned integers, as `to_le_bytes` and `from_le_bytes` do.
use native.Mathlib.Nat.{pow-suc}
use mathlib.Core.Path.{◌≡◌, refl, ap, ap₂, ◌∙◌}
use mathlib.Core.List.{List, [], ◌∷◌}
use Prim.Native.Nat.{ℕ, zero, suc, ◌+◌, ◌*◌, ◌/◌, ◌%◌, ◌^◌, ◌<◌}
use native.Mathlib.Omega.{arith}
use distr_hnsw.Common.Lists.{length, All}

abbrev pub IsByte : ℕ → Type 0
IsByte b = b < 256

-- The low `k` bytes of a number, the lowest first.
unfoldable pub to_le : ℕ → ℕ → List ℕ
to_le zero v = []
to_le (suc k) v = (v % 256) ∷ to_le k (v / 256)

unfoldable pub from_le : List ℕ → ℕ
from_le [] = 0
from_le (b ∷ bs) = b + 256 * from_le bs

pub length-to_le : (k v : ℕ) → length (to_le k v) ≡ k
unfolding to_le
length-to_le zero v = refl
length-to_le (suc k) v = ap suc (length-to_le k (v / 256))

pub to_le-IsByte : (k v : ℕ) → All IsByte (to_le k v)
unfolding to_le
to_le-IsByte zero v = tt
to_le-IsByte (suc k) v = (omega arith, to_le-IsByte k (v / 256))

pub from_le-to_le : (k v : ℕ) → v < 256 ^ k → from_le (to_le k v) ≡ v
unfolding to_le from_le
from_le-to_le zero v h = omega arith
from_le-to_le (suc k) v h = omega (arith, from_le-to_le k (v / 256) (omega arith))

pub to_le-from_le : (bs : List ℕ) → All IsByte bs → to_le (length bs) (from_le bs) ≡ bs
unfolding to_le from_le
to_le-from_le [] h = refl
to_le-from_le (b ∷ bs) (hb, hs) =
    ap₂ (λ x y. x ∷ y) (omega arith)
      (ap (to_le (length bs)) {x = (b + 256 * from_le bs) / 256} {y = from_le bs} (omega arith)
        ∙ to_le-from_le bs hs)

pub from_le-lt : (bs : List ℕ) → All IsByte bs → from_le bs < 256 ^ length bs
unfolding from_le
from_le-lt [] h = omega arith
from_le-lt (b ∷ bs) (hb, hs) = rw pow-suc (omega (arith, from_le-lt bs hs))
