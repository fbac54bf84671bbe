-- ===== src/Common/Yields.antt =====
-- What the values of a decoder satisfy, whatever bytes it reads: a rule for each of its steps.
use distr_hnsw.Common.Lists.{length, All}
use distr_hnsw.Common.Results.{ok}
use distr_hnsw.Common.Bytes.{IsByte}
use distr_hnsw.Common.Reader.{Reader, pure, raise, ◌>>=◌, refuse, ok_or, take_bytes, uint, finish}
use distr_hnsw.Common.Readings.{
  pure_ok, raise_fails, bind_ok, refuse_ok, ok_or_ok, take_bytes_ok, uint_ok, finish_ok, All-split,
}
use Prim.Native.Nat.{ℕ, ◌^◌, ◌<◌}
use mathlib.Core.Path.{◌≡◌, subst}
use mathlib.Core.Bool.{Bool, false}
use mathlib.Core.Option.{Option, some}
use mathlib.Core.List.{List, []}

module _ {E : Type 0} where
  pub record Yields {A : Type 0} (m : Reader E A) (P : A → Type 0) : Type 0 where
    pub at : (s : List ℕ) (a : A) (r : List ℕ) → All IsByte s → m s ≡ ok (a, r) → P a × All IsByte r

  pub Yields-pure : {A : Type 0} (P : A → Type 0) (a : A) → P a → Yields (pure a) P
  Yields-pure P a p = record {
    at = λ s b r bytes h.
        let (value, rest) = pure_ok h in (subst P value p, subst (All IsByte) rest bytes);
  }

  pub Yields-raise : {A : Type 0} (P : A → Type 0) (e : E) → Yields (raise e) P
  Yields-raise P e = record { at = λ s a r bytes h. absurd (raise_fails e s h) }

  pub Yields-bind :
      {A B : Type 0} (P : A → Type 0) (Q : B → Type 0) (m : Reader E A) (f : A → Reader E B)
      → Yields m P
      → ((a : A) → P a → Yields (f a) Q)
      → Yields (m >>= f) Q
  Yields-bind P Q m f first next = record {
    at = λ s b r bytes h.
        let (a, t, read, done) = bind_ok m f h in
        let (p, later) = first.at s a t bytes read in (next a p).at t b r later done;
  }

  pub Yields-refuse : (b : Bool) (e : E) → Yields (refuse b e) (λ _. b ≡ false)
  Yields-refuse b e = record {
    at = λ s a r bytes h.
        let (passed, rest) = refuse_ok b e h in (passed, subst (All IsByte) rest bytes);
  }

  pub Yields-ok_or : {A : Type 0} (o : Option A) (e : E) → Yields (ok_or o e) (λ a. o ≡ some a)
  Yields-ok_or o e = record {
    at = λ s a r bytes h.
        let (found, rest) = ok_or_ok o e h in (found, subst (All IsByte) rest bytes);
  }

  pub Yields-take : (e : E) (n : ℕ) → Yields (take_bytes e n) (λ xs. length xs ≡ n)
  Yields-take e n = record {
    at = λ s xs r bytes h.
        let (split, size) = take_bytes_ok e n h in
        (size, (All-split IsByte xs r (subst (All IsByte) split bytes)).1);
  }

  pub Yields-uint : (e : E) (k : ℕ) → Yields (uint e k) (λ v. v < 256 ^ k)
  Yields-uint e k = record {
    at = λ s v r bytes h. let (_, low, later) = uint_ok e k bytes h in (low, later);
  }

  pub Yields-finish :
      {A : Type 0} (P : A → Type 0) (e : E) (m : Reader E A) (s : List ℕ) (a : A)
      → Yields m P
      → All IsByte s
      → finish e m s ≡ ok a
      → P a
  Yields-finish P e m s a yields bytes h = (yields.at s a [] bytes (finish_ok e m h)).0
