-- ===== src/Common/Takes.antt =====
-- Which bytes a decoder takes for a value: `R xs a` holds of the bytes taken and the value, by a rule
-- for each step.
use distr_hnsw.Common.Lists.{length, All}
use distr_hnsw.Common.Results.{ok}
use distr_hnsw.Common.Bytes.{IsByte, to_le}
use distr_hnsw.Common.Reader.{Reader, pure, raise, ◌>>=◌, refuse, ok_or, take_bytes, uint, finish}
use distr_hnsw.Common.Readings.{
  raise_fails, ok_or_ok, pure_ok, bind_ok, refuse_ok, take_bytes_ok, uint_ok, finish_ok, All-split,
}
use Prim.Native.Nat.{ℕ, ◌^◌, ◌<◌}
use mathlib.Core.Path.{◌≡◌, refl, sym, ap, subst, ◌∙◌}
use mathlib.Core.Bool.{Bool, false}
use mathlib.Core.Option.{Option, some}
use mathlib.Core.List.{List, [], ◌++◌, append_assoc, append-nil}

module _ {E : Type 0} where
  pub record Takes {A : Type 0} (m : Reader E A) (R : List ℕ → A → Type 0) : Type 0 where
    pub at :
        (s : List ℕ) (a : A) (r : List ℕ)
        → All IsByte s
        → m s ≡ ok (a, r)
        → (xs : List ℕ) × (s ≡ xs ++ r) × R xs a × All IsByte r

  pub Takes-pure : {A : Type 0} (R : List ℕ → A → Type 0) (a : A) → R [] a → Takes (pure a) R
  Takes-pure R a holds = record {
    at = λ s b r bytes h.
        let (value, rest) = pure_ok h in
        ([], rest, subst (R []) value holds, subst (All IsByte) rest bytes);
  }

  pub Takes-bind :
      {A B : Type 0} {Q : List ℕ → A → Type 0} (R : List ℕ → B → Type 0) (m : Reader E A)
      (f : A → Reader E B)
      → Takes m Q
      → ((xs : List ℕ) (a : A) → Q xs a → Takes (f a) (λ ys b. R (xs ++ ys) b))
      → Takes (m >>= f) R
  Takes-bind R m f first next = record {
    at = λ s b r bytes h.
        let (a, t, read, done) = bind_ok m f h in
        let (xs, split, holds, later) = first.at s a t bytes read in
        let (ys, split', result, rest) = (next xs a holds).at t b r later done in
        (xs ++ ys, split ∙ ap (λ u. xs ++ u) split' ∙ sym (append_assoc xs ys r), result, rest);
  }

  pub Takes-weaken :
      {A : Type 0} {R : List ℕ → A → Type 0} (Q : List ℕ → A → Type 0) {m : Reader E A}
      → Takes m R
      → ((xs : List ℕ) (a : A) → R xs a → Q xs a)
      → Takes m Q
  Takes-weaken Q takes f = record {
    at = λ s a r bytes h.
        let (xs, split, holds, later) = takes.at s a r bytes h in (xs, split, f xs a holds, later);
  }

  pub Takes-raise : {A : Type 0} (R : List ℕ → A → Type 0) (e : E) → Takes (raise e) R
  Takes-raise R e = record { at = λ s a r bytes h. absurd (raise_fails e s h) }

  pub Takes-ok_or :
      {A : Type 0} (o : Option A) (e : E) → Takes (ok_or o e) (λ xs a. (xs ≡ []) × (o ≡ some a))
  Takes-ok_or o e = record {
    at = λ s a r bytes h.
        let (found, rest) = ok_or_ok o e h in
        ([], rest, (refl, found), subst (All IsByte) rest bytes);
  }

  pub Takes-refuse : (b : Bool) (e : E) → Takes (refuse b e) (λ xs _. (xs ≡ []) × (b ≡ false))
  Takes-refuse b e = record {
    at = λ s a r bytes h.
        let (passed, rest) = refuse_ok b e h in
        ([], rest, (refl, passed), subst (All IsByte) rest bytes);
  }

  pub Takes-take : (e : E) (n : ℕ) → Takes (take_bytes e n) (λ xs a. (xs ≡ a) × (length a ≡ n))
  Takes-take e n = record {
    at = λ s a r bytes h.
        let (split, size) = take_bytes_ok e n h in
        (a, split, (refl, size), (All-split IsByte a r (subst (All IsByte) split bytes)).1);
  }

  pub Takes-take_low : (e : E) (n : ℕ) → Takes (take_bytes e n) (λ xs a. (xs ≡ a) × All IsByte a)
  Takes-take_low e n = record {
    at = λ s a r bytes h.
        let (split, _) = take_bytes_ok e n h in
        let (low, later) = All-split IsByte a r (subst (All IsByte) split bytes) in
        (a, split, (refl, low), later);
  }

  pub Takes-uint : (e : E) (k : ℕ) → Takes (uint e k) (λ xs v. (xs ≡ to_le k v) × (v < 256 ^ k))
  Takes-uint e k = record {
    at = λ s v r bytes h.
        let (split, low, later) = uint_ok e k bytes h in (to_le k v, split, (refl, low), later);
  }

  pub Takes-finish :
      {A : Type 0} (R : List ℕ → A → Type 0) (e : E) (m : Reader E A) (s : List ℕ) (a : A)
      → Takes m R
      → All IsByte s
      → finish e m s ≡ ok a
      → R s a
  Takes-finish R e m s a takes bytes h =
      let (xs, split, holds, _) = takes.at s a [] bytes (finish_ok e m h) in
      subst (λ ys. R ys a) (sym (split ∙ append-nil xs)) holds
