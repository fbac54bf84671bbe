-- ===== src/Common/Readings.antt =====
-- What a decoder that succeeds has read: the inverse of the rules for `Reads`.
use distr_hnsw.Common.Tests.{ltb, Bool-cases}
use distr_hnsw.Common.Lists.{length, take, drop, All, length-take, take-append-drop}
use distr_hnsw.Common.Results.{Result, ok, err, ok_injective}
use distr_hnsw.Common.Bytes.{IsByte, to_le, from_le, to_le-from_le, from_le-lt}
use distr_hnsw.Common.Reader.{Reader, pure, raise, ◌>>=◌, refuse, ok_or, take_bytes, uint, finish}
use Prim.Native.Nat.{ℕ, ◌^◌, ◌≤◌, ◌<◌}
use mathlib.Core.Path.{◌≡◌, refl, sym, subst, ap, ap₂, ◌∙◌}
use mathlib.Core.Logic.{inl, inr}
use mathlib.Core.Bool.{Bool, true, false}
use mathlib.Core.Option.{Option, none, some}
use mathlib.Core.List.{List, [], ◌∷◌, ◌++◌}
use native.Mathlib.Omega.{arith}

ltb-false-le : (a b : ℕ) → ltb a b ≡ false → b ≤ a
ltb-false-le a b h = ground arith

pub All-split {ℓ κ} :
    {A : Type ℓ} (P : A → Type κ) (xs ys : List A) → All P (xs ++ ys) → All P xs × All P ys
All-split P [] ys h = (tt, h)
All-split P (x ∷ xs) ys (here, h) = let (left, right) = All-split P xs ys h in ((here, left), right)

module _ {ℓ} {E : Type ℓ} where
  pub pure_ok {κ} :
      {A : Type κ} {a b : A} {s r : List ℕ} → pure {E = E} a s ≡ ok (b, r) → (a ≡ b) × (s ≡ r)
  unfolding pure
  pure_ok h = (cc, cc)

  pub raise_fails {κ} :
      {A : Type κ} (e : E) (s : List ℕ) {a : A} {r : List ℕ} → raise e s ≡ ok (a, r) → ⊥
  unfolding raise
  raise_fails e s h = cc

  bind_at {κ μ} :
      {A : Type κ} {B : Type μ} (f : A → Reader E B) (m : Result E (A × List ℕ)) {b : B}
      {r : List ℕ}
      → elim m as (λ _. Result E (B × List ℕ)) [ ok (a, t) ↦ f a t | err e ↦ err e ] ≡ ok (b, r)
      → (a : A) × (t : List ℕ) × (m ≡ ok (a, t)) × (f a t ≡ ok (b, r))
  bind_at f (ok (a, t)) h = (a, t, refl, h)
  bind_at f (err e) h = cc

  -- A chain that succeeds has read with its first step, and then with the rest.
  pub bind_ok {κ μ} :
      {A : Type κ} {B : Type μ} (m : Reader E A) (f : A → Reader E B) {b : B} {s r : List ℕ}
      → (m >>= f) s ≡ ok (b, r)
      → (a : A) × (t : List ℕ) × (m s ≡ ok (a, t)) × (f a t ≡ ok (b, r))
  unfolding ◌>>=◌
  bind_ok m f {s = s} h = bind_at f (m s) h

  pub refuse_ok :
      (b : Bool) (e : E) {u : Unit {0}} {s r : List ℕ}
      → refuse b e s ≡ ok (u, r)
      → (b ≡ false) × (s ≡ r)
  unfolding refuse
  refuse_ok true e h = cc
  refuse_ok false e h = (refl, cc)

  pub ok_or_ok {κ} :
      {A : Type κ} (o : Option A) (e : E) {a : A} {s r : List ℕ}
      → ok_or o e s ≡ ok (a, r)
      → (o ≡ some a) × (s ≡ r)
  unfolding ok_or
  ok_or_ok none e h = cc
  ok_or_ok (some a) e h = (cc, cc)

  pub take_bytes_ok :
      (e : E) (n : ℕ) {xs s r : List ℕ}
      → take_bytes e n s ≡ ok (xs, r)
      → (s ≡ xs ++ r) × (length xs ≡ n)
  unfolding take_bytes
  take_bytes_ok e n {xs} {s} {r} h = elim (Bool-cases (ltb (length s) n)) [
    | inl short ↦ absurd (ground (arith, short))
    | inr long ↦
        let front : take n s ≡ xs = ground (arith, long) in
        let back : drop n s ≡ r = ground (arith, long) in
        (
          sym (take-append-drop n s) ∙ ap₂ (λ a b. a ++ b) front back,
          omega (arith, ap length front, length-take n s, ltb-false-le (length s) n long),
        )
  ]

  pub uint_ok :
      (e : E) (k : ℕ) {v : ℕ} {s r : List ℕ}
      → All IsByte s
      → uint e k s ≡ ok (v, r)
      → (s ≡ to_le k v ++ r) × (v < 256 ^ k) × All IsByte r
  unfolding uint
  uint_ok e k {v} {s} {r} bytes h =
      let (xs, t, taken, done) = bind_ok (take_bytes e k) _ h in
      let (value, rest) = pure_ok done in
      let (split, size) = take_bytes_ok e k taken in
      let (here, later) = All-split IsByte xs t (subst (All IsByte) split bytes) in
      let back : to_le k v ≡ xs =
        ap (to_le k) (sym value)
        ∙ ap (λ n. to_le n (from_le xs)) (sym size)
        ∙ to_le-from_le xs here in
      (
        split ∙ ap₂ (λ a b. a ++ b) (sym back) rest,
        subst (λ n. v < 256 ^ n) size (subst (λ w. w < 256 ^ length xs) value (from_le-lt xs here)),
        subst (All IsByte) rest later,
      )

  pub finish_ok {κ} :
      {A : Type κ} (e : E) (m : Reader E A) {a : A} {s : List ℕ}
      → finish e m s ≡ ok a
      → m s ≡ ok (a, [])
  unfolding finish
  finish_ok e m {s = s} h = finish_at (m s) h
    where
      finish_at :
          {A : Type κ} {a : A} (q : Result E (A × List ℕ))
          → elim q as (λ _. Result E A) [
            | ok (a, []) ↦ ok a
            | ok (a, b ∷ bs) ↦ err e
            | err e' ↦ err e'
          ]
            ≡ ok a
          → q ≡ ok (a, [])
      finish_at (ok (a, [])) h = ap (λ t. ok (t, [])) (ok_injective h)
      finish_at (ok (a, b ∷ bs)) h = cc
      finish_at (err e) h = cc
