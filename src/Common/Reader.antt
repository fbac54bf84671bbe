-- ===== src/Common/Reader.antt =====
-- The cursor over a byte slice that the decoders share: `Reader` of wal.rs and of grant.rs.
-- A decoder is a function of the bytes left; it returns its value and what follows, or an error.
use Prim.Native.Nat.{ℕ, ◌^◌, ◌<◌}
use mathlib.Core.Path.{◌≡◌, refl}
use mathlib.Core.Bool.{Bool, true, false}
use mathlib.Core.Option.{Option, none, some}
use mathlib.Core.List.{List, [], ◌∷◌, ◌++◌, append-nil, append_assoc}
use native.Mathlib.Omega.{arith}
use distr_hnsw.Common.Tests.{ltb, le→ltb, if◌then◌else◌}
use distr_hnsw.Common.Lists.{length, take, drop, length-append, take-append, drop-append}
use distr_hnsw.Common.Results.{Result, ok, err}
use distr_hnsw.Common.Bytes.{to_le, from_le, length-to_le, from_le-to_le}

abbrev pub Reader {ℓ κ} : Type ℓ → Type κ → Type (ℓ ⊔ κ)
Reader E A = List ℕ → Result E (A × List ℕ)

module _ {ℓ} {E : Type ℓ} where
  unfoldable pub pure {κ} : {A : Type κ} → A → Reader E A
  pure a s = ok (a, s)

  unfoldable pub raise {κ} : {A : Type κ} → E → Reader E A
  raise e s = err e

  infixl 5 ◌>>=◌ ◌>>◌
  unfoldable pub ◌>>=◌ {κ μ} :
      {A : Type κ} {B : Type μ} → Reader E A → (A → Reader E B) → Reader E B
  ◌>>=◌ m f s = elim (m s) [ ok (a, s') ↦ f a s' | err e ↦ err e ]

  abbrev pub ◌>>◌ {κ} : {B : Type κ} → Reader E (Unit {0}) → Reader E B → Reader E B
  m >> k = m >>= λ _. k

  -- `if bad { return Err(e) }`
  unfoldable pub refuse : Bool → E → Reader E (Unit {0})
  refuse true e s = err e
  refuse false e s = ok (tt, s)

  -- `.ok_or(e)?`
  unfoldable pub ok_or {κ} : {A : Type κ} → Option A → E → Reader E A
  ok_or none e s = err e
  ok_or (some a) e s = ok (a, s)

  -- `take(n)?`, which fails with `e` where fewer bytes are left
  unfoldable pub take_bytes : E → ℕ → Reader E (List ℕ)
  take_bytes e n s = if ltb (length s) n then err e else ok (take n s, drop n s)

  -- an unsigned integer of `k` bytes
  unfoldable pub uint : E → ℕ → Reader E ℕ
  uint e k = take_bytes e k >>= λ bs. pure (from_le bs)

  -- the decoder at the end of the input: `e` if any byte is left
  unfoldable pub finish {κ} : {A : Type κ} → E → Reader E A → List ℕ → Result E A
  finish e m s = elim (m s) [ ok (a, []) ↦ ok a | ok (a, b ∷ bs) ↦ err e | err e' ↦ err e' ]

  -- `m` reads the bytes `xs` as `a`, whatever follows them.
  pub record Reads {κ} {A : Type κ} (m : Reader E A) (a : A) (xs : List ℕ) : Type (ℓ ⊔ κ) where
    pub at : (rest : List ℕ) → m (xs ++ rest) ≡ ok (a, rest)

  pub Reads-pure {κ} : {A : Type κ} (a : A) → Reads (pure a) a []
  unfolding pure
  Reads-pure a = record { at = λ rest. refl }

  pub Reads-bind {κ μ} :
      {A : Type κ} {B : Type μ} {m : Reader E A} {a : A} {b : B} {xs ys : List ℕ}
      (f : A → Reader E B)
      → Reads m a xs
      → Reads (f a) b ys
      → Reads (m >>= f) b (xs ++ ys)
  unfolding ◌>>=◌
  Reads-bind {m = m} {xs = xs} {ys} f hm hf = record {
    at = λ rest. rw append_assoc (rw (hm.at (ys ++ rest), ◌>>=◌) (hf.at rest));
  }

  -- A step that reads no byte.
  pub Reads-skip {κ μ} :
      {A : Type κ} {B : Type μ} {m : Reader E A} {a : A} {b : B} {ys : List ℕ} (f : A → Reader E B)
      → Reads m a []
      → Reads (f a) b ys
      → Reads (m >>= f) b ys
  Reads-skip f hm hf = Reads-bind f hm hf

  -- The last step's bytes end the encoding.
  pub Reads-last {κ μ} :
      {A : Type κ} {B : Type μ} {m : Reader E A} {a : A} {b : B} {xs : List ℕ} (f : A → Reader E B)
      → Reads m a xs
      → Reads (f a) b []
      → Reads (m >>= f) b xs
  unfolding ◌>>=◌
  Reads-last {m = m} {xs = xs} f hm hf = record { at = λ rest. rw (hm.at rest, ◌>>=◌) (hf.at rest) }

  pub Reads-refuse : (b : Bool) (e : E) → b ≡ false → Reads (refuse b e) tt []
  unfolding refuse
  Reads-refuse b e h = record { at = λ rest. rw h }

  pub Reads-ok_or {κ} :
      {A : Type κ} (o : Option A) (e : E) (a : A) → o ≡ some a → Reads (ok_or o e) a []
  unfolding ok_or
  Reads-ok_or o e a h = record { at = λ rest. rw h }

  pub Reads-take : (e : E) (n : ℕ) (xs : List ℕ) → n ≡ length xs → Reads (take_bytes e n) xs xs
  unfolding take_bytes
  Reads-take e n xs h = record {
    at = λ rest. rw (
      le→ltb (length (xs ++ rest)) n (omega (arith, length-append xs rest)),
      take-append xs rest n h,
      drop-append xs rest n h,
    );
  }

  pub Reads-uint : (e : E) (k v : ℕ) → v < 256 ^ k → Reads (uint e k) v (to_le k v)
  unfolding uint
  Reads-uint e k v h =
      Reads-last _ (Reads-take e k (to_le k v) (omega (arith, length-to_le k v)))
        (rw (from_le-to_le k v h) (Reads-pure v))

  pub Reads-finish {κ} :
      {A : Type κ} (e : E) {m : Reader E A} {a : A} {xs : List ℕ}
      → Reads m a xs
      → finish e m xs ≡ ok a
  unfolding finish
  Reads-finish e {m} {a} {xs} h =
      let at_end : m xs ≡ ok (a, []) = rw append-nil at (h.at []) in rw (at_end, finish)
