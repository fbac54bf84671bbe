-- ===== src/Common/Results.antt =====
-- Rust's `Result`, with its `?` as the bind of a `do` block.
use mathlib.Core.Path.{◌≡◌, refl}
use mathlib.Core.Logic.{◌⊎◌, inl, inr}
use mathlib.Core.Bool.{Bool, true, false}
use mathlib.Core.Option.{Option, none, some}

pub data Result {ℓ κ} (E : Type ℓ) (A : Type κ) : Type (ℓ ⊔ κ) where
  ok : A → Result E A
  err : E → Result E A

module _ {ℓ} {E : Type ℓ} where
  infixl 5 ◌>>=◌ ◌>>◌
  -- `?`: the first error is the answer.
  abbrev pub ◌>>=◌ {κ μ} : {A : Type κ} {B : Type μ} → Result E A → (A → Result E B) → Result E B
  err cause >>= next = err cause
  ok value >>= next = next value

  -- The same where there is no value to pass on.
  abbrev pub ◌>>◌ {κ} : {B : Type κ} → Result E (Unit {0}) → Result E B → Result E B
  checked >> then_do = checked >>= λ done. then_do

  -- `if bad { return Err(e) }`
  abbrev pub refuse : Bool → E → Result E (Unit {0})
  refuse true e = err e
  refuse false e = ok tt

  -- `.ok_or(e)?`
  abbrev pub ok_or {κ} : {A : Type κ} → Option A → E → Result E A
  ok_or none e = err e
  ok_or (some a) e = ok a

  -- `.map_err(f)`
  abbrev pub map_err {κ μ} : {A : Type κ} {F : Type μ} → (F → E) → Result F A → Result E A
  map_err f (ok a) = ok a
  map_err f (err e) = err (f e)

  pub Result-cases {κ} :
      {A : Type κ} (r : Result E A) → ((a : A) × (r ≡ ok a)) ⊎ ((e : E) × (r ≡ err e))
  Result-cases (ok a) = inl (a, refl)
  Result-cases (err e) = inr (e, refl)

  -- A chain that succeeds has steps that succeed.
  pub >>=-eq-ok {κ μ} :
      {A : Type κ} {B : Type μ} (first : Result E A) (next : A → Result E B) {b : B}
      → (first >>= next) ≡ ok b
      → (value : A) × (first ≡ ok value) × (next value ≡ ok b)
  >>=-eq-ok (err cause) next h = cc
  >>=-eq-ok (ok value) next h = (value, refl, h)

pub ok_injective {ℓ κ} :
    {E : Type ℓ} {A : Type κ} {a b : A} → ◌≡◌ {A = Result E A} (ok a) (ok b) → a ≡ b
ok_injective h = cc

module _ {E : Type 0} where
  -- A test that did not refuse.
  pub refuse-passed :
      {A : Type 0} (b : Bool) (e : E) (next : Result E A) {a : A}
      → (refuse b e >> next) ≡ ok a
      → (b ≡ false) × (next ≡ ok a)
  refuse-passed true e next h = cc
  refuse-passed false e next h = (refl, h)

  pub ok_or-some : {A : Type 0} (o : Option A) (e : E) {a : A} → ok_or o e ≡ ok a → o ≡ some a
  ok_or-some none e h = cc
  ok_or-some (some b) e h = cc

  pub map_err-ok :
      {A F : Type 0} (f : F → E) (r : Result F A) {v : A} → map_err f r ≡ ok v → r ≡ ok v
  map_err-ok f (ok v) h = cc
  map_err-ok f (err e) h = cc
