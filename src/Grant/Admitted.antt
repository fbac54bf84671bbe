-- ===== src/Grant/Admitted.antt =====
-- What a grant must say to be accepted, against the checks of `KeySet::verify`.
use distr_hnsw.Common.{
  not-false, refuse-passed, ◌≡◌, refl, sym, ap, subst, ◌∙◌, Bool, true, false, ◌||◌, ◌&&◌, some,
  ltb, ◌==◌, ==_iff, bytes_eq, bytes_eq→eq, bytes_eq_refl, Bool-cases, Option-cases, inl, inr, ok,
  ok_injective, arith,
}
use distr_hnsw.Common.Int.{
  ℤ, pos, ◌+ℤ◌, ◌≤ℤ◌, ltℤ, IsI64, saturating_add, saturating_sub, saturating_add_iff,
  saturating_sub_iff,
}
use distr_hnsw.Grant.Types.{
  Bytes, ObjectKind, Operation, delete, Scope, agent, kind, object, Grant, code, from_code,
  kind_code, kind_from, max_grant_lifetime_seconds, clock_skew_seconds,
}
use distr_hnsw.Grant.BodyCodec.{from_code-code, kind_from-kind_code}
use distr_hnsw.Grant.Keys.{KeySet}
use distr_hnsw.Grant.Verify.{Expectation, operation_eq, scope_eq, is_none, check_grant}

-- The times are compared as integers, with no bound.
pub record IsAdmitted (s : KeySet) (expected : Expectation) (now : ℤ) (g : Grant) : Type 0 where
  pub epoch : g.epoch ≡ s.epoch
  pub agent_id : g.agent_id ≡ expected.agent_id
  pub operation : g.operation ≡ expected.operation
  pub scope : g.scope ≡ expected.scope
  pub gc_proof : g.operation ≡ delete → (proof : Bytes) × (g.gc_proof ≡ some proof)
  pub ordered : g.issued_at ≤ℤ g.expires_at
  pub lifetime : g.expires_at ≤ℤ g.issued_at +ℤ pos max_grant_lifetime_seconds
  pub in_time : now ≤ℤ g.expires_at +ℤ pos clock_skew_seconds
  pub begun : g.issued_at ≤ℤ now +ℤ pos clock_skew_seconds

pub ltℤ_false : (a b : ℤ) → ltℤ a b ≡ false → b ≤ℤ a
ltℤ_false a b h = ground (arith, h)

pub le→ltℤ : (a b : ℤ) → b ≤ℤ a → ltℤ a b ≡ false
le→ltℤ a b h = ground (arith, h)

some_injective : {A : Type 0} {a b : A} → some a ≡ some b → a ≡ b
some_injective h = cc

operation_eq→eq : (a b : Operation) → operation_eq a b ≡ true → a ≡ b
operation_eq→eq a b h = some_injective (
    sym (from_code-code a).0 ∙ ap from_code ((==_iff (code a) (code b)).0 h) ∙ (from_code-code b).0)

kind_eq→eq : (a b : ObjectKind) → (kind_code a == kind_code b) ≡ true → a ≡ b
kind_eq→eq a b h = some_injective (
    sym (kind_from-kind_code a).0
    ∙ ap kind_from ((==_iff (kind_code a) (kind_code b)).0 h)
    ∙ (kind_from-kind_code b).0)

scope_eq→eq : (a b : Scope) → scope_eq a b ≡ true → a ≡ b
scope_eq→eq agent agent h = refl
scope_eq→eq agent (kind k) h = cc
scope_eq→eq agent (object k hash) h = cc
scope_eq→eq (kind j) agent h = cc
scope_eq→eq (kind j) (kind k) h = ap kind (kind_eq→eq j k h)
scope_eq→eq (kind j) (object k hash) h = cc
scope_eq→eq (object j a) agent h = cc
scope_eq→eq (object j a) (kind k) h = cc
scope_eq→eq (object j a) (object k b) h = ground (arith, kind_eq→eq j k, bytes_eq→eq a b, h)

scope_eq_refl : (a : Scope) → scope_eq a a ≡ true
scope_eq_refl agent = refl
scope_eq_refl (kind k) = ground arith
scope_eq_refl (object k hash) = ground (arith, bytes_eq_refl hash)

-- The nine tests of `check_grant`, none of which refuses.
pub record Passes (s : KeySet) (expected : Expectation) (now : ℤ) (g : Grant) : Type 0 where
  pub not_stale : ltb g.epoch s.epoch ≡ false
  pub not_newer : ltb s.epoch g.epoch ≡ false
  pub same_agent : bytes_eq g.agent_id expected.agent_id ≡ true
  pub same_operation : operation_eq g.operation expected.operation ≡ true
  pub same_scope : scope_eq g.scope expected.scope ≡ true
  pub proved : operation_eq g.operation delete && is_none g.gc_proof ≡ false
  pub short : ltℤ (pos max_grant_lifetime_seconds) (saturating_sub g.expires_at g.issued_at) ≡ false
  pub forward : ltℤ g.expires_at g.issued_at ≡ false
  pub in_time : ltℤ (saturating_add g.expires_at (pos clock_skew_seconds)) now ≡ false
  pub begun : ltℤ (saturating_add now (pos clock_skew_seconds)) g.issued_at ≡ false

or_false : (a b : Bool) → (a || b) ≡ false → (a ≡ false) × (b ≡ false)
or_false a b h = ground arith

pub check_grant-Passes :
    (s : KeySet) (expected : Expectation) (now : ℤ) (g h : Grant)
    → check_grant s expected now g ≡ ok h
    → Passes s expected now g × (g ≡ h)
unfolding check_grant
check_grant-Passes s expected now g h e =
    let (a, e1) = refuse-passed _ _ _ e in
    let (b, e2) = refuse-passed _ _ _ e1 in
    let (c, e3) = refuse-passed _ _ _ e2 in
    let (d, e4) = refuse-passed _ _ _ e3 in
    let (f, e5) = refuse-passed _ _ _ e4 in
    let (p, e6) = refuse-passed _ _ _ e5 in
    let (l, e7) = refuse-passed _ _ _ e6 in
    let (i, e8) = refuse-passed _ _ _ e7 in
    let (j, e9) = refuse-passed _ _ _ e8 in
    let (short, forward) = or_false _ _ l in
    (
      record {
        not_stale = a;
        not_newer = b;
        same_agent = not-false _ c;
        same_operation = not-false _ d;
        same_scope = not-false _ f;
        proved = p;
        short = short;
        forward = forward;
        in_time = i;
        begun = j;
      },
      ok_injective e9,
    )

pub Passes-check_grant :
    (s : KeySet) (expected : Expectation) (now : ℤ) (g : Grant)
    → Passes s expected now g
    → check_grant s expected now g ≡ ok g
unfolding check_grant
Passes-check_grant s expected now g p =
    rw
      (
        p.not_stale, p.not_newer, p.same_agent, p.same_operation, p.same_scope, p.proved, p.short,
        p.forward, p.in_time, p.begun,
      )
      refl

proof_there :
    (g : Grant)
    → g.operation ≡ delete
    → operation_eq g.operation delete && is_none g.gc_proof ≡ false
    → (proof : Bytes) × (g.gc_proof ≡ some proof)
proof_there g is_delete h = elim (Option-cases g.gc_proof) [
  | inl missing ↦ absurd (ground (arith, is_delete, missing, h))
  | inr there ↦ there
]

proof_given :
    (g : Grant)
    → (g.operation ≡ delete → (proof : Bytes) × (g.gc_proof ≡ some proof))
    → operation_eq g.operation delete && is_none g.gc_proof ≡ false
proof_given g h = elim (Bool-cases (operation_eq g.operation delete)) [
  | inl is_delete ↦
      let (proof, there) = h (operation_eq→eq _ _ is_delete) in ground (arith, is_delete, there)
  | inr other ↦ ground (arith, other)
]

operation_eq_refl : (o : Operation) → operation_eq o o ≡ true
operation_eq_refl o = ground arith

module _ (s : KeySet) (expected : Expectation) (now : ℤ) (g : Grant) where
  short_iff :
      ltℤ (pos max_grant_lifetime_seconds) (saturating_sub g.expires_at g.issued_at)
      ≡ ltℤ (g.issued_at +ℤ pos max_grant_lifetime_seconds) g.expires_at
  short_iff = saturating_sub_iff g.expires_at g.issued_at max_grant_lifetime_seconds (omega arith)

  pub Passes-IsAdmitted :
      IsI64 now
      → IsI64 g.issued_at
      → IsI64 g.expires_at
      → Passes s expected now g
      → IsAdmitted s expected now g
  Passes-IsAdmitted i j k p = record {
    epoch = ground (arith, p.not_stale, p.not_newer);
    agent_id = bytes_eq→eq _ _ p.same_agent;
    operation = operation_eq→eq _ _ p.same_operation;
    scope = scope_eq→eq _ _ p.same_scope;
    gc_proof = λ is_delete. proof_there g is_delete p.proved;
    ordered = ltℤ_false g.expires_at g.issued_at p.forward;
    lifetime =
        ltℤ_false (g.issued_at +ℤ pos max_grant_lifetime_seconds) g.expires_at
          (sym short_iff ∙ p.short);
    in_time =
        ltℤ_false (g.expires_at +ℤ pos clock_skew_seconds) now
          (sym (saturating_add_iff now g.expires_at clock_skew_seconds i k) ∙ p.in_time);
    begun =
        ltℤ_false (now +ℤ pos clock_skew_seconds) g.issued_at
          (sym (saturating_add_iff g.issued_at now clock_skew_seconds j i) ∙ p.begun);
  }

  pub IsAdmitted-Passes :
      IsI64 now
      → IsI64 g.issued_at
      → IsI64 g.expires_at
      → IsAdmitted s expected now g
      → Passes s expected now g
  IsAdmitted-Passes i j k a = record {
    not_stale = ground (arith, a.epoch);
    not_newer = ground (arith, a.epoch);
    same_agent = subst (λ n. bytes_eq g.agent_id n ≡ true) a.agent_id (bytes_eq_refl g.agent_id);
    same_operation =
        subst (λ n. operation_eq g.operation n ≡ true) a.operation (operation_eq_refl g.operation);
    same_scope = subst (λ n. scope_eq g.scope n ≡ true) a.scope (scope_eq_refl g.scope);
    proved = proof_given g a.gc_proof;
    short =
        short_iff ∙ le→ltℤ (g.issued_at +ℤ pos max_grant_lifetime_seconds) g.expires_at a.lifetime;
    forward = le→ltℤ g.expires_at g.issued_at a.ordered;
    in_time =
        saturating_add_iff now g.expires_at clock_skew_seconds i k
        ∙ le→ltℤ (g.expires_at +ℤ pos clock_skew_seconds) now a.in_time;
    begun =
        saturating_add_iff g.issued_at now clock_skew_seconds j i
        ∙ le→ltℤ (now +ℤ pos clock_skew_seconds) g.issued_at a.begun;
  }
