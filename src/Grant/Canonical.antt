-- ===== src/Grant/Canonical.antt =====
-- A grant has one encoding: bytes that decode are the bytes that `encode_body` writes.
use distr_hnsw.Common.{
  not-false, ℕ, ◌^◌, ◌<◌, ◌≡◌, sym, ap, ap₂, ◌∙◌, none, some, List, [], ◌++◌, append-nil, All, ◌==◌,
  ==_iff, Bool-cases, inl, inr, ok, arith,
}
use distr_hnsw.Common.Bytes.{IsByte, to_le}
use distr_hnsw.Common.Int.{to_bits, of_bits}
use distr_hnsw.Common.Takes.{
  Takes, Takes-pure, Takes-bind, Takes-weaken, Takes-raise, Takes-ok_or, Takes-refuse, Takes-take,
  Takes-take_low, Takes-uint, Takes-finish,
}
use distr_hnsw.Grant.Primitives.{Primitives}
use distr_hnsw.Grant.Types.{
  malformed, ObjectKind, chunk, manifest, deletion_marker, Operation, health, inventory, get, put,
  delete, agent, kind, object, Grant, code, from_code, kind_code, kind_from,
}
use distr_hnsw.Grant.Body.{
  expect, proof_bytes, int64, kind_reader, proof_reader, proof_field, scope_bytes, encode_body,
  object_reader, scope_reader, scope_field, grant_reader, decode_body,
}

from_code_ok : (c : ℕ) (o : Operation) → from_code c ≡ some o → c ≡ code o
unfolding from_code
from_code_ok c health h = ground arith
from_code_ok c inventory h = ground arith
from_code_ok c get h = ground arith
from_code_ok c put h = ground arith
from_code_ok c delete h = ground arith

kind_from_ok : (c : ℕ) (k : ObjectKind) → kind_from c ≡ some k → c ≡ kind_code k
unfolding kind_from
kind_from_ok c chunk h = ground arith
kind_from_ok c manifest h = ground arith
kind_from_ok c deletion_marker h = ground arith

to_bits-of_bits : (w : ℕ) → w < 256 ^ 8 → to_bits (of_bits w) ≡ w
unfolding to_bits of_bits
to_bits-of_bits w h = ground arith

-- Joining what two steps have taken, and passing over a step that takes nothing.
cat : {xs ys r t : List ℕ} → xs ≡ ys → r ≡ t → xs ++ r ≡ ys ++ t
cat = ap₂ (λ a b. a ++ b)

skip : {xs r t : List ℕ} → xs ≡ [] → r ≡ t → xs ++ r ≡ t
skip {r = r} e h = ap (λ a. a ++ r) e ∙ h

Takes-int64 : Takes int64 (λ xs t. xs ≡ to_le 8 (to_bits t))
Takes-int64 =
    Takes-bind _ _ _ (Takes-uint _ 8)
      λ xs w (e, low). Takes-pure _ (of_bits w) (simp (e, to_bits-of_bits w low, append-nil))

Takes-kind : Takes kind_reader (λ xs k. xs ≡ to_le 1 (kind_code k))
Takes-kind = Takes-bind _ _ _ (Takes-uint _ 1) λ xs c (e, _).
    Takes-weaken (λ ys k. xs ++ ys ≡ to_le 1 (kind_code k)) (Takes-ok_or _ _)
      λ ys k (nothing, found). simp (e, nothing, append-nil, kind_from_ok c k found)

-- with the code byte `c` in front
Takes-proof_reader : (c : ℕ) → Takes (proof_reader c) (λ xs p. to_le 1 c ++ xs ≡ proof_bytes p)
unfolding proof_reader
Takes-proof_reader c = elim (Bool-cases (c == 0)) [
  | inl at_0 ↦ rw at_0 (Takes-pure _ none (simp ((==_iff c 0).0 at_0, append-nil)))
  | inr not_0 ↦ elim (Bool-cases (c == 1)) [
    | inl at_1 ↦
        rw (not_0, at_1)
          (Takes-bind _ _ _ (Takes-take _ 16) λ xs proof (e, _).
            Takes-pure _ (some proof) (simp ((==_iff c 1).0 at_1, e, append-nil)))
    | inr not_1 ↦ rw (not_0, not_1) (Takes-raise _ _)
  ]
]

Takes-proof : Takes proof_field (λ xs p. xs ≡ proof_bytes p)
Takes-proof =
    Takes-bind _ _ _ (Takes-uint _ 1)
      λ xs c (e, _). Takes-weaken _ (Takes-proof_reader c) λ ys p whole. ap (λ t. t ++ ys) e ∙ whole

module _ (x : Primitives) where
  Takes-object : Takes (object_reader x) (λ xs s. to_le 1 2 ++ xs ≡ scope_bytes x s)
  Takes-object = Takes-bind _ _ _ Takes-kind λ xs k e1.
      Takes-bind _ _ _ (Takes-take_low _ 32) λ ys raw (e2, low).
        Takes-bind _ _ _ (Takes-refuse _ _) λ n1 _ (k1, _).
          Takes-pure _ (object k (x.hex_encode raw))
            (simp (e1, e2, k1, append-nil, ap expect (x.hex_decode-encode raw low)))

  Takes-scope_reader :
      (c : ℕ) → Takes (scope_reader x c) (λ xs s. to_le 1 c ++ xs ≡ scope_bytes x s)
  unfolding scope_reader
  Takes-scope_reader c = elim (Bool-cases (c == 0)) [
    | inl at_0 ↦ rw at_0 (Takes-pure _ agent (simp ((==_iff c 0).0 at_0, append-nil)))
    | inr not_0 ↦ elim (Bool-cases (c == 1)) [
      | inl at_1 ↦
          rw (not_0, at_1)
            (Takes-bind _ _ _ Takes-kind
              λ xs k e. Takes-pure _ (kind k) (simp ((==_iff c 1).0 at_1, e, append-nil)))
      | inr not_1 ↦ elim (Bool-cases (c == 2)) [
        | inl at_2 ↦
            rw (not_0, not_1, at_2)
              (Takes-weaken _ Takes-object
                λ xs s whole. ap (λ n. to_le 1 n ++ xs) ((==_iff c 2).0 at_2) ∙ whole)
        | inr not_2 ↦ rw (not_0, not_1, not_2) (Takes-raise _ _)
      ]
    ]
  ]

  Takes-scope : Takes (scope_field x) (λ xs s. xs ≡ scope_bytes x s)
  Takes-scope =
      Takes-bind _ _ _ (Takes-uint _ 1) λ xs c (e, _).
        Takes-weaken _ (Takes-scope_reader c) λ ys s whole. ap (λ t. t ++ ys) e ∙ whole

  -- The encoding of grants is canonical: bytes that `decode_body` accepts are the ones that
  -- `encode_body` writes for the grant that it returns.
  pub encode_body-decode_body :
      (bytes : List ℕ) (g : Grant)
      → All IsByte bytes
      → decode_body x bytes ≡ ok g
      → encode_body x g ≡ bytes
  unfolding decode_body encode_body grant_reader
  encode_body-decode_body bytes g all h = sym (
      Takes-finish (λ xs v. xs ≡ encode_body x v) _ (grant_reader x) bytes g
        (Takes-bind _ _ _ (Takes-uint _ 1) λ xs1 version (e1, _).
          Takes-bind _ _ _ (Takes-refuse _ _) λ n1 _ (k1, is_one).
            Takes-bind _ _ _ (Takes-take _ 8) λ xs2 key_id (e2, _).
              Takes-bind _ _ _ (Takes-uint _ 8) λ xs3 epoch (e3, _).
                Takes-bind _ _ _ (Takes-uint _ 1) λ xs4 len (e4, _).
                  Takes-bind _ _ _ (Takes-take _ len) λ xs5 agent_id (e5, size).
                    Takes-bind _ _ _ (Takes-refuse _ _) λ n5 _ (k5, _).
                      Takes-bind _ _ _ (Takes-uint _ 1) λ xs6 op (e6, _).
                        Takes-bind _ _ _ (Takes-ok_or (from_code op) (malformed "operation"))
                          λ n6 operation (k6, known). Takes-bind _ _ _ Takes-scope λ xs7 scope e7.
                            Takes-bind _ _ _ Takes-proof λ xs8 gc_proof e8.
                              Takes-bind _ _ _ Takes-int64 λ xs9 issued_at e9.
                                Takes-bind _ _ _ Takes-int64 λ xs10 expires_at e10.
                                  Takes-bind _ _ _ (Takes-take _ 16) λ xs11 nonce (e11, _).
                                    Takes-pure _
                                      (record {
                                        key_id = key_id;
                                        epoch = epoch;
                                        agent_id = agent_id;
                                        operation = operation;
                                        scope = scope;
                                        gc_proof = gc_proof;
                                        issued_at = issued_at;
                                        expires_at = expires_at;
                                        nonce = nonce;
                                      })
                                      (cat
                                        (e1
                                          ∙ ap (to_le 1)
                                              ((==_iff version 1).0 (not-false _ is_one)))
                                        (skip k1 (
                                          cat e2 (
                                            cat e3 (
                                              cat (e4 ∙ ap (to_le 1) (sym size)) (
                                                cat e5 (
                                                  skip k5 (
                                                    cat
                                                      (e6
                                                        ∙ ap (to_le 1)
                                                            (from_code_ok op operation known))
                                                      (skip k6 (
                                                        cat e7 (
                                                          cat e8 (
                                                            cat e9 (
                                                            cat e10
                                                            (append-nil xs11 ∙ e11)))))))))))))))
        all h)
