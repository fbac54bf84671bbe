-- ===== src/Grant/BodyCodec.antt =====
-- A grant's bytes: what `encode_body` writes, and that `decode_body` reads it back.
use distr_hnsw.Common.{
  ◌^◌, ◌<◌, ◌≡◌, refl, sym, ap, true, not, Option, none, some, ◌++◌, length, ok, ◌∙◌, arith,
}
use distr_hnsw.Common.Bytes.{to_le}
use distr_hnsw.Common.Int.{ℤ, IsI64, to_bits, to_bits-lt, of_bits-to_bits}
use distr_hnsw.Common.Reader.{
  Reads, Reads-bind, Reads-skip, Reads-last, Reads-pure, Reads-uint, Reads-take, Reads-refuse,
  Reads-ok_or, Reads-finish,
}
use distr_hnsw.Grant.Primitives.{Primitives, is_hash, is_utf8}
use distr_hnsw.Grant.Types.{
  Bytes, ObjectKind, chunk, manifest, deletion_marker, Operation, health, inventory, get, put,
  delete, Scope, agent, kind, object, Grant, code, from_code, kind_code, kind_from,
}
use distr_hnsw.Grant.Body.{
  expect, proof_bytes, int64, kind_reader, proof_reader, scope_bytes, proof_field, scope_field,
  encode_body, object_reader, scope_reader, grant_reader, decode_body,
}

abbrev pub IsScope : Scope → Type 0
IsScope agent = Unit
IsScope (kind k) = Unit
IsScope (object k hash) = is_hash hash ≡ true

abbrev pub IsProof : Option Bytes → Type 0
IsProof none = Unit
IsProof (some proof) = length proof ≡ 16

-- The ranges of the fields' Rust types, and the limit on agent ids that `issue` checks.
pub record IsGrant (g : Grant) : Type 0 where
  pub key_id : length g.key_id ≡ 8
  pub epoch : g.epoch < 2 ^ 64
  pub agent_len : length g.agent_id < 256
  pub agent_utf8 : is_utf8 g.agent_id ≡ true
  pub scope : IsScope g.scope
  pub gc_proof : IsProof g.gc_proof
  pub issued_at : IsI64 g.issued_at
  pub expires_at : IsI64 g.expires_at
  pub nonce : length g.nonce ≡ 16

pub from_code-code : (o : Operation) → (from_code (code o) ≡ some o) × (code o < 256 ^ 1)
unfolding from_code
from_code-code health = (refl, omega arith)
from_code-code inventory = (refl, omega arith)
from_code-code get = (refl, omega arith)
from_code-code put = (refl, omega arith)
from_code-code delete = (refl, omega arith)

pub kind_from-kind_code :
    (k : ObjectKind) → (kind_from (kind_code k) ≡ some k) × (kind_code k < 256 ^ 1)
unfolding kind_from
kind_from-kind_code chunk = (refl, omega arith)
kind_from-kind_code manifest = (refl, omega arith)
kind_from-kind_code deletion_marker = (refl, omega arith)

Reads-int64 : (t : ℤ) → IsI64 t → Reads int64 t (to_le 8 (to_bits t))
Reads-int64 t h =
    Reads-last _ (Reads-uint _ 8 (to_bits t) (to_bits-lt t h))
      (rw (of_bits-to_bits t h) (Reads-pure t))

Reads-kind_reader : (k : ObjectKind) → Reads kind_reader k (to_le 1 (kind_code k))
Reads-kind_reader k =
    let (back, low) = kind_from-kind_code k in
    Reads-last _ (Reads-uint _ 1 (kind_code k) low) (Reads-ok_or _ _ k back)

module _ (x : Primitives) where
  Reads-object_reader :
      (k : ObjectKind) (hash : Bytes)
      → is_hash hash ≡ true
      → Reads
          (object_reader x)
          (object k hash)
          (to_le 1 (kind_code k) ++ expect (x.hex_decode hash))
  Reads-object_reader k hash h =
      let (raw, at, size, _, back) = x.hex_decode-hash hash h in
      rw at (
        Reads-bind _ (Reads-kind_reader k) (
          Reads-last _ (Reads-take _ 32 raw (sym size)) (
            Reads-skip _ (Reads-refuse _ _ (ap not (ap is_hash back ∙ h)))
              (rw back (Reads-pure _)))))

  -- The code of a scope and what stands behind it.
  Reads-scope : (s : Scope) → IsScope s → Reads (scope_field x) s (scope_bytes x s)
  unfolding scope_reader
  Reads-scope agent h = Reads-last _ (Reads-uint _ 1 0 (omega arith)) (Reads-pure agent)
  Reads-scope (kind k) h =
      Reads-bind _ (Reads-uint _ 1 1 (omega arith))
        (Reads-last _ (Reads-kind_reader k) (Reads-pure (kind k)))
  Reads-scope (object k hash) h =
      Reads-bind _ (Reads-uint _ 1 2 (omega arith)) (Reads-object_reader k hash h)

  Reads-proof : (proof : Option Bytes) → IsProof proof → Reads proof_field proof (proof_bytes proof)
  unfolding proof_reader
  Reads-proof none h = Reads-last _ (Reads-uint _ 1 0 (omega arith)) (Reads-pure none)
  Reads-proof (some proof) h =
      Reads-bind _ (Reads-uint _ 1 1 (omega arith))
        (Reads-last _ (Reads-take _ 16 proof (sym h)) (Reads-pure (some proof)))

  -- `decode_body` returns every grant that is in the ranges of its types, with an agent id short
  -- enough for its length byte, from the bytes that `encode_body` writes for it.
  pub decode_body-encode_body : (g : Grant) → IsGrant g → decode_body x (encode_body x g) ≡ ok g
  unfolding decode_body encode_body grant_reader
  decode_body-encode_body g i =
      let (op, op_low) = from_code-code g.operation in
      Reads-finish _ (
        Reads-bind _ (Reads-uint _ 1 1 (omega arith)) (
          Reads-skip _ (Reads-refuse _ _ refl) (
            Reads-bind _ (Reads-take _ 8 g.key_id (sym i.key_id)) (
              Reads-bind _ (Reads-uint _ 8 g.epoch i.epoch) (
                Reads-bind _ (Reads-uint _ 1 (length g.agent_id) i.agent_len) (
                  Reads-bind _ (Reads-take _ _ g.agent_id refl) (
                    Reads-skip _ (Reads-refuse _ _ (ap not i.agent_utf8)) (
                      Reads-bind _ (Reads-uint _ 1 (code g.operation) op_low) (
                        Reads-skip _ (Reads-ok_or _ _ g.operation op) (
                          Reads-bind _ (Reads-scope g.scope i.scope) (
                            Reads-bind _ (Reads-proof g.gc_proof i.gc_proof) (
                              Reads-bind _ (Reads-int64 g.issued_at i.issued_at) (
                                Reads-bind _ (Reads-int64 g.expires_at i.expires_at) (
                                  Reads-last _ (Reads-take _ 16 g.nonce (sym i.nonce))
                                    (Reads-pure g)))))))))))))))
