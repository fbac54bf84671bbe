-- ===== src/Grant/Decoded.antt =====
-- A decoded grant has its fields in the ranges of their Rust types.
use distr_hnsw.Common.{
  not-false, ℕ, ◌^◌, ◌<◌, ◌≡◌, Bool-cases, inl, inr, none, some, List, All, ◌==◌, ok, arith,
}
use distr_hnsw.Common.Bytes.{IsByte}
use distr_hnsw.Common.Int.{IsI64, of_bits}
use distr_hnsw.Common.Yields.{
  Yields, Yields-pure, Yields-raise, Yields-bind, Yields-refuse, Yields-ok_or, Yields-take,
  Yields-uint, Yields-finish,
}
use distr_hnsw.Grant.Primitives.{Primitives}
use distr_hnsw.Grant.Types.{agent, kind, object, Grant}
use distr_hnsw.Grant.Body.{
  truncated, int64, kind_reader, proof_reader, proof_field, object_reader, scope_reader,
  scope_field, grant_reader, decode_body,
}
use distr_hnsw.Grant.BodyCodec.{IsScope, IsProof, IsGrant}

of_bits-IsI64 : (w : ℕ) → w < 256 ^ 8 → IsI64 (of_bits w)
unfolding of_bits
of_bits-IsI64 w h = ground arith

Yields-int64 : Yields int64 IsI64
Yields-int64 =
    Yields-bind _ _ _ _ (Yields-uint truncated 8)
      λ w low. Yields-pure IsI64 (of_bits w) (of_bits-IsI64 w low)

Yields-kind : Yields kind_reader (λ _. Unit)
Yields-kind =
    Yields-bind _ _ _ _ (Yields-uint truncated 1)
      λ c _. record { at = λ s a r bytes h. (tt, ((Yields-ok_or _ _).at s a r bytes h).1) }

Yields-proof_reader : (c : ℕ) → Yields (proof_reader c) IsProof
unfolding proof_reader
Yields-proof_reader c = elim (Bool-cases (c == 0)) [
  | inl at_0 ↦ rw at_0 (Yields-pure IsProof none tt)
  | inr not_0 ↦ elim (Bool-cases (c == 1)) [
    | inl at_1 ↦
        rw (not_0, at_1)
          (Yields-bind _ _ _ _ (Yields-take _ 16)
            λ proof size. Yields-pure IsProof (some proof) size)
    | inr not_1 ↦ rw (not_0, not_1) (Yields-raise _ _)
  ]
]

Yields-IsProof : Yields proof_field IsProof
Yields-IsProof = Yields-bind _ _ _ _ (Yields-uint truncated 1) λ c _. Yields-proof_reader c

module _ (x : Primitives) where
  Yields-object : Yields (object_reader x) IsScope
  Yields-object = Yields-bind _ _ _ _ Yields-kind λ k _.
      Yields-bind _ _ _ _ (Yields-take truncated 32) λ raw _.
        Yields-bind _ _ _ _ (Yields-refuse _ _)
          λ _ hash. Yields-pure IsScope (object k (x.hex_encode raw)) (not-false _ hash)

  Yields-scope_reader : (c : ℕ) → Yields (scope_reader x c) IsScope
  unfolding scope_reader
  Yields-scope_reader c = elim (Bool-cases (c == 0)) [
    | inl at_0 ↦ rw at_0 (Yields-pure IsScope agent tt)
    | inr not_0 ↦ elim (Bool-cases (c == 1)) [
      | inl at_1 ↦
          rw (not_0, at_1) (Yields-bind _ _ _ _ Yields-kind λ k _. Yields-pure IsScope (kind k) tt)
      | inr not_1 ↦ elim (Bool-cases (c == 2)) [
        | inl at_2 ↦ rw (not_0, not_1, at_2) Yields-object
        | inr not_2 ↦ rw (not_0, not_1, not_2) (Yields-raise _ _)
      ]
    ]
  ]

  Yields-IsScope : Yields (scope_field x) IsScope
  Yields-IsScope = Yields-bind _ _ _ _ (Yields-uint truncated 1) λ c _. Yields-scope_reader c

  -- A grant that `decode_body` returns is in the ranges of its types, and so `encode_body` and
  -- `decode_body` give it back.
  pub decode_body-IsGrant :
      (bytes : List ℕ) (g : Grant) → All IsByte bytes → decode_body x bytes ≡ ok g → IsGrant g
  unfolding decode_body grant_reader
  decode_body-IsGrant bytes g all h =
      Yields-finish IsGrant _ (grant_reader x) bytes g
        (Yields-bind _ _ _ _ (Yields-uint _ 1) λ version _.
          Yields-bind _ _ _ _ (Yields-refuse _ _) λ _ _.
            Yields-bind _ _ _ _ (Yields-take _ 8) λ key_id key_size.
              Yields-bind _ _ _ _ (Yields-uint _ 8) λ epoch epoch_low.
                Yields-bind _ _ _ _ (Yields-uint _ 1) λ len len_low.
                  Yields-bind _ _ _ _ (Yields-take _ len) λ agent_id agent_size.
                    Yields-bind _ _ _ _ (Yields-refuse _ _) λ _ utf8.
                      Yields-bind _ _ _ _ (Yields-uint _ 1) λ op _.
                        Yields-bind _ _ _ _ (Yields-ok_or _ _) λ operation _.
                          Yields-bind _ _ _ _ Yields-IsScope λ scope is_scope.
                            Yields-bind _ _ _ _ Yields-IsProof λ gc_proof is_proof.
                              Yields-bind _ _ _ _ Yields-int64 λ issued_at is_issued.
                                Yields-bind _ _ _ _ Yields-int64 λ expires_at is_expires.
                                  Yields-bind _ _ _ _ (Yields-take _ 16) λ nonce nonce_size.
                                    Yields-pure IsGrant _ (record {
                                      key_id = key_size;
                                      epoch = epoch_low;
                                      agent_len = omega arith;
                                      agent_utf8 = not-false _ utf8;
                                      scope = is_scope;
                                      gc_proof = is_proof;
                                      issued_at = is_issued;
                                      expires_at = is_expires;
                                      nonce = nonce_size;
                                    }))
        all h
