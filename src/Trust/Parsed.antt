-- ===== src/Trust/Parsed.antt =====
-- Signed key sets have one encoding.
use distr_hnsw.Common.{
  ℕ, zero, suc, ◌≡◌, refl, sym, ap, subst, List, [], ◌∷◌, ◌++◌, append-nil, length, All, Result, ok,
  err,
}
use distr_hnsw.Common.Bytes.{IsByte}
use distr_hnsw.Common.Readings.{pure_ok, raise_fails}
use distr_hnsw.Common.Takes.{
  Takes, Takes-pure, Takes-bind, Takes-refuse, Takes-take, Takes-uint, Takes-finish,
}
use distr_hnsw.Grant.Primitives.{Primitives}
use distr_hnsw.Grant.Types.{GrantError}
use distr_hnsw.Grant.Keys.{KeySet, SignedKeySet, decode_keys}
use distr_hnsw.Grant.Signed.{
  signature_bytes, to_bytes, signatures_reader, decoded, signed_reader, from_bytes,
}

Takes-signatures :
    (n : ℕ) → Takes (signatures_reader n) (λ xs l. (xs ≡ signature_bytes l) × (length l ≡ n))
unfolding signatures_reader signature_bytes
Takes-signatures zero = Takes-pure _ [] (refl, refl)
Takes-signatures (suc n) = Takes-bind _ _ _ (Takes-take _ 8) λ xs id (e1, _).
    Takes-bind _ _ _ (Takes-take _ 64) λ ys signature (e2, _).
      Takes-bind _ _ _ (Takes-signatures n) λ zs rest (e3, size).
        Takes-pure _ ((id, signature) ∷ rest) (simp (e1, e2, e3, append-nil), ap suc size)

module _ (x : Primitives) where
  -- the body's key set
  Takes-decoded :
      (body : List ℕ)
      → Takes (decoded (decode_keys x body)) (λ xs k. (xs ≡ []) × (decode_keys x body ≡ ok k))
  Takes-decoded body = record {
    at = λ s k r bytes h. decoded_ok (decode_keys x body) s k r bytes h;
  }
    where
      decoded_ok :
          (q : Result GrantError KeySet) (s : List ℕ) (k : KeySet) (r : List ℕ)
          → All IsByte s
          → decoded q s ≡ ok (k, r)
          → (xs : List ℕ) × (s ≡ xs ++ r) × ((xs ≡ []) × (q ≡ ok k)) × All IsByte r
      decoded_ok (ok v) s k r bytes h =
          let (value, rest) = pure_ok h in
          ([], rest, (refl, ap ok value), subst (All IsByte) rest bytes)
      decoded_ok (err e) s k r bytes h = absurd (raise_fails e s h)

  -- Bytes that `from_bytes` accepts are the ones that `to_bytes` writes for the set that it returns.
  pub to_bytes-from_bytes :
      (bytes : List ℕ) (s : SignedKeySet)
      → All IsByte bytes
      → from_bytes x bytes ≡ ok s
      → to_bytes s ≡ bytes
  unfolding from_bytes to_bytes signed_reader
  to_bytes-from_bytes bytes s low h = sym (
      Takes-finish (λ xs k. xs ≡ to_bytes k) _ (signed_reader x) bytes s
        (Takes-bind _ _ _ (Takes-uint _ 4) λ xs len (e1, _).
          Takes-bind _ _ _ (Takes-take _ len) λ ys body (e2, size).
            Takes-bind _ _ _ (Takes-decoded body) λ n1 key_set (k1, _).
              Takes-bind _ _ _ (Takes-uint _ 1) λ zs count (e3, _).
                Takes-bind _ _ _ (Takes-refuse _ _) λ n2 _ (k2, _).
                  Takes-bind _ _ _ (Takes-signatures count) λ ws signatures (e4, number).
                    Takes-pure _ _ (simp (e1, e2, k1, e3, k2, e4, size, number, append-nil)))
        low h)
