-- ===== src/Grant/Signed.antt =====
-- grant.rs: `KeySet::sign` and `SignedKeySet`.
use distr_hnsw.Common.{
  ℕ, zero, suc, Bool, false, ◌||◌, Option, none, some, List, [], ◌∷◌, ◌++◌, length, map, ltb, ◌==◌,
  Result, ok, err,
}
use distr_hnsw.Common.Bytes.{to_le}
use distr_hnsw.Common.Reader.{Reader, take_bytes, uint, finish, refuse, raise, pure, ◌>>=◌, ◌>>◌}
use distr_hnsw.Grant.Primitives.{Primitives}
use distr_hnsw.Grant.Types.{Bytes, GrantError, malformed, max_keys}
use distr_hnsw.Grant.Body.{truncated}
use distr_hnsw.Grant.Keys.{
  TrustedKey, KeySet, SignedKeySet, PortalSigner, signed_message, key_set_domain, encode_keys,
  decode_keys, find_key,
}

unfoldable pub signature_bytes : List (Bytes × Bytes) → List ℕ
signature_bytes [] = []
signature_bytes ((id, signature) ∷ rest) = id ++ (signature ++ signature_bytes rest)

unfoldable pub to_bytes : SignedKeySet → List ℕ
to_bytes s =
    to_le 4 (length s.body)
    ++ (s.body ++ (to_le 1 (length s.signatures) ++ signature_bytes s.signatures))

unfoldable pub signatures_reader : ℕ → Reader GrantError (List (Bytes × Bytes))
signatures_reader zero = pure []
signatures_reader (suc n) = do
  id ← take_bytes truncated 8
  signature ← take_bytes truncated 64
  rest ← signatures_reader n
  pure ((id, signature) ∷ rest)

-- `KeySet::decode_body(&body)?` inside the reader
abbrev pub decoded : Result GrantError KeySet → Reader GrantError KeySet
decoded (ok s) = pure s
decoded (err e) = raise e

module _ (x : Primitives) where
  unfoldable pub signed_reader : Reader GrantError SignedKeySet
  signed_reader = do
    len ← uint truncated 4
    body ← take_bytes truncated len
    key_set ← decoded (decode_keys x body)
    count ← uint truncated 1
    refuse (count == 0 || ltb max_keys count) (malformed "signature count")
    signatures ← signatures_reader count
    pure (record { key_set = key_set; body = body; signatures = signatures })

  unfoldable pub from_bytes : List ℕ → Result GrantError SignedKeySet
  from_bytes bytes = finish (malformed "trailing bytes") signed_reader bytes

  abbrev pub sign_with : List ℕ → PortalSigner → Bytes × Bytes
  sign_with body s = (s.key_id, x.sign s.seed (signed_message key_set_domain body))

  -- `KeySet::sign`
  unfoldable pub sign_set : KeySet → List PortalSigner → SignedKeySet
  sign_set s signers = record {
    key_set = s;
    body = encode_keys s;
    signatures = map (sign_with (encode_keys s)) signers;
  }

  abbrev pub verifies_with : Option TrustedKey → List ℕ → Bytes → Bool
  verifies_with none message signature = false
  verifies_with (some k) message signature = x.verifies k.public message signature

  unfoldable pub any_signature : KeySet → List ℕ → List (Bytes × Bytes) → Bool
  any_signature trusted message [] = false
  any_signature trusted message ((id, signature) ∷ rest) =
      verifies_with (find_key id trusted.keys) message signature
      || any_signature trusted message rest

  unfoldable pub signed_by : SignedKeySet → KeySet → Bool
  signed_by s trusted = any_signature trusted (signed_message key_set_domain s.body) s.signatures

  unfoldable pub self_signed : SignedKeySet → Bool
  unfolding signed_by
  self_signed s = signed_by s s.key_set
