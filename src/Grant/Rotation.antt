-- ===== src/Grant/Rotation.antt =====
-- Signed key sets: their bytes, and who signed them.
use distr_hnsw.Common.{
  ℕ, zero, suc, ◌*◌, ◌^◌, ◌≤◌, ◌<◌, ◌≡◌, refl, sym, ap, ◌∙◌, true, Option, none, some, List, [],
  ◌∷◌, ◌++◌, length, length-append, map, get_elem?, get_elem?-lt, All, Bool-cases, inl, inr, ok,
  arith,
}
use distr_hnsw.Common.Bytes.{to_le, length-to_le}
use distr_hnsw.Common.Reader.{
  Reads, Reads-bind, Reads-skip, Reads-last, Reads-pure, Reads-uint, Reads-take, Reads-refuse,
  Reads-finish,
}
use distr_hnsw.Grant.Primitives.{Primitives}
use distr_hnsw.Grant.Types.{Bytes, max_keys}
use distr_hnsw.Grant.Keys.{
  TrustedKey, KeySet, SignedKeySet, PortalSigner, signed_message, key_set_domain, key_bytes,
  encode_keys, find_key, status_code, from_seed,
}
use distr_hnsw.Grant.KeysCodec.{IsKey, IsKeySet, length-key_id_of, decode_keys-encode_keys}
use distr_hnsw.Grant.Signed.{
  signature_bytes, to_bytes, signatures_reader, signed_reader, from_bytes, sign_with, sign_set,
  verifies_with, any_signature, signed_by,
}

abbrev pub IsSignature : Bytes × Bytes → Type 0
IsSignature (id, signature) = (length id ≡ 8) × (length signature ≡ 64)

Reads-signatures :
    (l : List (Bytes × Bytes))
    → All IsSignature l
    → Reads (signatures_reader (length l)) l (signature_bytes l)
unfolding signatures_reader signature_bytes
Reads-signatures [] h = Reads-pure []
Reads-signatures ((id, signature) ∷ rest) ((id_size, size), later) =
    Reads-bind _ (Reads-take _ 8 id (sym id_size)) (
      Reads-bind _ (Reads-take _ 64 signature (sym size))
        (Reads-last _ (Reads-signatures rest later) (Reads-pure _)))

module _ (x : Primitives) where
  length-key_bytes :
      (ks : List TrustedKey) → All (IsKey x) ks → length (key_bytes ks) ≡ 41 * length ks
  unfolding key_bytes
  length-key_bytes [] h = refl
  length-key_bytes (k ∷ ks) (here, later) = omega (
    arith,
    length-append k.key_id (k.public ++ (to_le 1 (status_code k.status) ++ key_bytes ks)),
    length-append k.public (to_le 1 (status_code k.status) ++ key_bytes ks),
    length-append (to_le 1 (status_code k.status)) (key_bytes ks),
    length-to_le 1 (status_code k.status),
    length-key_bytes ks later,
    ap length here.key_id,
    length-key_id_of x k.public,
    here.size,
  )

  length-encode_keys : (s : KeySet) → IsKeySet x s → length (encode_keys s) < 256 ^ 4
  unfolding encode_keys
  length-encode_keys s i = omega (
    arith,
    length-append (to_le 8 s.version)
        (to_le 8 s.epoch ++ (to_le 1 (length s.keys) ++ key_bytes s.keys)),
    length-append (to_le 8 s.epoch) (to_le 1 (length s.keys) ++ key_bytes s.keys),
    length-append (to_le 1 (length s.keys)) (key_bytes s.keys),
    length-to_le 8 s.version,
    length-to_le 8 s.epoch,
    length-to_le 1 (length s.keys),
    length-key_bytes s.keys i.keys,
    i.few,
  )

  -- The pair of a seed's key and its id.
  abbrev pub IsSigner : PortalSigner → Type 0
  IsSigner p = p ≡ from_seed x p.seed

  signed_IsSignature :
      (body : List ℕ) (signers : List PortalSigner)
      → All IsSigner signers
      → All IsSignature (map (sign_with x body) signers)
  unfolding from_seed
  signed_IsSignature body [] h = tt
  signed_IsSignature body (p ∷ ps) (here, later) = (
    (
      ap (λ (q : PortalSigner). length q.key_id) here ∙ length-key_id_of x (x.public_key p.seed),
      x.length-sign _ _,
    ),
    signed_IsSignature body ps later,
  )

  length-signed :
      (body : List ℕ) (signers : List PortalSigner)
      → length (map (sign_with x body) signers) ≡ length signers
  length-signed body [] = refl
  length-signed body (p ∷ ps) = ap suc (length-signed body ps)

  -- What `KeySet::sign` makes is read back by `from_bytes` from the bytes of `to_bytes`: a key set
  -- that is in order, signed by 1 to 16 portals.
  pub from_bytes-to_bytes :
      (s : KeySet) (signers : List PortalSigner)
      → IsKeySet x s
      → All IsSigner signers
      → 1 ≤ length signers
      → length signers ≤ max_keys
      → from_bytes x (to_bytes (sign_set x s signers)) ≡ ok (sign_set x s signers)
  unfolding from_bytes to_bytes signed_reader sign_set
  from_bytes-to_bytes s signers i all some_there few =
      let body = encode_keys s in
      let l = map (sign_with x body) signers in
      let size = length-signed body signers in
      Reads-finish _ (
        Reads-bind _ (Reads-uint _ 4 (length body) (length-encode_keys s i)) (
          Reads-bind _ (Reads-take _ _ body refl) (
            Reads-skip _ (rw (decode_keys-encode_keys x s i) (Reads-pure s)) (
              Reads-bind _ (Reads-uint _ 1 (length l) (omega (arith, size, few))) (
                Reads-skip _ (Reads-refuse _ _ (ground (arith, size, few, some_there))) (
                  Reads-last _ (Reads-signatures l (signed_IsSignature body signers all))
                    (Reads-pure _)))))))

  -- A signature of the list that verifies under the trusted key of its id.
  pub record Vouched (trusted : KeySet) (message : List ℕ) (l : List (Bytes × Bytes)) : Type 0 where
    pub index : ℕ
    pub id : Bytes
    pub signature : Bytes
    pub key : TrustedKey
    pub listed : get_elem? l index ≡ some (id, signature)
    pub found : find_key id trusted.keys ≡ some key
    pub verified : x.verifies key.public message signature ≡ true

  verifies_with-true :
      (o : Option TrustedKey) (message : List ℕ) (signature : Bytes)
      → verifies_with x o message signature ≡ true
      → (k : TrustedKey) × (o ≡ some k) × (x.verifies k.public message signature ≡ true)
  verifies_with-true none message signature h = cc
  verifies_with-true (some k) message signature h = (k, refl, h)

  Vouched-later :
      (trusted : KeySet) (message : List ℕ) (p : Bytes × Bytes) (l : List (Bytes × Bytes))
      → Vouched trusted message l
      → Vouched trusted message (p ∷ l)
  Vouched-later trusted message p l v = record {
    index = suc v.index;
    id = v.id;
    signature = v.signature;
    key = v.key;
    listed = v.listed;
    found = v.found;
    verified = v.verified;
  }

  any_signature-Vouched :
      (trusted : KeySet) (message : List ℕ) (l : List (Bytes × Bytes))
      → any_signature x trusted message l ≡ true
      → Vouched trusted message l
  unfolding any_signature
  any_signature-Vouched trusted message [] h = cc
  any_signature-Vouched trusted message ((id, signature) ∷ rest) h =
      elim (Bool-cases (verifies_with x (find_key id trusted.keys) message signature)) [
        | inl good ↦
            let (k, found, verified) = verifies_with-true _ message signature good in
            record {
              index = 0;
              id = id;
              signature = signature;
              key = k;
              listed = refl;
              found = found;
              verified = verified;
            }
        | inr bad ↦
            Vouched-later trusted message (id, signature) rest
              (any_signature-Vouched trusted message rest (ground (arith, bad, h)))
      ]

  Vouched-any_signature :
      (trusted : KeySet) (message : List ℕ) (l : List (Bytes × Bytes)) (i : ℕ)
      (id signature : Bytes) (k : TrustedKey)
      → get_elem? l i ≡ some (id, signature)
      → find_key id trusted.keys ≡ some k
      → x.verifies k.public message signature ≡ true
      → any_signature x trusted message l ≡ true
  unfolding any_signature
  Vouched-any_signature trusted message [] i id signature k at found good = cc
  Vouched-any_signature trusted message ((id', signature') ∷ rest) zero id signature k at found
        good =
      let pair : ◌≡◌ {A = Bytes × Bytes} (id', signature') (id, signature) = cc in
      ground (arith, ap (λ p. p.0) pair, ap (λ p. p.1) pair, found, good)
  Vouched-any_signature trusted message (p ∷ rest) (suc i) id signature k at found good =
      ground (arith, Vouched-any_signature trusted message rest i id signature k at found good)

  -- `signed_by` holds only if one of the signatures of the set verifies, over the set's bytes behind
  -- the key sets' domain, under the trusted key that it names.
  pub signed_by-Vouched :
      (s : SignedKeySet) (trusted : KeySet)
      → signed_by x s trusted ≡ true
      → Vouched trusted (signed_message key_set_domain s.body) s.signatures
  unfolding signed_by
  signed_by-Vouched s trusted h = any_signature-Vouched trusted _ s.signatures h

  get_elem?-signed :
      (body : List ℕ) (signers : List PortalSigner) (i : ℕ) (p : PortalSigner)
      → get_elem? signers i ≡ some p
      → get_elem? (map (sign_with x body) signers) i ≡ some (sign_with x body p)
  get_elem?-signed body [] i p h = cc
  get_elem?-signed body (q ∷ qs) zero p h =
      ap (λ o. elim o [ none ↦ none | some r ↦ some (sign_with x body r) ]) h
  get_elem?-signed body (q ∷ qs) (suc i) p h = get_elem?-signed body qs i p h

  -- A key set, in order, that 1 to 16 portals sign, one of them with a key that an agent trusts, is
  -- accepted by the agent from its bytes: they decode to the set, which is signed by the trusted set.
  pub rotation_accepted :
      (s trusted : KeySet) (signers : List PortalSigner) (i : ℕ) (p : PortalSigner) (k : TrustedKey)
      → IsKeySet x s
      → All IsSigner signers
      → length signers ≤ max_keys
      → get_elem? signers i ≡ some p
      → find_key p.key_id trusted.keys ≡ some k
      → k.public ≡ x.public_key p.seed
      → (t : SignedKeySet) × (from_bytes x (to_bytes (sign_set x s signers)) ≡ ok t)
        × (t.key_set ≡ s)
        × (signed_by x t trusted ≡ true)
  unfolding sign_set signed_by
  rotation_accepted s trusted signers i p k in_order all few at found its_key = (
    sign_set x s signers,
    from_bytes-to_bytes s signers in_order all (omega (arith, get_elem?-lt signers i p at)) few,
    refl,
    Vouched-any_signature trusted _ _ i _ _ k (get_elem?-signed (encode_keys s) signers i p at)
        found (rw its_key (x.verifies-sign p.seed _)),
  )
