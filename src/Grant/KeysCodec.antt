-- ===== src/Grant/KeysCodec.antt =====
-- A key set's bytes: what `KeySet::encode_body` writes, `KeySet::decode_body` reads back, and what it
-- lets through.
use distr_hnsw.Common.{
  not-false, ℕ, zero, suc, ◌^◌, ◌≤◌, ◌<◌, ◌≡◌, refl, sym, ap, subst, ◌∙◌, true, not, List, [], ◌∷◌,
  ◌++◌, append_assoc, length-take, length, All, ◌==◌, ==_iff, bytes_eq, bytes_eq→eq, bytes_eq_refl,
  Result, ok, err, arith, Bool-cases, inl, inr,
}
use distr_hnsw.Common.Bytes.{IsByte, to_le}
use distr_hnsw.Common.Reader.{
  finish, Reads, Reads-bind, Reads-skip, Reads-last, Reads-pure, Reads-uint, Reads-take,
  Reads-refuse, Reads-finish,
}
use distr_hnsw.Common.Yields.{
  Yields, Yields-pure, Yields-raise, Yields-bind, Yields-refuse, Yields-take, Yields-uint,
  Yields-finish,
}
use distr_hnsw.Grant.Primitives.{Primitives}
use distr_hnsw.Grant.Types.{Bytes, GrantError, malformed, max_keys}
use distr_hnsw.Grant.Body.{truncated}
use distr_hnsw.Grant.Keys.{
  KeyStatus, active, retiring, TrustedKey, KeySet, status_code, key_bytes, encode_keys,
  active_count, status_reader, status_field, one_active, key_id_of, key_reader, keys_reader,
  key_set_reader, decode_keys,
}

Reads-status : (c : KeyStatus) → Reads status_field c (to_le 1 (status_code c))
unfolding status_reader
Reads-status active = Reads-last _ (Reads-uint _ 1 1 (omega arith)) (Reads-pure active)
Reads-status retiring = Reads-last _ (Reads-uint _ 1 2 (omega arith)) (Reads-pure retiring)

Yields-status_reader : (c : ℕ) → Yields (status_reader c) (λ _. Unit)
unfolding status_reader
Yields-status_reader c = elim (Bool-cases (c == 1)) [
  | inl at_1 ↦ rw at_1 (Yields-pure _ active tt)
  | inr not_1 ↦ elim (Bool-cases (c == 2)) [
    | inl at_2 ↦ rw (not_1, at_2) (Yields-pure _ retiring tt)
    | inr not_2 ↦ rw (not_1, not_2) (Yields-raise _ _)
  ]
]

Yields-status : Yields status_field (λ _. Unit)
Yields-status = Yields-bind _ _ _ _ (Yields-uint truncated 1) λ c _. Yields-status_reader c

-- What passes the last test of `decode_keys`.
one_active_ok :
    (r : Result GrantError KeySet) (s : KeySet)
    → one_active r ≡ ok s
    → (r ≡ ok s) × (active_count s.keys ≡ 1)
one_active_ok (err e) s h = cc
one_active_ok (ok t) s h = elim (Bool-cases (active_count t.keys == 1)) [
  | inl one ↦
      let same : t ≡ s = ground (arith, one, h) in
      (ap ok same, subst (λ (u : KeySet). active_count u.keys ≡ 1) same ((==_iff _ _).0 one))
  | inr not_one ↦ absurd (ground (arith, not_one, h))
]

module _ (x : Primitives) where
  -- A key of 32 bytes that the library takes, under its id.
  pub record IsKey (k : TrustedKey) : Type 0 where
    pub size : length k.public ≡ 32
    pub is_key : x.is_key k.public ≡ true
    pub key_id : k.key_id ≡ key_id_of x k.public

  pub record IsKeySet (s : KeySet) : Type 0 where
    pub version : s.version < 2 ^ 64
    pub epoch : s.epoch < 2 ^ 64
    pub not_empty : 1 ≤ length s.keys
    pub few : length s.keys ≤ max_keys
    pub keys : All IsKey s.keys
    pub one_active : active_count s.keys ≡ 1

  pub length-key_id_of : (key : Bytes) → length (key_id_of x key) ≡ 8
  unfolding key_id_of
  length-key_id_of key = omega (arith, length-take 8 (x.blake3 key), x.length-blake3 key)

  Reads-key :
      (k : TrustedKey)
      → IsKey k
      → Reads (key_reader x) k (k.key_id ++ (k.public ++ to_le 1 (status_code k.status)))
  unfolding key_reader
  Reads-key k i =
      Reads-bind _ (Reads-take _ 8 k.key_id (sym (ap length i.key_id ∙ length-key_id_of k.public)))
        (Reads-bind _ (Reads-take _ 32 k.public (sym i.size)) (
          Reads-skip _ (Reads-refuse _ _ (ap not i.is_key)) (
            Reads-skip _
              (Reads-refuse _ _ (
                ap not (subst (λ n. bytes_eq n k.key_id ≡ true) i.key_id (bytes_eq_refl k.key_id))))
              (Reads-last _ (Reads-status k.status) (Reads-pure k)))))

  Reads-keys :
      (ks : List TrustedKey) → All IsKey ks → Reads (keys_reader x (length ks)) ks (key_bytes ks)
  unfolding keys_reader key_bytes
  Reads-keys [] h = Reads-pure []
  Reads-keys (k ∷ ks) (here, later) =
      subst (Reads (keys_reader x (length (k ∷ ks))) (k ∷ ks))
        (append_assoc k.key_id (k.public ++ to_le 1 (status_code k.status)) (key_bytes ks)
          ∙ ap (λ t. k.key_id ++ t)
              (append_assoc k.public (to_le 1 (status_code k.status)) (key_bytes ks)))
        (Reads-bind _ (Reads-key k here) (Reads-last _ (Reads-keys ks later) (Reads-pure (k ∷ ks))))

  -- A key set with 1 to 16 keys, each under the id of its key and exactly one active, is read back
  -- from the bytes that `encode_body` writes for it.
  pub decode_keys-encode_keys : (s : KeySet) → IsKeySet s → decode_keys x (encode_keys s) ≡ ok s
  unfolding decode_keys encode_keys key_set_reader
  decode_keys-encode_keys s i =
      let read : finish (malformed "trailing bytes") (key_set_reader x) (encode_keys s) ≡ ok s =
        Reads-finish _ (
          Reads-bind _ (Reads-uint _ 8 s.version i.version) (
            Reads-bind _ (Reads-uint _ 8 s.epoch i.epoch) (
              Reads-bind _ (Reads-uint _ 1 (length s.keys) (omega (arith, i.few))) (
                Reads-skip _ (Reads-refuse _ _ (ground (arith, i.few, i.not_empty)))
                  (Reads-last _ (Reads-keys s.keys i.keys) (Reads-pure s)))))) in
      rw read (ground (arith, i.one_active))

  Yields-IsKey : Yields (key_reader x) IsKey
  unfolding key_reader
  Yields-IsKey = Yields-bind _ _ _ _ (Yields-take _ 8) λ key_id _.
      Yields-bind _ _ _ _ (Yields-take _ 32) λ public size.
        Yields-bind _ _ _ _ (Yields-refuse _ _) λ _ good.
          Yields-bind _ _ _ _ (Yields-refuse _ _) λ _ same.
            Yields-bind _ _ _ _ Yields-status λ status _. Yields-pure IsKey _ (record {
              size = size;
              is_key = not-false _ good;
              key_id = sym (bytes_eq→eq _ _ (not-false _ same));
            })

  Yields-keys : (n : ℕ) → Yields (keys_reader x n) (λ ks. (length ks ≡ n) × All IsKey ks)
  unfolding keys_reader
  Yields-keys zero = Yields-pure _ [] (refl, tt)
  Yields-keys (suc n) = Yields-bind _ _ _ _ Yields-IsKey λ k is_key.
      Yields-bind _ _ _ _ (Yields-keys n)
        λ ks both. Yields-pure _ (k ∷ ks) (ap suc both.0, (is_key, both.1))

  -- A key set that `decode_body` returns has 1 to 16 keys, each a verification key under the first 8
  -- bytes of its hash, exactly one of them active.
  pub decode_keys-IsKeySet :
      (bytes : List ℕ) (s : KeySet) → All IsByte bytes → decode_keys x bytes ≡ ok s → IsKeySet s
  unfolding decode_keys key_set_reader
  decode_keys-IsKeySet bytes s all h =
      let (read, one) = one_active_ok _ s h in
      (Yields-finish (λ (t : KeySet). active_count t.keys ≡ 1 → IsKeySet t) _ (key_set_reader x)
          bytes s
          (Yields-bind _ _ _ _ (Yields-uint _ 8) λ version version_low.
            Yields-bind _ _ _ _ (Yields-uint _ 8) λ epoch epoch_low.
              Yields-bind _ _ _ _ (Yields-uint _ 1) λ count _.
                Yields-bind _ _ _ _ (Yields-refuse _ _) λ _ in_range.
                  Yields-bind _ _ _ _ (Yields-keys count) λ keys both.
                    Yields-pure _ _ (λ one_of_them. record {
                      version = version_low;
                      epoch = epoch_low;
                      not_empty = ground (arith, in_range, both.0);
                      few = ground (arith, in_range, both.0);
                      keys = both.1;
                      one_active = one_of_them;
                    }))
          all read)
        one
