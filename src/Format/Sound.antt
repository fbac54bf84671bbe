-- ===== src/Format/Sound.antt =====
-- What the decoders of encrypted objects accept: the bytes that the encoders write.
use distr_hnsw.Common.{
  ℕ, ◌-◌, ◌≤◌, ◌≡◌, refl, sym, ap, subst, ◌∙◌, not, not-false, refuse-passed, ok_or-some,
  map_err-ok, some, List, ◌++◌, append-nil, length, length-append, take, take-append, All, ◌==◌,
  ==_iff, bytes_eq→eq, ok, ok_or, map_err, >>=-eq-ok, ok_injective, arith,
}
use distr_hnsw.Common.Bytes.{IsByte, to_le}
use distr_hnsw.Common.Reader.{finish}
use distr_hnsw.Common.Takes.{
  Takes, Takes-pure, Takes-bind, Takes-refuse, Takes-take, Takes-uint, Takes-finish,
}
use distr_hnsw.Grant.Types.{Bytes}
use distr_hnsw.Format.Crypto.{
  Aead, aead, invalid_key_length, key_aad, key_len, nonce_len, WrappedKey, wrap_key, unwrap_key,
}
use distr_hnsw.Format.Types.{truncated, trailing_bytes, crypto, aead as no_aead, max_field_len}
use distr_hnsw.Format.Encode.{Drawn, clear_header, seal}
use distr_hnsw.Format.Decode.{field, header_reader, Sealed, sealed_reader}
use distr_hnsw.Format.Objects.{Opened, open_object}
use distr_hnsw.Format.Envelope.{IsDrawn, push_bytes-eq}

pub Takes-header :
    (magic : List ℕ)
    → Takes (header_reader magic) (λ xs p. (xs ≡ clear_header magic p.0 p.1) × (length p.0 ≡ 16))
unfolding header_reader clear_header
Takes-header magic = Takes-bind _ _ _ (Takes-take _ 4) λ xs found (e1, _).
    Takes-bind _ _ _ (Takes-refuse _ _) λ n1 _ (k1, same).
      Takes-bind _ _ _ (Takes-uint _ 2) λ ys version (e2, _).
        Takes-bind _ _ _ (Takes-refuse _ _) λ n2 _ (k2, one).
          Takes-bind _ _ _ (Takes-take _ 16) λ zs file_id (e3, size).
            Takes-bind _ _ _ (Takes-uint _ 8) λ ws generation (e4, _).
              Takes-pure _ (file_id, generation)
                (
                  let is_magic : found ≡ magic = bytes_eq→eq found magic (not-false _ same) in
                      let is_one : version ≡ 1 = (==_iff version 1).0 (not-false _ one) in
                      simp (e1, k1, e2, k2, e3, e4, is_magic, is_one, append-nil),
                  size,
                )

Takes-field : Takes field (λ xs v. (xs ≡ to_le 4 (length v) ++ v) × (length v ≤ max_field_len))
unfolding field
Takes-field = Takes-bind _ _ _ (Takes-uint _ 4) λ xs count (e1, _).
    Takes-bind _ _ _ (Takes-refuse _ _) λ n1 _ (k1, short). record {
      at = λ s v r bytes h.
          let (ys, split, (e2, size), later) = (Takes-take truncated count).at s v r bytes h in
          (ys, split, (simp (e1, k1, e2, size), ground (arith, short, size)), later);
    }

-- The bytes of what is sealed.
abbrev sealed_bytes : Sealed → List ℕ
sealed_bytes s =
    s.wrapped.nonce
    ++ ((to_le 4 (length s.wrapped.ciphertext) ++ s.wrapped.ciphertext)
        ++ (s.payload_nonce ++ (to_le 4 (length s.payload) ++ s.payload)))

pub record IsSealed (xs : List ℕ) (s : Sealed) : Type 0 where
  pub bytes : xs ≡ sealed_bytes s
  pub key_nonce : length s.wrapped.nonce ≡ nonce_len
  pub payload_nonce : length s.payload_nonce ≡ nonce_len
  pub wrapped : length s.wrapped.ciphertext ≤ max_field_len
  pub payload : length s.payload ≤ max_field_len

Takes-IsSealed : Takes sealed_reader IsSealed
unfolding sealed_reader
Takes-IsSealed = Takes-bind _ _ _ (Takes-take _ 24) λ xs key_nonce (e1, size1).
    Takes-bind _ _ _ Takes-field λ ys ciphertext (e2, size2).
      Takes-bind _ _ _ (Takes-take _ 24) λ zs payload_nonce (e3, size3).
        Takes-bind _ _ _ Takes-field λ ws payload (e4, size4). Takes-pure _ _ (record {
          bytes = simp (e1, e2, e3, e4, append-nil);
          key_nonce = size1;
          payload_nonce = size3;
          wrapped = size2;
          payload = size4;
        })

module _ (a : Aead) where
  -- A key that unwraps was wrapped under the same nonce, purpose, file and generation.
  wrap_key-unwrap_key :
      (master : Bytes) (purpose : List ℕ) (file_id : Bytes) (generation : ℕ) (w : WrappedKey)
      (key : Bytes)
      → unwrap_key a master purpose file_id generation w ≡ ok key
      → (wrap_key a w.nonce master purpose file_id generation key ≡ ok w) × (length key ≡ key_len)
  unfolding wrap_key unwrap_key
  wrap_key-unwrap_key master purpose file_id generation w key h =
      let (k, decrypted, h1) =
        >>=-eq-ok
          (ok_or (a.decrypt master w.nonce (key_aad purpose file_id generation) w.ciphertext) aead)
          _ h in
      let (size, h2) = refuse-passed (not (length k == key_len)) invalid_key_length _ h1 in
      let same : k ≡ key = ok_injective h2 in
      let sealed : a.encrypt master w.nonce (key_aad purpose file_id generation) key
          ≡ some w.ciphertext =
        ap (a.encrypt master w.nonce (key_aad purpose file_id generation)) (sym same)
        ∙ a.encrypt-decrypt master w.nonce _ k w.ciphertext (ok_or-some _ _ decrypted) in
      (rw sealed refl, sym (ap length same) ∙ (==_iff (length k) key_len).0 (not-false _ size))

  sealed_again :
      (magic purpose : List ℕ) (master bytes rest : List ℕ) (file_id : Bytes) (generation : ℕ)
      (s : Sealed) (key plaintext : List ℕ)
      → bytes ≡ clear_header magic file_id generation ++ rest
      → IsSealed rest s
      → wrap_key a s.wrapped.nonce master purpose file_id generation key ≡ ok s.wrapped
      → a.decrypt key s.payload_nonce (take (length bytes - length rest) bytes) s.payload
        ≡ some plaintext
      → seal a magic purpose master file_id generation
          (record { key = key; key_nonce = s.wrapped.nonce; payload_nonce = s.payload_nonce })
          (ok plaintext)
        ≡ ok bytes
  unfolding seal
  sealed_again magic purpose master bytes rest file_id generation s key plaintext whole i wrapped
        decrypted =
      let header = clear_header magic file_id generation in
      let cut : take (length bytes - length rest) bytes ≡ header =
        ap (λ b. take (length b - length rest) b) whole
        ∙ take-append header rest _ (omega (arith, length-append header rest)) in
      let encrypted : a.encrypt key s.payload_nonce header plaintext ≡ some s.payload =
        a.encrypt-decrypt key s.payload_nonce header plaintext s.payload
          (subst (λ b. a.decrypt key s.payload_nonce b s.payload ≡ some plaintext) cut decrypted) in
      rw
        (
          wrapped,
          encrypted,
          push_bytes-eq s.wrapped.ciphertext i.wrapped,
          push_bytes-eq s.payload i.payload,
        )
        (ap ok (sym (whole ∙ ap (λ t. header ++ t) i.bytes)))

  -- Bytes that open, with a master key, a magic and a purpose, are what `seal` writes with them, for the
  -- file, generation and plaintext that they open to, and some keys and nonces of the right lengths.
  pub seal-open_object :
      (magic purpose : List ℕ) (master bytes : List ℕ) (o : Opened)
      → All IsByte bytes
      → open_object a magic purpose master bytes ≡ ok o
      → (d : Drawn) × IsDrawn d
        × (seal a magic purpose master o.file_id o.generation d (ok o.plaintext) ≡ ok bytes)
  unfolding open_object
  seal-open_object magic purpose master bytes o low h =
      let (((file_id, generation), rest), read, h1) = >>=-eq-ok (header_reader magic bytes) _ h in
      let (xs, split, (is_header, _), later) =
        (Takes-header magic).at bytes (file_id, generation) rest low read in
      let (s, read', h2) = >>=-eq-ok (finish trailing_bytes sealed_reader rest) _ h1 in
      let is_sealed = Takes-finish IsSealed _ sealed_reader rest s Takes-IsSealed later read' in
      let (key, unwrapped, h3) =
        >>=-eq-ok (map_err crypto (unwrap_key a master purpose file_id generation s.wrapped)) _
          h2 in
      let (plaintext, decrypted, h4) =
        >>=-eq-ok
          (ok_or (a.decrypt key s.payload_nonce (take (length bytes - length rest) bytes) s.payload)
            no_aead)
          _ h3 in
      let (wrapped, key_size) =
        wrap_key-unwrap_key master purpose file_id generation s.wrapped key
          (map_err-ok crypto _ unwrapped) in
      let whole : bytes ≡ clear_header magic file_id generation ++ rest =
        split ∙ ap (λ t. t ++ rest) is_header in
      subst
        (λ (v : Opened).
          (d : Drawn) × IsDrawn d
          × (seal a magic purpose master v.file_id v.generation d (ok v.plaintext) ≡ ok bytes))
        (ok_injective h4)
        (
          record { key = key; key_nonce = s.wrapped.nonce; payload_nonce = s.payload_nonce },
          record {
            key = key_size;
            key_nonce = is_sealed.key_nonce;
            payload_nonce = is_sealed.payload_nonce;
          },
          sealed_again magic purpose master bytes rest file_id generation s key plaintext whole
              is_sealed wrapped (ok_or-some _ _ decrypted),
        )
