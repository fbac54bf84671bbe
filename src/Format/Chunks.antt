-- ===== src/Format/Chunks.antt =====
-- Keys and chunks come back from their ciphertexts, and from no others.
use distr_hnsw.Common.{ℕ, ◌+◌, ◌^◌, ◌<◌, ◌≡◌, refl, List, length, ==_iff, ==_refl, ok, arith}
use distr_hnsw.Grant.Types.{Bytes}
use distr_hnsw.Format.Crypto.{
  Aead, WrappedKey, envelope_version, key_len, key_aad, chunk_aad, wrap_key, unwrap_key,
  encrypt_chunk, decrypt_chunk,
}

module _ (a : Aead) where
  -- A key of 32 bytes is wrapped, in 48 bytes, and unwrapped again for the same purpose, file and
  -- generation.
  pub unwrap_key-wrap_key :
      (nonce master : Bytes) (purpose : List ℕ) (file_id : Bytes) (generation : ℕ) (key : Bytes)
      → length key ≡ key_len
      → (w : WrappedKey) × (wrap_key a nonce master purpose file_id generation key ≡ ok w)
        × (w.nonce ≡ nonce)
        × (length w.ciphertext ≡ 48)
        × (unwrap_key a master purpose file_id generation w ≡ ok key)
  unfolding wrap_key unwrap_key
  unwrap_key-wrap_key nonce master purpose file_id generation key size =
      let aad = key_aad purpose file_id generation in
      let (c, sealed) = a.encrypt_total master nonce aad key (omega (arith, size)) in
      (
        record { nonce = nonce; ciphertext = c },
        rw sealed refl,
        refl,
        omega (arith, a.length-encrypt master nonce aad key c sealed, size),
        rw (a.decrypt-encrypt master nonce aad key c sealed, (==_iff (length key) key_len).1 size)
            refl,
      )

  -- A chunk of less than 2^32 bytes is encrypted, in 16 bytes more, and decrypted to itself under the
  -- same file, ordinal and length.
  pub decrypt_chunk-encrypt_chunk :
      (key file_id : Bytes) (ordinal : ℕ) (nonce : Bytes) (plaintext : List ℕ)
      → length plaintext < 2 ^ 32
      → (c : List ℕ) × (encrypt_chunk a key envelope_version file_id ordinal
            (length plaintext)
            nonce
            plaintext
          ≡ ok c)
        × (length c ≡ length plaintext + 16)
        × (decrypt_chunk a key envelope_version file_id ordinal (length plaintext) nonce c
            ≡ ok plaintext)
  unfolding encrypt_chunk decrypt_chunk
  decrypt_chunk-encrypt_chunk key file_id ordinal nonce plaintext low =
      let aad = chunk_aad file_id ordinal (length plaintext) in
      let (c, sealed) = a.encrypt_total key nonce aad plaintext low in
      let same = ==_refl (length plaintext) in
      (
        c,
        rw (same, sealed) refl,
        a.length-encrypt key nonce aad plaintext c sealed,
        rw (a.decrypt-encrypt key nonce aad plaintext c sealed, same) refl,
      )
