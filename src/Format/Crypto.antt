-- ===== src/Format/Crypto.antt =====
-- crypto.rs: wrapping of keys and encryption of chunks. A master key is its 32 bytes; a random key or
-- nonce is an argument.
use distr_hnsw.Common.{
  ℕ, ◌+◌, ◌^◌, ◌<◌, ◌≡◌, not, Option, some, List, [], ◌∷◌, ◌++◌, length, ◌==◌, Result, ok, ok_or,
  refuse, ◌>>=◌, ◌>>◌,
}
use distr_hnsw.Common.Bytes.{to_le}
use distr_hnsw.Grant.Types.{Bytes}

-- The `chacha20poly1305` crate: `encrypt` and `decrypt` of a key, a nonce, the associated data and a
-- message. A ciphertext is 16 bytes longer than its message.
pub record Aead : Type 0 where
  pub encrypt : List ℕ → List ℕ → List ℕ → List ℕ → Option (List ℕ)
  pub decrypt : List ℕ → List ℕ → List ℕ → List ℕ → Option (List ℕ)
  pub encrypt_total :
      (key nonce aad msg : List ℕ)
      → length msg < 2 ^ 32
      → (c : List ℕ) × (encrypt key nonce aad msg ≡ some c)
  pub length-encrypt :
      (key nonce aad msg c : List ℕ)
      → encrypt key nonce aad msg ≡ some c
      → length c ≡ length msg + 16
  pub decrypt-encrypt :
      (key nonce aad msg c : List ℕ)
      → encrypt key nonce aad msg ≡ some c
      → decrypt key nonce aad c ≡ some msg
  pub encrypt-decrypt :
      (key nonce aad msg c : List ℕ)
      → decrypt key nonce aad c ≡ some msg
      → encrypt key nonce aad msg ≡ some c

pub data CryptoError : Type 0 where
  key_already_exists insecure_key_permissions : List ℕ → CryptoError
  invalid_key_length plaintext_length_mismatch aead io : CryptoError
  unsupported_envelope_version : ℕ → CryptoError

abbrev pub envelope_version : ℕ
envelope_version = 1

abbrev pub key_len : ℕ
key_len = 32

abbrev pub nonce_len : ℕ
nonce_len = 24

pub record WrappedKey : Type 0 where
  pub nonce : Bytes
  pub ciphertext : List ℕ

-- `b"distr-hnsw:key:v1:"`
abbrev pub key_context : List ℕ
key_context =
    100 ∷ 105 ∷ 115 ∷ 116 ∷ 114 ∷ 45 ∷ 104 ∷ 110 ∷ 115 ∷ 119 ∷ 58 ∷ 107 ∷ 101 ∷ 121 ∷ 58 ∷ 118 ∷ 49
    ∷ 58 ∷ []

unfoldable pub key_aad : List ℕ → Bytes → ℕ → List ℕ
key_aad purpose file_id generation = key_context ++ (purpose ++ (file_id ++ to_le 8 generation))

-- `b"distr-hnsw:chunk:v1"`
abbrev pub chunk_context : List ℕ
chunk_context =
    100 ∷ 105 ∷ 115 ∷ 116 ∷ 114 ∷ 45 ∷ 104 ∷ 110 ∷ 115 ∷ 119 ∷ 58 ∷ 99 ∷ 104 ∷ 117 ∷ 110 ∷ 107 ∷ 58
    ∷ 118 ∷ 49 ∷ []

-- Version 1: the callers refuse the others.
unfoldable pub chunk_aad : Bytes → ℕ → ℕ → List ℕ
chunk_aad file_id ordinal plaintext_len =
    chunk_context ++ (file_id ++ (to_le 4 ordinal ++ to_le 4 plaintext_len))

module _ (a : Aead) where
  unfoldable pub wrap_key :
      Bytes → Bytes → List ℕ → Bytes → ℕ → Bytes → Result CryptoError WrappedKey
  wrap_key nonce master purpose file_id generation key = do
    ciphertext ← ok_or (a.encrypt master nonce (key_aad purpose file_id generation) key) aead
    ok (record { nonce = nonce; ciphertext = ciphertext })

  unfoldable pub unwrap_key : Bytes → List ℕ → Bytes → ℕ → WrappedKey → Result CryptoError Bytes
  unwrap_key master purpose file_id generation wrapped = do
    key ←
        ok_or
          (a.decrypt master wrapped.nonce (key_aad purpose file_id generation) wrapped.ciphertext)
          aead
    refuse (not (length key == key_len)) invalid_key_length
    ok key

  unfoldable pub encrypt_chunk :
      Bytes → ℕ → Bytes → ℕ → ℕ → Bytes → List ℕ → Result CryptoError (List ℕ)
  encrypt_chunk key version file_id ordinal plaintext_len nonce plaintext = do
    refuse (not (length plaintext == plaintext_len)) plaintext_length_mismatch
    refuse (not (version == envelope_version)) (unsupported_envelope_version version)
    ok_or (a.encrypt key nonce (chunk_aad file_id ordinal plaintext_len) plaintext) aead

  unfoldable pub decrypt_chunk :
      Bytes → ℕ → Bytes → ℕ → ℕ → Bytes → List ℕ → Result CryptoError (List ℕ)
  decrypt_chunk key version file_id ordinal plaintext_len nonce ciphertext = do
    refuse (not (version == envelope_version)) (unsupported_envelope_version version)
    plaintext ←
        ok_or (a.decrypt key nonce (chunk_aad file_id ordinal plaintext_len) ciphertext) aead
    refuse (not (length plaintext == plaintext_len)) plaintext_length_mismatch
    ok plaintext
