-- ===== src/Format/Decode.antt =====
-- format.rs: what the decoders read.
use distr_hnsw.Common.{ℕ, zero, suc, ◌+◌, ◌/◌, not, List, [], ◌∷◌, ltb, ◌==◌, bytes_eq, Result}
use distr_hnsw.Common.Reader.{Reader, take_bytes, uint, finish, refuse, pure, ◌>>=◌, ◌>>◌}
use distr_hnsw.Grant.Primitives.{Primitives, is_hash, is_utf8}
use distr_hnsw.Grant.Types.{Bytes}
use distr_hnsw.Format.Crypto.{WrappedKey, envelope_version, nonce_len}
use distr_hnsw.Format.Types.{
  ChunkRecord, ManifestPayload, FormatError, bad_magic, truncated, trailing_bytes, field_too_large,
  invalid_utf8, non_canonical_ordinal, object, unsupported_version, max_field_len,
}

-- `Reader::bytes`
unfoldable pub field : Reader FormatError (List ℕ)
field = do
  count ← uint truncated 4
  refuse (ltb max_field_len count) field_too_large
  take_bytes truncated count

module _ (x : Primitives) where
  unfoldable pub chunk_reader : ℕ → Reader FormatError ChunkRecord
  chunk_reader expected = do
    ordinal ← uint truncated 4
    refuse (not (ordinal == expected)) non_canonical_ordinal
    plaintext_len ← uint truncated 4
    nonce ← take_bytes truncated nonce_len
    hash ← take_bytes truncated 32
    refuse (not (is_hash (x.hex_encode hash))) object
    ciphertext_len ← uint truncated 4
    pure (record {
      ordinal = ordinal;
      plaintext_len = plaintext_len;
      nonce = nonce;
      ciphertext_hash = x.hex_encode hash;
      ciphertext_len = ciphertext_len;
    })

  -- `count` chunks, from the ordinal `expected`
  unfoldable pub chunks_reader : ℕ → ℕ → Reader FormatError (List ChunkRecord)
  chunks_reader zero expected = pure []
  chunks_reader (suc count) expected =
      chunk_reader expected >>= λ c. chunks_reader count (expected + 1) >>= λ cs. pure (c ∷ cs)

  unfoldable pub payload_reader : Reader FormatError ManifestPayload
  payload_reader = do
    name ← field
    refuse (not (is_utf8 name)) invalid_utf8
    plaintext_len ← uint truncated 8
    plaintext_hash ← take_bytes truncated 32
    key_nonce ← take_bytes truncated nonce_len
    ciphertext ← field
    count ← uint truncated 4
    refuse (ltb (max_field_len / 64) count) field_too_large
    chunks ← chunks_reader count 0
    pure (record {
      name = name;
      plaintext_len = plaintext_len;
      plaintext_hash = plaintext_hash;
      content_key = record { nonce = key_nonce; ciphertext = ciphertext };
      chunks = chunks;
    })

  unfoldable pub decode_payload : List ℕ → Result FormatError ManifestPayload
  decode_payload bytes = finish trailing_bytes payload_reader bytes

-- The part in the clear. A file id of 16 bytes is always one, so there is no other error.
unfoldable pub header_reader : List ℕ → Reader FormatError (Bytes × ℕ)
header_reader magic = do
  found ← take_bytes truncated 4
  refuse (not (bytes_eq found magic)) bad_magic
  version ← uint truncated 2
  refuse (not (version == envelope_version)) (unsupported_version version)
  file_id ← take_bytes truncated 16
  generation ← uint truncated 8
  pure (file_id, generation)

pub record Sealed : Type 0 where
  pub wrapped : WrappedKey
  pub payload_nonce : Bytes
  pub payload : List ℕ

unfoldable pub sealed_reader : Reader FormatError Sealed
sealed_reader = do
  key_nonce ← take_bytes truncated nonce_len
  ciphertext ← field
  payload_nonce ← take_bytes truncated nonce_len
  payload ← field
  pure (record {
    wrapped = record { nonce = key_nonce; ciphertext = ciphertext };
    payload_nonce = payload_nonce;
    payload = payload;
  })
