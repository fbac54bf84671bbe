-- ===== src/Format/Encode.antt =====
-- format.rs: the encoders. What the random source gives is an argument: the object's key, the nonce
-- under which it is wrapped, and the nonce of the payload.
use distr_hnsw.Common.{
  ℕ, ◌-◌, ◌^◌, List, [], ◌∷◌, ◌++◌, length, ltb, if◌then◌else◌, Result, ok, err, ◌>>=◌, ◌>>◌,
  refuse, ok_or, map_err,
}
use distr_hnsw.Common.Bytes.{to_le}
use distr_hnsw.Common.Int.{ℤ, to_bits}
use distr_hnsw.Grant.Primitives.{Primitives}
use distr_hnsw.Grant.Types.{Bytes}
use distr_hnsw.Format.Crypto.{Aead, envelope_version, wrap_key}
use distr_hnsw.Format.Types.{
  ChunkRecord, ManifestPayload, FormatError, field_too_large, aead, hex, crypto, manifest_magic,
  deletion_marker_magic, max_field_len, manifest_key_purpose, deletion_marker_key_purpose,
}

pub record Drawn : Type 0 where
  pub key : Bytes
  pub key_nonce : Bytes
  pub payload_nonce : Bytes

-- `push_bytes`: what it appends. A length up to the limit is a `u32`.
unfoldable pub push_bytes : List ℕ → Result FormatError (List ℕ)
push_bytes bytes =
    if ltb max_field_len (length bytes)
    then err field_too_large
    else ok (to_le 4 (length bytes) ++ bytes)

unfoldable pub clear_header : List ℕ → Bytes → ℕ → List ℕ
clear_header magic file_id generation =
    magic ++ (to_le 2 envelope_version ++ (file_id ++ to_le 8 generation))

module _ (x : Primitives) where
  unfoldable pub chunk_bytes : ChunkRecord → Result FormatError (List ℕ)
  chunk_bytes c = do
    hash ← ok_or (x.hex_decode c.ciphertext_hash) hex
    ok (
        to_le 4 c.ordinal
        ++ (to_le 4 c.plaintext_len ++ (c.nonce ++ (hash ++ to_le 4 c.ciphertext_len))))

  unfoldable pub chunks_bytes : List ChunkRecord → Result FormatError (List ℕ)
  chunks_bytes [] = ok []
  chunks_bytes (c ∷ cs) = chunk_bytes c >>= λ here. chunks_bytes cs >>= λ later. ok (here ++ later)

  unfoldable pub encode_payload : ManifestPayload → Result FormatError (List ℕ)
  encode_payload p = do
    name ← push_bytes p.name
    ciphertext ← push_bytes p.content_key.ciphertext
    refuse (ltb (2 ^ 32 - 1) (length p.chunks)) field_too_large
    chunks ← chunks_bytes p.chunks
    ok (
        name
        ++ (to_le 8 p.plaintext_len
            ++ (p.plaintext_hash
                ++ (p.content_key.nonce ++ (ciphertext ++ (to_le 4 (length p.chunks) ++ chunks))))))

module _ (a : Aead) where
  -- What the two encoders share: the header in the clear, the wrapped key, and the payload encrypted
  -- under the key with the header as associated data.
  unfoldable pub seal :
      List ℕ
      → List ℕ
      → Bytes
      → Bytes
      → ℕ
      → Drawn
      → Result FormatError (List ℕ)
      → Result FormatError (List ℕ)
  seal magic purpose master file_id generation d payload = do
    wrapped ← map_err crypto (wrap_key a d.key_nonce master purpose file_id generation d.key)
    payload_bytes ← payload
    encrypted ←
        ok_or
          (a.encrypt d.key d.payload_nonce (clear_header magic file_id generation) payload_bytes)
          aead
    ciphertext ← push_bytes wrapped.ciphertext
    sealed ← push_bytes encrypted
    ok (
        clear_header magic file_id generation
        ++ (wrapped.nonce ++ (ciphertext ++ (d.payload_nonce ++ sealed))))

  unfoldable pub encode_deletion_marker :
      Bytes → Bytes → ℕ → ℤ → Drawn → Result FormatError (List ℕ)
  unfolding seal
  encode_deletion_marker master file_id generation deleted_at d =
      seal deletion_marker_magic deletion_marker_key_purpose master file_id generation d
        (ok (to_le 8 (to_bits deleted_at)))

  unfoldable pub encode_manifest :
      Primitives → Bytes → Bytes → ℕ → ManifestPayload → Drawn → Result FormatError (List ℕ)
  unfolding seal
  encode_manifest x master file_id generation payload d =
      seal manifest_magic manifest_key_purpose master file_id generation d
        (encode_payload x payload)
