-- ===== src/Format/Objects.antt =====
-- format.rs: `decode_manifest` and `decode_deletion_marker`.
use distr_hnsw.Common.{
  ℕ, ◌-◌, not, List, length, take, ◌==◌, Result, ok, ◌>>=◌, ◌>>◌, refuse, ok_or, map_err,
}
use distr_hnsw.Common.Bytes.{from_le}
use distr_hnsw.Common.Int.{of_bits}
use distr_hnsw.Common.Reader.{finish}
use distr_hnsw.Grant.Primitives.{Primitives}
use distr_hnsw.Grant.Types.{Bytes}
use distr_hnsw.Format.Crypto.{Aead, unwrap_key}
use distr_hnsw.Format.Types.{
  DecodedManifest, DeletionMarker, FormatError, trailing_bytes, invalid_deletion_payload, aead,
  crypto, manifest_magic, deletion_marker_magic, manifest_key_purpose, deletion_marker_key_purpose,
}
use distr_hnsw.Format.Decode.{header_reader, sealed_reader, decode_payload}

-- A decrypted object: its file, its generation, and the plaintext of its payload.
pub record Opened : Type 0 where
  pub file_id : Bytes
  pub generation : ℕ
  pub plaintext : List ℕ

module _ (a : Aead) where
  -- What the two decoders share. The associated data are the bytes before the reader's position
  -- behind the header.
  unfoldable pub open_object : List ℕ → List ℕ → Bytes → List ℕ → Result FormatError Opened
  open_object magic purpose master bytes =
      header_reader magic bytes >>= λ ((file_id, generation), rest). do
        s ← finish trailing_bytes sealed_reader rest
        key ← map_err crypto (unwrap_key a master purpose file_id generation s.wrapped)
        plaintext ←
            ok_or
              (a.decrypt key s.payload_nonce (take (length bytes - length rest) bytes) s.payload)
              aead
        ok (record { file_id = file_id; generation = generation; plaintext = plaintext })

  unfoldable pub decode_manifest : Primitives → Bytes → List ℕ → Result FormatError DecodedManifest
  decode_manifest x master bytes = do
    o ← open_object manifest_magic manifest_key_purpose master bytes
    payload ← decode_payload x o.plaintext
    ok (record { file_id = o.file_id; generation = o.generation; payload = payload })

  unfoldable pub decode_deletion_marker : Bytes → List ℕ → Result FormatError DeletionMarker
  decode_deletion_marker master bytes = do
    o ← open_object deletion_marker_magic deletion_marker_key_purpose master bytes
    refuse (not (length o.plaintext == 8)) invalid_deletion_payload
    ok (record {
      file_id = o.file_id;
      generation = o.generation;
      deleted_at = of_bits (from_le o.plaintext);
    })
