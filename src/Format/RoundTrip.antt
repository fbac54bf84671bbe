-- ===== src/Format/RoundTrip.antt =====
-- Manifests and deletion markers come back from their encrypted objects, and are not confused.
use distr_hnsw.Common.{ℕ, ◌^◌, ◌<◌, ◌≡◌, refl, List, length, ==_iff, ok, arith}
use distr_hnsw.Common.Bytes.{to_le, length-to_le, from_le-to_le}
use distr_hnsw.Common.Int.{ℤ, IsI64, to_bits, to_bits-lt, of_bits-to_bits}
use distr_hnsw.Grant.Primitives.{Primitives}
use distr_hnsw.Grant.Types.{Bytes}
use distr_hnsw.Format.Crypto.{Aead}
use distr_hnsw.Format.Types.{
  ManifestPayload, manifest_magic, deletion_marker_magic, manifest_key_purpose,
  deletion_marker_key_purpose,
}
use distr_hnsw.Format.Encode.{Drawn, encode_manifest, encode_deletion_marker}
use distr_hnsw.Format.Objects.{decode_manifest, decode_deletion_marker}
use distr_hnsw.Format.Envelope.{IsDrawn, open_object-seal}
use distr_hnsw.Format.PayloadCodec.{IsPayload, decode_payload-encode_payload}

module _ (x : Primitives) (a : Aead) where
  -- A manifest in order, for a file id of 16 bytes and a generation in its range, is encoded whatever
  -- keys and nonces are drawn, and decoded with the same master key to the file, the generation and
  -- the payload.
  pub decode_manifest-encode_manifest :
      (master file_id : Bytes) (generation : ℕ) (p : ManifestPayload) (d : Drawn)
      → length file_id ≡ 16
      → generation < 2 ^ 64
      → IsDrawn d
      → IsPayload p
      → (bytes : List ℕ) × (encode_manifest a x master file_id generation p d ≡ ok bytes)
        × (decode_manifest a x master bytes
            ≡ ok (record { file_id = file_id; generation = generation; payload = p }))
  unfolding encode_manifest decode_manifest
  decode_manifest-encode_manifest master file_id generation p d size low drawn i =
      let (payload, written, fits, read) = decode_payload-encode_payload x p i in
      let (bytes, sealed, opened) =
        open_object-seal a manifest_magic manifest_key_purpose master file_id generation d payload
          refl size low drawn fits in
      (bytes, rw written sealed, rw opened (rw read refl))

  -- A deletion marker, for a file id of 16 bytes and a generation and a time in their ranges, is encoded
  -- whatever keys and nonces are drawn, and decoded with the same master key.
  pub decode_deletion_marker-encode_deletion_marker :
      (master file_id : Bytes) (generation : ℕ) (deleted_at : ℤ) (d : Drawn)
      → length file_id ≡ 16
      → generation < 2 ^ 64
      → IsI64 deleted_at
      → IsDrawn d
      → (bytes : List ℕ) × (encode_deletion_marker a master file_id generation deleted_at d
          ≡ ok bytes)
        × (decode_deletion_marker a master bytes
            ≡ ok (record { file_id = file_id; generation = generation; deleted_at = deleted_at }))
  unfolding encode_deletion_marker decode_deletion_marker
  decode_deletion_marker-encode_deletion_marker master file_id generation deleted_at d size low
        range drawn =
      let payload = to_le 8 (to_bits deleted_at) in
      let len = length-to_le 8 (to_bits deleted_at) in
      let (bytes, sealed, opened) =
        open_object-seal a deletion_marker_magic deletion_marker_key_purpose master file_id
          generation d payload refl size low drawn (omega (arith, len)) in
      (
        bytes,
        sealed,
        rw
            (
              opened,
              (==_iff (length payload) 8).1 len,
              from_le-to_le 8 (to_bits deleted_at) (to_bits-lt deleted_at range),
              of_bits-to_bits deleted_at range,
            )
            refl,
      )
