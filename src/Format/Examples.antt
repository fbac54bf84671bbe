-- ===== src/Format/Examples.antt =====
-- Runs of the formats of encrypted objects.
use distr_hnsw.Common.{
  ℕ, ◌+◌, ◌≤◌, ◌≡◌, refl, sym, subst, ◌∙◌, ok_injective, List, [], ◌∷◌, ◌++◌, length, All, ok, err,
  arith,
}
use distr_hnsw.Common.Bytes.{IsByte, to_le}
use distr_hnsw.Common.Int.{negsuc}
use distr_hnsw.Grant.Primitives.{is_utf8, is_hash}
use distr_hnsw.Grant.Types.{Bytes}
use distr_hnsw.Grant.Sample.{digest, sample}
use distr_hnsw.Format.Crypto.{wrap_key, encrypt_chunk, decrypt_chunk, key_aad, envelope_version}
use distr_hnsw.Format.Chunks.{decrypt_chunk-encrypt_chunk}
use distr_hnsw.Format.Types.{
  ManifestPayload, bad_magic, max_field_len, manifest_magic, manifest_key_purpose,
}
use distr_hnsw.Format.Encode.{
  Drawn, seal, clear_header, push_bytes, encode_payload, chunks_bytes, chunk_bytes, encode_manifest,
  encode_deletion_marker,
}
use distr_hnsw.Format.Decode.{decode_payload}
use distr_hnsw.Format.Objects.{Opened, open_object, decode_manifest, decode_deletion_marker}
use distr_hnsw.Format.Envelope.{IsDrawn, open_object-seal}
use distr_hnsw.Format.PayloadCodec.{IsPayload, decode_payload-encode_payload}
use distr_hnsw.Format.RoundTrip.{
  decode_manifest-encode_manifest, decode_deletion_marker-encode_deletion_marker,
}
use distr_hnsw.Format.Sound.{seal-open_object}
use distr_hnsw.Format.Kinds.{decode_manifest-decode_deletion_marker}
use distr_hnsw.Format.Sample.{tag, cipher}

abbrev eight : List ℕ
eight = 97 ∷ 98 ∷ 99 ∷ 100 ∷ 48 ∷ 49 ∷ 50 ∷ 51 ∷ []

abbrev nonce : Bytes
nonce = eight ++ eight ++ eight

abbrev master : Bytes
master = eight ++ eight ++ eight ++ eight

abbrev file : Bytes
file = eight ++ eight

abbrev drawn : Drawn
drawn = record { key = master; key_nonce = nonce; payload_nonce = nonce }

drawn-IsDrawn : IsDrawn drawn
drawn-IsDrawn = record { key = refl; key_nonce = refl; payload_nonce = refl }

abbrev payload : ManifestPayload
payload = record {
  name = 97 ∷ 46 ∷ 98 ∷ [];
  plaintext_len = 3;
  plaintext_hash = master;
  content_key = record { nonce = nonce; ciphertext = 1 ∷ 2 ∷ [] };
  chunks =
      record {
        ordinal = 0;
        plaintext_len = 3;
        nonce = nonce;
        ciphertext_hash = eight ++ eight ++ eight ++ eight ++ eight ++ eight ++ eight ++ eight;
        ciphertext_len = 19;
      }
      ∷ [];
}

payload-IsPayload : IsPayload payload
unfolding is_utf8 is_hash
payload-IsPayload = record {
  name = refl;
  plaintext_len = omega arith;
  plaintext_hash = refl;
  key_nonce = refl;
  chunks = (
    record {
      ordinal = refl;
      plaintext_len = omega arith;
      nonce = refl;
      hash = refl;
      ciphertext_len = omega arith;
    },
    tt,
  );
  fits = omega arith;
}

decrypt_chunk-encrypt_chunk_example :
    (c : List ℕ) × (encrypt_chunk cipher master envelope_version file 0 3 nonce (7 ∷ 8 ∷ 9 ∷ [])
      ≡ ok c)
    × (length c ≡ 19)
    × (decrypt_chunk cipher master envelope_version file 0 3 nonce c ≡ ok (7 ∷ 8 ∷ 9 ∷ []))
decrypt_chunk-encrypt_chunk_example =
    decrypt_chunk-encrypt_chunk cipher master file 0 nonce (7 ∷ 8 ∷ 9 ∷ []) (omega arith)

decode_payload-encode_payload_example :
    (bytes : List ℕ) × (encode_payload sample payload ≡ ok bytes)
    × (length bytes + 16 ≤ max_field_len)
    × (decode_payload sample bytes ≡ ok payload)
decode_payload-encode_payload_example =
    decode_payload-encode_payload sample payload payload-IsPayload

decode_manifest-encode_manifest_example :
    (bytes : List ℕ) × (encode_manifest cipher sample master file 5 payload drawn ≡ ok bytes)
    × (decode_manifest cipher sample master bytes
        ≡ ok (record { file_id = file; generation = 5; payload = payload }))
decode_manifest-encode_manifest_example =
    decode_manifest-encode_manifest sample cipher master file 5 payload drawn refl (omega arith)
      drawn-IsDrawn payload-IsPayload

decode_deletion_marker-encode_deletion_marker_example :
    (bytes : List ℕ) × (encode_deletion_marker cipher master file 6 (negsuc 41) drawn ≡ ok bytes)
    × (decode_deletion_marker cipher master bytes
        ≡ ok (record { file_id = file; generation = 6; deleted_at = negsuc 41 }))
decode_deletion_marker-encode_deletion_marker_example =
    decode_deletion_marker-encode_deletion_marker sample cipher master file 6 (negsuc 41) drawn refl
      (omega arith) (omega arith) drawn-IsDrawn

abbrev digits : List ℕ
digits = 171 ∷ 205 ∷ 1 ∷ 35 ∷ []

abbrev payload_bytes : List ℕ
payload_bytes =
    (3 ∷ 0 ∷ 0 ∷ 0 ∷ 97 ∷ 46 ∷ 98 ∷ [])
    ++ ((3 ∷ 0 ∷ 0 ∷ 0 ∷ 0 ∷ 0 ∷ 0 ∷ 0 ∷ [])
        ++ (master
            ++ (nonce
                ++ ((2 ∷ 0 ∷ 0 ∷ 0 ∷ 1 ∷ 2 ∷ [])
                    ++ ((1 ∷ 0 ∷ 0 ∷ 0 ∷ [])
                        ++ ((0 ∷ 0 ∷ 0 ∷ 0 ∷ 3 ∷ 0 ∷ 0 ∷ 0 ∷ [])
                            ++ (nonce
                                ++ (digits
                                    ++ digits
                                    ++ digits
                                    ++ digits
                                    ++ digits
                                    ++ digits
                                    ++ digits
                                    ++ digits
                                    ++ (19 ∷ 0 ∷ 0 ∷ 0 ∷ [])))))))))

payload_written : encode_payload sample payload ≡ ok payload_bytes
unfolding encode_payload chunks_bytes chunk_bytes push_bytes to_le
payload_written = refl

abbrev header : List ℕ
header = (68 ∷ 72 ∷ 77 ∷ 70 ∷ 1 ∷ 0 ∷ []) ++ (file ++ (5 ∷ 0 ∷ 0 ∷ 0 ∷ 0 ∷ 0 ∷ 0 ∷ 0 ∷ []))

abbrev manifest_bytes : List ℕ
manifest_bytes =
    header
    ++ (nonce
        ++ ((48 ∷ 0 ∷ 0 ∷ 0 ∷ [])
            ++ ((master ++ tag (key_aad manifest_key_purpose file 5))
                ++ (nonce ++ ((165 ∷ 0 ∷ 0 ∷ 0 ∷ []) ++ (payload_bytes ++ tag header))))))

manifest_written : encode_manifest cipher sample master file 5 payload drawn ≡ ok manifest_bytes
unfolding encode_manifest seal wrap_key encode_payload chunks_bytes chunk_bytes push_bytes to_le
    clear_header digest key_aad
manifest_written = refl

manifest_low : All IsByte manifest_bytes
unfolding digest key_aad to_le
manifest_low = ground arith

manifest_decoded :
    decode_manifest cipher sample master manifest_bytes
    ≡ ok (record { file_id = file; generation = 5; payload = payload })
manifest_decoded =
    let (bytes, written, decoded) =
      decode_manifest-encode_manifest sample cipher master file 5 payload drawn refl (omega arith)
        drawn-IsDrawn payload-IsPayload in
    subst
      (λ (b : List ℕ).
        decode_manifest cipher sample master b
        ≡ ok (record { file_id = file; generation = 5; payload = payload }))
      (ok_injective (sym written ∙ manifest_written)) decoded

decode_manifest-decode_deletion_marker_example :
    decode_deletion_marker cipher (nonce ++ eight) manifest_bytes ≡ err bad_magic
decode_manifest-decode_deletion_marker_example =
    decode_manifest-decode_deletion_marker sample cipher master (nonce ++ eight) manifest_bytes
      (record { file_id = file; generation = 5; payload = payload }) manifest_low manifest_decoded

abbrev opened_manifest : Opened
opened_manifest = record { file_id = file; generation = 5; plaintext = payload_bytes }

manifest_sealed :
    seal cipher manifest_magic manifest_key_purpose master file 5 drawn (ok payload_bytes)
    ≡ ok manifest_bytes
unfolding seal wrap_key push_bytes to_le clear_header digest key_aad
manifest_sealed = refl

manifest_opened :
    open_object cipher manifest_magic manifest_key_purpose master manifest_bytes
    ≡ ok opened_manifest
manifest_opened =
    let (bytes, sealed, open_again) =
      open_object-seal cipher manifest_magic manifest_key_purpose master file 5 drawn payload_bytes
        refl refl (omega arith) drawn-IsDrawn (omega arith) in
    subst
      (λ (b : List ℕ).
        open_object cipher manifest_magic manifest_key_purpose master b ≡ ok opened_manifest)
      (ok_injective (sym sealed ∙ manifest_sealed)) open_again

seal-open_object_example :
    (d : Drawn) × IsDrawn d
    × (seal cipher manifest_magic manifest_key_purpose master file 5 d (ok payload_bytes)
        ≡ ok manifest_bytes)
seal-open_object_example =
    seal-open_object cipher manifest_magic manifest_key_purpose master manifest_bytes
      opened_manifest manifest_low manifest_opened
