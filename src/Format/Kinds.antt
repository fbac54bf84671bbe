-- ===== src/Format/Kinds.antt =====
-- An object is of one kind.
use distr_hnsw.Common.{ℕ, ◌≡◌, refl, ap, ◌∙◌, List, ◌++◌, All, ok, err, >>=-eq-ok}
use distr_hnsw.Common.Bytes.{IsByte, to_le}
use distr_hnsw.Common.Reader.{Reads-take, refuse, ◌>>=◌}
use distr_hnsw.Grant.Primitives.{Primitives}
use distr_hnsw.Grant.Types.{Bytes}
use distr_hnsw.Format.Crypto.{Aead, envelope_version}
use distr_hnsw.Format.Types.{
  DecodedManifest, bad_magic, truncated, manifest_magic, deletion_marker_magic,
  manifest_key_purpose,
}
use distr_hnsw.Format.Encode.{clear_header}
use distr_hnsw.Format.Decode.{header_reader}
use distr_hnsw.Format.Objects.{open_object, decode_manifest, decode_deletion_marker}
use distr_hnsw.Format.Sound.{Takes-header}

other_magic :
    (rest : List ℕ) → header_reader deletion_marker_magic (manifest_magic ++ rest) ≡ err bad_magic
unfolding header_reader refuse ◌>>=◌
other_magic rest =
    rw ((Reads-take truncated 4 manifest_magic refl).at rest, header_reader, ◌>>=◌) refl

module _ (x : Primitives) (a : Aead) where
  -- Bytes that decode as a manifest, with any master key, are refused as a deletion marker, with any
  -- master key, for their magic.
  pub decode_manifest-decode_deletion_marker :
      (master other : Bytes) (bytes : List ℕ) (m : DecodedManifest)
      → All IsByte bytes
      → decode_manifest a x master bytes ≡ ok m
      → decode_deletion_marker a other bytes ≡ err bad_magic
  unfolding decode_manifest decode_deletion_marker open_object clear_header
  decode_manifest-decode_deletion_marker master other bytes m low h =
      let (o, opened, _) =
        >>=-eq-ok (open_object a manifest_magic manifest_key_purpose master bytes) _ h in
      let ((p, rest), read, _) = >>=-eq-ok (header_reader manifest_magic bytes) _ opened in
      let (xs, split, (is_header, _), _) = (Takes-header manifest_magic).at bytes p rest low read in
      let tail = (to_le 2 envelope_version ++ (p.0 ++ to_le 8 p.1)) ++ rest in
      let whole : bytes ≡ manifest_magic ++ tail = split ∙ ap (λ t. t ++ rest) is_header in
      rw whole (rw (other_magic tail) refl)
