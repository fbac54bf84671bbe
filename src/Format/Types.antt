-- ===== src/Format/Types.antt =====
-- The values of format.rs: manifests, deletion markers and errors.
use distr_hnsw.Common.{ℕ, ◌*◌, List, [], ◌∷◌}
use distr_hnsw.Common.Int.{ℤ}
use distr_hnsw.Grant.Types.{Bytes}
use distr_hnsw.Format.Crypto.{CryptoError, WrappedKey}

pub record ChunkRecord : Type 0 where
  pub ordinal : ℕ
  pub plaintext_len : ℕ
  pub nonce : Bytes
  pub ciphertext_hash : Bytes
  pub ciphertext_len : ℕ

pub record ManifestPayload : Type 0 where
  pub name : List ℕ
  pub plaintext_len : ℕ
  pub plaintext_hash : Bytes
  pub content_key : WrappedKey
  pub chunks : List ChunkRecord

pub record DecodedManifest : Type 0 where
  pub file_id : Bytes
  pub generation : ℕ
  pub payload : ManifestPayload

pub record DeletionMarker : Type 0 where
  pub file_id : Bytes
  pub generation : ℕ
  pub deleted_at : ℤ

-- The errors that carry another library's or module's error have none here but `crypto`.
pub data FormatError : Type 0 where
  bad_magic truncated trailing_bytes field_too_large invalid_utf8 invalid_uuid : FormatError
  non_canonical_ordinal invalid_deletion_payload aead hex object : FormatError
  unsupported_version : ℕ → FormatError
  crypto : CryptoError → FormatError

-- `b"DHMF"`
abbrev pub manifest_magic : List ℕ
manifest_magic = 68 ∷ 72 ∷ 77 ∷ 70 ∷ []

-- `b"DHDM"`
abbrev pub deletion_marker_magic : List ℕ
deletion_marker_magic = 68 ∷ 72 ∷ 68 ∷ 77 ∷ []

abbrev pub max_field_len : ℕ
max_field_len = 16 * 1024 * 1024

-- `b"manifest"`
abbrev pub manifest_key_purpose : List ℕ
manifest_key_purpose = 109 ∷ 97 ∷ 110 ∷ 105 ∷ 102 ∷ 101 ∷ 115 ∷ 116 ∷ []

-- `b"deletion-marker"`
abbrev pub deletion_marker_key_purpose : List ℕ
deletion_marker_key_purpose =
    100 ∷ 101 ∷ 108 ∷ 101 ∷ 116 ∷ 105 ∷ 111 ∷ 110 ∷ 45 ∷ 109 ∷ 97 ∷ 114 ∷ 107 ∷ 101 ∷ 114 ∷ []
