-- ===== src/Wal/Entry.antt =====
-- wal.rs: `Operation`, `Entry` with `encode` and `decode`, `check_key`, the constants and the errors.
-- A byte is a number below 256, an `f32` is its 32-bit pattern, since the log stores it bit by bit,
-- and the checksum crate `crc32c` is a parameter.
use distr_hnsw.Common.{
  ℕ, ◌+◌, ◌*◌, ◌^◌, ◌<◌, String, Bool, true, false, ◌||◌, List, [], ◌∷◌, ◌++◌, length, ltb,
  if◌then◌else◌, Result, ok, err, ◌>>=◌, ◌>>◌, refuse,
}
use distr_hnsw.Common.Bytes.{to_le, from_le}
use distr_hnsw.Common.Reader.{Reader}

abbrev pub max_key_len : ℕ
max_key_len = 512

abbrev pub max_payload_len : ℕ
max_payload_len = 64 * 1024

abbrev pub max_dims : ℕ
max_dims = 65536

abbrev pub min_frame_len : ℕ
min_frame_len = 4 + 8 + 16 + 1 + 2 + 1

abbrev pub max_frame_len : ℕ
max_frame_len = 4 + 8 + 16 + 1 + 2 + max_key_len + 4 + max_payload_len + 4 + 4 * max_dims

-- Why a segment is corrupt: the formatted texts of the source, with what they name.
pub data Reason : Type 0 where
  plain : String → Reason
  in_a_sealed_segment : String → Reason
  before_a_valid_entry : String → ℕ → Reason

-- `io` is a failed call of the file system. The paths in the source's errors are left out.
pub data WalError : Type 0 where
  bad_header : String → WalError
  unsupported_version : ℕ → WalError
  wrong_partition : List ℕ → List ℕ → WalError
  corrupt : ℕ → Reason → WalError
  sequence_gap : ℕ → ℕ → WalError
  malformed : String → WalError
  field_too_large : String → WalError
  poisoned : WalError
  io : WalError

pub data Operation : Type 0 where
  upsert : List ℕ → List ℕ → List ℕ → Operation
  delete : List ℕ → Operation

pub record Entry : Type 0 where
  pub seq : ℕ
  pub op_id : List ℕ
  pub operation : Operation

-- A checksum function with 32-bit results.
pub record Checksum : Type 0 where
  pub crc32c : List ℕ → ℕ
  pub crc32c-lt : (bytes : List ℕ) → crc32c bytes < 2 ^ 32

abbrev pub is_empty : List ℕ → Bool
is_empty [] = true
is_empty (x ∷ xs) = false

abbrev pub bad_key : List ℕ → Bool
bad_key key = is_empty key || ltb max_key_len (length key)

unfoldable pub check_key : List ℕ → Result WalError (Unit {0})
check_key key = if bad_key key then err (field_too_large "key") else ok tt

-- The vector's values, four bytes each.
unfoldable pub vector_bytes : List ℕ → List ℕ
vector_bytes [] = []
vector_bytes (v ∷ vs) = to_le 4 v ++ vector_bytes vs

abbrev pub upsert_bytes : List ℕ → List ℕ → List ℕ → List ℕ
upsert_bytes key payload vector =
    to_le 1 1
    ++ (to_le 2 (length key)
        ++ (key
            ++ (to_le 4 (length payload)
                ++ (payload ++ (to_le 4 (length vector) ++ vector_bytes vector)))))

abbrev pub delete_bytes : List ℕ → List ℕ
delete_bytes key = to_le 1 2 ++ (to_le 2 (length key) ++ key)

-- What `encode` writes behind the sequence number and the operation id.
unfoldable pub encode_operation : Operation → Result WalError (List ℕ)
unfolding check_key
encode_operation (upsert key payload vector) = do
  check_key key
  refuse (ltb max_payload_len (length payload)) (field_too_large "payload")
  refuse (is_empty vector || ltb max_dims (length vector)) (field_too_large "vector")
  ok (upsert_bytes key payload vector)
encode_operation (delete key) = do check_key key; ok (delete_bytes key)

unfoldable pub encode_body : Entry → Result WalError (List ℕ)
encode_body e = do
  operation ← encode_operation e.operation
  ok (to_le 8 e.seq ++ (e.op_id ++ operation))

module _ (c : Checksum) where
  -- The frame around a body: its length with the checksum's, the checksum, the body.
  unfoldable pub frame_of : List ℕ → List ℕ
  frame_of body = to_le 4 (length body + 4) ++ (to_le 4 (c.crc32c body) ++ body)

  unfoldable pub encode : Entry → Result WalError (List ℕ)
  encode e = do body ← encode_body e; ok (frame_of body)

-- `raw.as_chunks::<4>().0`, each chunk as a 32-bit number
unfoldable pub chunks_of_4 : List ℕ → List ℕ
chunks_of_4 (a ∷ b ∷ c ∷ d ∷ rest) = from_le (a ∷ b ∷ c ∷ d ∷ []) ∷ chunks_of_4 rest
chunks_of_4 _ = []

abbrev pub truncated : WalError
truncated = malformed "truncated entry body"

-- `check_key(&key)?` inside the decoder
unfoldable pub key_checked : List ℕ → Reader WalError (Unit {0})
unfolding check_key
key_checked key s = check_key key >>= λ u. ok (u, s)
