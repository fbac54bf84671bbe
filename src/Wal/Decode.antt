-- ===== src/Wal/Decode.antt =====
-- wal.rs: `Entry::decode` over its `Reader`.
use distr_hnsw.Common.{ℕ, ◌*◌, ◌||◌, List, ltb, ◌==◌, if◌then◌else◌, Result}
use distr_hnsw.Common.Reader.{Reader, take_bytes, uint, finish, refuse, raise, pure, ◌>>=◌, ◌>>◌}
use distr_hnsw.Wal.Entry.{
  WalError, malformed, Operation, upsert, delete, Entry, max_payload_len, max_dims, key_checked,
  chunks_of_4, truncated,
}

unfoldable pub upsert_reader : List ℕ → Reader WalError Operation
upsert_reader key = do
  payload_len ← uint truncated 4
  refuse (ltb max_payload_len payload_len) (malformed "payload length")
  payload ← take_bytes truncated payload_len
  dims ← uint truncated 4
  refuse (dims == 0 || ltb max_dims dims) (malformed "vector length")
  raw ← take_bytes truncated (dims * 4)
  pure (upsert key payload (chunks_of_4 raw))

unfoldable pub operation_reader : ℕ → List ℕ → Reader WalError Operation
operation_reader op key =
    if op == 1
    then upsert_reader key
    else if op == 2
    then pure (delete key)
    else raise (malformed "operation code")

unfoldable pub entry_reader : Reader WalError Entry
entry_reader = do
  seq ← uint truncated 8
  op_id ← take_bytes truncated 16
  op ← uint truncated 1
  key_len ← uint truncated 2
  key ← take_bytes truncated key_len
  key_checked key
  operation ← operation_reader op key
  pure (record { seq = seq; op_id = op_id; operation = operation })

unfoldable pub decode : List ℕ → Result WalError Entry
decode body = finish (malformed "trailing bytes in entry") entry_reader body
