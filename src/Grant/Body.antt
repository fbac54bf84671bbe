-- ===== src/Grant/Body.antt =====
-- grant.rs: `Grant::encode_body` and `Grant::decode_body`.
use distr_hnsw.Common.{
  ℕ, not, Option, none, some, List, [], ◌++◌, length, ◌==◌, if◌then◌else◌, Result,
}
use distr_hnsw.Common.Bytes.{to_le}
use distr_hnsw.Common.Int.{ℤ, to_bits, of_bits}
use distr_hnsw.Common.Reader.{
  Reader, take_bytes, uint, finish, refuse, raise, pure, ok_or, ◌>>=◌, ◌>>◌,
}
use distr_hnsw.Grant.Primitives.{Primitives, is_hash, is_utf8}
use distr_hnsw.Grant.Types.{
  Bytes, ObjectKind, Scope, agent, kind, object, Grant, GrantError, malformed, grant_version, code,
  from_code, kind_code, kind_from,
}

abbrev pub truncated : GrantError
truncated = malformed "truncated"

-- `expect` on a value that is there: no hash reaches the panic, which is the empty answer.
abbrev pub expect : Option Bytes → Bytes
expect none = []
expect (some bytes) = bytes

abbrev pub proof_bytes : Option Bytes → List ℕ
proof_bytes none = to_le 1 0
proof_bytes (some proof) = to_le 1 1 ++ proof

-- `i64::from_le_bytes(r.array()?)`
abbrev pub int64 : Reader GrantError ℤ
int64 = uint truncated 8 >>= λ w. pure (of_bits w)

abbrev pub kind_reader : Reader GrantError ObjectKind
kind_reader = do c ← uint truncated 1; ok_or (kind_from c) (malformed "kind")

unfoldable pub proof_reader : ℕ → Reader GrantError (Option Bytes)
proof_reader c =
    if c == 0
    then pure none
    else if c == 1
    then (take_bytes truncated 16 >>= λ proof. pure (some proof))
    else raise (malformed "gc proof")

abbrev pub proof_field : Reader GrantError (Option Bytes)
proof_field = uint truncated 1 >>= λ c. proof_reader c

module _ (x : Primitives) where
  abbrev pub scope_bytes : Scope → List ℕ
  scope_bytes agent = to_le 1 0
  scope_bytes (kind k) = to_le 1 1 ++ to_le 1 (kind_code k)
  scope_bytes (object k hash) = to_le 1 2 ++ (to_le 1 (kind_code k) ++ expect (x.hex_decode hash))

  unfoldable pub encode_body : Grant → List ℕ
  encode_body g =
      to_le 1 grant_version
      ++ (g.key_id
          ++ (to_le 8 g.epoch
              ++ (to_le 1 (length g.agent_id)
                  ++ (g.agent_id
                      ++ (to_le 1 (code g.operation)
                          ++ (scope_bytes g.scope
                              ++ (proof_bytes g.gc_proof
                                  ++ (to_le 8 (to_bits g.issued_at)
                                      ++ (to_le 8 (to_bits g.expires_at) ++ g.nonce)))))))))

  abbrev pub object_reader : Reader GrantError Scope
  object_reader = do
    k ← kind_reader
    raw ← take_bytes truncated 32
    refuse (not (is_hash (x.hex_encode raw))) (malformed "hash")
    pure (object k (x.hex_encode raw))

  unfoldable pub scope_reader : ℕ → Reader GrantError Scope
  scope_reader c =
      if c == 0
      then pure agent
      else if c == 1
      then (kind_reader >>= λ k. pure (kind k))
      else if c == 2
      then object_reader
      else raise (malformed "scope")

  abbrev pub scope_field : Reader GrantError Scope
  scope_field = uint truncated 1 >>= λ c. scope_reader c

  unfoldable pub grant_reader : Reader GrantError Grant
  grant_reader = do
    version ← uint truncated 1
    refuse (not (version == grant_version)) (malformed "version")
    key_id ← take_bytes truncated 8
    epoch ← uint truncated 8
    len ← uint truncated 1
    agent_id ← take_bytes truncated len
    refuse (not (is_utf8 agent_id)) (malformed "agent id")
    op ← uint truncated 1
    operation ← ok_or (from_code op) (malformed "operation")
    scope ← scope_field
    gc_proof ← proof_field
    issued_at ← int64
    expires_at ← int64
    nonce ← take_bytes truncated 16
    pure (record {
      key_id = key_id;
      epoch = epoch;
      agent_id = agent_id;
      operation = operation;
      scope = scope;
      gc_proof = gc_proof;
      issued_at = issued_at;
      expires_at = expires_at;
      nonce = nonce;
    })

  unfoldable pub decode_body : List ℕ → Result GrantError Grant
  decode_body bytes = finish (malformed "trailing bytes") grant_reader bytes
