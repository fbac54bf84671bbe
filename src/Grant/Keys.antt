-- ===== src/Grant/Keys.antt =====
-- grant.rs: `KeyId::of`, `PortalSigner`, `KeySet` and `SignedKeySet`. A key is its 32 bytes.
use distr_hnsw.Common.{
  ℕ, zero, suc, not, ◌||◌, Option, none, some, List, [], ◌∷◌, ◌++◌, length, take, ltb, ◌==◌,
  bytes_eq, if◌then◌else◌, Result, ok, err,
}
use distr_hnsw.Common.Bytes.{to_le}
use distr_hnsw.Common.Reader.{Reader, take_bytes, uint, finish, refuse, raise, pure, ◌>>=◌, ◌>>◌}
use distr_hnsw.Grant.Primitives.{Primitives}
use distr_hnsw.Grant.Types.{Bytes, GrantError, malformed, max_keys}
use distr_hnsw.Grant.Body.{truncated}

-- `b"distr-hnsw grant v1\0"`
abbrev pub grant_domain : List ℕ
grant_domain =
    100 ∷ 105 ∷ 115 ∷ 116 ∷ 114 ∷ 45 ∷ 104 ∷ 110 ∷ 115 ∷ 119 ∷ 32 ∷ 103 ∷ 114 ∷ 97 ∷ 110 ∷ 116 ∷ 32
    ∷ 118 ∷ 49 ∷ 0 ∷ []

-- `b"distr-hnsw key set v1\0"`
abbrev pub key_set_domain : List ℕ
key_set_domain =
    100 ∷ 105 ∷ 115 ∷ 116 ∷ 114 ∷ 45 ∷ 104 ∷ 110 ∷ 115 ∷ 119 ∷ 32 ∷ 107 ∷ 101 ∷ 121 ∷ 32 ∷ 115 ∷ 101
    ∷ 116 ∷ 32 ∷ 118 ∷ 49 ∷ 0 ∷ []

unfoldable pub signed_message : List ℕ → List ℕ → List ℕ
signed_message domain body = domain ++ body

pub data KeyStatus : Type 0 where
  active retiring : KeyStatus

pub record TrustedKey : Type 0 where
  pub key_id : Bytes
  pub public : Bytes
  pub status : KeyStatus

pub record KeySet : Type 0 where
  pub version : ℕ
  pub epoch : ℕ
  pub keys : List TrustedKey

pub record SignedKeySet : Type 0 where
  pub key_set : KeySet
  pub body : List ℕ
  pub signatures : List (Bytes × Bytes)

-- The key pair of a seed; `key_id` is computed once, from the seed's verification key.
pub record PortalSigner : Type 0 where
  pub seed : Bytes
  pub key_id : Bytes

abbrev pub status_code : KeyStatus → ℕ
status_code active = 1
status_code retiring = 2

unfoldable pub key_bytes : List TrustedKey → List ℕ
key_bytes [] = []
key_bytes (k ∷ ks) = k.key_id ++ (k.public ++ (to_le 1 (status_code k.status) ++ key_bytes ks))

-- `KeySet::encode_body`
unfoldable pub encode_keys : KeySet → List ℕ
encode_keys s =
    to_le 8 s.version ++ (to_le 8 s.epoch ++ (to_le 1 (length s.keys) ++ key_bytes s.keys))

abbrev pub active_count : List TrustedKey → ℕ
active_count [] = 0
active_count (k ∷ ks) = elim k.status [
  | active ↦ suc (active_count ks)
  | retiring ↦ active_count ks
]

-- `self.keys.iter().find(..)`
unfoldable pub find_key : Bytes → List TrustedKey → Option TrustedKey
find_key id [] = none
find_key id (k ∷ ks) = let rest = find_key id ks in if bytes_eq k.key_id id then some k else rest

unfoldable pub status_reader : ℕ → Reader GrantError KeyStatus
status_reader c =
    if c == 1 then pure active else if c == 2 then pure retiring else raise (malformed "key status")

abbrev pub status_field : Reader GrantError KeyStatus
status_field = uint truncated 1 >>= λ c. status_reader c

-- the test behind the one of trailing bytes
abbrev pub one_active : Result GrantError KeySet → Result GrantError KeySet
one_active (err e) = err e
one_active (ok s) =
    if not (active_count s.keys == 1) then err (malformed "exactly one active key") else ok s

module _ (x : Primitives) where
  unfoldable pub key_id_of : Bytes → Bytes
  key_id_of key = take 8 (x.blake3 key)

  unfoldable pub from_seed : Bytes → PortalSigner
  from_seed seed = record { seed = seed; key_id = key_id_of (x.public_key seed) }

  unfoldable pub key_reader : Reader GrantError TrustedKey
  key_reader = do
    key_id ← take_bytes truncated 8
    public ← take_bytes truncated 32
    refuse (not (x.is_key public)) (malformed "verification key")
    refuse (not (bytes_eq (key_id_of public) key_id)) (malformed "key id")
    status ← status_field
    pure (record { key_id = key_id; public = public; status = status })

  unfoldable pub keys_reader : ℕ → Reader GrantError (List TrustedKey)
  keys_reader zero = pure []
  keys_reader (suc n) = key_reader >>= λ k. keys_reader n >>= λ ks. pure (k ∷ ks)

  unfoldable pub key_set_reader : Reader GrantError KeySet
  key_set_reader = do
    version ← uint truncated 8
    epoch ← uint truncated 8
    count ← uint truncated 1
    refuse (count == 0 || ltb max_keys count) (malformed "key count")
    keys ← keys_reader count
    pure (record { version = version; epoch = epoch; keys = keys })

  -- `KeySet::decode_body`
  unfoldable pub decode_keys : List ℕ → Result GrantError KeySet
  decode_keys bytes = one_active (finish (malformed "trailing bytes") key_set_reader bytes)
