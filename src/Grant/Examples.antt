-- ===== src/Grant/Examples.antt =====
-- Runs of the grant codecs, of a portal that issues a grant, and of a key that is replaced.
use distr_hnsw.Common.{
  ℕ, ◌≡◌, refl, sym, subst, ◌∙◌, ok_injective, true, none, some, List, [], ◌∷◌, ◌++◌, All, ok,
  arith,
}
use distr_hnsw.Common.Bytes.{IsByte, to_le}
use distr_hnsw.Common.Int.{pos, wrapping_add, of_bits, to_bits}
use distr_hnsw.Grant.Primitives.{is_utf8, is_hash}
use distr_hnsw.Grant.Types.{Bytes, get, chunk, object, Grant}
use distr_hnsw.Grant.Body.{encode_body, decode_body}
use distr_hnsw.Grant.BodyCodec.{IsGrant, decode_body-encode_body}
use distr_hnsw.Grant.Canonical.{encode_body-decode_body}
use distr_hnsw.Grant.Keys.{
  active, retiring, TrustedKey, KeySet, SignedKeySet, PortalSigner, signed_message, key_set_domain,
  encode_keys, key_bytes, decode_keys, find_key, from_seed, key_id_of,
}
use distr_hnsw.Grant.KeysCodec.{IsKeySet, decode_keys-encode_keys, decode_keys-IsKeySet}
use distr_hnsw.Grant.Signed.{to_bytes, from_bytes, sign_set, signed_by, any_signature}
use distr_hnsw.Grant.Rotation.{Vouched, from_bytes-to_bytes, signed_by-Vouched, rotation_accepted}
use distr_hnsw.Grant.Verify.{sign_grant, issue, verify}
use distr_hnsw.Grant.Accepted.{IsAccepted, verify-IsAccepted, IsAccepted-verify}
use distr_hnsw.Grant.Issued.{
  Request, IsRequest, granted, granted-IsGrant, granted_bytes, asked, issue-verify,
}
use distr_hnsw.Grant.Sample.{digest, sample}

abbrev pub old_seed : Bytes
old_seed = 1 ∷ 2 ∷ []

abbrev pub new_seed : Bytes
new_seed = 3 ∷ 4 ∷ []

abbrev pub old_key : TrustedKey
old_key = record {
  key_id = 1 ∷ 2 ∷ 0 ∷ 0 ∷ 0 ∷ 0 ∷ 0 ∷ 0 ∷ [];
  public = digest old_seed;
  status = active;
}

abbrev pub old_set : KeySet
old_set = record { version = 1; epoch = 7; keys = old_key ∷ [] }

-- the hash of 64 digits `a`
abbrev eight : List ℕ
eight = 97 ∷ 97 ∷ 97 ∷ 97 ∷ 97 ∷ 97 ∷ 97 ∷ 97 ∷ []

abbrev hash : Bytes
hash = eight ++ eight ++ eight ++ eight ++ eight ++ eight ++ eight ++ eight

abbrev request : Request
request = record {
  nonce = 1 ∷ 2 ∷ 3 ∷ 4 ∷ 5 ∷ 6 ∷ 7 ∷ 8 ∷ 9 ∷ 10 ∷ 11 ∷ 12 ∷ 13 ∷ 14 ∷ 15 ∷ 16 ∷ [];
  agent_id = 97 ∷ 49 ∷ [];
  operation = get;
  scope = object chunk hash;
  gc_proof = none;
  now = pos 1000;
}

request-IsRequest : IsRequest request
unfolding is_utf8 is_hash
request-IsRequest = record {
  nonce = refl;
  nonce_bytes = ground arith;
  agent_bytes = ground arith;
  proof_bytes = tt;
  agent_len = omega arith;
  agent_utf8 = refl;
  scope = refl;
  gc_proof = tt;
  now = omega arith;
  later = omega arith;
  given = λ e. cc;
}

abbrev pub old_portal : PortalSigner
old_portal = from_seed sample old_seed

old_public : old_key.public ≡ sample.public_key old_portal.seed
unfolding from_seed
old_public = refl

old_found : find_key old_portal.key_id old_set.keys ≡ some old_key
unfolding find_key from_seed key_id_of digest
old_found = refl

issue-verify_example :
    (token : List ℕ) × (issue sample old_portal request.nonce 7 request.agent_id get
        (object chunk hash)
        none
        (pos 1000)
      ≡ ok token)
    × (verify sample old_set token (asked sample request) (pos 1100)
        ≡ ok (granted sample old_seed 7 request))
issue-verify_example =
    issue-verify sample old_seed old_set old_key request (pos 1100) request-IsRequest (omega arith)
      old_found refl (omega arith) (omega arith) (omega arith)

abbrev grant : Grant
grant = granted sample old_seed 7 request

abbrev token : List ℕ
token = sign_grant sample old_portal grant

grant-IsGrant : IsGrant grant
grant-IsGrant = granted-IsGrant sample old_seed 7 request request-IsRequest (omega arith)

grant_bytes : All IsByte (encode_body sample grant)
grant_bytes = granted_bytes sample old_seed 7 request request-IsRequest

decode_body-encode_body_example : decode_body sample (encode_body sample grant) ≡ ok grant
decode_body-encode_body_example = decode_body-encode_body sample grant grant-IsGrant

-- The bytes of the grant.
abbrev grant_text : List ℕ
grant_text =
    1 ∷ 1 ∷ 2 ∷ 0 ∷ 0 ∷ 0 ∷ 0 ∷ 0 ∷ 0 ∷ 7 ∷ 0 ∷ 0 ∷ 0 ∷ 0 ∷ 0 ∷ 0 ∷ 0 ∷ 2 ∷ 97 ∷ 49 ∷ 3 ∷ 2 ∷ 1
    ∷ 170 ∷ 170 ∷ 170 ∷ 170 ∷ 170 ∷ 170 ∷ 170 ∷ 170 ∷ 170 ∷ 170 ∷ 170 ∷ 170 ∷ 170 ∷ 170 ∷ 170 ∷ 170
    ∷ 170 ∷ 170 ∷ 170 ∷ 170 ∷ 170 ∷ 170 ∷ 170 ∷ 170 ∷ 170 ∷ 170 ∷ 170 ∷ 170 ∷ 170 ∷ 170 ∷ 170 ∷ 170
    ∷ 0 ∷ 232 ∷ 3 ∷ 0 ∷ 0 ∷ 0 ∷ 0 ∷ 0 ∷ 0 ∷ 96 ∷ 4 ∷ 0 ∷ 0 ∷ 0 ∷ 0 ∷ 0 ∷ 0 ∷ 1 ∷ 2 ∷ 3 ∷ 4 ∷ 5 ∷ 6
    ∷ 7 ∷ 8 ∷ 9 ∷ 10 ∷ 11 ∷ 12 ∷ 13 ∷ 14 ∷ 15 ∷ 16 ∷ []

grant_text_eq : encode_body sample grant ≡ grant_text
unfolding encode_body from_seed key_id_of digest to_le to_bits
grant_text_eq = refl

grant_text_read : decode_body sample grant_text ≡ ok grant
grant_text_read =
    subst (λ (bytes : List ℕ). decode_body sample bytes ≡ ok grant) grant_text_eq
      (decode_body-encode_body sample grant grant-IsGrant)

encode_body-decode_body_example : encode_body sample grant ≡ grant_text
encode_body-decode_body_example =
    encode_body-decode_body sample grant_text grant (subst (All IsByte) grant_text_eq grant_bytes)
      grant_text_read

token_issued :
    issue sample old_portal request.nonce 7 request.agent_id get (object chunk hash) none (pos 1000)
    ≡ ok token
unfolding issue wrapping_add of_bits to_bits
token_issued = refl

token_accepted : verify sample old_set token (asked sample request) (pos 1100) ≡ ok grant
token_accepted =
    let (t, issued, accepted) =
      issue-verify sample old_seed old_set old_key request (pos 1100) request-IsRequest
        (omega arith) old_found refl (omega arith) (omega arith) (omega arith) in
    let same : t ≡ token = ok_injective (sym issued ∙ token_issued) in
    subst (λ (s : List ℕ). verify sample old_set s (asked sample request) (pos 1100) ≡ ok grant)
      same accepted

verify-IsAccepted_example : IsAccepted sample old_set token (asked sample request) (pos 1100) grant
verify-IsAccepted_example =
    verify-IsAccepted sample old_set token (asked sample request) (pos 1100) grant (omega arith)
      token_accepted

token-IsAccepted : IsAccepted sample old_set token (asked sample request) (pos 1100) grant
token-IsAccepted =
    verify-IsAccepted sample old_set token (asked sample request) (pos 1100) grant (omega arith)
      token_accepted

IsAccepted-verify_example : verify sample old_set token (asked sample request) (pos 1100) ≡ ok grant
IsAccepted-verify_example =
    IsAccepted-verify sample old_set token (asked sample request) (pos 1100) grant (omega arith)
      token-IsAccepted

-- the set in which the new key is active and the old one retires
abbrev pub new_set : KeySet
new_set = record {
  version = 2;
  epoch = 8;
  keys =
      record {
        key_id = 3 ∷ 4 ∷ 0 ∷ 0 ∷ 0 ∷ 0 ∷ 0 ∷ 0 ∷ [];
        public = digest new_seed;
        status = active;
      }
      ∷ record {
        key_id = 1 ∷ 2 ∷ 0 ∷ 0 ∷ 0 ∷ 0 ∷ 0 ∷ 0 ∷ [];
        public = digest old_seed;
        status = retiring;
      }
      ∷ [];
}

pub new_set-IsKeySet : IsKeySet sample new_set
unfolding key_id_of digest
new_set-IsKeySet = record {
  version = omega arith;
  epoch = omega arith;
  not_empty = omega arith;
  few = omega arith;
  keys = (
    record { size = refl; is_key = refl; key_id = refl },
    (record { size = refl; is_key = refl; key_id = refl }, tt),
  );
  one_active = refl;
}

decode_keys-encode_keys_example : decode_keys sample (encode_keys new_set) ≡ ok new_set
decode_keys-encode_keys_example = decode_keys-encode_keys sample new_set new_set-IsKeySet

new_set_bytes : All IsByte (encode_keys new_set)
unfolding encode_keys key_bytes digest to_le
new_set_bytes = ground arith

decode_keys-IsKeySet_example : IsKeySet sample new_set
decode_keys-IsKeySet_example =
    decode_keys-IsKeySet sample (encode_keys new_set) new_set new_set_bytes
      (decode_keys-encode_keys sample new_set new_set-IsKeySet)

abbrev pub signers : List PortalSigner
signers = from_seed sample new_seed ∷ old_portal ∷ []

pub signers_made : All (λ (p : PortalSigner). p ≡ from_seed sample p.seed) signers
unfolding from_seed
signers_made = (refl, (refl, tt))

from_bytes-to_bytes_example :
    from_bytes sample (to_bytes (sign_set sample new_set signers))
    ≡ ok (sign_set sample new_set signers)
from_bytes-to_bytes_example =
    from_bytes-to_bytes sample new_set signers new_set-IsKeySet signers_made (omega arith)
      (omega arith)

pub new_set_signed : signed_by sample (sign_set sample new_set signers) old_set ≡ true
unfolding signed_by any_signature find_key sign_set from_seed key_id_of digest encode_keys key_bytes
    to_le signed_message
new_set_signed = refl

signed_by-Vouched_example :
    Vouched sample old_set
      (signed_message key_set_domain (sign_set sample new_set signers).body)
      (sign_set sample new_set signers).signatures
signed_by-Vouched_example =
    signed_by-Vouched sample (sign_set sample new_set signers) old_set new_set_signed

rotation_accepted_example :
    (t : SignedKeySet) × (from_bytes sample (to_bytes (sign_set sample new_set signers)) ≡ ok t)
    × (t.key_set ≡ new_set)
    × (signed_by sample t old_set ≡ true)
rotation_accepted_example =
    rotation_accepted sample new_set old_set signers 1 old_portal old_key new_set-IsKeySet
      signers_made (omega arith) refl old_found old_public
