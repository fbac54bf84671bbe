-- ===== src/Grant/Verify.antt =====
-- grant.rs: `PortalSigner::issue`, `sign_grant`, `KeySet::verify` and `token_from_header`.
use distr_hnsw.Common.{
  ℕ, ◌-◌, Bool, true, false, not, ◌&&◌, ◌||◌, Option, none, some, List, [], ◌∷◌, ◌++◌, length, take,
  drop, ltb, ◌==◌, bytes_eq, if◌then◌else◌, Result, ok, err, ◌>>=◌, ◌>>◌, refuse, ok_or,
}
use distr_hnsw.Common.Int.{ℤ, pos, ltℤ, saturating_add, saturating_sub, wrapping_add}
use distr_hnsw.Grant.Primitives.{Primitives, trim}
use distr_hnsw.Grant.Types.{
  Bytes, Operation, delete, Scope, agent, kind, object, Grant, GrantError, malformed, unknown_key,
  bad_signature, stale_epoch, newer_epoch, wrong_agent, wrong_operation, wrong_object,
  delete_without_proof, lifetime_too_long, expired, not_yet_valid, max_agent_id_bytes,
  grant_lifetime_seconds, max_grant_lifetime_seconds, clock_skew_seconds, code, kind_code,
}
use distr_hnsw.Grant.Body.{encode_body, decode_body}
use distr_hnsw.Grant.Keys.{KeySet, PortalSigner, grant_domain, signed_message, find_key}

pub record Expectation : Type 0 where
  pub agent_id : Bytes
  pub operation : Operation
  pub scope : Scope

-- `==` on operations and scopes
abbrev pub operation_eq : Operation → Operation → Bool
operation_eq a b = code a == code b

abbrev pub scope_eq : Scope → Scope → Bool
scope_eq agent agent = true
scope_eq (kind j) (kind k) = kind_code j == kind_code k
scope_eq (object j a) (object k b) = (kind_code j == kind_code k) && bytes_eq a b
scope_eq _ _ = false

abbrev pub is_none : Option Bytes → Bool
is_none none = true
is_none (some proof) = false

abbrev pub push_byte : ℕ → Option (List ℕ × List ℕ) → Option (List ℕ × List ℕ)
push_byte b none = none
push_byte b (some (front, back)) = some (b ∷ front, back)

-- `split_once`, at the first `c`
unfoldable pub split_once : ℕ → List ℕ → Option (List ℕ × List ℕ)
split_once c [] = none
split_once c (b ∷ bs) =
    let later = split_once c bs in if b == c then some ([], bs) else push_byte b later

-- `"DistrGrant"`
abbrev pub grant_scheme : List ℕ
grant_scheme = 68 ∷ 105 ∷ 115 ∷ 116 ∷ 114 ∷ 71 ∷ 114 ∷ 97 ∷ 110 ∷ 116 ∷ []

unfoldable pub token_from_header : List ℕ → Option (List ℕ)
token_from_header value = elim (split_once 32 value) [
  | none ↦ none
  | some (scheme, token) ↦
      if bytes_eq scheme grant_scheme && not (length (trim token) == 0)
      then some (trim token)
      else none
]

-- The checks of a grant behind its signature, in the order of the source.
unfoldable pub check_grant : KeySet → Expectation → ℤ → Grant → Result GrantError Grant
check_grant s expected now g = do
  refuse (ltb g.epoch s.epoch) (stale_epoch g.epoch s.epoch)
  refuse (ltb s.epoch g.epoch) (newer_epoch g.epoch s.epoch)
  refuse (not (bytes_eq g.agent_id expected.agent_id)) (wrong_agent g.agent_id)
  refuse (not (operation_eq g.operation expected.operation)) wrong_operation
  refuse (not (scope_eq g.scope expected.scope)) wrong_object
  refuse (operation_eq g.operation delete && is_none g.gc_proof) delete_without_proof
  refuse
      (ltℤ (pos max_grant_lifetime_seconds) (saturating_sub g.expires_at g.issued_at)
        || ltℤ g.expires_at g.issued_at)
      lifetime_too_long
  refuse (ltℤ (saturating_add g.expires_at (pos clock_skew_seconds)) now) expired
  refuse (ltℤ (saturating_add now (pos clock_skew_seconds)) g.issued_at) not_yet_valid
  ok g

module _ (x : Primitives) where
  unfoldable pub sign_grant : PortalSigner → Grant → List ℕ
  sign_grant s g =
      let body = encode_body x g in
      x.base64_encode (body ++ x.sign s.seed (signed_message grant_domain body))

  -- The nonce is the one that the operating system gives.
  unfoldable pub issue :
      PortalSigner
      → Bytes
      → ℕ
      → Bytes
      → Operation
      → Scope
      → Option Bytes
      → ℤ
      → Result GrantError (List ℕ)
  unfolding sign_grant
  issue s nonce epoch agent_id operation scope gc_proof now =
      if ltb max_agent_id_bytes (length agent_id)
      then err (malformed "agent id")
      else ok (
          sign_grant s (record {
            key_id = s.key_id;
            epoch = epoch;
            agent_id = agent_id;
            operation = operation;
            scope = scope;
            gc_proof = gc_proof;
            issued_at = now;
            expires_at = wrapping_add now (pos grant_lifetime_seconds);
            nonce = nonce;
          }))

  -- The parts of a decoded token: the body and the signature.
  unfoldable pub verify_raw : KeySet → Expectation → ℤ → List ℕ → Result GrantError Grant
  verify_raw s expected now raw = do
    refuse (ltb (length raw) 64) (malformed "truncated")
    let body = take (length raw - 64) raw
    let signature = drop (length raw - 64) raw
    g ← decode_body x body
    k ← ok_or (find_key g.key_id s.keys) (unknown_key g.key_id)
    refuse (not (x.verifies k.public (signed_message grant_domain body) signature)) bad_signature
    check_grant s expected now g

  unfoldable pub verify : KeySet → List ℕ → Expectation → ℤ → Result GrantError Grant
  verify s token expected now = ok_or (x.base64_decode (trim token)) (malformed "base64") >>= λ raw.
      verify_raw s expected now raw
