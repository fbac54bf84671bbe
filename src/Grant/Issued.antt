-- ===== src/Grant/Issued.antt =====
-- What a portal issues, its keys' holder accepts: `PortalSigner::issue` against `KeySet::verify`.
use distr_hnsw.Common.{
  ℕ, ◌-◌, ◌≤◌, ◌<◌, ◌^◌, ◌≡◌, refl, sym, subst, true, false, Option, none, some, List, [], ◌∷◌,
  ◌++◌, length, length-take, take, drop, take-append-drop, All-append, le→ltb, All, ok, arith,
}
use distr_hnsw.Common.Bytes.{IsByte, to_le-IsByte}
use distr_hnsw.Common.Readings.{All-split}
use distr_hnsw.Common.Int.{ℤ, pos, IsI64, wrapping_add-eq, ◌+ℤ◌, ◌≤ℤ◌}
use distr_hnsw.Grant.Primitives.{Primitives, is_utf8, is_whitespace, trim, trim_start, trim_end}
use distr_hnsw.Grant.Types.{
  Bytes, Operation, delete, Scope, agent, kind, object, code, kind_code, grant_version, Grant,
  grant_lifetime_seconds, max_agent_id_bytes, clock_skew_seconds,
}
use distr_hnsw.Grant.Body.{encode_body, scope_bytes, proof_bytes}
use distr_hnsw.Grant.BodyCodec.{IsGrant, IsScope, IsProof}
use distr_hnsw.Grant.Keys.{
  KeySet, TrustedKey, grant_domain, signed_message, find_key, key_id_of, from_seed,
}
use distr_hnsw.Grant.Verify.{Expectation, issue, verify}
use distr_hnsw.Grant.Admitted.{IsAdmitted}
use distr_hnsw.Grant.Accepted.{IsAccepted-verify}

trim_start_visible : (s : List ℕ) → All (λ c. is_whitespace c ≡ false) s → trim_start s ≡ s
unfolding trim_start
trim_start_visible [] h = refl
trim_start_visible (c ∷ cs) (here, later) = rw here refl

trim_end_visible : (s : List ℕ) → All (λ c. is_whitespace c ≡ false) s → trim_end s ≡ s
unfolding trim_end
trim_end_visible [] h = refl
trim_end_visible (c ∷ []) (here, later) = rw here refl
trim_end_visible (c ∷ d ∷ ds) (here, later) = rw (trim_end_visible (d ∷ ds) later) refl

pub trim_visible : (s : List ℕ) → All (λ c. is_whitespace c ≡ false) s → trim s ≡ s
unfolding trim
trim_visible s h = rw (trim_end_visible s h) (trim_start_visible s h)

abbrev pub IsBytes : Option Bytes → Type 0
IsBytes none = Unit
IsBytes (some bytes) = All IsByte bytes

-- What a portal is asked for: the arguments of `issue`.
pub record Request : Type 0 where
  pub nonce : Bytes
  pub agent_id : Bytes
  pub operation : Operation
  pub scope : Scope
  pub gc_proof : Option Bytes
  pub now : ℤ

-- The ranges of their types, the limit on agent ids, and a time that is not within 120 seconds of
-- the end of the `i64` range.
pub record IsRequest (r : Request) : Type 0 where
  pub nonce : length r.nonce ≡ 16
  pub nonce_bytes : All IsByte r.nonce
  pub agent_bytes : All IsByte r.agent_id
  pub proof_bytes : IsBytes r.gc_proof
  pub agent_len : length r.agent_id ≤ max_agent_id_bytes
  pub agent_utf8 : is_utf8 r.agent_id ≡ true
  pub scope : IsScope r.scope
  pub gc_proof : IsProof r.gc_proof
  pub now : IsI64 r.now
  pub later : r.now +ℤ pos grant_lifetime_seconds ≤ℤ pos (2 ^ 63 - 1)
  pub given : r.operation ≡ delete → (proof : Bytes) × (r.gc_proof ≡ some proof)

module _ (x : Primitives) where
  abbrev pub granted : Bytes → ℕ → Request → Grant
  granted seed epoch r = record {
    key_id = (from_seed x seed).key_id;
    epoch = epoch;
    agent_id = r.agent_id;
    operation = r.operation;
    scope = r.scope;
    gc_proof = r.gc_proof;
    issued_at = r.now;
    expires_at = r.now +ℤ pos grant_lifetime_seconds;
    nonce = r.nonce;
  }

  scope_bytes-IsByte : (s : Scope) → IsScope s → All IsByte (scope_bytes x s)
  scope_bytes-IsByte agent h = to_le-IsByte 1 0
  scope_bytes-IsByte (kind k) h =
      All-append IsByte _ _ (to_le-IsByte 1 1) (to_le-IsByte 1 (kind_code k))
  scope_bytes-IsByte (object k hash) h =
      let (raw, at, _, low, _) = x.hex_decode-hash hash h in
      All-append IsByte _ _ (to_le-IsByte 1 2)
        (All-append IsByte _ _ (to_le-IsByte 1 (kind_code k)) (rw at low))

  proof_bytes-IsByte : (proof : Option Bytes) → IsBytes proof → All IsByte (proof_bytes proof)
  proof_bytes-IsByte none h = to_le-IsByte 1 0
  proof_bytes-IsByte (some proof) h = All-append IsByte _ _ (to_le-IsByte 1 1) h

  take-IsByte : (n : ℕ) (xs : List ℕ) → All IsByte xs → All IsByte (take n xs)
  take-IsByte n xs h =
      (All-split IsByte (take n xs) (drop n xs)
        (subst (All IsByte) (sym (take-append-drop n xs)) h)).0

  pub granted_bytes :
      (seed : Bytes) (epoch : ℕ) (r : Request)
      → IsRequest r
      → All IsByte (encode_body x (granted seed epoch r))
  unfolding encode_body from_seed key_id_of
  granted_bytes seed epoch r i = All-append IsByte _ _ (to_le-IsByte 1 grant_version) (
      All-append IsByte _ _ (take-IsByte 8 _ (x.blake3_bytes _)) (
        All-append IsByte _ _ (to_le-IsByte 8 epoch) (
          All-append IsByte _ _ (to_le-IsByte 1 (length r.agent_id)) (
            All-append IsByte _ _ i.agent_bytes (
              All-append IsByte _ _ (to_le-IsByte 1 (code r.operation)) (
                All-append IsByte _ _ (scope_bytes-IsByte r.scope i.scope) (
                  All-append IsByte _ _ (proof_bytes-IsByte r.gc_proof i.proof_bytes) (
                    All-append IsByte _ _ (to_le-IsByte 8 _)
                      (All-append IsByte _ _ (to_le-IsByte 8 _) i.nonce_bytes)))))))))

  pub granted-IsGrant :
      (seed : Bytes) (epoch : ℕ) (r : Request)
      → IsRequest r
      → epoch < 2 ^ 64
      → IsGrant (granted seed epoch r)
  unfolding from_seed key_id_of
  granted-IsGrant seed epoch r i low = record {
    key_id =
        omega (
          arith,
          length-take 8 (x.blake3 (x.public_key seed)),
          x.length-blake3 (x.public_key seed),
        );
    epoch = low;
    agent_len = omega (arith, i.agent_len);
    agent_utf8 = i.agent_utf8;
    scope = i.scope;
    gc_proof = i.gc_proof;
    issued_at = i.now;
    expires_at = (wrapping_add-eq r.now grant_lifetime_seconds i.now i.later).1;
    nonce = i.nonce;
  }

  abbrev pub asked : Request → Expectation
  asked r = record { agent_id = r.agent_id; operation = r.operation; scope = r.scope }

  pub granted-IsAdmitted :
      (seed : Bytes) (s : KeySet) (r : Request) (t : ℤ)
      → IsRequest r
      → t ≤ℤ r.now +ℤ pos grant_lifetime_seconds +ℤ pos clock_skew_seconds
      → r.now ≤ℤ t +ℤ pos clock_skew_seconds
      → IsAdmitted s (asked r) t (granted seed s.epoch r)
  granted-IsAdmitted seed s r t i before after = record {
    epoch = refl;
    agent_id = refl;
    operation = refl;
    scope = refl;
    gc_proof = i.given;
    ordered = ground arith;
    lifetime = ground arith;
    in_time = before;
    begun = after;
  }

  -- The grant that a portal issues for a request, for the epoch of a key set that holds the portal's
  -- key under its id, is accepted by `verify` with that set, for the agent, operation and scope of the
  -- request, at every time from 60 seconds before the issue to 180 seconds after it. The request is in
  -- the ranges of its types, with an agent id of at most 255 bytes of UTF-8, a deletion with a proof,
  -- and an issue time whose expiry is an `i64`; the epoch is a `u64`.
  pub issue-verify :
      (seed : Bytes) (s : KeySet) (k : TrustedKey) (r : Request) (t : ℤ)
      → IsRequest r
      → s.epoch < 2 ^ 64
      → find_key (from_seed x seed).key_id s.keys ≡ some k
      → k.public ≡ x.public_key seed
      → IsI64 t
      → t ≤ℤ r.now +ℤ pos grant_lifetime_seconds +ℤ pos clock_skew_seconds
      → r.now ≤ℤ t +ℤ pos clock_skew_seconds
      → (token : List ℕ) × (issue x
            (from_seed x seed)
            r.nonce
            s.epoch
            r.agent_id
            r.operation
            r.scope
            r.gc_proof
            r.now
          ≡ ok token)
        × (verify x s token (asked r) t ≡ ok (granted seed s.epoch r))
  unfolding issue from_seed
  issue-verify seed s k r t i low found its_key j before after =
      let g = granted seed s.epoch r in
      let body = encode_body x g in
      let signature = x.sign seed (signed_message grant_domain body) in
      let token = x.base64_encode (body ++ signature) in
      let low_bytes =
        All-append IsByte body signature (granted_bytes seed s.epoch r i) (x.sign_bytes _ _) in
      (
        token,
        rw
            (
              le→ltb max_agent_id_bytes (length r.agent_id) i.agent_len,
              (wrapping_add-eq r.now grant_lifetime_seconds i.now i.later).0,
            )
            refl,
        IsAccepted-verify x s token (asked r) t g j (record {
          signature = signature;
          key = k;
          decoded =
              rw (trim_visible token (x.base64_visible (body ++ signature) low_bytes))
                (x.base64_decode-encode (body ++ signature) low_bytes);
          size = x.length-sign _ _;
          in_range = granted-IsGrant seed s.epoch r i low;
          found = found;
          verified = rw its_key (x.verifies-sign seed _);
          admitted = granted-IsAdmitted seed s r t i before after;
        }),
      )
