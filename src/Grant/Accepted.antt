-- ===== src/Grant/Accepted.antt =====
-- `KeySet::verify` accepts exactly the tokens that a trusted key has signed over an admitted grant.
use distr_hnsw.Common.{
  not-false, refuse-passed, ok_or-some, ℕ, ◌-◌, ◌≡◌, sym, ap, subst, ◌∙◌, true, some, List, ◌++◌,
  length, take, drop, take-append-drop, length-drop, length-append, take-append, drop-append,
  le→ltb, All, ltb, ok, ok_or, arith, >>=-eq-ok,
}
use distr_hnsw.Common.Readings.{All-split}
use distr_hnsw.Common.Bytes.{IsByte}
use distr_hnsw.Common.Int.{ℤ, IsI64}
use distr_hnsw.Grant.Primitives.{Primitives, trim}
use distr_hnsw.Grant.Types.{Bytes, Grant, unknown_key}
use distr_hnsw.Grant.Body.{encode_body, decode_body}
use distr_hnsw.Grant.BodyCodec.{IsGrant, decode_body-encode_body}
use distr_hnsw.Grant.Canonical.{encode_body-decode_body}
use distr_hnsw.Grant.Decoded.{decode_body-IsGrant}
use distr_hnsw.Grant.Keys.{KeySet, TrustedKey, grant_domain, signed_message, find_key}
use distr_hnsw.Grant.Verify.{Expectation, verify_raw, verify}
use distr_hnsw.Grant.Admitted.{
  IsAdmitted, check_grant-Passes, Passes-check_grant, Passes-IsAdmitted, IsAdmitted-Passes,
}

module _ (x : Primitives) where
  -- The token is the base64 text of the grant's bytes and a signature over them, by the key of the
  -- set that the grant names.
  pub record IsAccepted (s : KeySet) (token : List ℕ) (expected : Expectation) (now : ℤ) (g : Grant)
      : Type 0 where
    pub signature : Bytes
    pub key : TrustedKey
    pub decoded : x.base64_decode (trim token) ≡ some (encode_body x g ++ signature)
    pub size : length signature ≡ 64
    pub in_range : IsGrant g
    pub found : find_key g.key_id s.keys ≡ some key
    pub verified :
        x.verifies key.public (signed_message grant_domain (encode_body x g)) signature ≡ true
    pub admitted : IsAdmitted s expected now g

  verify_raw-IsAccepted :
      (s : KeySet) (token raw : List ℕ) (expected : Expectation) (now : ℤ) (g : Grant)
      → IsI64 now
      → x.base64_decode (trim token) ≡ some raw
      → verify_raw x s expected now raw ≡ ok g
      → IsAccepted s token expected now g
  unfolding verify_raw
  verify_raw-IsAccepted s token raw expected now g i at h =
      let body = take (length raw - 64) raw in
      let signature = drop (length raw - 64) raw in
      let (long, h1) = refuse-passed (ltb (length raw) 64) _ _ h in
      let (f, read, h2) = >>=-eq-ok (decode_body x body) _ h1 in
      let (k, known, h3) =
        >>=-eq-ok (ok_or (find_key f.key_id s.keys) (unknown_key f.key_id)) _ h2 in
      let (signed, h4) = refuse-passed _ _ _ h3 in
      let (passes, same) = check_grant-Passes s expected now f g h4 in
      let split : body ++ signature ≡ raw = take-append-drop (length raw - 64) raw in
      let bytes : All IsByte body =
        (All-split IsByte body signature
          (subst (All IsByte) (sym split) (x.base64_bytes _ raw at))).0 in
      let whole = encode_body-decode_body x body f bytes read in
      let range = decode_body-IsGrant x body f bytes read in
      subst (IsAccepted s token expected now) same (record {
        signature = signature;
        key = k;
        decoded = at ∙ ap some (sym split ∙ ap (λ b. b ++ signature) (sym whole));
        size = ground (arith, length-drop (length raw - 64) raw, long);
        in_range = range;
        found = ok_or-some _ _ known;
        verified =
            subst (λ b. x.verifies k.public (signed_message grant_domain b) signature ≡ true)
              (sym whole) (not-false _ signed);
        admitted = Passes-IsAdmitted s expected now f i range.issued_at range.expires_at passes;
      })

  -- A token that `verify` accepts at a time in the `i64` range is the base64 text of the returned
  -- grant's bytes and 64 bytes that verify as their signature under the key of the set that the grant
  -- names; and the grant is for the set's epoch and for the expected agent, operation and scope, has
  -- a proof if it is for a deletion, lives at most 300 seconds, and covers the time, give or take 60
  -- seconds on either side.
  pub verify-IsAccepted :
      (s : KeySet) (token : List ℕ) (expected : Expectation) (now : ℤ) (g : Grant)
      → IsI64 now
      → verify x s token expected now ≡ ok g
      → IsAccepted s token expected now g
  unfolding verify
  verify-IsAccepted s token expected now g i h =
      let (raw, at, h1) = >>=-eq-ok _ _ h in
      verify_raw-IsAccepted s token raw expected now g i (ok_or-some _ _ at) h1

  -- Conversely, `verify` accepts every token that these conditions describe.
  pub IsAccepted-verify :
      (s : KeySet) (token : List ℕ) (expected : Expectation) (now : ℤ) (g : Grant)
      → IsI64 now
      → IsAccepted s token expected now g
      → verify x s token expected now ≡ ok g
  unfolding verify verify_raw
  IsAccepted-verify s token expected now g i a =
      let body = encode_body x g in
      let n = length (body ++ a.signature) in
      let cut : n - 64 ≡ length body = omega (arith, length-append body a.signature, a.size) in
      rw (a.decoded) (
        rw (le→ltb n 64 (omega (arith, length-append body a.signature, a.size))) (
          rw (take-append body a.signature (n - 64) cut, drop-append body a.signature (n - 64) cut)
            (rw (decode_body-encode_body x g a.in_range) (
              rw (a.found) (
                rw (a.verified) (
                  Passes-check_grant s expected now g (
                    IsAdmitted-Passes s expected now g i a.in_range.issued_at a.in_range.expires_at
                      a.admitted)))))))
