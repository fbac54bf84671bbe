-- ===== src/Format/Sample.antt =====
-- A stand-in for the cipher, for the runs in Examples: the message in the clear, and a tag of 16 bytes
-- of the associated data.
use distr_hnsw.Common.{
  ℕ, ◌+◌, ◌-◌, ◌≡◌, refl, sym, ap, ◌∙◌, subst, Option, none, some, List, ◌++◌, length,
  length-append, length-take, take, drop, take-append, drop-append, take-append-drop, bytes_eq,
  bytes_eq→eq, bytes_eq_refl, if◌then◌else◌, Bool-cases, inl, inr, arith,
}
use distr_hnsw.Grant.Sample.{digest, length-digest}
use distr_hnsw.Format.Crypto.{Aead}

abbrev pub tag : List ℕ → List ℕ
tag aad = take 16 (digest aad)

length-tag : (aad : List ℕ) → length (tag aad) ≡ 16
length-tag aad = omega (arith, length-take 16 (digest aad), length-digest aad)

unfoldable pub open_sample : List ℕ → List ℕ → Option (List ℕ)
open_sample aad c =
    if bytes_eq (drop (length c - 16) c) (tag aad) then some (take (length c - 16) c) else none

pub sample_opens : (aad msg : List ℕ) → open_sample aad (msg ++ tag aad) ≡ some msg
unfolding open_sample
sample_opens aad msg =
    let cut : length (msg ++ tag aad) - 16 ≡ length msg =
      omega (arith, length-append msg (tag aad), length-tag aad) in
    rw (drop-append msg (tag aad) _ cut, take-append msg (tag aad) _ cut, bytes_eq_refl (tag aad))
      refl

pub opened_sample :
    (aad msg c : List ℕ) → open_sample aad c ≡ some msg → some (msg ++ tag aad) ≡ some c
unfolding open_sample
opened_sample aad msg c h = elim (Bool-cases (bytes_eq (drop (length c - 16) c) (tag aad))) [
  | inl same ↦
      let front : take (length c - 16) c ≡ msg = ground (arith, same, h) in
      ap some (
        ap (λ t. t ++ tag aad) (sym front)
        ∙ ap (λ t. take (length c - 16) c ++ t) (sym (bytes_eq→eq _ _ same))
        ∙ take-append-drop (length c - 16) c)
  | inr other ↦ absurd (ground (arith, other, h))
]

pub length-sealed :
    (aad msg c : List ℕ) → some (msg ++ tag aad) ≡ some c → length c ≡ length msg + 16
length-sealed aad msg c h =
    let same : msg ++ tag aad ≡ c = cc in
    sym (ap length same) ∙ omega (arith, length-append msg (tag aad), length-tag aad)

pub opens_sealed :
    (aad msg c : List ℕ) → some (msg ++ tag aad) ≡ some c → open_sample aad c ≡ some msg
opens_sealed aad msg c h =
    let same : msg ++ tag aad ≡ c = cc in
    subst (λ b. open_sample aad b ≡ some msg) same (sample_opens aad msg)

abbrev pub cipher : Aead
cipher = record {
  encrypt = λ key nonce aad msg. some (msg ++ tag aad);
  decrypt = λ key nonce aad c. open_sample aad c;
  encrypt_total = λ key nonce aad msg h. (msg ++ tag aad, refl);
  length-encrypt = λ key nonce aad msg c h. length-sealed aad msg c h;
  decrypt-encrypt = λ key nonce aad msg c h. opens_sealed aad msg c h;
  encrypt-decrypt = λ key nonce aad msg c h. opened_sample aad msg c h;
}
