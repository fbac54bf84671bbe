-- ===== src/Trust/Store.antt =====
-- trust.rs: `TrustStore`, with the files of its volume in the state. What the file system does in a call
-- that changes a file is an argument: it is done, or it reports a failure with the change made or not.
use distr_hnsw.Common.{
  ℕ, ◌+◌, ◌/◌, ◌%◌, ◌<◌, ◌≡◌, false, not, Option, none, some, List, [], ◌∷◌, ◌++◌, length, All, ltb,
  leb, bytes_eq, if◌then◌else◌, Result, ok, err,
}
use distr_hnsw.Grant.Primitives.{Primitives, is_whitespace, trim}
use distr_hnsw.Grant.Types.{GrantError}
use distr_hnsw.Grant.Keys.{SignedKeySet}
use distr_hnsw.Grant.Signed.{to_bytes, from_bytes, signed_by, self_signed}

-- `str::as_bytes` of a text, which is the list of its scalar values.
abbrev utf8_char : ℕ → List ℕ
utf8_char c =
    if ltb c 128
    then c ∷ []
    else if ltb c 2048
    then (192 + c / 64) ∷ (128 + c % 64) ∷ []
    else if ltb c 65536
    then (224 + c / 4096) ∷ (128 + c / 64 % 64) ∷ (128 + c % 64) ∷ []
    else (240 + c / 262144) ∷ (128 + c / 4096 % 64) ∷ (128 + c / 64 % 64) ∷ (128 + c % 64) ∷ []

unfoldable pub utf8 : List ℕ → List ℕ
utf8 [] = []
utf8 (c ∷ cs) = utf8_char c ++ utf8 cs

-- The `blake3` crate's text of a hash: `to_hex` and `from_hex`.
pub record HashText : Type 0 where
  pub to_hex : List ℕ → List ℕ
  pub from_hex : List ℕ → Option (List ℕ)
  pub from_hex-to_hex :
      (hash : List ℕ)
      → length hash ≡ 32
      → All (λ b. b < 256) hash
      → from_hex (to_hex hash) ≡ some hash
  pub to_hex_visible :
      (hash : List ℕ) → All (λ b. b < 256) hash → All (λ c. is_whitespace c ≡ false) (to_hex hash)

pub data TrustError : Type 0 where
  already_joined not_joined no_join_token bad_token untrusted io : TrustError
  not_newer epoch_regression : ℕ → ℕ → TrustError
  malformed : GrantError → TrustError

pub record AgentTrust : Type 0 where
  pub key_set : SignedKeySet
  pub portal_node : Option (List ℕ)

-- The files `join-token`, `trust-portal-node` (texts) and `trust-key-set`.
pub record Volume : Type 0 where
  pub token : Option (List ℕ)
  pub portal_node : Option (List ℕ)
  pub key_set : Option (List ℕ)

pub record TrustStore : Type 0 where
  pub volume : Volume
  pub state : Option AgentTrust

pub data Outcome : Type 0 where
  done failed failed_late : Outcome

abbrev pub Answer : Type 0
Answer = TrustStore × Result TrustError (Unit {0})

-- `replace_file_durably` or `remove_file_durably`, then what follows; a failure leaves the state.
abbrev pub change : Outcome → Volume → Volume → Option AgentTrust → (Volume → Answer) → Answer
change done old new state next = next new
change failed old new state next = (record { volume = old; state = state }, err io)
change failed_late old new state next = (record { volume = new; state = state }, err io)

abbrev pub trimmed : Option (List ℕ) → Option (List ℕ)
trimmed none = none
trimmed (some portal) = some (trim portal)

module _ (x : Primitives) (h : HashText) where
  unfoldable pub join_token_hash : List ℕ → List ℕ
  join_token_hash token = h.to_hex (x.blake3 (utf8 (trim token)))

  -- The reads of the files succeed here. A key set that is read is trusted, once a token that a join left
  -- is removed; the answer is the volume, and the store where there is one.
  abbrev pub opened :
      Outcome → Volume → Result GrantError SignedKeySet → Volume × Result TrustError TrustStore
  opened o v (err e) = (v, err (malformed e))
  opened done v (ok k) = (
    record v { token = none },
    ok (record {
      volume = record v { token = none };
      state = some (record { key_set = k; portal_node = trimmed v.portal_node });
    }),
  )
  opened failed v (ok k) = (v, err io)
  opened failed_late v (ok k) = (record v { token = none }, err io)

  unfoldable pub open_store : Outcome → Volume → Volume × Result TrustError TrustStore
  open_store o v = elim v.key_set [
    | none ↦ (v, ok (record { volume = v; state = none }))
    | some bytes ↦ opened o v (from_bytes x bytes)
  ]

  unfoldable pub arm_join_token : Outcome → TrustStore → List ℕ → Answer
  arm_join_token o s token = elim s.state [
    | some t ↦ (s, ok tt)
    | none ↦
        change o s.volume (record s.volume { token = some (join_token_hash token) }) none
          λ v. (record { volume = v; state = none }, ok tt)
  ]

  unfoldable pub reset_and_arm : Outcome → Outcome → Outcome → TrustStore → List ℕ → Answer
  reset_and_arm o1 o2 o3 s token =
      change o1 s.volume (record s.volume { token = some (join_token_hash token) }) s.state
        λ v.
          change o2 v (record v { key_set = none }) s.state
            λ v.
              change o3 v (record v { portal_node = none }) s.state
                λ v. (record { volume = v; state = none }, ok tt)

  -- `join` behind its checks
  unfoldable pub join_files :
      Outcome → Outcome → Outcome → Volume → SignedKeySet → Option (List ℕ) → Answer
  join_files o1 o2 o3 v key_set portal =
      change o1 v (record v { portal_node = portal }) none
        λ v.
          change o2 v (record v { key_set = some (to_bytes key_set) }) none
            λ v.
              change o3 v (record v { token = none }) none
                λ v. (
                  record {
                    volume = v;
                    state = some (record { key_set = key_set; portal_node = portal });
                  },
                  ok tt,
                )

  abbrev pub join_checked : TrustStore → List ℕ → SignedKeySet → Option (List ℕ) → Answer → Answer
  join_checked s token key_set none accepted = (s, err no_join_token)
  join_checked s token key_set (some hash) accepted =
      if not (bytes_eq hash (x.blake3 (utf8 (trim token))))
      then (s, err bad_token)
      else if not (self_signed x key_set)
      then (s, err untrusted)
      else accepted

  unfoldable pub join :
      Outcome → Outcome → Outcome → TrustStore → List ℕ → SignedKeySet → Option (List ℕ) → Answer
  join o1 o2 o3 s token key_set portal = elim s.state [
    | some t ↦ (s, err already_joined)
    | none ↦ elim s.volume.token [
      | none ↦ (s, err no_join_token)
      | some stored ↦
          join_checked s token key_set (h.from_hex (trim stored))
            (join_files o1 o2 o3 s.volume key_set portal)
    ]
  ]

  unfoldable pub update : Outcome → TrustStore → SignedKeySet → Answer
  update o s offered = elim s.state [
    | none ↦ (s, err not_joined)
    | some t ↦
        if not (signed_by x offered t.key_set.key_set)
        then (s, err untrusted)
        else if leb offered.key_set.version t.key_set.key_set.version
        then (s, err (not_newer offered.key_set.version t.key_set.key_set.version))
        else if ltb offered.key_set.epoch t.key_set.key_set.epoch
        then (s, err (epoch_regression offered.key_set.epoch t.key_set.key_set.epoch))
        else change o s.volume (record s.volume { key_set = some (to_bytes offered) }) s.state
            λ v. (record { volume = v; state = some (record t { key_set = offered }) }, ok tt)
  ]
