-- ===== src/Trust/Join.antt =====
-- A join is finished, or can be made again.
use distr_hnsw.Common.{
  ℕ, ◌≡◌, refl, sym, ap, subst, ◌∙◌, true, ◌⊎◌, inl, inr, Option, none, some, List, All,
  bytes_eq_refl, ok,
}
use distr_hnsw.Common.Bytes.{IsByte}
use distr_hnsw.Grant.Primitives.{Primitives, trim}
use distr_hnsw.Grant.Keys.{SignedKeySet}
use distr_hnsw.Grant.Signed.{to_bytes, from_bytes, self_signed}
use distr_hnsw.Grant.Issued.{trim_visible}
use distr_hnsw.Trust.Store.{
  HashText, Volume, TrustStore, Outcome, done, failed, failed_late, Answer, open_store,
  join_token_hash, join_files, join, trimmed, utf8,
}
use distr_hnsw.Trust.Parsed.{to_bytes-from_bytes}
use distr_hnsw.Trust.Runs.{open_store-eq}

module _ (x : Primitives) (h : HashText) where
  -- After a restart the agent is joined with the key set and the node, and the token is gone.
  abbrev pub Finished : TrustStore → SignedKeySet → Option (List ℕ) → Type 0
  Finished s key_set portal =
      (open_store x h done s.volume).1
      ≡ ok (record {
        volume = record s.volume { token = none };
        state = some (record { key_set = key_set; portal_node = trimmed portal });
      })

  -- The agent is not joined, now or after a restart, and the token is still armed.
  abbrev pub Again : TrustStore → List ℕ → Type 0
  Again s token =
      (s.state ≡ none)
      × ((open_store x h done s.volume).1 ≡ ok (record { volume = s.volume; state = none }))
      × (s.volume.token ≡ some (join_token_hash x h token))

  armed_hash :
      (token : List ℕ)
      → h.from_hex (trim (join_token_hash x h token)) ≡ some (x.blake3 (utf8 (trim token)))
  unfolding join_token_hash
  armed_hash token =
      let hash = x.blake3 (utf8 (trim token)) in
      rw (trim_visible (h.to_hex hash) (h.to_hex_visible hash (x.blake3_bytes _)))
        (h.from_hex-to_hex hash (x.length-blake3 _) (x.blake3_bytes _))

  unjoined-open_store :
      (v : Volume)
      → v.key_set ≡ none
      → (open_store x h done v).1 ≡ ok (record { volume = v; state = none })
  unfolding open_store
  unjoined-open_store v at = rw at refl

  join_files_outcome :
      (o1 o2 o3 : Outcome) (v : Volume) (token : List ℕ) (key_set : SignedKeySet)
      (portal : Option (List ℕ))
      → from_bytes x (to_bytes key_set) ≡ ok key_set
      → v.key_set ≡ none
      → v.token ≡ some (join_token_hash x h token)
      → Again (join_files x h o1 o2 o3 v key_set portal).0 token
        ⊎ Finished (join_files x h o1 o2 o3 v key_set portal).0 key_set portal
  unfolding join_files
  join_files_outcome failed o2 o3 v token key_set portal read at armed =
      inl (refl, unjoined-open_store _ at, armed)
  join_files_outcome failed_late o2 o3 v token key_set portal read at armed =
      inl (refl, unjoined-open_store _ at, armed)
  join_files_outcome done failed o3 v token key_set portal read at armed =
      inl (refl, unjoined-open_store _ at, armed)
  join_files_outcome done failed_late o3 v token key_set portal read at armed =
      inr (ap (λ p. p.1) (open_store-eq x h done _ (to_bytes key_set) key_set refl read))
  join_files_outcome done done done v token key_set portal read at armed =
      inr (ap (λ p. p.1) (open_store-eq x h done _ (to_bytes key_set) key_set refl read))
  join_files_outcome done done failed v token key_set portal read at armed =
      inr (ap (λ p. p.1) (open_store-eq x h done _ (to_bytes key_set) key_set refl read))
  join_files_outcome done done failed_late v token key_set portal read at armed =
      inr (ap (λ p. p.1) (open_store-eq x h done _ (to_bytes key_set) key_set refl read))

  accepted-join :
      (o1 o2 o3 : Outcome) (s : TrustStore) (token : List ℕ) (key_set : SignedKeySet)
      (portal : Option (List ℕ))
      → self_signed x key_set ≡ true
      → s.state ≡ none
      → s.volume.token ≡ some (join_token_hash x h token)
      → join x h o1 o2 o3 s token key_set portal ≡ join_files x h o1 o2 o3 s.volume key_set portal
  unfolding join
  accepted-join o1 o2 o3 s token key_set portal signed free armed = rw free (
      rw armed (
        rw (armed_hash token) (
          rw (bytes_eq_refl (x.blake3 (utf8 (trim token))), signed)
            (ap (λ t. join_files x h o1 o2 o3 (record s.volume { token = t }) key_set portal)
              armed))))

  -- An agent that is not joined and is armed with a token is joined with the token and a self-signed key
  -- set, from its bytes: at once, with the token burnt, where the file system does its part; and
  -- whatever it does, after a restart the agent either is joined with that key set and the trimmed
  -- node, the token burnt, or is not joined and can be joined with the same token.
  pub join_outcome :
      (o1 o2 o3 : Outcome) (s : TrustStore) (token bytes : List ℕ) (key_set : SignedKeySet)
      (portal : Option (List ℕ))
      → All IsByte bytes
      → from_bytes x bytes ≡ ok key_set
      → self_signed x key_set ≡ true
      → s.state ≡ none
      → s.volume.key_set ≡ none
      → s.volume.token ≡ some (join_token_hash x h token)
      → (Again (join x h o1 o2 o3 s token key_set portal).0 token
          ⊎ Finished (join x h o1 o2 o3 s token key_set portal).0 key_set portal)
        × (join x h done done done s token key_set portal ≡ (
          record {
            volume = record { token = none; portal_node = portal; key_set = some bytes };
            state = some (record { key_set = key_set; portal_node = portal });
          },
          ok tt,
        ))
  unfolding join_files
  join_outcome o1 o2 o3 s token bytes key_set portal low read signed free empty armed =
      let same = to_bytes-from_bytes x bytes key_set low read in
      let again : from_bytes x (to_bytes key_set) ≡ ok key_set =
        subst (λ b. from_bytes x b ≡ ok key_set) (sym same) read in
      (
        subst (λ (p : Answer). Again p.0 token ⊎ Finished p.0 key_set portal)
            (sym (accepted-join o1 o2 o3 s token key_set portal signed free armed))
            (join_files_outcome o1 o2 o3 s.volume token key_set portal again empty armed),
        accepted-join done done done s token key_set portal signed free armed
            ∙ ap
                (λ b. (
                  record {
                    volume = record { token = none; portal_node = portal; key_set = some b };
                    state = some (record { key_set = key_set; portal_node = portal });
                  },
                  ok tt,
                ))
                same,
      )
