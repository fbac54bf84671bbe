-- ===== src/Trust/Runs.antt =====
-- Runs of an agent's trust: tokens, joins, updates and restarts, whatever the file system does. A reset
-- is the operator's way to begin again, and no part of a run.
use distr_hnsw.Common.{
  ℕ, ◌≤◌, ◌≡◌, refl, sym, ap, subst, ◌∙◌, Option, some, List, [], ◌∷◌, All, ltb, leb, Bool-cases,
  inl, inr, Result, ok, ok_injective, arith,
}
use distr_hnsw.Common.Bytes.{IsByte}
use distr_hnsw.Grant.Primitives.{Primitives}
use distr_hnsw.Grant.Keys.{SignedKeySet}
use distr_hnsw.Grant.Signed.{to_bytes, from_bytes, signed_by}
use distr_hnsw.Trust.Store.{
  HashText, TrustError, AgentTrust, Volume, TrustStore, Outcome, Answer, done, failed, failed_late,
  change, opened, open_store, arm_join_token, join, update, trimmed,
}
use distr_hnsw.Trust.Parsed.{to_bytes-from_bytes}

module _ (x : Primitives) (h : HashText) where
  -- The volume after some starts.
  abbrev pub attempts : List Outcome → Volume → Volume
  attempts [] v = v
  attempts (o ∷ os) v = attempts os (open_store x h o v).0

  pub data Move : TrustStore → TrustStore → Type 0 where
    armed :
        (o : Outcome) (s s' : TrustStore) (token : List ℕ) (r : Result TrustError (Unit {0}))
        → arm_join_token x h o s token ≡ (s', r)
        → Move s s'
    joined :
        (o1 o2 o3 : Outcome) (s s' : TrustStore) (token : List ℕ) (key_set : SignedKeySet)
        (portal : Option (List ℕ)) (r : Result TrustError (Unit {0}))
        → join x h o1 o2 o3 s token key_set portal ≡ (s', r)
        → Move s s'
    -- with a key set that arrived as bytes
    updated :
        (o : Outcome) (s s' : TrustStore) (bytes : List ℕ) (offered : SignedKeySet)
        (r : Result TrustError (Unit {0}))
        → All IsByte bytes
        → from_bytes x bytes ≡ ok offered
        → update x h o s offered ≡ (s', r)
        → Move s s'
    -- after any number of starts that fail
    restarted :
        (os : List Outcome) (o : Outcome) (s s' : TrustStore)
        → (open_store x h o (attempts os s.volume)).1 ≡ ok s'
        → Move s s'

  pub data Run : TrustStore → TrustStore → Type 0 where
    start : (s : TrustStore) → Run s s
    next : (s t u : TrustStore) → Run s t → Move t u → Run s u

  -- The agent is joined with a key set of at least this version and epoch, and so is the file.
  pub record Trusts (version epoch : ℕ) (s : TrustStore) : Type 0 where
    pub trust : AgentTrust
    pub held : s.state ≡ some trust
    pub version_kept : version ≤ trust.key_set.key_set.version
    pub epoch_kept : epoch ≤ trust.key_set.key_set.epoch
    pub file : List ℕ
    pub stored : SignedKeySet
    pub at : s.volume.key_set ≡ some file
    pub read : from_bytes x file ≡ ok stored
    pub version_stored : trust.key_set.key_set.version ≤ stored.key_set.version
    pub epoch_stored : trust.key_set.key_set.epoch ≤ stored.key_set.epoch

  pub open_store-eq :
      (o : Outcome) (v : Volume) (file : List ℕ) (stored : SignedKeySet)
      → v.key_set ≡ some file
      → from_bytes x file ≡ ok stored
      → open_store x h o v ≡ opened x h o v (ok stored)
  unfolding open_store
  open_store-eq o v file stored at read = rw at (rw read refl)

  opened-key_set :
      (o : Outcome) (v : Volume) (stored : SignedKeySet)
      → (opened x h o v (ok stored)).0.key_set ≡ v.key_set
  opened-key_set done v stored = refl
  opened-key_set failed v stored = refl
  opened-key_set failed_late v stored = refl

  attempts-key_set :
      (os : List Outcome) (v : Volume) (file : List ℕ) (stored : SignedKeySet)
      → v.key_set ≡ some file
      → from_bytes x file ≡ ok stored
      → (attempts os v).key_set ≡ some file
  attempts-key_set [] v file stored at read = at
  attempts-key_set (o ∷ os) v file stored at read =
      attempts-key_set os (open_store x h o v).0 file stored
        (ap (λ p. p.0.key_set) (open_store-eq o v file stored at read)
          ∙ opened-key_set o v stored
          ∙ at)
        read

  module _ (version epoch : ℕ) where
    opened-Trusts :
        (o : Outcome) (v : Volume) (s s' : TrustStore) (t : Trusts version epoch s)
        → v.key_set ≡ some t.file
        → (opened x h o v (ok t.stored)).1 ≡ ok s'
        → Trusts version epoch s'
    opened-Trusts done v s s' t at e = subst (Trusts version epoch) (ok_injective e) (record {
      trust = record { key_set = t.stored; portal_node = trimmed v.portal_node };
      held = refl;
      version_kept = omega (arith, t.version_kept, t.version_stored);
      epoch_kept = omega (arith, t.epoch_kept, t.epoch_stored);
      file = t.file;
      stored = t.stored;
      at = at;
      read = t.read;
      version_stored = omega arith;
      epoch_stored = omega arith;
    })
    opened-Trusts failed v s s' t at e = cc
    opened-Trusts failed_late v s s' t at e = cc

    -- The same state, with another file.
    with_file :
        (s : TrustStore) (t : Trusts version epoch s) (offered : SignedKeySet)
        → from_bytes x (to_bytes offered) ≡ ok offered
        → t.trust.key_set.key_set.version ≤ offered.key_set.version
        → t.trust.key_set.key_set.epoch ≤ offered.key_set.epoch
        → Trusts version epoch (record {
          volume = record s.volume { key_set = some (to_bytes offered) };
          state = s.state;
        })
    with_file s t offered read newer later = record {
      trust = t.trust;
      held = t.held;
      version_kept = t.version_kept;
      epoch_kept = t.epoch_kept;
      file = to_bytes offered;
      stored = offered;
      at = refl;
      read = read;
      version_stored = newer;
      epoch_stored = later;
    }

    accepted-Trusts :
        (o : Outcome) (s : TrustStore) (t : Trusts version epoch s) (offered : SignedKeySet)
        → from_bytes x (to_bytes offered) ≡ ok offered
        → t.trust.key_set.key_set.version ≤ offered.key_set.version
        → t.trust.key_set.key_set.epoch ≤ offered.key_set.epoch
        → Trusts version epoch
            (change o s.volume
              (record s.volume { key_set = some (to_bytes offered) })
              s.state
              (λ v. (
                record { volume = v; state = some (record t.trust { key_set = offered }) },
                ok tt,
              ))).0
    accepted-Trusts done s t offered read newer later = record {
      trust = record t.trust { key_set = offered };
      held = refl;
      version_kept = omega (arith, t.version_kept, newer);
      epoch_kept = omega (arith, t.epoch_kept, later);
      file = to_bytes offered;
      stored = offered;
      at = refl;
      read = read;
      version_stored = omega arith;
      epoch_stored = omega arith;
    }
    accepted-Trusts failed s t offered read newer later = t
    accepted-Trusts failed_late s t offered read newer later =
        with_file s t offered read newer later

    -- the state written out
    abbrev settled :
        (s : TrustStore) (t : Trusts version epoch s)
        → Trusts version epoch (record { volume = s.volume; state = some t.trust })
    settled s t = record {
      trust = t.trust;
      held = refl;
      version_kept = t.version_kept;
      epoch_kept = t.epoch_kept;
      file = t.file;
      stored = t.stored;
      at = t.at;
      read = t.read;
      version_stored = t.version_stored;
      epoch_stored = t.epoch_stored;
    }

    updated-Trusts :
        (o : Outcome) (s : TrustStore) (t : Trusts version epoch s) (offered : SignedKeySet)
        → from_bytes x (to_bytes offered) ≡ ok offered
        → Trusts version epoch (update x h o s offered).0
    unfolding update
    updated-Trusts o s t offered read =
        let k = t.trust.key_set.key_set in
        let same = settled s t in
        rw (t.held) (elim (Bool-cases (signed_by x offered k)) [
          | inr unsigned ↦ rw unsigned same
          | inl signed ↦ elim (Bool-cases (leb offered.key_set.version k.version)) [
            | inl old ↦ rw (signed, old) same
            | inr newer ↦ elim (Bool-cases (ltb offered.key_set.epoch k.epoch)) [
              | inl back ↦ rw (signed, newer, back) same
              | inr later ↦
                  rw (signed, newer, later)
                    (accepted-Trusts o (record { volume = s.volume; state = some t.trust }) same
                      offered read (ground (arith, newer)) (ground (arith, later)))
            ]
          ]
        ])

    armed_stays :
        (o : Outcome) (s : TrustStore) (t : Trusts version epoch s) (token : List ℕ)
        → Trusts version epoch (arm_join_token x h o s token).0
    unfolding arm_join_token
    armed_stays o s t token = rw (t.held) (settled s t)

    joined_stays :
        (o1 o2 o3 : Outcome) (s : TrustStore) (t : Trusts version epoch s) (token : List ℕ)
        (key_set : SignedKeySet) (portal : Option (List ℕ))
        → Trusts version epoch (join x h o1 o2 o3 s token key_set portal).0
    unfolding join
    joined_stays o1 o2 o3 s t token key_set portal = rw (t.held) (settled s t)

    Move-Trusts : (s s' : TrustStore) → Trusts version epoch s → Move s s' → Trusts version epoch s'
    Move-Trusts s s' t (armed o _ _ token r e) =
        subst (λ (p : Answer). Trusts version epoch p.0) e (armed_stays o s t token)
    Move-Trusts s s' t (joined o1 o2 o3 _ _ token key_set portal r e) =
        subst (λ (p : Answer). Trusts version epoch p.0) e
          (joined_stays o1 o2 o3 s t token key_set portal)
    Move-Trusts s s' t (updated o _ _ bytes offered r low read e) =
        subst (λ (p : Answer). Trusts version epoch p.0) e
          (updated-Trusts o s t offered (
            subst (λ b. from_bytes x b ≡ ok offered)
              (sym (to_bytes-from_bytes x bytes offered low read)) read))
    Move-Trusts s s' t (restarted os o _ _ e) =
        let v = attempts os s.volume in
        let at = attempts-key_set os s.volume t.file t.stored t.at t.read in
        opened-Trusts o v s s' t at
          (ap (λ p. p.1) (sym (open_store-eq o v t.file t.stored at t.read)) ∙ e)

    -- An agent that is joined stays joined in every run: through tokens, further joins, updates and
    -- restarts, and whatever its file system does, it holds a key set of no lower version and epoch, in
    -- memory and in the file.
    pub Run-Trusts :
        (s s' : TrustStore) → Trusts version epoch s → Run s s' → Trusts version epoch s'
    Run-Trusts s s' t (start _) = t
    Run-Trusts s s' t (next _ u _ run move) = Move-Trusts u s' (Run-Trusts s u t run) move
