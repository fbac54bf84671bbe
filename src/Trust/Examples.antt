-- ===== src/Trust/Examples.antt =====
-- An agent that joins, takes a new key set, and starts again.
use distr_hnsw.Common.{
  ℕ, ◌<◌, ◌≡◌, refl, ap, ◌∙◌, true, false, ◌⊎◌, none, some, List, [], ◌∷◌, All, ok, arith,
}
use distr_hnsw.Common.Bytes.{IsByte, to_le}
use distr_hnsw.Grant.Primitives.{is_whitespace}
use distr_hnsw.Grant.Keys.{
  SignedKeySet, signed_message, encode_keys, key_bytes, find_key, from_seed, key_id_of,
}
use distr_hnsw.Grant.KeysCodec.{IsKeySet}
use distr_hnsw.Grant.Signed.{
  to_bytes, signature_bytes, from_bytes, sign_set, signed_by, self_signed, any_signature,
}
use distr_hnsw.Grant.Rotation.{from_bytes-to_bytes}
use distr_hnsw.Grant.Sample.{digest, to_hex, of_hex, of_hex-to_hex, sample}
use distr_hnsw.Grant.Examples.{
  old_set, old_portal, new_set, signers, new_set-IsKeySet, signers_made,
}
use distr_hnsw.Trust.Store.{
  HashText, TrustStore, Outcome, opened, done, failed, failed_late, open_store, join_token_hash,
  join, update,
}
use distr_hnsw.Trust.Runs.{
  updated, restarted, Run, start, next, Trusts, Run-Trusts, attempts, open_store-eq,
}
use distr_hnsw.Trust.Join.{Again, Finished, join_outcome}

to_hex_visible :
    (hash : List ℕ) → All (λ b. b < 256) hash → All (λ c. is_whitespace c ≡ false) (to_hex hash)
to_hex_visible [] h = tt
to_hex_visible (b ∷ bs) (here, later) =
    (ground (arith, here), (ground arith, to_hex_visible bs later))

abbrev text : HashText
text = record {
  to_hex = to_hex;
  from_hex = of_hex;
  from_hex-to_hex = λ hash size low. of_hex-to_hex hash low;
  to_hex_visible = λ hash low. to_hex_visible hash low;
}

abbrev first : SignedKeySet
first = sign_set sample old_set (old_portal ∷ [])

old_set-IsKeySet : IsKeySet sample old_set
unfolding key_id_of digest
old_set-IsKeySet = record {
  version = omega arith;
  epoch = omega arith;
  not_empty = omega arith;
  few = omega arith;
  keys = (record { size = refl; is_key = refl; key_id = refl }, tt);
  one_active = refl;
}

first_read : from_bytes sample (to_bytes first) ≡ ok first
first_read =
    from_bytes-to_bytes sample old_set (old_portal ∷ []) old_set-IsKeySet (signers_made.1)
      (omega arith) (omega arith)

first_low : All IsByte (to_bytes first)
unfolding to_bytes signature_bytes sign_set from_seed key_id_of digest encode_keys key_bytes to_le
    signed_message
first_low = ground arith

first_signed : self_signed sample first ≡ true
unfolding self_signed signed_by any_signature find_key sign_set from_seed key_id_of digest
    encode_keys key_bytes to_le signed_message
first_signed = refl

abbrev token : List ℕ
token = 32 ∷ 116 ∷ 111 ∷ 107 ∷ []

abbrev armed_agent : TrustStore
armed_agent = record {
  volume = record {
    token = some (join_token_hash sample text token);
    portal_node = none;
    key_set = none;
  };
  state = none;
}

join_outcome_example :
    (Again sample text
        (join sample text done done failed_late armed_agent token first (some (110 ∷ 49 ∷ []))).0
        token
      ⊎ Finished sample text
          (join sample text done done failed_late armed_agent token first (some (110 ∷ 49 ∷ []))).0
          first
          (some (110 ∷ 49 ∷ [])))
    × (join sample text done done done armed_agent token first (some (110 ∷ 49 ∷ [])) ≡ (
      record {
        volume = record {
          token = none;
          portal_node = some (110 ∷ 49 ∷ []);
          key_set = some (to_bytes first);
        };
        state = some (record { key_set = first; portal_node = some (110 ∷ 49 ∷ []) });
      },
      ok tt,
    ))
join_outcome_example =
    join_outcome sample text done done failed_late armed_agent token (to_bytes first) first
      (some (110 ∷ 49 ∷ [])) first_low first_read first_signed refl refl refl

abbrev joined_agent : TrustStore
joined_agent = record {
  volume = record { token = none; portal_node = none; key_set = some (to_bytes first) };
  state = some (record { key_set = first; portal_node = none });
}

joined_agent-Trusts : Trusts sample text 1 7 joined_agent
unfolding sign_set
joined_agent-Trusts = record {
  trust = record { key_set = first; portal_node = none };
  held = refl;
  version_kept = omega arith;
  epoch_kept = omega arith;
  file = to_bytes first;
  stored = first;
  at = refl;
  read = first_read;
  version_stored = omega arith;
  epoch_stored = omega arith;
}

abbrev second : SignedKeySet
second = sign_set sample new_set signers

second_low : All IsByte (to_bytes second)
unfolding to_bytes signature_bytes sign_set from_seed key_id_of digest encode_keys key_bytes to_le
    signed_message
second_low = ground arith

second_read : from_bytes sample (to_bytes second) ≡ ok second
second_read =
    from_bytes-to_bytes sample new_set signers new_set-IsKeySet signers_made (omega arith)
      (omega arith)

abbrev updated_agent : TrustStore
updated_agent = record {
  volume = record { token = none; portal_node = none; key_set = some (to_bytes second) };
  state = some (record { key_set = second; portal_node = none });
}

second_taken : update sample text done joined_agent second ≡ (updated_agent, ok tt)
unfolding update signed_by any_signature find_key sign_set from_seed key_id_of digest encode_keys
    key_bytes to_le signed_message
second_taken = refl

opens :
    (o : Outcome)
    → open_store sample text o updated_agent.volume
      ≡ opened sample text o updated_agent.volume (ok second)
opens o = open_store-eq sample text o updated_agent.volume (to_bytes second) second refl second_read

restart_opened :
    (open_store sample text done
      (attempts sample text (failed_late ∷ failed ∷ []) updated_agent.volume)).1
    ≡ ok updated_agent
restart_opened =
    ap (λ p. (open_store sample text done (open_store sample text failed p.0).0).1)
      (opens failed_late)
    ∙ ap (λ p. (open_store sample text done p.0).1) (opens failed)
    ∙ ap (λ p. p.1) (opens done)

run : Run sample text joined_agent updated_agent
run =
    next joined_agent updated_agent updated_agent
      (next joined_agent joined_agent updated_agent (start joined_agent) (
        updated done joined_agent updated_agent (to_bytes second) second (ok tt) second_low
          second_read second_taken))
      (restarted (failed_late ∷ failed ∷ []) done updated_agent updated_agent restart_opened)

Run-Trusts_example : Trusts sample text 1 7 updated_agent
Run-Trusts_example = Run-Trusts sample text 1 7 joined_agent updated_agent joined_agent-Trusts run
