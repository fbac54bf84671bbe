-- ===== src/Access/Examples.antt =====
-- A key with two scopes.
use distr_hnsw.Common.{◌≡◌, refl, true, false, [], ◌∷◌, All, ok}
use distr_hnsw.Access.Scopes.{
  read, admin, CollectionScope, valid_collection_name, new_scopes, parse, scopes_text, allows,
}
use distr_hnsw.Access.RoundTrip.{IsNamed, parse-scopes_text}

abbrev photos : CollectionScope
photos = record { collection = 112 ∷ 104 ∷ 111 ∷ []; right = read }

abbrev backup : CollectionScope
backup = record { collection = 98 ∷ 45 ∷ 49 ∷ []; right = admin }

both-IsNamed : All IsNamed (photos ∷ backup ∷ [])
unfolding valid_collection_name
both-IsNamed = (refl, (refl, tt))

both_made : new_scopes (photos ∷ backup ∷ []) ≡ ok (backup ∷ photos ∷ [])
unfolding new_scopes
both_made = refl

backup-allows : allows (backup ∷ photos ∷ []) backup.collection read ≡ true
unfolding allows
backup-allows = refl

photos-allows : allows (backup ∷ photos ∷ []) photos.collection admin ≡ false
unfolding allows
photos-allows = refl

parse-scopes_text_example : parse (scopes_text (backup ∷ photos ∷ [])) ≡ ok (backup ∷ photos ∷ [])
parse-scopes_text_example =
    parse-scopes_text (photos ∷ backup ∷ []) (backup ∷ photos ∷ []) both-IsNamed both_made
