-- ===== src/Access/RoundTrip.antt =====
-- The stored text of a key's scopes is read back.
use distr_hnsw.Common.{
  ℕ, ◌≡◌, refl, ap, subst, ◌∙◌, true, false, some, List, [], ◌∷◌, ◌++◌, append-nil, map, All,
  All-append, ok, refuse-passed, ok_injective, arith,
}
use distr_hnsw.Grant.Primitives.{is_whitespace}
use distr_hnsw.Grant.Verify.{split_once}
use distr_hnsw.Access.Scopes.{
  Right, read, write, admin, right_text, CollectionScope, no_scope, repeated_collection, scope_text,
  all_name_chars, valid_collection_name, right_of, from_str, insert_scope, sort_scopes,
  any_repeated, is_empty, new_scopes, push_word, words_of, split_whitespace, parse_all, parse,
  scopes_text,
}
use distr_hnsw.Access.Order.{IsSorted, sort_scopes-IsSorted, sort_scopes_sorted, sort_scopes-All}

abbrev pub IsNamed : CollectionScope → Type 0
IsNamed s = valid_collection_name s.collection ≡ true

name_chars : (name : List ℕ) → valid_collection_name name ≡ true → all_name_chars name ≡ true
unfolding valid_collection_name
name_chars [] h = cc
name_chars (c ∷ cs) h = ground (arith, h)

split_once_name :
    (name right : List ℕ)
    → all_name_chars name ≡ true
    → split_once 58 (name ++ (58 ∷ right)) ≡ some (name, right)
unfolding split_once
split_once_name [] right h = refl
split_once_name (c ∷ cs) right h = ground (arith, split_once_name cs right, h)

right_of-right_text : (r : Right) → right_of (right_text r) ≡ ok r
unfolding right_of
right_of-right_text read = refl
right_of-right_text write = refl
right_of-right_text admin = refl

from_str-scope_text : (s : CollectionScope) → IsNamed s → from_str (scope_text s) ≡ ok s
unfolding from_str scope_text
from_str-scope_text s h =
    rw (split_once_name s.collection (right_text s.right) (name_chars s.collection h), from_str)
      (rw (h, right_of-right_text s.right) refl)

abbrev Visible : ℕ → Type 0
Visible c = is_whitespace c ≡ false

name-Visible : (name : List ℕ) → all_name_chars name ≡ true → All Visible name
name-Visible [] h = tt
name-Visible (c ∷ cs) h = (ground (arith, h), name-Visible cs (ground (arith, h)))

right-Visible : (r : Right) → All Visible (right_text r)
right-Visible read = ground arith
right-Visible write = ground arith
right-Visible admin = ground arith

scope-Visible : (s : CollectionScope) → IsNamed s → All Visible (scope_text s)
unfolding scope_text
scope-Visible s h =
    All-append Visible s.collection _ (name-Visible s.collection (name_chars s.collection h))
      (refl, right-Visible s.right)

words_of-append :
    (w r : List ℕ) → All Visible w → words_of (w ++ r) ≡ (w ++ (words_of r).0, (words_of r).1)
unfolding words_of
words_of-append [] r h = refl
words_of-append (c ∷ cs) r (here, later) = rw here (rw (words_of-append cs r later) refl)

push_word_text :
    (s : CollectionScope) (words : List (List ℕ))
    → push_word (scope_text s) words ≡ scope_text s ∷ words
unfolding scope_text
push_word_text s words = pushed s.collection
  where
    pushed :
        (xs : List ℕ)
        → push_word (xs ++ (58 ∷ right_text s.right)) words
          ≡ (xs ++ (58 ∷ right_text s.right)) ∷ words
    pushed [] = refl
    pushed (x ∷ xs) = refl

words_of-Visible : (w : List ℕ) → All Visible w → words_of w ≡ (w, [])
unfolding words_of
words_of-Visible [] h = refl
words_of-Visible (c ∷ cs) (here, later) = rw here (rw (words_of-Visible cs later) refl)

split_whitespace-scopes_text :
    (s : CollectionScope) (l : List CollectionScope)
    → All IsNamed (s ∷ l)
    → split_whitespace (scopes_text (s ∷ l)) ≡ map scope_text (s ∷ l)
unfolding split_whitespace scopes_text words_of
split_whitespace-scopes_text s [] (here, _) =
    rw (words_of-Visible (scope_text s) (scope-Visible s here)) (push_word_text s [])
split_whitespace-scopes_text s (t ∷ ts) (here, later) =
    rw (words_of-append (scope_text s) (32 ∷ scopes_text (t ∷ ts)) (scope-Visible s here)) (
      rw append-nil
        (push_word_text s _ ∙ ap (λ l. scope_text s ∷ l) (split_whitespace-scopes_text t ts later)))

parse_all-map : (l : List CollectionScope) → All IsNamed l → parse_all (map scope_text l) ≡ ok l
unfolding parse_all
parse_all-map [] h = refl
parse_all-map (s ∷ ss) (here, later) = rw (from_str-scope_text s here, parse_all-map ss later) refl

any_repeated_checked :
    (l made : List CollectionScope)
    → new_scopes l ≡ ok made
    → (is_empty l ≡ false) × (any_repeated (sort_scopes l) ≡ false) × (sort_scopes l ≡ made)
unfolding new_scopes
any_repeated_checked l made h =
    let (there, h1) = refuse-passed (is_empty l) no_scope _ h in
    let (distinct, h2) = refuse-passed (any_repeated (sort_scopes l)) repeated_collection _ h1 in
    (there, distinct, ok_injective h2)

insert_scope_there :
    (s : CollectionScope) (l : List CollectionScope) → is_empty (insert_scope s l) ≡ false
insert_scope_there s [] = refl
insert_scope_there s (t ∷ ts) = ground arith

sort_scopes_there :
    (l : List CollectionScope) → is_empty l ≡ false → is_empty (sort_scopes l) ≡ false
sort_scopes_there [] h = cc
sort_scopes_there (s ∷ ss) h = insert_scope_there s (sort_scopes ss)

parse-made :
    (made : List CollectionScope)
    → is_empty made ≡ false
    → any_repeated made ≡ false
    → IsSorted made
    → All IsNamed made
    → parse (scopes_text made) ≡ ok made
unfolding parse new_scopes
parse-made [] there distinct sorted named = cc
parse-made (s ∷ ss) there distinct sorted named =
    rw (split_whitespace-scopes_text s ss named, parse_all-map (s ∷ ss) named)
      (rw (sort_scopes_sorted (s ∷ ss) sorted) (rw distinct refl))

-- The scopes of a key, made from any list of scopes with valid names, are read back from the text that
-- is stored for them.
pub parse-scopes_text :
    (l made : List CollectionScope)
    → All IsNamed l
    → new_scopes l ≡ ok made
    → parse (scopes_text made) ≡ ok made
parse-scopes_text l made named h =
    let (there, distinct, same) = any_repeated_checked l made h in
    subst (λ m. parse (scopes_text m) ≡ ok m) same
      (parse-made (sort_scopes l) (sort_scopes_there l there) distinct (sort_scopes-IsSorted l)
        (sort_scopes-All IsNamed l named))
