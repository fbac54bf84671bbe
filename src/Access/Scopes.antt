-- ===== src/Access/Scopes.antt =====
-- auth.rs: `Right`, `CollectionScope` and `Scopes`. A text is the list of its scalar values; a name that
-- is not ASCII is invalid by its bytes as by its scalar values, whatever its length.
use distr_hnsw.Common.{
  ℕ, Bool, true, false, not, ◌&&◌, ◌||◌, none, some, List, [], ◌∷◌, ◌++◌, length, leb, ltb, ◌==◌,
  bytes_eq, if◌then◌else◌, Result, ok, err, ◌>>=◌, ◌>>◌, refuse,
}
use distr_hnsw.Grant.Primitives.{within, is_whitespace}
use distr_hnsw.Grant.Verify.{split_once}

pub data Right : Type 0 where
  read write admin : Right

abbrev pub rank : Right → ℕ
rank read = 0
rank write = 1
rank admin = 2

-- `Right::as_str`
abbrev pub right_text : Right → List ℕ
right_text read = 114 ∷ 101 ∷ 97 ∷ 100 ∷ []
right_text write = 119 ∷ 114 ∷ 105 ∷ 116 ∷ 101 ∷ []
right_text admin = 97 ∷ 100 ∷ 109 ∷ 105 ∷ 110 ∷ []

pub record CollectionScope : Type 0 where
  pub collection : List ℕ
  pub right : Right

-- The messages, by what they say.
pub data ScopeError : Type 0 where
  no_colon invalid_name invalid_right no_scope repeated_collection : ScopeError

-- `Display`
unfoldable pub scope_text : CollectionScope → List ℕ
scope_text s = s.collection ++ (58 ∷ right_text s.right)

abbrev pub is_alphanumeric : ℕ → Bool
is_alphanumeric c = within 97 122 c || within 48 57 c

abbrev pub is_name_char : ℕ → Bool
is_name_char c = is_alphanumeric c || (c == 45) || (c == 95)

abbrev pub all_name_chars : List ℕ → Bool
all_name_chars [] = true
all_name_chars (c ∷ cs) = is_name_char c && all_name_chars cs

unfoldable pub valid_collection_name : List ℕ → Bool
valid_collection_name [] = false
valid_collection_name (c ∷ cs) =
    leb (length (c ∷ cs)) 63 && is_alphanumeric c && all_name_chars (c ∷ cs)

unfoldable pub right_of : List ℕ → Result ScopeError Right
right_of text =
    if bytes_eq text (right_text read)
    then ok read
    else if bytes_eq text (right_text write)
    then ok write
    else if bytes_eq text (right_text admin)
    then ok admin
    else err invalid_right

-- `CollectionScope::from_str`
unfoldable pub from_str : List ℕ → Result ScopeError CollectionScope
from_str text = elim (split_once 58 text) [
  | none ↦ err no_colon
  | some (collection, right) ↦
      if not (valid_collection_name collection)
      then err invalid_name
      else right_of right >>= λ r. ok (record { collection = collection; right = r })
]

-- `<` on texts, which is the one on their bytes
abbrev pub text_lt : List ℕ → List ℕ → Bool
text_lt [] [] = false
text_lt [] (b ∷ ys) = true
text_lt (a ∷ xs) [] = false
text_lt (a ∷ xs) (b ∷ ys) = ltb a b || ((a == b) && text_lt xs ys)

-- `sort_by` on the collections, which is stable
abbrev pub insert_scope : CollectionScope → List CollectionScope → List CollectionScope
insert_scope s [] = s ∷ []
insert_scope s (t ∷ ts) =
    let rest = insert_scope s ts in
    if text_lt t.collection s.collection then t ∷ rest else s ∷ t ∷ ts

abbrev pub sort_scopes : List CollectionScope → List CollectionScope
sort_scopes [] = []
sort_scopes (s ∷ ss) = insert_scope s (sort_scopes ss)

-- `windows(2)`
abbrev pub any_repeated : List CollectionScope → Bool
any_repeated [] = false
any_repeated (s ∷ []) = false
any_repeated (s ∷ t ∷ ts) = bytes_eq s.collection t.collection || any_repeated (t ∷ ts)

abbrev pub is_empty : List CollectionScope → Bool
is_empty [] = true
is_empty (s ∷ ss) = false

-- `Scopes::new`
unfoldable pub new_scopes : List CollectionScope → Result ScopeError (List CollectionScope)
new_scopes l = do
  refuse (is_empty l) no_scope
  refuse (any_repeated (sort_scopes l)) repeated_collection
  ok (sort_scopes l)

-- `split_whitespace`: `word` is the end of the word that is read.
abbrev pub push_word : List ℕ → List (List ℕ) → List (List ℕ)
push_word [] words = words
push_word (c ∷ cs) words = (c ∷ cs) ∷ words

-- The first word, up to a whitespace, and the words behind it.
unfoldable pub words_of : List ℕ → List ℕ × List (List ℕ)
words_of [] = ([], [])
words_of (c ∷ cs) =
    let (word, words) = words_of cs in
    if is_whitespace c then ([], push_word word words) else (c ∷ word, words)

unfoldable pub split_whitespace : List ℕ → List (List ℕ)
split_whitespace text = let (word, words) = words_of text in push_word word words

unfoldable pub parse_all : List (List ℕ) → Result ScopeError (List CollectionScope)
parse_all [] = ok []
parse_all (w ∷ ws) = from_str w >>= λ s. parse_all ws >>= λ ss. ok (s ∷ ss)

-- `Scopes::parse`
unfoldable pub parse : List ℕ → Result ScopeError (List CollectionScope)
parse text = parse_all (split_whitespace text) >>= λ l. new_scopes l

-- `Display`: the scopes joined by spaces
unfoldable pub scopes_text : List CollectionScope → List ℕ
scopes_text [] = []
scopes_text (s ∷ []) = scope_text s
scopes_text (s ∷ t ∷ ts) = scope_text s ++ (32 ∷ scopes_text (t ∷ ts))

-- `Scopes::allows`
unfoldable pub allows : List CollectionScope → List ℕ → Right → Bool
allows [] collection right = false
allows (s ∷ ss) collection right =
    (bytes_eq s.collection collection && leb (rank right) (rank s.right))
    || allows ss collection right
