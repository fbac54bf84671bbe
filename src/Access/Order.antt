-- ===== src/Access/Order.antt =====
-- Sorted scopes.
use distr_hnsw.Common.{
  ℕ, ◌≡◌, refl, ap, ◌∙◌, true, false, List, [], ◌∷◌, All, Bool-cases, inl, inr, arith,
}
use distr_hnsw.Access.Scopes.{CollectionScope, text_lt, insert_scope, sort_scopes}

-- No scope stands before a smaller one.
abbrev pub IsSorted : List CollectionScope → Type 0
IsSorted [] = Unit
IsSorted (s ∷ []) = Unit
IsSorted (s ∷ t ∷ ts) = (text_lt t.collection s.collection ≡ false) × IsSorted (t ∷ ts)

text_lt_asymm : (a b : List ℕ) → text_lt a b ≡ true → text_lt b a ≡ false
text_lt_asymm [] [] h = refl
text_lt_asymm [] (b ∷ ys) h = refl
text_lt_asymm (a ∷ xs) [] h = cc
text_lt_asymm (a ∷ xs) (b ∷ ys) h = ground (arith, text_lt_asymm xs ys, h)

IsSorted-under :
    (s u : CollectionScope) (us : List CollectionScope)
    → text_lt u.collection s.collection ≡ true
    → IsSorted (insert_scope s (u ∷ us))
    → IsSorted (u ∷ insert_scope s us)
IsSorted-under s u us under h = rw under at h

insert_scope-IsSorted :
    (s : CollectionScope) (l : List CollectionScope) → IsSorted l → IsSorted (insert_scope s l)
insert_scope-IsSorted s [] h = tt
insert_scope-IsSorted s (t ∷ []) h = elim (Bool-cases (text_lt t.collection s.collection)) [
  | inl below ↦ rw below (text_lt_asymm t.collection s.collection below, tt)
  | inr above ↦ rw above (above, tt)
]
insert_scope-IsSorted s (t ∷ u ∷ us) (here, later) =
    elim (Bool-cases (text_lt t.collection s.collection)) [
      | inr above ↦ rw above (above, (here, later))
      | inl below ↦ elim (Bool-cases (text_lt u.collection s.collection)) [
        | inl under ↦
            rw (below, under)
              (here, IsSorted-under s u us under (insert_scope-IsSorted s (u ∷ us) later))
        | inr over ↦ rw (below, over) (text_lt_asymm t.collection s.collection below, (over, later))
      ]
    ]

pub sort_scopes-IsSorted : (l : List CollectionScope) → IsSorted (sort_scopes l)
sort_scopes-IsSorted [] = tt
sort_scopes-IsSorted (s ∷ ss) = insert_scope-IsSorted s (sort_scopes ss) (sort_scopes-IsSorted ss)

pub sort_scopes_sorted : (l : List CollectionScope) → IsSorted l → sort_scopes l ≡ l
sort_scopes_sorted [] h = refl
sort_scopes_sorted (s ∷ []) h = refl
sort_scopes_sorted (s ∷ t ∷ ts) (here, later) =
    ap (insert_scope s) (sort_scopes_sorted (t ∷ ts) later) ∙ rw here refl

pub insert_scope-All :
    (P : CollectionScope → Type 0) (s : CollectionScope) (l : List CollectionScope)
    → P s
    → All P l
    → All P (insert_scope s l)
insert_scope-All P s [] here h = (here, tt)
insert_scope-All P s (t ∷ ts) here (first, later) =
    elim (Bool-cases (text_lt t.collection s.collection)) [
      | inl below ↦ rw below (first, insert_scope-All P s ts here later)
      | inr above ↦ rw above (here, (first, later))
    ]

pub sort_scopes-All :
    (P : CollectionScope → Type 0) (l : List CollectionScope) → All P l → All P (sort_scopes l)
sort_scopes-All P [] h = tt
sort_scopes-All P (s ∷ ss) (here, later) =
    insert_scope-All P s (sort_scopes ss) here (sort_scopes-All P ss later)
