-- ===== src/Hnsw/Bounds.antt =====
-- No list of neighbours grows past its capacity.
use distr_hnsw.Common.{
  ℕ, zero, suc, ◌+◌, ◌-◌, ◌≤◌, ◌≡◌, subst, true, Option, none, some, List, [], ◌∷◌, ◌++◌, length,
  length-append, ltb, leb, All, if◌then◌else◌, ok, inl, inr, Bool-cases, arith,
}
use distr_hnsw.Partition.Index.{Vector}
use distr_hnsw.Common.Distance.{Distance}
use distr_hnsw.Hnsw.Graph.{
  HnswParams, Kernel, Far, Links, Hnsw, level_for, stored_row, list_at, set_at, neighbours,
  set_neighbours, capacity,
}
use distr_hnsw.Hnsw.Linking.{
  closer_to, select_loop, backfill, sort_far, select_heuristic, between_slots, link_back,
  link_all_back, search_layer, slots_of, descend, connect, insert_from, insert_links,
}
use distr_hnsw.Hnsw.Index.{copies, widened, inserted, insert_vector}
use distr_hnsw.Hnsw.Laws.{insert_ok}

abbrev pub ShortLists : ℕ → List (List ℕ) → Type 0
ShortLists n = All (λ list. length list ≤ n)

-- At most `m0` neighbours at level 0, and at most `m` at each level above.
abbrev pub Within : HnswParams → Links → Type 0
Within params links =
    ShortLists params.m0 links.level0 × All (λ lists. ShortLists params.m lists) links.upper

All-set_at {ℓ} :
    {A : Type ℓ} (P : A → Type 0) (xs : List A) (i : ℕ) (y : A)
    → P y
    → All P xs
    → All P (set_at xs i y)
All-set_at P [] i y p all = tt
All-set_at P (x ∷ xs) zero y p (here, all) = (p, all)
All-set_at P (x ∷ xs) (suc i) y p (here, all) = (here, All-set_at P xs i y p all)

All-snoc {ℓ} :
    {A : Type ℓ} (P : A → Type 0) (xs : List A) (y : A) → P y → All P xs → All P (xs ++ (y ∷ []))
All-snoc P [] y p all = (p, tt)
All-snoc P (x ∷ xs) y p (here, all) = (here, All-snoc P xs y p all)

ShortLists-copies : (n level : ℕ) → ShortLists n (copies level [])
ShortLists-copies n zero = tt
ShortLists-copies n (suc level) = (omega arith, ShortLists-copies n level)

ShortLists-list_at :
    (n : ℕ) (xss : List (List (List ℕ))) (i : ℕ)
    → All (λ lists. ShortLists n lists) xss
    → ShortLists n (list_at xss i)
ShortLists-list_at n [] i all = tt
ShortLists-list_at n (xs ∷ xss) zero (here, all) = here
ShortLists-list_at n (xs ∷ xss) (suc i) (here, all) = ShortLists-list_at n xss i all

set_neighbours-Within :
    (params : HnswParams) (links : Links) (slot level : ℕ) (list : List ℕ)
    → length list ≤ capacity params level
    → Within params links
    → Within params (set_neighbours links slot level list)
unfolding set_neighbours
set_neighbours-Within params links slot zero list short (low, high) =
    (All-set_at (λ l. length l ≤ params.m0) links.level0 slot list short low, high)
set_neighbours-Within params links slot (suc index) list short (low, high) = (
  low,
  All-set_at (λ lists. ShortLists params.m lists) links.upper slot
      (set_at (list_at links.upper slot) index list)
      (All-set_at (λ l. length l ≤ params.m) (list_at links.upper slot) index list short
        (ShortLists-list_at params.m links.upper slot high))
      high,
)

module _ (between : Vector → Vector → Distance) (params : HnswParams) (rows : List Vector) where
  length-select_loop :
      (m : ℕ) (cs : List Far) (selected pruned : List ℕ)
      → length selected ≤ m
      → length (select_loop between params rows m cs selected pruned).0 ≤ m
  length-select_loop m [] selected pruned h = h
  length-select_loop m (c ∷ cs) selected pruned h = elim (Bool-cases (leb m (length selected))) [
    | inl full ↦ rw full h
    | inr room ↦ elim (Bool-cases (closer_to between params rows c.slot c.distance selected)) [
      | inl near ↦ rw (room, near) (length-select_loop m cs selected (pruned ++ (c.slot ∷ [])) h)
      | inr far ↦
          rw (room, far)
            (length-select_loop m cs (selected ++ (c.slot ∷ [])) pruned
              (ground (arith, room, length-append selected (c.slot ∷ []))))
    ]
  ]

  length-backfill :
      (m : ℕ) (selected pruned : List ℕ)
      → length selected ≤ m
      → length (backfill between params rows m selected pruned) ≤ m
  length-backfill m selected [] h = h
  length-backfill m selected (slot ∷ pruned) h = elim (Bool-cases (leb m (length selected))) [
    | inl full ↦ rw full h
    | inr room ↦ rw room (
        length-backfill m (selected ++ (slot ∷ [])) pruned
          (ground (arith, room, length-append selected (slot ∷ []))))
  ]

  length-select_heuristic :
      (candidates : List Far) (m : ℕ)
      → length (select_heuristic between params rows candidates m) ≤ m
  unfolding select_heuristic
  length-select_heuristic candidates m =
      let (selected, pruned) = select_loop between params rows m (sort_far candidates) [] [] in
      length-backfill m selected pruned
        (length-select_loop m (sort_far candidates) [] [] (omega arith))

  link_back-Within :
      (links : Links) (neighbour slot level : ℕ)
      → Within params links
      → Within params (link_back between params rows links neighbour slot level)
  unfolding link_back
  link_back-Within links neighbour slot level w =
      let current = neighbours links neighbour level in
      elim (Bool-cases (ltb (length current) (capacity params level))) [
        | inl room ↦ rw room (
            set_neighbours-Within params links neighbour level (current ++ (slot ∷ []))
              (ground (arith, room, length-append current (slot ∷ []))) w)
        | inr full ↦ rw full (
            set_neighbours-Within params links neighbour level _
              (length-select_heuristic _ (capacity params level)) w)
      ]

  link_all_back-Within :
      (links : Links) (selected : List ℕ) (slot level : ℕ)
      → Within params links
      → Within params (link_all_back between params rows links selected slot level)
  link_all_back-Within links [] slot level w = w
  link_all_back-Within links (n ∷ selected) slot level w =
      link_all_back-Within (link_back between params rows links n slot level) selected slot level
        (link_back-Within links n slot level w)

  connect-Within :
      (slot level levels : ℕ) (entries : List ℕ) (links : Links)
      → Within params links
      → Within params (connect between params rows slot level levels entries links)
  connect-Within slot level zero entries links w = w
  connect-Within slot level (suc lc) entries links w =
      let candidates =
        search_layer between params rows (between_slots between params rows slot) links
          params.ef_construction lc (λ s. true) entries in
      let selected = select_heuristic between params rows candidates (capacity params lc) in
      let own = set_neighbours links slot lc selected in
      connect-Within slot level lc (slots_of candidates)
        (link_all_back between params rows own selected slot lc)
        (link_all_back-Within own selected slot lc (
          set_neighbours-Within params links slot lc selected
            (length-select_heuristic candidates (capacity params lc)) w))

  insert_from-Within :
      (slot level : ℕ) (links : Links) (entry : Option ℕ)
      → Within params links
      → Within params (insert_from between params rows slot level links entry)
  insert_from-Within slot level links none w = w
  insert_from-Within slot level links (some entry) w =
      let start = descend between params rows slot level (links.max_level - level) links entry in
      let lowest = if ltb level links.max_level then level else links.max_level in
      let linked = connect-Within slot level (lowest + 1) (start ∷ []) links w in
      elim (Bool-cases (ltb links.max_level level)) [
        | inl higher ↦ rw higher linked
        | inr lower ↦ rw lower linked
      ]

  insert_links-Within :
      (slot level : ℕ) (links : Links)
      → Within params links
      → Within params (insert_links between params rows slot level links)
  unfolding insert_links
  insert_links-Within slot level links w = insert_from-Within slot level links links.entry w

inserted-Within :
    (k : Kernel) (h : Hnsw) (v : Vector)
    → Within h.params h.links
    → Within (inserted k h v).params (inserted k h v).links
unfolding inserted
inserted-Within k h v (low, high) =
    let slot = length h.vectors in
    let level = level_for k h.params slot in
    insert_links-Within (k.distance h.metric) h.params (h.vectors ++ (stored_row k h.metric v ∷ []))
      slot level (widened h.links level)
      (
        All-snoc (λ l. length l ≤ h.params.m0) h.links.level0 [] (omega arith) low,
        All-snoc (λ lists. ShortLists h.params.m lists) h.links.upper (copies level [])
            (ShortLists-copies h.params.m level) high,
      )

-- An insertion keeps every list of neighbours within its capacity, `m0` at level 0 and `m` above, for
-- the new slot and for all that are linked to it.
pub insert_vector-Within :
    (k : Kernel) (h h' : Hnsw) (v : Vector) (s : ℕ)
    → insert_vector k h v ≡ ok (h', s)
    → Within h.params h.links
    → Within h'.params h'.links
insert_vector-Within k h h' v s e w =
    subst (λ t. Within t.params t.links) (insert_ok k h h' v s e).3 (inserted-Within k h v w)
