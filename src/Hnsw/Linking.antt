-- ===== src/Hnsw/Linking.antt =====
-- hnsw.rs: `select_heuristic`, `link_back`, `greedy_closest`, `search_layer`, and the part of `insert`
-- that links the new slot. A heap is the list of its elements, the top first; the set of visited
-- slots is their list. The two loops have the number of slots as fuel: each round of the first moves
-- to a slot that is nearer, or as near with a smaller number, and each of the second takes a slot
-- that was pushed when it was first visited.
use distr_hnsw.Common.{
  ℕ, zero, suc, ◌+◌, ◌-◌, Bool, true, false, not, ◌&&◌, ◌||◌, Option, none, some, List, [], ◌∷◌,
  ◌++◌, length, ltb, leb, ◌==◌, if◌then◌else◌,
}
use distr_hnsw.Common.Distance.{Distance, lt_distance, eq_distance}
use distr_hnsw.Partition.Index.{Vector}
use distr_hnsw.Hnsw.Graph.{
  HnswParams, Far, far_lt, Links, row_of, neighbours, set_neighbours, capacity,
}

abbrev pub far_push : (Far → Far → Bool) → Far → List Far → List Far
far_push before x [] = x ∷ []
far_push before x (y ∷ ys) =
    let rest = far_push before x ys in if before x y then x ∷ y ∷ ys else y ∷ rest

abbrev pub sort_far : List Far → List Far
sort_far [] = []
sort_far (x ∷ xs) = far_push far_lt x (sort_far xs)

abbrev pub slots_of : List Far → List ℕ
slots_of [] = []
slots_of (x ∷ xs) = x.slot ∷ slots_of xs

abbrev pub contains : List ℕ → ℕ → Bool
contains [] slot = false
contains (x ∷ xs) slot = (x == slot) || contains xs slot

-- The state of the beam search: a min-heap of candidates and a max-heap of results.
pub record Beam : Type 0 where
  pub visited : List ℕ
  pub candidates : List Far
  pub results : List Far

-- `between` is the distance of two rows of the metric.
module _ (between : Vector → Vector → Distance) (params : HnswParams) (rows : List Vector) where
  abbrev pub between_slots : ℕ → ℕ → Distance
  between_slots a b = between (row_of rows a) (row_of rows b)

  abbrev pub closer_to : ℕ → Distance → List ℕ → Bool
  closer_to candidate d [] = false
  closer_to candidate d (s ∷ selected) =
      lt_distance (between_slots candidate s) d || closer_to candidate d selected

  -- The loop over the sorted candidates: what is selected and what is pruned.
  abbrev pub select_loop : ℕ → List Far → List ℕ → List ℕ → List ℕ × List ℕ
  select_loop m [] selected pruned = (selected, pruned)
  select_loop m (c ∷ cs) selected pruned =
      let kept = select_loop m cs (selected ++ (c.slot ∷ [])) pruned in
      let passed = select_loop m cs selected (pruned ++ (c.slot ∷ [])) in
      if leb m (length selected)
      then (selected, pruned)
      else if closer_to c.slot c.distance selected
      then passed
      else kept

  abbrev pub backfill : ℕ → List ℕ → List ℕ → List ℕ
  backfill m selected [] = selected
  backfill m selected (slot ∷ pruned) =
      let more = backfill m (selected ++ (slot ∷ [])) pruned in
      if leb m (length selected) then selected else more

  unfoldable pub select_heuristic : List Far → ℕ → List ℕ
  select_heuristic candidates m =
      let (selected, pruned) = select_loop m (sort_far candidates) [] [] in
      backfill m selected pruned

  abbrev pub measured : ℕ → List ℕ → List Far
  measured base [] = []
  measured base (s ∷ slots) =
      record { distance = between_slots base s; slot = s } ∷ measured base slots

  unfoldable pub link_back : Links → ℕ → ℕ → ℕ → Links
  link_back links neighbour slot level =
      let current = neighbours links neighbour level in
      if ltb (length current) (capacity params level)
      then set_neighbours links neighbour level (current ++ (slot ∷ []))
      else set_neighbours links neighbour level (
          select_heuristic
            (measured neighbour current
              ++ (record { distance = between_slots neighbour slot; slot = slot } ∷ []))
            (capacity params level))

  abbrev pub link_all_back : Links → List ℕ → ℕ → ℕ → Links
  link_all_back links [] slot level = links
  link_all_back links (neighbour ∷ selected) slot level =
      link_all_back (link_back links neighbour slot level) selected slot level

  -- One pass over the neighbours of a slot: the best distance, its slot, and whether it is a new one.
  abbrev pub closest_pass : (ℕ → Distance) → List ℕ → Distance → ℕ → Bool → Distance × (ℕ × Bool)
  closest_pass dist [] best current improved = (best, (current, improved))
  closest_pass dist (n ∷ ns) best current improved =
      let moved = closest_pass dist ns (dist n) n true in
      let stayed = closest_pass dist ns best current improved in
      if lt_distance (dist n) best || (eq_distance (dist n) best && ltb n current)
      then moved
      else stayed

  abbrev pub greedy_loop : ℕ → (ℕ → Distance) → Links → ℕ → Distance → ℕ → ℕ
  greedy_loop zero dist links level best current = current
  greedy_loop (suc fuel) dist links level best current =
      let (best', (current', improved)) =
        closest_pass dist (neighbours links current level) best current false in
      let more = greedy_loop fuel dist links level best' current' in
      if not improved then current' else more

  unfoldable pub greedy_closest : (ℕ → Distance) → Links → ℕ → ℕ → ℕ
  greedy_closest dist links current level =
      greedy_loop (length rows + 1) dist links level (dist current) current

  module _ (dist : ℕ → Distance) (links : Links) (ef level : ℕ) (accepts : ℕ → Bool) where
    abbrev pub enter : List ℕ → Beam → Beam
    enter [] b = b
    enter (entry ∷ entries) b =
        let far : Far = record { distance = dist entry; slot = entry } in
        enter entries (
          if contains b.visited entry then b else record {
            visited = entry ∷ b.visited;
            candidates = far_push far_lt far b.candidates;
            results =
                if accepts entry then far_push (λ x y. far_lt y x) far b.results else b.results;
          })

    -- A result is pushed, and the worst one is dropped when there are more than `ef`.
    abbrev pub push_result : Far → List Far → List Far
    push_result far results = elim (far_push (λ x y. far_lt y x) far results) [
      | [] ↦ []
      | worst ∷ rest ↦ if ltb ef (length (worst ∷ rest)) then rest else worst ∷ rest
    ]

    abbrev pub beats_worst : Far → List Far → Bool
    beats_worst far [] = false
    beats_worst far (worst ∷ rest) = far_lt far worst

    abbrev pub behind_worst : Far → List Far → Bool
    behind_worst far [] = false
    behind_worst far (worst ∷ rest) = far_lt worst far

    abbrev pub visit : ℕ → Beam → Beam
    visit n b =
        let far : Far = record { distance = dist n; slot = n } in
        if contains b.visited n
        then b
        else if ltb (length b.results) ef || beats_worst far b.results
        then record {
          visited = n ∷ b.visited;
          candidates = far_push far_lt far b.candidates;
          results = if accepts n then push_result far b.results else b.results;
        }
        else record { visited = n ∷ b.visited; candidates = b.candidates; results = b.results }

    abbrev pub visit_all : List ℕ → Beam → Beam
    visit_all [] b = b
    visit_all (n ∷ ns) b = visit_all ns (visit n b)

    abbrev pub expand : ℕ → List ℕ → List Far → List Far → List Far
    expand zero visited candidates results = results
    expand (suc fuel) visited [] results = results
    expand (suc fuel) visited (c ∷ cs) results =
        let b =
          visit_all (neighbours links c.slot level)
            (record { visited = visited; candidates = cs; results = results }) in
        let more = expand fuel b.visited b.candidates b.results in
        if leb ef (length results) && behind_worst c results then results else more

    unfoldable pub search_layer : List ℕ → List Far
    search_layer entries =
        let b = enter entries (record { visited = []; candidates = []; results = [] }) in
        expand (length rows + 1) b.visited b.candidates b.results

  module _ (slot level : ℕ) where
    -- Down to the level of the new slot: `above` levels are still above it.
    abbrev pub descend : ℕ → Links → ℕ → ℕ
    descend zero links entry = entry
    descend (suc above) links entry =
        descend above links (greedy_closest (between_slots slot) links entry (level + suc above))

    -- From the level below `levels` down to 0: search, select, link.
    abbrev pub connect : ℕ → List ℕ → Links → Links
    connect zero entries links = links
    connect (suc lc) entries links =
        let candidates =
          search_layer (between_slots slot) links params.ef_construction lc (λ s. true) entries in
        let selected = select_heuristic candidates (capacity params lc) in
        let own = set_neighbours links slot lc selected in
        connect lc (slots_of candidates) (link_all_back own selected slot lc)

    -- The links of `insert` for an entry point, if the graph has one.
    abbrev pub insert_from : Links → Option ℕ → Links
    insert_from links none = record links { entry = some slot; max_level = level }
    insert_from links (some entry) =
        let start = descend (links.max_level - level) links entry in
        let lowest = if ltb level links.max_level then level else links.max_level in
        let linked = connect (lowest + 1) (start ∷ []) links in
        if ltb links.max_level level
        then record linked { entry = some slot; max_level = level }
        else linked

    -- The links of `insert`, with room for the new slot made.
    unfoldable pub insert_links : Links → Links
    insert_links links = insert_from links links.entry
