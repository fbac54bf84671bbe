-- ===== src/Partition/CaptureLaws.antt =====
-- What a capture holds: the live slots, each once, with its row and its record.
use distr_hnsw.Common.{
  ℕ, zero, suc, ◌+◌, ◌<◌, ◌≤◌, length, ◌≡◌, refl, sym, subst, ap, ◌∙◌, true, false, Option, none,
  some, List, [], ◌∷◌, map, get_elem?, All, Bool-cases, Option-cases, Result-cases, inl, inr, ok,
  ok_injective, arith,
}
use distr_hnsw.Common.ByteMap.{map_option}
use distr_hnsw.Partition.Index.{Vector}
use distr_hnsw.Partition.State.{SlotRecord}
use distr_hnsw.Partition.Compaction.{Captured, captured_row, capture, push_row, old_to_new}

abbrev pub old_slots_of : List Captured → List ℕ
old_slots_of cs = map (λ (c : Captured). c.old_slot) cs

pub get_elem?-map {ℓ κ} :
    {A : Type ℓ} {B : Type κ} (f : A → B) (xs : List A) (i : ℕ)
    → get_elem? (map f xs) i ≡ map_option f (get_elem? xs i)
get_elem?-map f [] i = refl
get_elem?-map f (x ∷ xs) zero = refl
get_elem?-map f (x ∷ xs) (suc i) = get_elem?-map f xs i

-- A slot below all the old ones has no place.
old_to_new_absent : (n s : ℕ) (os : List ℕ) → All (λ o. s < o) os → old_to_new n os s ≡ none
unfolding old_to_new
old_to_new_absent n s [] h = refl
old_to_new_absent n s (o ∷ os) (low, h) = ground (arith, old_to_new_absent (suc n) s os h)

old_to_new_first : (n s : ℕ) (os : List ℕ) → All (λ o. s < o) os → old_to_new n (s ∷ os) s ≡ some n
unfolding old_to_new
old_to_new_first n s os h = ground (arith, old_to_new_absent (suc n) s os h)

old_to_new_later :
    (n o s j : ℕ) (os : List ℕ)
    → old_to_new (suc n) os s ≡ some j
    → old_to_new n (o ∷ os) s ≡ some j
unfolding old_to_new
old_to_new_later n o s j os h = ground (arith, h)

module _ (dims : ℕ) (row : ℕ → Option Vector) where
  captured_row_ok :
      (i : ℕ) (r : SlotRecord) (c : Captured)
      → captured_row dims i r (row i) ≡ ok c
      → (row i ≡ some c.row) × (c.old_slot ≡ i) × (c.slot ≡ r)
  unfolding captured_row push_row
  captured_row_ok i r c h = elim (Option-cases (row i)) [
    | inl gone ↦ ground (arith, gone, h)
    | inr (v, here) ↦ ground (arith, here, h)
  ]

  -- The rest of the slots is captured as well; a live slot stands before it.
  capture_masked :
      (i : ℕ) (r : SlotRecord) (rs : List SlotRecord) (cs : List Captured)
      → r.tombstone ≡ true
      → capture dims row i (r ∷ rs) ≡ ok cs
      → capture dims row (suc i) rs ≡ ok cs
  unfolding capture
  capture_masked i r rs cs gone h = ground (arith, gone, h)

  capture_live :
      (i : ℕ) (r : SlotRecord) (rs : List SlotRecord) (cs : List Captured)
      → r.tombstone ≡ false
      → capture dims row i (r ∷ rs) ≡ ok cs
      → (c : Captured) × (tail : List Captured) × (cs ≡ c ∷ tail)
        × (captured_row dims i r (row i) ≡ ok c)
        × (capture dims row (suc i) rs ≡ ok tail)
  unfolding capture
  capture_live i r rs cs awake h = elim (Result-cases (captured_row dims i r (row i))) [
    | inr (e, bad) ↦ ground (arith, awake, bad, h)
    | inl (c, good) ↦ elim (Result-cases (capture dims row (suc i) rs)) [
      | inr (e, bad) ↦ ground (arith, awake, good, bad, h)
      | inl (tail, rest) ↦ (c, tail, ground (arith, awake, good, rest, h), good, rest)
    ]
  ]

  capture_above :
      (i : ℕ) (rs : List SlotRecord) (cs : List Captured)
      → capture dims row (suc i) rs ≡ ok cs
      → All (λ o. i < o) (old_slots_of cs)
  unfolding capture
  capture_above i rs cs h = above (suc i) rs cs h (omega arith)
    where
      above :
          (k : ℕ) (rs : List SlotRecord) (cs : List Captured)
          → capture dims row k rs ≡ ok cs
          → i < k
          → All (λ o. i < o) (old_slots_of cs)
      above k [] cs h low = subst (λ t. All (λ o. i < o) (old_slots_of t)) (ok_injective h) tt
      above k (r ∷ rs) cs h low = elim (Bool-cases r.tombstone) [
        | inl gone ↦ above (suc k) rs cs (capture_masked k r rs cs gone h) (omega arith)
        | inr awake ↦
            let (c, tail, same, first, rest) = capture_live k r rs cs awake h in
            let (_, at, _) = captured_row_ok k r c first in
            subst (λ t. All (λ o. i < o) (old_slots_of t)) (sym same)
              (omega (arith, at), above (suc k) rs tail rest (omega arith))
      ]

  -- No more is captured than there are slots.
  pub capture_fewer :
      (i : ℕ) (rs : List SlotRecord) (cs : List Captured)
      → capture dims row i rs ≡ ok cs
      → length cs ≤ length rs
  unfolding capture
  capture_fewer i [] cs h = omega (arith, ap length (ok_injective h))
  capture_fewer i (r ∷ rs) cs h = elim (Bool-cases r.tombstone) [
    | inl gone ↦ omega (arith, capture_fewer (suc i) rs cs (capture_masked i r rs cs gone h))
    | inr awake ↦
        let (c, tail, same, first, rest) = capture_live i r rs cs awake h in
        omega (arith, ap length same, capture_fewer (suc i) rs tail rest)
  ]

  -- Where a live slot `i + s` stands in the capture.
  abbrev pub Found : ℕ → ℕ → SlotRecord → List Captured → ℕ → Type 0
  Found n slot r cs j =
      (c : Captured) × (get_elem? cs j ≡ some c)
      × (c.old_slot ≡ slot)
      × (c.slot ≡ r)
      × (row slot ≡ some c.row)
      × (old_to_new n (old_slots_of cs) slot ≡ some (n + j))

  Found-first :
      (n i : ℕ) (r : SlotRecord) (rs : List SlotRecord) (c : Captured) (tail : List Captured)
      → captured_row dims i r (row i) ≡ ok c
      → capture dims row (suc i) rs ≡ ok tail
      → Found n i r (c ∷ tail) 0
  Found-first n i r rs c tail first rest =
      let (here, at, record_of) = captured_row_ok i r c first in
      (
        c,
        refl,
        at,
        record_of,
        here,
        ap (λ t. old_to_new n (t ∷ old_slots_of tail) i) at
            ∙ old_to_new_first n i (old_slots_of tail) (capture_above i rs tail rest)
            ∙ ap some (omega arith),
      )

  Found-later :
      (n slot j : ℕ) (r : SlotRecord) (c : Captured) (tail : List Captured)
      → Found (suc n) slot r tail j
      → Found n slot r (c ∷ tail) (suc j)
  Found-later n slot j r c tail (d, get, at, same, here, place) = (
    d,
    get,
    at,
    same,
    here,
    old_to_new_later n c.old_slot slot (n + suc j) (old_slots_of tail)
        (place ∙ ap some (omega arith)),
  )

  -- Every live slot is in the capture.
  pub capture_complete :
      (n i s : ℕ) (r : SlotRecord) (rs : List SlotRecord) (cs : List Captured)
      → capture dims row i rs ≡ ok cs
      → get_elem? rs s ≡ some r
      → r.tombstone ≡ false
      → (j : ℕ) × Found n (i + s) r cs j
  capture_complete n i s r [] cs h get awake = cc
  capture_complete n i zero r (q ∷ rs) cs h get awake =
      let same : q ≡ r = cc in
      let (c, tail, split, first, rest) =
        capture_live i q rs cs (ap (λ t. t.tombstone) same ∙ awake) h in
      (
        0,
        subst (λ t. Found n t r cs 0) (omega arith)
            (subst (λ t. Found n i t cs 0) same
              (subst (λ t. Found n i q t 0) (sym split) (Found-first n i q rs c tail first rest))),
      )
  capture_complete n i (suc s) r (q ∷ rs) cs h get awake = elim (Bool-cases q.tombstone) [
    | inl gone ↦
        let (j, found) =
          capture_complete n (suc i) s r rs cs (capture_masked i q rs cs gone h) get awake in
        (j, subst (λ t. Found n t r cs j) (omega arith) found)
    | inr live ↦
        let (c, tail, split, first, rest) = capture_live i q rs cs live h in
        let (j, found) = capture_complete (suc n) (suc i) s r rs tail rest get awake in
        (
          suc j,
          subst (λ t. Found n t r cs (suc j)) (omega arith)
              (subst (λ t. Found n (suc i + s) r t (suc j)) (sym split)
                (Found-later n (suc i + s) j r c tail found)),
        )
  ]

  -- All that is captured is a live slot.
  pub capture_sound :
      (n i j : ℕ) (c : Captured) (rs : List SlotRecord) (cs : List Captured)
      → capture dims row i rs ≡ ok cs
      → get_elem? cs j ≡ some c
      → (s : ℕ) × (get_elem? rs s ≡ some c.slot)
        × (c.slot.tombstone ≡ false)
        × Found n (i + s) c.slot cs j
  unfolding capture
  capture_sound n i j c [] cs h get =
      absurd (ground (arith, subst (λ t. get_elem? t j ≡ some c) (sym (ok_injective h)) get))
  capture_sound n i j c (q ∷ rs) cs h get = elim (Bool-cases q.tombstone) [
    | inl gone ↦
        let (s, at, awake, found) =
          capture_sound n (suc i) j c rs cs (capture_masked i q rs cs gone h) get in
        (suc s, at, awake, subst (λ t. Found n t c.slot cs j) (omega arith) found)
    | inr live ↦
        let (d, tail, split, first, rest) = capture_live i q rs cs live h in
        by_place d tail first rest live split
          (λ k at. capture_sound (suc n) (suc i) k c rs tail rest at) j
          (subst (λ t. get_elem? t j ≡ some c) split get)
  ]
    where
      Place : List Captured → ℕ → ℕ → List SlotRecord → ℕ → Type 0
      Place ds n i ps j =
          (s : ℕ) × (get_elem? ps s ≡ some c.slot)
          × (c.slot.tombstone ≡ false)
          × Found n (i + s) c.slot ds j

      by_place :
          (d : Captured) (tail : List Captured)
          → captured_row dims i q (row i) ≡ ok d
          → capture dims row (suc i) rs ≡ ok tail
          → q.tombstone ≡ false
          → cs ≡ d ∷ tail
          → ((k : ℕ) → get_elem? tail k ≡ some c → Place tail (suc n) (suc i) rs k)
          → (j : ℕ) → get_elem? (d ∷ tail) j ≡ some c
          → Place cs n i (q ∷ rs) j
      by_place d tail first rest live split deeper zero get =
          let same : d ≡ c = cc in
          let (_, _, of) = captured_row_ok i q d first in
          let slot : q ≡ c.slot = sym of ∙ ap (λ (t : Captured). t.slot) same in
          (
            0,
            ap some slot,
            ap (λ (t : SlotRecord). t.tombstone) (sym slot) ∙ live,
            subst (λ t. Found n t c.slot cs 0) (omega arith)
                (subst (λ t. Found n i t cs 0) slot
                  (subst (λ t. Found n i q t 0) (sym split)
                    (Found-first n i q rs d tail first rest))),
          )
      by_place d tail first rest live split deeper (suc j) get =
          let (s, at, awake, found) = deeper j get in
          (
            suc s,
            at,
            awake,
            subst (λ t. Found n t c.slot cs (suc j)) (omega arith)
                (subst (λ t. Found n (suc i + s) c.slot t (suc j)) (sym split)
                  (Found-later n (suc i + s) j c.slot d tail found)),
          )
