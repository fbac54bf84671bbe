-- ===== src/Hnsw/Instance.antt =====
-- `Hnsw` fills the interface that the partition uses.
use distr_hnsw.Common.{
  ℕ, ◌+◌, ◌*◌, ◌/◌, ◌≤◌, ◌≡◌, refl, sym, ap, subst, ◌∙◌, false, List, [], ◌∷◌, ◌++◌, length,
  length-append, get_elem?, Result, ok, err, ok_injective, arith,
}
use distr_hnsw.Partition.Index.{Vector, VectorError, VectorIndex}
use distr_hnsw.Hnsw.Graph.{
  Metric, HnswParams, Kernel, Links, Hnsw, new_hnsw, get_bit, is_tombstoned, tombstone, stored_row,
}
use distr_hnsw.Hnsw.Index.{grown, inserted, insert_vector, build_parallel}
use distr_hnsw.Hnsw.Laws.{
  IsSound, get_bit-grown, get_bit-copies, length-levels_from, row-last, row-before, insert_ok,
  insert_accepted, inserted-IsSound, tombstone-IsSound, build-IsSound, new_hnsw-IsSound,
  tombstone_kept, bit-tombstone,
}

pub new_fields :
    (dims : ℕ) (metric : Metric) (params : HnswParams)
    → length (new_hnsw dims metric params).levels ≡ 0
unfolding new_hnsw
new_fields dims metric params = refl

inserted_fields :
    (k : Kernel) (h : Hnsw) (v : Vector)
    → ((inserted k h v).vectors ≡ h.vectors ++ (stored_row k h.metric v ∷ []))
      × (length (inserted k h v).levels ≡ length h.levels + 1)
      × ((inserted k h v).tombstones ≡ grown h.tombstones (length h.levels + 1))
unfolding inserted
inserted_fields k h v = (refl, length-append h.levels (_ ∷ []), refl)

pub build_fields :
    (k : Kernel) (linked : List Vector → Links) (dims : ℕ) (metric : Metric) (params : HnswParams)
    (rows : List Vector)
    → (length (build_parallel k linked dims metric params rows).levels ≡ length rows)
      × ((build_parallel k linked dims metric params rows).vectors ≡ rows)
      × ((i : ℕ) → is_tombstoned (build_parallel k linked dims metric params rows) i ≡ false)
unfolding build_parallel new_hnsw
build_fields k linked dims metric params [] = (refl, refl, λ i. refl)
build_fields k linked dims metric params (v ∷ rows) = (
  length-levels_from k params 0 (length (v ∷ rows)),
  refl,
  λ i. get_bit-copies ((length (v ∷ rows) + 63) / 64 * 64) i,
)

module _ (k : Kernel) (linked : List Vector → Links) (dims : ℕ) (metric : Metric)
    (params : HnswParams) where
  abbrev pub Graph : Type 0
  Graph = (h : Hnsw) × IsSound dims metric h

  -- The outcome of an insertion with the proof that the index is sound.
  abbrev pub with_sound :
      (r : Result VectorError (Hnsw × ℕ))
      → ((h : Hnsw) (s : ℕ) → r ≡ ok (h, s) → IsSound dims metric h)
      → Result VectorError (Graph × ℕ)
  with_sound (ok (h, s)) sound = ok ((h, sound h s refl), s)
  with_sound (err e) sound = err e

  pub insert-IsSound :
      (h : Hnsw) (v : Vector)
      → IsSound dims metric h
      → (h' : Hnsw) (s : ℕ) → insert_vector k h v ≡ ok (h', s)
      → IsSound dims metric h'
  insert-IsSound h v i h' s e =
      subst (IsSound dims metric) (insert_ok k h h' v s e).3
        (inserted-IsSound k linked dims metric params h v i)

  abbrev pub insert_graph : Graph → Vector → Result VectorError (Graph × ℕ)
  insert_graph g v = with_sound (insert_vector k g.0 v) (insert-IsSound g.0 v g.1)

  with_sound_ok :
      (r : Result VectorError (Hnsw × ℕ))
      (sound : (h : Hnsw) (s : ℕ) → r ≡ ok (h, s) → IsSound dims metric h) (g : Graph) (s : ℕ)
      → with_sound r sound ≡ ok (g, s)
      → r ≡ ok (g.0, s)
  with_sound_ok (ok (h, t)) sound g s e = ap (λ (p : Graph × ℕ). ok ((p.0).0, p.1)) (ok_injective e)
  with_sound_ok (err x) sound g s e = cc

  with_sound_accepts :
      (r : Result VectorError (Hnsw × ℕ))
      (sound : (h : Hnsw) (s : ℕ) → r ≡ ok (h, s) → IsSound dims metric h) (h : Hnsw) (s : ℕ)
      → r ≡ ok (h, s)
      → (g : Graph) × (t : ℕ) × (with_sound r sound ≡ ok (g, t))
  with_sound_accepts (ok (h, t)) sound h' s e = ((h, sound h t refl), t, refl)
  with_sound_accepts (err x) sound h' s e = absurd cc

  -- The rows, slots and masks behind an accepted insertion.
  pub record Grows (g g' : Graph) (v : Vector) (s : ℕ) : Type 0 where
    pub slot : s ≡ length g.0.levels
    pub rows : g'.0.vectors ≡ g.0.vectors ++ (stored_row k metric v ∷ [])
    pub longer : length g'.0.levels ≡ length g.0.levels + 1
    pub masks : (i : ℕ) → is_tombstoned g'.0 i ≡ is_tombstoned g.0 i

  -- An index that accepts a vector gives it the next slot, keeps the rows that it has and stores the
  -- vector behind them, and changes no mask, however it links the slot.
  pub insert_graph_ok :
      (g g' : Graph) (v : Vector) (s : ℕ) → insert_graph g v ≡ ok (g', s) → Grows g g' v s
  insert_graph_ok g g' v s e =
      let (size, finite, room, same, at) =
        insert_ok k g.0 g'.0 v s
          (with_sound_ok (insert_vector k g.0 v) (insert-IsSound g.0 v g.1) g' s e) in
      let (rows, longer, masks) = inserted_fields k g.0 v in
      record {
        slot = sym at ∙ g.1.rows_levels;
        rows =
            ap (λ t. t.vectors) (sym same)
            ∙ rows
            ∙ ap (λ m. g.0.vectors ++ (stored_row k m v ∷ [])) g.1.same_metric;
        longer = ap (λ t. length t.levels) (sym same) ∙ longer;
        masks = λ i.
            ap (λ t. get_bit t.tombstones i) (sym same)
            ∙ ap (λ t. get_bit t i) masks
            ∙ get_bit-grown g.0.tombstones (length g.0.levels + 1) i;
      }

  pub insert_graph-accepts :
      (g g' h : Graph) (v : Vector) (s : ℕ)
      → insert_graph g v ≡ ok (g', s)
      → length h.0.levels ≤ length g.0.levels
      → (h' : Graph) × (t : ℕ) × (insert_graph h v ≡ ok (h', t))
  insert_graph-accepts g g' h v s e fewer =
      let (size, finite, room, same, at) =
        insert_ok k g.0 g'.0 v s
          (with_sound_ok (insert_vector k g.0 v) (insert-IsSound g.0 v g.1) g' s e) in
      with_sound_accepts (insert_vector k h.0 v) (insert-IsSound h.0 v h.1) (inserted k h.0 v)
        (length h.0.vectors)
        (insert_accepted k h.0 v (size ∙ g.1.same_dims ∙ sym h.1.same_dims) finite
          (omega (arith, room, fewer, g.1.rows_levels, h.1.rows_levels)))

  -- `Hnsw` of one collection, whatever links its parallel builds leave.
  abbrev pub hnsw_index : VectorIndex
  hnsw_index = record {
    Graph = Graph;
    new = (new_hnsw dims metric params, new_hnsw-IsSound k linked dims metric params);
    len = λ g. length g.0.levels;
    row = λ g i. get_elem? g.0.vectors i;
    is_tombstoned = λ g i. is_tombstoned g.0 i;
    insert = insert_graph;
    tombstone = λ g s. (tombstone g.0 s, tombstone-IsSound k linked dims metric params g.0 s g.1);
    build = λ rows. (
      build_parallel k linked dims metric params rows,
      build-IsSound k linked dims metric params rows,
    );
    stored = stored_row k metric;
    len-new = new_fields dims metric params;
    insert-slot = λ g g' v s e. (insert_graph_ok g g' v s e).slot;
    insert-accepts = insert_graph-accepts;
    len-insert = λ g g' v s e. (insert_graph_ok g g' v s e).longer;
    row-insert_new = λ g g' v s e.
        let grows = insert_graph_ok g g' v s e in
        ap (λ t. get_elem? t s) grows.rows
        ∙ ap (get_elem? (g.0.vectors ++ (stored_row k metric v ∷ [])))
            (grows.slot ∙ sym g.1.rows_levels)
        ∙ row-last g.0.vectors (stored_row k metric v);
    row-insert_old = λ g g' v s i e low.
        ap (λ t. get_elem? t i) (insert_graph_ok g g' v s e).rows
        ∙ row-before g.0.vectors (stored_row k metric v) i (omega (arith, low, g.1.rows_levels));
    tombstoned-insert_new = λ g g' v s e.
        let grows = insert_graph_ok g g' v s e in
        grows.masks s ∙ g.1.clear s (omega (arith, grows.slot));
    tombstoned-insert_old = λ g g' v s i e low. (insert_graph_ok g g' v s e).masks i;
    len-tombstone = λ g s low. ap length (tombstone_kept k linked dims metric params g.0 s).1;
    row-tombstone =
        λ g s i low. ap (λ t. get_elem? t i) (tombstone_kept k linked dims metric params g.0 s).0;
    tombstoned-tombstone = λ g s i low. bit-tombstone k linked dims metric params g.0 s i g.1 low;
    len-build = λ rows. (build_fields k linked dims metric params rows).0;
    row-build = λ rows i. ap (λ t. get_elem? t i) (build_fields k linked dims metric params rows).1;
    tombstoned-build = λ rows i. (build_fields k linked dims metric params rows).2 i;
  }
