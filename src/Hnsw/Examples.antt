-- ===== src/Hnsw/Examples.antt =====
-- Runs of the index on small inputs.
use distr_hnsw.Common.{◌≡◌, refl, false, [], ◌∷◌, ok, some, arith}
use distr_hnsw.Hnsw.Graph.{l2, Hnsw, level_for, neighbours, set_neighbours}
use distr_hnsw.Hnsw.Linking.{
  insert_links, search_layer, select_heuristic, link_back, greedy_closest,
}
use distr_hnsw.Hnsw.Index.{copies, insert_vector, inserted}
use distr_hnsw.Hnsw.Bounds.{Within, insert_vector-Within}
use distr_hnsw.Hnsw.Sample.{sample_kernel, sample_params}

-- An index with two rows, and a third one inserted.
abbrev two_rows : Hnsw
two_rows = record {
  params = sample_params;
  metric = l2;
  dims = 1;
  vectors = (7 ∷ []) ∷ (8 ∷ []) ∷ [];
  levels = 0 ∷ 0 ∷ [];
  links = record {
    level0 = (1 ∷ []) ∷ (0 ∷ []) ∷ [];
    upper = [] ∷ [] ∷ [];
    entry = some 0;
    max_level = 0;
  };
  tombstones = copies 64 false;
  tombstone_count = 0;
}

two_rows-Within : Within two_rows.params two_rows.links
two_rows-Within = ((omega arith, (omega arith, tt)), (tt, (tt, tt)))

inserts_third :
    insert_vector sample_kernel two_rows (9 ∷ []) ≡ ok (inserted sample_kernel two_rows (9 ∷ []), 2)
unfolding insert_vector
inserts_third = refl

links_third :
    (inserted sample_kernel two_rows (9 ∷ [])).links.level0
    ≡ (1 ∷ 2 ∷ []) ∷ (0 ∷ 2 ∷ []) ∷ (0 ∷ 1 ∷ []) ∷ []
unfolding inserted insert_links search_layer select_heuristic link_back greedy_closest neighbours
    set_neighbours level_for
links_third = refl

insert_vector-Within_example :
    Within
      (inserted sample_kernel two_rows (9 ∷ [])).params
      (inserted sample_kernel two_rows (9 ∷ [])).links
insert_vector-Within_example =
    insert_vector-Within sample_kernel two_rows (inserted sample_kernel two_rows (9 ∷ [])) (9 ∷ [])
      2 inserts_third two_rows-Within
