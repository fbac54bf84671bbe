-- ===== src/Hnsw/Sample.antt =====
-- A small index, for the runs: the distance of all rows is the same, and every level is 0.
use distr_hnsw.Common.{ℕ, List, [], ok, err, none, Result}
use distr_hnsw.Common.Distance.{number}
use distr_hnsw.Partition.Index.{Vector, VectorError, VectorIndex}
use distr_hnsw.Hnsw.Graph.{l2, HnswParams, Kernel, Links}
use distr_hnsw.Hnsw.Instance.{hnsw_index}

abbrev pub sample_kernel : Kernel
sample_kernel = record { distance = λ metric a b. number 0; normalize = λ v. v; draw = λ m bits. 0 }

abbrev pub sample_params : HnswParams
sample_params = record { m = 16; m0 = 32; ef_construction = 200; seed = 0 }

abbrev pub no_links : List Vector → Links
no_links rows = record { level0 = []; upper = []; entry = none; max_level = 0 }

abbrev pub sample_index : VectorIndex
sample_index = hnsw_index sample_kernel no_links 1 l2 sample_params

-- The index behind an insertion that succeeds.
abbrev pub index_of :
    sample_index.Graph → Result VectorError (sample_index.Graph × ℕ) → sample_index.Graph
index_of g (ok (h, s)) = h
index_of g (err e) = g

abbrev pub with_row : sample_index.Graph → Vector → sample_index.Graph
with_row g v = index_of g (sample_index.insert g v)
