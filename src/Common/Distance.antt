-- ===== src/Common/Distance.antt =====
-- An `f32` distance: its place among the values of `f32` that are numbers, or NaN. The two zeros have
-- one place.
use distr_hnsw.Common.{ℕ, Bool, false, ltb, ◌==◌}

pub data Distance : Type 0 where
  number : ℕ → Distance
  nan : Distance

-- `<`, which is false on NaN
abbrev pub lt_distance : Distance → Distance → Bool
lt_distance (number a) (number b) = ltb a b
lt_distance (number a) nan = false
lt_distance nan b = false

-- `==`, which is false on NaN
abbrev pub eq_distance : Distance → Distance → Bool
eq_distance (number a) (number b) = a == b
eq_distance (number a) nan = false
eq_distance nan b = false
