-- ===== src/Sparse/Fusion.antt =====
-- crates/surgedb-core/src/sparse/rrf.rs: reciprocal rank fusion.
use zapybase.Prelude.{ℕ, ◌+◌, List, [], ◌∷◌, take}
use zapybase.Collections.HashMap
use zapybase.Collections.HashMap.{HashMap}
use zapybase.Float.{Float}
use zapybase.Storage.{InternalId}
use zapybase.Sparse.Scores.{add_score, sort_by_score}

module _ (f32 : Float) where
  -- `1.0 / (k_constant + (rank as f32) + 1.0)`
  unfoldable pub rank_score : f32.Num → ℕ → f32.Num
  rank_score k_constant rank =
      f32.div (f32.from_nat 1) (f32.add (f32.add k_constant (f32.from_nat rank)) (f32.from_nat 1))

  -- the loop over one list, from a rank on
  unfoldable pub add_ranks :
      f32.Num
      → ℕ
      → List (InternalId × f32.Num)
      → HashMap InternalId f32.Num
      → HashMap InternalId f32.Num
  add_ranks k_constant rank [] scores = scores
  add_ranks k_constant rank ((id, result) ∷ results) scores =
      add_ranks k_constant (rank + 1) results (add_score f32 scores id (rank_score k_constant rank))

  unfoldable pub reciprocal_rank_fusion :
      List (InternalId × f32.Num)
      → List (InternalId × f32.Num)
      → f32.Num
      → ℕ
      → List (InternalId × f32.Num)
  reciprocal_rank_fusion results_a results_b k_constant limit = take limit (
      sort_by_score f32
        (add_ranks k_constant 0 results_b (add_ranks k_constant 0 results_a HashMap.new)).entries)
