-- ===== src/Sparse/Fused.antt =====
-- The fusion of crates/surgedb-core/src/sparse/rrf.rs against the sums of the scores of the ranks.
use zapybase.Prelude.{ℕ, ◌+◌, ◌≡◌, refl, none, some, List, [], ◌∷◌, ◌++◌}
use zapybase.Collections.HashMap.{HashMap}
use zapybase.Float.{Float}
use zapybase.Storage.{InternalId}
use zapybase.Sparse.Fusion.{rank_score, add_ranks, reciprocal_rank_fusion}
use zapybase.Sparse.Sorted.{IsNumber, IsWeakOrder}
use zapybase.Sparse.Ranking.{
  IsRanking, total_from, add_scores, add_scores-append, sort_by_score-IsRanking,
}

module _ (f32 : Float) where
  -- the ids of a list of results with the scores of their ranks, from a rank on
  abbrev pub rank_scores : f32.Num → ℕ → List (InternalId × f32.Num) → List (InternalId × f32.Num)
  rank_scores k_constant rank [] = []
  rank_scores k_constant rank ((id, result) ∷ results) =
      (id, rank_score f32 k_constant rank) ∷ rank_scores k_constant (rank + 1) results

  add_ranks-rank_scores :
      (k_constant : f32.Num) (rank : ℕ) (results : List (InternalId × f32.Num))
      (m : HashMap InternalId f32.Num)
      → add_ranks f32 k_constant rank results m
        ≡ add_scores f32 (rank_scores k_constant rank results) m
  unfolding add_ranks add_scores
  add_ranks-rank_scores k_constant rank [] m = refl
  add_ranks-rank_scores k_constant rank ((id, result) ∷ results) m =
      add_ranks-rank_scores k_constant (rank + 1) results _

  -- For floats whose `>` is that of numbers, and two lists for which no sum of reciprocal ranks is a
  -- NaN, the fusion returns at most `limit` pairs of different ids in descending order; each id comes
  -- with the sum of 1 / (k + rank + 1) over its places in the first and then the second list, and an
  -- id of the lists that is left out has no greater sum than the `limit` results.
  pub reciprocal_rank_fusion-IsRanking :
      (law : IsWeakOrder f32) (results_a results_b : List (InternalId × f32.Num))
      (k_constant : f32.Num) (limit : ℕ)
      → ((id : InternalId) (sum : f32.Num)
          → total_from f32 none
              (rank_scores k_constant 0 results_a ++ rank_scores k_constant 0 results_b)
              id
            ≡ some sum
          → IsNumber f32 sum)
      → IsRanking f32
          (total_from f32 none
            (rank_scores k_constant 0 results_a ++ rank_scores k_constant 0 results_b))
          limit
          (reciprocal_rank_fusion f32 results_a results_b k_constant limit)
  unfolding reciprocal_rank_fusion
  reciprocal_rank_fusion-IsRanking law results_a results_b k_constant limit numbers =
      let as_a = rank_scores k_constant 0 results_a in
      let as_b = rank_scores k_constant 0 results_b in
      rw
        (
          add_ranks-rank_scores k_constant 0 results_a,
          add_ranks-rank_scores k_constant 0 results_b,
          ← add_scores-append f32 as_a as_b,
        )
        (sort_by_score-IsRanking f32 law (as_a ++ as_b) limit numbers)
