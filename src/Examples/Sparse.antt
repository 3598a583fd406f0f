-- ===== src/Examples/Sparse.antt =====
-- Sparse vectors with natural numbers as values: documents that are indexed, searched and fused.
use zapybase.Prelude.{ℕ, ◌*◌, ◌/◌, ◌≡◌, refl, none, some, List, [], ◌∷◌, ◌++◌, arith}
use zapybase.Collections.HashMap
use zapybase.Float.{Float}
use zapybase.Examples.{env}
use zapybase.Storage.{InternalId}
use zapybase.Sparse.{
  SparseVector, InvertedIndex, new_vector, new, insert, remove, search, dot, position, insert_pairs,
  add_tokens, add_list, dot_loop, sort_by_key, insert_by_key, unzip,
}
use zapybase.Sparse.Fusion.{reciprocal_rank_fusion, add_ranks, rank_score}
use zapybase.Sparse.Scores.{add_score, sort_by_score, insert_by_score}
use zapybase.Sparse.Sorted.{IsNumber, IsWeakOrder}
use zapybase.Sparse.Ranking.{IsRanking, total_from}
use zapybase.Sparse.Search.{token_products, search-IsRanking}
use zapybase.Sparse.Removed.{posting_list, posted, remove-insert}
use zapybase.Sparse.Fused.{rank_scores, reciprocal_rank_fusion-IsRanking}

pub nat-IsNumber : (x : ℕ) → IsNumber env.f32 x
nat-IsNumber x = grind arith

pub env-IsWeakOrder : IsWeakOrder env.f32
env-IsWeakOrder = record {
  asymmetric = λ x y h. ground arith;
  between = λ x y z n h k. ground arith;
}

abbrev one_two : SparseVector env.f32
one_two = record { indices = 1 ∷ 2 ∷ []; values = 4 ∷ 5 ∷ [] }

abbrev two_three : SparseVector env.f32
two_three = record { indices = 2 ∷ 3 ∷ []; values = 7 ∷ 1 ∷ [] }

abbrev index : InvertedIndex env.f32
index = insert env.f32 1 two_three (insert env.f32 0 one_two (new env.f32))

search-IsRanking_example :
    IsRanking env.f32
      (total_from env.f32 none (token_products env.f32 index (1 ∷ 2 ∷ []) (4 ∷ 5 ∷ [])))
      1
      (search env.f32 one_two 1 index)
search-IsRanking_example =
    search-IsRanking env.f32 env-IsWeakOrder one_two 1 index (λ id sum h. nat-IsNumber sum)

-- numbers whose quotients are counted in sixtieths
abbrev sixtieths : Float
sixtieths = record env.f32 { div = λ a b. a * 60 / b }

sixtieths-IsWeakOrder : IsWeakOrder sixtieths
sixtieths-IsWeakOrder = record {
  asymmetric = λ x y h. ground arith;
  between = λ x y z n h k. ground arith;
}

abbrev found_a : List (InternalId × ℕ)
found_a = (1, 9) ∷ (2, 8) ∷ (3, 7) ∷ []

abbrev found_b : List (InternalId × ℕ)
found_b = (3, 9) ∷ (1, 8) ∷ (4, 7) ∷ []

fused : reciprocal_rank_fusion sixtieths found_a found_b 1 3 ≡ (1, 50) ∷ (3, 45) ∷ (2, 20) ∷ []
unfolding reciprocal_rank_fusion add_ranks add_score rank_score sort_by_score insert_by_score
    HashMap.insert HashMap.get
fused = refl

searched : search env.f32 one_two 2 index ≡ (0, 41) ∷ (1, 35) ∷ []
unfolding search insert new insert_pairs add_tokens add_list add_score sort_by_score insert_by_score
    HashMap.insert HashMap.get
searched = refl

multiplied : dot env.f32 one_two two_three ≡ some 35
unfolding dot dot_loop
multiplied = refl

sorted : new_vector env.f32 ((2, 5) ∷ (1, 4) ∷ []) ≡ one_two
unfolding new_vector sort_by_key insert_by_key unzip
sorted = refl

reciprocal_rank_fusion-IsRanking_example :
    IsRanking sixtieths
      (total_from sixtieths none
        ((rank_scores sixtieths 1 0 found_a) ++ (rank_scores sixtieths 1 0 found_b)))
      3
      (reciprocal_rank_fusion sixtieths found_a found_b 1 3)
reciprocal_rank_fusion-IsRanking_example =
    reciprocal_rank_fusion-IsRanking sixtieths sixtieths-IsWeakOrder found_a found_b 1 3
      (λ id sum h. nat-IsNumber sum)

absent : position env.f32 2 (posting_list env.f32 index 2) ≡ none
unfolding position insert new insert_pairs HashMap.insert HashMap.get
absent = refl

remove-insert_example :
    (posting_list env.f32 (insert env.f32 2 two_three index) 2
      ≡ posting_list env.f32 index 2 ++ posted env.f32 2 2 (2 ∷ 3 ∷ []) (7 ∷ 1 ∷ []))
    × (posting_list env.f32 (remove env.f32 2 two_three (insert env.f32 2 two_three index)) 2
        ≡ posting_list env.f32 index 2)
remove-insert_example = remove-insert env.f32 2 two_three index 2 absent
