-- ===== src/Examples/MultiVector.antt =====
-- Documents of several vectors of one component, inserted and searched.
use zapybase.Prelude.{false, ℕ, ◌-◌, ◌≡◌, refl, some, List, [], ◌∷◌, arith, max, min}
use zapybase.Prelude.Eq.{nat_eq, ◌==◌}
use zapybase.Collections.HashMap
use zapybase.Collections.HashMap.{lookup}
use zapybase.Error.{ok, err, dimension_mismatch}
use zapybase.Storage.{InternalId}
use zapybase.MultiVector.{
  MultiVectorStorage, insert, search, score_of, flatten, chunks, chunks_of, score_documents,
  max_similarity,
}
use zapybase.MultiVector.MaxSim.{IsFloatOrder, IsScore, insert-search}
use zapybase.Examples.Sparse.{env-IsWeakOrder, nat-IsNumber}
use zapybase.Sparse.Scores.{sort_by_score, insert_by_score}
use zapybase.Examples.{env}

-- 0 at the same place and 1 elsewhere
abbrev apart : List ℕ → List ℕ → ℕ
apart (a ∷ as') (b ∷ bs) = min 1 (max a b - min a b)
apart as' bs = 0

abbrev one_document : MultiVectorStorage env.f32
one_document = record { vectors = record { entries = (7, 3 ∷ 4 ∷ []) ∷ [] }; dimensions = 1 }

refused : (insert env.f32 8 ((3 ∷ []) ∷ [] ∷ []) one_document).0 ≡ err (dimension_mismatch 1 0)
unfolding insert flatten
refused = refl

found :
    search env.f32 0 apart ((3 ∷ []) ∷ (4 ∷ []) ∷ (5 ∷ []) ∷ []) one_document ≡ some ((7, 2) ∷ [])
unfolding search chunks chunks_of score_documents score_of max_similarity sort_by_score
    insert_by_score
found = refl

env-IsFloatOrder : IsFloatOrder env.f32
env-IsFloatOrder = record { weak = env-IsWeakOrder; compared = λ x y h. nat-IsNumber x }

insert-search_example :
    (before : List (InternalId × ℕ)) × (after : List (InternalId × ℕ)) × (score : ℕ) × (search
        env.f32 0 apart
        ((5 ∷ []) ∷ (7 ∷ []) ∷ [])
        one_document
      ≡ some before)
    × ((insert env.f32 8 ((6 ∷ []) ∷ (5 ∷ []) ∷ []) one_document).0 ≡ ok tt)
    × (search env.f32 0 apart
          ((5 ∷ []) ∷ (7 ∷ []) ∷ [])
          (insert env.f32 8 ((6 ∷ []) ∷ (5 ∷ []) ∷ []) one_document).1
        ≡ some after)
    × (lookup 8 after ≡ some score)
    × IsScore env.f32 0 apart ((5 ∷ []) ∷ (7 ∷ []) ∷ []) ((6 ∷ []) ∷ (5 ∷ []) ∷ []) 0 score
    × ((j : InternalId) → (8 == j) ≡ false → lookup j after ≡ lookup j before)
unfolding HashMap.IsUnique lookup
insert-search_example =
    insert-search env.f32 0 apart env-IsFloatOrder 8 ((6 ∷ []) ∷ (5 ∷ []) ∷ [])
      ((5 ∷ []) ∷ (7 ∷ []) ∷ []) one_document (nat-IsNumber 0) (omega arith) (refl, tt)
      (refl, (refl, tt))
