-- ===== src/MultiVector.antt =====
-- crates/surgedb-core/src/multi_vector.rs: documents of several vectors, and their MaxSim search. The
-- distance of the metric is a parameter, and so is `f32::NEG_INFINITY`. `none` is a panic.
pub mod Scored
pub mod MaxSim
use zapybase.Prelude.{
  ℕ, zero, suc, Option, none, some, List, [], ◌∷◌, ◌++◌, length, take, drop, eqb, if◌then◌else◌,
}
use zapybase.Prelude.Eq.{nat_eq}
use zapybase.Collections.HashMap
use zapybase.Collections.HashMap.{HashMap}
use zapybase.Error.{Error, Result, ok, err, dimension_mismatch}
use zapybase.Float.{Float, is_greater}
use zapybase.Storage.{InternalId}
use zapybase.Sparse.Scores.{sort_by_score}

module _ (f32 : Float) where
  pub record MultiVectorStorage : Type 0 where
    pub vectors : HashMap InternalId (List f32.Num)
    pub dimensions : ℕ

  -- `MultiVectorStorage::new`
  unfoldable pub new : ℕ → MultiVectorStorage
  new dimensions = record { vectors = HashMap.new; dimensions = dimensions }

  -- the loop of `insert`
  unfoldable pub flatten : ℕ → List (List f32.Num) → Result (List f32.Num)
  flatten dimensions [] = ok []
  flatten dimensions (vec ∷ vectors) =
      let rest = flatten dimensions vectors in
      if eqb (length vec) dimensions
      then elim rest [ err e ↦ err e | ok flattened ↦ ok (vec ++ flattened) ]
      else err (dimension_mismatch dimensions (length vec))

  unfoldable pub insert :
      InternalId → List (List f32.Num) → MultiVectorStorage → Result (Unit {0}) × MultiVectorStorage
  insert id vectors s = elim (flatten s.dimensions vectors) [
    | err e ↦ (err e, s)
    | ok flattened ↦ (ok tt, record s { vectors = HashMap.insert s.vectors id flattened })
  ]

  -- `chunks`; a round takes one element at least, where the size is not 0
  unfoldable pub chunks_of : ℕ → ℕ → List f32.Num → List (List f32.Num)
  chunks_of zero size xs = []
  chunks_of (suc fuel) size [] = []
  chunks_of (suc fuel) size (x ∷ xs) = take size (x ∷ xs) ∷ chunks_of fuel size (drop size (x ∷ xs))

  unfoldable pub chunks : ℕ → List f32.Num → List (List f32.Num)
  chunks size xs = chunks_of (length xs) size xs

module _ (f32 : Float) (neg_infinity : f32.Num)
    (distance : List f32.Num → List f32.Num → f32.Num) where
  -- the loop over the vectors of a document
  unfoldable pub max_similarity : List f32.Num → List (List f32.Num) → f32.Num → f32.Num
  max_similarity q [] max_sim = max_sim
  max_similarity q (d ∷ doc_vectors) max_sim =
      let sim = f32.sub (f32.from_nat 1) (distance q d) in
      max_similarity q doc_vectors
        (if is_greater (f32.partial_cmp sim max_sim) then sim else max_sim)

  -- the loop over the vectors of the query
  unfoldable pub score_of : List (List f32.Num) → List (List f32.Num) → f32.Num → f32.Num
  score_of [] doc_vectors score = score
  score_of (q ∷ query) doc_vectors score =
      score_of query doc_vectors (f32.add score (max_similarity q doc_vectors neg_infinity))

  -- the loop over the documents
  unfoldable pub score_documents :
      ℕ → List (List f32.Num) → List (InternalId × List f32.Num) → List (InternalId × f32.Num)
  score_documents dimensions query [] = []
  score_documents dimensions query ((id, flat) ∷ documents) =
      (id, score_of query (chunks f32 dimensions flat) (f32.from_nat 0))
      ∷ score_documents dimensions query documents

  -- `chunks` panics at the size 0
  unfoldable pub search :
      List (List f32.Num) → MultiVectorStorage f32 → Option (List (InternalId × f32.Num))
  search query s =
      if eqb s.dimensions 0
      then (elim s.vectors.entries [ [] ↦ some [] | ◌∷◌ document documents ↦ none ])
      else some (sort_by_score f32 (score_documents s.dimensions query s.vectors.entries))
