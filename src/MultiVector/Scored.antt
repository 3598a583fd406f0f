-- ===== src/MultiVector/Scored.antt =====
-- What multi_vector.rs scores after an insertion.
use zapybase.Prelude.{
  ℕ, zero, suc, ◌≤◌, ◌<◌, ◌≡◌, refl, ◌∙◌, ap, inl, inr, Option, none, some, List, [], ◌∷◌, ◌++◌,
  length, length-append, take, drop, All, arith, eqb, eqb_iff, Bool-cases, false,
}
use zapybase.Prelude.Eq.{nat_eq, ◌==◌}
use zapybase.Collections.HashMap
use zapybase.Collections.HashMap.{HashMap, lookup, KeysDiffer}
use zapybase.Error.{ok}
use zapybase.Float.{Float}
use zapybase.Storage.{InternalId}
use zapybase.Sparse.Scores.{sort_by_score}
use zapybase.Sparse.Sorted.{lookup-sort_by_score}
use zapybase.MultiVector.{
  MultiVectorStorage, flatten, chunks_of, chunks, score_of, score_documents, search,
}

module _ {ℓ} {A : Type ℓ} where
  take-append_left : (xs ys : List A) (n : ℕ) → length xs ≡ n → take n (xs ++ ys) ≡ xs
  take-append_left [] ys zero h = refl
  take-append_left [] ys (suc n) h = grind (arith, h)
  take-append_left (x ∷ xs) ys zero h = grind (arith, h)
  take-append_left (x ∷ xs) ys (suc n) h =
      ap (λ t. x ∷ t) (take-append_left xs ys n (omega (arith, h)))

  drop-append_left : (xs ys : List A) (n : ℕ) → length xs ≡ n → drop n (xs ++ ys) ≡ ys
  drop-append_left [] ys zero h = refl
  drop-append_left [] ys (suc n) h = grind (arith, h)
  drop-append_left (x ∷ xs) ys zero h = grind (arith, h)
  drop-append_left (x ∷ xs) ys (suc n) h = drop-append_left xs ys n (omega (arith, h))

module _ (f32 : Float) where
  chunks_of-append :
      (fuel size : ℕ) (vec flat : List f32.Num)
      → length vec ≡ size
      → 0 < size
      → chunks_of f32 (suc fuel) size (vec ++ flat) ≡ vec ∷ chunks_of f32 fuel size flat
  unfolding chunks_of
  chunks_of-append fuel size [] flat fits some_size = grind (arith, fits, some_size)
  chunks_of-append fuel size (x ∷ xs) flat fits some_size =
      rw (take-append_left (x ∷ xs) flat size fits, drop-append_left (x ∷ xs) flat size fits) refl

  chunks_of-cons :
      (size : ℕ) (vec flat : List f32.Num) (vectors : List (List f32.Num))
      → length vec ≡ size
      → 0 < size
      → ((fuel : ℕ) → length flat ≤ fuel → chunks_of f32 fuel size flat ≡ vectors)
      → (fuel : ℕ) → length (vec ++ flat) ≤ fuel
      → chunks_of f32 fuel size (vec ++ flat) ≡ vec ∷ vectors
  chunks_of-cons size vec flat vectors fits some_size chunked zero h =
      let len = length-append vec flat in absurd (omega (arith, len, h, fits, some_size))
  chunks_of-cons size vec flat vectors fits some_size chunked (suc fuel) h =
      let len = length-append vec flat in
      chunks_of-append fuel size vec flat fits some_size
      ∙ ap (λ t. vec ∷ t) (chunked fuel (omega (arith, len, h, fits, some_size)))

  chunks_of_nil : (fuel size : ℕ) → chunks_of f32 fuel size [] ≡ []
  unfolding chunks_of
  chunks_of_nil zero size = refl
  chunks_of_nil (suc fuel) size = refl

  -- Vectors of the right length are flattened, and the chunks of that are the vectors.
  pub flatten-chunks_of :
      (dimensions : ℕ) (vectors : List (List f32.Num))
      → 0 < dimensions
      → All (λ vec. length vec ≡ dimensions) vectors
      → (flat : List f32.Num) × (flatten f32 dimensions vectors ≡ ok flat)
        × ((fuel : ℕ) → length flat ≤ fuel → chunks_of f32 fuel dimensions flat ≡ vectors)
  unfolding flatten
  flatten-chunks_of dimensions [] some_size fits =
      ([], refl, λ fuel h. chunks_of_nil fuel dimensions)
  flatten-chunks_of dimensions (vec ∷ vectors) some_size (fit, fits) =
      let (flat, done, chunked) = flatten-chunks_of dimensions vectors some_size fits in
      let same = (eqb_iff (length vec) dimensions).1 fit in
      (
        vec ++ flat,
        rw (flatten, same, done) refl,
        chunks_of-cons dimensions vec flat vectors fit some_size chunked,
      )

module _ (f32 : Float) (neg_infinity : f32.Num)
    (distance : List f32.Num → List f32.Num → f32.Num) where
  abbrev pub scored : ℕ → List (List f32.Num) → Option (List f32.Num) → Option f32.Num
  scored dimensions query none = none
  scored dimensions query (some flat) =
      some (score_of f32 neg_infinity distance query (chunks f32 dimensions flat) (f32.from_nat 0))

  lookup-score_documents :
      (dimensions : ℕ) (query : List (List f32.Num)) (documents : List (InternalId × List f32.Num))
      (id : InternalId)
      → lookup id (score_documents f32 neg_infinity distance dimensions query documents)
        ≡ scored dimensions query (lookup id documents)
  unfolding lookup score_documents
  lookup-score_documents dimensions query [] id = refl
  lookup-score_documents dimensions query ((doc_id, flat) ∷ documents) id =
      let rest = lookup-score_documents dimensions query documents id in
      elim (Bool-cases (doc_id == id)) [ inl same ↦ rw same refl | inr other ↦ rw other rest ]

  score_documents-KeysDiffer :
      (dimensions : ℕ) (query : List (List f32.Num)) (documents : List (InternalId × List f32.Num))
      → KeysDiffer documents
      → KeysDiffer (score_documents f32 neg_infinity distance dimensions query documents)
  unfolding score_documents
  score_documents-KeysDiffer dimensions query [] d = tt
  score_documents-KeysDiffer dimensions query ((doc_id, flat) ∷ documents) (new, d) = (
    lookup-score_documents dimensions query documents doc_id ∙ ap (scored dimensions query) new,
    score_documents-KeysDiffer dimensions query documents d,
  )

  -- A search of a storage whose ids differ finds each document under its id, with its score.
  pub search_scored :
      (query : List (List f32.Num)) (s : MultiVectorStorage f32)
      → 0 < s.dimensions
      → HashMap.IsUnique s.vectors
      → (results : List (InternalId × f32.Num)) × (search f32 neg_infinity distance query s
          ≡ some results)
        × ((id : InternalId)
            → lookup id results ≡ scored s.dimensions query (HashMap.get s.vectors id))
  unfolding search HashMap.IsUnique HashMap.get
  search_scored query s some_size unique =
      let documents = s.vectors.entries in
      let scores = score_documents f32 neg_infinity distance s.dimensions query documents in
      let sized : eqb s.dimensions 0 ≡ false = ground (arith, some_size) in
      (
        sort_by_score f32 scores,
        rw sized refl,
        λ id.
            lookup-sort_by_score f32 scores
              (score_documents-KeysDiffer s.dimensions query documents unique) id
            ∙ lookup-score_documents s.dimensions query documents id,
      )
