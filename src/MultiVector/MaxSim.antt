-- ===== src/MultiVector/MaxSim.antt =====
-- The MaxSim score of multi_vector.rs against its description, and what a search returns behind an
-- insertion.
use zapybase.Prelude.{
  ◌<◌, ◌≡◌, refl, sym, ◌∙◌, ap, subst, ◌⊎◌, inl, inr, Bool, if◌then◌else◌, true, false, some, List,
  [], ◌∷◌, length, All, Any, arith, Bool-cases,
}
use zapybase.Prelude.Eq.{nat_eq, ◌==◌}
use zapybase.Collections.HashMap
use zapybase.Collections.HashMap.{lookup}
use zapybase.Error.{ok}
use zapybase.Float.{Float, is_greater}
use zapybase.Storage.{InternalId}
use zapybase.Sparse.Sorted.{IsNumber, IsWeakOrder}
use zapybase.MultiVector.{MultiVectorStorage, insert, chunks, max_similarity, score_of, search}
use zapybase.MultiVector.Scored.{scored, search_scored, flatten-chunks_of}

-- A number greater than something is not a NaN, and `>` is that of numbers.
pub record IsFloatOrder (f32 : Float) : Type 0 where
  pub weak : IsWeakOrder f32
  pub compared : (x y : f32.Num) → is_greater (f32.partial_cmp x y) ≡ true → IsNumber f32 x

module _ (f32 : Float) (neg_infinity : f32.Num)
    (distance : List f32.Num → List f32.Num → f32.Num) where
  abbrev pub similarity : List f32.Num → List f32.Num → f32.Num
  similarity q d = f32.sub (f32.from_nat 1) (distance q d)

  -- the greatest similarity of a vector to some vectors: that of one of them, or negative infinity,
  -- and none of them has a greater one
  abbrev pub IsGreatest : List f32.Num → List (List f32.Num) → f32.Num → Type 0
  IsGreatest q docs most =
      (Any (λ d. similarity q d ≡ most) docs ⊎ (most ≡ neg_infinity))
      × All (λ d. is_greater (f32.partial_cmp (similarity q d) most) ≡ false) docs

  -- the sum of the greatest similarities, added to a number in the order of the query
  abbrev pub IsScore : List (List f32.Num) → List (List f32.Num) → f32.Num → f32.Num → Type 0
  IsScore [] docs from score = score ≡ from
  IsScore (q ∷ query) docs from score =
      (most : f32.Num) × IsGreatest q docs most × IsScore query docs (f32.add from most) score

  not_above_itself : (x : f32.Num) → IsNumber f32 x → is_greater (f32.partial_cmp x x) ≡ false
  not_above_itself x number = rw number refl

  -- what the loop makes of a number: it is kept or replaced by the similarity of a vector, and the
  -- result is exceeded by no similarity and by nothing that did not exceed the number
  abbrev IsMost : List f32.Num → List (List f32.Num) → f32.Num → f32.Num → Type 0
  IsMost q docs from most =
      (Any (λ d. similarity q d ≡ most) docs ⊎ (most ≡ from))
      × All (λ d. is_greater (f32.partial_cmp (similarity q d) most) ≡ false) docs
      × ((x : f32.Num)
          → is_greater (f32.partial_cmp x from) ≡ false
          → is_greater (f32.partial_cmp x most) ≡ false)

  max_similarity-step :
      (q d : List f32.Num) (docs : List (List f32.Num)) (from : f32.Num)
      → max_similarity f32 neg_infinity distance q (d ∷ docs) from
        ≡ max_similarity f32 neg_infinity distance q docs
            (if is_greater (f32.partial_cmp (similarity q d) from) then similarity q d else from)
  unfolding max_similarity
  max_similarity-step q d docs from = refl

  max_similarity-IsMost :
      (law : IsFloatOrder f32) (q : List f32.Num) (docs : List (List f32.Num)) (from : f32.Num)
      → IsNumber f32 from
      → IsMost q docs from (max_similarity f32 neg_infinity distance q docs from)
  max_similarity-IsMost law q [] from number = unfold max_similarity in (inr refl, tt, λ x h. h)
  max_similarity-IsMost law q (d ∷ docs) from number =
      let sim = similarity q d in
      let step = λ (b : Bool) (e : is_greater (f32.partial_cmp sim from) ≡ b).
        max_similarity-step q d docs from
        ∙ ap (λ c. max_similarity f32 neg_infinity distance q docs (if c then sim else from)) e in
      elim (Bool-cases (is_greater (f32.partial_cmp sim from))) [
        | inl greater ↦
            let number' = law.compared sim from greater in
            let (taken, below, kept) = max_similarity-IsMost law q docs sim number' in
            let not_less = law.weak.asymmetric sim from greater in
            subst (IsMost q (d ∷ docs) from) (sym (step true greater)) (
              elim taken [ inl there ↦ inl (inr there) | inr here ↦ inl (inl (sym here)) ],
              (kept sim (not_above_itself sim number'), below),
              λ x h. kept x (law.weak.between x from sim number h not_less),
            )
        | inr other ↦
            let (taken, below, kept) = max_similarity-IsMost law q docs from number in
            subst (IsMost q (d ∷ docs) from) (sym (step false other)) (
              elim taken [ inl there ↦ inl (inr there) | inr same ↦ inr same ],
              (kept sim other, below),
              kept,
            )
      ]

  score_of-IsScore :
      (law : IsFloatOrder f32) (query docs : List (List f32.Num)) (from : f32.Num)
      → IsNumber f32 neg_infinity
      → IsScore query docs from (score_of f32 neg_infinity distance query docs from)
  unfolding score_of
  score_of-IsScore law [] docs from number = refl
  score_of-IsScore law (q ∷ query) docs from number =
      let most = max_similarity f32 neg_infinity distance q docs neg_infinity in
      let (taken, below, kept) = max_similarity-IsMost law q docs neg_infinity number in
      (most, (taken, below), score_of-IsScore law query docs (f32.add from most) number)

  -- For floats whose `>` is that of numbers: vectors of the right length are inserted into a storage
  -- whose ids differ, and a search afterwards returns their document with the sum, over the vectors of
  -- the query in their order, of the greatest similarity 1 - distance to one of the vectors (negative
  -- infinity where none is greater), and every other document with the score that a search returned
  -- before.
  pub insert-search :
      (law : IsFloatOrder f32) (id : InternalId) (vectors query : List (List f32.Num))
      (s : MultiVectorStorage f32)
      → IsNumber f32 neg_infinity
      → 0 < s.dimensions
      → HashMap.IsUnique s.vectors
      → All (λ vec. length vec ≡ s.dimensions) vectors
      → (before : List (InternalId × f32.Num)) × (after : List (InternalId × f32.Num))
        × (score : f32.Num) × (search f32 neg_infinity distance query s ≡ some before)
        × ((insert f32 id vectors s).0 ≡ ok tt)
        × (search f32 neg_infinity distance query (insert f32 id vectors s).1 ≡ some after)
        × (lookup id after ≡ some score)
        × IsScore query vectors (f32.from_nat 0) score
        × ((j : InternalId) → (id == j) ≡ false → lookup j after ≡ lookup j before)
  unfolding insert chunks
  insert-search law id vectors query s number some_size unique fits =
      let (flat, done, chunked) = flatten-chunks_of f32 s.dimensions vectors some_size fits in
      let s' : MultiVectorStorage f32 = record s { vectors = HashMap.insert s.vectors id flat } in
      let (before, found, scores) =
        search_scored f32 neg_infinity distance query s some_size unique in
      let (after, found', scores') =
        search_scored f32 neg_infinity distance query s' some_size
          (HashMap.insert-IsUnique s.vectors id flat unique) in
      let inserted : insert f32 id vectors s ≡ (ok tt, s') = rw (insert, done) refl in
      let score = score_of f32 neg_infinity distance query vectors (f32.from_nat 0) in
      (
        before,
        after,
        score,
        found,
        ap (λ r. r.0) inserted,
        ap (λ r. search f32 neg_infinity distance query r.1) inserted ∙ found',
        scores' id
            ∙ ap (scored f32 neg_infinity distance s.dimensions query)
                (HashMap.get-insert_self s.vectors id flat)
            ∙ ap (λ d. some (score_of f32 neg_infinity distance query d (f32.from_nat 0)))
                (chunked (length flat) (omega arith)),
        score_of-IsScore law query vectors (f32.from_nat 0) number,
        λ j other.
            scores' j
            ∙ ap (scored f32 neg_infinity distance s.dimensions query)
                (HashMap.get-insert s.vectors id flat j ∙ rw other refl)
            ∙ sym (scores j),
      )
