-- ===== src/Sparse/Ranking.antt =====
-- The ranking of crates/surgedb-core/src/sparse: scores that are added up under ids, sorted and cut.
use zapybase.Prelude.{
  ℕ, ◌≤◌, ◌≡◌, refl, sym, ◌∙◌, ap, inl, inr, false, Option, none, some, List, [], ◌∷◌, ◌++◌, length,
  take, length-take, take-All, All, arith, if◌then◌else◌, Bool-cases,
}
use zapybase.Prelude.Eq.{nat_eq, ◌==◌}
use zapybase.Collections.HashMap
use zapybase.Collections.HashMap.{HashMap, lookup, KeysDiffer}
use zapybase.Float.{Float, is_greater}
use zapybase.Storage.{InternalId}
use zapybase.Sparse.Scores.{or_default, add_score, sort_by_score}
use zapybase.Sparse.Sorted.{
  IsNumber, IsWeakOrder, Ordered, All-lookup, lookup-sort_by_score, sort_by_score-KeysDiffer,
  sort_by_score-All, sort_by_score-Ordered, take-Ordered, take-KeysDiffer, lookup-take_missing,
}

module _ (f32 : Float) where
  -- the sum of the scores of one id, in their order, added to what was there before
  abbrev pub total_from : Option f32.Num → List (InternalId × f32.Num) → InternalId → Option f32.Num
  total_from before [] id = before
  total_from before ((doc_id, score) ∷ scores) id =
      total_from (if doc_id == id then some (f32.add (or_default f32 before) score) else before)
        scores id

  -- a list that ranks ids by their sums, cut to `k`: each id once and with its sum, in descending
  -- order, and an id that is left out has no greater sum than those of a full list
  pub record IsRanking (total : InternalId → Option f32.Num) (k : ℕ)
      (results : List (InternalId × f32.Num)) : Type 0 where
    pub sums : All (λ r. total r.0 ≡ some r.1) results
    pub differ : KeysDiffer results
    pub few : length results ≤ k
    pub ordered : Ordered f32 results
    pub complete :
        (id : InternalId) (sum : f32.Num)
        → total id ≡ some sum
        → lookup id results ≡ none
        → (length results ≡ k) × All (λ r. is_greater (f32.partial_cmp sum r.1) ≡ false) results

module _ (f32 : Float) where
  get-add_score :
      (score : f32.Num) (m : HashMap InternalId f32.Num) (doc_id id : InternalId)
      → HashMap.get (add_score f32 m doc_id score) id ≡ (
          if doc_id == id
          then some (f32.add (or_default f32 (HashMap.get m id)) score)
          else HashMap.get m id)
  unfolding add_score
  get-add_score score m doc_id id =
      HashMap.get-insert m doc_id (f32.add (or_default f32 (HashMap.get m doc_id)) score) id
      ∙ elim (Bool-cases (doc_id == id)) [
        | inl same ↦ rw same (
            ap (λ i. some (f32.add (or_default f32 (HashMap.get m i)) score))
              ((nat_eq.beq_iff doc_id id).0 same))
        | inr other ↦ rw other refl
      ]

  -- the scores added one after the other
  unfoldable pub add_scores :
      List (InternalId × f32.Num) → HashMap InternalId f32.Num → HashMap InternalId f32.Num
  add_scores [] m = m
  add_scores ((doc_id, score) ∷ scores) m = add_scores scores (add_score f32 m doc_id score)

  pub add_scores-append :
      (xs ys : List (InternalId × f32.Num)) (m : HashMap InternalId f32.Num)
      → add_scores (xs ++ ys) m ≡ add_scores ys (add_scores xs m)
  unfolding add_scores
  add_scores-append [] ys m = refl
  add_scores-append ((doc_id, score) ∷ xs) ys m =
      add_scores-append xs ys (add_score f32 m doc_id score)

  get-add_scores :
      (scores : List (InternalId × f32.Num)) (m : HashMap InternalId f32.Num) (id : InternalId)
      → HashMap.get (add_scores scores m) id ≡ total_from f32 (HashMap.get m id) scores id
  unfolding add_scores
  get-add_scores [] m id = refl
  get-add_scores ((doc_id, score) ∷ scores) m id =
      get-add_scores scores (add_score f32 m doc_id score) id
      ∙ ap (λ before. total_from f32 before scores id) (get-add_score score m doc_id id)

  add_scores-IsUnique :
      (scores : List (InternalId × f32.Num)) (m : HashMap InternalId f32.Num)
      → HashMap.IsUnique m
      → HashMap.IsUnique (add_scores scores m)
  unfolding add_scores add_score
  add_scores-IsUnique [] m d = d
  add_scores-IsUnique ((doc_id, score) ∷ scores) m d =
      add_scores-IsUnique scores (add_score f32 m doc_id score)
        (HashMap.insert-IsUnique m doc_id (f32.add (or_default f32 (HashMap.get m doc_id)) score) d)

  -- adding up, sorting and cutting a list of scores ranks their ids
  pub sort_by_score-IsRanking :
      (law : IsWeakOrder f32) (scores : List (InternalId × f32.Num)) (k : ℕ)
      → ((id : InternalId) (sum : f32.Num)
          → total_from f32 none scores id ≡ some sum
          → IsNumber f32 sum)
      → IsRanking f32
          (total_from f32 none scores)
          k
          (take k (sort_by_score f32 (add_scores scores HashMap.new).entries))
  unfolding HashMap.IsUnique HashMap.get
  sort_by_score-IsRanking law scores k numbers =
      let entries = (add_scores scores HashMap.new).entries in
      let sorted = sort_by_score f32 entries in
      let d = add_scores-IsUnique scores HashMap.new tt in
      let total = get-add_scores scores HashMap.new in
      let summed =
        All-lookup (λ e. total_from f32 none scores e.0 ≡ some e.1) entries d
          (λ id sum found. sym (total id) ∙ found) in
      let number =
        All-lookup (λ e. IsNumber f32 e.1) entries d
          (λ id sum found. numbers id sum (sym (total id) ∙ found)) in
      let ordered = sort_by_score-Ordered f32 law entries number in
      record {
        sums =
            take-All (λ e. total_from f32 none scores e.0 ≡ some e.1) k sorted
              (sort_by_score-All f32 (λ e. total_from f32 none scores e.0 ≡ some e.1) entries
                summed);
        differ = take-KeysDiffer f32 k sorted (sort_by_score-KeysDiffer f32 entries d);
        few = omega (arith, length-take k sorted);
        ordered = take-Ordered f32 k sorted ordered;
        complete = λ id sum sums missing.
            lookup-take_missing f32 k sorted id sum ordered
              (lookup-sort_by_score f32 entries d id ∙ total id ∙ sums) missing;
      }
