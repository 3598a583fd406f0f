-- ===== src/Sparse/Search.antt =====
-- The search of crates/surgedb-core/src/sparse/index.rs against the sums of its posting lists.
use zapybase.Prelude.{ℕ, ◌≡◌, refl, sym, ◌∙◌, ap, Option, none, some, List, [], ◌∷◌, ◌++◌}
use zapybase.Prelude.Eq.{nat_eq}
use zapybase.Collections.HashMap
use zapybase.Collections.HashMap.{HashMap}
use zapybase.Float.{Float}
use zapybase.Storage.{InternalId}
use zapybase.Sparse.{SparseVector, InvertedIndex, or_empty, add_list, add_tokens, search}
use zapybase.Sparse.Sorted.{IsNumber, IsWeakOrder}
use zapybase.Sparse.Ranking.{
  IsRanking, total_from, add_scores, add_scores-append, sort_by_score-IsRanking,
}

module _ (f32 : Float) where
  -- the products of a query's value with those of a posting list
  abbrev pub products : f32.Num → List (InternalId × f32.Num) → List (InternalId × f32.Num)
  products query_val [] = []
  products query_val ((doc_id, doc_val) ∷ list) =
      (doc_id, f32.mul query_val doc_val) ∷ products query_val list

  -- the products over the tokens of a query, in their order
  abbrev pub token_products :
      InvertedIndex f32 → List ℕ → List f32.Num → List (InternalId × f32.Num)
  token_products index [] values = []
  token_products index (idx ∷ indices) [] = []
  token_products index (idx ∷ indices) (query_val ∷ values) =
      products query_val (or_empty f32 (HashMap.get index.postings idx))
      ++ token_products index indices values

  add_list-products :
      (query_val : f32.Num) (list : List (InternalId × f32.Num)) (m : HashMap InternalId f32.Num)
      → add_list f32 query_val list m ≡ add_scores f32 (products query_val list) m
  unfolding add_list add_scores
  add_list-products query_val [] m = refl
  add_list-products query_val ((doc_id, doc_val) ∷ list) m = add_list-products query_val list _

  add_tokens-token_products :
      (index : InvertedIndex f32) (indices : List ℕ) (values : List f32.Num)
      (m : HashMap InternalId f32.Num)
      → add_tokens f32 index indices values m
        ≡ add_scores f32 (token_products index indices values) m
  unfolding add_tokens add_scores
  add_tokens-token_products index [] values m = refl
  add_tokens-token_products index (idx ∷ indices) [] m = refl
  add_tokens-token_products index (idx ∷ indices) (query_val ∷ values) m =
      go (HashMap.get index.postings idx) (λ m'. add_tokens-token_products index indices values m')
    where
      go :
          (found : Option (List (InternalId × f32.Num)))
          → ((m' : HashMap InternalId f32.Num)
              → add_tokens f32 index indices values m'
                ≡ add_scores f32 (token_products index indices values) m')
          → (elim found [
            | none ↦ add_tokens f32 index indices values m
            | some list ↦ add_tokens f32 index indices values (add_list f32 query_val list m)
          ])
            ≡ add_scores f32
                (products query_val (or_empty f32 found) ++ token_products index indices values)
                m
      go none rest = rest m
      go (some list) rest =
          rest (add_list f32 query_val list m)
          ∙ ap (add_scores f32 (token_products index indices values))
              (add_list-products query_val list m)
          ∙ sym (
              add_scores-append f32 (products query_val list) (token_products index indices values)
                m)

  -- For floats whose `>` is that of numbers, and a query for which no sum of products is a NaN, a
  -- search returns at most k pairs of different ids in descending order; each id comes with the sum,
  -- in the order of the query, of the products of its values with those of the query, and an id with
  -- a sum that is left out has none greater than those of the k results.
  pub search-IsRanking :
      (law : IsWeakOrder f32) (query : SparseVector f32) (k : ℕ) (index : InvertedIndex f32)
      → ((id : InternalId) (sum : f32.Num)
          → total_from f32 none (token_products index query.indices query.values) id ≡ some sum
          → IsNumber f32 sum)
      → IsRanking f32
          (total_from f32 none (token_products index query.indices query.values))
          k
          (search f32 query k index)
  unfolding search
  search-IsRanking law query k index numbers =
      let scores = token_products index query.indices query.values in
      rw (add_tokens-token_products index query.indices query.values HashMap.new)
        (sort_by_score-IsRanking f32 law scores k numbers)
