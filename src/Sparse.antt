-- ===== src/Sparse.antt =====
-- crates/surgedb-core/src/sparse/index.rs: sparse vectors and the inverted index. A floating-point
-- number is abstract, and a `HashMap` lists its entries in the order in which its keys came first.
pub mod Scores
pub mod Fusion
pub mod Sorted
pub mod Ranking
pub mod Search
pub mod Fused
pub mod Erased
pub mod Removed
use zapybase.Prelude.{
  ℕ, zero, suc, ◌+◌, Bool, true, false, Option, none, some, List, [], ◌∷◌, ◌++◌, length, take,
  get_elem?, set, eqb, ltb, leb, if◌then◌else◌,
}
use zapybase.Prelude.Eq.{nat_eq}
use zapybase.Collections.HashMap
use zapybase.Collections.HashMap.{HashMap}
use zapybase.Float.{Float}
use zapybase.Storage.{InternalId}
use zapybase.Sparse.Scores.{add_score, sort_by_score}

pub record SparseVector (f32 : Float) : Type 0 where
  pub indices : List ℕ
  pub values : List f32.Num

pub record InvertedIndex (f32 : Float) : Type 0 where
  pub postings : HashMap ℕ (List (InternalId × f32.Num))

-- `Vec::swap_remove`: the last element takes the place of the removed one
unfoldable pub swap_remove {ℓ} : {A : Type ℓ} → ℕ → List A → List A
swap_remove pos [] = []
swap_remove pos (x ∷ xs) = elim (get_elem? (x ∷ xs) (length xs)) [
  | none ↦ x ∷ xs
  | some last ↦ take (length xs) (set (x ∷ xs) pos last)
]

module _ (f32 : Float) where
  -- `pairs.sort_by_key`, which is stable
  unfoldable pub insert_by_key : ℕ × f32.Num → List (ℕ × f32.Num) → List (ℕ × f32.Num)
  insert_by_key p [] = p ∷ []
  insert_by_key p (q ∷ qs) =
      let rest = insert_by_key p qs in if ltb q.0 p.0 then q ∷ rest else p ∷ q ∷ qs

  unfoldable pub sort_by_key : List (ℕ × f32.Num) → List (ℕ × f32.Num)
  sort_by_key [] = []
  sort_by_key (p ∷ ps) = insert_by_key p (sort_by_key ps)

  unfoldable pub unzip : List (ℕ × f32.Num) → List ℕ × List f32.Num
  unzip [] = ([], [])
  unzip ((idx, value) ∷ pairs) = let rest = unzip pairs in (idx ∷ rest.0, value ∷ rest.1)

  -- `SparseVector::new`
  unfoldable pub new_vector : List (ℕ × f32.Num) → SparseVector f32
  new_vector pairs =
      let (indices, values) = unzip (sort_by_key pairs) in
      record { indices = indices; values = values }

  -- the loop of `SparseVector::dot` from the positions `i` and `j`; `none` is an index out of range
  unfoldable pub dot_loop :
      ℕ → ℕ → ℕ → f32.Num → SparseVector f32 → SparseVector f32 → Option f32.Num
  dot_loop zero i j sum a b = some sum
  dot_loop (suc fuel) i j sum a b = elim (get_elem? a.indices i) [
    | none ↦ some sum
    | some idx_i ↦ elim (get_elem? b.indices j) [
      | none ↦ some sum
      | some idx_j ↦ elim (eqb idx_i idx_j) [
        | true ↦ elim (get_elem? a.values i) [
          | none ↦ none
          | some x ↦ elim (get_elem? b.values j) [
            | none ↦ none
            | some y ↦ dot_loop fuel (i + 1) (j + 1) (f32.add sum (f32.mul x y)) a b
          ]
        ]
        | false ↦ elim (ltb idx_i idx_j) [
          | true ↦ dot_loop fuel (i + 1) j sum a b
          | false ↦ dot_loop fuel i (j + 1) sum a b
        ]
      ]
    ]
  ]

  -- each round passes an index of one of the vectors
  unfoldable pub dot : SparseVector f32 → SparseVector f32 → Option f32.Num
  dot a b = dot_loop (length a.indices + length b.indices) 0 0 (f32.from_nat 0) a b

  -- `InvertedIndex::new`
  unfoldable pub new : InvertedIndex f32
  new = record { postings = HashMap.new }

  abbrev pub or_empty : Option (List (InternalId × f32.Num)) → List (InternalId × f32.Num)
  or_empty none = []
  or_empty (some list) = list

  -- `self.postings.entry(idx).or_default().push((id, val))` for each pair of the vector
  unfoldable pub insert_pairs :
      InternalId → List ℕ → List f32.Num → InvertedIndex f32 → InvertedIndex f32
  insert_pairs id [] values index = index
  insert_pairs id (idx ∷ indices) [] index = index
  insert_pairs id (idx ∷ indices) (val ∷ values) index = insert_pairs id indices values (record {
    postings =
        HashMap.insert index.postings idx
          (or_empty (HashMap.get index.postings idx) ++ (id, val) ∷ []);
  })

  unfoldable pub insert : InternalId → SparseVector f32 → InvertedIndex f32 → InvertedIndex f32
  insert id vector index = insert_pairs id vector.indices vector.values index

  -- `list.iter().position(|(doc_id, _)| *doc_id == id)`
  unfoldable pub position : InternalId → List (InternalId × f32.Num) → Option ℕ
  position id [] = none
  position id ((doc_id, val) ∷ list) =
      let rest = position id list in
      if eqb doc_id id then some 0 else elim rest [ none ↦ none | some pos ↦ some (pos + 1) ]

  unfoldable pub remove_from :
      InternalId → List (InternalId × f32.Num) → List (InternalId × f32.Num)
  remove_from id list = elim (position id list) [ none ↦ list | some pos ↦ swap_remove pos list ]

  unfoldable pub remove_indices : InternalId → List ℕ → InvertedIndex f32 → InvertedIndex f32
  remove_indices id [] index = index
  remove_indices id (idx ∷ indices) index = elim (HashMap.get index.postings idx) [
    | none ↦ remove_indices id indices index
    | some list ↦
        remove_indices id indices
          (record { postings = HashMap.insert index.postings idx (remove_from id list) })
  ]

  unfoldable pub remove : InternalId → SparseVector f32 → InvertedIndex f32 → InvertedIndex f32
  remove id vector index = remove_indices id vector.indices index

  -- the loop over one posting list
  unfoldable pub add_list :
      f32.Num
      → List (InternalId × f32.Num)
      → HashMap InternalId f32.Num
      → HashMap InternalId f32.Num
  add_list query_val [] scores = scores
  add_list query_val ((doc_id, doc_val) ∷ list) scores =
      add_list query_val list (add_score f32 scores doc_id (f32.mul query_val doc_val))

  -- the loop over the pairs of the query
  unfoldable pub add_tokens :
      InvertedIndex f32
      → List ℕ
      → List f32.Num
      → HashMap InternalId f32.Num
      → HashMap InternalId f32.Num
  add_tokens index [] values scores = scores
  add_tokens index (idx ∷ indices) [] scores = scores
  add_tokens index (idx ∷ indices) (query_val ∷ values) scores =
      elim (HashMap.get index.postings idx) [
        | none ↦ add_tokens index indices values scores
        | some list ↦ add_tokens index indices values (add_list query_val list scores)
      ]

  unfoldable pub search : SparseVector f32 → ℕ → InvertedIndex f32 → List (InternalId × f32.Num)
  search query k index =
      take k (sort_by_score f32 (add_tokens index query.indices query.values HashMap.new).entries)
