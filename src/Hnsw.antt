-- ===== src/Hnsw.antt =====
-- crates/surgedb-core/src/hnsw.rs: the graph, and the search in it. The storage is seen through
-- `VectorStorageTrait` of storage.rs. An operation of the code that would panic, at an index out of
-- range, is `none` here, and so is a loop without fuel.
pub mod Traverse
pub mod Heap
pub mod Visit
pub mod Layer
pub mod Greedy
pub mod Hits
pub mod Select
pub mod State
pub mod Connect
pub mod Insert
pub mod Sound
pub mod Edges
pub mod Linked
pub mod Grows
pub mod Bulk
pub mod Isolated
pub mod Alone
pub mod Batched
pub mod GrowsMany
use Prim.Native.Nat.{Ordering}
use zapybase.Prelude.{
  ℕ, zero, suc, ◌+◌, Bool, true, false, not, ◌&&◌, ◌||◌, Option, none, some, List, [], ◌∷◌, length,
  take, get_elem?, leb, ltb, max, if◌then◌else◌,
}
use zapybase.Prelude.Eq.{nat_eq, contains}
use zapybase.Error.{Result, ok, err, empty_index}
use zapybase.Env.{Env, Num, Meta}
use zapybase.Float.{is_less, is_greater}
use zapybase.Metadata.Filter.{Filter, matches}
use zapybase.Storage.{InternalId}

pub record HnswConfig : Type 0 where
  pub m : ℕ
  pub m0 : ℕ
  pub ef_construction : ℕ
  pub ef_search : ℕ

pub record HnswNode : Type 0 where
  pub id : InternalId
  pub max_layer : ℕ
  pub neighbors : List (List InternalId)

-- `node.max_layer >= layer` and `node.neighbors[layer]`
unfoldable pub layer_neighbors : HnswNode → ℕ → Option (List InternalId)
layer_neighbors node layer =
    if leb layer node.max_layer then get_elem? node.neighbors layer else some []

-- `&nodes[id]` and its neighbors at the layer
unfoldable pub neighbors_of : List HnswNode → ℕ → InternalId → Option (List InternalId)
neighbors_of nodes layer id = elim (get_elem? nodes id) [
  | none ↦ none
  | some node ↦ layer_neighbors node layer
]

module _ (env : Env) where
  open env.f32 use {partial_cmp, max_value}

  pub record HnswIndex : Type 0 where
    pub config : HnswConfig
    pub nodes : List HnswNode
    pub entry_point : Option InternalId
    pub max_layer : ℕ

  -- `Candidate` and `MaxCandidate` have the same fields and opposite orders.
  pub record Candidate : Type 0 where
    pub id : InternalId
    pub distance : Num env

  -- a storage, for one query and one metric
  pub record Source : Type 0 where
    pub distance : InternalId → Option (Num env)
    pub is_deleted : InternalId → Bool
    pub get_metadata : InternalId → Option (Meta env)

  pub record SearchContext : Type 0 where
    pub ef : ℕ
    pub layer : ℕ
    pub filter : Option (Filter env.serde.Number env.serde.float.Num)
    pub filter_bitmap : Option (env.roaring.Bitmap)

  abbrev pub or_max : Option (Num env) → Num env
  or_max none = max_value
  or_max (some d) = d

  -- `BinaryHeap::pop`: an element that no other exceeds, and the others. `before a b` says that `b`
  -- is greater.
  unfoldable pub pop :
      (Candidate → Candidate → Bool) → List Candidate → Option (Candidate × List Candidate)
  pop before [] = none
  pop before (c ∷ heap) = elim (pop before heap) [
    | none ↦ some (c, [])
    | some (top, rest) ↦ if before c top then some (top, c ∷ rest) else some (c, top ∷ rest)
  ]

  -- the orders of the two heaps
  unfoldable pub nearest_first : Candidate → Candidate → Bool
  nearest_first a b = is_less (partial_cmp b.distance a.distance)

  unfoldable pub furthest_first : Candidate → Candidate → Bool
  furthest_first a b = is_less (partial_cmp a.distance b.distance)

  abbrev pub distance_of : Option (Candidate × List Candidate) → Num env
  distance_of none = max_value
  distance_of (some (top, rest)) = top.distance

  -- `results.peek().map(|c| c.distance).unwrap_or(f32::MAX)`
  unfoldable pub furthest : List Candidate → Num env
  furthest results = distance_of (pop furthest_first results)

  abbrev rest_of : Option (Candidate × List Candidate) → List Candidate
  rest_of none = []
  rest_of (some (top, rest)) = rest

  -- `results.push(..)`, and `results.pop()` if there are more than `ef`
  unfoldable pub push_result : ℕ → Candidate → List Candidate → List Candidate
  push_result ef c results =
      if ltb ef (length (c ∷ results))
      then rest_of (pop furthest_first (c ∷ results))
      else c ∷ results

  unfoldable pub matches_filter : SearchContext → Source → InternalId → Bool
  matches_filter ctx source id = elim ctx.filter_bitmap [
    | some bitmap ↦ env.roaring.contains bitmap id
    | none ↦ elim ctx.filter [
      | none ↦ true
      | some f ↦ elim (source.get_metadata id) [ none ↦ false | some m ↦ matches env.serde f m ]
    ]
  ]

  unfoldable pub is_valid : SearchContext → Source → InternalId → Bool
  is_valid ctx source id = not (source.is_deleted id) && matches_filter ctx source id

  pub record Search : Type 0 where
    pub visited : List InternalId
    pub candidates : List Candidate
    pub results : List Candidate

  -- a neighbor with a distance, that was not visited before
  unfoldable pub consider : SearchContext → Source → Candidate → Search → Search
  consider ctx source c s =
      if is_less (partial_cmp c.distance (furthest s.results)) || ltb (length s.results) ctx.ef
      then record s {
        candidates = c ∷ s.candidates;
        results = if is_valid ctx source c.id then push_result ctx.ef c s.results else s.results;
      }
      else s

  unfoldable pub visit : SearchContext → Source → InternalId → Search → Search
  visit ctx source id s =
      if contains s.visited id
      then s
      else (let seen : Search = record s { visited = id ∷ s.visited } in
          elim (source.distance id) [
            | none ↦ seen
            | some d ↦ consider ctx source (record { id = id; distance = d }) seen
          ])

  unfoldable pub visit_all : SearchContext → Source → List InternalId → Search → Search
  visit_all ctx source [] s = s
  visit_all ctx source (id ∷ ids) s = visit_all ctx source ids (visit ctx source id s)

  -- `while let Some(current) = candidates.pop()`
  unfoldable pub layer_loop : ℕ → SearchContext → Source → List HnswNode → Search → Option Search
  layer_loop zero ctx source nodes s = none
  layer_loop (suc fuel) ctx source nodes s = elim (pop nearest_first s.candidates) [
    | none ↦ some s
    | some (current, rest) ↦ elim (is_greater (partial_cmp current.distance (furthest s.results))) [
      | true ↦ some (record s { candidates = rest })
      | false ↦ elim (neighbors_of nodes ctx.layer current.id) [
        | none ↦ none
        | some ids ↦
            layer_loop fuel ctx source nodes
              (visit_all ctx source ids (record s { candidates = rest }))
      ]
    ]
  ]

  unfoldable pub start : SearchContext → Source → InternalId → Search
  start ctx source entry =
      let first : Candidate = record { id = entry; distance = or_max (source.distance entry) } in
      record {
        visited = entry ∷ [];
        candidates = first ∷ [];
        results = if is_valid ctx source entry then first ∷ [] else [];
      }

  unfoldable pub insert_by_distance : Candidate → List Candidate → List Candidate
  insert_by_distance c [] = c ∷ []
  insert_by_distance c (d ∷ ds) =
      let rest = insert_by_distance c ds in
      if is_greater (partial_cmp c.distance d.distance) then d ∷ rest else c ∷ d ∷ ds

  -- `sort_by` on the distances
  unfoldable pub sort_by_distance : List Candidate → List Candidate
  sort_by_distance [] = []
  sort_by_distance (c ∷ cs) = insert_by_distance c (sort_by_distance cs)

  abbrev sorted_results : Option Search → Option (List Candidate)
  sorted_results none = none
  sorted_results (some s) = some (sort_by_distance s.results)

  -- A round visits a node that was not visited before for each candidate that it adds.
  unfoldable pub search_layer :
      SearchContext → InternalId → List HnswNode → Source → Option (List Candidate)
  search_layer ctx entry nodes source =
      sorted_results (layer_loop (length nodes + 1) ctx source nodes (start ctx source entry))
