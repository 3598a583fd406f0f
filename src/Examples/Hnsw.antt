-- ===== src/Examples/Hnsw.antt =====
-- Searches of hnsw.rs in a graph of two nodes, of which the second is deleted.
use zapybase.Prelude.{
  All, Option, ℕ, zero, suc, ◌+◌, ◌≤◌, ◌<◌, ◌≡◌, refl, true, none, some, List, [], ◌∷◌, arith,
  length, max, min, ◌-◌, eqb,
}
use zapybase.Error.{ok}
use zapybase.Storage.{InternalId}
use zapybase.Hnsw.{
  HnswIndex, HnswNode, Candidate, Source, SearchContext, neighbors_of, layer_neighbors,
  search_layer, layer_loop, start, pop, is_valid, matches_filter, nearest_first, furthest,
  furthest_first, visit_all, visit, consider, push_result, sort_by_distance, insert_by_distance,
}
use zapybase.Hnsw.Heap.{Differ}
use zapybase.Hnsw.Visit.{IsHit}
use zapybase.Hnsw.Layer.{IsGraph, search_layer-IsHit}
use zapybase.Hnsw.Greedy.{IsStrict, IsLocal, search_layer_single-IsLocal}
use zapybase.Hnsw.Traverse.{search_layer_single, search, search_from, descend, ids_with_distances}
use zapybase.Hnsw.Select.{select_neighbors, select_loop, fill_up, is_closer, select_neighbors-All}
use zapybase.Hnsw.Hits.{IsIndex, search-IsHit}
use zapybase.Prelude.Eq.{nat_eq, contains}
use zapybase.Examples.{env}

pub env-IsStrict : IsStrict env
env-IsStrict = record { irreflexive = λ a. ground arith; transitive = λ a b c h k. ground arith }

abbrev pub nodes : List HnswNode
nodes =
    record { id = 0; max_layer = 0; neighbors = (1 ∷ []) ∷ [] }
    ∷ record { id = 1; max_layer = 0; neighbors = (0 ∷ []) ∷ [] }
    ∷ []

neighbors_at :
    (layer : ℕ) (id : InternalId)
    → id < 2
    → (ids : List InternalId) × (neighbors_of nodes layer id ≡ some ids) × All (λ j. j < 2) ids
unfolding neighbors_of layer_neighbors
neighbors_at zero zero h = (1 ∷ [], refl, (omega arith, tt))
neighbors_at zero (suc zero) h = (0 ∷ [], refl, (omega arith, tt))
neighbors_at (suc layer) zero h = ([], ground arith, tt)
neighbors_at (suc layer) (suc zero) h = ([], ground arith, tt)
neighbors_at layer (suc (suc id)) h = absurd (omega arith)

nodes-IsGraph : (layer : ℕ) → IsGraph nodes layer
nodes-IsGraph layer = record { closed = λ id h. neighbors_at layer id h }

abbrev pub index : HnswIndex env
index = record {
  config = record { m = 16; m0 = 32; ef_construction = 200; ef_search = 4 };
  nodes = nodes;
  entry_point = some 0;
  max_layer = 0;
}

abbrev pub source : Source env
source = record {
  distance = λ id. some (5 + id);
  is_deleted = λ id. eqb id 1;
  get_metadata = λ id. none;
}

index-IsIndex : IsIndex env-IsStrict source index
index-IsIndex = record { entry = 0; entered = refl; inside = omega arith; graph = nodes-IsGraph }

abbrev ctx : SearchContext env
ctx = record { ef = max 4 2; layer = 0; filter = none; filter_bitmap = none }

search_layer-IsHit_example :
    (found : List (Candidate env)) × (search_layer env ctx 0 nodes source ≡ some found)
    × All (IsHit ctx source 2) found
    × (length found ≤ 4)
    × Differ env found
search_layer-IsHit_example =
    search_layer-IsHit ctx source nodes (nodes-IsGraph 0) 0 (omega arith) (omega arith)

search_layer_single-IsLocal_example :
    (id : InternalId) × (search_layer_single env 1 0 nodes source ≡ some id)
    × IsLocal env-IsStrict source 2 nodes 0 id
search_layer_single-IsLocal_example =
    search_layer_single-IsLocal env-IsStrict source nodes 0 (nodes-IsGraph 0) 1 (omega arith)

search-IsHit_example :
    (found : List (Candidate env)) × (search env true 2 source (λ f. none) none index
      ≡ ok (some (ids_with_distances env found)))
    × (length found ≤ 2)
    × All (IsHit ctx source 2) found
    × Differ env found
search-IsHit_example =
    search-IsHit env-IsStrict source true 2 (λ f. none) none index index-IsIndex (omega arith)

-- the deleted node is passed through and not returned
search_run : search env true 2 source (λ f. none) none index ≡ ok (some ((0, 5) ∷ []))
unfolding search search_from descend search_layer layer_loop start pop is_valid matches_filter
    nearest_first furthest furthest_first neighbors_of layer_neighbors visit_all visit consider
    push_result sort_by_distance insert_by_distance ids_with_distances contains
search_run = refl

-- distances between the nodes of a line
abbrev between : InternalId → InternalId → Option ℕ
between a b = some (max a b - min a b)

abbrev three : List (Candidate env)
three =
    record { id = 5; distance = 1 }
    ∷ record { id = 6; distance = 2 }
    ∷ record { id = 1; distance = 3 }
    ∷ []

select_neighbors-All_example :
    All (λ c. c.id < 7) (select_neighbors env between three 2)
    × (length (select_neighbors env between three 2) ≡ min 2 3)
select_neighbors-All_example =
    select_neighbors-All env between (λ c. c.id < 7) three 2
      (omega arith, (omega arith, (omega arith, tt)))

-- 6 is nearer to 5 than to the query, and gives way to 1
select_run :
    select_neighbors env between three 2
    ≡ record { id = 5; distance = 1 } ∷ record { id = 1; distance = 3 } ∷ []
unfolding select_neighbors select_loop fill_up is_closer
select_run = refl
