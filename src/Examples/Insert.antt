-- ===== src/Examples/Insert.antt =====
-- Insertions of hnsw.rs into the graph of two nodes, and a batch into a new index.
use zapybase.Prelude.{
  All, ℕ, zero, suc, ◌+◌, ◌-◌, ◌≤◌, ◌<◌, ◌≡◌, refl, true, Option, none, some, List, [], ◌∷◌, arith,
  length, max, min, eqb, inl, inr,
}
use zapybase.Error.{ok}
use zapybase.Storage.{InternalId}
use zapybase.Hnsw.{
  HnswIndex, HnswNode, search_layer, layer_loop, start, pop, is_valid, matches_filter,
  nearest_first, furthest, furthest_first, neighbors_of, layer_neighbors, visit_all, visit,
  consider, push_result, sort_by_distance, insert_by_distance,
}
use zapybase.Hnsw.Traverse.{search, search_from, descend, ids_with_distances}
use zapybase.Hnsw.Connect.{VectorStorageTrait, source_of, limit, new_node, set_neighbors}
use zapybase.Hnsw.Insert.{new, insert, raise, approach, connect_layers, select_at, connect}
use zapybase.Hnsw.Bulk.{
  Entry, insert_batch, search_items, search_item, add_items, add_item, assign, connect_found,
}
use zapybase.Hnsw.Sound.{IsNode}
use zapybase.Hnsw.Edges.{HasVectors}
use zapybase.Hnsw.Grows.{IsSound, insert-IsSound}
use zapybase.Hnsw.GrowsMany.{insert_batch-IsSound}
use zapybase.Hnsw.Isolated.{IsIsolated, insert_batch-IsIsolated}
use zapybase.Hnsw.Alone.{insert_batch-search}
use zapybase.Prelude.Eq.{nat_eq, contains}
use zapybase.Examples.{env}
use zapybase.Examples.Hnsw.{env-IsStrict, index, nodes}

-- vectors of one component on a line
abbrev distance_to : InternalId → List ℕ → Option ℕ
distance_to id [] = some 0
distance_to id (x ∷ xs) = some (max id x - min id x)

abbrev pub line : VectorStorageTrait env
line = record {
  distance = distance_to;
  get_vector_data = λ id. some (id ∷ []);
  is_deleted = λ id. eqb id 1;
  get_metadata = λ id. none;
}

line-HasVectors : (n : ℕ) → HasVectors line n
line-HasVectors n = record { vector_of = λ id h. (id ∷ [], refl) }

lists :
    (id : InternalId)
    → id < 2
    → (layer : ℕ) (ids : List InternalId)
    → zapybase.Prelude.get_elem? ((id ∷ []) ∷ []) layer ≡ some ids
    → All (λ j. j < 2) ids × (length ids ≤ limit index.config layer)
unfolding limit
lists id h zero ids at =
    let e : id ∷ [] ≡ ids = ground (arith, at) in rw (← e) ((h, tt), omega arith)
lists id h (suc layer) ids at = cc

nodes-IsNodes :
    (i : ℕ) (node : HnswNode)
    → zapybase.Prelude.get_elem? nodes i ≡ some node
    → IsNode index.config 2 node
nodes-IsNodes zero node at =
    let e : record { id = 0; max_layer = 0; neighbors = (1 ∷ []) ∷ [] } ≡ node =
      ground (arith, at) in
    rw (← e) (record { sized = refl; listed = lists 1 (omega arith) })
nodes-IsNodes (suc zero) node at =
    let e : record { id = 1; max_layer = 0; neighbors = (0 ∷ []) ∷ [] } ≡ node =
      ground (arith, at) in
    rw (← e) (record { sized = refl; listed = lists 0 (omega arith) })
nodes-IsNodes (suc (suc i)) node at = cc

index-IsSound : IsSound index
index-IsSound = record {
  nodes = record { each = nodes-IsNodes };
  entry = inr (0, refl, refl);
  below = (omega arith, (omega arith, tt));
}

insert-IsSound_example :
    (index' : HnswIndex env) × (insert env 1 line 2 (2 ∷ []) index ≡ some index')
    × IsSound index'
    × (length index'.nodes ≡ 3)
    × (index'.config ≡ index.config)
insert-IsSound_example =
    insert-IsSound 1 line (2 ∷ []) index env-IsStrict (line-HasVectors 3) (omega arith)
      index-IsSound

abbrev batch : List (Entry env)
batch = (1, 2, 2 ∷ []) ∷ (0, 3, 3 ∷ []) ∷ []

insert_batch-IsSound_example :
    (index' : HnswIndex env) × (insert_batch env line batch index ≡ some index')
    × IsSound index'
    × (length index'.nodes ≡ 4)
    × (index'.config ≡ index.config)
insert_batch-IsSound_example =
    insert_batch-IsSound line batch index env-IsStrict (refl, (refl, tt)) (line-HasVectors 4)
      (omega arith) index-IsSound

abbrev two : List (Entry env)
two = (0, 0, 0 ∷ []) ∷ (0, 1, 5 ∷ []) ∷ []

insert_batch-IsIsolated_example :
    (out : HnswIndex env) × (insert_batch env line two (new env index.config) ≡ some out)
    × All IsIsolated out.nodes
    × (length out.nodes ≡ 2)
insert_batch-IsIsolated_example = insert_batch-IsIsolated line index.config two

-- what the batch leaves
abbrev apart : HnswIndex env
apart = record {
  config = index.config;
  nodes =
      record { id = 0; max_layer = 0; neighbors = [] ∷ [] }
      ∷ record { id = 1; max_layer = 0; neighbors = [] ∷ [] }
      ∷ [];
  entry_point = some 0;
  max_layer = 0;
}

batch_run : insert_batch env line two (new env index.config) ≡ some apart
unfolding insert_batch new search_items search_item add_items add_item assign connect_found raise
    new_node
batch_run = refl

alone_run :
    search env true 2 (source_of env line (0 ∷ [])) (λ f. none) none apart ≡ ok (some ((0, 0) ∷ []))
unfolding search search_from descend search_layer layer_loop start pop is_valid matches_filter
    nearest_first furthest furthest_first neighbors_of layer_neighbors visit_all visit consider
    push_result sort_by_distance insert_by_distance ids_with_distances contains
alone_run = refl

abbrev results : List (InternalId × ℕ)
results = (0, 0) ∷ []

insert_batch-search_example : length results ≤ 1
insert_batch-search_example =
    insert_batch-search line index.config two apart batch_run true 2 (source_of env line (0 ∷ []))
      (λ f. none) none results alone_run

-- an index with more nodes than the storage has slots, as a deletion and a checkpoint leave it
abbrev stale : HnswIndex env
stale = record index {
  nodes =
      record { id = 0; max_layer = 1; neighbors = [] ∷ [] ∷ [] } ∷ new_node 1 0 ∷ new_node 2 0 ∷ [];
  entry_point = some 0;
  max_layer = 1;
}

-- the next slot, 2, at layer 1: a panic, since the node at position 2 is an older one of one layer
stale_insert : insert env 1 line 2 (2 ∷ []) stale ≡ none
unfolding insert new_node approach connect_layers select_at search_layer layer_loop pop start
    furthest is_valid matches_filter neighbors_of layer_neighbors visit_all connect set_neighbors
stale_insert = refl
