-- ===== src/Hnsw/Connect.antt =====
-- The writes of hnsw.rs to the graph: `HnswNode::new`, and the edges of `insert` in both directions
-- with the pruning of a list that is too long.
use zapybase.Prelude.{
  ℕ, ◌+◌, Bool, Option, none, some, List, [], ◌∷◌, ◌++◌, length, take, set, replicate, get_elem?,
  leb, ltb, eqb, if◌then◌else◌,
}
use zapybase.Env.{Env, Num, Meta}
use zapybase.Storage.{InternalId}
use zapybase.Hnsw.{HnswConfig, HnswNode, Candidate, Source, sort_by_distance}

-- `HnswNode::new`
unfoldable pub new_node : InternalId → ℕ → HnswNode
new_node id max_layer = record {
  id = id;
  max_layer = max_layer;
  neighbors = replicate (max_layer + 1) [];
}

-- `if layer == 0 { self.config.m0 } else { self.config.m }`
unfoldable pub limit : HnswConfig → ℕ → ℕ
limit config layer = if eqb layer 0 then config.m0 else config.m

-- `nodes[id].neighbors[layer] = ids`
unfoldable pub set_neighbors :
    List HnswNode → InternalId → ℕ → List InternalId → Option (List HnswNode)
set_neighbors nodes id layer ids = elim (get_elem? nodes id) [
  | none ↦ none
  | some node ↦
      if ltb layer (length node.neighbors)
      then some (set nodes id (record node { neighbors = set node.neighbors layer ids }))
      else none
]

module _ (env : Env) where
  -- `VectorStorageTrait`, for one metric
  pub record VectorStorageTrait : Type 0 where
    pub distance : InternalId → List (Num env) → Option (Num env)
    pub get_vector_data : InternalId → Option (List (Num env))
    pub is_deleted : InternalId → Bool
    pub get_metadata : InternalId → Option (Meta env)

  -- the storage, for one query
  abbrev pub source_of : VectorStorageTrait → List (Num env) → Source env
  source_of storage query = record {
    distance = λ id. storage.distance id query;
    is_deleted = storage.is_deleted;
    get_metadata = storage.get_metadata;
  }

  abbrev distance_from :
      VectorStorageTrait → InternalId → Option (List (Num env)) → Option (Num env)
  distance_from storage id none = none
  distance_from storage id (some vector) = storage.distance id vector

  -- the distance of the first from the vector of the second
  abbrev pub between : VectorStorageTrait → InternalId → InternalId → Option (Num env)
  between storage a b = distance_from storage a (storage.get_vector_data b)

  unfoldable pub ids_of : List (Candidate env) → List InternalId
  ids_of [] = []
  ids_of (c ∷ cs) = c.id ∷ ids_of cs

  -- `filter_map` over the ids, with the distance of each from the vector
  unfoldable pub with_distances :
      VectorStorageTrait → List (Num env) → List InternalId → List (Candidate env)
  with_distances storage vector [] = []
  with_distances storage vector (id ∷ ids) =
      let rest = with_distances storage vector ids in
      elim (storage.distance id vector) [
        | none ↦ rest
        | some distance ↦ record { id = id; distance = distance } ∷ rest
      ]

  -- the list of a neighbor, cut to its nearest nodes if it is too long
  unfoldable pub prune : VectorStorageTrait → ℕ → InternalId → List InternalId → List InternalId
  prune storage max_connections neighbor ids =
      if ltb max_connections (length ids)
      then elim (storage.get_vector_data neighbor) [
        | none ↦ ids
        | some nv ↦
            ids_of (take max_connections (sort_by_distance env (with_distances storage nv ids)))
      ]
      else ids

  -- the edge from a selected neighbor back to the new node
  unfoldable pub connect_back :
      VectorStorageTrait
      → HnswConfig
      → ℕ
      → InternalId
      → InternalId
      → List HnswNode
      → Option (List HnswNode)
  connect_back storage config layer internal_id neighbor nodes = elim (get_elem? nodes neighbor) [
    | none ↦ none
    | some node ↦
        if leb layer node.max_layer
        then elim (get_elem? node.neighbors layer) [
          | none ↦ none
          | some ids ↦
              set_neighbors nodes neighbor layer
                (prune storage (limit config layer) neighbor (ids ++ internal_id ∷ []))
        ]
        else some nodes
  ]

  -- `for neighbor in &selected`
  unfoldable pub connect_all :
      VectorStorageTrait
      → HnswConfig
      → ℕ
      → InternalId
      → List (Candidate env)
      → List HnswNode
      → Option (List HnswNode)
  connect_all storage config layer internal_id [] nodes = some nodes
  connect_all storage config layer internal_id (c ∷ cs) nodes =
      elim (connect_back storage config layer internal_id c.id nodes) [
        | none ↦ none
        | some connected ↦ connect_all storage config layer internal_id cs connected
      ]
