-- ===== src/Hnsw/Insert.antt =====
-- `HnswIndex::insert` of hnsw.rs. The level of the new node, which the code draws at random, is an
-- argument. Every result of the code is `Ok`; `none` is a panic at an index out of range.
use zapybase.Prelude.{
  ℕ, zero, suc, ◌+◌, true, false, Option, none, some, List, [], ◌∷◌, ◌++◌, leb, ltb, min,
  if◌then◌else◌,
}
use zapybase.Env.{Env, Num}
use zapybase.Storage.{InternalId}
use zapybase.Hnsw.{HnswConfig, HnswIndex, HnswNode, Candidate, SearchContext, search_layer}
use zapybase.Hnsw.Traverse.{search_layer_single}
use zapybase.Hnsw.Select.{select_neighbors}
use zapybase.Hnsw.Connect.{
  VectorStorageTrait, source_of, between, ids_of, new_node, limit, set_neighbors, connect_all,
}

module _ (env : Env) where
  -- `HnswIndex::new`
  unfoldable pub new : HnswConfig → HnswIndex env
  new config = record { config = config; nodes = []; entry_point = none; max_layer = 0 }

  -- `for layer in (node_level + 1..=current_max_layer).rev()`
  unfoldable pub approach :
      VectorStorageTrait env
      → List (Num env)
      → ℕ
      → ℕ
      → InternalId
      → List HnswNode
      → Option InternalId
  approach storage vector node_level zero ep nodes = some ep
  approach storage vector node_level (suc layer) ep nodes = elim (leb (suc layer) node_level) [
    | true ↦ some ep
    | false ↦ elim (search_layer_single env ep (suc layer) nodes (source_of env storage vector)) [
      | none ↦ none
      | some next ↦ approach storage vector node_level layer next nodes
    ]
  ]

  abbrev pub construction : HnswConfig → ℕ → SearchContext env
  construction config layer = record {
    ef = config.ef_construction;
    layer = layer;
    filter = none;
    filter_bitmap = none;
  }

  -- the neighbors that a layer gives the new node
  unfoldable pub select_at :
      VectorStorageTrait env
      → HnswConfig
      → List (Num env)
      → ℕ
      → InternalId
      → List HnswNode
      → Option (List (Candidate env))
  select_at storage config vector layer ep nodes =
      elim (search_layer env (construction config layer) ep nodes (source_of env storage vector)) [
        | none ↦ none
        | some neighbors ↦
            some (select_neighbors env (between env storage) neighbors (limit config layer))
      ]

  -- `if !selected.is_empty() { current_ep = selected[0].id; }`
  unfoldable pub next_entry : List (Candidate env) → InternalId → InternalId
  next_entry [] ep = ep
  next_entry (c ∷ cs) ep = c.id

  -- the edges of the new node at a layer, and those back to it
  unfoldable pub connect :
      VectorStorageTrait env
      → HnswConfig
      → ℕ
      → InternalId
      → List (Candidate env)
      → List HnswNode
      → Option (List HnswNode)
  connect storage config layer internal_id selected nodes =
      elim (set_neighbors nodes internal_id layer (ids_of env selected)) [
        | none ↦ none
        | some assigned ↦ connect_all env storage config layer internal_id selected assigned
      ]

  -- `for layer in (0..=start_layer).rev()`, over the number of layers
  unfoldable pub connect_layers :
      VectorStorageTrait env
      → HnswConfig
      → List (Num env)
      → InternalId
      → ℕ
      → InternalId
      → List HnswNode
      → Option (List HnswNode)
  connect_layers storage config vector internal_id zero ep nodes = some nodes
  connect_layers storage config vector internal_id (suc layer) ep nodes =
      elim (select_at storage config vector layer ep nodes) [
        | none ↦ none
        | some selected ↦ elim (connect storage config layer internal_id selected nodes) [
          | none ↦ none
          | some connected ↦
              connect_layers storage config vector internal_id layer (next_entry selected ep)
                connected
        ]
      ]

  -- the entry point and the top layer, after a node of this level was added
  unfoldable pub raise : InternalId → ℕ → HnswIndex env → HnswIndex env
  raise internal_id node_level index =
      if ltb index.max_layer node_level
      then record index { entry_point = some internal_id; max_layer = node_level }
      else index

  unfoldable pub insert :
      ℕ
      → VectorStorageTrait env
      → InternalId
      → List (Num env)
      → HnswIndex env
      → Option (HnswIndex env)
  insert node_level storage internal_id vector index =
      let nodes = index.nodes ++ new_node internal_id node_level ∷ [] in
      elim index.entry_point [
        | none ↦
            some (record index {
              nodes = nodes;
              entry_point = some internal_id;
              max_layer = node_level;
            })
        | some ep ↦ elim (approach storage vector node_level index.max_layer ep nodes) [
          | none ↦ none
          | some current ↦
              elim (connect_layers storage index.config vector internal_id
                (min node_level index.max_layer + 1) current nodes) [
                  | none ↦ none
                  | some connected ↦
                      some (raise internal_id node_level (record index { nodes = connected }))
                ]
        ]
      ]
