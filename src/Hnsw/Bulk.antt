-- ===== src/Hnsw/Bulk.antt =====
-- `HnswIndex::insert_batch` of hnsw.rs with the feature `parallel`: the neighbors of every item are
-- searched in the graph as it is, and then the items are added in turn. An item comes with the level
-- that the code draws for it. Every result of the code is `Ok`; `none` is a panic.
use zapybase.Prelude.{
  ℕ, zero, suc, ◌+◌, ◌-◌, Option, none, some, List, [], ◌∷◌, ◌++◌, length, replicate, ltb, min,
  if◌then◌else◌,
}
use zapybase.Env.{Env, Num}
use zapybase.Storage.{InternalId}
use zapybase.Hnsw.{HnswConfig, HnswIndex, HnswNode, Candidate}
use zapybase.Hnsw.Connect.{VectorStorageTrait, ids_of, new_node, connect_back}
use zapybase.Hnsw.Insert.{approach, select_at, next_entry, raise}

module _ (env : Env) where
  -- level, id and vector
  abbrev pub Entry : Type 0
  Entry = ℕ × InternalId × List (Num env)

  -- `neighbors_by_layer`, below `count`
  unfoldable pub find_layers :
      VectorStorageTrait env
      → HnswConfig
      → List (Num env)
      → ℕ
      → InternalId
      → List HnswNode
      → Option (List (List (Candidate env)))
  find_layers storage config vector zero ep nodes = some []
  find_layers storage config vector (suc layer) ep nodes =
      elim (select_at env storage config vector layer ep nodes) [
        | none ↦ none
        | some selected ↦
            elim (find_layers storage config vector layer (next_entry env selected ep) nodes) [
              | none ↦ none
              | some below ↦ some (below ++ selected ∷ [])
            ]
      ]

  -- the search of one item, by the entry point
  unfoldable pub search_item :
      VectorStorageTrait env
      → HnswIndex env
      → Entry
      → Option InternalId
      → Option (List (List (Candidate env)))
  search_item storage index (node_level, id, vector) none = some []
  search_item storage index (node_level, id, vector) (some ep) =
      elim (approach env storage vector node_level index.max_layer ep index.nodes) [
        | none ↦ none
        | some current ↦
            elim (find_layers storage index.config vector (min node_level index.max_layer + 1)
              current index.nodes) [
                | none ↦ none
                | some found ↦ some (found ++ replicate (node_level - index.max_layer) [])
              ]
      ]

  -- phase 1
  unfoldable pub search_items :
      VectorStorageTrait env
      → HnswIndex env
      → List Entry
      → Option (List (Entry × List (List (Candidate env))))
  search_items storage index [] = some []
  search_items storage index (item ∷ items) =
      elim (search_item storage index item index.entry_point) [
        | none ↦ none
        | some found ↦ elim (search_items storage index items) [
          | none ↦ none
          | some rest ↦ some ((item, found) ∷ rest)
        ]
      ]

  -- `new_node.neighbors[layer] = ..` for the layers that were searched
  unfoldable pub assign :
      List (List (Candidate env)) → List (List InternalId) → List (List InternalId)
  assign [] neighbors = neighbors
  assign (cs ∷ found) [] = []
  assign (cs ∷ found) (ids ∷ neighbors) = ids_of env cs ∷ assign found neighbors

  -- `for neighbor in candidates`
  unfoldable pub connect_known :
      VectorStorageTrait env
      → HnswConfig
      → ℕ
      → InternalId
      → List (Candidate env)
      → List HnswNode
      → Option (List HnswNode)
  connect_known storage config layer internal_id [] nodes = some nodes
  connect_known storage config layer internal_id (c ∷ cs) nodes =
      elim (if ltb c.id (length nodes)
        then connect_back env storage config layer internal_id c.id nodes
        else some nodes) [
          | none ↦ none
          | some connected ↦ connect_known storage config layer internal_id cs connected
        ]

  -- `for (layer, candidates) in neighbors_by_layer.iter().enumerate()`
  unfoldable pub connect_found :
      VectorStorageTrait env
      → HnswConfig
      → ℕ
      → InternalId
      → List (List (Candidate env))
      → List HnswNode
      → Option (List HnswNode)
  connect_found storage config layer internal_id [] nodes = some nodes
  connect_found storage config layer internal_id (cs ∷ found) nodes =
      elim (connect_known storage config layer internal_id cs nodes) [
        | none ↦ none
        | some connected ↦ connect_found storage config (layer + 1) internal_id found connected
      ]

  -- one round of phase 2
  unfoldable pub add_item :
      VectorStorageTrait env
      → Entry
      → List (List (Candidate env))
      → HnswIndex env
      → Option (HnswIndex env)
  add_item storage (level, internal_id, vector) found index =
      let node = new_node internal_id level in
      elim index.entry_point [
        | none ↦ some (record index {
          nodes = index.nodes ++ node ∷ [];
          entry_point = some internal_id;
          max_layer = level;
        })
        | some ep ↦
            let placed =
              index.nodes ++ record node { neighbors = assign found node.neighbors } ∷ [] in
            elim (connect_found storage index.config 0 internal_id found placed) [
              | none ↦ none
              | some connected ↦
                  some (raise env internal_id level (record index { nodes = connected }))
            ]
      ]

  -- phase 2
  unfoldable pub add_items :
      VectorStorageTrait env
      → List (Entry × List (List (Candidate env)))
      → HnswIndex env
      → Option (HnswIndex env)
  add_items storage [] index = some index
  add_items storage ((item, found) ∷ rest) index = elim (add_item storage item found index) [
    | none ↦ none
    | some index' ↦ add_items storage rest index'
  ]

  unfoldable pub insert_batch :
      VectorStorageTrait env → List Entry → HnswIndex env → Option (HnswIndex env)
  insert_batch storage items index = elim (search_items storage index items) [
    | none ↦ none
    | some searched ↦ add_items storage searched index
  ]
