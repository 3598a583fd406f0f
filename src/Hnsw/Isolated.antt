-- ===== src/Hnsw/Isolated.antt =====
-- What `insert_batch` of hnsw.rs makes of an index without a node.
use zapybase.Prelude.{
  All, All-append_one, ℕ, zero, suc, ◌+◌, ◌≡◌, refl, ap, none, some, List, [], ◌∷◌, ◌++◌, arith,
  length, length-append, map, replicate, ltb, Bool-cases, Option-cases, inl, inr,
}
use zapybase.Env.{Env}
use zapybase.Storage.{InternalId}
use zapybase.Hnsw.{HnswConfig, HnswIndex, HnswNode, Candidate}
use zapybase.Hnsw.Connect.{VectorStorageTrait, new_node}
use zapybase.Hnsw.Insert.{new, raise}
use zapybase.Hnsw.Bulk.{
  Entry, search_item, search_items, assign, connect_found, add_item, add_items, insert_batch,
}

-- no node has a neighbor, at any layer
abbrev pub IsIsolated : HnswNode → Type 0
IsIsolated node = All (λ ids. ids ≡ []) node.neighbors

all_empty : (m : ℕ) → All (λ (ids : List InternalId). ids ≡ []) (replicate m [])
all_empty zero = tt
all_empty (suc m) = (refl, all_empty m)

module _ {env : Env} (storage : VectorStorageTrait env) where
  -- what was searched in an index without an entry point
  abbrev unsearched : List (Entry env) → List (Entry env × List (List (Candidate env)))
  unsearched items = map (λ item. (item, [])) items

  search_items-unsearched :
      (index : HnswIndex env) (items : List (Entry env))
      → index.entry_point ≡ none
      → search_items env storage index items ≡ some (unsearched items)
  unfolding search_items search_item
  search_items-unsearched index [] e = refl
  search_items-unsearched index (item ∷ items) e =
      rw (e, search_items) (rw (search_items-unsearched index items e) refl)

  add_item-IsIsolated :
      (item : Entry env) (index : HnswIndex env)
      → All IsIsolated index.nodes
      → (index' : HnswIndex env) × (add_item env storage item [] index ≡ some index')
        × All IsIsolated index'.nodes
        × (length index'.nodes ≡ length index.nodes + 1)
  unfolding add_item new_node connect_found assign raise
  add_item-IsIsolated (level, id, vector) index a =
      let node = new_node id level in
      let more = All-append_one IsIsolated index.nodes node a (all_empty (level + 1)) in
      let len : length (index.nodes ++ node ∷ []) ≡ length index.nodes + 1 =
        omega (arith, length-append index.nodes (node ∷ [])) in
      elim (Option-cases index.entry_point) [
        | inl e ↦ (
          record index {
            nodes = index.nodes ++ node ∷ [];
            entry_point = some id;
            max_layer = level;
          },
          rw (e, add_item) refl,
          more,
          len,
        )
        | inr (ep, e) ↦
            let index' : HnswIndex env = record index { nodes = index.nodes ++ node ∷ [] } in
            elim (Bool-cases (ltb index.max_layer level)) [
              | inl higher ↦ (
                record index' { entry_point = some id; max_layer = level },
                rw (e, add_item) (rw higher refl),
                more,
                len,
              )
              | inr lower ↦ (
                index',
                rw (e, add_item) (rw lower (ap (λ o. some (record index' { entry_point = o })) e)),
                more,
                len,
              )
            ]
      ]

  add_items-IsIsolated :
      (items : List (Entry env)) (index : HnswIndex env)
      → All IsIsolated index.nodes
      → (index' : HnswIndex env) × (add_items env storage (unsearched items) index ≡ some index')
        × All IsIsolated index'.nodes
        × (length index'.nodes ≡ length index.nodes + length items)
  unfolding add_items
  add_items-IsIsolated [] index a = (index, refl, a, omega arith)
  add_items-IsIsolated (item ∷ items) index a =
      let (next, done, a', len) = add_item-IsIsolated item index a in
      let (out, done', a'', len') = add_items-IsIsolated items next a' in
      (out, rw (done, add_items) done', a'', omega (arith, len, len'))

  -- A batch that is inserted into a new index goes through and adds a node for each item, and no node
  -- has a neighbor at any layer: the items are not joined to each other.
  pub insert_batch-IsIsolated :
      (config : HnswConfig) (items : List (Entry env))
      → (index : HnswIndex env) × (insert_batch env storage items (new env config) ≡ some index)
        × All IsIsolated index.nodes
        × (length index.nodes ≡ length items)
  unfolding insert_batch new
  insert_batch-IsIsolated config items =
      let (index, done, a, len) = add_items-IsIsolated items (new env config) tt in
      (
        index,
        rw (search_items-unsearched (new env config) items refl, insert_batch) done,
        a,
        omega (arith, len),
      )
