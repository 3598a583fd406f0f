-- ===== src/Hnsw/Traverse.antt =====
-- `search_layer_single`, `select_neighbors` and `search` of hnsw.rs, over the layer search of the
-- parent.
use zapybase.Prelude.{
  ℕ, zero, suc, ◌+◌, Bool, true, false, Option, none, some, List, [], ◌∷◌, length, take, max,
  if◌then◌else◌,
}
use zapybase.Error.{Result, ok, err, empty_index}
use zapybase.Env.{Env, Num}
use zapybase.Float.{is_less}
use zapybase.Metadata.Filter.{Filter}
use zapybase.Storage.{InternalId}
use zapybase.Hnsw.{
  HnswIndex, HnswNode, Candidate, Source, SearchContext, neighbors_of, or_max, search_layer,
}

module _ (env : Env) where
  open env.f32 use {partial_cmp}

  -- the variables of the loop of `search_layer_single`
  pub record Greedy : Type 0 where
    pub current : InternalId
    pub current_dist : Num env
    pub changed : Bool

  unfoldable pub closer : InternalId → Greedy → Option (Num env) → Greedy
  closer id g none = g
  closer id g (some dist) =
      if is_less (partial_cmp dist g.current_dist)
      then record { current = id; current_dist = dist; changed = true }
      else g

  -- `for &neighbor_id in &node.neighbors[layer]`
  unfoldable pub greedy_round : Source env → List InternalId → Greedy → Greedy
  greedy_round source [] g = g
  greedy_round source (id ∷ ids) g = greedy_round source ids (closer id g (source.distance id))

  unfoldable pub greedy_loop :
      ℕ → Source env → List HnswNode → ℕ → InternalId → Num env → Option InternalId
  greedy_loop zero source nodes layer current dist = none
  greedy_loop (suc fuel) source nodes layer current dist = elim (neighbors_of nodes layer current) [
    | none ↦ none
    | some ids ↦
        let g =
          greedy_round source ids
            (record { current = current; current_dist = dist; changed = false }) in
        elim g.changed [
          | true ↦ greedy_loop fuel source nodes layer g.current g.current_dist
          | false ↦ some g.current
        ]
  ]

  -- Each round finds a node that is closer than the one before.
  unfoldable pub search_layer_single :
      InternalId → ℕ → List HnswNode → Source env → Option InternalId
  search_layer_single entry layer nodes source =
      greedy_loop (length nodes + 1) source nodes layer entry (or_max env (source.distance entry))

  -- `for layer in (1..=max_layer).rev()`
  unfoldable pub descend : ℕ → InternalId → List HnswNode → Source env → Option InternalId
  descend zero entry nodes source = some entry
  descend (suc layer) entry nodes source =
      elim (search_layer_single entry (suc layer) nodes source) [
        | none ↦ none
        | some next ↦ descend layer next nodes source
      ]

  unfoldable pub ids_with_distances : List (Candidate env) → List (InternalId × Num env)
  ids_with_distances [] = []
  ids_with_distances (c ∷ cs) = (c.id, c.distance) ∷ ids_with_distances cs

  abbrev first_of : ℕ → Option (List (Candidate env)) → Option (List (InternalId × Num env))
  first_of k none = none
  first_of k (some found) = some (ids_with_distances (take k found))

  abbrev pub bitmap_for :
      Bool
      → (Filter env.serde.Number env.serde.float.Num → Option (env.roaring.Bitmap))
      → Option (Filter env.serde.Number env.serde.float.Num)
      → Option (env.roaring.Bitmap)
  bitmap_for enabled filter_bitmap none = none
  bitmap_for enabled filter_bitmap (some f) = if enabled then filter_bitmap f else none

  -- the search from an entry point, with the context for layer 0
  unfoldable pub search_from :
      SearchContext env
      → ℕ
      → ℕ
      → InternalId
      → List HnswNode
      → Source env
      → Option (List (InternalId × Num env))
  search_from ctx k max_layer entry nodes source = elim (descend max_layer entry nodes source) [
    | none ↦ none
    | some current ↦ first_of k (search_layer env ctx current nodes source)
  ]

  -- whether the bitmaps are enabled, the number of neighbors, the storage and its bitmaps, and the
  -- filter; `none` is a panic
  unfoldable pub search :
      Bool
      → ℕ
      → Source env
      → (Filter env.serde.Number env.serde.float.Num → Option (env.roaring.Bitmap))
      → Option (Filter env.serde.Number env.serde.float.Num)
      → HnswIndex env
      → Result (Option (List (InternalId × Num env)))
  search enabled k source filter_bitmap filter index = elim index.entry_point [
    | none ↦ err empty_index
    | some ep ↦
        let ctx : SearchContext env = record {
          ef = max index.config.ef_search k;
          layer = 0;
          filter = filter;
          filter_bitmap = bitmap_for enabled filter_bitmap filter;
        } in
        ok (search_from ctx k index.max_layer ep index.nodes source)
  ]
