-- ===== src/Hnsw/Hits.antt =====
-- The whole search of hnsw.rs: what a caller gets.
use zapybase.Prelude.{
  All, ℕ, zero, suc, ◌≤◌, ◌<◌, ◌≡◌, refl, Bool, false, Option, some, List, [], ◌∷◌, arith, length,
  length-take, take, take-All, max, eqb,
}
use zapybase.Error.{ok}
use zapybase.Env.{Env}
use zapybase.Metadata.Filter.{Filter}
use zapybase.Storage.{InternalId}
use zapybase.Hnsw.{HnswIndex, HnswNode, Candidate, Source, SearchContext}
use zapybase.Hnsw.Heap.{Differ}
use zapybase.Hnsw.Visit.{IsHit}
use zapybase.Hnsw.Layer.{IsGraph, search_layer-IsHit}
use zapybase.Hnsw.Greedy.{IsStrict, search_layer_single-IsLocal}
use zapybase.Hnsw.Traverse.{descend, ids_with_distances, search_from, search, bitmap_for}

module _ {env : Env} (strict : IsStrict env) (source : Source env) where
  descend-in_range :
      (layer : ℕ) (entry : InternalId) (nodes : List HnswNode)
      → ((l : ℕ) → IsGraph nodes l)
      → entry < length nodes
      → (id : InternalId) × (descend env layer entry nodes source ≡ some id) × (id < length nodes)
  unfolding descend
  descend-in_range zero entry nodes graph h = (entry, refl, h)
  descend-in_range (suc layer) entry nodes graph h =
      let (next, done, local) =
        search_layer_single-IsLocal strict source nodes (suc layer) (graph (suc layer)) entry h in
      let (id, done', h') = descend-in_range layer next nodes graph local.0 in
      (id, rw (done, descend) done', h')

  take-Differ : (k : ℕ) (cs : List (Candidate env)) → Differ env cs → Differ env (take k cs)
  take-Differ zero cs d = tt
  take-Differ (suc k) [] d = tt
  take-Differ (suc k) (c ∷ cs) (new, d) =
      (take-All (λ d. eqb d.id c.id ≡ false) k cs new, take-Differ k cs d)

  -- a search over an index: the entry point and every neighbor is a node
  pub record IsIndex (index : HnswIndex env) : Type 0 where
    pub entry : InternalId
    pub entered : index.entry_point ≡ some entry
    pub inside : entry < length index.nodes
    pub graph : (layer : ℕ) → IsGraph index.nodes layer

  -- A search of an index whose entry point and neighbor lists are in range ends without a panic and
  -- without an error. It returns at most `k` pairs, of different ids, and each is of a node that is
  -- not deleted and that the filter (or its bitmap) selects, with its distance from the query.
  pub search-IsHit :
      (enabled : Bool) (k : ℕ)
      (filter_bitmap : Filter env.serde.Number env.serde.float.Num → Option (env.roaring.Bitmap))
      (filter : Option (Filter env.serde.Number env.serde.float.Num)) (index : HnswIndex env)
      → IsIndex index
      → 1 ≤ index.config.ef_search
      → let ctx : SearchContext env = record {
        ef = max index.config.ef_search k;
        layer = 0;
        filter = filter;
        filter_bitmap = bitmap_for env enabled filter_bitmap filter;
      } in
        (found : List (Candidate env)) × (search env enabled k source filter_bitmap filter index
          ≡ ok (some (ids_with_distances env found)))
        × (length found ≤ k)
        × All (IsHit ctx source (length index.nodes)) found
        × Differ env found
  unfolding search search_from
  search-IsHit enabled k filter_bitmap filter index i ef =
      let ctx : SearchContext env = record {
        ef = max index.config.ef_search k;
        layer = 0;
        filter = filter;
        filter_bitmap = bitmap_for env enabled filter_bitmap filter;
      } in
      let (start, done, h) =
        descend-in_range index.max_layer i.entry index.nodes i.graph i.inside in
      let (found, done', hits, few, differ) =
        search_layer-IsHit ctx source index.nodes (i.graph 0) start h (omega (arith, ef)) in
      (
        take k found,
        rw (i.entered, search) (rw (done, search_from) (rw done' refl)),
        omega (arith, length-take k found),
        take-All (IsHit ctx source (length index.nodes)) k found hits,
        take-Differ k found differ,
      )
