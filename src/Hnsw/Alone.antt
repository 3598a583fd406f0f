-- ===== src/Hnsw/Alone.antt =====
-- A search of hnsw.rs in a graph without an edge.
use zapybase.Prelude.{
  All, ℕ, zero, suc, ◌+◌, ◌≤◌, ◌≡◌, refl, ap, subst, Bool, Option, some, List, [], ◌∷◌, arith,
  length, get_elem?, leb, Bool-cases, Option-cases, inl, inr, max, take, length-take,
}
use zapybase.Error.{ok}
use zapybase.Env.{Env, Num}
use zapybase.Float.{is_greater}
use zapybase.Metadata.Filter.{Filter}
use zapybase.Storage.{InternalId}
use zapybase.Hnsw.{
  HnswConfig, HnswIndex, HnswNode, Candidate, Source, SearchContext, Search, pop, furthest,
  layer_neighbors, neighbors_of, is_valid, visit_all, layer_loop, start, search_layer,
  sort_by_distance, or_max,
}
use zapybase.Hnsw.Heap.{sort_by_distance-length}
use zapybase.Hnsw.Traverse.{descend, ids_with_distances, search_from, search, bitmap_for}
use zapybase.Hnsw.Connect.{VectorStorageTrait}
use zapybase.Hnsw.Insert.{new}
use zapybase.Hnsw.Bulk.{Entry, insert_batch}
use zapybase.Hnsw.Isolated.{IsIsolated, insert_batch-IsIsolated}

list_at :
    (lists : List (List InternalId)) (layer : ℕ) (ids : List InternalId)
    → All (λ l. l ≡ []) lists
    → get_elem? lists layer ≡ some ids
    → ids ≡ []
list_at [] layer ids a at = cc
list_at (l ∷ lists) zero ids (e, a) at = ground (arith, e, at)
list_at (l ∷ lists) (suc layer) ids (e, a) at = list_at lists layer ids a at

node_at :
    (nodes : List HnswNode) (id : InternalId) (node : HnswNode)
    → All IsIsolated nodes
    → get_elem? nodes id ≡ some node
    → IsIsolated node
node_at [] id node a at = cc
node_at (n ∷ nodes) zero node (h, a) at = let e : n ≡ node = ground (arith, at) in rw (← e) h
node_at (n ∷ nodes) (suc id) node (h, a) at = node_at nodes id node a at

neighbors_of-isolated :
    (nodes : List HnswNode) (layer : ℕ) (id : InternalId) (ids : List InternalId)
    → All IsIsolated nodes
    → neighbors_of nodes layer id ≡ some ids
    → ids ≡ []
unfolding neighbors_of layer_neighbors
neighbors_of-isolated nodes layer id ids a h = elim (Option-cases (get_elem? nodes id)) [
  | inl e ↦ ground (arith, e, h)
  | inr (node, e) ↦
      let alone = node_at nodes id node a e in
      elim (Bool-cases (leb layer node.max_layer)) [
        | inr above ↦ ground (arith, e, above, h)
        | inl inside ↦
            let at : get_elem? node.neighbors layer ≡ some ids = ground (arith, e, inside, h) in
            list_at node.neighbors layer ids alone at
      ]
]

module _ {env : Env} (ctx : SearchContext env) (source : Source env) (nodes : List HnswNode)
    (alone : All IsIsolated nodes) where
  loop_without :
      (fuel : ℕ) (visited : List InternalId) (results : List (Candidate env)) (s' : Search env)
      → layer_loop env fuel ctx source nodes
          (record { visited = visited; candidates = []; results = results })
        ≡ some s'
      → s'.results ≡ results
  unfolding layer_loop pop
  loop_without zero visited results s' h = cc
  loop_without (suc fuel) visited results s' h = ground (arith, h)

  loop_with_one :
      (fuel : ℕ) (visited : List InternalId) (c : Candidate env) (results : List (Candidate env))
      (s' : Search env)
      → layer_loop env fuel ctx source nodes
          (record { visited = visited; candidates = c ∷ []; results = results })
        ≡ some s'
      → s'.results ≡ results
  unfolding layer_loop pop visit_all
  loop_with_one zero visited c results s' h = cc
  loop_with_one (suc fuel) visited c results s' h =
      let far = is_greater (env.f32.partial_cmp c.distance (furthest env results)) in
      elim (Bool-cases far) [
        | inl stop ↦ ground (arith, h, stop)
        | inr go_on ↦ elim (Option-cases (neighbors_of nodes ctx.layer c.id)) [
          | inl e ↦ ground (arith, h, go_on, e)
          | inr (ids, e) ↦
              let empty = neighbors_of-isolated nodes ctx.layer c.id ids alone e in
              loop_without fuel visited results s' (ground (arith, h, go_on, e, empty))
        ]
      ]

  abbrev first_of : InternalId → Candidate env
  first_of entry = record { id = entry; distance = or_max env (source.distance entry) }

  few : (entry : InternalId) → length (start env ctx source entry).results ≤ 1
  unfolding start
  few entry = elim (Bool-cases (is_valid env ctx source entry)) [
    | inl valid ↦ rw valid (omega arith)
    | inr hidden ↦ rw hidden (omega arith)
  ]

  search_layer-alone :
      (entry : InternalId) (found : List (Candidate env))
      → search_layer env ctx entry nodes source ≡ some found
      → length found ≤ 1
  unfolding search_layer start
  search_layer-alone entry found h =
      let first = start env ctx source entry in
      elim (Option-cases (layer_loop env (length nodes + 1) ctx source nodes first)) [
        | inl e ↦ ground (arith, h, e)
        | inr (s', e) ↦
            let same =
              loop_with_one (length nodes + 1) first.visited (first_of entry) first.results s' e in
            let is : sort_by_distance env s'.results ≡ found = ground (arith, h, e) in
            let len = sort_by_distance-length env s'.results in
            rw (← is) (omega (arith, len, ap length same, few entry))
      ]

module _ {env : Env} where
  length-ids_with_distances :
      (cs : List (Candidate env)) → length (ids_with_distances env cs) ≡ length cs
  unfolding ids_with_distances
  length-ids_with_distances [] = refl
  length-ids_with_distances (c ∷ cs) = omega (arith, length-ids_with_distances cs)

  -- However many nodes it has and however many are asked for, a search of an index whose nodes have
  -- no neighbors returns at most one of them.
  search-alone :
      (enabled : Bool) (k : ℕ) (source : Source env)
      (filter_bitmap : Filter env.serde.Number env.serde.float.Num → Option (env.roaring.Bitmap))
      (filter : Option (Filter env.serde.Number env.serde.float.Num)) (index : HnswIndex env)
      (found : List (InternalId × Num env))
      → All IsIsolated index.nodes
      → search env enabled k source filter_bitmap filter index ≡ ok (some found)
      → length found ≤ 1
  unfolding search search_from
  search-alone enabled k source filter_bitmap filter index found alone h =
      elim (Option-cases index.entry_point) [
        | inl e ↦ ground (arith, h, e)
        | inr (ep, e) ↦
            let ctx : SearchContext env = record {
              ef = max index.config.ef_search k;
              layer = 0;
              filter = filter;
              filter_bitmap = bitmap_for env enabled filter_bitmap filter;
            } in
            elim (Option-cases (descend env index.max_layer ep index.nodes source)) [
              | inl lost ↦ ground (arith, h, e, lost)
              | inr (current, at) ↦
                  elim (Option-cases (search_layer env ctx current index.nodes source)) [
                    | inl lost ↦ ground (arith, h, e, at, lost)
                    | inr (cs, at') ↦
                        let is : ids_with_distances env (take k cs) ≡ found =
                          ground (arith, h, e, at, at') in
                        let one = search_layer-alone ctx source index.nodes alone current cs at' in
                        rw (← is) (
                          omega
                            (arith, length-ids_with_distances (take k cs), length-take k cs, one))
                  ]
            ]
      ]

module _ {env : Env} (storage : VectorStorageTrait env) where
  -- After a batch into a new index, every search that returns results returns at most one, however
  -- many items the batch had and however many neighbors are asked for.
  pub insert_batch-search :
      (config : HnswConfig) (items : List (Entry env)) (index : HnswIndex env)
      → insert_batch env storage items (new env config) ≡ some index
      → (enabled : Bool) (k : ℕ) (source : Source env)
        (filter_bitmap : Filter env.serde.Number env.serde.float.Num → Option (env.roaring.Bitmap))
        (filter : Option (Filter env.serde.Number env.serde.float.Num))
        (found : List (InternalId × Num env))
      → search env enabled k source filter_bitmap filter index ≡ ok (some found)
      → length found ≤ 1
  insert_batch-search config items index built enabled k source filter_bitmap filter found h =
      let (out, done, isolated, count) = insert_batch-IsIsolated storage config items in
      let same : out ≡ index = ground (arith, done, built) in
      search-alone enabled k source filter_bitmap filter index found
        (subst (λ i. All IsIsolated i.nodes) same isolated) h
