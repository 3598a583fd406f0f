-- ===== src/Hnsw/Layer.antt =====
-- The search of one layer of the graph of hnsw.rs: it ends, and what it returns may be seen.
use zapybase.Prelude.{
  All, ℕ, zero, suc, ◌+◌, ◌≤◌, ◌<◌, ◌≡◌, refl, some, List, [], arith, length, Option-cases,
  Bool-cases, inl, inr,
}
use zapybase.Prelude.Eq.{nat_eq, contains}
use zapybase.Env.{Env}
use zapybase.Float.{is_greater}
use zapybase.Storage.{InternalId}
use zapybase.Hnsw.{
  HnswNode, Candidate, Source, SearchContext, Search, pop, nearest_first, furthest, neighbors_of,
  is_valid, visit_all, layer_loop, start, search_layer, sort_by_distance,
}
use zapybase.Hnsw.Heap.{
  Differ, pop-All, pop-length, sort_by_distance-All, sort_by_distance-length,
  sort_by_distance-Differ,
}
use zapybase.Hnsw.Visit.{unvisited, unvisited_less, IsHit, IsSearch, remaining, visit_all-IsSearch}

-- Every node of the layer has its neighbors there, and they are nodes.
pub record IsGraph (nodes : List HnswNode) (layer : ℕ) : Type 0 where
  pub closed :
      (id : InternalId)
      → id < length nodes
      → (ids : List InternalId) × (neighbors_of nodes layer id ≡ some ids)
        × All (λ j. j < length nodes) ids

module _ {env : Env} (ctx : SearchContext env) (source : Source env) (nodes : List HnswNode)
    (graph : IsGraph nodes ctx.layer) where
  abbrev n : ℕ
  n = length nodes

  pop_candidate :
      (s : Search env) (current : Candidate env) (rest : List (Candidate env))
      → pop env (nearest_first env) s.candidates ≡ some (current, rest)
      → IsSearch ctx source n s
      → (current.id < n)
        × IsSearch ctx source n (record s { candidates = rest })
        × (remaining ctx source n (record s { candidates = rest }) + 1 ≡ remaining ctx source n s)
  pop_candidate s current rest e i =
      let (inside, others) =
        pop-All env (nearest_first env) (λ c. c.id < n) s.candidates current rest e i.inside in
      (
        inside,
        record { inside = others; hits = i.hits; few = i.few; seen = i.seen; differ = i.differ },
        omega (arith, pop-length env (nearest_first env) s.candidates current rest e),
      )

  -- With fuel for the rounds that are left the loop ends, and its results are hits.
  layer_loop-IsSearch :
      (fuel : ℕ) (s : Search env)
      → remaining ctx source n s < fuel
      → IsSearch ctx source n s
      → (s' : Search env) × (layer_loop env fuel ctx source nodes s ≡ some s')
        × IsSearch ctx source n s'
  unfolding layer_loop
  layer_loop-IsSearch zero s h i = absurd (omega arith)
  layer_loop-IsSearch (suc fuel) s h i =
      elim (Option-cases (pop env (nearest_first env) s.candidates)) [
        | inl e ↦ (s, rw (e, layer_loop) refl, i)
        | inr ((current, rest), e) ↦
            let s' : Search env = record s { candidates = rest } in
            let (inside, i', less) = pop_candidate s current rest e i in
            let (ids, at, ids_in) = graph.closed current.id inside in
            let far = is_greater (env.f32.partial_cmp current.distance (furthest env s.results)) in
            elim (Bool-cases far) [
              | inl stop ↦ (s', rw (e, stop, layer_loop) refl, i')
              | inr go_on ↦
                  let (i'', less') = visit_all-IsSearch ctx source n ids s' ids_in i' in
                  let (s'', done, i3) =
                    layer_loop-IsSearch fuel (visit_all env ctx source ids s')
                      (omega (arith, less, less')) i'' in
                  (s'', rw (e, go_on, at, layer_loop) done, i3)
            ]
      ]

  all_unvisited : (m : ℕ) → unvisited m [] ≡ m
  unfolding unvisited contains
  all_unvisited zero = refl
  all_unvisited (suc m) = ground (arith, all_unvisited m)

  start-IsSearch :
      (entry : InternalId)
      → entry < n
      → 1 ≤ ctx.ef
      → IsSearch ctx source n (start env ctx source entry)
        × (remaining ctx source n (start env ctx source entry) ≡ n)
  unfolding start contains
  start-IsSearch entry h ef =
      let less = unvisited_less n entry [] h refl in
      elim (Bool-cases (is_valid env ctx source entry)) [
        | inl valid ↦ rw valid (
          record {
            inside = (h, tt);
            hits = ((h, valid, refl), tt);
            few = ef;
            seen = (ground arith, tt);
            differ = (tt, tt);
          },
          omega (arith, less, all_unvisited n),
        )
        | inr hidden ↦ rw hidden (
          record { inside = (h, tt); hits = tt; few = omega arith; seen = tt; differ = tt },
          omega (arith, less, all_unvisited n),
        )
      ]

  -- From a node of a graph whose neighbor lists are in range, the search of a layer ends without a
  -- panic, within one round for each node; it returns at most `ef` candidates with different ids,
  -- each a node, not deleted, selected by the filter, and at its distance from the query.
  pub search_layer-IsHit :
      (entry : InternalId)
      → entry < length nodes
      → 1 ≤ ctx.ef
      → (found : List (Candidate env)) × (search_layer env ctx entry nodes source ≡ some found)
        × All (IsHit ctx source n) found
        × (length found ≤ ctx.ef)
        × Differ env found
  unfolding search_layer
  search_layer-IsHit entry h ef =
      let (i, left) = start-IsSearch entry h ef in
      let (s, done, i') =
        layer_loop-IsSearch (n + 1) (start env ctx source entry) (omega (arith, left)) i in
      (
        sort_by_distance env s.results,
        rw done refl,
        sort_by_distance-All env (IsHit ctx source n) s.results i'.hits,
        omega (arith, sort_by_distance-length env s.results, i'.few),
        sort_by_distance-Differ env s.results i'.differ,
      )
