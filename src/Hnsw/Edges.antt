-- ===== src/Hnsw/Edges.antt =====
-- The edges that hnsw.rs writes: each write goes through, and keeps the graph sound.
use zapybase.Prelude.{
  All, ℕ, ◌≤◌, ◌<◌, ◌≡◌, refl, ap, ◌∙◌, Option, some, List, [], ◌∷◌, ◌++◌, arith, length,
  length-take, take-All, All-append_one, take, leb, ltb, ltb→le, leb→le, Bool-cases, Option-cases,
  inl, inr,
}
use zapybase.Prelude.Slices.{get_elem?_of_lt}
use zapybase.Env.{Env, Num}
use zapybase.Storage.{InternalId}
use zapybase.Hnsw.{HnswConfig, HnswNode, Candidate, sort_by_distance}
use zapybase.Hnsw.Heap.{sort_by_distance-All}
use zapybase.Hnsw.Connect.{
  VectorStorageTrait, ids_of, with_distances, prune, limit, connect_back, connect_all,
}
use zapybase.Hnsw.Sound.{IsNodes, levels, length-levels, set_neighbors-IsNodes}

module _ {env : Env} where
  -- every node has its vector in the storage
  pub record HasVectors (storage : VectorStorageTrait env) (n : ℕ) : Type 0 where
    pub vector_of :
        (id : InternalId)
        → id < n
        → (vector : List (Num env)) × (storage.get_vector_data id ≡ some vector)

  abbrev pub InRange : ℕ → List (Candidate env) → Type 0
  InRange n cs = All (λ c. c.id < n) cs

  pub ids_of-All :
      (n : ℕ) (cs : List (Candidate env)) → InRange n cs → All (λ j. j < n) (ids_of env cs)
  unfolding ids_of
  ids_of-All n [] a = tt
  ids_of-All n (c ∷ cs) (h, a) = (h, ids_of-All n cs a)

  pub length-ids_of : (cs : List (Candidate env)) → length (ids_of env cs) ≡ length cs
  unfolding ids_of
  length-ids_of [] = refl
  length-ids_of (c ∷ cs) = omega (arith, length-ids_of cs)

  module _ (storage : VectorStorageTrait env) (config : HnswConfig) (n : ℕ)
      (vectors : HasVectors storage n) where
    with_distances-InRange :
        (vector : List (Num env)) (ids : List InternalId)
        → All (λ j. j < n) ids
        → InRange n (with_distances env storage vector ids)
    unfolding with_distances
    with_distances-InRange vector [] a = tt
    with_distances-InRange vector (id ∷ ids) (h, a) =
        elim (Option-cases (storage.distance id vector)) [
          | inl e ↦ rw (e, with_distances) (with_distances-InRange vector ids a)
          | inr (d, e) ↦ rw (e, with_distances) (h, with_distances-InRange vector ids a)
        ]

    -- A pruned list is within the limit, whether it had to be cut or not.
    prune-limit :
        (max_connections : ℕ) (neighbor : InternalId) (ids : List InternalId)
        → neighbor < n
        → All (λ j. j < n) ids
        → let pruned = prune env storage max_connections neighbor ids in
          All (λ j. j < n) pruned × (length pruned ≤ max_connections)
    unfolding prune
    prune-limit most neighbor ids h a = elim (Bool-cases (ltb most (length ids))) [
      | inr fits ↦ rw fits (a, ltb→le most (length ids) fits)
      | inl long ↦
          let (vector, e) = vectors.vector_of neighbor h in
          let sorted = sort_by_distance env (with_distances env storage vector ids) in
          let inside =
            take-All (λ c. c.id < n) most sorted
              (sort_by_distance-All env (λ c. c.id < n) (with_distances env storage vector ids)
                (with_distances-InRange vector ids a)) in
          let len = length-ids_of (take most sorted) in
          rw long (
            rw e
              (ids_of-All n (take most sorted) inside, omega (arith, len, length-take most sorted)))
    ]

    -- what a write of edges to the nodes gives
    abbrev pub Written : Option (List HnswNode) → List HnswNode → Type 0
    Written outcome nodes =
        (nodes' : List HnswNode) × (outcome ≡ some nodes')
        × IsNodes config n nodes'
        × (levels nodes' ≡ levels nodes)

    pub connect_back-Written :
        (layer : ℕ) (internal_id neighbor : InternalId) (nodes : List HnswNode)
        → length nodes ≡ n
        → internal_id < n
        → neighbor < n
        → IsNodes config n nodes
        → Written (connect_back env storage config layer internal_id neighbor nodes) nodes
    unfolding connect_back
    connect_back-Written layer internal_id neighbor nodes len h k sound =
        let (node, at) = get_elem?_of_lt nodes neighbor (omega (arith, len, k)) in
        elim (Bool-cases (leb layer node.max_layer)) [
          | inr above ↦ (nodes, rw (at, connect_back) (rw above refl), sound, refl)
          | inl inside ↦
              let ok = sound.each neighbor node at in
              let sized = ok.sized in
              let low = leb→le layer node.max_layer inside in
              let (ids, found) = get_elem?_of_lt node.neighbors layer (omega (arith, sized, low)) in
              let (a, few) =
                prune-limit (limit config layer) neighbor (ids ++ internal_id ∷ []) k
                  (All-append_one (λ j. j < n) ids internal_id (ok.listed layer ids found).0 h) in
              let (nodes', done, sound', same) =
                set_neighbors-IsNodes config n nodes neighbor layer
                  (prune env storage (limit config layer) neighbor (ids ++ internal_id ∷ [])) node
                  sound at low a few in
              (nodes', rw (at, connect_back) (rw (inside, found) done), sound', same)
        ]

    pub same_length :
        (nodes nodes' : List HnswNode) → levels nodes' ≡ levels nodes → length nodes' ≡ length nodes
    same_length nodes nodes' e =
        let both = ap length e in omega (arith, both, length-levels nodes, length-levels nodes')

    pub connect_all-Written :
        (layer : ℕ) (internal_id : InternalId) (cs : List (Candidate env)) (nodes : List HnswNode)
        → length nodes ≡ n
        → internal_id < n
        → InRange n cs
        → IsNodes config n nodes
        → Written (connect_all env storage config layer internal_id cs nodes) nodes
    unfolding connect_all
    connect_all-Written layer internal_id [] nodes len h a sound = (nodes, refl, sound, refl)
    connect_all-Written layer internal_id (c ∷ cs) nodes len h (k, a) sound =
        let (nodes', done, sound', same) =
          connect_back-Written layer internal_id c.id nodes len h k sound in
        let (out, done', sound'', same') =
          connect_all-Written layer internal_id cs nodes' (same_length nodes nodes' same ∙ len) h a
            sound' in
        (out, rw (done, connect_all) done', sound'', same' ∙ same)
