-- ===== src/Hnsw/Batched.antt =====
-- `insert_batch` of hnsw.rs goes through and keeps the index sound.
use zapybase.Prelude.{
  All, ℕ, zero, suc, ◌+◌, ◌-◌, ◌≤◌, ◌<◌, ◌≡◌, refl, ap, ◌∙◌, some, List, [], ◌∷◌, ◌++◌, arith,
  length, length-append, length-replicate, replicate, get_elem?, min, lt→ltb,
}
use zapybase.Env.{Env, Num}
use zapybase.Storage.{InternalId}
use zapybase.Hnsw.{HnswConfig, HnswIndex, HnswNode, Candidate}
use zapybase.Hnsw.Greedy.{IsStrict}
use zapybase.Hnsw.Connect.{VectorStorageTrait, ids_of, new_node, limit}
use zapybase.Hnsw.Bulk.{find_layers, search_item, assign, connect_known, connect_found}
use zapybase.Hnsw.Insert.{next_entry}
use zapybase.Hnsw.Sound.{IsNode, IsNodes, replicate_empty}
use zapybase.Hnsw.Edges.{
  HasVectors, InRange, ids_of-All, length-ids_of, Written, same_length, connect_back-Written,
}
use zapybase.Hnsw.Linked.{approach-in_range, select_at-limit, next_entry-InRange}

module _ {env : Env} where
  -- the candidates of the layers from one on: in range, and as many as the layer allows
  abbrev pub Layered : ℕ → HnswConfig → ℕ → List (List (Candidate env)) → Type 0
  Layered n config layer [] = Unit
  Layered n config layer (cs ∷ found) =
      InRange n cs × (length cs ≤ limit config layer) × Layered n config (layer + 1) found

  InRange-mono : (n n' : ℕ) (cs : List (Candidate env)) → n ≤ n' → InRange n cs → InRange n' cs
  InRange-mono n n' [] h a = tt
  InRange-mono n n' (c ∷ cs) h (k, a) = (omega arith, InRange-mono n n' cs h a)

  pub Layered-mono :
      (n n' : ℕ) (config : HnswConfig) (layer : ℕ) (found : List (List (Candidate env)))
      → n ≤ n'
      → Layered n config layer found
      → Layered n' config layer found
  Layered-mono n n' config layer [] h l = tt
  Layered-mono n n' config layer (cs ∷ found) h (a, few, l) =
      (InRange-mono n n' cs h a, few, Layered-mono n n' config (layer + 1) found h l)

  Layered-append :
      (n : ℕ) (config : HnswConfig) (layer top : ℕ) (found : List (List (Candidate env)))
      (cs : List (Candidate env))
      → Layered n config layer found
      → top ≡ layer + length found
      → InRange n cs
      → length cs ≤ limit config top
      → Layered n config layer (found ++ cs ∷ [])
  Layered-append n config layer top [] cs l e a few =
      let same : top ≡ layer = omega (arith, e) in (a, rw (← same) few, tt)
  Layered-append n config layer top (ds ∷ found) cs (b, fits, l) e a few =
      (b, fits, Layered-append n config (layer + 1) top found cs l (omega (arith, e)) a few)

  Layered-pad :
      (n : ℕ) (config : HnswConfig) (layer count : ℕ) (found : List (List (Candidate env)))
      → Layered n config layer found
      → Layered n config layer (found ++ replicate count [])
  Layered-pad n config layer zero [] l = tt
  Layered-pad n config layer (suc count) [] l =
      (tt, omega arith, Layered-pad n config (layer + 1) count [] tt)
  Layered-pad n config layer count (cs ∷ found) (a, few, l) =
      (a, few, Layered-pad n config (layer + 1) count found l)

  -- The lists that a new node is given are those of a node.
  assigned :
      (n : ℕ) (config : HnswConfig) (found : List (List (Candidate env))) (layer m : ℕ)
      → Layered n config layer found
      → (length (assign env found (replicate m [])) ≡ m)
        × ((i at_layer : ℕ) (ids : List InternalId)
            → at_layer ≡ layer + i
            → get_elem? (assign env found (replicate m [])) i ≡ some ids
            → All (λ j. j < n) ids × (length ids ≤ limit config at_layer))
  unfolding assign
  assigned n config [] layer m l = (
    length-replicate m [],
    λ i at_layer ids e at.
        let none_there = replicate_empty m i ids at in rw none_there (tt, omega arith),
  )
  assigned n config (cs ∷ found) layer zero l = (refl, λ i at_layer ids e at. cc)
  assigned n config (cs ∷ found) layer (suc m) (a, few, l) =
      let (len, rest) = assigned n config found (layer + 1) m l in
      (ap suc len, λ i at_layer ids e at. cases rest i at_layer ids e at)
    where
      cases :
          ((i at_layer : ℕ) (ids : List InternalId)
            → at_layer ≡ layer + 1 + i
            → get_elem? (assign env found (replicate m [])) i ≡ some ids
            → All (λ j. j < n) ids × (length ids ≤ limit config at_layer))
          → (i at_layer : ℕ) (ids : List InternalId) → at_layer ≡ layer + i
          → get_elem? (ids_of env cs ∷ assign env found (replicate m [])) i ≡ some ids
          → All (λ j. j < n) ids × (length ids ≤ limit config at_layer)
      cases rest zero at_layer ids e at =
          let is : ids_of env cs ≡ ids = ground (arith, at) in
          let same : at_layer ≡ layer = omega (arith, e) in
          rw (← is) (rw same (ids_of-All n cs a, omega (arith, length-ids_of cs, few)))
      cases rest (suc i) at_layer ids e at = rest i at_layer ids (omega (arith, e)) at

  pub assign-IsNode :
      (n : ℕ) (config : HnswConfig) (id : InternalId) (level : ℕ)
      (found : List (List (Candidate env)))
      → Layered n config 0 found
      → IsNode config n (record (new_node id level) {
        neighbors = assign env found (new_node id level).neighbors;
      })
  unfolding new_node
  assign-IsNode n config id level found l =
      let (len, rest) = assigned n config found 0 (level + 1) l in
      record { sized = len; listed = λ layer ids at. rest layer layer ids (omega arith) at }

  module _ (storage : VectorStorageTrait env) (config : HnswConfig) (n : ℕ)
      (vectors : HasVectors storage n) where
    connect_known-Written :
        (layer : ℕ) (internal_id : InternalId) (cs : List (Candidate env)) (nodes : List HnswNode)
        → length nodes ≡ n
        → internal_id < n
        → InRange n cs
        → IsNodes config n nodes
        → Written storage config n vectors
            (connect_known env storage config layer internal_id cs nodes)
            nodes
    unfolding connect_known
    connect_known-Written layer internal_id [] nodes len h a sound = (nodes, refl, sound, refl)
    connect_known-Written layer internal_id (c ∷ cs) nodes len h (k, a) sound =
        let (nodes', done, sound', same) =
          connect_back-Written storage config n vectors layer internal_id c.id nodes len h k
            sound in
        let (out, done', sound'', same') =
          connect_known-Written layer internal_id cs nodes'
            (same_length storage config n vectors nodes nodes' same ∙ len) h a sound' in
        let there = lt→ltb c.id (length nodes) (omega (arith, len, k)) in
        (out, rw (there, connect_known) (rw done done'), sound'', same' ∙ same)

    pub connect_found-Written :
        (layer : ℕ) (internal_id : InternalId) (found : List (List (Candidate env)))
        (nodes : List HnswNode)
        → length nodes ≡ n
        → internal_id < n
        → Layered n config layer found
        → IsNodes config n nodes
        → Written storage config n vectors
            (connect_found env storage config layer internal_id found nodes)
            nodes
    unfolding connect_found
    connect_found-Written layer internal_id [] nodes len h l sound = (nodes, refl, sound, refl)
    connect_found-Written layer internal_id (cs ∷ found) nodes len h (a, few, l) sound =
        let (nodes', done, sound', same) =
          connect_known-Written layer internal_id cs nodes len h a sound in
        let (out, done', sound'', same') =
          connect_found-Written (layer + 1) internal_id found nodes'
            (same_length storage config n vectors nodes nodes' same ∙ len) h l sound' in
        (out, rw (done, connect_found) done', sound'', same' ∙ same)

    module _ (strict : IsStrict env) where
      find_layers-Layered :
          (vector : List (Num env)) (count : ℕ) (ep : InternalId) (nodes : List HnswNode)
          → 1 ≤ config.ef_construction
          → (length nodes ≡ n) × IsNodes config n nodes
          → ep < n
          → (found : List (List (Candidate env))) × (find_layers env storage config vector count ep
                nodes
              ≡ some found)
            × Layered n config 0 found
            × (length found ≡ count)
      unfolding find_layers
      find_layers-Layered vector zero ep nodes ef ok h = ([], refl, tt, refl)
      find_layers-Layered vector (suc layer) ep nodes ef ok h =
          let (selected, done, a, few) =
            select_at-limit storage config n vectors strict vector layer ep nodes ef ok h in
          let (below, done', l, len) =
            find_layers-Layered vector layer (next_entry env selected ep) nodes ef ok
              (next_entry-InRange storage config n vectors strict vector selected ep a h) in
          (
            below ++ selected ∷ [],
            rw (done, find_layers) (rw done' refl),
            Layered-append n config 0 layer below selected l (omega (arith, len)) a few,
            omega (arith, len, length-append below (selected ∷ [])),
          )

      pub search_item-Layered :
          (index : HnswIndex env) (level : ℕ) (id : InternalId) (vector : List (Num env))
          (ep : InternalId)
          → index.config ≡ config
          → 1 ≤ config.ef_construction
          → (length index.nodes ≡ n) × IsNodes config n index.nodes
          → ep < n
          → (found : List (List (Candidate env))) × (search_item env storage index
                (level, id, vector)
                (some ep)
              ≡ some found)
            × Layered n config 0 found
      unfolding search_item
      search_item-Layered index level id vector ep e ef ok h =
          let (current, done, h') =
            approach-in_range storage config n vectors strict vector level index.max_layer ep
              index.nodes ok h in
          let (found, done', l, len) =
            find_layers-Layered vector (min level index.max_layer + 1) current index.nodes ef ok
              h' in
          let pad = level - index.max_layer in
          (
            found ++ replicate pad [],
            rw (done, search_item) (rw e (rw done' refl)),
            Layered-pad n config 0 pad found l,
          )
