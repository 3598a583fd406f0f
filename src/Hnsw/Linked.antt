-- ===== src/Hnsw/Linked.antt =====
-- The steps of `HnswIndex::insert` of hnsw.rs: the way down to the level of the new node, and its
-- edges in each layer.
use zapybase.Prelude.{
  All, ℕ, zero, suc, ◌+◌, ◌≤◌, ◌<◌, ◌≡◌, refl, ◌∙◌, some, List, [], ◌∷◌, arith, length, get_elem?,
  leb, Bool-cases, inl, inr,
}
use zapybase.Prelude.Slices.{get_elem?_of_lt, lt_of_get_elem?}
use zapybase.Env.{Env, Num}
use zapybase.Storage.{InternalId}
use zapybase.Hnsw.{HnswConfig, HnswNode, Candidate}
use zapybase.Hnsw.Visit.{IsHit}
use zapybase.Hnsw.Layer.{search_layer-IsHit}
use zapybase.Hnsw.Greedy.{IsStrict, search_layer_single-IsLocal}
use zapybase.Hnsw.Select.{select_neighbors, select_neighbors-All}
use zapybase.Hnsw.Connect.{VectorStorageTrait, source_of, between, ids_of, limit}
use zapybase.Hnsw.Insert.{approach, select_at, construction, next_entry, connect, connect_layers}
use zapybase.Hnsw.Sound.{
  IsNodes, levels, length-levels, level_at, set_neighbors-IsNodes, IsNodes-IsGraph,
}
use zapybase.Hnsw.Edges.{
  HasVectors, InRange, ids_of-All, length-ids_of, Written, same_length, connect_all-Written,
}

module _ {env : Env} (storage : VectorStorageTrait env) (config : HnswConfig) (n : ℕ)
    (vectors : HasVectors storage n) (strict : IsStrict env) (vector : List (Num env)) where
  abbrev pub AllNodes : List HnswNode → Type 0
  AllNodes nodes = (length nodes ≡ n) × IsNodes config n nodes

  pub approach-in_range :
      (node_level layer : ℕ) (ep : InternalId) (nodes : List HnswNode)
      → AllNodes nodes
      → ep < n
      → (id : InternalId) × (approach env storage vector node_level layer ep nodes ≡ some id)
        × (id < n)
  unfolding approach
  approach-in_range node_level zero ep nodes ok h = (ep, refl, h)
  approach-in_range node_level (suc layer) ep nodes (len, sound) h =
      elim (Bool-cases (leb (suc layer) node_level)) [
        | inl there ↦ (ep, rw (there, approach) refl, h)
        | inr above ↦
            let graph = IsNodes-IsGraph config nodes (suc layer) (rw len sound) in
            let (next, done, local) =
              search_layer_single-IsLocal strict (source_of env storage vector) nodes (suc layer)
                graph ep (omega (arith, len, h)) in
            let (id, done', h') =
              approach-in_range node_level layer next nodes (len, sound)
                (omega (arith, len, local.0)) in
            (id, rw (above, done, approach) done', h')
      ]

  hits-InRange :
      (layer m : ℕ) (cs : List (Candidate env))
      → m ≡ n
      → All (IsHit (construction env config layer) (source_of env storage vector) m) cs
      → InRange n cs
  hits-InRange layer m [] e a = tt
  hits-InRange layer m (c ∷ cs) e (h, a) = (omega (arith, e, h.0), hits-InRange layer m cs e a)

  pub select_at-limit :
      (layer : ℕ) (ep : InternalId) (nodes : List HnswNode)
      → 1 ≤ config.ef_construction
      → AllNodes nodes
      → ep < n
      → (selected : List (Candidate env)) × (select_at env storage config vector layer ep nodes
          ≡ some selected)
        × InRange n selected
        × (length selected ≤ limit config layer)
  unfolding select_at
  select_at-limit layer ep nodes ef (len, sound) h =
      let graph = IsNodes-IsGraph config nodes layer (rw len sound) in
      let (found, done, hits, few, differ) =
        search_layer-IsHit (construction env config layer) (source_of env storage vector) nodes
          graph ep (omega (arith, len, h)) ef in
      let most = limit config layer in
      let (inside, size) =
        select_neighbors-All env (between env storage) (λ c. c.id < n) found most
          (hits-InRange layer (length nodes) found len hits) in
      (
        select_neighbors env (between env storage) found most,
        rw (done, select_at) refl,
        inside,
        omega (arith, size),
      )

  pub connect-Written :
      (layer : ℕ) (internal_id : InternalId) (level : ℕ) (selected : List (Candidate env))
      (nodes : List HnswNode)
      → AllNodes nodes
      → get_elem? (levels nodes) internal_id ≡ some level
      → layer ≤ level
      → InRange n selected
      → length selected ≤ limit config layer
      → Written storage config n vectors
          (connect env storage config layer internal_id selected nodes)
          nodes
  unfolding connect
  connect-Written layer internal_id level selected nodes (len, sound) at h a few =
      let h' = lt_of_get_elem? (levels nodes) internal_id at in
      let inside : internal_id < n = omega (arith, length-levels nodes, len, h') in
      let (node, found) = get_elem?_of_lt nodes internal_id (omega (arith, len, inside)) in
      let here = level_at nodes internal_id node found in
      let (nodes', done, sound', same) =
        set_neighbors-IsNodes config n nodes internal_id layer (ids_of env selected) node sound
          found (ground (arith, here, at, h)) (ids_of-All n selected a)
          (omega (arith, length-ids_of selected, few)) in
      let (out, done', sound'', same') =
        connect_all-Written storage config n vectors layer internal_id selected nodes'
          (same_length storage config n vectors nodes nodes' same ∙ len) inside a sound' in
      (out, rw (done, connect) done', sound'', same' ∙ same)

  pub next_entry-InRange :
      (selected : List (Candidate env)) (ep : InternalId)
      → InRange n selected
      → ep < n
      → next_entry env selected ep < n
  unfolding next_entry
  next_entry-InRange [] ep a h = h
  next_entry-InRange (c ∷ cs) ep (k, a) h = k

  pub connect_layers-Written :
      (internal_id : InternalId) (level count : ℕ) (ep : InternalId) (nodes : List HnswNode)
      → 1 ≤ config.ef_construction
      → AllNodes nodes
      → get_elem? (levels nodes) internal_id ≡ some level
      → count ≤ level + 1
      → ep < n
      → Written storage config n vectors
          (connect_layers env storage config vector internal_id count ep nodes)
          nodes
  unfolding connect_layers
  connect_layers-Written internal_id level zero ep nodes ef (len, sound) at h k =
      (nodes, refl, sound, refl)
  connect_layers-Written internal_id level (suc layer) ep nodes ef (len, sound) at h k =
      let (selected, done, a, few) = select_at-limit layer ep nodes ef (len, sound) k in
      let (nodes', done', sound', same) =
        connect-Written layer internal_id level selected nodes (len, sound) at (omega (arith, h)) a
          few in
      let len' = same_length storage config n vectors nodes nodes' same ∙ len in
      let (out, done'', sound'', same') =
        connect_layers-Written internal_id level layer (next_entry env selected ep) nodes' ef
          (len', sound') (rw same at) (omega (arith, h)) (next_entry-InRange selected ep a k) in
      (out, rw (done, connect_layers) (rw (done') done''), sound'', same' ∙ same)
