-- ===== src/Hnsw/Grows.antt =====
-- `HnswIndex::insert` of hnsw.rs goes through and keeps the index sound.
use zapybase.Prelude.{
  All, All-append_one, ℕ, ◌+◌, ◌≤◌, ◌<◌, ◌≡◌, refl, ap, ◌∙◌, Option, none, some, List, [], ◌∷◌,
  ◌++◌, arith, length, length-append, get_elem?, min, ltb, ltb→lt, ltb→le, Bool-cases, inl, inr,
  ◌⊎◌,
}
use zapybase.Prelude.Slices.{get_elem?-append_one, lt_of_get_elem?}
use zapybase.Env.{Env, Num}
use zapybase.Storage.{InternalId}
use zapybase.Hnsw.{HnswIndex, HnswNode, Source}
use zapybase.Hnsw.Greedy.{IsStrict}
use zapybase.Hnsw.Hits.{IsIndex}
use zapybase.Hnsw.Connect.{VectorStorageTrait, new_node}
use zapybase.Hnsw.Insert.{raise, insert}
use zapybase.Hnsw.Sound.{
  IsNodes, levels, length-levels, IsNodes-IsGraph, push-IsNodes, new_node-IsNode,
}
use zapybase.Hnsw.Edges.{HasVectors, same_length}
use zapybase.Hnsw.Linked.{approach-in_range, connect_layers-Written}

-- the entry point, at the top layer
abbrev pub IsEntry : List HnswNode → ℕ → Option InternalId → Type 0
IsEntry nodes top entry =
    ((entry ≡ none) × (nodes ≡ []))
    ⊎ ((ep : InternalId) × (entry ≡ some ep) × (get_elem? (levels nodes) ep ≡ some top))

-- The lists of the nodes are in range and within the limits `m0` and `m`, no node is above the top
-- layer, and the entry point is a node at the top layer.
pub record IsSound {env : Env} (index : HnswIndex env) : Type 0 where
  pub nodes : IsNodes index.config (length index.nodes) index.nodes
  pub entry : IsEntry index.nodes index.max_layer index.entry_point
  pub below : All (λ l. l ≤ index.max_layer) (levels index.nodes)

pub entry-in_range :
    (nodes : List HnswNode) (top : ℕ) (ep : InternalId)
    → get_elem? (levels nodes) ep ≡ some top
    → ep < length nodes
entry-in_range nodes top ep at =
    let h = lt_of_get_elem? (levels nodes) ep at in omega (arith, h, length-levels nodes)

pub levels-append :
    (nodes : List HnswNode) (node : HnswNode)
    → levels (nodes ++ node ∷ []) ≡ levels nodes ++ node.max_layer ∷ []
levels-append [] node = refl
levels-append (a ∷ nodes) node = ap (λ l. a.max_layer ∷ l) (levels-append nodes node)

below_mono : (a b : ℕ) (ls : List ℕ) → a ≤ b → All (λ l. l ≤ a) ls → All (λ l. l ≤ b) ls
below_mono a b [] h p = tt
below_mono a b (l ∷ ls) h (k, p) = (omega arith, below_mono a b ls h p)

module _ {env : Env} where
  -- The top layer and the entry point stay in step when a node of any level is added.
  pub raise-IsSound :
      (level : ℕ) (index : HnswIndex env) (before : List HnswNode) (ep : InternalId)
      → IsNodes index.config (length index.nodes) index.nodes
      → levels index.nodes ≡ levels before ++ level ∷ []
      → index.entry_point ≡ some ep
      → get_elem? (levels before) ep ≡ some index.max_layer
      → All (λ l. l ≤ index.max_layer) (levels before)
      → IsSound (raise env (length before) level index)
  unfolding raise
  raise-IsSound level index before ep sound same e at below =
      let last = get_elem?-append_one (levels before) level in
      let len = length-levels before in
      elim (Bool-cases (ltb index.max_layer level)) [
        | inl higher ↦
            let here : get_elem? (levels index.nodes) (length before) ≡ some level =
              rw same (ground (arith, last (length before), len)) in
            let up = ltb→lt index.max_layer level higher in
            rw higher (record {
              nodes = sound;
              entry = inr (length before, refl, here);
              below = rw same (
                  All-append_one (λ l. l ≤ level) (levels before) level
                    (below_mono index.max_layer level (levels before) (omega (arith, up)) below)
                    (omega arith));
            })
        | inr lower ↦
            let h = lt_of_get_elem? (levels before) ep at in
            let here : get_elem? (levels index.nodes) ep ≡ some index.max_layer =
              rw same (ground (arith, last ep, at, h)) in
            rw lower (record {
              nodes = sound;
              entry = inr (ep, e, here);
              below = rw same (
                  All-append_one (λ l. l ≤ index.max_layer) (levels before) level below
                    (ltb→le index.max_layer level lower));
            })
      ]

  pub raise_same :
      (id : InternalId) (level : ℕ) (index : HnswIndex env)
      → ((raise env id level index).nodes ≡ index.nodes)
        × ((raise env id level index).config ≡ index.config)
  unfolding raise
  raise_same id level index = elim (Bool-cases (ltb index.max_layer level)) [
    | inl higher ↦ rw higher (refl, refl)
    | inr lower ↦ rw lower (refl, refl)
  ]

  -- the first node, which becomes the entry point
  pub first-IsSound :
      (level : ℕ) (index : HnswIndex env) (node : HnswNode)
      → IsNodes index.config (length (index.nodes ++ node ∷ [])) (index.nodes ++ node ∷ [])
      → node.max_layer ≡ level
      → index.nodes ≡ []
      → IsSound {env = env} (record index {
        nodes = index.nodes ++ node ∷ [];
        entry_point = some (length index.nodes);
        max_layer = level;
      })
  first-IsSound level index node sound top empty =
      let same = levels-append index.nodes node in
      let last = get_elem?-append_one (levels index.nodes) node.max_layer (length index.nodes) in
      record {
        nodes = sound;
        entry = inr (
          length index.nodes,
          refl,
          rw same (ground (arith, last, length-levels index.nodes, top)),
        );
        below = rw same (
            All-append_one (λ l. l ≤ level) (levels index.nodes) node.max_layer (rw empty tt)
              (omega (arith, top)));
      }

  -- An insertion at the next id goes through without a panic, whatever its level: the index has one
  -- node more and is sound again, so that no list is longer than `m0` at layer 0 and `m` above it,
  -- and a search of the new index goes through. `<` of floats is a strict order, and each node has
  -- its vector in the storage.
  pub insert-IsSound :
      (level : ℕ) (storage : VectorStorageTrait env) (vector : List (Num env))
      (index : HnswIndex env)
      → IsStrict env
      → HasVectors storage (length index.nodes + 1)
      → 1 ≤ index.config.ef_construction
      → IsSound index
      → (index' : HnswIndex env) × (insert env level storage (length index.nodes) vector index
          ≡ some index')
        × IsSound index'
        × (length index'.nodes ≡ length index.nodes + 1)
        × (index'.config ≡ index.config)
  unfolding insert new_node
  insert-IsSound level storage vector index strict vectors ef sound =
      let n = length index.nodes in
      let node = new_node n level in
      let nodes = index.nodes ++ node ∷ [] in
      let len : length nodes ≡ n + 1 = omega (arith, length-append index.nodes (node ∷ [])) in
      let pushed =
        push-IsNodes index.config n index.nodes node (new_node-IsNode index.config (n + 1) n level)
          sound.nodes in
      let same : levels nodes ≡ levels index.nodes ++ level ∷ [] = levels-append index.nodes node in
      elim sound.entry [
        | inl (e, empty) ↦ (
          record index { nodes = nodes; entry_point = some n; max_layer = level },
          rw (e, insert) refl,
          first-IsSound level index node (rw len pushed) refl empty,
          len,
          refl,
        )
        | inr (ep, e, at) ↦
            let h = entry-in_range index.nodes index.max_layer ep at in
            let (current, done, h') =
              approach-in_range storage index.config (n + 1) vectors strict vector level
                index.max_layer ep nodes (len, pushed) (omega (arith, h)) in
            let here : get_elem? (levels nodes) n ≡ some level = rw same (
              ground (
                arith,
                get_elem?-append_one (levels index.nodes) level n,
                length-levels index.nodes,
              )) in
            let (connected, done', sound', same') =
              connect_layers-Written storage index.config (n + 1) vectors strict vector n level
                (min level index.max_layer + 1) current nodes ef (len, pushed) here (omega arith)
                h' in
            let index' : HnswIndex env = record index { nodes = connected } in
            let len' =
              same_length storage index.config (n + 1) vectors nodes connected same' ∙ len in
            let (kept, kept') = raise_same n level index' in
            (
              raise env n level index',
              rw (e, insert)
                  (rw done (
                    rw done'
                      (ap (λ o. some (raise env n level (record index' { entry_point = o }))) e))),
              raise-IsSound level index' index.nodes ep (rw len' sound') (same' ∙ same) e at
                  sound.below,
              ap length kept ∙ len',
              kept',
            )
      ]

-- A sound index that has a node may be searched.
pub sound-IsIndex :
    {env : Env} (strict : IsStrict env) (source : Source env) (index : HnswIndex env)
    → IsSound index
    → 0 < length index.nodes
    → IsIndex strict source index
sound-IsIndex strict source index sound some_node = elim sound.entry [
  | inl (e, empty) ↦ absurd (ground (arith, empty, some_node))
  | inr (ep, e, at) ↦ record {
    entry = ep;
    entered = e;
    inside = entry-in_range index.nodes index.max_layer ep at;
    graph = λ layer. IsNodes-IsGraph index.config index.nodes layer sound.nodes;
  }
]
