-- ===== src/Hnsw/Sound.antt =====
-- A graph of hnsw.rs that may be searched and grown: the lists are in range and within their limits.
use zapybase.Prelude.{
  All, ℕ, zero, suc, ◌+◌, ◌≤◌, ◌<◌, ◌≡◌, refl, ap, sym, ◌∙◌, some, List, [], ◌∷◌, ◌++◌, arith,
  length, length-set, get_elem?, get_elem?-set_self, get_elem?-set_ne, set, map, replicate,
  length-replicate, leb, lt→ltb, leb→le, eqb, Bool-cases, inl, inr,
}
use zapybase.Prelude.Slices.{lt_of_get_elem?, get_elem?_of_lt, get_elem?-append_one}
use zapybase.Storage.{InternalId}
use zapybase.Hnsw.{HnswConfig, HnswNode, neighbors_of, layer_neighbors}
use zapybase.Hnsw.Layer.{IsGraph}
use zapybase.Hnsw.Connect.{new_node, limit, set_neighbors}

-- A node among `n`: a list for each of its layers, of ids in range, no longer than the layer allows.
pub record IsNode (config : HnswConfig) (n : ℕ) (node : HnswNode) : Type 0 where
  pub sized : length node.neighbors ≡ node.max_layer + 1
  pub listed :
      (layer : ℕ) (ids : List InternalId)
      → get_elem? node.neighbors layer ≡ some ids
      → All (λ j. j < n) ids × (length ids ≤ limit config layer)

pub record IsNodes (config : HnswConfig) (n : ℕ) (nodes : List HnswNode) : Type 0 where
  pub each : (i : ℕ) (node : HnswNode) → get_elem? nodes i ≡ some node → IsNode config n node

-- the layers of the nodes, which stay as they are
abbrev pub levels : List HnswNode → List ℕ
levels nodes = map (λ node. node.max_layer) nodes

pub All-mono : (n : ℕ) (ids : List InternalId) → All (λ j. j < n) ids → All (λ j. j < n + 1) ids
All-mono n [] a = tt
All-mono n (j ∷ ids) (h, a) = (omega arith, All-mono n ids a)

pub length-levels : (nodes : List HnswNode) → length (levels nodes) ≡ length nodes
length-levels [] = refl
length-levels (node ∷ nodes) = ap suc (length-levels nodes)

pub level_at :
    (nodes : List HnswNode) (i : ℕ) (node : HnswNode)
    → get_elem? nodes i ≡ some node
    → get_elem? (levels nodes) i ≡ some node.max_layer
level_at [] i node h = cc
level_at (a ∷ nodes) zero node h = ground (arith, h)
level_at (a ∷ nodes) (suc i) node h = level_at nodes i node h

levels-set :
    (nodes : List HnswNode) (i : ℕ) (old node : HnswNode)
    → get_elem? nodes i ≡ some old
    → node.max_layer ≡ old.max_layer
    → levels (set nodes i node) ≡ levels nodes
levels-set [] i old node h e = refl
levels-set (a ∷ nodes) zero old node h e =
    let same : a.max_layer ≡ old.max_layer = ground (arith, h) in
    ap (λ l. l ∷ levels nodes) (e ∙ sym same)
levels-set (a ∷ nodes) (suc i) old node h e =
    ap (λ l. a.max_layer ∷ l) (levels-set nodes i old node h e)

-- The graph of such nodes may be searched at every layer.
pub IsNodes-IsGraph :
    (config : HnswConfig) (nodes : List HnswNode) (layer : ℕ)
    → IsNodes config (length nodes) nodes
    → IsGraph nodes layer
unfolding neighbors_of layer_neighbors
IsNodes-IsGraph config nodes layer sound = record {
  closed = λ id h.
      let (node, at) = get_elem?_of_lt nodes id h in
      elim (Bool-cases (leb layer node.max_layer)) [
        | inr above ↦ ([], rw (at, neighbors_of) (rw (above, layer_neighbors) refl), tt)
        | inl inside ↦
            let ok = sound.each id node at in
            let sized = ok.sized in
            let (ids, at') =
              get_elem?_of_lt node.neighbors layer
                (omega (arith, sized, leb→le layer node.max_layer inside)) in
            (
              ids,
              rw (at, neighbors_of) (rw (inside, layer_neighbors) at'),
              (ok.listed layer ids at').0,
            )
      ];
}

IsNode-set :
    (config : HnswConfig) (n : ℕ) (node : HnswNode) (layer : ℕ) (ids : List InternalId)
    → layer < length node.neighbors
    → IsNode config n node
    → All (λ j. j < n) ids
    → length ids ≤ limit config layer
    → IsNode config n (record node { neighbors = set node.neighbors layer ids })
IsNode-set config n node layer ids h ok a few = record {
  sized = length-set node.neighbors layer ids ∙ ok.sized;
  listed = λ other found at. elim (Bool-cases (eqb layer other)) [
    | inl same ↦
        let e : layer ≡ other = ground (arith, same) in
        let self = get_elem?-set_self node.neighbors layer ids h in
        let is : ids ≡ found = ground (arith, self, at, e) in rw (← is, ← e) (a, few)
    | inr differ ↦ ok.listed other found (
        sym (
          get_elem?-set_ne node.neighbors {i = layer} {j = other} ids
            (λ e. ground (arith, e, differ)))
        ∙ at)
  ];
}

-- A write to a list of a node goes through, and keeps the nodes sound and their layers.
pub set_neighbors-IsNodes :
    (config : HnswConfig) (n : ℕ) (nodes : List HnswNode) (id : InternalId) (layer : ℕ)
    (ids : List InternalId) (node : HnswNode)
    → IsNodes config n nodes
    → get_elem? nodes id ≡ some node
    → layer ≤ node.max_layer
    → All (λ j. j < n) ids
    → length ids ≤ limit config layer
    → (nodes' : List HnswNode) × (set_neighbors nodes id layer ids ≡ some nodes')
      × IsNodes config n nodes'
      × (levels nodes' ≡ levels nodes)
unfolding set_neighbors
set_neighbors-IsNodes config n nodes id layer ids node sound at h a few =
    let ok = sound.each id node at in
    let fits : layer < length node.neighbors = omega (arith, ok.sized) in
    let node' : HnswNode = record node { neighbors = set node.neighbors layer ids } in
    (
      set nodes id node',
      rw (at, set_neighbors) (rw (lt→ltb layer (length node.neighbors) fits) refl),
      record {
        each = λ i other at'. elim (Bool-cases (eqb id i)) [
          | inl same ↦
              let e : id ≡ i = ground (arith, same) in
              let self = get_elem?-set_self nodes id node' (lt_of_get_elem? nodes id at) in
              let is : node' ≡ other = ground (arith, self, at', e) in
              rw (← is) (IsNode-set config n node layer ids fits ok a few)
          | inr differ ↦ sound.each i other (
              sym (get_elem?-set_ne nodes {i = id} {j = i} node' (λ e. ground (arith, e, differ)))
              ∙ at')
        ];
      },
      levels-set nodes id node node' at refl,
    )

pub replicate_empty :
    (m layer : ℕ) (ids : List InternalId) → get_elem? (replicate m []) layer ≡ some ids → ids ≡ []
replicate_empty zero layer ids at = cc
replicate_empty (suc m) zero ids at = ground (arith, at)
replicate_empty (suc m) (suc layer) ids at = replicate_empty m layer ids at

-- A node that is added has empty lists, which the others may then be joined to.
pub new_node-IsNode :
    (config : HnswConfig) (n : ℕ) (id : InternalId) (level : ℕ)
    → IsNode config n (new_node id level)
unfolding new_node
new_node-IsNode config n id level = record {
  sized = length-replicate (level + 1) [];
  listed =
      λ layer ids at. let e = replicate_empty (level + 1) layer ids at in rw e (tt, omega arith);
}

pub push-IsNodes :
    (config : HnswConfig) (n : ℕ) (nodes : List HnswNode) (node : HnswNode)
    → IsNode config (n + 1) node
    → IsNodes config n nodes
    → IsNodes config (n + 1) (nodes ++ node ∷ [])
push-IsNodes config n nodes node new sound = record {
  each = λ i other at. elim (Bool-cases (eqb i (length nodes))) [
    | inl last ↦
        let is : node ≡ other = ground (arith, get_elem?-append_one nodes node i, last, at) in
        rw (← is) new
    | inr before ↦
        let at' : get_elem? nodes i ≡ some other =
          ground (arith, get_elem?-append_one nodes node i, before, at) in
        let ok = sound.each i other at' in
        record {
          sized = ok.sized;
          listed = λ layer ids found.
              let (a, few) = ok.listed layer ids found in (All-mono n ids a, few);
        }
  ];
}
