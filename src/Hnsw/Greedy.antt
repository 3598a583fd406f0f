-- ===== src/Hnsw/Greedy.antt =====
-- The greedy search of hnsw.rs in one layer: it ends at a node that no neighbor is closer than.
use zapybase.Prelude.{
  All, ℕ, zero, suc, ◌+◌, ◌≤◌, ◌<◌, ◌≡◌, refl, ap, sym, subst, ◌∙◌, Bool, true, false, Option, none,
  some, List, [], ◌∷◌, arith, length, eqb, if◌then◌else◌, Option-cases, Bool-cases, ◌⊎◌, inl, inr,
}
use zapybase.Env.{Env, Num}
use zapybase.Float.{is_less}
use zapybase.Storage.{InternalId}
use zapybase.Hnsw.{HnswNode, Source, neighbors_of, or_max}
use zapybase.Hnsw.Layer.{IsGraph}
use zapybase.Hnsw.Traverse.{Greedy, closer, greedy_round, greedy_loop, search_layer_single}

-- `<` of floats: nothing is less than itself, and it is transitive (also with a NaN, which is
-- neither less nor greater than anything).
pub record IsStrict (env : Env) : Type 0 where
  pub irreflexive : (a : Num env) → is_less (env.f32.partial_cmp a a) ≡ false
  pub transitive :
      (a b c : Num env)
      → is_less (env.f32.partial_cmp a b) ≡ true
      → is_less (env.f32.partial_cmp b c) ≡ true
      → is_less (env.f32.partial_cmp a c) ≡ true

module _ {env : Env} (strict : IsStrict env) (source : Source env) where
  abbrev pub nearer : Num env → Num env → Bool
  nearer a b = is_less (env.f32.partial_cmp a b)

  -- whether the node has a distance, and that is less
  abbrev pub below : Num env → Option (Num env) → Bool
  below dist none = false
  below dist (some d) = nearer d dist

  -- the nodes that are closer than a distance, of the first `n`
  unfoldable pub closer_nodes : ℕ → Num env → ℕ
  closer_nodes zero dist = 0
  closer_nodes (suc n) dist =
      (if below dist (source.distance n) then 1 else 0) + closer_nodes n dist

  closer_nodes_mono :
      (n : ℕ) (a b : Num env) → nearer a b ≡ true → closer_nodes n a ≤ closer_nodes n b
  unfolding closer_nodes
  closer_nodes_mono zero a b h = omega arith
  closer_nodes_mono (suc n) a b h = elim (Option-cases (source.distance n)) [
    | inl e ↦ ground (arith, e, closer_nodes_mono n a b h)
    | inr (d, e) ↦ ground (arith, e, closer_nodes_mono n a b h, strict.transitive d a b)
  ]

  -- Moving to a closer node leaves fewer nodes that are closer still.
  closer_nodes_less :
      (n : ℕ) (id : InternalId) (a b : Num env)
      → id < n
      → source.distance id ≡ some a
      → nearer a b ≡ true
      → closer_nodes n a < closer_nodes n b
  unfolding closer_nodes
  closer_nodes_less zero id a b h at less = absurd (omega arith)
  closer_nodes_less (suc n) id a b h at less = elim (Bool-cases (eqb id n)) [
    | inl same ↦
        let here : source.distance n ≡ some a = ground (arith, same, at) in
        let irr = strict.irreflexive a in
        ground (arith, here, less, irr, closer_nodes_mono n a b less)
    | inr other ↦ elim (Option-cases (source.distance n)) [
      | inl e ↦ ground (arith, e, other, closer_nodes_less n id a b)
      | inr (d, e) ↦ ground (arith, e, other, closer_nodes_less n id a b, strict.transitive d a b)
    ]
  ]

  closer_nodes_le : (n : ℕ) (dist : Num env) → closer_nodes n dist ≤ n
  unfolding closer_nodes
  closer_nodes_le zero dist = omega arith
  closer_nodes_le (suc n) dist = ground (arith, closer_nodes_le n dist)

  below_trans :
      (a b : Num env) (o : Option (Num env))
      → nearer a b ≡ true
      → below a o ≡ true
      → below b o ≡ true
  below_trans a b none h k = k
  below_trans a b (some d) h k = strict.transitive d a b k h

  -- what is closer than `a` is closer than `b`
  abbrev pub Narrows : Num env → Num env → Type 0
  Narrows a b = (o : Option (Num env)) → below a o ≡ true → below b o ≡ true

  kept_out :
      (a b : Num env) (o : Option (Num env)) → Narrows a b → below b o ≡ false → below a o ≡ false
  kept_out a b o narrow out = ground (arith, narrow o, out)

  module _ (n : ℕ) where
    -- what a round makes of the variables that it starts with
    pub record IsRound (first g : Greedy env) : Type 0 where
      pub inside : g.current < n
      pub moved :
          (g ≡ first)
          ⊎ ((g.changed ≡ true)
              × (source.distance g.current ≡ some g.current_dist)
              × (nearer g.current_dist first.current_dist ≡ true))
      pub narrows : Narrows g.current_dist first.current_dist

    closer-IsRound :
        (id : InternalId) (first g : Greedy env)
        → id < n
        → IsRound first g
        → IsRound first (closer env id g (source.distance id))
          × Narrows (closer env id g (source.distance id)).current_dist g.current_dist
          × (below (closer env id g (source.distance id)).current_dist (source.distance id) ≡ false)
    unfolding closer
    closer-IsRound id first g h r = elim (Option-cases (source.distance id)) [
      | inl e ↦ rw e (r, λ o k. k, refl)
      | inr (d, e) ↦ elim (Bool-cases (nearer d g.current_dist)) [
        | inr far ↦ rw e (rw far (r, λ o k. k, far))
        | inl near ↦ rw e (
            rw near (
              record {
                inside = h;
                moved = inr (refl, e, r.narrows (some d) near);
                narrows = λ o k. r.narrows o (below_trans d g.current_dist o near k);
              },
              λ o k. below_trans d g.current_dist o near k,
              strict.irreflexive d,
            ))
      ]
    ]

    -- A round ends at its start or at a closer node, and no neighbor is closer than its end.
    greedy_round-IsRound :
        (ids : List InternalId) (first g : Greedy env)
        → All (λ id. id < n) ids
        → IsRound first g
        → IsRound first (greedy_round env source ids g)
          × Narrows (greedy_round env source ids g).current_dist g.current_dist
          × All
              (λ id.
                below (greedy_round env source ids g).current_dist (source.distance id) ≡ false)
              ids
    unfolding greedy_round
    greedy_round-IsRound [] first g h r = (r, λ o k. k, tt)
    greedy_round-IsRound (id ∷ ids) first g (h, hs) r =
        let g' = closer env id g (source.distance id) in
        let (r', narrow, out) = closer-IsRound id first g h r in
        let (r'', narrow', outs) = greedy_round-IsRound ids first g' hs r' in
        let end = greedy_round env source ids g' in
        (
          r'',
          λ o k. narrow o (narrow' o k),
          (kept_out end.current_dist g'.current_dist (source.distance id) narrow' out, outs),
        )

    -- what the search of a layer promises of the node that it ends at
    abbrev pub IsLocal : List HnswNode → ℕ → InternalId → Type 0
    IsLocal nodes layer id =
        (id < n)
        × ((ids : List InternalId)
            → neighbors_of nodes layer id ≡ some ids
            → All (λ j. below (or_max env (source.distance id)) (source.distance j) ≡ false) ids)

  some_injective : (a b : List InternalId) → some a ≡ some b → a ≡ b
  some_injective a b h = ground arith

  module _ (nodes : List HnswNode) (layer : ℕ) (graph : IsGraph nodes layer) where
    greedy_loop-IsLocal :
        (fuel : ℕ) (current : InternalId) (dist : Num env)
        → current < length nodes
        → dist ≡ or_max env (source.distance current)
        → closer_nodes (length nodes) dist < fuel
        → (id : InternalId) × (greedy_loop env fuel source nodes layer current dist ≡ some id)
          × IsLocal (length nodes) nodes layer id
    unfolding greedy_loop
    greedy_loop-IsLocal zero current dist h at enough = absurd (omega arith)
    greedy_loop-IsLocal (suc fuel) current dist h at enough =
        let n = length nodes in
        let (ids, neighbors, ids_in) = graph.closed current h in
        let first : Greedy env = record {
          current = current;
          current_dist = dist;
          changed = false;
        } in
        let g = greedy_round env source ids first in
        let here : IsRound n first first = record {
          inside = h;
          moved = inl refl;
          narrows = λ o k. k;
        } in
        let (r, narrow, outs) = greedy_round-IsRound n ids first first ids_in here in
        elim r.moved [
          | inl same ↦ (
            current,
            rw (neighbors, greedy_loop)
                (rw (ap (λ e. e.changed) same) (ap (λ e. some e.current) same)),
            (
              h,
              λ ids' neighbors'.
                  subst
                    (λ js.
                      All
                        (λ j.
                          below (or_max env (source.distance current)) (source.distance j) ≡ false)
                        js)
                    (some_injective ids ids' (sym neighbors ∙ neighbors'))
                    (rw (sym at) (
                      subst (λ e. All (λ j. below e.current_dist (source.distance j) ≡ false) ids)
                        same outs)),
            ),
          )
          | inr (changed, there, less) ↦
              let (id, done, local) =
                greedy_loop-IsLocal fuel g.current g.current_dist r.inside (rw there refl) (
                  omega (
                    arith,
                    enough,
                    closer_nodes_less n g.current g.current_dist dist r.inside there less,
                  )) in
              (id, rw (neighbors, greedy_loop) (rw changed done), local)
        ]

    -- For floats whose `<` is irreflexive and transitive: from an entry in a graph whose neighbor lists
    -- are in range at the layer, the greedy search of the layer ends without a panic, and no neighbor
    -- of the node that it ends at is closer to the query.
    pub search_layer_single-IsLocal :
        (entry : InternalId)
        → entry < length nodes
        → (id : InternalId) × (search_layer_single env entry layer nodes source ≡ some id)
          × IsLocal (length nodes) nodes layer id
    unfolding search_layer_single
    search_layer_single-IsLocal entry h =
        let dist = or_max env (source.distance entry) in
        greedy_loop-IsLocal (length nodes + 1) entry dist h refl
          (omega (arith, closer_nodes_le (length nodes) dist))
