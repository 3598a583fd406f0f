-- ===== src/Persistent/Indexed.antt =====
-- The index of persistent.rs is that of hnsw.rs: the interface `Index` filled by the model of
-- `HnswIndex`. The level of a node is a function of its id and of the index, and a panic, which
-- `Accepts` excludes for insertions, is an error here.
use zapybase.Prelude.{
  ℕ, ◌+◌, ◌≤◌, ◌≡◌, refl, sym, subst, ap, ◌∙◌, Bool, Option, none, some, List, length, arith,
}
use zapybase.Error.{Result, ok, err, storage}
use zapybase.Env.{Env, Num}
use zapybase.Metadata.BitmapIndex
use zapybase.Storage.{VectorStorage, InternalId}
use zapybase.Storage.Invariant.{IsValid}
use zapybase.Hnsw.{HnswConfig, HnswIndex}
use zapybase.Hnsw.State.{HnswState, get_state, load_state}
use zapybase.Hnsw.Connect.{source_of}
use zapybase.Hnsw.Greedy.{IsStrict}
use zapybase.Hnsw.Grows.{IsSound, insert-IsSound}
use zapybase.Hnsw.Insert
use zapybase.Hnsw.Traverse
use zapybase.VectorDb.{trait_of}
use zapybase.VectorDb.Ready.{trait_of-HasVectors}
use zapybase.MmapDb.Ready.{new-IsSound}
use zapybase.Persistent.{Index}
use zapybase.Persistent.Replay.{Accepts}

module _ (env : Env) (metric : List (Num env) → List (Num env) → Num env) (config : HnswConfig)
    (enabled : Bool) (levels : InternalId → HnswIndex env → ℕ) where
  abbrev pub or_panic : HnswIndex env → Option (HnswIndex env) → Result (Unit {0}) × HnswIndex env
  or_panic graph none = (err (storage "panic"), graph)
  or_panic graph (some grown) = (ok tt, grown)

  abbrev searched :
      Result (Option (List (InternalId × Num env))) → Result (List (InternalId × Num env))
  searched (err e) = err e
  searched (ok none) = err (storage "panic")
  searched (ok (some results)) = ok results

  abbrev pub hnsw_index : Index env
  hnsw_index = record {
    Graph = HnswIndex env;
    State = HnswState;
    new = Insert.new env config;
    insert = λ i vector s graph.
        or_panic graph (Insert.insert env (levels i graph) (trait_of env metric s) i vector graph);
    load_state = load_state env;
    get_state = get_state env;
    search = λ query k s filter graph. searched (
        Traverse.search env enabled k (source_of env (trait_of env metric s) query)
          (BitmapIndex.filter env.roaring env.serde.to_string s.bitmap_index) filter graph);
  }

  abbrev HasNodes : ℕ → HnswIndex env → Type 0
  HasNodes n graph = IsSound graph × (length graph.nodes ≡ n) × (graph.config ≡ config)

  insert-HasNodes :
      (n : InternalId) (vector : List (Num env)) (s : VectorStorage env) (graph : HnswIndex env)
      → IsStrict env
      → 1 ≤ config.ef_construction
      → IsValid env s
      → length s.internal_to_id ≡ n + 1
      → HasNodes n graph
      → ((hnsw_index.insert n vector s graph).0 ≡ ok tt)
        × HasNodes (n + 1) (hnsw_index.insert n vector s graph).1
  insert-HasNodes n vector s graph strict ef v slots (sound, len, same) =
      let level = levels n graph in
      let trait = trait_of env metric s in
      let (grown, done, sound', len', kept) =
        insert-IsSound level trait vector graph strict
          (trait_of-HasVectors metric s (length graph.nodes + 1) v (omega (arith, slots, len)))
          (rw same ef) sound in
      let at : Insert.insert env level trait n vector graph ≡ some grown =
        subst (λ i. Insert.insert env level trait i vector graph ≡ some grown) len done in
      (
        ap (λ o. (or_panic graph o).0) at,
        subst (λ o. HasNodes (n + 1) (or_panic graph o).1) (sym at)
            (sound', omega (arith, len', len), kept ∙ same),
      )

  load_state-get_state :
      (graph : HnswIndex env)
      → graph.config ≡ config
      → load_state env (get_state env graph) (Insert.new env config) ≡ graph
  unfolding load_state get_state Insert.new
  load_state-get_state graph same = ap (λ c. record graph { config = c }) (sym same)

  -- For floats whose `<` is irreflexive and transitive, and with ef_construction at least 1, the index
  -- of hnsw.rs is one that the persistent database can rely on, whatever the levels of the nodes.
  pub hnsw_index-Accepts : IsStrict env → 1 ≤ config.ef_construction → Accepts hnsw_index
  hnsw_index-Accepts strict ef = record {
    HasSlots = HasNodes;
    created = (new-IsSound config, unfold Insert.new in refl, unfold Insert.new in refl);
    accepts =
        λ n vector s graph v slots has. insert-HasNodes n vector s graph strict ef v slots has;
    reloaded = λ n graph has. subst (HasNodes n) (sym (load_state-get_state graph has.2)) has;
  }
