-- ===== src/Hnsw/GrowsMany.antt =====
-- `insert_batch` of hnsw.rs over a whole batch: the index that it leaves is sound.
use zapybase.Prelude.{
  All, ℕ, suc, ◌+◌, ◌≤◌, ◌≡◌, refl, ap, ◌∙◌, Option, none, some, List, [], ◌∷◌, ◌++◌, arith, length,
  length-append, length-map, map, sym, inl, inr,
}
use zapybase.Env.{Env, Num}
use zapybase.Storage.{InternalId}
use zapybase.Hnsw.{HnswConfig, HnswIndex, HnswNode, Candidate}
use zapybase.Hnsw.Greedy.{IsStrict}
use zapybase.Hnsw.Connect.{VectorStorageTrait, new_node}
use zapybase.Hnsw.Insert.{raise}
use zapybase.Hnsw.Bulk.{Entry, search_item, search_items, assign, add_item, add_items, insert_batch}
use zapybase.Hnsw.Sound.{push-IsNodes, new_node-IsNode}
use zapybase.Hnsw.Edges.{HasVectors, same_length}
use zapybase.Hnsw.Batched.{
  Layered, Layered-mono, assign-IsNode, connect_found-Written, search_item-Layered,
}
use zapybase.Hnsw.Grows.{
  IsSound, first-IsSound, raise-IsSound, raise_same, levels-append, entry-in_range,
}

-- ids in order, from one on
abbrev pub Numbered : (env : Env) → ℕ → List (Entry env) → Type 0
Numbered env n [] = Unit
Numbered env n ((level, id, vector) ∷ items) = (id ≡ n) × Numbered env (n + 1) items

module _ {env : Env} (storage : VectorStorageTrait env) where
  HasVectors-mono : (n m : ℕ) → n ≤ m → HasVectors storage m → HasVectors storage n
  HasVectors-mono n m h v = record { vector_of = λ id k. v.vector_of id (omega arith) }

  -- the ids and levels of the items, and what was found for each among the first nodes
  abbrev AllFound : ℕ → HnswConfig → List (Entry env × List (List (Candidate env))) → Type 0
  AllFound n config searched = All (λ s. Layered n config 0 s.1) searched

  abbrev Searched :
      ℕ
      → HnswConfig
      → List (Entry env)
      → Option (List (Entry env × List (List (Candidate env))))
      → Type 0
  Searched n config items outcome =
      (searched : List (Entry env × List (List (Candidate env)))) × (outcome ≡ some searched)
      × AllFound n config searched
      × (map (λ s. s.0) searched ≡ items)

  search_items_cons :
      (index : HnswIndex env) (item : Entry env) (items : List (Entry env)) (ep : Option InternalId)
      (found : List (List (Candidate env))) (rest : List (Entry env × List (List (Candidate env))))
      → index.entry_point ≡ ep
      → search_item env storage index item ep ≡ some found
      → search_items env storage index items ≡ some rest
      → search_items env storage index (item ∷ items) ≡ some ((item, found) ∷ rest)
  unfolding search_items search_item
  search_items_cons index item items ep found rest e at rest_at =
      rw (e, search_items) (rw at (rw rest_at refl))

  search_items-Layered :
      (index : HnswIndex env) (items : List (Entry env))
      → IsStrict env
      → HasVectors storage (length index.nodes)
      → 1 ≤ index.config.ef_construction
      → IsSound index
      → Searched (length index.nodes) index.config items (search_items env storage index items)
  unfolding search_items search_item
  search_items-Layered index [] strict vectors ef sound = ([], refl, tt, refl)
  search_items-Layered index ((level, id, vector) ∷ items) strict vectors ef sound =
      let (rest, done, l, same) = search_items-Layered index items strict vectors ef sound in
      let item : Entry env = (level, id, vector) in
      elim sound.entry [
        | inl (e, empty) ↦ (
          (item, []) ∷ rest,
          search_items_cons index item items none [] rest e refl done,
          (tt, l),
          ap (λ t. item ∷ t) same,
        )
        | inr (ep, e, at) ↦
            let h = entry-in_range index.nodes index.max_layer ep at in
            let (found, done', l') =
              search_item-Layered storage index.config (length index.nodes) vectors strict index
                level id vector ep refl ef (refl, sound.nodes) h in
            (
              (item, found) ∷ rest,
              search_items_cons index item items (some ep) found rest e done' done,
              (l', l),
              ap (λ t. item ∷ t) same,
            )
      ]

  add_item-IsSound :
      (level id : ℕ) (vector : List (Num env)) (found : List (List (Candidate env)))
      (index : HnswIndex env)
      → id ≡ length index.nodes
      → HasVectors storage (length index.nodes + 1)
      → Layered (length index.nodes) index.config 0 found
      → IsSound index
      → (index' : HnswIndex env) × (add_item env storage (level, id, vector) found index
          ≡ some index')
        × IsSound index'
        × (length index'.nodes ≡ length index.nodes + 1)
        × (index'.config ≡ index.config)
  unfolding add_item new_node
  add_item-IsSound level id vector found index is vectors l sound = rw is (
      let n = length index.nodes in
      elim sound.entry [
        | inl (e, empty) ↦
            let node = new_node n level in
            let len : length (index.nodes ++ node ∷ []) ≡ n + 1 =
              omega (arith, length-append index.nodes (node ∷ [])) in
            let pushed =
              push-IsNodes index.config n index.nodes node
                (new_node-IsNode index.config (n + 1) n level) sound.nodes in
            (
              record index {
                nodes = index.nodes ++ node ∷ [];
                entry_point = some n;
                max_layer = level;
              },
              rw (e, add_item) refl,
              first-IsSound level index node (rw len pushed) refl empty,
              len,
              refl,
            )
        | inr (ep, e, at) ↦
            let node : HnswNode = record (new_node n level) {
              neighbors = assign env found (new_node n level).neighbors;
            } in
            let nodes = index.nodes ++ node ∷ [] in
            let len : length nodes ≡ n + 1 = omega (arith, length-append index.nodes (node ∷ [])) in
            let more = Layered-mono n (n + 1) index.config 0 found (omega arith) l in
            let pushed =
              push-IsNodes index.config n index.nodes node
                (assign-IsNode (n + 1) index.config n level found more) sound.nodes in
            let (connected, done, sound', same') =
              connect_found-Written storage index.config (n + 1) vectors 0 n found nodes len
                (omega arith) more pushed in
            let index' : HnswIndex env = record index { nodes = connected } in
            let len' =
              same_length storage index.config (n + 1) vectors nodes connected same' ∙ len in
            let (kept, kept') = raise_same n level index' in
            (
              raise env n level index',
              rw (e, add_item)
                  (rw done
                    (ap (λ o. some (raise env n level (record index' { entry_point = o }))) e)),
              raise-IsSound level index' index.nodes ep (rw len' sound')
                  (same' ∙ levels-append index.nodes node) e at sound.below,
              ap length kept ∙ len',
              kept',
            )
      ])

  add_items-IsSound :
      (n : ℕ) (searched : List (Entry env × List (List (Candidate env)))) (index : HnswIndex env)
      → Numbered env (length index.nodes) (map (λ s. s.0) searched)
      → HasVectors storage (length index.nodes + length searched)
      → n ≤ length index.nodes
      → AllFound n index.config searched
      → IsSound index
      → (index' : HnswIndex env) × (add_items env storage searched index ≡ some index')
        × IsSound index'
        × (length index'.nodes ≡ length index.nodes + length searched)
        × (index'.config ≡ index.config)
  unfolding add_items
  add_items-IsSound n [] index ids vectors h l sound = (index, refl, sound, omega arith, refl)
  add_items-IsSound n (((level, id, vector), found) ∷ rest) index (is, ids) vectors h (l, ls)
        sound =
      let size = length index.nodes in
      let (next, done, sound', len, same) =
        add_item-IsSound level id vector found index is
          (HasVectors-mono (size + 1) (size + suc (length rest)) (omega arith) vectors)
          (Layered-mono n size index.config 0 found h l) sound in
      let count : size + suc (length rest) ≡ length next.nodes + length rest = omega (arith, len) in
      let (out, done', sound'', len', same') =
        add_items-IsSound n rest next (rw len ids) (rw (← count) vectors) (omega (arith, len, h))
          (rw same ls) sound' in
      (out, rw (done, add_items) done', sound'', omega (arith, len', len), same' ∙ same)

  -- A batch whose ids follow those of the index goes through without a panic, whatever the levels of
  -- its items: the index has a node more for each item and is sound again, so that a list of layer 0
  -- has at most `m0` ids and one above it at most `m`. `<` of floats is a strict order, and each node
  -- has its vector in the storage.
  pub insert_batch-IsSound :
      (items : List (Entry env)) (index : HnswIndex env)
      → IsStrict env
      → Numbered env (length index.nodes) items
      → HasVectors storage (length index.nodes + length items)
      → 1 ≤ index.config.ef_construction
      → IsSound index
      → (index' : HnswIndex env) × (insert_batch env storage items index ≡ some index')
        × IsSound index'
        × (length index'.nodes ≡ length index.nodes + length items)
        × (index'.config ≡ index.config)
  unfolding insert_batch
  insert_batch-IsSound items index strict ids vectors ef sound =
      let size = length index.nodes in
      let (searched, done, l, same) =
        search_items-Layered index items strict
          (HasVectors-mono size (size + length items) (omega arith) vectors) ef sound in
      let count : length searched ≡ length items =
        sym (length-map searched (λ s. s.0)) ∙ ap length same in
      let (out, done', sound', len, same') =
        add_items-IsSound size searched index (rw same ids) (rw count vectors) (omega arith) l
          sound in
      (out, rw (done, insert_batch) done', sound', omega (arith, len, count), same')
