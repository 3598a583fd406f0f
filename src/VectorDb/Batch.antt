-- ===== src/VectorDb/Batch.antt =====
-- `upsert_batch` of `VectorDb`.
use zapybase.Prelude.{
  ℕ, suc, ◌+◌, ◌≤◌, ◌≡◌, refl, ap, sym, subst, ◌∙◌, Option, none, some, List, [], ◌∷◌, arith,
  length, length-append, Option-cases, inl, inr,
}
use zapybase.Error.{Result, ok, err, dimension_mismatch}
use zapybase.Env.{Env, Num}
use zapybase.Storage
use zapybase.Storage.{
  VectorStorage, VectorId, InternalId, Item, internal_id_limit, internal_id_from, append_record,
  bad_length, batch_loop,
}
use zapybase.Storage.Invariant.{IsValid}
use zapybase.Storage.Preserve.{internal_id_from_lem}
use zapybase.Storage.Batch.{upsert_batch-IsValid}
use zapybase.Storage.View.{append_record_fields}
use zapybase.Hnsw.{HnswIndex}
use zapybase.Hnsw.Bulk
use zapybase.Hnsw.Greedy.{IsStrict}
use zapybase.Hnsw.GrowsMany.{Numbered, insert_batch-IsSound}
use zapybase.VectorDb.{VectorDb, trait_of, hnsw_items, index_batch, upsert_batch}
use zapybase.VectorDb.Ready.{IsReady, Kept, trait_of-HasVectors}

module _ {env : Env} where
  stored_batch :
      (item : Item env) (items : List (Item env)) (s : VectorStorage env)
      → bad_length env s.dimensions (item ∷ items) ≡ none
      → Storage.upsert_batch env (item ∷ items) s
        ≡ (let out = batch_loop env (length s.internal_to_id) (item ∷ items) s in (ok out.0, out.1))
  unfolding Storage.upsert_batch
  stored_batch item items s good = rw (good, Storage.upsert_batch) refl

  -- The ids of a batch are those of its slots.
  batch_loop-slots :
      (levels : ℕ → ℕ) (items : List (Item env)) (i n position : ℕ) (s : VectorStorage env)
      → length s.internal_to_id ≡ position
      → n ≡ position
      → position + length items ≤ internal_id_limit
      → let out = batch_loop env position items s in
        Numbered env n (hnsw_items env levels i out.0 items)
        × (length (hnsw_items env levels i out.0 items) ≡ length items)
        × (length out.1.internal_to_id ≡ position + length items)
        × (out.1.dimensions ≡ s.dimensions)
  unfolding batch_loop hnsw_items
  batch_loop-slots levels [] i n position s here e room = (tt, refl, omega (arith, here), refl)
  batch_loop-slots levels ((id, vector, metadata) ∷ items) i n position s here e room =
      let k = internal_id_from position in
      let t = append_record env k (id, vector, metadata) s in
      let (vectors, dims, ids, slots) = append_record_fields env k id vector metadata s in
      let more = ap length slots ∙ length-append s.internal_to_id (id ∷ []) in
      let (numbered, len, total, dims') =
        batch_loop-slots levels items (i + 1) (n + 1) (position + 1) t (omega (arith, more, here))
          (omega (arith, e)) (omega (arith, room)) in
      (
        (internal_id_from_lem position (omega (arith, room)) ∙ sym e, numbered),
        ap suc len,
        omega (arith, total),
        dims' ∙ dims,
      )

module _ {env : Env} (metric : List (Num env) → List (Num env) → Num env) where
  index_batch-ok :
      (levels : ℕ → ℕ) (items : List (Item env)) (ids : List InternalId) (db : VectorDb env)
      (index : HnswIndex env)
      → Bulk.insert_batch env
          (trait_of env metric db.storage)
          (hnsw_items env levels 0 ids items)
          db.index
        ≡ some index
      → index_batch env metric levels items (ok ids) db ≡ some (ok tt, record db { index = index })
  unfolding index_batch
  index_batch-ok levels items ids db index h = rw (h, index_batch) refl

  upsert_batch-ok :
      (levels : ℕ → ℕ) (item : Item env) (items : List (Item env)) (db : VectorDb env)
      (ids : List InternalId) (t : VectorStorage env)
      (outcome : Option (Result (Unit {0}) × VectorDb env))
      → bad_length env db.config.dimensions (item ∷ items) ≡ none
      → Storage.upsert_batch env (item ∷ items) db.storage ≡ (ok ids, t)
      → index_batch env metric levels (item ∷ items) (ok ids) (record db { storage = t }) ≡ outcome
      → upsert_batch env metric levels (item ∷ items) db ≡ outcome
  unfolding upsert_batch
  upsert_batch-ok levels item items db ids t outcome good stored h =
      rw (good, upsert_batch) (rw stored h)

  -- On a ready database with enough free internal ids, a batch returns, whatever the lengths of its
  -- vectors and the repetitions of its ids: the reply and the storage are those of the storage's own
  -- batch, and the database is ready again, with a node for each slot. `<` of floats is a strict
  -- order.
  pub upsert_batch-Kept :
      (levels : ℕ → ℕ) (items : List (Item env)) (db : VectorDb env)
      → IsStrict env
      → length db.storage.internal_to_id + length items ≤ internal_id_limit
      → IsReady db
      → Kept metric
          (upsert_batch env metric levels items db)
          (Storage.upsert_batch env items db.storage)
          db
  unfolding upsert_batch Storage.upsert_batch
  upsert_batch-Kept levels [] db strict room ready = ((ok tt, db), refl, ready, refl, refl, refl)
  upsert_batch-Kept levels (item ∷ items) db strict room ready =
      let s = db.storage in
      let all = item ∷ items in
      let sized = ready.sized in
      let kept = upsert_batch-IsValid env all s ready.valid room in
      elim (Option-cases (bad_length env s.dimensions all)) [
        | inr (got, bad) ↦
            let bad' : bad_length env db.config.dimensions all ≡ some got = rw (← sized) bad in
            rw (bad, bad', upsert_batch, Storage.upsert_batch)
              (
                (err (dimension_mismatch db.config.dimensions got), db),
                refl,
                ready,
                rw sized refl,
                refl,
                refl,
              )
        | inl good ↦
            let good' : bad_length env db.config.dimensions all ≡ none = rw (← sized) good in
            let n = length s.internal_to_id in
            let (ids, t) = batch_loop env n all s in
            let same = ready.matched in
            let (numbered, len, total, dims) =
              batch_loop-slots levels all 0 (length db.index.nodes) n s refl same room in
            let stored = stored_batch item items s good in
            let v : IsValid env t = subst (λ o. IsValid env o.1) stored kept in
            let (index, done, sound, count, config) =
              insert_batch-IsSound (trait_of env metric t) (hnsw_items env levels 0 ids all)
                db.index strict numbered
                (trait_of-HasVectors metric t
                  (length db.index.nodes + length (hnsw_items env levels 0 ids all)) v
                  (omega (arith, len, total, same)))
                ready.construction ready.sound in
            rw stored (
              (ok tt, record db { storage = t; index = index }),
              upsert_batch-ok levels item items db ids t
                  (some (ok tt, record db { storage = t; index = index })) good' stored
                  (index_batch-ok levels all ids (record db { storage = t }) index done),
              record {
                valid = v;
                sound = sound;
                matched = omega (arith, count, len, total, same);
                sized = dims ∙ ready.sized;
                construction = rw config ready.construction;
                searching = rw config ready.searching;
              },
              refl,
              refl,
              refl,
            )
      ]
