-- ===== src/MmapDb/Grown.antt =====
-- Insertion into a `MmapVectorDb`.
use zapybase.Prelude.{
  ℕ, ◌+◌, ◌<◌, ◌≡◌, refl, ◌∙◌, ap, subst, inl, inr, true, false, some, List, [], ◌∷◌, ◌++◌, length,
  arith, eqb,
}
use zapybase.Error.{Result, ok, err, dimension_mismatch}
use zapybase.Env.{Env, Num}
use zapybase.Storage.{VectorId, InternalId, internal_id_limit}
use zapybase.Hnsw.{HnswIndex}
use zapybase.Hnsw.Insert
use zapybase.Hnsw.Greedy.{IsStrict}
use zapybase.Hnsw.Grows.{insert-IsSound}
use zapybase.MmapStorage
use zapybase.MmapStorage.{MmapStorage, FloatBytes, IdCodec, append_vector}
use zapybase.MmapStorage.Slots.{ReadsBack}
use zapybase.MmapStorage.Valid.{IsMapped, append_vector_fields}
use zapybase.MmapStorage.Inserted.{CodecReads, insert_internal-cases, insert_internal-view}
use zapybase.VectorDb.Ready.{discard}
use zapybase.MmapDb.Ready.{IsReady, trait_of-HasVectors}
use zapybase.MmapDb.{MmapVectorDb, StateCodec, trait_of, indexed, insert}

module _ {env : Env} (metric : List (Num env) → List (Num env) → Num env) (floats : FloatBytes env)
    (codec : IdCodec) (states : StateCodec) (law : ReadsBack floats) where
  indexed-ok :
      (level : ℕ) (vector : List (Num env)) (n : InternalId) (db : MmapVectorDb env)
      (grown : HnswIndex env)
      → Insert.insert env level
          (trait_of env metric floats codec states db.storage)
          n
          vector
          db.index
        ≡ some grown
      → indexed env metric floats codec states level vector (ok n) db
        ≡ some (ok tt, record db { index = grown })
  unfolding indexed
  indexed-ok level vector n db grown h = rw (h, indexed) refl

  -- On a ready database with a free internal id, for ids that `bincode` writes, an insertion returns,
  -- for a vector of any length and an id that is present or not: the reply and the storage are those
  -- of the storage's own insertion, the database is ready again, with a node for each slot, and the
  -- saved state of the index is the old one. `<` of floats is a strict order.
  pub insert-IsReady :
      (level : ℕ) (id : VectorId) (vector : List (Num env)) (db : MmapVectorDb env)
      → IsStrict env
      → db.storage.count < internal_id_limit
      → CodecReads codec (db.storage.internal_to_id ++ id ∷ [])
      → IsReady floats codec db
      → let stored = MmapStorage.insert env floats codec id vector db.storage in
        (out : Result (Unit {0}) × MmapVectorDb env) × (insert env metric floats codec states level
            id vector db
          ≡ some out)
        × IsReady floats codec out.1
        × (out.0 ≡ discard stored.0)
        × (out.1.storage ≡ stored.1)
        × (out.1.state_file ≡ db.state_file)
  unfolding insert MmapStorage.insert indexed
  insert-IsReady level id vector db strict room reads ready =
      let s = db.storage in
      let sized = ready.sized in
      let kept = insert_internal-view floats codec law id vector false s ready.valid room reads in
      elim (insert_internal-cases floats codec law id vector false s room reads) [
        | inl (wrong, refused) ↦
            let wrong' : eqb (length vector) db.config.dimensions ≡ false = rw (← sized) wrong in
            rw (refused, wrong')
              (
                (err (dimension_mismatch db.config.dimensions (length vector)), db),
                refl,
                ready,
                rw sized refl,
                refl,
                refl,
              )
        | inr (fits, inl (e, refused)) ↦
            let fits' : eqb (length vector) db.config.dimensions ≡ true = rw (← sized) fits in
            rw (refused, fits') ((err e, db), refl, ready, refl, refl, refl)
        | inr (fits, inr (index_file, accepted)) ↦
            let fits' : eqb (length vector) db.config.dimensions ≡ true = rw (← sized) fits in
            let t : MmapStorage = record (append_vector env floats codec id vector s) {
              index_file = index_file;
            } in
            let (dims, file, count, ids, names, size, index) =
              append_vector_fields floats codec law id vector s in
            let v : IsMapped floats codec t =
              subst (IsMapped floats codec) (ap (λ r. r.1) accepted) kept.2 in
            let same = ready.matched in
            let (grown, done, sound, len, config) =
              insert-IsSound level (trait_of env metric floats codec states t) vector db.index
                strict
                (trait_of-HasVectors metric floats codec states law t (length db.index.nodes + 1) v
                  (omega (arith, count, same)))
                ready.construction ready.sound in
            let done' : Insert.insert env level (trait_of env metric floats codec states t) s.count
                  vector db.index
                ≡ some grown =
              subst
                (λ n.
                  Insert.insert env level (trait_of env metric floats codec states t) n vector
                    db.index
                  ≡ some grown)
                same done in
            rw (accepted, fits')
              (
                (ok tt, record db { storage = t; index = grown }),
                indexed-ok level vector s.count (record db { storage = t }) grown done',
                record {
                  valid = v;
                  sound = sound;
                  matched = omega (arith, len, count, same);
                  sized = dims ∙ sized;
                  construction = rw config ready.construction;
                  searching = rw config ready.searching;
                },
                refl,
                refl,
                refl,
              )
      ]
