-- ===== src/MmapDb/Ready.antt =====
-- What the operations of `MmapVectorDb` keep true: the storage is valid, the index is sound, and it
-- has one node for each slot; and that building the index from the storage makes it so.
use zapybase.Prelude.{
  ℕ, zero, suc, ◌+◌, ◌*◌, ◌≤◌, ◌≡◌, refl, sym, ◌∙◌, ap, subst, some, List, ◌∷◌, length, arith, inl,
}
use zapybase.Prelude.Slices.{slice}
use zapybase.Env.{Env, Num}
use zapybase.Storage.{InternalId, internal_id_limit, range}
use zapybase.Storage.Preserve.{internal_id_from_lem}
use zapybase.Hnsw.{HnswConfig, HnswIndex}
use zapybase.Hnsw.Greedy.{IsStrict}
use zapybase.Hnsw.Edges.{HasVectors}
use zapybase.Hnsw.Grows.{IsSound, insert-IsSound}
use zapybase.Hnsw.Insert
use zapybase.Hnsw.Connect.{VectorStorageTrait}
use zapybase.MmapStorage
use zapybase.MmapStorage.{MmapStorage, FloatBytes, IdCodec, read_vector, open_storage}
use zapybase.MmapStorage.Slots.{ReadsBack, offset, get_slot}
use zapybase.MmapStorage.Valid.{IsMapped}
use zapybase.MmapStorage.Refines.{mapped_length, slot_fits}
use zapybase.MmapDb.{MmapVectorDb, StateCodec, rebuild_from, rebuild_index, trait_of}

module _ {env : Env} where
  rebuild_from_step :
      (levels : ℕ → ℕ) (trait : VectorStorageTrait env) (id : InternalId) (vector : List (Num env))
      (ids : List InternalId) (index index' : HnswIndex env)
      → trait.get_vector_data id ≡ some vector
      → Insert.insert env (levels id) trait id vector index ≡ some index'
      → rebuild_from env levels trait (id ∷ ids) index ≡ rebuild_from env levels trait ids index'
  unfolding rebuild_from
  rebuild_from_step levels trait id vector ids index index' stored done =
      rw (rebuild_from, stored) (rw done refl)

  -- The ids behind those of the index are put into it one after the other.
  pub rebuild_from-IsSound :
      (levels : ℕ → ℕ) (trait : VectorStorageTrait env) (from count : ℕ) (index : HnswIndex env)
      → IsStrict env
      → from ≡ length index.nodes
      → HasVectors trait (from + count)
      → from + count ≤ internal_id_limit
      → 1 ≤ index.config.ef_construction
      → IsSound index
      → (index' : HnswIndex env) × (rebuild_from env levels trait (range env from count) index
          ≡ some index')
        × IsSound index'
        × (length index'.nodes ≡ from + count)
        × (index'.config ≡ index.config)
  unfolding rebuild_from range
  rebuild_from-IsSound levels trait from zero index strict same vectors room ef sound =
      (index, refl, sound, omega (arith, same), refl)
  rebuild_from-IsSound levels trait from (suc count) index strict same vectors room ef sound =
      let number = internal_id_from_lem from (omega (arith, room)) in
      let (vector, stored) = vectors.vector_of from (omega arith) in
      let below : HasVectors trait (length index.nodes + 1) = record {
        vector_of = λ id h. vectors.vector_of id (omega (arith, h, same));
      } in
      let (index', done, sound', len, config) =
        insert-IsSound (levels from) trait vector index strict below ef sound in
      let done' : Insert.insert env (levels from) trait from vector index ≡ some index' =
        subst (λ n. Insert.insert env (levels from) trait n vector index ≡ some index') (sym same)
          done in
      let (last, all_done, sound'', len', config') =
        rebuild_from-IsSound levels trait (from + 1) count index' strict (omega (arith, len, same))
          (record { vector_of = λ id h. vectors.vector_of id (omega (arith, h)) })
          (omega (arith, room)) (rw config ef) sound' in
      (
        last,
        ap (λ i. rebuild_from env levels trait (i ∷ range env (from + 1) count) index) number
            ∙ rebuild_from_step levels trait from vector (range env (from + 1) count) index index'
                stored done'
            ∙ all_done,
        sound'',
        omega (arith, len'),
        config' ∙ config,
      )

  pub new-IsSound : (config : HnswConfig) → IsSound (Insert.new env config)
  unfolding Insert.new
  new-IsSound config = record {
    nodes = record { each = λ i node at. cc };
    entry = inl (refl, refl);
    below = tt;
  }

module _ {env : Env} (floats : FloatBytes env) (codec : IdCodec) where
  pub record IsReady (db : MmapVectorDb env) : Type 0 where
    pub valid : IsMapped floats codec db.storage
    pub sound : IsSound db.index
    pub matched : length db.index.nodes ≡ db.storage.count
    pub sized : db.storage.dimensions ≡ db.config.dimensions
    pub construction : 1 ≤ db.index.config.ef_construction
    pub searching : 1 ≤ db.index.config.ef_search

module _ {env : Env} (metric : List (Num env) → List (Num env) → Num env) (floats : FloatBytes env)
    (codec : IdCodec) (states : StateCodec) (law : ReadsBack floats) where
  -- The storage has the vector of every slot.
  pub trait_of-HasVectors :
      (s : MmapStorage) (n : ℕ)
      → IsMapped floats codec s
      → n ≤ s.count
      → HasVectors (trait_of env metric floats codec states s) n
  trait_of-HasVectors s n v h = record {
    vector_of = λ id k. (
      read_vector env floats codec
          (slice s.data_file (offset floats codec s id) (s.dimensions * 4)),
      get_slot floats codec s id (mapped_length floats codec law s id v (omega arith))
          (slot_fits floats codec law s id v (omega arith)),
    );
  }

  pub rebuild_index-IsReady :
      (levels : ℕ → ℕ) (db : MmapVectorDb env)
      → IsStrict env
      → IsMapped floats codec db.storage
      → db.storage.count ≤ internal_id_limit
      → db.storage.dimensions ≡ db.config.dimensions
      → db.index ≡ Insert.new env db.config.hnsw
      → 1 ≤ db.config.hnsw.ef_construction
      → 1 ≤ db.config.hnsw.ef_search
      → (index : HnswIndex env) × (rebuild_index env metric floats codec states levels db
          ≡ some (record db { index = index }))
        × IsReady floats codec (record db { index = index })
  unfolding rebuild_index MmapStorage.all_internal_ids Insert.new
  rebuild_index-IsReady levels db strict v room sized new construction searching =
      let s = db.storage in
      let config = ap (λ i. i.config) new in
      let empty = ap (λ i. length i.nodes) new in
      let (index, done, sound, len, same) =
        rebuild_from-IsSound levels (trait_of env metric floats codec states s) 0 s.count db.index
          strict (sym empty) (trait_of-HasVectors s (0 + s.count) v (omega arith))
          (omega (arith, room)) (rw config construction)
          (subst IsSound (sym new) (new-IsSound db.config.hnsw)) in
      (
        index,
        rw (done, rebuild_index) refl,
        record {
          valid = v;
          sound = sound;
          matched = omega (arith, len);
          sized = sized;
          construction = rw (same ∙ config) construction;
          searching = rw (same ∙ config) searching;
        },
      )
