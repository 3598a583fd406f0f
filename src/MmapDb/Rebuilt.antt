-- ===== src/MmapDb/Rebuilt.antt =====
-- Opening a `MmapVectorDb` whose saved index is lost: the index is built again from the storage.
use zapybase.Prelude.{
  ℕ, ◌≤◌, ◌≡◌, refl, sym, ◌∙◌, ap, subst, Option, none, some, List, ◌∷◌, inl, inr, Option-cases,
}
use zapybase.Error.{Error, ok, err, storage}
use zapybase.Env.{Env, Num}
use zapybase.Storage.{internal_id_limit}
use zapybase.Wal.Bytes.{Byte}
use zapybase.Hnsw.Greedy.{IsStrict}
use zapybase.Hnsw.Insert
use zapybase.MmapStorage
use zapybase.MmapStorage.{MmapStorage, FloatBytes, IdCodec, read_vector, open_storage}
use zapybase.MmapStorage.Slots.{ReadsBack}
use zapybase.MmapStorage.Valid.{IsMapped}
use zapybase.MmapStorage.Inserted.{CodecReads, saved-IsMapped}
use zapybase.MmapStorage.Reopened.{sync-open_storage}
use zapybase.MmapDb.Ready.{IsReady, rebuild_index-IsReady}
use zapybase.Hnsw.State.{HnswState, get_state}
use zapybase.MmapDb.{
  MmapConfig, MmapVectorDb, StateCodec, load_index, save_index, saved, and_saved_rebuilt, open_db,
}

module _ {env : Env} (metric : List (Num env) → List (Num env) → Num env) (floats : FloatBytes env)
    (codec : IdCodec) (states : StateCodec) (law : ReadsBack floats) where
  index_lost :
      (db : MmapVectorDb env)
      → ((bytes : List Byte) → db.state_file ≡ some bytes → states.deserialize bytes ≡ none)
      → (e : Error) × (load_index env metric floats codec states db ≡ err e)
  unfolding load_index
  index_lost db lost = elim (Option-cases db.state_file) [
    | inl absent ↦ (storage "Index state not found", rw (load_index, absent) refl)
    | inr (bytes, present) ↦
        (storage "bincode", rw (load_index, present) (rw (lost bytes present) refl))
  ]

  -- what opening makes of a storage, where the state of the index is lost
  abbrev pub Reopened : (ℕ → ℕ) → MmapConfig → Option (List Byte) → MmapStorage → Type 0
  Reopened levels config state_file s =
      (db : MmapVectorDb env) × (open_db env metric floats codec states levels config
          (some s.data_file) s.index_file state_file
        ≡ some (ok db))
      × IsReady floats codec db
      × (db.storage ≡ s)
      × (db.config ≡ config)
      × (db.state_file ≡ states.serialize (get_state env db.index))

  save_index-written :
      (db : MmapVectorDb env) (bytes : List Byte)
      → states.serialize (get_state env db.index) ≡ some bytes
      → save_index env metric floats codec states db
        ≡ (ok tt, record db { state_file = some bytes })
  unfolding save_index
  save_index-written db bytes written = rw (save_index, written) refl

  opened-Reopened :
      (levels : ℕ → ℕ) (config : MmapConfig) (state_file : Option (List Byte)) (s : MmapStorage)
      → open_storage env floats codec config.dimensions (some s.data_file) s.index_file ≡ ok s
      → IsStrict env
      → IsMapped floats codec s
      → s.count ≤ internal_id_limit
      → s.dimensions ≡ config.dimensions
      → ((state : HnswState) → (bytes : List Byte) × (states.serialize state ≡ some bytes))
      → ((bytes : List Byte) → state_file ≡ some bytes → states.deserialize bytes ≡ none)
      → 1 ≤ config.hnsw.ef_construction
      → 1 ≤ config.hnsw.ef_search
      → Reopened levels config state_file s
  unfolding open_db save_index
  opened-Reopened levels config state_file s opens strict v room sized writes lost c k =
      let db : MmapVectorDb env = record {
        config = config;
        storage = s;
        index = Insert.new env config.hnsw;
        state_file = state_file;
      } in
      let (e, failed) = index_lost db lost in
      let (index, done, ready) =
        rebuild_index-IsReady metric floats codec states law levels db strict v room sized refl c
          k in
      let (bytes, written) = writes (get_state env index) in
      (
        record db { index = index; state_file = some bytes },
        rw (open_db, opens)
            (rw failed (
              ap (and_saved_rebuilt env metric floats codec states) done
              ∙ ap (λ r. some (saved env metric floats codec states r))
                  (save_index-written (record db { index = index }) bytes written))),
        record {
          valid = ready.valid;
          sound = ready.sound;
          matched = ready.matched;
          sized = ready.sized;
          construction = ready.construction;
          searching = ready.searching;
        },
        refl,
        refl,
        sym written,
      )

  save_index-reads :
      (s : MmapStorage) (reads : CodecReads codec s.internal_to_id)
      → MmapStorage.save_index env floats codec s
        ≡ (ok tt, record s { index_file = some (reads.first ∷ reads.others) })
  unfolding MmapStorage.save_index
  save_index-reads s reads = rw (MmapStorage.save_index, reads.written) refl

  sync_saved :
      (s : MmapStorage) (reads : CodecReads codec s.internal_to_id)
      → (MmapStorage.sync env floats codec s).1
        ≡ record s { index_file = some (reads.first ∷ reads.others) }
  unfolding MmapStorage.sync
  sync_saved s reads = ap (λ r. r.1) (save_index-reads s reads)

  -- The files of a valid storage after `sync`, without the state of an index or with one that
  -- `bincode` does not read, are opened: the index is built again, without a panic, and the database
  -- has the storage as it was and a sound index with one node for each slot, whose state is saved.
  -- `<` of floats is a strict order, and `bincode` writes each state.
  pub open_db-IsReady :
      (levels : ℕ → ℕ) (config : MmapConfig) (state_file : Option (List Byte)) (s : MmapStorage)
      → IsStrict env
      → IsMapped floats codec s
      → CodecReads codec s.internal_to_id
      → s.count ≤ internal_id_limit
      → s.dimensions ≡ config.dimensions
      → ((state : HnswState) → (bytes : List Byte) × (states.serialize state ≡ some bytes))
      → ((bytes : List Byte) → state_file ≡ some bytes → states.deserialize bytes ≡ none)
      → 1 ≤ config.hnsw.ef_construction
      → 1 ≤ config.hnsw.ef_search
      → let synced = (MmapStorage.sync env floats codec s).1 in
        Reopened levels config state_file synced
  open_db-IsReady levels config state_file s strict v reads room sized writes lost c k =
      let synced = (MmapStorage.sync env floats codec s).1 in
      let saved = sync_saved s reads in
      let (ok_synced, opens) = sync-open_storage floats codec s reads v in
      opened-Reopened levels config state_file synced
        (subst
          (λ d.
            open_storage env floats codec d (some synced.data_file) synced.index_file ≡ ok synced)
          sized opens)
        strict
        (subst (IsMapped floats codec) (sym saved)
          (saved-IsMapped floats codec law s (some (reads.first ∷ reads.others)) v))
        (subst (λ t. t.count ≤ internal_id_limit) (sym saved) room)
        (subst (λ t. t.dimensions ≡ config.dimensions) (sym saved) sized) writes lost c k
