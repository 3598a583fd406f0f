-- ===== src/MmapDb.antt =====
-- crates/surgedb-core/src/mmap_db.rs: `MmapVectorDb`, the memory-mapped storage under the index of
-- hnsw.rs, and the file `index.state` as its bytes. What `bincode` makes of the state of an index is
-- a parameter, and so are the distance of the configured metric and the level that the index draws
-- for a new node. `none` is a panic.
pub mod Ready
pub mod Rebuilt
pub mod Grown
use zapybase.Prelude.{
  ℕ, Bool, false, not, Option, none, some, List, [], ◌∷◌, length, eqb, if◌then◌else◌,
}
use zapybase.Error.{Result, ok, err, storage, dimension_mismatch}
use zapybase.Env.{Env, Num}
use zapybase.Metadata.Filter.{Filter}
use zapybase.Storage.{VectorId, InternalId}
use zapybase.Wal.Bytes.{Byte}
use zapybase.Hnsw.{HnswConfig, HnswNode, HnswIndex}
use zapybase.Hnsw.State.{HnswState, get_state, load_state}
use zapybase.Hnsw.Connect.{VectorStorageTrait, source_of}
use zapybase.Hnsw.Insert
use zapybase.Hnsw.Traverse
use zapybase.MmapStorage
use zapybase.MmapStorage.{MmapStorage, FloatBytes, IdCodec, open_storage}

-- `bincode` of an `HnswState`
pub record StateCodec : Type 0 where
  pub serialize : HnswState → Option (List Byte)
  pub deserialize : List Byte → Option HnswState

pub record MmapConfig : Type 0 where
  pub dimensions : ℕ
  pub hnsw : HnswConfig

module _ (env : Env) where
  pub record MmapVectorDb : Type 0 where
    pub config : MmapConfig
    pub storage : MmapStorage
    pub index : HnswIndex env
    pub state_file : Option (List Byte)

  -- the loop of `rebuild_index`
  unfoldable pub rebuild_from :
      (ℕ → ℕ) → VectorStorageTrait env → List InternalId → HnswIndex env → Option (HnswIndex env)
  rebuild_from levels s [] index = some index
  rebuild_from levels s (id ∷ ids) index = elim (s.get_vector_data id) [
    | none ↦ rebuild_from levels s ids index
    | some vector ↦ elim (Insert.insert env (levels id) s id vector index) [
      | none ↦ none
      | some index' ↦ rebuild_from levels s ids index'
    ]
  ]

module _ (env : Env) (metric : List (Num env) → List (Num env) → Num env) (floats : FloatBytes env)
    (codec : IdCodec) (states : StateCodec) where
  -- `VectorStorageTrait` of the storage, and of a view of it
  abbrev pub trait_of : MmapStorage → VectorStorageTrait env
  trait_of s = record {
    distance =
        λ internal_id query. MmapStorage.distance env floats codec metric query s internal_id;
    get_vector_data = λ internal_id. MmapStorage.get env floats codec s internal_id;
    is_deleted = λ internal_id. false;
    get_metadata = λ internal_id. none;
  }

  unfoldable pub load_index : MmapVectorDb env → Result (MmapVectorDb env)
  load_index db = elim db.state_file [
    | none ↦ err (storage "Index state not found")
    | some bytes ↦ elim (states.deserialize bytes) [
      | none ↦ err (storage "bincode")
      | some state ↦ ok (record db { index = load_state env state db.index })
    ]
  ]

  unfoldable pub save_index : MmapVectorDb env → Result (Unit {0}) × MmapVectorDb env
  save_index db = elim (states.serialize (get_state env db.index)) [
    | none ↦ (err (storage "bincode"), db)
    | some bytes ↦ (ok tt, record db { state_file = some bytes })
  ]

  unfoldable pub rebuild_index : (ℕ → ℕ) → MmapVectorDb env → Option (MmapVectorDb env)
  rebuild_index levels db =
      elim (rebuild_from env levels (trait_of db.storage)
        (MmapStorage.all_internal_ids env floats codec db.storage) db.index) [
          | none ↦ none
          | some index ↦ some (record db { index = index })
        ]

  abbrev pub saved : Result (Unit {0}) × MmapVectorDb env → Result (MmapVectorDb env)
  saved (err e, db) = err e
  saved (ok u, db) = ok db

  abbrev pub and_saved_rebuilt : Option (MmapVectorDb env) → Option (Result (MmapVectorDb env))
  and_saved_rebuilt none = none
  and_saved_rebuilt (some rebuilt) = some (saved (save_index rebuilt))

  abbrev or_rebuilt :
      (ℕ → ℕ) → MmapVectorDb env → Result (MmapVectorDb env) → Option (Result (MmapVectorDb env))
  or_rebuilt levels db (ok loaded) = some (ok loaded)
  or_rebuilt levels db (err e) = and_saved_rebuilt (rebuild_index levels db)

  abbrev opened :
      (ℕ → ℕ)
      → MmapConfig
      → Option (List Byte)
      → Result MmapStorage
      → Option (Result (MmapVectorDb env))
  opened levels config state_file (err e) = some (err e)
  opened levels config state_file (ok s) =
      let db : MmapVectorDb env = record {
        config = config;
        storage = s;
        index = Insert.new env config.hnsw;
        state_file = state_file;
      } in
      or_rebuilt levels db (load_index db)

  -- `MmapVectorDb::open`, on the three files of the directory
  unfoldable pub open_db :
      (ℕ → ℕ)
      → MmapConfig
      → Option (List Byte)
      → Option (List Byte)
      → Option (List Byte)
      → Option (Result (MmapVectorDb env))
  open_db levels config data_file index_file state_file =
      opened levels config state_file
        (open_storage env floats codec config.dimensions data_file index_file)

  unfoldable pub indexed :
      ℕ
      → List (Num env)
      → Result InternalId
      → MmapVectorDb env
      → Option (Result (Unit {0}) × MmapVectorDb env)
  indexed level vector (err e) db = some (err e, db)
  indexed level vector (ok internal_id) db =
      elim (Insert.insert env level (trait_of db.storage) internal_id vector db.index) [
        | none ↦ none
        | some index ↦ some (ok tt, record db { index = index })
      ]

  unfoldable pub insert :
      ℕ
      → VectorId
      → List (Num env)
      → MmapVectorDb env
      → Option (Result (Unit {0}) × MmapVectorDb env)
  insert level id vector db =
      let (stored, s) = MmapStorage.insert env floats codec id vector db.storage in
      if not (eqb (length vector) db.config.dimensions)
      then some (err (dimension_mismatch db.config.dimensions (length vector)), db)
      else indexed level vector stored (record db { storage = s })

  unfoldable pub named_results :
      MmapStorage → List (InternalId × Num env) → List (VectorId × Num env)
  named_results s [] = []
  named_results s ((internal_id, distance) ∷ results) =
      let rest = named_results s results in
      elim (MmapStorage.get_external_id env floats codec s internal_id) [
        | none ↦ rest
        | some ext_id ↦ (ext_id, distance) ∷ rest
      ]

  abbrev named :
      MmapStorage
      → Result (Option (List (InternalId × Num env)))
      → Option (Result (List (VectorId × Num env)))
  named s (err e) = some (err e)
  named s (ok none) = none
  named s (ok (some results)) = some (ok (named_results s results))

  -- whether bitmaps are enabled, the query and the number of neighbors
  unfoldable pub search :
      Bool → List (Num env) → ℕ → MmapVectorDb env → Option (Result (List (VectorId × Num env)))
  search enabled query k db =
      if not (eqb (length query) db.config.dimensions)
      then some (err (dimension_mismatch db.config.dimensions (length query)))
      else named db.storage (
          Traverse.search env enabled k (source_of env (trait_of db.storage) query) (λ f. none) none
            db.index)

  unfoldable pub len : MmapVectorDb env → ℕ
  len db = MmapStorage.len env floats codec db.storage

  unfoldable pub is_empty : MmapVectorDb env → Bool
  is_empty db = MmapStorage.is_empty env floats codec db.storage

  unfoldable pub disk_usage : MmapVectorDb env → ℕ
  disk_usage db = MmapStorage.disk_usage env floats codec db.storage

  abbrev and_saved : Result (Unit {0}) → MmapVectorDb env → Result (Unit {0}) × MmapVectorDb env
  and_saved (err e) db = (err e, db)
  and_saved (ok u) db = save_index db

  unfoldable pub sync : MmapVectorDb env → Result (Unit {0}) × MmapVectorDb env
  sync db =
      let (synced, s) = MmapStorage.sync env floats codec db.storage in
      and_saved synced (record db { storage = s })
