-- ===== src/VectorDb.antt =====
-- crates/surgedb-core/src/lib.rs: `VectorDb`, the storage of storage.rs under the index of hnsw.rs.
-- The distance of the configured metric is a parameter, and so is the level that the index draws
-- for each new node. `none` is a panic.
pub mod Ready
pub mod Batch
pub mod Found
use zapybase.Prelude.{
  ℕ, zero, suc, ◌+◌, ◌*◌, Bool, true, false, not, Option, none, some, List, [], ◌∷◌, length, take,
  drop, eqb, if◌then◌else◌,
}
use zapybase.Error.{Result, ok, err, dimension_mismatch, vector_not_found}
use zapybase.Env.{Env, Num, Meta}
use zapybase.Metadata.Filter.{Filter}
use zapybase.Metadata.BitmapIndex
use zapybase.Storage
use zapybase.Storage.{VectorStorage, VectorId, InternalId, Item}
use zapybase.Hnsw.{HnswConfig, HnswIndex}
use zapybase.Hnsw.Connect.{VectorStorageTrait, source_of}
use zapybase.Hnsw.Insert
use zapybase.Hnsw.Bulk
use zapybase.Hnsw.Traverse

pub record Config : Type 0 where
  pub dimensions : ℕ
  pub hnsw : HnswConfig

module _ (env : Env) where
  pub record VectorDb : Type 0 where
    pub config : Config
    pub storage : VectorStorage env
    pub index : HnswIndex env

  -- `VectorDb::new`
  unfoldable pub new : Config → VectorDb
  new config = record {
    config = config;
    storage = Storage.new env config.dimensions;
    index = Insert.new env config.hnsw;
  }

  -- the slot of an external id, if it is the current one of that id
  unfoldable pub current_id : VectorStorage env → InternalId → Option VectorId
  current_id s internal_id = elim (Storage.get_external_id env s internal_id) [
    | none ↦ none
    | some ext_id ↦ elim (Storage.get_internal_id env s ext_id) [
      | none ↦ none
      | some current ↦ if eqb current internal_id then some ext_id else none
    ]
  ]

  -- `filter_map` over the results of the index
  unfoldable pub current_results :
      VectorStorage env
      → List (InternalId × Num env)
      → List (VectorId × Num env × Option (Meta env))
  current_results s [] = []
  current_results s ((internal_id, distance) ∷ results) =
      let rest = current_results s results in
      elim (current_id s internal_id) [
        | none ↦ rest
        | some ext_id ↦ (ext_id, distance, Storage.get_metadata env s internal_id) ∷ rest
      ]

  unfoldable pub without_metadata :
      List (VectorId × Num env × Option (Meta env)) → List (VectorId × Num env)
  without_metadata [] = []
  without_metadata ((id, distance, metadata) ∷ results) = (id, distance) ∷ without_metadata results

  unfoldable pub listed_slots :
      VectorStorage env → List InternalId → List (VectorId × Option (Meta env))
  listed_slots s [] = []
  listed_slots s (internal_id ∷ ids) =
      let rest = listed_slots s ids in
      elim (current_id s internal_id) [
        | none ↦ rest
        | some ext_id ↦ (ext_id, Storage.get_metadata env s internal_id) ∷ rest
      ]

  -- `hnsw_items`, with the level of each item by its position
  unfoldable pub hnsw_items :
      (ℕ → ℕ) → ℕ → List InternalId → List (Item env) → List (ℕ × InternalId × List (Num env))
  hnsw_items levels i [] items = []
  hnsw_items levels i (id ∷ ids) [] = []
  hnsw_items levels i (id ∷ ids) ((ext_id, vector, metadata) ∷ items) =
      (levels i, id, vector) ∷ hnsw_items levels (i + 1) ids items

  unfoldable pub delete : VectorId → VectorDb → Result Bool × VectorDb
  delete id db =
      let (deleted, storage) = Storage.delete env id db.storage in
      (deleted, record db { storage = storage })

  unfoldable pub get : VectorId → VectorDb → Result (Option (List (Num env) × Option (Meta env)))
  get id db = elim (Storage.get_internal_id env db.storage id) [
    | none ↦ ok none
    | some internal_id ↦ elim (Storage.get env db.storage internal_id) [
      | none ↦ err (vector_not_found id)
      | some vector ↦ ok (some (vector, Storage.get_metadata env db.storage internal_id))
    ]
  ]

  unfoldable pub list : ℕ → ℕ → VectorDb → List (VectorId × Option (Meta env))
  list offset limit db =
      take limit (drop offset (listed_slots db.storage (Storage.all_internal_ids env db.storage)))

  unfoldable pub len : VectorDb → ℕ
  len db = Storage.len env db.storage

  unfoldable pub is_empty : VectorDb → Bool
  is_empty db = Storage.is_empty env db.storage

module _ (env : Env) (metric : List (Num env) → List (Num env) → Num env) where
  abbrev pub distance_of : List (Num env) → Option (List (Num env)) → Option (Num env)
  distance_of query none = none
  distance_of query (some vector) = some (metric query vector)

  -- `VectorStorageTrait` of a `VectorStorage`, and of a view of it
  abbrev pub trait_of : VectorStorage env → VectorStorageTrait env
  trait_of s = record {
    distance = λ internal_id query. distance_of query (Storage.get env s internal_id);
    get_vector_data = λ internal_id. Storage.get env s internal_id;
    is_deleted = λ internal_id. Storage.is_deleted env s internal_id;
    get_metadata = λ internal_id. Storage.view_metadata env s internal_id;
  }

  -- `self.index.insert(internal_id, vector, &self.storage)?`
  unfoldable pub index_vector :
      ℕ
      → List (Num env)
      → Result InternalId
      → VectorDb env
      → Option (Result (Unit {0}) × VectorDb env)
  index_vector level vector (err e) db = some (err e, db)
  index_vector level vector (ok internal_id) db =
      elim (Insert.insert env level (trait_of db.storage) internal_id vector db.index) [
        | none ↦ none
        | some index ↦ some (ok tt, record db { index = index })
      ]

  unfoldable pub insert :
      ℕ
      → VectorId
      → List (Num env)
      → Option (Meta env)
      → VectorDb env
      → Option (Result (Unit {0}) × VectorDb env)
  insert level id vector metadata db =
      let (stored, storage) = Storage.insert env id vector metadata db.storage in
      if not (eqb (length vector) db.config.dimensions)
      then some (err (dimension_mismatch db.config.dimensions (length vector)), db)
      else index_vector level vector stored (record db { storage = storage })

  unfoldable pub upsert :
      ℕ
      → VectorId
      → List (Num env)
      → Option (Meta env)
      → VectorDb env
      → Option (Result (Unit {0}) × VectorDb env)
  upsert level id vector metadata db =
      let (stored, storage) = Storage.upsert env id vector metadata db.storage in
      if not (eqb (length vector) db.config.dimensions)
      then some (err (dimension_mismatch db.config.dimensions (length vector)), db)
      else index_vector level vector stored (record db { storage = storage })

  unfoldable pub index_batch :
      (ℕ → ℕ)
      → List (Item env)
      → Result (List InternalId)
      → VectorDb env
      → Option (Result (Unit {0}) × VectorDb env)
  index_batch levels items (err e) db = some (err e, db)
  index_batch levels items (ok ids) db =
      elim (Bulk.insert_batch env (trait_of db.storage) (hnsw_items env levels 0 ids items)
        db.index) [ none ↦ none | some index ↦ some (ok tt, record db { index = index }) ]

  unfoldable pub upsert_batch :
      (ℕ → ℕ) → List (Item env) → VectorDb env → Option (Result (Unit {0}) × VectorDb env)
  upsert_batch levels [] db = some (ok tt, db)
  upsert_batch levels (item ∷ items) db =
      elim (Storage.bad_length env db.config.dimensions (item ∷ items)) [
        | some got ↦ some (err (dimension_mismatch db.config.dimensions got), db)
        | none ↦
            let (stored, storage) = Storage.upsert_batch env (item ∷ items) db.storage in
            index_batch levels (item ∷ items) stored (record db { storage = storage })
      ]

  -- the stale results are dropped from what the index returns for `k * 2`
  abbrev pub mapped :
      VectorStorage env
      → ℕ
      → Result (Option (List (InternalId × Num env)))
      → Option (Result (List (VectorId × Num env × Option (Meta env))))
  mapped s k (err e) = some (err e)
  mapped s k (ok none) = none
  mapped s k (ok (some results)) = some (ok (take k (current_results env s results)))

  -- whether bitmaps are enabled, the query, the number of neighbors and the filter
  unfoldable pub search :
      Bool
      → List (Num env)
      → ℕ
      → Option (Filter env.serde.Number env.serde.float.Num)
      → VectorDb env
      → Option (Result (List (VectorId × Num env × Option (Meta env))))
  search enabled query k filter db =
      if not (eqb (length query) db.config.dimensions)
      then some (err (dimension_mismatch db.config.dimensions (length query)))
      else mapped db.storage k (
          Traverse.search env enabled (k * 2) (source_of env (trait_of db.storage) query)
            (BitmapIndex.filter env.roaring env.serde.to_string db.storage.bitmap_index) filter
            db.index)

  abbrev ids_only :
      Option (Result (List (VectorId × Num env × Option (Meta env))))
      → Option (Result (List (VectorId × Num env)))
  ids_only none = none
  ids_only (some (err e)) = some (err e)
  ids_only (some (ok results)) = some (ok (without_metadata env results))

  unfoldable pub search_ids :
      Bool
      → List (Num env)
      → ℕ
      → Option (Filter env.serde.Number env.serde.float.Num)
      → VectorDb env
      → Option (Result (List (VectorId × Num env)))
  search_ids enabled query k filter db = ids_only (search enabled query k filter db)
