-- ===== src/Storage.antt =====
-- crates/surgedb-core/src/storage.rs: `VectorStorage` and its operations, and `InternalId` of
-- types.rs. A lock guards each field in the source; a call of `&self` that takes the write locks
-- is one step here, from the state before it to the state after it.
pub mod Invariant
pub mod Preserve
pub mod View
pub mod Refines
pub mod Batch
pub mod Steps
use zapybase.Prelude.{
  ℕ, zero, suc, ◌+◌, ◌*◌, ◌%◌, ◌^◌, String, Bool, true, false, not, ◌&&◌, Option, none, some, List,
  [], ◌∷◌, ◌++◌, length, get_elem?, eqb, leb, if◌then◌else◌,
}
use zapybase.Prelude.Eq.{nat_eq, string_eq, contains}
use zapybase.Prelude.Slices.{slice}
use zapybase.Collections.HashMap
use zapybase.Collections.HashMap.{HashMap}
use zapybase.Collections.HashSet
use zapybase.Error.{Result, ok, err, dimension_mismatch, duplicate_id}
use zapybase.Env.{Env, Num, Meta}
use zapybase.Metadata.BitmapIndex.{
  BitmapIndex, new as new_index, index as index_document, remove as remove_document,
}

-- `VectorId` is a new type around `String`, and `InternalId` around `u32`.
abbrev pub VectorId : Type 0
VectorId = String

abbrev pub InternalId : Type 0
InternalId = ℕ

abbrev pub internal_id_limit : ℕ
internal_id_limit = 2 ^ 32

-- `InternalId::from(id: usize)`, a cast to `u32`
unfoldable pub internal_id_from : ℕ → InternalId
internal_id_from id = id % internal_id_limit

-- `(id, vector, metadata)`
abbrev pub Item : Env → Type 0
Item env = VectorId × List (Num env) × Option (Meta env)

module _ (env : Env) where
  abbrev pub Index : Type 0
  Index = BitmapIndex env.roaring env.serde.to_string

  pub record VectorStorage : Type 0 where
    pub dimensions : ℕ
    pub vectors : List (Num env)
    pub id_to_internal : HashMap VectorId InternalId
    pub internal_to_id : List VectorId
    pub metadata : HashMap InternalId (Meta env)
    pub deleted : List InternalId
    pub bitmap_index : Index

  unfoldable pub new : ℕ → VectorStorage
  new dimensions = record {
    dimensions = dimensions;
    vectors = [];
    id_to_internal = HashMap.new;
    internal_to_id = [];
    metadata = HashMap.new;
    deleted = [];
    bitmap_index = new_index env.roaring env.serde.to_string;
  }

  -- `if let Some(old_meta) = metadata.remove(&old) { bitmap_index.remove(old, &old_meta) }`
  unfoldable pub drop_metadata : InternalId → VectorStorage → VectorStorage
  drop_metadata old s = elim (HashMap.get s.metadata old) [
    | none ↦ s
    | some old_meta ↦ record s {
      metadata = HashMap.remove s.metadata old;
      bitmap_index = remove_document env.roaring env.serde.to_string old old_meta s.bitmap_index;
    }
  ]

  -- an internal id that is no longer the one of an external id
  unfoldable pub retire : InternalId → VectorStorage → VectorStorage
  retire old s = drop_metadata old (record s { deleted = HashSet.insert s.deleted old })

  unfoldable pub delete : VectorId → VectorStorage → Result Bool × VectorStorage
  delete id s = elim (HashMap.get s.id_to_internal id) [
    | none ↦ (ok false, s)
    | some internal_id ↦ (
      ok true,
      retire internal_id (record s { id_to_internal = HashMap.remove s.id_to_internal id }),
    )
  ]

  unfoldable pub retire_old : Option InternalId → VectorStorage → VectorStorage
  retire_old none s = s
  retire_old (some old) s = retire old s

  -- `if let Some(meta) = metadata { bitmap_index.index(..); metadata_store.insert(..) }`
  unfoldable pub store_metadata : InternalId → Option (Meta env) → VectorStorage → VectorStorage
  store_metadata internal_id none s = s
  store_metadata internal_id (some meta) s = record s {
    metadata = HashMap.insert s.metadata internal_id meta;
    bitmap_index = index_document env.roaring env.serde.to_string internal_id meta s.bitmap_index;
  }

  -- the writes of one insertion, under the write locks
  unfoldable pub append_record : InternalId → Item env → VectorStorage → VectorStorage
  append_record internal_id (id, vector, metadata) s =
      let placed = retire_old (HashMap.get s.id_to_internal id) (record s {
        vectors = s.vectors ++ vector;
        id_to_internal = HashMap.insert s.id_to_internal id internal_id;
      }) in
      store_metadata internal_id metadata
        (record placed { internal_to_id = placed.internal_to_id ++ id ∷ [] })

  -- The duplicate is looked for under the read lock and again under the write lock. One caller
  -- finds the same map both times.
  unfoldable pub insert_internal :
      VectorId
      → List (Num env)
      → Option (Meta env)
      → Bool
      → VectorStorage
      → Result InternalId × VectorStorage
  insert_internal id vector metadata allow_update s =
      if not (eqb (length vector) s.dimensions)
      then (err (dimension_mismatch s.dimensions (length vector)), s)
      else if not allow_update && HashMap.contains_key s.id_to_internal id
      then (err (duplicate_id id), s)
      else (let internal_id = internal_id_from (length s.internal_to_id) in
          (ok internal_id, append_record internal_id (id, vector, metadata) s))

  unfoldable pub insert :
      VectorId
      → List (Num env)
      → Option (Meta env)
      → VectorStorage
      → Result InternalId × VectorStorage
  insert id vector metadata s = insert_internal id vector metadata false s

  unfoldable pub upsert :
      VectorId
      → List (Num env)
      → Option (Meta env)
      → VectorStorage
      → Result InternalId × VectorStorage
  upsert id vector metadata s = insert_internal id vector metadata true s

  -- the first vector of the wrong length
  unfoldable pub bad_length : ℕ → List (Item env) → Option ℕ
  bad_length dimensions [] = none
  bad_length dimensions ((id, vector, metadata) ∷ items) =
      if eqb (length vector) dimensions then bad_length dimensions items else some (length vector)

  -- the loop of `upsert_batch`, at `start_internal_id + i`
  unfoldable pub batch_loop : ℕ → List (Item env) → VectorStorage → List InternalId × VectorStorage
  batch_loop position [] s = ([], s)
  batch_loop position (item ∷ items) s =
      let internal_id = internal_id_from position in
      let (ids, s') = batch_loop (position + 1) items (append_record internal_id item s) in
      (internal_id ∷ ids, s')

  unfoldable pub upsert_batch :
      List (Item env) → VectorStorage → Result (List InternalId) × VectorStorage
  upsert_batch [] s = (ok [], s)
  upsert_batch (item ∷ items) s = elim (bad_length s.dimensions (item ∷ items)) [
    | some got ↦ (err (dimension_mismatch s.dimensions got), s)
    | none ↦ let (ids, s') = batch_loop (length s.internal_to_id) (item ∷ items) s in (ok ids, s')
  ]

  unfoldable pub get : VectorStorage → InternalId → Option (List (Num env))
  get s internal_id =
      let start = internal_id * s.dimensions in
      let end = start + s.dimensions in
      if leb end (length s.vectors) then some (slice s.vectors start s.dimensions) else none

  unfoldable pub get_metadata : VectorStorage → InternalId → Option (Meta env)
  get_metadata s internal_id = HashMap.get s.metadata internal_id

  unfoldable pub get_internal_id : VectorStorage → VectorId → Option InternalId
  get_internal_id s id = HashMap.get s.id_to_internal id

  unfoldable pub get_external_id : VectorStorage → InternalId → Option VectorId
  get_external_id s internal_id = get_elem? s.internal_to_id internal_id

  unfoldable pub len : VectorStorage → ℕ
  len s = HashMap.len s.id_to_internal

  unfoldable pub total_slots : VectorStorage → ℕ
  total_slots s = length s.internal_to_id

  unfoldable pub is_empty : VectorStorage → Bool
  is_empty s = eqb (HashMap.len s.id_to_internal) 0

  unfoldable pub range : ℕ → ℕ → List InternalId
  range from zero = []
  range from (suc count) = internal_id_from from ∷ range (from + 1) count

  unfoldable pub all_internal_ids : VectorStorage → List InternalId
  all_internal_ids s = range 0 (length s.internal_to_id)

  unfoldable pub is_deleted : VectorStorage → InternalId → Bool
  is_deleted s internal_id = contains s.deleted internal_id

  -- `get_metadata` of the trait, through a view and directly
  unfoldable pub view_metadata : VectorStorage → InternalId → Option (Meta env)
  view_metadata s internal_id =
      if is_deleted s internal_id then none else HashMap.get s.metadata internal_id
