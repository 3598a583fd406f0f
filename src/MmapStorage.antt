-- ===== src/MmapStorage.antt =====
-- crates/surgedb-core/src/mmap_storage.rs: `MmapStorage` over its two files, on Unix. The data file
-- and `index.dat` are their bytes; a map of the file is its length, since it shows what the file
-- has. What `bincode` makes of the ids and the bytes of an `f32` are parameters. The text of an
-- error is that of the code without the numbers it shows.
pub mod Slots
pub mod Valid
pub mod Refines
pub mod Inserted
pub mod Reopened
pub mod Misread
use zapybase.Prelude.{
  ℕ, zero, suc, ◌+◌, ◌*◌, ◌%◌, String, Bool, true, false, not, ◌&&◌, Option, none, some, List, [],
  ◌∷◌, ◌++◌, length, take, drop, replicate, get_elem?, eqb, ltb, if◌then◌else◌,
}
use zapybase.Prelude.Eq.{string_eq}
use zapybase.Prelude.Slices.{slice}
use zapybase.Collections.HashMap
use zapybase.Collections.HashMap.{HashMap}
use zapybase.Error.{
  Result, ok, err, ◌>>=◌, io, storage, invalid_config, dimension_mismatch, duplicate_id,
}
use zapybase.Env.{Env, Num}
use zapybase.Storage.{VectorId, InternalId, internal_id_from, range}
use zapybase.Wal.Bytes.{Byte, to_le_bytes, from_le_bytes, read_exact, bytes_eq}

-- `f32::to_le_bytes` and `f32::from_le_bytes`, of four bytes
pub record FloatBytes (env : Env) : Type 0 where
  pub to_bytes : Num env → List Byte
  pub from_bytes : List Byte → Num env

-- `bincode` of a `Vec<String>`
pub record IdCodec : Type 0 where
  pub serialize : List String → Option (List Byte)
  pub deserialize : List Byte → Option (List String)

-- `DATA_MAGIC`, the bytes of "ZVEC", and the two constants below it
abbrev pub data_magic : List Byte
data_magic = 90 ∷ 86 ∷ 69 ∷ 67 ∷ []

abbrev pub data_version : Byte
data_version = 1

abbrev pub header_size : ℕ
header_size = 16

pub record MmapStorage : Type 0 where
  pub dimensions : ℕ
  pub data_file : List Byte
  pub index_file : Option (List Byte)
  pub mmap : Option ℕ
  pub count : ℕ
  pub id_to_internal : HashMap VectorId InternalId
  pub internal_to_id : List VectorId
  pub file_size : ℕ

-- `for (i, id_str) in ids.into_iter().enumerate()`
unfoldable pub number_ids :
    ℕ → List VectorId → HashMap VectorId InternalId → HashMap VectorId InternalId
number_ids i [] m = m
number_ids i (id ∷ ids) m = number_ids (i + 1) ids (HashMap.insert m id (internal_id_from i))

module _ (env : Env) (floats : FloatBytes env) (codec : IdCodec) where
  -- `vector.iter().flat_map(|f| f.to_le_bytes())`
  unfoldable pub vector_bytes : List (Num env) → List Byte
  vector_bytes [] = []
  vector_bytes (x ∷ xs) = floats.to_bytes x ++ vector_bytes xs

  -- `chunks_exact(4)`
  unfoldable pub read_vector : List Byte → List (Num env)
  read_vector (a ∷ b ∷ c ∷ d ∷ bytes) = floats.from_bytes (a ∷ b ∷ c ∷ d ∷ []) ∷ read_vector bytes
  read_vector other = []

  unfoldable pub header : ℕ → List Byte
  header dimensions = data_magic ++ (data_version ∷ (to_le_bytes dimensions ++ replicate 7 0))

  -- `Mmap::new`, where the file has more than the header
  unfoldable pub map_file : ℕ → Option ℕ
  map_file file_size = if ltb header_size file_size then some file_size else none

  unfoldable pub load_index :
      Option (List Byte) → Result (HashMap VectorId InternalId × List VectorId)
  load_index none = ok (HashMap.new, [])
  load_index (some []) = ok (HashMap.new, [])
  load_index (some (b ∷ bytes)) = elim (codec.deserialize (b ∷ bytes)) [
    | none ↦ err (storage "bincode")
    | some ids ↦ ok (number_ids 0 ids HashMap.new, ids)
  ]

  -- the checks of the header of an existing file
  unfoldable pub check_header : ℕ → List Byte → Result (Unit {0})
  check_header dimensions file = elim (read_exact header_size file) [
    | none ↦ err (io "failed to fill whole buffer")
    | some (bytes, rest) ↦
        if not (bytes_eq (take 4 bytes) data_magic)
        then err (storage "Invalid vector data file")
        else if not (bytes_eq (slice bytes 4 1) (data_version ∷ []))
        then err (storage "Unsupported version")
        else if not (eqb (from_le_bytes (slice bytes 5 4)) dimensions)
        then err (invalid_config "Dimension mismatch")
        else ok tt
  ]

  -- from the data file on
  unfoldable pub open_with : ℕ → List Byte → Option (List Byte) → Result MmapStorage
  open_with dimensions file index_file = load_index index_file >>= λ ids. ok (record {
    dimensions = dimensions;
    data_file = file;
    index_file = index_file;
    mmap = map_file (length file);
    count = length ids.1;
    id_to_internal = ids.0;
    internal_to_id = ids.1;
    file_size = length file;
  })

  -- the two files of the directory, where they exist
  unfoldable pub open_storage : ℕ → Option (List Byte) → Option (List Byte) → Result MmapStorage
  open_storage dimensions none index_file = open_with dimensions (header dimensions) index_file
  open_storage dimensions (some file) index_file =
      check_header dimensions file >>= λ checked. open_with dimensions file index_file

  unfoldable pub save_index : MmapStorage → Result (Unit {0}) × MmapStorage
  save_index s = elim (codec.serialize s.internal_to_id) [
    | none ↦ (err (storage "bincode"), s)
    | some bytes ↦ (ok tt, record s { index_file = some bytes })
  ]

  unfoldable pub remap : MmapStorage → MmapStorage
  remap s = if ltb header_size s.file_size then record s { mmap = some s.file_size } else s

  -- the writes of an insertion, under the write locks, and the map of the longer file
  unfoldable pub append_vector : VectorId → List (Num env) → MmapStorage → MmapStorage
  append_vector id vector s = remap (record s {
    data_file = s.data_file ++ vector_bytes vector;
    id_to_internal = HashMap.insert s.id_to_internal id (internal_id_from s.count);
    internal_to_id = s.internal_to_id ++ id ∷ [];
    count = s.count + 1;
    file_size = s.file_size + length (vector_bytes vector);
  })

  abbrev replied : InternalId → Result (Unit {0}) × MmapStorage → Result InternalId × MmapStorage
  replied internal_id (err e, s) = (err e, s)
  replied internal_id (ok u, s) = (ok internal_id, s)

  unfoldable pub insert_internal :
      VectorId → List (Num env) → Bool → MmapStorage → Result InternalId × MmapStorage
  insert_internal id vector allow_update s =
      if not (eqb (length vector) s.dimensions)
      then (err (dimension_mismatch s.dimensions (length vector)), s)
      else if not allow_update && HashMap.contains_key s.id_to_internal id
      then (err (duplicate_id id), s)
      else (let internal_id = internal_id_from s.count in
          let s' = append_vector id vector s in
          if eqb (internal_id % 100) 0
          then replied internal_id (save_index s')
          else (ok internal_id, s'))

  unfoldable pub insert : VectorId → List (Num env) → MmapStorage → Result InternalId × MmapStorage
  insert id vector s = insert_internal id vector false s

  unfoldable pub upsert : VectorId → List (Num env) → MmapStorage → Result InternalId × MmapStorage
  upsert id vector s = insert_internal id vector true s

  unfoldable pub get : MmapStorage → InternalId → Option (List (Num env))
  get s internal_id = elim s.mmap [
    | none ↦ none
    | some len ↦
        let bytes = take len s.data_file in
        let vector_size = s.dimensions * 4 in
        let offset = header_size + internal_id * vector_size in
        if eqb (length bytes) 0
        then none
        else if ltb (length bytes) (offset + vector_size)
        then none
        else some (read_vector (slice bytes offset vector_size))
  ]

  -- `distance` of the trait, on the storage and on a view; the bytes are those of a little-endian
  -- machine, whether they are aligned or not
  unfoldable pub distance :
      (List (Num env) → List (Num env) → Num env)
      → List (Num env)
      → MmapStorage
      → InternalId
      → Option (Num env)
  distance metric query s internal_id = elim (get s internal_id) [
    | none ↦ none
    | some vector ↦ some (metric query vector)
  ]

  unfoldable pub get_external_id : MmapStorage → InternalId → Option VectorId
  get_external_id s internal_id = get_elem? s.internal_to_id internal_id

  unfoldable pub get_internal_id : MmapStorage → VectorId → Option InternalId
  get_internal_id s id = HashMap.get s.id_to_internal id

  unfoldable pub all_internal_ids : MmapStorage → List InternalId
  all_internal_ids s = range env 0 s.count

  unfoldable pub len : MmapStorage → ℕ
  len s = s.count

  unfoldable pub is_empty : MmapStorage → Bool
  is_empty s = eqb s.count 0

  -- `sync`, and what `drop` does without its result
  unfoldable pub sync : MmapStorage → Result (Unit {0}) × MmapStorage
  sync s = save_index s

  unfoldable pub disk_usage : MmapStorage → ℕ
  disk_usage s = s.file_size
