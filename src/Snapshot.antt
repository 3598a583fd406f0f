-- ===== src/Snapshot.antt =====
-- crates/surgedb-core/src/snapshot.rs: snapshots, their files and the manager of the directory.
-- bincode is a parameter, `Codec`. The directory holds the files `snapshot_<id>.snap`, each under
-- its id; printing an id and parsing it back is the identity.
pub mod Batches
pub mod Directory
pub mod Reload
use zapybase.Prelude.{
  ℕ, zero, suc, ◌+◌, ◌-◌, Bool, true, false, not, Option, none, some, List, [], ◌∷◌, ◌++◌, length,
  take, drop, eqb, leb, ltb, max, if◌then◌else◌,
}
use zapybase.Error.{Result, ok, err, ◌>>=◌, storage}
use zapybase.Env.{Env, Num, Meta}
use zapybase.Storage.{VectorId}
use zapybase.Wal.Bytes.{Byte, bytes_eq}

abbrev pub snapshot_magic : List Byte
snapshot_magic = b'Z' ∷ b'S' ∷ b'N' ∷ b'P' ∷ []

abbrev pub snapshot_version : ℕ
snapshot_version = 2

abbrev pub batch_size : ℕ
batch_size = 1000

pub record SnapshotHeader : Type 0 where
  pub magic : List Byte
  pub version : ℕ
  pub id : ℕ
  pub wal_seq : ℕ
  pub dimensions : ℕ
  pub vector_count : ℕ

-- a file of the directory, under the id in its name
abbrev pub SnapshotFile : Type 0
SnapshotFile = ℕ × List Byte

pub record SnapshotManager : Type 0 where
  pub dir : List SnapshotFile
  pub retain_count : ℕ

-- `SnapshotManager::new`, on the files that are there
unfoldable pub new_manager : List SnapshotFile → SnapshotManager
new_manager dir = record { dir = dir; retain_count = 3 }

unfoldable pub set_retain_count : ℕ → SnapshotManager → SnapshotManager
set_retain_count count manager = record manager { retain_count = max count 1 }

-- `File::create` and what is written: an older file of the name is replaced
unfoldable pub create_file : ℕ → List Byte → List SnapshotFile → List SnapshotFile
create_file id bytes [] = (id, bytes) ∷ []
create_file id bytes ((other, content) ∷ files) =
    let rest = create_file id bytes files in
    if eqb other id then (id, bytes) ∷ files else (other, content) ∷ rest

unfoldable pub remove_file : ℕ → List SnapshotFile → List SnapshotFile
remove_file id [] = []
remove_file id ((other, content) ∷ files) =
    let rest = remove_file id files in if eqb other id then rest else (other, content) ∷ rest

unfoldable pub insert_by_key : SnapshotFile → List SnapshotFile → List SnapshotFile
insert_by_key file [] = file ∷ []
insert_by_key file (other ∷ files) =
    let rest = insert_by_key file files in
    if leb file.0 other.0 then file ∷ other ∷ files else other ∷ rest

-- `sort_by_key(|(id, _)| *id)`
unfoldable pub sort_by_key : List SnapshotFile → List SnapshotFile
sort_by_key [] = []
sort_by_key (file ∷ files) = insert_by_key file (sort_by_key files)

unfoldable pub list_snapshots : List SnapshotFile → List SnapshotFile
list_snapshots dir = sort_by_key dir

unfoldable pub remove_files : List SnapshotFile → List SnapshotFile → List SnapshotFile
remove_files [] dir = dir
remove_files (file ∷ files) dir = remove_files files (remove_file file.0 dir)

-- `take(to_delete)`, where `to_delete` is 0 unless there are more files than are retained
unfoldable pub cleanup : SnapshotManager → SnapshotManager
cleanup manager =
    let snapshots = list_snapshots manager.dir in
    record manager {
      dir = remove_files (take (length snapshots - manager.retain_count) snapshots) manager.dir;
    }

unfoldable pub last {ℓ} : {A : Type ℓ} → List A → Option A
last [] = none
last (a ∷ []) = some a
last (a ∷ b ∷ as') = last (b ∷ as')

-- `State` is the `HnswState` of the index.
module _ (env : Env) (State : Type 0) where
  pub record StoredVector : Type 0 where
    pub id : VectorId
    pub vector : List (Num env)
    pub metadata : Option (Meta env)

  pub record Snapshot : Type 0 where
    pub id : ℕ
    pub wal_seq : ℕ
    pub dimensions : ℕ
    pub vectors : List StoredVector
    pub hnsw_state : Option State

  unfoldable pub new : ℕ → ℕ → ℕ → Snapshot
  new id wal_seq dimensions = record {
    id = id;
    wal_seq = wal_seq;
    dimensions = dimensions;
    vectors = [];
    hnsw_state = none;
  }

  unfoldable pub add_vector : VectorId → List (Num env) → Option (Meta env) → Snapshot → Snapshot
  add_vector id vector metadata snapshot = record snapshot {
    vectors = snapshot.vectors ++ record { id = id; vector = vector; metadata = metadata } ∷ [];
  }

  unfoldable pub set_hnsw_state : State → Snapshot → Snapshot
  set_hnsw_state state snapshot = record snapshot { hnsw_state = some state }

  -- `serialize_into` and `deserialize_from` of bincode at the three types: the second returns the
  -- bytes that it leaves in the reader.
  pub record Codec : Type 0 where
    pub serialize_header : SnapshotHeader → Option (List Byte)
    pub serialize_state : Option State → Option (List Byte)
    pub serialize_batch : List StoredVector → Option (List Byte)
    pub deserialize_header : List Byte → Option (SnapshotHeader × List Byte)
    pub deserialize_state : List Byte → Option (Option State × List Byte)
    pub deserialize_batch : List Byte → Option (List StoredVector × List Byte)

-- `map_err(|e| Error::Storage(e.to_string()))?`
abbrev pub or_storage {ℓ} : {A : Type ℓ} → Option A → Result A
or_storage none = err (storage "bincode")
or_storage (some a) = ok a

module _ {env : Env} {State : Type 0} (codec : Codec env State) where
  open codec use {
    serialize_header, serialize_state, serialize_batch, deserialize_header, deserialize_state,
    deserialize_batch,
  }

  unfoldable pub header_of : Snapshot env State → SnapshotHeader
  header_of snapshot = record {
    magic = snapshot_magic;
    version = snapshot_version;
    id = snapshot.id;
    wal_seq = snapshot.wal_seq;
    dimensions = snapshot.dimensions;
    vector_count = length snapshot.vectors;
  }

  -- the loop over `chunks(BATCH_SIZE)`, with the bytes that are written by then; the fuel is the
  -- number of vectors, and each chunk has one at least
  unfoldable pub write_batches : ℕ → List (StoredVector env State) → List Byte → Bool × List Byte
  write_batches fuel [] written = (true, written)
  write_batches zero (v ∷ vectors) written = (false, written)
  write_batches (suc fuel) (v ∷ vectors) written =
      elim (serialize_batch (take batch_size (v ∷ vectors))) [
        | none ↦ (false, written)
        | some bytes ↦ write_batches fuel (drop batch_size (v ∷ vectors)) (written ++ bytes)
      ]

  unfoldable pub write_state : Snapshot env State → List Byte → Bool × List Byte
  write_state snapshot written = elim (serialize_state snapshot.hnsw_state) [
    | none ↦ (false, written)
    | some bytes ↦ write_batches (length snapshot.vectors) snapshot.vectors (written ++ bytes)
  ]

  -- whether all of it could be written, and the content of the file at the end
  unfoldable pub write_snapshot : Snapshot env State → Bool × List Byte
  write_snapshot snapshot = elim (serialize_header (header_of snapshot)) [
    | none ↦ (false, [])
    | some bytes ↦ write_state snapshot bytes
  ]

  -- A failed write leaves the file as far as it was written.
  unfoldable pub save : Snapshot env State → SnapshotManager → Result (Unit {0}) × SnapshotManager
  save snapshot manager =
      let (written, bytes) = write_snapshot snapshot in
      let created : SnapshotManager = record manager {
        dir = create_file snapshot.id bytes manager.dir;
      } in
      elim written [ false ↦ (err (storage "bincode"), created) | true ↦ (ok tt, cleanup created) ]

  -- the loop on `remaining`; a batch takes one byte at least, so the length is fuel enough
  unfoldable pub read_batches :
      ℕ → ℕ → List Byte → List (StoredVector env State) → Result (List (StoredVector env State))
  read_batches fuel zero bytes vectors = ok vectors
  read_batches zero (suc remaining) bytes vectors = or_storage none
  read_batches (suc fuel) (suc remaining) bytes vectors =
      or_storage (deserialize_batch bytes) >>= λ read.
      read_batches fuel (suc remaining - length read.0) read.1 (vectors ++ read.0)

  unfoldable pub read_body : SnapshotHeader × List Byte → Result (Snapshot env State)
  read_body (header, rest) = or_storage (deserialize_state rest) >>= λ state.
      read_batches (length state.1) header.vector_count state.1 [] >>= λ vectors. ok (record {
        id = header.id;
        wal_seq = header.wal_seq;
        dimensions = header.dimensions;
        vectors = vectors;
        hnsw_state = state.0;
      })

  unfoldable pub check_header : SnapshotHeader × List Byte → Result (Snapshot env State)
  check_header (header, rest) =
      if not (bytes_eq header.magic snapshot_magic)
      then err (storage "Invalid snapshot magic bytes")
      else if not (eqb header.version snapshot_version)
      then err (storage "Unsupported snapshot version")
      else read_body (header, rest)

  unfoldable pub load : List Byte → Result (Snapshot env State)
  load file = or_storage (deserialize_header file) >>= check_header

  unfoldable pub load_last : Option SnapshotFile → Result (Option (Snapshot env State))
  load_last none = ok none
  load_last (some (id, file)) = load file >>= λ snapshot. ok (some snapshot)

  unfoldable pub load_latest : SnapshotManager → Result (Option (Snapshot env State))
  load_latest manager = load_last (last (list_snapshots manager.dir))
