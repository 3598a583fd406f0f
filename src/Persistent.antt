-- ===== src/Persistent.antt =====
-- crates/surgedb-core/src/persistent.rs: the database over the storage, the index, the log and the
-- snapshots. The index is an interface, `Index`, with the operations of hnsw.rs that are called.
-- The clock is an argument of the operations that read it. An operation that returns an error
-- leaves the state that it has reached.
pub mod Operations
pub mod Restore
pub mod Replay
pub mod Recovery
pub mod Durable
pub mod Durability
pub mod Inserted
pub mod Reachable
pub mod Listing
pub mod Indexed
use zapybase.Prelude.{
  ℕ, ◌*◌, String, Bool, true, false, not, ◌&&◌, Option, none, some, List, [], ◌∷◌, length, take,
  drop, eqb, if◌then◌else◌,
}
use zapybase.Prelude.Eq.{nat_eq}
use zapybase.Error.{Result, ok, err, ◌>>=◌, dimension_mismatch, invalid_config, vector_not_found}
use zapybase.Env.{Env, Num, Meta}
use zapybase.Metadata.Filter.{Filter}
use zapybase.Storage
use zapybase.Storage.{VectorStorage, VectorId, InternalId}
use zapybase.Wal
use zapybase.Wal.{Wal, WalEntry}
use zapybase.Wal.Bytes.{Byte}
use zapybase.Snapshot
use zapybase.Snapshot.{SnapshotFile, SnapshotManager, Snapshot, StoredVector}

-- `HnswIndex` with its configuration, and the state that a snapshot keeps of it
pub record Index (env : Env) : Type 1 where
  pub Graph : Type 0
  pub State : Type 0
  pub new : Graph
  pub insert : InternalId → List (Num env) → VectorStorage env → Graph → Result (Unit {0}) × Graph
  pub load_state : State → Graph → Graph
  pub get_state : Graph → State
  pub search :
      List (Num env)
      → ℕ
      → VectorStorage env
      → Option (Filter env.serde.Number env.serde.float.Num)
      → Graph
      → Result (List (InternalId × Num env))

pub record PersistentConfig : Type 0 where
  pub dimensions : ℕ
  pub sync_writes : Bool
  pub checkpoint_threshold : ℕ
  pub snapshot_retain_count : ℕ

-- what is on the disk: `wal/current.wal`, if it exists, and the directory `snapshots`
pub record Disk : Type 0 where
  pub wal_file : Option (List Byte)
  pub snapshot_files : List SnapshotFile

-- the two codecs of bincode
pub record Codecs (env : Env) (State : Type 0) : Type 0 where
  pub wal : Wal.Codec env
  pub snapshot : Snapshot.Codec env State

module _ (env : Env) (index : Index env) where
  pub record PersistentVectorDb : Type 0 where
    pub config : PersistentConfig
    pub storage : VectorStorage env
    pub graph : index.Graph
    pub wal : Wal env
    pub snapshot_manager : SnapshotManager

module _ {env : Env} (index : Index env) (codecs : Codecs env index.State) where
  -- `for stored in snapshot.vectors`
  unfoldable pub restore_vectors :
      List (StoredVector env index.State) → VectorStorage env → Result (VectorStorage env)
  restore_vectors [] s = ok s
  restore_vectors (stored ∷ vectors) s =
      let (result, s') = Storage.insert env stored.id stored.vector stored.metadata s in
      result >>= λ internal_id. restore_vectors vectors s'

  -- the fallback: `for internal_id in self.storage.all_internal_ids()`
  unfoldable pub rebuild_index :
      List InternalId → VectorStorage env → index.Graph → Result index.Graph
  rebuild_index [] s graph = ok graph
  rebuild_index (internal_id ∷ ids) s graph = elim (Storage.get env s internal_id) [
    | none ↦ rebuild_index ids s graph
    | some vector ↦
        let (result, graph') = index.insert internal_id vector s graph in
        result >>= λ done. rebuild_index ids s graph'
  ]

  unfoldable pub restore_index :
      Option index.State → VectorStorage env → index.Graph → Result index.Graph
  restore_index (some state) s graph = ok (index.load_state state graph)
  restore_index none s graph = rebuild_index (Storage.all_internal_ids env s) s graph

  -- step 1 of `recover`, from an empty database
  unfoldable pub restore :
      PersistentConfig
      → Option (Snapshot env index.State)
      → Result (ℕ × VectorStorage env × index.Graph)
  restore config none = ok (0, Storage.new env config.dimensions, index.new)
  restore config (some snapshot) =
      if not (eqb snapshot.dimensions config.dimensions)
      then err (invalid_config "Snapshot dimensions don't match config")
      else restore_vectors snapshot.vectors (Storage.new env config.dimensions) >>= λ s.
          restore_index snapshot.hnsw_state s index.new >>= λ graph. ok (snapshot.wal_seq, s, graph)

  unfoldable pub replay_insert :
      VectorId
      → List (Num env)
      → Option (Meta env)
      → VectorStorage env × index.Graph
      → Result (VectorStorage env × index.Graph)
  replay_insert id vector metadata (s, graph) = elim (Storage.get_internal_id env s id) [
    | some present ↦ ok (s, graph)
    | none ↦
        let (result, s') = Storage.insert env id vector metadata s in
        result >>= λ internal_id.
        let (indexed, graph') = index.insert internal_id vector s' graph in
        indexed >>= λ done. ok (s', graph')
  ]

  unfoldable pub replay_entry :
      WalEntry env → VectorStorage env × index.Graph → Result (VectorStorage env × index.Graph)
  replay_entry (WalEntry.insert id vector metadata) memory = replay_insert id vector metadata memory
  replay_entry (WalEntry.delete id) (s, graph) = ok ((Storage.delete env id s).1, graph)
  replay_entry (WalEntry.checkpoint snapshot_id) memory = ok memory

  -- step 2 of `recover`
  unfoldable pub replay :
      List (WalEntry env)
      → VectorStorage env × index.Graph
      → Result (VectorStorage env × index.Graph)
  replay [] memory = ok memory
  replay (entry ∷ entries) memory = replay_entry entry memory >>= λ memory'. replay entries memory'

  unfoldable pub recover :
      PersistentConfig → Wal env → SnapshotManager → Result (VectorStorage env × index.Graph)
  recover config wal manager = Snapshot.load_latest codecs.snapshot manager >>= λ snapshot.
      restore config snapshot >>= λ restored.
      Wal.read_after codecs.wal restored.0 wal >>= λ entries.
      replay entries (restored.1, restored.2)

  -- `PersistentVectorDb::open`
  unfoldable pub open_db : PersistentConfig → Disk → Result (PersistentVectorDb env index)
  open_db config disk =
      let wal =
        Wal.set_max_size codecs.wal config.checkpoint_threshold
          (Wal.open_wal codecs.wal disk.wal_file) in
      let manager =
        Snapshot.set_retain_count config.snapshot_retain_count
          (Snapshot.new_manager disk.snapshot_files) in
      recover config wal manager >>= λ memory. ok (record {
        config = config;
        storage = memory.0;
        graph = memory.1;
        wal = wal;
        snapshot_manager = manager;
      })

  -- what a process that stops leaves behind
  unfoldable pub disk_of : PersistentVectorDb env index → Disk
  disk_of db = record { wal_file = db.wal.current; snapshot_files = db.snapshot_manager.dir }

  -- one round of the loop of `checkpoint`
  unfoldable pub add_slot :
      InternalId → VectorStorage env → Snapshot env index.State → Snapshot env index.State
  add_slot internal_id s snapshot = elim (Storage.is_deleted env s internal_id) [
    | true ↦ snapshot
    | false ↦ elim (Storage.get_external_id env s internal_id) [
      | none ↦ snapshot
      | some ext_id ↦ elim (Storage.get env s internal_id) [
        | none ↦ snapshot
        | some vector ↦
            Snapshot.add_vector env index.State ext_id vector
              (Storage.get_metadata env s internal_id) snapshot
      ]
    ]
  ]

  unfoldable pub add_slots :
      List InternalId → VectorStorage env → Snapshot env index.State → Snapshot env index.State
  add_slots [] s snapshot = snapshot
  add_slots (internal_id ∷ ids) s snapshot = add_slots ids s (add_slot internal_id s snapshot)

  unfoldable pub snapshot_of : ℕ → PersistentVectorDb env index → Snapshot env index.State
  snapshot_of snapshot_id db = Snapshot.set_hnsw_state env index.State (index.get_state db.graph) (
      add_slots (Storage.all_internal_ids env db.storage) db.storage
        (Snapshot.new env index.State snapshot_id db.wal.seq db.config.dimensions))

  -- `now` is the time in milliseconds
  unfoldable pub checkpoint :
      ℕ → PersistentVectorDb env index → Result (Unit {0}) × PersistentVectorDb env index
  checkpoint now db =
      let (saved, manager) =
        Snapshot.save codecs.snapshot (snapshot_of now db) db.snapshot_manager in
      elim saved [
        | err e ↦ (err e, record db { snapshot_manager = manager })
        | ok done ↦
            let (logged, wal) =
              Wal.append codecs.wal (WalEntry.checkpoint now) (Wal.clear codecs.wal db.wal) in
            (logged >>= λ seq. ok tt, record db { snapshot_manager = manager; wal = wal })
      ]
