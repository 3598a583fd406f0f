-- ===== src/Persistent/Reachable.antt =====
-- The life of a database of persistent.rs as a step relation: made on an empty disk, then called
-- and opened again in any order.
use zapybase.Prelude.{ℕ, ◌<◌, ◌≡◌, refl, ap, sym, subst, ◌∙◌, Option, none, List, [], arith, length}
use zapybase.Error.{ok}
use zapybase.Env.{Env, Num, Meta}
use zapybase.Storage.{VectorStorage, VectorId, internal_id_limit}
use zapybase.Storage
use zapybase.Storage.Invariant.{new-IsValid}
use zapybase.Wal.{WalEntry, open_wal, set_max_size}
use zapybase.Wal.Log.{ReadsBack, IsLog}
use zapybase.Wal.Append.{IsLog-reads}
use zapybase.Snapshot.{
  new_manager, set_retain_count, load_latest, load_last, list_snapshots, sort_by_key, last,
}
use zapybase.Snapshot.Batches as SnapshotCodec
use zapybase.Persistent.{
  Index, Codecs, PersistentConfig, PersistentVectorDb, Disk, replay, checkpoint, restore, recover,
  open_db, disk_of,
}
use zapybase.Persistent.Operations.{insert, delete, get}
use zapybase.Persistent.Replay.{Accepts}
use zapybase.Persistent.Recovery.{IsDurable, CanLog, open_db-disk_of}
use zapybase.Persistent.Durable.{CanCheckpoint, checkpoint-IsDurable}
use zapybase.Persistent.Durability.{CanFinish, deleted_db, delete_durably}
use zapybase.Persistent.Inserted.{inserted_db, insert_durably, get-view}

module _ {env : Env} (index : Index env) (codecs : Codecs env index.State) where
  -- no file at all
  abbrev pub empty_disk : Disk
  empty_disk = record { wal_file = none; snapshot_files = [] }

  abbrev pub new_db : PersistentConfig → PersistentVectorDb env index
  new_db config = record {
    config = config;
    storage = Storage.new env config.dimensions;
    graph = index.new;
    wal = set_max_size codecs.wal config.checkpoint_threshold (open_wal codecs.wal none);
    snapshot_manager = set_retain_count config.snapshot_retain_count (new_manager []);
  }

  logged_new : (config : PersistentConfig) → IsLog codecs.wal (new_db config).wal []
  unfolding set_max_size open_wal
  logged_new config = record { stored = refl; opened = refl; readable = tt; sized = omega arith }

  pub open_db-empty_disk :
      (config : PersistentConfig) → open_db index codecs config empty_disk ≡ ok (new_db config)
  unfolding set_retain_count new_manager load_latest load_last list_snapshots sort_by_key last
      restore replay recover open_db
  open_db-empty_disk config =
      let (all', after, seq) =
        IsLog-reads codecs.wal (new_db config).wal [] 0 (logged_new config) in
      rw after refl

  -- The states that a database gets to. A call is made while an internal id is free, its entry can
  -- be logged and, where the log is over its limit, the checkpoint can be made: at a time past those
  -- of the snapshots in the directory, and while no slot is deleted. A process may stop
  -- behind any of these steps, and the next opens the files.
  pub data Reachable (config : PersistentConfig) : PersistentVectorDb env index → Type 0 where
    created :
        (db : PersistentVectorDb env index)
        → open_db index codecs config empty_disk ≡ ok db
        → Reachable config db
    inserted :
        (now : ℕ) (id : VectorId) (vector : List (Num env)) (metadata : Option (Meta env))
        (db : PersistentVectorDb env index)
        → length db.storage.internal_to_id < internal_id_limit
        → CanLog index codecs (WalEntry.insert id vector metadata) db.wal
        → CanFinish index codecs now (inserted_db index codecs id vector metadata db)
        → Reachable config db
        → Reachable config (insert index codecs now id vector metadata db).1
    deleted :
        (now : ℕ) (id : VectorId) (db : PersistentVectorDb env index)
        → CanLog index codecs (WalEntry.delete id) db.wal
        → CanFinish index codecs now (deleted_db index codecs id db)
        → Reachable config db
        → Reachable config (delete index codecs now id db).1
    checkpointed :
        (now : ℕ) (db : PersistentVectorDb env index)
        → CanCheckpoint index codecs now db
        → Reachable config db
        → Reachable config (checkpoint index codecs now db).1
    reopened :
        (db db' : PersistentVectorDb env index)
        → open_db index codecs db.config (disk_of index codecs db) ≡ ok db'
        → Reachable config db
        → Reachable config db'

  ok_injective : {A : Type 0} (a b : A) → ok a ≡ ok b → a ≡ b
  ok_injective a b h = ground arith

module _ {env : Env} (index : Index env) (codecs : Codecs env index.State)
    (law : Accepts index) where
  new_db-IsDurable :
      (config : PersistentConfig) → IsDurable index codecs law (new_db index codecs config)
  unfolding set_max_size open_wal set_retain_count new_manager load_latest load_last list_snapshots
      sort_by_key last restore replay Storage.new
  new_db-IsDurable config = record {
    valid = new-IsValid env config.dimensions;
    dimensions = refl;
    room = omega arith;
    log = [];
    logged = logged_new index codecs config;
    last = refl;
    snapshot = none;
    loaded = refl;
    base_seq = 0;
    base = Storage.new env config.dimensions;
    base_graph = index.new;
    restored = refl;
    older = omega arith;
    replica = Storage.new env config.dimensions;
    graph = index.new;
    replayed = refl;
    reads = record {
      valid = new-IsValid env config.dimensions;
      dimensions = refl;
      slots = omega arith;
      reads = λ id. refl;
    };
    indexed = law.created;
    reindexed = law.created;
    retained = omega arith;
  }

  module _ (log_ok : ReadsBack codecs.wal) (snapshot_ok : SnapshotCodec.ReadsBack codecs.snapshot)
      (config : PersistentConfig) where
    pub Reachable-IsDurable :
        (db : PersistentVectorDb env index)
        → Reachable index codecs config db
        → IsDurable index codecs law db
    Reachable-IsDurable db (created db' h) =
        subst (IsDurable index codecs law)
          (ok_injective index codecs (new_db index codecs config) db'
            (sym (open_db-empty_disk index codecs config) ∙ h))
          (new_db-IsDurable config)
    Reachable-IsDurable db (inserted now id vector metadata before room l can r) =
        (insert_durably index codecs law now id vector metadata before log_ok snapshot_ok
          (Reachable-IsDurable before r) room l can).2
    Reachable-IsDurable db (deleted now id before l can r) =
        (delete_durably index codecs law now id before log_ok snapshot_ok
          (Reachable-IsDurable before r) l can).2
    Reachable-IsDurable db (checkpointed now before c r) =
        (checkpoint-IsDurable index codecs law now before log_ok snapshot_ok c
          (Reachable-IsDurable before r)).2
    Reachable-IsDurable db (reopened before db' h r) =
        let (db'', opened, reads, seq, durable) =
          open_db-disk_of index codecs law before (Reachable-IsDurable before r) in
        subst (IsDurable index codecs law) (ok_injective index codecs db'' db' (sym opened ∙ h))
          durable

    -- For an index that keeps the contract `Accepts`, and where `bincode` reads back what it
    -- writes: in every state that `Reachable` allows (each call can be logged, finds a free
    -- internal id where it inserts, and makes its checkpoint at a time past the ids of the
    -- snapshots and while no slot is deleted), wherever the process stops between calls, opening
    -- its files again succeeds, and the database that is opened returns for every id what the one
    -- that stopped would have returned, by `get`, and goes on from its sequence number.
    pub reopening_is_lossless :
        (db : PersistentVectorDb env index)
        → Reachable index codecs config db
        → (db' : PersistentVectorDb env index) × (open_db index codecs db.config
              (disk_of index codecs db)
            ≡ ok db')
          × ((id : VectorId) → get index codecs id db' ≡ get index codecs id db)
          × (db'.wal.seq ≡ db.wal.seq)
    reopening_is_lossless db r =
        let d = Reachable-IsDurable db r in
        let (db', opened, reads, seq, d') = open_db-disk_of index codecs law db d in
        (
          db',
          opened,
          λ id.
              get-view index codecs id db' d'.valid
              ∙ ap ok (reads id)
              ∙ sym (get-view index codecs id db d.valid),
          seq,
        )
