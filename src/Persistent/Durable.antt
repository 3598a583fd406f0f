-- ===== src/Persistent/Durable.antt =====
-- A checkpoint, and a database that was just made: their files hold what is in memory.
use zapybase.Prelude.{
  ℕ, ◌+◌, ◌%◌, ◌^◌, ◌≤◌, ◌≡◌, refl, ap, sym, subst, ◌∙◌, true, some, [], ◌∷◌, arith, length,
  eqb_refl,
}
use zapybase.Error.{ok}
use zapybase.Env.{Env}
use zapybase.Storage.{VectorStorage, internal_id_limit, all_internal_ids}
use zapybase.Storage.Invariant.{IsValid}
use zapybase.Wal.{Wal, WalEntry, new_record, append, clear}
use zapybase.Wal.Log.{ReadsBack, append-IsLog}
use zapybase.Wal.Append.{clear-IsLog}
use zapybase.Snapshot.{Snapshot, SnapshotManager, load_latest, write_snapshot, save}
use zapybase.Snapshot
use zapybase.Snapshot.Directory.{AllBelow}
use zapybase.Snapshot.Batches as SnapshotCodec
use zapybase.Snapshot.Reload.{save_reloads}
use zapybase.Persistent.{
  Index, Codecs, PersistentVectorDb, restore, restore_index, recover, replay, replay_entry,
  snapshot_of, checkpoint,
}
use zapybase.Persistent.Restore.{slots_vectors, add_slots_lem, restore_all}
use zapybase.Persistent.Replay.{Accepts, IsReplica}
use zapybase.Persistent.Recovery.{
  IsDurable, CanLog, logged_record, append_seq, entries_after-append, recover_lem,
}

module _ {env : Env} (index : Index env) (codecs : Codecs env index.State) where
  -- The snapshot can be written, the clock is past the ids of the snapshots in the directory, the
  -- marker can be logged, and no slot is deleted (the snapshot leaves a deleted slot out, but keeps
  -- its node).
  pub record CanCheckpoint (now : ℕ) (db : PersistentVectorDb env index) : Type 0 where
    pub written : (write_snapshot codecs.snapshot (snapshot_of index codecs now db)).0 ≡ true
    pub newest : AllBelow now db.snapshot_manager.dir
    pub undeleted : db.storage.deleted ≡ []
    pub marker : CanLog index codecs (WalEntry.checkpoint now) db.wal

  snapshot_fields :
      (now : ℕ) (db : PersistentVectorDb env index)
      → snapshot_of index codecs now db ≡ record {
        id = now;
        wal_seq = db.wal.seq;
        dimensions = db.config.dimensions;
        vectors = slots_vectors index codecs (all_internal_ids env db.storage) db.storage;
        hnsw_state = some (index.get_state db.graph);
      }
  unfolding snapshot_of Snapshot.set_hnsw_state Snapshot.new
  snapshot_fields now db = ap (Snapshot.set_hnsw_state env index.State (index.get_state db.graph)) (
      add_slots_lem index codecs (all_internal_ids env db.storage) db.storage
        (Snapshot.new env index.State now db.wal.seq db.config.dimensions))

  -- What is restored from the snapshot of a checkpoint reads as the storage.
  restore-snapshot_of :
      (now : ℕ) (db : PersistentVectorDb env index)
      → IsValid env db.storage
      → db.storage.dimensions ≡ db.config.dimensions
      → length db.storage.internal_to_id ≤ internal_id_limit
      → (t : VectorStorage env) × (restore index codecs db.config
            (some (snapshot_of index codecs now db))
          ≡ ok (db.wal.seq, t, index.load_state (index.get_state db.graph) index.new))
        × IsReplica env db.storage t
        × (db.storage.deleted ≡ [] → length t.internal_to_id ≡ length db.storage.internal_to_id)
  unfolding restore restore_index
  restore-snapshot_of now db v dims room =
      let (t, done, valid, same, slots, reads, whole) =
        restore_all index codecs db.storage v room in
      (
        t,
        ap (λ s. restore index codecs db.config (some s)) (snapshot_fields now db)
            ∙ rw (eqb_refl db.config.dimensions, sym dims, done, restore) refl,
        record { valid = valid; dimensions = same; slots = slots; reads = reads },
        whole,
      )

  abbrev saved_manager : ℕ → PersistentVectorDb env index → SnapshotManager
  saved_manager now db =
      (save codecs.snapshot (snapshot_of index codecs now db) db.snapshot_manager).1

  abbrev marked_wal : ℕ → PersistentVectorDb env index → Wal env
  marked_wal now db = (append codecs.wal (WalEntry.checkpoint now) (clear codecs.wal db.wal)).1

  abbrev checkpointed_db : ℕ → PersistentVectorDb env index → PersistentVectorDb env index
  checkpointed_db now db = record db {
    snapshot_manager = saved_manager now db;
    wal = marked_wal now db;
  }

  checkpoint_result :
      (now n : ℕ) (db : PersistentVectorDb env index)
      → (save codecs.snapshot (snapshot_of index codecs now db) db.snapshot_manager).0 ≡ ok tt
      → (append codecs.wal (WalEntry.checkpoint now) (clear codecs.wal db.wal)).0 ≡ ok n
      → checkpoint index codecs now db ≡ (ok tt, checkpointed_db now db)
  unfolding checkpoint
  checkpoint_result now n db saved logged = rw (saved, checkpoint) (rw logged refl)

module _ {env : Env} (index : Index env) (codecs : Codecs env index.State)
    (law : Accepts index) where
  -- Recovery from the files gives a storage that reads as that of the database, and the graph of the
  -- state that its index had.
  abbrev pub Recovers : PersistentVectorDb env index → PersistentVectorDb env index → Type 0
  Recovers db out =
      (t : VectorStorage env) × (recover index codecs db.config out.wal out.snapshot_manager
        ≡ ok (t, index.load_state (index.get_state db.graph) index.new))
      × IsReplica env db.storage t

  checkpointed :
      (now : ℕ) (db : PersistentVectorDb env index)
      → ReadsBack codecs.wal
      → SnapshotCodec.ReadsBack codecs.snapshot
      → CanCheckpoint index codecs now db
      → IsDurable index codecs law db
      → (checkpoint index codecs now db ≡ (ok tt, checkpointed_db index codecs now db))
        × IsDurable index codecs law (checkpointed_db index codecs now db)
        × Recovers db (checkpointed_db index codecs now db)
  unfolding clear new_record replay replay_entry
  checkpointed now db log_ok snapshot_ok c d =
      let snapshot = snapshot_of index codecs now db in
      let id : snapshot.id ≡ now = ap (λ s. s.id) (snapshot_fields index codecs now db) in
      let (saved, loaded, below, kept) =
        save_reloads codecs.snapshot snapshot db.snapshot_manager snapshot_ok d.retained
          (rw id c.newest) c.written in
      let (logged, is_log) =
        append-IsLog codecs.wal (WalEntry.checkpoint now) (clear codecs.wal db.wal) []
          c.marker.bytes log_ok (clear-IsLog codecs.wal db.wal) c.marker.encoded c.marker.small in
      let (t, restored, reads, whole) =
        restore-snapshot_of index codecs now db d.valid d.dimensions d.room in
      let marker : CanLog index codecs (WalEntry.checkpoint now) (clear codecs.wal db.wal) =
        record {
          bytes = c.marker.bytes;
          encoded = c.marker.encoded;
          small = c.marker.small;
          numbered = c.marker.numbered;
        } in
      let seq =
        append_seq index codecs (WalEntry.checkpoint now) (clear codecs.wal db.wal) marker in
      let r = logged_record index codecs (WalEntry.checkpoint now) db.wal c.marker.bytes in
      let out = checkpointed_db index codecs now db in
      let durable : IsDurable index codecs law out = record {
        valid = d.valid;
        dimensions = d.dimensions;
        room = d.room;
        log = logged_record index codecs (WalEntry.checkpoint now) db.wal c.marker.bytes ∷ [];
        logged = is_log;
        last = sym seq;
        snapshot = some snapshot;
        loaded = loaded;
        base_seq = db.wal.seq;
        base = t;
        base_graph = index.load_state (index.get_state db.graph) index.new;
        restored = restored;
        older = omega (arith, seq, c.marker.numbered);
        replica = t;
        graph = index.load_state (index.get_state db.graph) index.new;
        replayed =
            ap
              (λ es.
                replay index codecs es (t, index.load_state (index.get_state db.graph) index.new))
              (entries_after-append index codecs db.wal.seq [] r
                (omega (arith, c.marker.numbered)));
        reads = reads;
        indexed = d.indexed;
        reindexed =
            subst (λ n. law.HasSlots n (index.load_state (index.get_state db.graph) index.new))
              (sym (whole c.undeleted))
              (law.reloaded (length db.storage.internal_to_id) db.graph d.indexed);
        retained = omega (arith, kept, d.retained);
      } in
      (
        checkpoint_result index codecs now ((db.wal.seq + 1) % 2 ^ 64) db saved logged,
        durable,
        (
          t,
          recover_lem index codecs law out durable out.wal out.snapshot_manager is_log refl,
          reads,
        ),
      )

  -- For an index that keeps the contract `Accepts`, and where `bincode` reads back what it writes:
  -- a checkpoint of a database that its files hold, which can write its snapshot and its marker, at
  -- a time past the ids of the snapshots in the directory and while no slot is deleted, returns no
  -- error and leaves the storage alone. Afterwards the files hold the database again: what is
  -- restored from them reads as the storage and has a node for each slot, and recovery from the new
  -- files gives the graph of the state that the index had.
  pub checkpoint-IsDurable :
      (now : ℕ) (db : PersistentVectorDb env index)
      → ReadsBack codecs.wal
      → SnapshotCodec.ReadsBack codecs.snapshot
      → CanCheckpoint index codecs now db
      → IsDurable index codecs law db
      → ((checkpoint index codecs now db).0 ≡ ok tt)
        × ((checkpoint index codecs now db).1.storage ≡ db.storage)
        × IsDurable index codecs law (checkpoint index codecs now db).1
        × Recovers db (checkpoint index codecs now db).1
  checkpoint-IsDurable now db log_ok snapshot_ok c d =
      let (result, durable, recovers) = checkpointed now db log_ok snapshot_ok c d in
      rw result (refl, refl, durable, recovers)
