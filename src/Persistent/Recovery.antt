-- ===== src/Persistent/Recovery.antt =====
-- What the disk of a database holds at any time, and what `open` makes of it.
use zapybase.Prelude.{
  ℕ, ◌+◌, ◌%◌, ◌^◌, ◌≤◌, ◌<◌, ◌≡◌, refl, ap, sym, ◌∙◌, Option, some, List, [], ◌∷◌, ◌++◌, arith,
  length, ltb, Bool-cases, inl, inr,
}
use zapybase.Error.{ok}
use zapybase.Env.{Env}
use zapybase.Storage.{VectorStorage, VectorId, internal_id_limit}
use zapybase.Storage.Invariant.{IsValid}
use zapybase.Storage.View.{view}
use zapybase.Wal.{WalEntry, Wal, new_record, open_wal, set_max_size, append}
use zapybase.Wal.Bytes.{Byte}
use zapybase.Wal.Frames.{Logged, entries_after, last_seq}
use zapybase.Wal.Log.{ReadsBack, IsLog, append-IsLog}
use zapybase.Wal.Append.{IsLog-reads, open_wal-IsLog, last_seq-append}
use zapybase.Snapshot.{Snapshot, SnapshotManager, load_latest, new_manager, set_retain_count}
use zapybase.Persistent.{
  Index, Codecs, PersistentVectorDb, restore, replay, replay_entry, recover, open_db, disk_of,
}
use zapybase.Persistent.Replay.{Accepts, IsReplica, replay-append}

module _ {env : Env} (index : Index env) (codecs : Codecs env index.State) where
  -- The entry can be logged: it serialises, to less than 4 GiB, and a sequence number is left.
  pub record CanLog (entry : WalEntry env) (wal : Wal env) : Type 0 where
    pub bytes : List Byte
    pub encoded :
        codecs.wal.serialize_record (new_record codecs.wal ((wal.seq + 1) % 2 ^ 64) entry)
        ≡ some bytes
    pub small : length bytes < 2 ^ 32
    pub numbered : wal.seq + 1 < 2 ^ 64

  abbrev pub logged_record : WalEntry env → Wal env → List Byte → Logged codecs.wal
  logged_record entry wal bytes = (new_record codecs.wal ((wal.seq + 1) % 2 ^ 64) entry, bytes)

  pub entries_after-append :
      (n : ℕ) (log : List (Logged codecs.wal)) (l : Logged codecs.wal)
      → n < l.0.seq
      → entries_after codecs.wal n (log ++ l ∷ [])
        ≡ entries_after codecs.wal n log ++ l.0.entry ∷ []
  entries_after-append n [] l h = ground (arith, h)
  entries_after-append n (k ∷ log) l h = elim (Bool-cases (ltb n k.0.seq)) [
    | inl newer ↦ ground (arith, newer, entries_after-append n log l h)
    | inr older ↦ ground (arith, older, entries_after-append n log l h)
  ]

  pub append_seq :
      (entry : WalEntry env) (wal : Wal env)
      → CanLog entry wal
      → (append codecs.wal entry wal).1.seq ≡ (wal.seq + 1) % 2 ^ 64
  unfolding append
  append_seq entry wal l = ground (arith, l.encoded)

module _ {env : Env} (index : Index env) (codecs : Codecs env index.State)
    (law : Accepts index) where
  -- The files hold a snapshot (or none) and the records since; restoring and replaying them gives
  -- a storage that reads as the one in memory. The graph in memory has a node for each slot of the
  -- storage, and so has the restored graph for the restored storage.
  pub record IsDurable (db : PersistentVectorDb env index) : Type 0 where
    pub valid : IsValid env db.storage
    pub dimensions : db.storage.dimensions ≡ db.config.dimensions
    pub room : length db.storage.internal_to_id ≤ internal_id_limit
    pub log : List (Logged codecs.wal)
    pub logged : IsLog codecs.wal db.wal log
    pub last : last_seq codecs.wal 0 log ≡ db.wal.seq
    pub snapshot : Option (Snapshot env index.State)
    pub loaded : load_latest codecs.snapshot db.snapshot_manager ≡ ok snapshot
    pub base_seq : ℕ
    pub base : VectorStorage env
    pub base_graph : index.Graph
    pub restored : restore index codecs db.config snapshot ≡ ok (base_seq, base, base_graph)
    pub older : base_seq ≤ db.wal.seq
    pub replica : VectorStorage env
    pub graph : index.Graph
    pub replayed :
        replay index codecs (entries_after codecs.wal base_seq log) (base, base_graph)
        ≡ ok (replica, graph)
    pub reads : IsReplica env db.storage replica
    pub indexed : law.HasSlots (length db.storage.internal_to_id) db.graph
    pub reindexed : law.HasSlots (length replica.internal_to_id) graph
    pub retained : 1 ≤ db.snapshot_manager.retain_count

  -- Logging an entry, with a storage that reads as the replayed entry makes the replica read.
  pub log-IsDurable :
      (entry : WalEntry env) (storage t : VectorStorage env) (graph graph' : index.Graph)
      (db : PersistentVectorDb env index) (d : IsDurable db)
      → ReadsBack codecs.wal
      → CanLog index codecs entry db.wal
      → IsValid env storage
      → storage.dimensions ≡ db.storage.dimensions
      → length storage.internal_to_id ≤ internal_id_limit
      → replay_entry index codecs entry (d.replica, d.graph) ≡ ok (t, graph')
      → IsReplica env storage t
      → law.HasSlots (length storage.internal_to_id) graph
      → law.HasSlots (length t.internal_to_id) graph'
      → let out = append codecs.wal entry db.wal in
        (out.0 ≡ ok ((db.wal.seq + 1) % 2 ^ 64))
        × IsDurable (record db { wal = out.1; storage = storage; graph = graph })
  unfolding new_record
  log-IsDurable entry storage t graph graph' db d codec_ok l v dims room replays reads indexed
        reindexed =
      let r = logged_record index codecs entry db.wal l.bytes in
      let (done, logged) =
        append-IsLog codecs.wal entry db.wal d.log l.bytes codec_ok d.logged l.encoded l.small in
      let numbered = append_seq index codecs entry db.wal l in
      (
        done,
        record {
          valid = v;
          dimensions = dims ∙ d.dimensions;
          room = room;
          log = d.log ++ r ∷ [];
          logged = logged;
          last = last_seq-append codecs.wal 0 d.log r ∙ sym numbered;
          snapshot = d.snapshot;
          loaded = d.loaded;
          base_seq = d.base_seq;
          base = d.base;
          base_graph = d.base_graph;
          restored = d.restored;
          older = omega (arith, numbered, d.older, l.numbered);
          replica = t;
          graph = graph';
          replayed =
              ap (λ es. replay index codecs es (d.base, d.base_graph))
                (entries_after-append index codecs d.base_seq d.log r
                  (omega (arith, d.older, l.numbered)))
              ∙ replay-append index codecs (entries_after codecs.wal d.base_seq d.log) entry
                  (d.base, d.base_graph) (d.replica, d.graph) (t, graph') d.replayed replays;
          reads = reads;
          indexed = indexed;
          reindexed = reindexed;
          retained = d.retained;
        },
      )

  pub recover_lem :
      (db : PersistentVectorDb env index) (d : IsDurable db) (wal : Wal env)
      (manager : SnapshotManager)
      → IsLog codecs.wal wal d.log
      → manager.dir ≡ db.snapshot_manager.dir
      → recover index codecs db.config wal manager ≡ ok (d.replica, d.graph)
  unfolding recover load_latest
  recover_lem db d wal manager logged same =
      let (all', after, seq) = IsLog-reads codecs.wal wal d.log d.base_seq logged in
      rw (same, d.loaded, recover) (rw (d.restored, recover) (rw (after, recover) (d.replayed)))

  -- Opening what a process left behind succeeds; the database reads as the one that was left at
  -- every id and goes on from its sequence number, and its files hold it again.
  pub open_db-disk_of :
      (db : PersistentVectorDb env index)
      → IsDurable db
      → (db' : PersistentVectorDb env index) × (open_db index codecs db.config
            (disk_of index codecs db)
          ≡ ok db')
        × ((id : VectorId) → view env db'.storage id ≡ view env db.storage id)
        × (db'.wal.seq ≡ db.wal.seq)
        × IsDurable db'
  unfolding open_db disk_of
  open_db-disk_of db d =
      let opened = open_wal codecs.wal db.wal.current in
      let wal = set_max_size codecs.wal db.config.checkpoint_threshold opened in
      let manager =
        set_retain_count db.config.snapshot_retain_count (new_manager db.snapshot_manager.dir) in
      let l = open_wal-IsLog codecs.wal db.wal d.log d.logged in
      let logged : IsLog codecs.wal wal d.log =
        unfold set_max_size in
        record { stored = l.stored; opened = l.opened; readable = l.readable; sized = l.sized } in
      let same : manager.dir ≡ db.snapshot_manager.dir =
        unfold set_retain_count new_manager in refl in
      let (all', after, seq) = IsLog-reads codecs.wal db.wal d.log 0 d.logged in
      let seq' : wal.seq ≡ db.wal.seq = unfold set_max_size in (seq ∙ d.last) in
      let recovered = recover_lem db d wal manager logged same in
      let db' : PersistentVectorDb env index = record {
        config = db.config;
        storage = d.replica;
        graph = d.graph;
        wal = wal;
        snapshot_manager = manager;
      } in
      (
        db',
        rw recovered refl,
        d.reads.reads,
        seq',
        record {
          valid = d.reads.valid;
          dimensions = d.reads.dimensions ∙ d.dimensions;
          room = omega (arith, d.reads.slots, d.room);
          log = d.log;
          logged = logged;
          last = d.last ∙ sym seq';
          snapshot = d.snapshot;
          loaded = unfold load_latest in rw same d.loaded;
          base_seq = d.base_seq;
          base = d.base;
          base_graph = d.base_graph;
          restored = d.restored;
          older = omega (arith, d.older, seq');
          replica = d.replica;
          graph = d.graph;
          replayed = d.replayed;
          reads = record {
            valid = d.reads.valid;
            dimensions = refl;
            slots = omega arith;
            reads = λ id. refl;
          };
          indexed = d.reindexed;
          reindexed = d.reindexed;
          retained = unfold set_retain_count in omega arith;
        },
      )
