-- ===== src/Examples/Persistent.antt =====
-- Runs of persistent.rs over the two small codecs, with the index of hnsw.rs.
use zapybase.Prelude.{
  ◌≤◌, All, Any, ℕ, ◌-◌, ◌<◌, max, min, ◌≡◌, refl, true, none, List, [], ◌∷◌, arith, length,
}
use zapybase.Prelude.Eq.{string_eq, contains}
use zapybase.Collections.HashMap
use zapybase.Collections.HashMap.{is_some}
use zapybase.Error.{ok}
use zapybase.Storage.{VectorStorage, VectorId, internal_id_limit}
use zapybase.Storage
use zapybase.Storage.View.{view}
use zapybase.Wal.{WalEntry, new_record, open_wal, set_max_size, append, needs_checkpoint}
use zapybase.Snapshot.{write_snapshot, write_state, write_batches, header_of}
use zapybase.Snapshot
use zapybase.Persistent.{
  Index, Codecs, PersistentConfig, PersistentVectorDb, open_db, disk_of, checkpoint, snapshot_of,
  add_slot, add_slots,
}
use zapybase.Persistent.Operations.{list, live_slots, current_id, insert, apply_insert, finish, get}
use zapybase.Persistent.Replay.{Accepts}
use zapybase.Persistent.Recovery.{IsDurable, CanLog}
use zapybase.Persistent.Durable.{CanCheckpoint, Recovers, checkpoint-IsDurable}
use zapybase.Persistent.Durability.{CanFinish}
use zapybase.Persistent.Inserted.{inserted_db, get-view}
use zapybase.Persistent.Indexed.{hnsw_index, hnsw_index-Accepts}
use zapybase.Hnsw.{HnswConfig}
use zapybase.Hnsw.State.{HnswState, get_state}
use zapybase.Hnsw.Insert
use zapybase.Hnsw.Connect.{new_node}
use zapybase.Examples.Hnsw.{env-IsStrict}
use zapybase.Persistent.Listing.{IsRead, list-view}
use zapybase.Persistent.Reachable.{
  new_db, Reachable, created, inserted, checkpointed, open_db-empty_disk, Reachable-IsDurable,
  reopening_is_lossless,
}
use zapybase.Examples.{env}
use zapybase.Examples.Wal as LogRuns
use zapybase.Examples.Snapshot as SnapshotRuns

abbrev hnsw_config : HnswConfig
hnsw_config = record { m = 2; m0 = 2; ef_construction = 2; ef_search = 2 }

abbrev gap : List ℕ → List ℕ → ℕ
gap (a ∷ as') (b ∷ bs) = max a b - min a b
gap as' bs = 0

-- the index of hnsw.rs, with every node at layer 0
abbrev index : Index env
index = hnsw_index env gap hnsw_config true (λ id graph. 0)

index-Accepts : Accepts index
index-Accepts =
    hnsw_index-Accepts env gap hnsw_config true (λ id graph. 0) env-IsStrict (omega arith)

abbrev codecs : Codecs env HnswState
codecs = record { wal = LogRuns.codec; snapshot = SnapshotRuns.codec }

abbrev config : PersistentConfig
config = record {
  dimensions = 2;
  sync_writes = true;
  checkpoint_threshold = 1000;
  snapshot_retain_count = 3;
}

abbrev empty_db : PersistentVectorDb env index
empty_db = new_db index codecs config

abbrev vector_a : List ℕ
vector_a = 3 ∷ 4 ∷ []

abbrev put_a : WalEntry env
put_a = WalEntry.insert "a" vector_a none

CanLog-a : CanLog index codecs put_a empty_db.wal
unfolding open_wal set_max_size LogRuns.encode_record new_record
CanLog-a = record {
  bytes = 0 ∷ 1 ∷ (new_record LogRuns.codec 1 put_a).checksum ∷ 3 ∷ 4 ∷ [];
  encoded = refl;
  small = omega arith;
  numbered = omega arith;
}

CanFinish-a : CanFinish index codecs 5 (inserted_db index codecs "a" vector_a none empty_db)
unfolding open_wal set_max_size append needs_checkpoint LogRuns.encode_record new_record
CanFinish-a over = ground (arith, over)

room_a : length empty_db.storage.internal_to_id < internal_id_limit
unfolding Storage.new
room_a = omega arith

-- one vector, under the id "a"
abbrev db_a : PersistentVectorDb env index
db_a = (insert index codecs 5 "a" vector_a none empty_db).1

Reachable-a : Reachable index codecs config db_a
Reachable-a =
    inserted 5 "a" vector_a none empty_db room_a CanLog-a CanFinish-a
      (created empty_db (open_db-empty_disk index codecs config))

IsDurable-a : IsDurable index codecs index-Accepts db_a
IsDurable-a =
    Reachable-IsDurable index codecs index-Accepts LogRuns.codec-ReadsBack
      SnapshotRuns.codec-ReadsBack config db_a Reachable-a

written_a : (write_snapshot codecs.snapshot (snapshot_of index codecs 7 db_a)).0 ≡ true
unfolding open_wal set_max_size append needs_checkpoint LogRuns.encode_record new_record insert
    apply_insert finish Storage.new Storage.insert Storage.insert_internal Storage.append_record
    Storage.retire_old Storage.store_metadata Storage.internal_id_from Storage.all_internal_ids
    Storage.range Storage.is_deleted Storage.get Storage.get_external_id Storage.get_metadata
    HashMap.insert HashMap.get HashMap.contains_key contains snapshot_of add_slots add_slot
    Snapshot.new Snapshot.add_vector Snapshot.set_hnsw_state write_snapshot write_state
    write_batches header_of SnapshotRuns.encode_header SnapshotRuns.encode_state
    SnapshotRuns.encode_graph SnapshotRuns.encode_node Insert.insert Insert.new new_node get_state
    SnapshotRuns.encode_batch
written_a = refl

CanCheckpoint-a : CanCheckpoint index codecs 7 db_a
unfolding open_wal set_max_size append needs_checkpoint LogRuns.encode_record new_record insert
    apply_insert finish Storage.new Storage.insert Storage.insert_internal HashMap.contains_key
    Snapshot.new_manager Snapshot.set_retain_count Insert.insert Insert.new Storage.append_record
    Storage.store_metadata Storage.retire_old HashMap.get
CanCheckpoint-a = record {
  written = written_a;
  newest = tt;
  undeleted = refl;
  marker = record {
    bytes = 2 ∷ 2 ∷ (new_record LogRuns.codec 2 (WalEntry.checkpoint 7)).checksum ∷ 7 ∷ [];
    encoded = refl;
    small = omega arith;
    numbered = omega arith;
  };
}

-- the same behind a checkpoint
abbrev kept_db : PersistentVectorDb env index
kept_db = (checkpoint index codecs 7 db_a).1

kept-Reachable : Reachable index codecs config kept_db
kept-Reachable = checkpointed 7 db_a CanCheckpoint-a Reachable-a

reopening_is_lossless_example :
    (db' : PersistentVectorDb env index) × (open_db index codecs kept_db.config
        (disk_of index codecs kept_db)
      ≡ ok db')
    × ((id : VectorId) → get index codecs id db' ≡ get index codecs id kept_db)
    × (db'.wal.seq ≡ kept_db.wal.seq)
reopening_is_lossless_example =
    reopening_is_lossless index codecs index-Accepts LogRuns.codec-ReadsBack
      SnapshotRuns.codec-ReadsBack config kept_db kept-Reachable

checkpoint-IsDurable_example :
    ((checkpoint index codecs 7 db_a).0 ≡ ok tt)
    × ((checkpoint index codecs 7 db_a).1.storage ≡ db_a.storage)
    × IsDurable index codecs index-Accepts (checkpoint index codecs 7 db_a).1
    × Recovers index codecs index-Accepts db_a (checkpoint index codecs 7 db_a).1
checkpoint-IsDurable_example =
    checkpoint-IsDurable index codecs index-Accepts 7 db_a LogRuns.codec-ReadsBack
      SnapshotRuns.codec-ReadsBack CanCheckpoint-a IsDurable-a

get-view_example : get index codecs "a" db_a ≡ ok (view env db_a.storage "a")
get-view_example = get-view index codecs "a" db_a IsDurable-a.valid

room_listed : length db_a.storage.internal_to_id ≤ internal_id_limit
room_listed = IsDurable-a.room

few_listed :
    length (live_slots index codecs db_a.storage (Storage.all_internal_ids env db_a.storage)) ≤ 10
unfolding open_wal set_max_size append needs_checkpoint LogRuns.encode_record new_record insert
    apply_insert finish Storage.insert Storage.insert_internal Storage.append_record
    Storage.retire_old Storage.store_metadata Storage.internal_id_from Storage.all_internal_ids
    Storage.range Storage.is_deleted Storage.get Storage.get_external_id Storage.get_internal_id
    Storage.get_metadata Storage.new HashMap.insert HashMap.get HashMap.contains_key contains
    live_slots current_id Insert.insert Insert.new
few_listed = omega arith

list-view_example :
    (let listed = list index codecs 0 10 db_a in
      All (IsRead index codecs db_a.storage) listed
      × ((id : VectorId) → is_some (view env db_a.storage id) ≡ true → Any (λ e. e.0 ≡ id) listed))
list-view_example = list-view index codecs 10 db_a IsDurable-a.valid room_listed few_listed
