-- ===== src/Persistent/Durability.antt =====
-- What a client of persistent.rs gets from each call, and that the files hold its effect.
use zapybase.Prelude.{
  ℕ, ◌+◌, ◌%◌, ◌^◌, ◌≡◌, refl, ap, sym, subst, Bool, true, none, arith, length, if◌then◌else◌,
  Bool-cases, inl, inr,
}
use zapybase.Prelude.Eq.{◌==◌, string_eq}
use zapybase.Collections.HashMap.{is_some}
use zapybase.Error.{ok}
use zapybase.Env.{Env}
use zapybase.Storage.{VectorStorage, VectorId, InternalId, internal_id_limit}
use zapybase.Storage
use zapybase.Storage.Preserve.{delete-IsValid}
use zapybase.Storage.View.{view}
use zapybase.Storage.Refines.{delete_refines}
use zapybase.Storage.Steps.{delete_fields}
use zapybase.Wal.{WalEntry, append, needs_checkpoint}
use zapybase.Wal.Log.{ReadsBack}
use zapybase.Snapshot.Batches as SnapshotCodec
use zapybase.Persistent.{Index, Codecs, PersistentVectorDb, replay_entry}
use zapybase.Persistent.Operations.{finish, delete}
use zapybase.Persistent.Replay.{Accepts, IsReplica-delete}
use zapybase.Persistent.Recovery.{IsDurable, CanLog, log-IsDurable}
use zapybase.Persistent.Durable.{CanCheckpoint, checkpoint-IsDurable}

module _ {env : Env} (index : Index env) (codecs : Codecs env index.State) where
  -- Where the log is over its limit, the checkpoint can be made.
  abbrev pub CanFinish : ℕ → PersistentVectorDb env index → Type 0
  CanFinish now db = needs_checkpoint codecs.wal db.wal ≡ true → CanCheckpoint index codecs now db

  abbrev pub deleted_db : VectorId → PersistentVectorDb env index → PersistentVectorDb env index
  deleted_db id db = record db {
    wal = (append codecs.wal (WalEntry.delete id) db.wal).1;
    storage = (Storage.delete env id db.storage).1;
  }

  delete_result :
      (now n : ℕ) (id : VectorId) (found : Bool) (db : PersistentVectorDb env index)
      → (append codecs.wal (WalEntry.delete id) db.wal).0 ≡ ok n
      → (Storage.delete env id db.storage).0 ≡ ok found
      → delete index codecs now id db ≡ finish index codecs now found (deleted_db id db)
  unfolding delete
  delete_result now n id found db logged deleted = rw (logged, delete) (rw deleted refl)

module _ {env : Env} (index : Index env) (codecs : Codecs env index.State)
    (law : Accepts index) where
  pub finish-IsDurable :
      {A : Type 0} (now : ℕ) (result : A) (db : PersistentVectorDb env index)
      → ReadsBack codecs.wal
      → SnapshotCodec.ReadsBack codecs.snapshot
      → CanFinish index codecs now db
      → IsDurable index codecs law db
      → let out = finish index codecs now result db in
        (out.0 ≡ ok result) × (out.1.storage ≡ db.storage) × IsDurable index codecs law out.1
  unfolding finish
  finish-IsDurable now result db log_ok snapshot_ok can d =
      elim (Bool-cases (needs_checkpoint codecs.wal db.wal)) [
        | inl over ↦
            let (done, same, durable, recovers) =
              checkpoint-IsDurable index codecs law now db log_ok snapshot_ok (can over) d in
            rw over (rw done refl, same, durable)
        | inr under ↦ rw under (refl, refl, d)
      ]

  pub delete_durably :
      (now : ℕ) (id : VectorId) (db : PersistentVectorDb env index)
      → ReadsBack codecs.wal
      → SnapshotCodec.ReadsBack codecs.snapshot
      → IsDurable index codecs law db
      → CanLog index codecs (WalEntry.delete id) db.wal
      → CanFinish index codecs now (deleted_db index codecs id db)
      → let out = delete index codecs now id db in
        (out.0 ≡ ok (is_some (view env db.storage id)))
        × ((j : VectorId)
            → view env out.1.storage j ≡ (if id == j then none else view env db.storage j))
        × IsDurable index codecs law out.1
  unfolding replay_entry
  delete_durably now id db log_ok snapshot_ok d l can =
      let (reported, reads) = delete_refines env id db.storage d.valid in
      let (dims, slots) = delete_fields env id db.storage in
      let storage = (Storage.delete env id db.storage).1 in
      let (logged, durable) =
        log-IsDurable index codecs law (WalEntry.delete id) storage
          (Storage.delete env id d.replica).1 db.graph d.graph db d log_ok l
          (delete-IsValid env id db.storage d.valid) dims (omega (arith, ap length slots, d.room))
          refl (IsReplica-delete env id db.storage d.replica d.valid d.reads)
          (subst (λ ids. law.HasSlots (length ids) db.graph) (sym slots) d.indexed)
          (subst (λ ids. law.HasSlots (length ids) d.graph) (sym (delete_fields env id d.replica).1)
            d.reindexed) in
      let result =
        delete_result index codecs now ((db.wal.seq + 1) % 2 ^ 64) id _ db logged reported in
      let (done, same, durable') =
        finish-IsDurable now (is_some (view env db.storage id)) (deleted_db index codecs id db)
          log_ok snapshot_ok can durable in
      rw result (done, λ j. rw same (reads j), durable')
