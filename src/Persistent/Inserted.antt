-- ===== src/Persistent/Inserted.antt =====
-- An insertion of persistent.rs on each of its branches, reading by id, and the first `open`.
use zapybase.Prelude.{
  ℕ, ◌+◌, ◌%◌, ◌^◌, ◌<◌, ◌≡◌, refl, ap, sym, subst, ◌∙◌, Bool, true, false, not, ◌&&◌, Option, none,
  some, List, arith, length, eqb, eqb_iff, if◌then◌else◌, Bool-cases, Option-cases, inl, inr,
}
use zapybase.Prelude.Eq.{◌==◌, string_eq}
use zapybase.Prelude.Slices.{lt_of_get_elem?}
use zapybase.Collections.HashMap
use zapybase.Collections.HashMap.{is_some}
use zapybase.Error.{Result, ok, err, dimension_mismatch, duplicate_id}
use zapybase.Env.{Env, Num, Meta}
use zapybase.Storage.{VectorStorage, VectorId, InternalId, internal_id_limit, get_internal_id}
use zapybase.Storage
use zapybase.Storage.Invariant.{IsValid}
use zapybase.Storage.View.{view, get_slot}
use zapybase.Storage.Steps.{insert_new, insert_present}
use zapybase.Wal.{WalEntry, append}
use zapybase.Wal.Log.{ReadsBack}
use zapybase.Snapshot.Batches as SnapshotCodec
use zapybase.Persistent.{Index, Codecs, PersistentVectorDb}
use zapybase.Persistent.Operations.{finish, insert, apply_insert, get}
use zapybase.Persistent.Replay.{Accepts, replay_new, replay_present}
use zapybase.Persistent.Recovery.{IsDurable, CanLog, log-IsDurable}
use zapybase.Persistent.Durability.{CanFinish, finish-IsDurable}

module _ {env : Env} (index : Index env) (codecs : Codecs env index.State) where
  -- the database with the entry logged
  abbrev pub logged_db :
      VectorId
      → List (Num env)
      → Option (Meta env)
      → PersistentVectorDb env index
      → PersistentVectorDb env index
  logged_db id vector metadata db = record db {
    wal = (append codecs.wal (WalEntry.insert id vector metadata) db.wal).1;
  }

  -- and with the vector stored and indexed
  abbrev pub inserted_db :
      VectorId
      → List (Num env)
      → Option (Meta env)
      → PersistentVectorDb env index
      → PersistentVectorDb env index
  inserted_db id vector metadata db =
      let storage = (Storage.insert env id vector metadata db.storage).1 in
      record (logged_db id vector metadata db) {
        storage = storage;
        graph = (index.insert (length db.storage.internal_to_id) vector storage db.graph).1;
      }

  -- what an insertion returns, given the two lengths and whether the id is taken
  abbrev pub reply : ℕ → ℕ → Bool → VectorId → Result (Unit {0})
  reply dimensions got present id =
      if not (eqb got dimensions)
      then err (dimension_mismatch dimensions got)
      else if present
      then err (duplicate_id id)
      else ok tt

  module _ (now : ℕ) (id : VectorId) (vector : List (Num env)) (metadata : Option (Meta env))
      (db : PersistentVectorDb env index) where
    abbrev pub entry : WalEntry env
    entry = WalEntry.insert id vector metadata

    abbrev pub out : Result (Unit {0}) × PersistentVectorDb env index
    out = insert index codecs now id vector metadata db

    refused :
        eqb (length vector) db.config.dimensions ≡ false
        → out ≡ (err (dimension_mismatch db.config.dimensions (length vector)), db)
    unfolding insert
    refused wrong = ground (arith, wrong)

    taken :
        (n : ℕ)
        → eqb (length vector) db.config.dimensions ≡ true
        → (append codecs.wal entry db.wal).0 ≡ ok n
        → Storage.insert env id vector metadata db.storage ≡ (err (duplicate_id id), db.storage)
        → out ≡ (err (duplicate_id id), logged_db id vector metadata db)
    unfolding insert apply_insert
    taken n fits logged present =
        rw (fits, logged, insert)
          (rw (ap (λ p. p.0) present, apply_insert) (rw (ap (λ p. p.1) present) refl))

    carried_out :
        (n : ℕ)
        → eqb (length vector) db.config.dimensions ≡ true
        → (append codecs.wal entry db.wal).0 ≡ ok n
        → (Storage.insert env id vector metadata db.storage).0
          ≡ ok (length db.storage.internal_to_id)
        → (index.insert
            (length db.storage.internal_to_id)
            vector
            (Storage.insert env id vector metadata db.storage).1
            db.graph).0
          ≡ ok tt
        → out ≡ finish index codecs now tt (inserted_db id vector metadata db)
    unfolding insert apply_insert
    carried_out n fits logged done accepted =
        let storage = (Storage.insert env id vector metadata db.storage).1 in
        rw (fits, logged, insert) (rw (done, apply_insert) (rw accepted refl))

  -- Reading by id, in a valid storage, returns what the storage holds for it and no error.
  pub get-view :
      (id : VectorId) (db : PersistentVectorDb env index)
      → IsValid env db.storage
      → get index codecs id db ≡ ok (view env db.storage id)
  unfolding get view get_internal_id
  get-view id db v = elim (Option-cases (HashMap.get db.storage.id_to_internal id)) [
    | inl e ↦ ground arith
    | inr (i, e) ↦
        let at = (v.live id i e).0 in
        ground (
          arith,
          get_slot env db.storage i v (lt_of_get_elem? db.storage.internal_to_id i {x = id} at),
        )
  ]

module _ {env : Env} (index : Index env) (codecs : Codecs env index.State)
    (law : Accepts index) where
  module _ (now : ℕ) (id : VectorId) (vector : List (Num env)) (metadata : Option (Meta env))
      (db : PersistentVectorDb env index) where
    -- what the call returns and does, on each branch
    abbrev pub Inserts : Type 0
    Inserts =
        let present = is_some (view env db.storage id) in
        let accepted = eqb (length vector) db.config.dimensions && not present in
        ((out index codecs now id vector metadata db).0
          ≡ reply index codecs db.config.dimensions (length vector) present id)
        × ((j : VectorId)
            → view env (out index codecs now id vector metadata db).1.storage j
              ≡ (if accepted && id == j then some (vector, metadata) else view env db.storage j))
        × IsDurable index codecs law (out index codecs now id vector metadata db).1

    insert_taken :
        ReadsBack codecs.wal
        → IsDurable index codecs law db
        → CanLog index codecs (entry index codecs now id vector metadata db) db.wal
        → eqb (length vector) db.config.dimensions ≡ true
        → length vector ≡ db.storage.dimensions
        → is_some (view env db.storage id) ≡ true
        → Inserts
    insert_taken log_ok d l right fits old =
        let (logged, durable) =
          log-IsDurable index codecs law (entry index codecs now id vector metadata db) db.storage
            d.replica db.graph d.graph db d log_ok l d.valid refl d.room
            (replay_present index codecs id vector metadata db.storage d.replica d.graph d.reads
              old)
            d.reads d.indexed d.reindexed in
        let present = insert_present env id vector metadata db.storage d.valid fits old in
        rw
          (taken index codecs now id vector metadata db ((db.wal.seq + 1) % 2 ^ 64) right logged
            present)
          (ground (arith, right, old), λ j. ground (arith, right, old), durable)

    insert_carried_out :
        ReadsBack codecs.wal
        → SnapshotCodec.ReadsBack codecs.snapshot
        → IsDurable index codecs law db
        → length db.storage.internal_to_id < internal_id_limit
        → CanLog index codecs (entry index codecs now id vector metadata db) db.wal
        → CanFinish index codecs now (inserted_db index codecs id vector metadata db)
        → eqb (length vector) db.config.dimensions ≡ true
        → length vector ≡ db.storage.dimensions
        → is_some (view env db.storage id) ≡ false
        → Inserts
    insert_carried_out log_ok snapshot_ok d room l can right fits new =
        let absent : view env db.storage id ≡ none = ground (arith, new) in
        let (t, graph', replays, reads, reindexed) =
          replay_new index codecs id vector metadata db.storage d.replica d.graph law d.reindexed
            d.valid d.reads room fits absent in
        let (stored, i) = insert_new env id vector metadata db.storage d.valid room fits absent in
        let (accepted, indexed) =
          law.accepts (length db.storage.internal_to_id) vector
            (Storage.insert env id vector metadata db.storage).1 db.graph i.valid i.slots
            d.indexed in
        let after = inserted_db index codecs id vector metadata db in
        let (logged, durable) =
          log-IsDurable index codecs law (entry index codecs now id vector metadata db)
            after.storage t after.graph graph' db d log_ok l i.valid i.dimensions
            (omega (arith, i.slots, room)) replays reads
            (subst (λ n. law.HasSlots n after.graph) (sym i.slots) indexed) reindexed in
        let (done, same, durable') =
          finish-IsDurable index codecs law now tt after log_ok snapshot_ok can durable in
        rw
          (carried_out index codecs now id vector metadata db ((db.wal.seq + 1) % 2 ^ 64) right
            logged stored accepted)
          (
            ground (arith, done, right, new),
            λ j. rw same (ground (arith, right, new, i.reads j)),
            durable',
          )

    pub insert_durably :
        ReadsBack codecs.wal
        → SnapshotCodec.ReadsBack codecs.snapshot
        → IsDurable index codecs law db
        → length db.storage.internal_to_id < internal_id_limit
        → CanLog index codecs (entry index codecs now id vector metadata db) db.wal
        → CanFinish index codecs now (inserted_db index codecs id vector metadata db)
        → Inserts
    insert_durably log_ok snapshot_ok d room l can =
        elim (Bool-cases (eqb (length vector) db.config.dimensions)) [
          | inr wrong ↦
              rw (refused index codecs now id vector metadata db wrong)
                (ground (arith, wrong), λ j. ground (arith, wrong), d)
          | inl right ↦
              let fits =
                (eqb_iff (length vector) db.config.dimensions).0 right ∙ sym d.dimensions in
              elim (Bool-cases (is_some (view env db.storage id))) [
                | inl old ↦ insert_taken log_ok d l right fits old
                | inr new ↦ insert_carried_out log_ok snapshot_ok d room l can right fits new
              ]
        ]
