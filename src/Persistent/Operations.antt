-- ===== src/Persistent/Operations.antt =====
-- The calls of a client of persistent.rs, over the recovery and the checkpoint of the parent.
use zapybase.Prelude.{
  ℕ, ◌*◌, Bool, true, false, not, Option, none, some, List, [], ◌∷◌, length, take, drop, eqb,
  if◌then◌else◌,
}
use zapybase.Error.{Result, ok, err, ◌>>=◌, dimension_mismatch, vector_not_found}
use zapybase.Env.{Env, Num, Meta}
use zapybase.Metadata.Filter.{Filter}
use zapybase.Storage
use zapybase.Storage.{VectorStorage, VectorId, InternalId}
use zapybase.Wal
use zapybase.Wal.{WalEntry}
use zapybase.Persistent.{Index, Codecs, PersistentVectorDb, checkpoint}

module _ {env : Env} (index : Index env) (codecs : Codecs env index.State) where
  -- `if self.wal.needs_checkpoint() { self.checkpoint()?; }`, and what is returned then
  unfoldable pub finish {ℓ} :
      {A : Type ℓ} → ℕ → A → PersistentVectorDb env index → Result A × PersistentVectorDb env index
  finish now result db =
      let (done, db') = checkpoint index codecs now db in
      if Wal.needs_checkpoint codecs.wal db.wal
      then (done >>= λ u. ok result, db')
      else (ok result, db)

  -- A sync writes what is in the file of the model already.
  unfoldable pub delete :
      ℕ → VectorId → PersistentVectorDb env index → Result Bool × PersistentVectorDb env index
  delete now id db =
      let (logged, wal) = Wal.append codecs.wal (WalEntry.delete id) db.wal in
      elim logged [
        | err e ↦ (err e, record db { wal = wal })
        | ok seq ↦
            let (deleted, storage) = Storage.delete env id db.storage in
            elim deleted [
              | err e ↦ (err e, record db { wal = wal; storage = storage })
              | ok found ↦ finish now found (record db { wal = wal; storage = storage })
            ]
      ]

  -- the part of `insert` behind the log
  unfoldable pub apply_insert :
      ℕ
      → VectorId
      → List (Num env)
      → Option (Meta env)
      → PersistentVectorDb env index
      → Result (Unit {0}) × PersistentVectorDb env index
  apply_insert now id vector metadata db =
      let (inserted, storage) = Storage.insert env id vector metadata db.storage in
      elim inserted [
        | err e ↦ (err e, record db { storage = storage })
        | ok internal_id ↦
            let (indexed, graph) = index.insert internal_id vector storage db.graph in
            elim indexed [
              | err e ↦ (err e, record db { storage = storage; graph = graph })
              | ok done ↦ finish now tt (record db { storage = storage; graph = graph })
            ]
      ]

  unfoldable pub insert :
      ℕ
      → VectorId
      → List (Num env)
      → Option (Meta env)
      → PersistentVectorDb env index
      → Result (Unit {0}) × PersistentVectorDb env index
  insert now id vector metadata db =
      let (logged, wal) = Wal.append codecs.wal (WalEntry.insert id vector metadata) db.wal in
      if not (eqb (length vector) db.config.dimensions)
      then (err (dimension_mismatch db.config.dimensions (length vector)), db)
      else elim logged [
        | err e ↦ (err e, record db { wal = wal })
        | ok seq ↦ apply_insert now id vector metadata (record db { wal = wal })
      ]

  unfoldable pub get :
      VectorId → PersistentVectorDb env index → Result (Option (List (Num env) × Option (Meta env)))
  get id db = elim (Storage.get_internal_id env db.storage id) [
    | none ↦ ok none
    | some internal_id ↦ elim (Storage.get env db.storage internal_id) [
      | none ↦ err (vector_not_found id)
      | some vector ↦ ok (some (vector, Storage.get_metadata env db.storage internal_id))
    ]
  ]

  unfoldable pub len : PersistentVectorDb env index → ℕ
  len db = Storage.len env db.storage

  unfoldable pub is_empty : PersistentVectorDb env index → Bool
  is_empty db = Storage.is_empty env db.storage

  -- `get_external_id`, with the metadata
  unfoldable pub with_external_id :
      VectorStorage env
      → List (InternalId × Num env)
      → List (VectorId × Num env × Option (Meta env))
  with_external_id s [] = []
  with_external_id s ((internal_id, distance) ∷ results) =
      let rest = with_external_id s results in
      elim (Storage.get_external_id env s internal_id) [
        | none ↦ rest
        | some ext_id ↦ (ext_id, distance, Storage.get_metadata env s internal_id) ∷ rest
      ]

  unfoldable pub search :
      List (Num env)
      → ℕ
      → Option (Filter env.serde.Number env.serde.float.Num)
      → PersistentVectorDb env index
      → Result (List (VectorId × Num env × Option (Meta env)))
  search query k filter db =
      if not (eqb (length query) db.config.dimensions)
      then err (dimension_mismatch db.config.dimensions (length query))
      else index.search query k db.storage filter db.graph >>= λ results.
          ok (with_external_id db.storage results)

  -- whether the slot is the current one of its external id, and that id
  unfoldable pub current_id : VectorStorage env → InternalId → Option VectorId
  current_id s internal_id = elim (Storage.get_external_id env s internal_id) [
    | none ↦ none
    | some ext_id ↦ elim (Storage.get_internal_id env s ext_id) [
      | none ↦ none
      | some current ↦ if eqb current internal_id then some ext_id else none
    ]
  ]

  unfoldable pub current_results :
      VectorStorage env → List (InternalId × Num env) → List (VectorId × Num env)
  current_results s [] = []
  current_results s ((internal_id, distance) ∷ results) =
      let rest = current_results s results in
      elim (current_id s internal_id) [ none ↦ rest | some ext_id ↦ (ext_id, distance) ∷ rest ]

  unfoldable pub search_ids :
      List (Num env)
      → ℕ
      → Option (Filter env.serde.Number env.serde.float.Num)
      → PersistentVectorDb env index
      → Result (List (VectorId × Num env))
  search_ids query k filter db =
      if not (eqb (length query) db.config.dimensions)
      then err (dimension_mismatch db.config.dimensions (length query))
      else index.search query (k * 2) db.storage filter db.graph >>= λ results.
          ok (take k (current_results db.storage results))

  unfoldable pub live_slots :
      VectorStorage env → List InternalId → List (VectorId × Option (Meta env))
  live_slots s [] = []
  live_slots s (internal_id ∷ ids) =
      let rest = live_slots s ids in
      elim (Storage.is_deleted env s internal_id) [
        | true ↦ rest
        | false ↦ elim (current_id s internal_id) [
          | none ↦ rest
          | some ext_id ↦ (ext_id, Storage.get_metadata env s internal_id) ∷ rest
        ]
      ]

  unfoldable pub list : ℕ → ℕ → PersistentVectorDb env index → List (VectorId × Option (Meta env))
  list offset limit db =
      take limit (drop offset (live_slots db.storage (Storage.all_internal_ids env db.storage)))
