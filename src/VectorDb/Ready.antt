-- ===== src/VectorDb/Ready.antt =====
-- What the operations of `VectorDb` keep true: the storage is valid, the index is sound, and the
-- index has one node for each slot of the storage.
use zapybase.Prelude.{
  ℕ, ◌+◌, ◌*◌, ◌≤◌, ◌<◌, ◌≡◌, refl, ap, sym, subst, ◌∙◌, ◌⊎◌, if◌then◌else◌, Bool, true, false, not,
  ◌&&◌, Option, some, List, [], ◌∷◌, arith, length, length-append, eqb, Bool-cases, inl, inr,
}
use zapybase.Prelude.Eq.{string_eq}
use zapybase.Prelude.Slices.{slice}
use zapybase.Collections.HashMap
use zapybase.Error.{Error, Result, ok, err, dimension_mismatch, duplicate_id}
use zapybase.Env.{Env, Num, Meta}
use zapybase.Storage
use zapybase.Storage.{
  VectorStorage, VectorId, InternalId, Item, internal_id_limit, internal_id_from, append_record,
  insert_internal,
}
use zapybase.Storage.Invariant.{IsValid, new-IsValid}
use zapybase.Storage.Preserve.{internal_id_from_lem, delete-IsValid, insert_internal-IsValid}
use zapybase.Storage.View.{get_slot, append_record_fields}
use zapybase.Storage.Steps.{delete_fields}
use zapybase.Hnsw.{HnswIndex}
use zapybase.Hnsw.Greedy.{IsStrict}
use zapybase.Hnsw.Edges.{HasVectors}
use zapybase.Hnsw.Grows.{IsSound, insert-IsSound}
use zapybase.Hnsw.Insert
use zapybase.VectorDb.{Config, VectorDb, new, trait_of, index_vector, insert, upsert, delete}

-- what the insertion of the storage replies, without the internal id
abbrev pub discard {ℓ} : {A : Type ℓ} → Result A → Result (Unit {0})
discard (ok a) = ok tt
discard (err e) = err e

module _ {env : Env} where
  pub record IsReady (db : VectorDb env) : Type 0 where
    pub valid : IsValid env db.storage
    pub sound : IsSound db.index
    pub matched : length db.index.nodes ≡ length db.storage.internal_to_id
    pub sized : db.storage.dimensions ≡ db.config.dimensions
    pub construction : 1 ≤ db.index.config.ef_construction
    pub searching : 1 ≤ db.index.config.ef_search

  -- An insertion of the storage is refused and changes nothing, or it takes the next slot.
  insert_internal-cases :
      (id : VectorId) (vector : List (Num env)) (metadata : Option (Meta env)) (allow_update : Bool)
      (s : VectorStorage env)
      → ((eqb (length vector) s.dimensions ≡ false)
          × (insert_internal env id vector metadata allow_update s
              ≡ (err (dimension_mismatch s.dimensions (length vector)), s)))
        ⊎ ((eqb (length vector) s.dimensions ≡ true)
            × (((e : Error) × (insert_internal env id vector metadata allow_update s ≡ (err e, s)))
                ⊎ (insert_internal env id vector metadata allow_update s ≡ (
                    let n = internal_id_from (length s.internal_to_id) in
                    (ok n, append_record env n (id, vector, metadata) s)))))
  unfolding insert_internal
  insert_internal-cases id vector metadata allow_update s =
      elim (Bool-cases (eqb (length vector) s.dimensions)) [
        | inr wrong ↦ inl (wrong, rw (wrong, insert_internal) refl)
        | inl fits ↦
            elim (Bool-cases (not allow_update && HashMap.contains_key s.id_to_internal id)) [
              | inl dup ↦ inr (fits, inl (duplicate_id id, rw (fits, dup, insert_internal) refl))
              | inr free ↦ inr (fits, inr (rw (fits, free, insert_internal) refl))
            ]
      ]

module _ {env : Env} (metric : List (Num env) → List (Num env) → Num env) where
  -- The storage has the vector of every node.
  pub trait_of-HasVectors :
      (s : VectorStorage env) (n : ℕ)
      → IsValid env s
      → n ≤ length s.internal_to_id
      → HasVectors (trait_of env metric s) n
  trait_of-HasVectors s n v h = record {
    vector_of = λ id k.
        (slice s.vectors (id * s.dimensions) s.dimensions, get_slot env s id v (omega arith));
  }

  -- an insertion or update, behind the check of the length
  abbrev store :
      Bool
      → ℕ
      → VectorId
      → List (Num env)
      → Option (Meta env)
      → VectorDb env
      → Option (Result (Unit {0}) × VectorDb env)
  store allow_update level id vector metadata db =
      let (stored, storage) = insert_internal env id vector metadata allow_update db.storage in
      if not (eqb (length vector) db.config.dimensions)
      then some (err (dimension_mismatch db.config.dimensions (length vector)), db)
      else index_vector env metric level vector stored (record db { storage = storage })

  -- The call returns, with the reply of the storage; the storage is as the storage's own operation
  -- leaves it, and the database is ready again.
  abbrev pub Kept {ℓ} :
      {A : Type ℓ}
      → Option (Result (Unit {0}) × VectorDb env)
      → Result A × VectorStorage env
      → VectorDb env
      → Type 0
  Kept outcome stored db =
      (out : Result (Unit {0}) × VectorDb env) × (outcome ≡ some out)
      × IsReady out.1
      × (out.0 ≡ discard stored.0)
      × (out.1.storage ≡ stored.1)
      × (out.1.config ≡ db.config)

  index_vector-ok :
      (level : ℕ) (vector : List (Num env)) (n : InternalId) (db : VectorDb env)
      (index : HnswIndex env)
      → Insert.insert env level (trait_of env metric db.storage) n vector db.index ≡ some index
      → index_vector env metric level vector (ok n) db ≡ some (ok tt, record db { index = index })
  unfolding index_vector
  index_vector-ok level vector n db index h = rw (h, index_vector) refl

  index_vector-IsReady :
      (level : ℕ) (vector : List (Num env)) (db : VectorDb env) (t : VectorStorage env)
      → IsStrict env
      → IsReady db
      → IsValid env t
      → length t.internal_to_id ≡ length db.storage.internal_to_id + 1
      → t.dimensions ≡ db.storage.dimensions
      → (out : Result (Unit {0}) × VectorDb env) × (index_vector env metric level vector
            (ok (length db.storage.internal_to_id))
            (record db { storage = t })
          ≡ some out)
        × IsReady out.1
        × (out.0 ≡ ok tt)
        × (out.1.storage ≡ t)
        × (out.1.config ≡ db.config)
  index_vector-IsReady level vector db t strict ready v slots sized =
      let same = ready.matched in
      let (index, done, sound, len, config) =
        insert-IsSound level (trait_of env metric t) vector db.index strict
          (trait_of-HasVectors t (length db.index.nodes + 1) v (omega (arith, slots, same)))
          ready.construction ready.sound in
      (
        (ok tt, record db { storage = t; index = index }),
        index_vector-ok level vector (length db.storage.internal_to_id) (record db { storage = t })
            index
            (subst
              (λ n. Insert.insert env level (trait_of env metric t) n vector db.index ≡ some index)
              same done),
        record {
          valid = v;
          sound = sound;
          matched = omega (arith, len, slots, same);
          sized = sized ∙ ready.sized;
          construction = rw config ready.construction;
          searching = rw config ready.searching;
        },
        refl,
        refl,
        refl,
      )

  store-Kept :
      (allow_update : Bool) (level : ℕ) (id : VectorId) (vector : List (Num env))
      (metadata : Option (Meta env)) (db : VectorDb env)
      → IsStrict env
      → length db.storage.internal_to_id < internal_id_limit
      → IsReady db
      → Kept
          (store allow_update level id vector metadata db)
          (insert_internal env id vector metadata allow_update db.storage)
          db
  unfolding index_vector
  store-Kept allow_update level id vector metadata db strict room ready =
      let s = db.storage in
      let sized = ready.sized in
      let kept = insert_internal-IsValid env id vector metadata allow_update s ready.valid room in
      elim (insert_internal-cases id vector metadata allow_update s) [
        | inl (wrong, refused) ↦
            let wrong' : eqb (length vector) db.config.dimensions ≡ false = rw (← sized) wrong in
            rw (refused, wrong')
              (
                (err (dimension_mismatch db.config.dimensions (length vector)), db),
                refl,
                ready,
                rw sized refl,
                refl,
                refl,
              )
        | inr (fits, inl (e, refused)) ↦
            let fits' : eqb (length vector) db.config.dimensions ≡ true = rw (← sized) fits in
            rw (refused, fits') ((err e, db), refl, ready, refl, refl, refl)
        | inr (fits, inr accepted) ↦
            let fits' : eqb (length vector) db.config.dimensions ≡ true = rw (← sized) fits in
            let n = length s.internal_to_id in
            let t = append_record env n (id, vector, metadata) s in
            let (vectors, dims, ids, slots) = append_record_fields env n id vector metadata s in
            let free = internal_id_from_lem n room in
            let taken : insert_internal env id vector metadata allow_update s ≡ (ok n, t) =
              rw accepted (rw free refl) in
            let v : IsValid env t = subst (IsValid env) (ap (λ r. r.1) taken) kept in
            rw (taken, fits')
              (index_vector-IsReady level vector db t strict ready v
                (ap length slots ∙ length-append s.internal_to_id (id ∷ [])) dims)
      ]

  -- On a ready database with a free internal id, `insert` and `upsert` return, for a vector of any
  -- length and an id that is present or not: the reply and the storage are those of the storage's own
  -- operation, and the database is ready again, with a sound index that has a node for each slot.
  -- `<` of floats is a strict order.
  pub insert-Kept :
      (level : ℕ) (id : VectorId) (vector : List (Num env)) (metadata : Option (Meta env))
      (db : VectorDb env)
      → IsStrict env
      → length db.storage.internal_to_id < internal_id_limit
      → IsReady db
      → Kept
          (insert env metric level id vector metadata db)
          (Storage.insert env id vector metadata db.storage)
          db
        × Kept
            (upsert env metric level id vector metadata db)
            (Storage.upsert env id vector metadata db.storage)
            db
  unfolding insert upsert Storage.insert Storage.upsert
  insert-Kept level id vector metadata db strict room ready = (
    store-Kept false level id vector metadata db strict room ready,
    store-Kept true level id vector metadata db strict room ready,
  )

module _ {env : Env} where
  -- A new database is ready, and a deletion keeps it so.
  pub new-IsReady :
      (config : Config)
      → 1 ≤ config.hnsw.ef_construction
      → 1 ≤ config.hnsw.ef_search
      → IsReady (new env config)
  unfolding new Insert.new Storage.new
  new-IsReady config c k = record {
    valid = new-IsValid env config.dimensions;
    sound = record {
      nodes = record { each = λ i node at. cc };
      entry = inl (refl, refl);
      below = tt;
    };
    matched = refl;
    sized = refl;
    construction = c;
    searching = k;
  }

  pub delete-IsReady :
      (id : VectorId) (db : VectorDb env) → IsReady db → IsReady (delete env id db).1
  unfolding delete
  delete-IsReady id db ready =
      let (dims, slots) = delete_fields env id db.storage in
      record {
        valid = delete-IsValid env id db.storage ready.valid;
        sound = ready.sound;
        matched = ready.matched ∙ ap length (sym slots);
        sized = dims ∙ ready.sized;
        construction = ready.construction;
        searching = ready.searching;
      }
