-- ===== src/Storage/Preserve.antt =====
-- `delete`, `insert`, `upsert` and `upsert_batch` of storage.rs keep the storage valid.
use zapybase.Prelude.{
  ℕ, ◌<◌, ◌≡◌, refl, sym, subst, Bool, false, not, ◌&&◌, Option, none, some, List, [], ◌∷◌, ◌++◌,
  arith, length, length-append, eqb, Option-cases, Bool-cases, inl, inr,
}
use zapybase.Prelude.Eq.{nat_eq, string_eq, pair_eq, contains}
use zapybase.Collections.HashMap
use zapybase.Collections.HashMap.{map_laws}
use zapybase.Collections.HashSet
use zapybase.Prelude.Slices.{get_elem?-append_one, lt_of_get_elem?}
use zapybase.Env.{Env, Num, Meta}
use zapybase.Metadata.BitmapIndex.Update.{holds-index}
use zapybase.Storage.{
  VectorStorage, VectorId, InternalId, internal_id_limit, drop_metadata, retire, retire_old, delete,
  store_metadata, append_record, insert_internal, internal_id_from,
}
use zapybase.Storage.Invariant.{IsValid, IsPending, retire-IsValid, get-drop_metadata}

pub internal_id_from_lem : (n : ℕ) → n < internal_id_limit → internal_id_from n ≡ n
unfolding internal_id_from
internal_id_from_lem n h = omega arith

module _ (env : Env) where
  -- Deleting keeps the storage valid.
  pub delete-IsValid :
      (id : VectorId) (s : VectorStorage env) → IsValid env s → IsValid env (delete env id s).1
  unfolding delete
  delete-IsValid id s v = elim (Option-cases (HashMap.get s.id_to_internal id)) [
    | inl e ↦ rw (e, delete) v
    | inr (old, e) ↦
        let t : VectorStorage env = record s {
          id_to_internal = HashMap.remove s.id_to_internal id;
        } in
        rw (e, delete)
          (retire-IsValid env old t (record {
            sized = v.sized;
            counted = ground (arith, v.counted, HashMap.len-remove s.id_to_internal id v.unique);
            unique = HashMap.remove-IsUnique s.id_to_internal id v.unique;
            slot = lt_of_get_elem? s.internal_to_id old (v.live id old e).0;
            undeleted = (v.live id old e).1;
            live = λ j i h. ground (
              arith,
              string_eq.beq_iff id j,
              v.live id old,
              v.live j i,
              HashMap.get-remove s.id_to_internal id j,
            );
            complete = λ i j h k l. ground (
              arith,
              string_eq.beq_iff id j,
              v.complete i j,
              HashMap.get-remove s.id_to_internal id j,
            );
            dead = v.dead;
            owned = v.owned;
            indexed = v.indexed;
          }))
  ]

  store_metadata-IsValid :
      (i : InternalId) (meta : Option (Meta env)) (s : VectorStorage env)
      → i < length s.internal_to_id
      → contains s.deleted i ≡ false
      → HashMap.get s.metadata i ≡ none
      → IsValid env s
      → IsValid env (store_metadata env i meta s)
  unfolding store_metadata
  store_metadata-IsValid i none s slot undeleted free v = v
  store_metadata-IsValid i (some m) s slot undeleted free v = record {
    sized = v.sized;
    counted = v.counted;
    unique = v.unique;
    live = v.live;
    complete = v.complete;
    dead = v.dead;
    owned = λ j n h. ground (arith, v.owned j n, HashMap.get-insert s.metadata i m j);
    indexed = λ path value j. ground (
      arith,
      v.indexed path value j,
      HashMap.get-insert s.metadata i m j,
      holds-index env.roaring env.serde.to_string i m s.bitmap_index path value j,
    );
  }

  -- the state of an insertion before an old record is retired, with the new slot in place
  abbrev opened : InternalId → VectorId → List (Num env) → VectorStorage env → VectorStorage env
  opened n id vector s = record s {
    vectors = s.vectors ++ vector;
    id_to_internal = HashMap.insert s.id_to_internal id n;
    internal_to_id = s.internal_to_id ++ id ∷ [];
  }

  pub retire_old-push :
      (o : Option InternalId) (s : VectorStorage env) (l : List VectorId)
      → record (retire_old env o s) { internal_to_id = (retire_old env o s).internal_to_id ++ l }
        ≡ retire_old env o (record s { internal_to_id = s.internal_to_id ++ l })
  unfolding retire_old retire drop_metadata
  retire_old-push none s l = refl
  retire_old-push (some old) s l = ground arith

  pub id_to_internal-retire_old :
      (o : Option InternalId) (s : VectorStorage env)
      → (retire_old env o s).id_to_internal ≡ s.id_to_internal
  unfolding retire_old retire drop_metadata
  id_to_internal-retire_old none s = refl
  id_to_internal-retire_old (some old) s = ground arith

  pub metadata-retire_old :
      (o : Option InternalId) (s : VectorStorage env) (i : InternalId)
      → HashMap.get s.metadata i ≡ none
      → HashMap.get (retire_old env o s).metadata i ≡ none
  unfolding retire_old retire
  metadata-retire_old none s i h = h
  metadata-retire_old (some old) s i h =
      ground
        (arith, get-drop_metadata env old (record s { deleted = HashSet.insert s.deleted old }) i)

  module _ (id : VectorId) (vector : List (Num env)) (s : VectorStorage env) (v : IsValid env s)
      (fits : length vector ≡ s.dimensions) where
    abbrev n : InternalId
    n = length s.internal_to_id

    new_undeleted : contains s.deleted n ≡ false
    new_undeleted = ground (arith, v.dead n)

    opened-IsValid : HashMap.get s.id_to_internal id ≡ none → IsValid env (opened n id vector s)
    opened-IsValid fresh = record {
      sized =
          rw (length-append s.vectors vector, length-append s.internal_to_id (id ∷ []))
            (omega (arith, v.sized, fits));
      counted = ground (
        arith,
        v.counted,
        length-append s.internal_to_id (id ∷ []),
        HashMap.len-insert s.id_to_internal id n,
      );
      unique = HashMap.insert-IsUnique s.id_to_internal id n v.unique;
      live = λ j i h. ground (
        arith,
        string_eq.beq_iff id j,
        v.live j i,
        new_undeleted,
        HashMap.get-insert s.id_to_internal id n j,
        get_elem?-append_one s.internal_to_id id i,
        lt_of_get_elem? s.internal_to_id i {x = j},
      );
      complete = λ i j h k. ground (
        arith,
        string_eq.beq_iff id j,
        v.complete i j,
        HashMap.get-insert s.id_to_internal id n j,
        get_elem?-append_one s.internal_to_id id i,
      );
      dead = λ i h. ground (arith, v.dead i h, length-append s.internal_to_id (id ∷ []));
      owned = λ i m h. ground (arith, v.owned i m h, length-append s.internal_to_id (id ∷ []));
      indexed = v.indexed;
    }

    opened-IsPending :
        (old : InternalId)
        → HashMap.get s.id_to_internal id ≡ some old
        → IsPending env old (opened n id vector s)
    opened-IsPending old e = record {
      sized =
          rw (length-append s.vectors vector, length-append s.internal_to_id (id ∷ []))
            (omega (arith, v.sized, fits));
      counted = ground (
        arith,
        v.counted,
        length-append s.internal_to_id (id ∷ []),
        HashMap.len-insert s.id_to_internal id n,
      );
      unique = HashMap.insert-IsUnique s.id_to_internal id n v.unique;
      slot = ground (
        arith,
        v.live id old e,
        lt_of_get_elem? s.internal_to_id old {x = id},
        length-append s.internal_to_id (id ∷ []),
      );
      undeleted = (v.live id old e).1;
      live = λ j i h. ground (
        arith,
        string_eq.beq_iff id j,
        v.live id old e,
        v.live j i,
        new_undeleted,
        HashMap.get-insert s.id_to_internal id n j,
        get_elem?-append_one s.internal_to_id id i,
        lt_of_get_elem? s.internal_to_id i {x = j},
        lt_of_get_elem? s.internal_to_id old {x = id},
      );
      complete = λ i j h k l. ground (
        arith,
        string_eq.beq_iff id j,
        v.live id old e,
        v.complete i j,
        HashMap.get-insert s.id_to_internal id n j,
        get_elem?-append_one s.internal_to_id id i,
      );
      dead = λ i h. ground (arith, v.dead i h, length-append s.internal_to_id (id ∷ []));
      owned = λ i m h. ground (arith, v.owned i m h, length-append s.internal_to_id (id ∷ []));
      indexed = v.indexed;
    }

    -- What an insertion is built on: the slot in place, the old record retired.
    placed-IsValid :
        IsValid env (retire_old env (HashMap.get s.id_to_internal id) (opened n id vector s))
    placed-IsValid = elim (Option-cases (HashMap.get s.id_to_internal id)) [
      | inl e ↦ rw e (unfold retire_old in opened-IsValid e)
      | inr (old, e) ↦ rw e (
          unfold retire_old in
          retire-IsValid env old (opened n id vector s) (opened-IsPending old e))
    ]

    new_free : HashMap.get s.metadata n ≡ none
    new_free = elim (Option-cases (HashMap.get s.metadata n)) [
      | inl e ↦ e
      | inr (m, e) ↦ absurd (omega (arith, (v.owned n m e).0))
    ]

    pub append_record-IsValid :
        (metadata : Option (Meta env)) → IsValid env (append_record env n (id, vector, metadata) s)
    unfolding append_record
    append_record-IsValid metadata =
        let o = HashMap.get s.id_to_internal id in
        let placed = retire_old env o (opened n id vector s) in
        let here = placed-IsValid.live id n (
          rw (id_to_internal-retire_old o (opened n id vector s))
            (HashMap.get-insert_self s.id_to_internal id n)) in
        subst (λ t. IsValid env (store_metadata env n metadata t))
          (sym (
            retire_old-push o
              (record s {
                vectors = s.vectors ++ vector;
                id_to_internal = HashMap.insert s.id_to_internal id n;
              })
              (id ∷ [])))
          (store_metadata-IsValid n metadata placed (lt_of_get_elem? placed.internal_to_id n here.0)
            here.1 (metadata-retire_old o (opened n id vector s) n new_free) placed-IsValid)

  -- A valid storage with a free internal id stays valid, whether an insertion or an update is
  -- carried out or refused.
  pub insert_internal-IsValid :
      (id : VectorId) (vector : List (Num env)) (metadata : Option (Meta env)) (allow_update : Bool)
      (s : VectorStorage env)
      → IsValid env s
      → length s.internal_to_id < internal_id_limit
      → IsValid env (insert_internal env id vector metadata allow_update s).1
  unfolding insert_internal
  insert_internal-IsValid id vector metadata allow_update s v room =
      elim (Bool-cases (eqb (length vector) s.dimensions)) [
        | inl fits ↦
            elim (Bool-cases (not allow_update && HashMap.contains_key s.id_to_internal id)) [
              | inl dup ↦ rw (fits, dup, insert_internal) v
              | inr free ↦
                  rw
                    (
                      fits,
                      free,
                      insert_internal,
                      internal_id_from_lem (length s.internal_to_id) room,
                    )
                    (append_record-IsValid id vector s v (ground arith) metadata)
            ]
        | inr wrong ↦ rw (wrong, insert_internal) v
      ]
