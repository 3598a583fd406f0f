-- ===== src/Storage/Invariant.antt =====
-- What every operation of storage.rs keeps true of a `VectorStorage`.
use zapybase.Prelude.{
  ℕ, ◌+◌, ◌*◌, ◌<◌, ◌≡◌, String, Bool, true, false, Option, none, some, arith, length, get_elem?,
  eqb, if◌then◌else◌, Option-cases, inl, inr,
}
use zapybase.Prelude.Eq.{nat_eq, string_eq, pair_eq, contains}
use zapybase.Collections.HashMap
use zapybase.Collections.HashMap.{map_laws}
use zapybase.Collections.HashSet
use zapybase.Env.{Env, Meta}
use zapybase.Metadata.BitmapIndex.Pairs.{pairs, holds}
use zapybase.Metadata.BitmapIndex.Update.{holds-remove, holds-new}
use zapybase.Storage.{VectorStorage, VectorId, InternalId, new, drop_metadata, retire}

module _ (env : Env) where
  -- `id` is one of the pairs of the metadata, if there is any
  abbrev pub indexed_by : Option (Meta env) → String → String → Bool
  indexed_by none path value = false
  indexed_by (some meta) path value = contains (pairs env.serde.to_string "" meta) (path, value)

  pub record IsValid (s : VectorStorage env) : Type 0 where
    -- the flat array has one vector for each slot
    pub sized : length s.vectors ≡ length s.internal_to_id * s.dimensions
    -- each slot is live or deleted
    pub counted : HashMap.len s.id_to_internal + length s.deleted ≡ length s.internal_to_id
    pub unique : HashMap.IsUnique s.id_to_internal
    -- the two maps agree on the slots that are not deleted
    pub live :
        (id : VectorId) (i : InternalId)
        → HashMap.get s.id_to_internal id ≡ some i
        → (get_elem? s.internal_to_id i ≡ some id) × (contains s.deleted i ≡ false)
    pub complete :
        (i : InternalId) (id : VectorId)
        → get_elem? s.internal_to_id i ≡ some id
        → contains s.deleted i ≡ false
        → HashMap.get s.id_to_internal id ≡ some i
    pub dead : (i : InternalId) → contains s.deleted i ≡ true → i < length s.internal_to_id
    -- only live slots have metadata
    pub owned :
        (i : InternalId) (m : Meta env)
        → HashMap.get s.metadata i ≡ some m
        → (i < length s.internal_to_id) × (contains s.deleted i ≡ false)
    -- the bitmaps hold exactly the pairs of the stored metadata
    pub indexed :
        (path value : String) (i : InternalId)
        → holds env.roaring s.bitmap_index path value i
          ≡ indexed_by (HashMap.get s.metadata i) path value

  pub new-IsValid : (dimensions : ℕ) → IsValid (new env dimensions)
  unfolding new contains
  new-IsValid dimensions = record {
    sized = omega arith;
    counted = omega arith;
    unique = HashMap.new-IsUnique _ _;
    live = λ id i h. ground (arith, HashMap.get-new {V = InternalId} id);
    complete = λ i id h k. ground arith;
    dead = λ i h. cc;
    owned = λ i m h. ground (arith, HashMap.get-new {V = Meta env} i);
    indexed = λ path value i. ground (
      arith,
      holds-new env.roaring env.serde.to_string path value i,
      HashMap.get-new {V = Meta env} i,
    );
  }

  -- Dropping the metadata of one slot keeps the index true, at every slot.
  pub drop_metadata-indexed :
      (old : InternalId) (s : VectorStorage env)
      → ((path value : String) (i : InternalId)
          → holds env.roaring s.bitmap_index path value i
            ≡ indexed_by (HashMap.get s.metadata i) path value)
      → (path value : String) (i : InternalId)
      → (holds env.roaring (drop_metadata env old s).bitmap_index path value i
          ≡ indexed_by (HashMap.get (drop_metadata env old s).metadata i) path value)
  unfolding drop_metadata
  drop_metadata-indexed old s h path value i = elim (Option-cases (HashMap.get s.metadata old)) [
    | inl e ↦ ground (arith, h path value i)
    | inr (m, e) ↦ ground (
      arith,
      h path value i,
      holds-remove env.roaring env.serde.to_string old m s.bitmap_index path value i,
      HashMap.get-remove s.metadata old i,
    )
  ]

  pub get-drop_metadata :
      (old : InternalId) (s : VectorStorage env) (i : InternalId)
      → HashMap.get (drop_metadata env old s).metadata i
        ≡ (if eqb old i then none else HashMap.get s.metadata i)
  unfolding drop_metadata
  get-drop_metadata old s i = ground (arith, HashMap.get-remove s.metadata old i)

  -- the fields that `drop_metadata` leaves alone
  pub record SameSlots (s t : VectorStorage env) : Type 0 where
    pub dimensions : s.dimensions ≡ t.dimensions
    pub vectors : s.vectors ≡ t.vectors
    pub id_to_internal : s.id_to_internal ≡ t.id_to_internal
    pub internal_to_id : s.internal_to_id ≡ t.internal_to_id
    pub deleted : s.deleted ≡ t.deleted

  pub drop_metadata-SameSlots :
      (old : InternalId) (s : VectorStorage env) → SameSlots (drop_metadata env old s) s
  unfolding drop_metadata
  drop_metadata-SameSlots old s = ground arith

  -- A storage that is valid but for `old`, which no external id has any more, is valid after it is
  -- retired.
  pub record IsPending (old : InternalId) (s : VectorStorage env) : Type 0 where
    pub sized : length s.vectors ≡ length s.internal_to_id * s.dimensions
    pub counted : HashMap.len s.id_to_internal + length s.deleted + 1 ≡ length s.internal_to_id
    pub unique : HashMap.IsUnique s.id_to_internal
    pub slot : old < length s.internal_to_id
    pub undeleted : contains s.deleted old ≡ false
    pub live :
        (id : VectorId) (i : InternalId)
        → HashMap.get s.id_to_internal id ≡ some i
        → (get_elem? s.internal_to_id i ≡ some id)
          × (contains s.deleted i ≡ false)
          × (eqb old i ≡ false)
    pub complete :
        (i : InternalId) (id : VectorId)
        → get_elem? s.internal_to_id i ≡ some id
        → contains s.deleted i ≡ false
        → eqb old i ≡ false
        → HashMap.get s.id_to_internal id ≡ some i
    pub dead : (i : InternalId) → contains s.deleted i ≡ true → i < length s.internal_to_id
    pub owned :
        (i : InternalId) (m : Meta env)
        → HashMap.get s.metadata i ≡ some m
        → (i < length s.internal_to_id) × (contains s.deleted i ≡ false)
    pub indexed :
        (path value : String) (i : InternalId)
        → holds env.roaring s.bitmap_index path value i
          ≡ indexed_by (HashMap.get s.metadata i) path value

  pub retire-IsValid :
      (old : InternalId) (s : VectorStorage env) → IsPending old s → IsValid (retire env old s)
  unfolding retire
  retire-IsValid old s p =
      let t : VectorStorage env = record s { deleted = HashSet.insert s.deleted old } in
      let same = drop_metadata-SameSlots old t in
      record {
        sized = ground (arith, same.vectors, p.sized);
        counted = ground (arith, HashSet.length-insert_new s.deleted old p.undeleted);
        unique = rw same.id_to_internal p.unique;
        live = λ id i h. ground (arith, p.live id i, HashSet.contains-insert s.deleted old i);
        complete =
            λ i id h k. ground (arith, p.complete i id, HashSet.contains-insert s.deleted old i);
        dead = λ i h. ground (arith, p.dead i, HashSet.contains-insert s.deleted old i);
        owned = λ i m h. ground (
          arith,
          p.owned i m,
          get-drop_metadata old t i,
          HashSet.contains-insert s.deleted old i,
        );
        indexed = drop_metadata-indexed old t p.indexed;
      }
