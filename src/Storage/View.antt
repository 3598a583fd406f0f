-- ===== src/Storage/View.antt =====
-- What a client reads from a storage: a map from external ids to vectors with their metadata.
use zapybase.Prelude.{
  ◌+◌, ◌*◌, ◌≤◌, ◌<◌, ◌≡◌, refl, ap, sym, false, Option, none, some, List, [], ◌∷◌, ◌++◌, arith,
  length, length-append, eqb, le→leb, if◌then◌else◌, Option-cases, Bool-cases, inl, inr,
}
use zapybase.Prelude.Eq.{◌==◌, nat_eq, string_eq}
use zapybase.Prelude.Slices.{slice, slice-append, slice-append_new, lt_of_get_elem?}
use zapybase.Collections.HashMap
use zapybase.Env.{Env, Num, Meta}
use zapybase.Storage.{
  VectorStorage, VectorId, InternalId, drop_metadata, retire, retire_old, store_metadata,
  append_record, get, get_metadata, get_internal_id,
}
use zapybase.Storage.Invariant.{IsValid, get-drop_metadata}

module _ (env : Env) where
  -- A vector and its metadata, as the map behind the storage has them.
  abbrev pub Entry : Type 0
  Entry = List (Num env) × Option (Meta env)

  abbrev pub with_metadata : Option (List (Num env)) → Option (Meta env) → Option Entry
  with_metadata none m = none
  with_metadata (some vector) m = some (vector, m)

  unfoldable pub view : VectorStorage env → VectorId → Option Entry
  view s id = elim (get_internal_id env s id) [
    | none ↦ none
    | some i ↦ with_metadata (get env s i) (get_metadata env s i)
  ]

  -- every slot of a valid storage has its vector
  pub get_slot :
      (s : VectorStorage env) (i : InternalId)
      → IsValid env s
      → i < length s.internal_to_id
      → get env s i ≡ some (slice s.vectors (i * s.dimensions) s.dimensions)
  unfolding get
  get_slot s i v h =
      let fits : i * s.dimensions + s.dimensions ≤ length s.vectors = grind (arith, v.sized) in
      ground (arith, fits)

  unfoldable pub metadata_of_old :
      Option InternalId → VectorStorage env → InternalId → Option (Meta env)
  metadata_of_old none s i = HashMap.get s.metadata i
  metadata_of_old (some old) s i = if eqb old i then none else HashMap.get s.metadata i

  pub metadata-retire_old_lem :
      (o : Option InternalId) (s : VectorStorage env) (i : InternalId)
      → HashMap.get (retire_old env o s).metadata i ≡ metadata_of_old o s i
  unfolding retire_old retire metadata_of_old
  metadata-retire_old_lem none s i = refl
  metadata-retire_old_lem (some old) s i = get-drop_metadata env old _ i

  pub vectors-retire_old :
      (o : Option InternalId) (s : VectorStorage env)
      → ((retire_old env o s).vectors ≡ s.vectors)
        × ((retire_old env o s).dimensions ≡ s.dimensions)
        × ((retire_old env o s).id_to_internal ≡ s.id_to_internal)
        × ((retire_old env o s).internal_to_id ≡ s.internal_to_id)
  unfolding retire_old retire drop_metadata
  vectors-retire_old none s = (refl, refl, refl, refl)
  vectors-retire_old (some old) s = ground arith

  pub append_record_fields :
      (n : InternalId) (id : VectorId) (vector : List (Num env)) (m : Option (Meta env))
      (s : VectorStorage env)
      → let t = append_record env n (id, vector, m) s in
        (t.vectors ≡ s.vectors ++ vector)
        × (t.dimensions ≡ s.dimensions)
        × (t.id_to_internal ≡ HashMap.insert s.id_to_internal id n)
        × (t.internal_to_id ≡ s.internal_to_id ++ id ∷ [])
  unfolding append_record store_metadata
  append_record_fields n id vector none s =
      let o = HashMap.get s.id_to_internal id in
      let p = record s {
        vectors = s.vectors ++ vector;
        id_to_internal = HashMap.insert s.id_to_internal id n;
      } in
      ground (arith, vectors-retire_old o p)
  append_record_fields n id vector (some m) s =
      let o = HashMap.get s.id_to_internal id in
      let p = record s {
        vectors = s.vectors ++ vector;
        id_to_internal = HashMap.insert s.id_to_internal id n;
      } in
      ground (arith, vectors-retire_old o p)

  metadata_of_old_same :
      (o : Option InternalId) (p s : VectorStorage env) (i : InternalId)
      → p.metadata ≡ s.metadata
      → metadata_of_old o p i ≡ metadata_of_old o s i
  unfolding metadata_of_old
  metadata_of_old_same none p s i h = ap (λ k. HashMap.get k i) h
  metadata_of_old_same (some old) p s i h = ap (λ k. if eqb old i then none else HashMap.get k i) h

  or_else : Option (Meta env) → Option (Meta env) → Option (Meta env)
  or_else none d = d
  or_else (some m) d = some m

  metadata-append_record :
      (n : InternalId) (id : VectorId) (vector : List (Num env)) (m : Option (Meta env))
      (s : VectorStorage env) (i : InternalId)
      → HashMap.get (append_record env n (id, vector, m) s).metadata i ≡ (
          if eqb n i
          then or_else m (metadata_of_old (HashMap.get s.id_to_internal id) s i)
          else metadata_of_old (HashMap.get s.id_to_internal id) s i)
  unfolding append_record store_metadata or_else
  metadata-append_record n id vector none s i =
      let o = HashMap.get s.id_to_internal id in
      let p = record s {
        vectors = s.vectors ++ vector;
        id_to_internal = HashMap.insert s.id_to_internal id n;
      } in
      ground (arith, metadata-retire_old_lem o p i, metadata_of_old_same o p s i refl)
  metadata-append_record n id vector (some m) s i =
      let o = HashMap.get s.id_to_internal id in
      let p = record s {
        vectors = s.vectors ++ vector;
        id_to_internal = HashMap.insert s.id_to_internal id n;
      } in
      ground (
        arith,
        HashMap.get-insert (retire_old env o p).metadata n m i,
        metadata-retire_old_lem o p i,
        metadata_of_old_same o p s i refl,
      )

  module _ (id : VectorId) (vector : List (Num env)) (m : Option (Meta env)) (s : VectorStorage env)
      (v : IsValid env s) (fits : length vector ≡ s.dimensions) where
    abbrev n : InternalId
    n = length s.internal_to_id

    abbrev t : VectorStorage env
    t = append_record env n (id, vector, m) s

    no_metadata : HashMap.get s.metadata n ≡ none
    no_metadata = elim (Option-cases (HashMap.get s.metadata n)) [
      | inl e ↦ e
      | inr (x, e) ↦ absurd (omega (arith, (v.owned n x e).0))
    ]

    get_new : get env t n ≡ some vector
    get_new =
        let (vectors, dimensions, ids, slots) = append_record_fields n id vector m s in
        unfold get in
        rw (vectors, dimensions)
          (rw
            (le→leb (n * s.dimensions + s.dimensions) (length (s.vectors ++ vector))
              (rw (length-append s.vectors vector) (omega (arith, v.sized, fits))))
            (ap some (
              slice-append_new s.vectors vector (n * s.dimensions) s.dimensions (sym v.sized)
                (sym fits))))

    get_other : (i : InternalId) → i < n → get env t i ≡ get env s i
    get_other i h =
        let (vectors, dimensions, ids, slots) = append_record_fields n id vector m s in
        let inside : i * s.dimensions + s.dimensions ≤ length s.vectors = grind (arith, v.sized) in
        unfold get in
        rw (vectors, dimensions)
          (rw
            (
              le→leb (i * s.dimensions + s.dimensions) (length (s.vectors ++ vector))
                  (rw (length-append s.vectors vector) (omega arith)),
              le→leb (i * s.dimensions + s.dimensions) (length s.vectors) inside,
            )
            (ap some (slice-append s.vectors vector (i * s.dimensions) s.dimensions inside)))

    metadata_new : HashMap.get t.metadata n ≡ m
    unfolding or_else metadata_of_old
    metadata_new = ground (
      arith,
      metadata-append_record n id vector m s n,
      no_metadata,
      HashMap.get s.id_to_internal id,
    )

    metadata_other :
        (j : VectorId) (i : InternalId)
        → HashMap.get s.id_to_internal j ≡ some i
        → (id == j) ≡ false
        → HashMap.get t.metadata i ≡ HashMap.get s.metadata i
    unfolding metadata_of_old
    metadata_other j i h d = elim (Option-cases (HashMap.get s.id_to_internal id)) [
      | inl e ↦ ground (
        arith,
        metadata-append_record n id vector m s i,
        v.live j i h,
        lt_of_get_elem? s.internal_to_id i {x = j},
      )
      | inr (old, e) ↦ ground (
        arith,
        metadata-append_record n id vector m s i,
        v.live j i h,
        v.live id old e,
        lt_of_get_elem? s.internal_to_id i {x = j},
        string_eq.beq_iff id j,
      )
    ]

    -- The map that a client reads changes at the inserted id alone.
    pub view-append_record :
        (j : VectorId) → view t j ≡ (if id == j then some (vector, m) else view s j)
    unfolding view get_internal_id get_metadata
    view-append_record j =
        let (vectors, dimensions, ids, slots) = append_record_fields n id vector m s in
        elim (Bool-cases (id == j)) [
          | inl same ↦ ground (
            arith,
            string_eq.beq_iff id j,
            ids,
            HashMap.get-insert s.id_to_internal id n j,
            get_new,
            metadata_new,
          )
          | inr other ↦ elim (Option-cases (HashMap.get s.id_to_internal j)) [
            | inl e ↦ ground (arith, ids, HashMap.get-insert s.id_to_internal id n j)
            | inr (i, e) ↦ ground (
              arith,
              ids,
              HashMap.get-insert s.id_to_internal id n j,
              get_other i,
              metadata_other j i e other,
              v.live j i e,
              lt_of_get_elem? s.internal_to_id i {x = j},
            )
          ]
        ]
