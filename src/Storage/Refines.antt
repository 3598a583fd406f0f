-- ===== src/Storage/Refines.antt =====
-- The operations of storage.rs as changes of a map from external ids to vectors with metadata.
use zapybase.Prelude.{
  ℕ, ◌<◌, ◌≡◌, Bool, not, ◌&&◌, ◌||◌, Option, none, some, List, arith, length, eqb, eqb_iff,
  if◌then◌else◌, Option-cases, Bool-cases, inl, inr,
}
use zapybase.Prelude.Eq.{◌==◌, nat_eq, string_eq}
use zapybase.Prelude.Slices.{lt_of_get_elem?}
use zapybase.Collections.HashMap
use zapybase.Collections.HashMap.{is_some}
use zapybase.Error.{Result, ok, err, dimension_mismatch, duplicate_id}
use zapybase.Env.{Env, Num, Meta}
use zapybase.Storage.{
  VectorStorage, VectorId, InternalId, internal_id_limit, retire_old, delete, insert_internal, get,
  get_metadata, get_internal_id,
}
use zapybase.Storage.Invariant.{IsValid}
use zapybase.Storage.Preserve.{internal_id_from_lem}
use zapybase.Storage.View.{
  view, get_slot, view-append_record, metadata_of_old, metadata-retire_old_lem, vectors-retire_old,
}

module _ (env : Env) where
  -- In a valid storage the view has an entry exactly where there is an internal id.
  pub view_some :
      (s : VectorStorage env) (id : VectorId)
      → IsValid env s
      → is_some (view env s id) ≡ is_some (get_internal_id env s id)
  unfolding view get_internal_id
  view_some s id v = elim (Option-cases (HashMap.get s.id_to_internal id)) [
    | inl e ↦ ground arith
    | inr (i, e) ↦
        ground
          (arith, get_slot env s i v, v.live id i e, lt_of_get_elem? s.internal_to_id i {x = id})
  ]

  view-none :
      (s : VectorStorage env) (id : VectorId)
      → HashMap.get s.id_to_internal id ≡ none
      → view env s id ≡ none
  unfolding view get_internal_id
  view-none s id h = ground arith

  -- Whether an insertion is carried out, and what it returns: `present` says that the id is taken,
  -- and `next` is the number of slots in use.
  abbrev pub accepts : ℕ → ℕ → Bool → Bool → Bool
  accepts dimensions got allow_update present = eqb got dimensions && (allow_update || not present)

  abbrev pub reply : ℕ → ℕ → Bool → Bool → VectorId → InternalId → Result InternalId
  reply dimensions got allow_update present id next =
      if not (eqb got dimensions)
      then err (dimension_mismatch dimensions got)
      else if not allow_update && present
      then err (duplicate_id id)
      else ok next

  -- An insertion or update with a free internal id: a vector of the wrong length is refused, and a
  -- present id is refused unless updates are allowed; otherwise the next slot is returned, the id
  -- reads as the new vector and metadata, and every other id reads as before. A refusal changes
  -- nothing at all.
  pub insert_internal_refines :
      (id : VectorId) (vector : List (Num env)) (metadata : Option (Meta env)) (allow_update : Bool)
      (s : VectorStorage env)
      → IsValid env s
      → length s.internal_to_id < internal_id_limit
      → let out = insert_internal env id vector metadata allow_update s in
        let present = is_some (view env s id) in
        let accepted = accepts s.dimensions (length vector) allow_update present in
        (out.0
          ≡ reply s.dimensions (length vector) allow_update present id (length s.internal_to_id))
        × ((j : VectorId)
            → view env out.1 j
              ≡ (if accepted && id == j then some (vector, metadata) else view env s j))
        × ((if accepted then s else out.1) ≡ s)
  unfolding insert_internal get_internal_id
  insert_internal_refines id vector metadata allow_update s v room =
      let known = view_some s id v in
      let dup = HashMap.contains_key_lem s.id_to_internal id in
      let n = internal_id_from_lem (length s.internal_to_id) room in
      (
        ground (arith, known, dup, n),
        λ j. elim (Bool-cases (eqb (length vector) s.dimensions)) [
          | inl fits ↦ ground (
            arith,
            known,
            dup,
            n,
            view-append_record env id vector metadata s v
                ((eqb_iff (length vector) s.dimensions).0 fits) j,
          )
          | inr wrong ↦ ground arith
        ],
        ground (arith, known, dup),
      )

  view_retired :
      (id : VectorId) (old : InternalId) (s : VectorStorage env) (v : IsValid env s)
      → HashMap.get s.id_to_internal id ≡ some old
      → (j : VectorId)
      → view env
          (retire_old env
            (some old)
            (record s { id_to_internal = HashMap.remove s.id_to_internal id }))
          j
        ≡ (if id == j then none else view env s j)
  unfolding view get_internal_id get get_metadata metadata_of_old
  view_retired id old s v e j =
      let p : VectorStorage env = record s {
        id_to_internal = HashMap.remove s.id_to_internal id;
      } in
      let (vectors, dimensions, ids, slots) = vectors-retire_old env (some old) p in
      elim (Option-cases (HashMap.get s.id_to_internal j)) [
        | inl h ↦ ground (arith, ids, HashMap.get-remove s.id_to_internal id j)
        | inr (i, h) ↦ ground (
          arith,
          string_eq.beq_iff id j,
          vectors,
          dimensions,
          ids,
          v.live id old e,
          v.live j i h,
          HashMap.get-remove s.id_to_internal id j,
          metadata-retire_old_lem env (some old) p i,
        )
      ]

  -- Deleting reports whether the id was there; afterwards it reads as absent, and every other id
  -- as before.
  pub delete_refines :
      (id : VectorId) (s : VectorStorage env)
      → IsValid env s
      → let out = delete env id s in
        (out.0 ≡ ok (is_some (view env s id)))
        × ((j : VectorId) → view env out.1 j ≡ (if id == j then none else view env s j))
  unfolding delete retire_old get_internal_id
  delete_refines id s v = elim (Option-cases (HashMap.get s.id_to_internal id)) [
    | inl e ↦ (
      ground (arith, view_some s id v),
      λ j. ground (arith, string_eq.beq_iff id j, view-none s id e),
    )
    | inr (old, e) ↦
        (ground (arith, view_some s id v), λ j. ground (arith, view_retired id old s v e j))
  ]
