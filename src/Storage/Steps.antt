-- ===== src/Storage/Steps.antt =====
-- What the operations of storage.rs do to one storage, as the database above uses it.
use zapybase.Prelude.{
  ◌+◌, ◌<◌, ◌≡◌, ap, ◌∙◌, true, false, Option, none, some, List, [], ◌∷◌, ◌++◌, arith, length,
  length-append, eqb_iff, if◌then◌else◌, Option-cases, inl, inr,
}
use zapybase.Prelude.Eq.{◌==◌, nat_eq, string_eq}
use zapybase.Collections.HashMap
use zapybase.Collections.HashMap.{is_some}
use zapybase.Error.{ok, err, duplicate_id}
use zapybase.Env.{Env, Num, Meta}
use zapybase.Storage.{
  VectorStorage, VectorId, InternalId, internal_id_limit, retire_old, delete, insert_internal,
  insert, get_internal_id, internal_id_from,
}
use zapybase.Storage.Invariant.{IsValid}
use zapybase.Storage.Preserve.{insert_internal-IsValid}
use zapybase.Storage.View.{view, append_record_fields, vectors-retire_old}
use zapybase.Storage.Refines.{view_some, insert_internal_refines}

module _ (env : Env) where
  -- `t` reads as `s` reads with an entry for `id`, in one slot more
  pub record IsInserted (id : VectorId) (vector : List (Num env)) (metadata : Option (Meta env))
      (s t : VectorStorage env) : Type 0 where
    pub valid : IsValid env t
    pub dimensions : t.dimensions ≡ s.dimensions
    pub slots : length t.internal_to_id ≡ length s.internal_to_id + 1
    pub reads :
        (j : VectorId) → view env t j ≡ (if id == j then some (vector, metadata) else view env s j)

  pub internal_id_none :
      (id : VectorId) (s : VectorStorage env)
      → IsValid env s
      → view env s id ≡ none
      → get_internal_id env s id ≡ none
  internal_id_none id s v h = ground (arith, view_some env s id v)

  pub internal_id_some :
      (id : VectorId) (s : VectorStorage env)
      → IsValid env s
      → is_some (view env s id) ≡ true
      → (i : InternalId) × (get_internal_id env s id ≡ some i)
  internal_id_some id s v h = elim (Option-cases (get_internal_id env s id)) [
    | inl e ↦ ground (arith, view_some env s id v)
    | inr found ↦ found
  ]

  new_fields :
      (id : VectorId) (vector : List (Num env)) (metadata : Option (Meta env))
      (s : VectorStorage env)
      → length vector ≡ s.dimensions
      → get_internal_id env s id ≡ none
      → ((insert env id vector metadata s).1.dimensions ≡ s.dimensions)
        × ((insert env id vector metadata s).1.internal_to_id ≡ s.internal_to_id ++ id ∷ [])
  unfolding insert insert_internal get_internal_id
  new_fields id vector metadata s fits absent =
      let n = internal_id_from (length s.internal_to_id) in
      ground (
        arith,
        (eqb_iff (length vector) s.dimensions).1 fits,
        HashMap.contains_key_lem s.id_to_internal id,
        append_record_fields env n id vector metadata s,
      )

  pub insert_new :
      (id : VectorId) (vector : List (Num env)) (metadata : Option (Meta env))
      (s : VectorStorage env)
      → IsValid env s
      → length s.internal_to_id < internal_id_limit
      → length vector ≡ s.dimensions
      → view env s id ≡ none
      → ((insert env id vector metadata s).0 ≡ ok (length s.internal_to_id))
        × IsInserted id vector metadata s (insert env id vector metadata s).1
  unfolding insert
  insert_new id vector metadata s v room fits new =
      let (replies, reads, same) = insert_internal_refines env id vector metadata false s v room in
      let fits' = (eqb_iff (length vector) s.dimensions).1 fits in
      let fields = new_fields id vector metadata s fits (internal_id_none id s v new) in
      (
        ground (arith, replies, fits', new),
        record {
          valid = insert_internal-IsValid env id vector metadata false s v room;
          dimensions = fields.0;
          slots = ap length fields.1 ∙ length-append s.internal_to_id (id ∷ []);
          reads = λ j. ground (arith, reads j, fits', new);
        },
      )

  pub insert_present :
      (id : VectorId) (vector : List (Num env)) (metadata : Option (Meta env))
      (s : VectorStorage env)
      → IsValid env s
      → length vector ≡ s.dimensions
      → is_some (view env s id) ≡ true
      → insert env id vector metadata s ≡ (err (duplicate_id id), s)
  unfolding insert insert_internal get_internal_id
  insert_present id vector metadata s v fits old = ground (
    arith,
    (eqb_iff (length vector) s.dimensions).1 fits,
    HashMap.contains_key_lem s.id_to_internal id,
    view_some env s id v,
  )

  -- Deleting keeps the length of the vectors and the slots.
  pub delete_fields :
      (id : VectorId) (s : VectorStorage env)
      → ((delete env id s).1.dimensions ≡ s.dimensions)
        × ((delete env id s).1.internal_to_id ≡ s.internal_to_id)
  unfolding delete retire_old
  delete_fields id s = elim (Option-cases (HashMap.get s.id_to_internal id)) [
    | inl e ↦ ground arith
    | inr (old, e) ↦ ground (
      arith,
      vectors-retire_old env (some old)
          (record s { id_to_internal = HashMap.remove s.id_to_internal id }),
    )
  ]
