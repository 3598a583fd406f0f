-- ===== src/Storage/Batch.antt =====
-- `upsert_batch` of storage.rs against the same items upserted one by one.
use zapybase.Prelude.{
  ℕ, ◌+◌, ◌≤◌, ◌≡◌, refl, ap, Option, none, some, List, [], ◌∷◌, arith, length, length-append,
  eqb_iff, Option-cases, inl, inr,
}
use zapybase.Error.{Result, ok, err, dimension_mismatch}
use zapybase.Env.{Env, Num, Meta}
use zapybase.Storage.{
  VectorStorage, VectorId, InternalId, Item, internal_id_limit, internal_id_from, append_record,
  insert_internal, upsert, bad_length, batch_loop, upsert_batch,
}
use zapybase.Storage.Invariant.{IsValid}
use zapybase.Storage.Preserve.{internal_id_from_lem, append_record-IsValid}
use zapybase.Storage.View.{append_record_fields}

module _ (env : Env) where
  abbrev prepend :
      InternalId
      → Result (List InternalId) × VectorStorage env
      → Result (List InternalId) × VectorStorage env
  prepend id (ok ids, s) = (ok (id ∷ ids), s)
  prepend id (err e, s) = (err e, s)

  abbrev and_then :
      Result InternalId × VectorStorage env
      → (VectorStorage env → Result (List InternalId) × VectorStorage env)
      → Result (List InternalId) × VectorStorage env
  and_then (ok internal_id, s) rest = prepend internal_id (rest s)
  and_then (err e, s) rest = (err e, s)

  -- The items one after the other, up to the first error.
  pub upsert_each :
      List (Item env) → VectorStorage env → Result (List InternalId) × VectorStorage env
  upsert_each [] s = (ok [], s)
  upsert_each ((id, vector, metadata) ∷ items) s =
      and_then (upsert env id vector metadata s) (upsert_each items)

  upsert_fits :
      (id : VectorId) (vector : List (Num env)) (m : Option (Meta env)) (s : VectorStorage env)
      → length vector ≡ s.dimensions
      → upsert env id vector m s ≡ (
          let n = internal_id_from (length s.internal_to_id) in
          (ok n, append_record env n (id, vector, m) s))
  unfolding upsert insert_internal
  upsert_fits id vector m s h = ground (arith, eqb_iff (length vector) s.dimensions)

  upsert_each-cons :
      (id : VectorId) (vector : List (Num env)) (m : Option (Meta env)) (items : List (Item env))
      (s : VectorStorage env)
      → length vector ≡ s.dimensions
      → upsert_each ((id, vector, m) ∷ items) s ≡ (
          let n = internal_id_from (length s.internal_to_id) in
          prepend n (upsert_each items (append_record env n (id, vector, m) s)))
  unfolding upsert_each
  upsert_each-cons id vector m items s h =
      ap (λ o. and_then o (upsert_each items)) (upsert_fits id vector m s h)

  abbrev as_ok : List InternalId × VectorStorage env → Result (List InternalId) × VectorStorage env
  as_ok (ids, s) = (ok ids, s)

  prepend-as_ok :
      (i : InternalId) (r : List InternalId × VectorStorage env)
      → prepend i (as_ok r) ≡ as_ok (i ∷ r.0, r.1)
  prepend-as_ok i (ids, s) = refl

  batch_loop-eq-each :
      (items : List (Item env)) (position : ℕ) (s : VectorStorage env)
      → bad_length env s.dimensions items ≡ none
      → position ≡ length s.internal_to_id
      → as_ok (batch_loop env position items s) ≡ upsert_each items s
  unfolding batch_loop bad_length
  batch_loop-eq-each [] position s good at = unfold upsert_each in refl
  batch_loop-eq-each ((id, vector, m) ∷ items) position s good at =
      let n = internal_id_from position in
      let t = append_record env n (id, vector, m) s in
      let (vectors, dimensions, ids, slots) = append_record_fields env n id vector m s in
      let fits : length vector ≡ s.dimensions =
        ground (arith, eqb_iff (length vector) s.dimensions) in
      let rest : as_ok (batch_loop env (position + 1) items t) ≡ upsert_each items t =
        batch_loop-eq-each items (position + 1) t
          (rw dimensions (ground (arith, eqb_iff (length vector) s.dimensions)))
          (rw slots (rw (length-append s.internal_to_id (id ∷ [])) (omega arith))) in
      rw (upsert_each-cons id vector m items s fits, ← at) (ap (prepend n) rest)

  -- what a batch does: nothing, at a vector of the wrong length, and else each item in turn
  abbrev pub checked :
      Option ℕ → List (Item env) → VectorStorage env → Result (List InternalId) × VectorStorage env
  checked (some got) items s = (err (dimension_mismatch s.dimensions got), s)
  checked none items s = upsert_each items s

  -- Where every vector has the right length, `upsert_batch` does what upserting the items one by
  -- one does, with the same internal ids; the first vector of the wrong length refuses the whole
  -- batch, and nothing changes.
  pub upsert_batch_refines :
      (items : List (Item env)) (s : VectorStorage env)
      → upsert_batch env items s ≡ checked (bad_length env s.dimensions items) items s
  unfolding upsert_batch
  upsert_batch_refines [] s = unfold bad_length upsert_each in refl
  upsert_batch_refines (item ∷ items) s =
      elim (Option-cases (bad_length env s.dimensions (item ∷ items))) [
        | inl h ↦
            rw (h, upsert_batch)
              (batch_loop-eq-each (item ∷ items) (length s.internal_to_id) s h refl)
        | inr (got, h) ↦ rw (h, upsert_batch)
      ]

  prepend-IsValid :
      (i : InternalId) (r : Result (List InternalId) × VectorStorage env)
      → IsValid env r.1
      → IsValid env (prepend i r).1
  prepend-IsValid i (ok ids, s) v = v
  prepend-IsValid i (err e, s) v = v

  upsert_each-IsValid :
      (items : List (Item env)) (s : VectorStorage env)
      → IsValid env s
      → length s.internal_to_id + length items ≤ internal_id_limit
      → bad_length env s.dimensions items ≡ none
      → IsValid env (upsert_each items s).1
  unfolding bad_length
  upsert_each-IsValid [] s v room good = unfold upsert_each in v
  upsert_each-IsValid ((id, vector, m) ∷ items) s v room good =
      let n = internal_id_from (length s.internal_to_id) in
      let t = append_record env n (id, vector, m) s in
      let (vectors, dimensions, ids, slots) = append_record_fields env n id vector m s in
      let fits : length vector ≡ s.dimensions =
        ground (arith, eqb_iff (length vector) s.dimensions) in
      let kept : IsValid env t =
        rw (internal_id_from_lem (length s.internal_to_id) (omega arith))
          (append_record-IsValid env id vector s v fits m) in
      let rest : IsValid env (upsert_each items t).1 =
        upsert_each-IsValid items t kept
          (rw slots (rw (length-append s.internal_to_id (id ∷ [])) (omega arith)))
          (rw dimensions (ground (arith, eqb_iff (length vector) s.dimensions))) in
      rw (upsert_each-cons id vector m items s fits) (prepend-IsValid n (upsert_each items t) rest)

  -- A batch that has free internal ids keeps a valid storage valid.
  pub upsert_batch-IsValid :
      (items : List (Item env)) (s : VectorStorage env)
      → IsValid env s
      → length s.internal_to_id + length items ≤ internal_id_limit
      → IsValid env (upsert_batch env items s).1
  upsert_batch-IsValid items s v room = elim (Option-cases (bad_length env s.dimensions items)) [
    | inl good ↦
        rw (upsert_batch_refines items s) (rw good (upsert_each-IsValid items s v room good))
    | inr (got, bad) ↦ rw (upsert_batch_refines items s) (rw bad v)
  ]
