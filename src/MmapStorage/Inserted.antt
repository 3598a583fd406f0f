-- ===== src/MmapStorage/Inserted.antt =====
-- `insert` and `upsert` of mmap_storage.rs on every branch.
use zapybase.Prelude.{
  ◌%◌, ◌<◌, ◌≡◌, refl, ap, sym, subst, ◌∙◌, Bool, not, ◌&&◌, Option, some, List, [], ◌∷◌, ◌++◌,
  arith, length, eqb, eqb_iff, if◌then◌else◌, Bool-cases, Option-cases, ◌⊎◌, inl, inr, true, false,
}
use zapybase.Prelude.Eq.{◌==◌, string_eq}
use zapybase.Collections.HashMap
use zapybase.Collections.HashMap.{is_some}
use zapybase.Error.{Error, Result, ok, err, dimension_mismatch, duplicate_id}
use zapybase.Env.{Env, Num}
use zapybase.Wal.Bytes.{Byte}
use zapybase.Storage.{VectorId, InternalId, internal_id_limit, internal_id_from}
use zapybase.Storage.Preserve.{internal_id_from_lem}
use zapybase.Storage.Refines.{accepts, reply}
use zapybase.MmapStorage.{
  FloatBytes, IdCodec, MmapStorage, append_vector, save_index, replied, insert_internal, get,
  get_internal_id,
}
use zapybase.MmapStorage.Slots.{ReadsBack, get_slot}
use zapybase.MmapStorage.Valid.{IsMapped, view, slot_of, append_vector_fields}
use zapybase.MmapStorage.Refines.{
  append_vector-IsMapped, view-append_vector, view_known, view_absent, mapped_length, slot_fits,
}

-- `bincode` gives bytes for these ids, and gives the ids back
pub record CodecReads (codec : IdCodec) (ids : List VectorId) : Type 0 where
  pub first : Byte
  pub others : List Byte
  pub written : codec.serialize ids ≡ some (first ∷ others)
  pub read : codec.deserialize (first ∷ others) ≡ some ids

module _ {env : Env} (floats : FloatBytes env) (codec : IdCodec) (law : ReadsBack floats) where
  -- an id reads as a vector where it is in the map
  view_some :
      (s : MmapStorage) (id : VectorId)
      → IsMapped floats codec s
      → s.count < internal_id_limit
      → is_some (view floats codec s id) ≡ HashMap.contains_key s.id_to_internal id
  view_some s id v room = elim (Option-cases (HashMap.get s.id_to_internal id)) [
    | inl absent ↦
        ap is_some (view_absent floats codec law s id absent)
        ∙ sym (HashMap.contains_key_lem s.id_to_internal id ∙ ap is_some absent)
    | inr (k, known) ↦
        let inside = slot_of floats codec s id k v (omega arith) known in
        ap is_some (
          view_known floats codec law s id k known
          ∙ get_slot floats codec s k (mapped_length floats codec law s k v inside)
              (slot_fits floats codec law s k v inside))
        ∙ sym (HashMap.contains_key_lem s.id_to_internal id ∙ ap is_some known)
  ]

  -- a storage with the same files, maps and sizes, and any index file
  abbrev pub Inserted :
      VectorId → List (Num env) → Bool → MmapStorage → Result InternalId × MmapStorage → Type 0
  Inserted id vector allow_update s out =
      let present = is_some (view floats codec s id) in
      let accepted = accepts env s.dimensions (length vector) allow_update present in
      (out.0 ≡ reply env s.dimensions (length vector) allow_update present id s.count)
      × ((j : VectorId)
          → view floats codec out.1 j
            ≡ (if accepted && id == j then some vector else view floats codec s j))
      × IsMapped floats codec out.1

  pub saved-IsMapped :
      (s : MmapStorage) (index_file : Option (List Byte))
      → IsMapped floats codec s
      → IsMapped floats codec (record s { index_file = index_file })
  saved-IsMapped s index_file v = record {
    positive = v.positive;
    small = v.small;
    head = v.head;
    sized = v.sized;
    counted = v.counted;
    measured = v.measured;
    mapped = v.mapped;
    numbered = v.numbered;
  }

  save_index-view :
      (s : MmapStorage) (index_file : Option (List Byte)) (j : VectorId)
      → view floats codec (record s { index_file = index_file }) j ≡ view floats codec s j
  unfolding view get_internal_id get
  save_index-view s index_file j = refl

  -- The insertion writes the ids to the index file, or not; both ways it returns the internal id.
  finished :
      (n : InternalId) (s : MmapStorage)
      → CodecReads codec s.internal_to_id
      → (index_file : Option (List Byte)) × ((if eqb (n % 100) 0
            then replied env floats codec n (save_index env floats codec s)
            else (ok n, s))
          ≡ (ok n, record s { index_file = index_file }))
  unfolding save_index
  finished n s reads = elim (Bool-cases (eqb (n % 100) 0)) [
    | inl saved ↦
        (some (reads.first ∷ reads.others), rw saved (rw (reads.written, save_index) refl))
    | inr unsaved ↦ (s.index_file, rw unsaved refl)
  ]

  -- On a valid storage with a free internal id, for ids that `bincode` writes, an insertion or update
  -- refuses a vector of the wrong length, and a present id unless updates are allowed; otherwise it
  -- returns the next internal id, the id reads as the vector, and every other id reads as before. On
  -- every branch the storage stays valid, and a refusal leaves what is read alone.
  pub insert_internal-view :
      (id : VectorId) (vector : List (Num env)) (allow_update : Bool) (s : MmapStorage)
      → IsMapped floats codec s
      → s.count < internal_id_limit
      → CodecReads codec (s.internal_to_id ++ id ∷ [])
      → Inserted id vector allow_update s
          (insert_internal env floats codec id vector allow_update s)
  unfolding insert_internal
  insert_internal-view id vector allow_update s v room reads =
      let present = view_some s id v room in
      elim (Bool-cases (eqb (length vector) s.dimensions)) [
        | inr wrong ↦ rw (wrong, insert_internal) (refl, λ j. refl, v)
        | inl fits ↦
            elim (Bool-cases (not allow_update && HashMap.contains_key s.id_to_internal id)) [
              | inl taken ↦
                  rw (fits, taken, insert_internal, present)
                    (ground (arith, taken), λ j. ground (arith, taken), v)
              | inr free ↦
                  let n = internal_id_from s.count in
                  let t = append_vector env floats codec id vector s in
                  let (dims, file, count, ids, names, size, index) =
                    append_vector_fields floats codec law id vector s in
                  let (index_file, done) =
                    finished n t (subst (CodecReads codec) (sym names) reads) in
                  let same_length = (eqb_iff (length vector) s.dimensions).0 fits in
                  let v' = append_vector-IsMapped floats codec law id vector s same_length v in
                  let number = internal_id_from_lem s.count room in
                  rw (fits, free, insert_internal, present)
                    (rw done (
                      ground (arith, free, number),
                      λ j.
                          save_index-view t index_file j
                          ∙ view-append_vector floats codec law id vector s j same_length room v
                          ∙ ground (arith, free),
                      saved-IsMapped t index_file v',
                    ))
            ]
      ]

  -- An insertion is refused and changes nothing, or it takes the next slot and may save the ids.
  pub insert_internal-cases :
      (id : VectorId) (vector : List (Num env)) (allow_update : Bool) (s : MmapStorage)
      → s.count < internal_id_limit
      → CodecReads codec (s.internal_to_id ++ id ∷ [])
      → ((eqb (length vector) s.dimensions ≡ false)
          × (insert_internal env floats codec id vector allow_update s
              ≡ (err (dimension_mismatch s.dimensions (length vector)), s)))
        ⊎ ((eqb (length vector) s.dimensions ≡ true)
            × (((e : Error) × (insert_internal env floats codec id vector allow_update s
                    ≡ (err e, s)))
                ⊎ ((index_file : Option (List Byte)) × (insert_internal env floats codec id vector
                        allow_update s
                      ≡ (
                        ok s.count,
                        record (append_vector env floats codec id vector s) {
                          index_file = index_file;
                        },
                      )))))
  unfolding insert_internal
  insert_internal-cases id vector allow_update s room reads =
      elim (Bool-cases (eqb (length vector) s.dimensions)) [
        | inr wrong ↦ inl (wrong, rw (wrong, insert_internal) refl)
        | inl fits ↦
            elim (Bool-cases (not allow_update && HashMap.contains_key s.id_to_internal id)) [
              | inl dup ↦ inr (fits, inl (duplicate_id id, rw (fits, dup, insert_internal) refl))
              | inr free ↦
                  let n = internal_id_from s.count in
                  let t = append_vector env floats codec id vector s in
                  let (dims, file, count, ids, names, size, index) =
                    append_vector_fields floats codec law id vector s in
                  let (index_file, done) =
                    finished n t (subst (CodecReads codec) (sym names) reads) in
                  let number = internal_id_from_lem s.count room in
                  inr (
                    fits,
                    inr (index_file, rw (fits, free, insert_internal) (done ∙ rw number refl)),
                  )
            ]
      ]
