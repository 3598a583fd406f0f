-- ===== src/MmapStorage/Misread.antt =====
-- What becomes of an insertion into mmap_storage.rs when the process stops before the ids are saved.
use zapybase.Prelude.{
  ◌+◌, ◌*◌, ◌%◌, ◌≤◌, ◌<◌, ◌≡◌, refl, ap, sym, ◌∙◌, false, some, List, arith, length, length-append,
  eqb, eqb_iff,
}
use zapybase.Prelude.Eq.{string_eq}
use zapybase.Prelude.Slices.{slice-append, slice-append_new}
use zapybase.Collections.HashMap
use zapybase.Error.{ok}
use zapybase.Env.{Env, Num}
use zapybase.Storage.{VectorId, InternalId, internal_id_limit, internal_id_from}
use zapybase.Storage.Preserve.{internal_id_from_lem}
use zapybase.MmapStorage.{
  FloatBytes, IdCodec, MmapStorage, header_size, vector_bytes, read_vector, map_file, load_index,
  open_storage, append_vector, insert_internal, insert, get,
}
use zapybase.MmapStorage.Slots.{
  ReadsBack, read_vector-vector_bytes, length-vector_bytes, offset, get_slot,
}
use zapybase.MmapStorage.Valid.{IsMapped, view, append_vector_mmap, append_vector_fields}
use zapybase.MmapStorage.Refines.{view_known, append_vector-IsMapped}
use zapybase.MmapStorage.Reopened.{open_storage-IsMapped}

module _ {env : Env} (floats : FloatBytes env) (codec : IdCodec) (law : ReadsBack floats) where
  -- a new id, at an internal id after which the ids are not saved
  insert-append_vector :
      (id : VectorId) (vector : List (Num env)) (s : MmapStorage) (n : InternalId)
      → length vector ≡ s.dimensions
      → HashMap.contains_key s.id_to_internal id ≡ false
      → s.count ≡ n
      → n < internal_id_limit
      → eqb (n % 100) 0 ≡ false
      → insert env floats codec id vector s ≡ (ok n, append_vector env floats codec id vector s)
  unfolding insert insert_internal
  insert-append_vector id vector s n fits free at room unsaved =
      let fits' = (eqb_iff (length vector) s.dimensions).1 fits in
      let number : internal_id_from s.count ≡ n =
        ap internal_id_from at ∙ internal_id_from_lem n room in
      rw (fits', free, insert) (rw number (rw unsaved refl))

  module _ (a b : VectorId) (first second : List (Num env)) (s : MmapStorage)
      (v : IsMapped floats codec s) (fits : length first ≡ s.dimensions)
      (fits_too : length second ≡ s.dimensions) where
    abbrev one : MmapStorage
    one = append_vector env floats codec a first s

    -- what is opened from the longer data file and the ids that were saved before
    abbrev stale : MmapStorage
    stale = record one {
      index_file = s.index_file;
      mmap = map_file env floats codec (length one.data_file);
      count = length s.internal_to_id;
      id_to_internal = s.id_to_internal;
      internal_to_id = s.internal_to_id;
      file_size = length one.data_file;
    }

    abbrev two : MmapStorage
    two = append_vector env floats codec b second stale

    two_reads : s.count < internal_id_limit → get env floats codec two s.count ≡ some first
    two_reads room =
        let (dims, file, count, ids, names, size, index) =
          append_vector_fields floats codec law a first s in
        let (dims', file', count', ids', names', size', index') =
          append_vector_fields floats codec law b second stale in
        let bytes = vector_bytes env floats codec first in
        let more = vector_bytes env floats codec second in
        let width = length-vector_bytes floats codec law first in
        let sized = v.sized in
        let positive = v.positive in
        let total = length-append s.data_file bytes in
        let long = ap length file in
        let at = header_size + s.count * (s.dimensions * 4) in
        let mapped =
          append_vector_mmap floats codec law b second stale (omega (arith, long, total, sized))
            refl (omega (arith, fits_too, positive)) in
        let total' = length-append one.data_file more in
        let long' = ap length file' in
        let same = dims' ∙ dims in
        let fits_in : offset floats codec two s.count + two.dimensions * 4 ≤ length two.data_file =
          rw same (omega (arith, long', total', long, total, width, fits, sized)) in
        get_slot floats codec two s.count mapped fits_in
        ∙ rw (same, file')
            (ap (λ t. some (read_vector env floats codec t))
              (slice-append one.data_file more at (s.dimensions * 4)
                  (omega (arith, long, total, width, fits, sized))
                ∙ rw file (
                    slice-append_new s.data_file bytes at (s.dimensions * 4) (omega (arith, sized))
                      (omega (arith, width, fits)))))
        ∙ ap some (read_vector-vector_bytes floats codec law first)

    -- A valid storage whose ids are saved takes a new id, after which the code does not save the ids,
    -- and the process stops. The files are then opened without an error, the next new id is inserted
    -- without an error, and it reads as the vector of the first one instead of its own.
    pub insert_misreads :
        load_index env floats codec s.index_file ≡ ok (s.id_to_internal, s.internal_to_id)
        → HashMap.contains_key s.id_to_internal a ≡ false
        → HashMap.contains_key s.id_to_internal b ≡ false
        → s.count < internal_id_limit
        → eqb (s.count % 100) 0 ≡ false
        → let stopped = (insert env floats codec a first s).1 in
          (opened : MmapStorage) × (open_storage env floats codec s.dimensions
              (some stopped.data_file)
              stopped.index_file
            ≡ ok opened)
          × ((insert env floats codec b second opened).0 ≡ ok s.count)
          × (view floats codec (insert env floats codec b second opened).1 b ≡ some first)
    insert_misreads saved a_new b_new room unsaved =
        let (dims, file, count, ids, names, size, index) =
          append_vector_fields floats codec law a first s in
        let (dims', file', count', ids', names', size', index') =
          append_vector_fields floats codec law b second stale in
        let counted = v.counted in
        let stopped = insert-append_vector a first s s.count fits a_new refl room unsaved in
        let taken =
          insert-append_vector b second stale s.count (fits_too ∙ sym dims) b_new (sym counted) room
            unsaved in
        let opened =
          open_storage-IsMapped floats codec one s.index_file s.id_to_internal s.internal_to_id
            (append_vector-IsMapped floats codec law a first s fits v) saved in
        let placed : HashMap.get two.id_to_internal b ≡ some s.count =
          ap (λ m. HashMap.get m b) ids'
          ∙ HashMap.get-insert_self s.id_to_internal b (internal_id_from (length s.internal_to_id))
          ∙ ap some (ap internal_id_from (sym counted) ∙ internal_id_from_lem s.count room) in
        (
          stale,
          rw stopped (
              ap (λ d. open_storage env floats codec d (some one.data_file) one.index_file)
                (sym dims)
              ∙ ap (open_storage env floats codec one.dimensions (some one.data_file)) index
              ∙ opened),
          ap (λ r. r.0) taken,
          ap (λ r. view floats codec r.1 b) taken
              ∙ view_known floats codec law two b s.count placed
              ∙ two_reads room,
        )
