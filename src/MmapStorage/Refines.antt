-- ===== src/MmapStorage/Refines.antt =====
-- The insertions of mmap_storage.rs against a map from ids to vectors.
use zapybase.Prelude.{
  ℕ, ◌+◌, ◌*◌, ◌≤◌, ◌<◌, ◌≡◌, refl, ap, sym, ◌∙◌, true, none, some, List, [], ◌∷◌, arith, length,
  length-append, ltb, lt→ltb, ltb→lt, if◌then◌else◌, Bool-cases, Option-cases, inl, inr,
}
use zapybase.Prelude.Eq.{◌==◌, string_eq}
use zapybase.Prelude.Slices.{slice-append_new, take-append}
use zapybase.Collections.HashMap
use zapybase.Collections.HashMap.{HashMap, is_some}
use zapybase.Env.{Env, Num}
use zapybase.Storage.{VectorId, InternalId, internal_id_limit, internal_id_from}
use zapybase.Storage.Preserve.{internal_id_from_lem}
use zapybase.MmapStorage.{
  FloatBytes, IdCodec, MmapStorage, header_size, number_ids, vector_bytes, read_vector, map_file,
  append_vector, get, get_internal_id,
}
use zapybase.MmapStorage.Slots.{
  ReadsBack, read_vector-vector_bytes, length-vector_bytes, offset, get_slot, get_append,
}
use zapybase.MmapStorage.Valid.{
  IsMapped, view, slot_of, append_vector_mmap, append_vector_fields, number_ids-append,
}

module _ {env : Env} (floats : FloatBytes env) (codec : IdCodec) (law : ReadsBack floats) where
  abbrev appended : VectorId → List (Num env) → MmapStorage → MmapStorage
  appended id vector s = append_vector env floats codec id vector s

  pub map_file_whole : (n : ℕ) → header_size < n → map_file env floats codec n ≡ some n
  unfolding map_file
  map_file_whole n h = rw (lt→ltb header_size n h) refl

  pub view_known :
      (s : MmapStorage) (j : VectorId) (k : InternalId)
      → HashMap.get s.id_to_internal j ≡ some k
      → view floats codec s j ≡ get env floats codec s k
  unfolding view get_internal_id
  view_known s j k h = rw (h, view) refl

  pub view_absent :
      (s : MmapStorage) (j : VectorId)
      → HashMap.get s.id_to_internal j ≡ none
      → view floats codec s j ≡ none
  unfolding view get_internal_id
  view_absent s j h = rw (h, view) refl

  pub mapped_length :
      (s : MmapStorage) (i : InternalId)
      → IsMapped floats codec s
      → i < s.count
      → s.mmap ≡ some (length s.data_file)
  mapped_length s i v h =
      let size = v.sized in
      let measured = v.measured in
      let positive = v.positive in
      let one_slot : s.dimensions * 4 ≤ s.count * (s.dimensions * 4) = grind arith in
      let grown : ltb header_size s.file_size ≡ true =
        lt→ltb header_size s.file_size (omega (arith, size, measured, positive, one_slot)) in
      v.mapped
      ∙ map_file_whole s.file_size (ltb→lt header_size s.file_size grown)
      ∙ ap some measured

  pub slot_fits :
      (s : MmapStorage) (i : InternalId)
      → IsMapped floats codec s
      → i < s.count
      → offset floats codec s i + s.dimensions * 4 ≤ length s.data_file
  slot_fits s i v h =
      let size = v.sized in
      let below : i * (s.dimensions * 4) + s.dimensions * 4 ≤ s.count * (s.dimensions * 4) =
        grind arith in
      omega (arith, size, below)

  pub append_vector-IsMapped :
      (id : VectorId) (vector : List (Num env)) (s : MmapStorage)
      → length vector ≡ s.dimensions
      → IsMapped floats codec s
      → IsMapped floats codec (appended id vector s)
  append_vector-IsMapped id vector s fits v =
      let (dims, file, count, ids, names, size, index) =
        append_vector_fields floats codec law id vector s in
      let bytes = vector_bytes env floats codec vector in
      let long = length-vector_bytes floats codec law vector in
      let total = length-append s.data_file bytes in
      let sized = v.sized in
      let measured = v.measured in
      let counted = v.counted in
      let positive = v.positive in
      let header_there : header_size ≤ length s.data_file = omega (arith, sized) in
      let next : (s.count + 1) * (s.dimensions * 4) ≡ s.count * (s.dimensions * 4) + length bytes =
        grind arith in
      let len = ap length file in
      record {
        positive = rw dims v.positive;
        small = rw dims v.small;
        head = rw (dims, file) (take-append s.data_file bytes header_size header_there ∙ v.head);
        sized = rw (dims, count) (omega (arith, len, total, sized, next));
        counted =
            count
            ∙ (omega (arith, ap length names, length-append s.internal_to_id (id ∷ []), counted));
        measured = omega (arith, size, len, total, measured);
        mapped =
            append_vector_mmap floats codec law id vector s header_there measured
              (omega (arith, fits, positive))
            ∙ sym (
                map_file_whole (appended id vector s).file_size
                  (omega (arith, size, measured, sized, long, fits, positive))
                ∙ ap some (size ∙ omega (arith, measured, len, total)));
        numbered =
            ids
            ∙ ap (λ m. HashMap.insert m id (internal_id_from s.count)) v.numbered
            ∙ sym (
                number_ids-append 0 s.count s.internal_to_id id HashMap.new
                  (omega (arith, counted)))
            ∙ ap (λ l. number_ids 0 l HashMap.new) (sym names);
      }

  -- The new id reads as the vector, and every other id reads as before.
  pub view-append_vector :
      (id : VectorId) (vector : List (Num env)) (s : MmapStorage) (j : VectorId)
      → length vector ≡ s.dimensions
      → s.count < internal_id_limit
      → IsMapped floats codec s
      → view floats codec (appended id vector s) j
        ≡ (if id == j then some vector else view floats codec s j)
  view-append_vector id vector s j fits room v =
      let t = appended id vector s in
      let t_valid = append_vector-IsMapped id vector s fits v in
      let (dims, file, count, ids, names, size, index) =
        append_vector_fields floats codec law id vector s in
      let bytes = vector_bytes env floats codec vector in
      let long = length-vector_bytes floats codec law vector in
      let sized = v.sized in
      let free = internal_id_from_lem s.count room in
      let looked : HashMap.get t.id_to_internal j
          ≡ (if id == j then some (internal_id_from s.count) else HashMap.get s.id_to_internal j) =
        ap (λ m. HashMap.get m j) ids
        ∙ HashMap.get-insert s.id_to_internal id (internal_id_from s.count) j in
      let mapped' = mapped_length t s.count t_valid (omega (arith, count)) in
      elim (Bool-cases (id == j)) [
        | inl same ↦
            let here : get env floats codec t s.count ≡ some vector =
              get_slot floats codec t s.count mapped'
                (slot_fits t s.count t_valid (omega (arith, count)))
              ∙ rw (dims, file)
                  (ap (λ b. some (read_vector env floats codec b))
                    (slice-append_new s.data_file bytes (header_size + s.count * (s.dimensions * 4))
                      (s.dimensions * 4) (omega (arith, sized)) (omega (arith, long, fits))))
              ∙ ap some (read_vector-vector_bytes floats codec law vector) in
            let at = looked ∙ rw same (ap some free) in
            rw (view_known t j s.count at, here, same) refl
        | inr other ↦ elim (Option-cases (HashMap.get s.id_to_internal j)) [
          | inl absent ↦
              rw (view_absent t j (looked ∙ rw other absent), view_absent s j absent, other) refl
          | inr (k, known) ↦
              let inside = slot_of floats codec s j k v (omega (arith, room)) known in
              let kept : get env floats codec t k ≡ get env floats codec s k =
                get_append floats codec s t k bytes (mapped_length s k v inside) mapped' dims file
                  (slot_fits s k v inside) in
              rw (view_known t j k (looked ∙ rw other known), view_known s j k known, other) kept
        ]
      ]
