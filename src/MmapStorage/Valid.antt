-- ===== src/MmapStorage/Valid.antt =====
-- What the operations of mmap_storage.rs keep true, and what a client reads.
use zapybase.Prelude.{
  ℕ, ◌+◌, ◌*◌, ◌^◌, ◌≤◌, ◌<◌, ◌≡◌, ap, subst, ◌⊎◌, true, Option, none, some, List, [], ◌∷◌, ◌++◌,
  arith, length, length-append, take, ltb, lt→ltb, inl,
}
use zapybase.Prelude.Eq.{string_eq}
use zapybase.Collections.HashMap
use zapybase.Collections.HashMap.{HashMap, is_some}
use zapybase.Env.{Env, Num}
use zapybase.Storage.{VectorId, InternalId, internal_id_limit, internal_id_from}
use zapybase.Storage.Preserve.{internal_id_from_lem}
use zapybase.MmapStorage.{
  FloatBytes, IdCodec, MmapStorage, header_size, header, number_ids, vector_bytes, map_file,
  append_vector, remap, get, get_internal_id,
}
use zapybase.MmapStorage.Slots.{ReadsBack, length-vector_bytes}

-- Numbering goes on behind a list.
pub number_ids-append :
    (i n : ℕ) (ids : List VectorId) (id : VectorId) (m : HashMap VectorId InternalId)
    → n ≡ i + length ids
    → number_ids i (ids ++ id ∷ []) m ≡ HashMap.insert (number_ids i ids m) id (internal_id_from n)
unfolding number_ids
number_ids-append i n [] id m e =
    let same : i ≡ n = omega (arith, e) in ap (λ k. HashMap.insert m id (internal_id_from k)) same
number_ids-append i n (x ∷ ids) id m e =
    number_ids-append (i + 1) n ids id (HashMap.insert m x (internal_id_from i)) (omega (arith, e))

-- A number that is not from the map before is one of those given out.
number_ids-lt :
    (i : ℕ) (ids : List VectorId) (m : HashMap VectorId InternalId) (j : VectorId) (k : InternalId)
    → i + length ids ≤ internal_id_limit
    → HashMap.get (number_ids i ids m) j ≡ some k
    → (HashMap.get m j ≡ some k) ⊎ (k < i + length ids)
unfolding number_ids
number_ids-lt i [] m j k room h = inl h
number_ids-lt i (x ∷ ids) m j k room h =
    let put = HashMap.get-insert m x (internal_id_from i) j in
    let number = internal_id_from_lem i (omega arith) in
    ground
      (arith, number_ids-lt (i + 1) ids (HashMap.insert m x (internal_id_from i)) j k, put, number)

module _ {env : Env} (floats : FloatBytes env) (codec : IdCodec) where
  pub record IsMapped (s : MmapStorage) : Type 0 where
    pub positive : 0 < s.dimensions
    pub small : s.dimensions < 2 ^ 32
    -- the file has the header and one vector for each id
    pub head : take header_size s.data_file ≡ header env floats codec s.dimensions
    pub sized : length s.data_file ≡ header_size + s.count * (s.dimensions * 4)
    pub counted : s.count ≡ length s.internal_to_id
    pub measured : s.file_size ≡ length s.data_file
    pub mapped : s.mmap ≡ map_file env floats codec s.file_size
    -- the map of the ids is what their numbering gives
    pub numbered : s.id_to_internal ≡ number_ids 0 s.internal_to_id HashMap.new

  -- the vector that a client reads at an id
  unfoldable pub view : MmapStorage → VectorId → Option (List (Num env))
  view s id = elim (get_internal_id env floats codec s id) [
    | none ↦ none
    | some i ↦ get env floats codec s i
  ]

  -- an id in the map has a slot
  pub slot_of :
      (s : MmapStorage) (j : VectorId) (k : InternalId)
      → IsMapped s
      → s.count ≤ internal_id_limit
      → HashMap.get s.id_to_internal j ≡ some k
      → k < s.count
  slot_of s j k v room h =
      let counted = v.counted in
      let from_new = HashMap.get-new {V = InternalId} j in
      let at : HashMap.get (number_ids 0 s.internal_to_id HashMap.new) j ≡ some k =
        subst (λ m. HashMap.get m j ≡ some k) v.numbered h in
      ground (
        arith,
        number_ids-lt 0 s.internal_to_id HashMap.new j k (omega (arith, room, counted)) at,
        from_new,
        counted,
      )

module _ {env : Env} (floats : FloatBytes env) (codec : IdCodec) (law : ReadsBack floats) where
  -- The map of the file that `append_vector` leaves shows the whole file.
  pub append_vector_mmap :
      (id : VectorId) (vector : List (Num env)) (s : MmapStorage)
      → header_size ≤ length s.data_file
      → s.file_size ≡ length s.data_file
      → 0 < length vector
      → (append_vector env floats codec id vector s).mmap
        ≡ some (length (append_vector env floats codec id vector s).data_file)
  unfolding append_vector remap
  append_vector_mmap id vector s long size some_float =
      let bytes = vector_bytes env floats codec vector in
      let count = length-vector_bytes floats codec law vector in
      let total = length-append s.data_file bytes in
      let grown : ltb header_size (s.file_size + length bytes) ≡ true =
        lt→ltb header_size (s.file_size + length bytes) (omega (arith, count, long, size)) in
      rw grown (ap some (omega (arith, total, size)))

  pub append_vector_fields :
      (id : VectorId) (vector : List (Num env)) (s : MmapStorage)
      → let t = append_vector env floats codec id vector s in
        (t.dimensions ≡ s.dimensions)
        × (t.data_file ≡ s.data_file ++ vector_bytes env floats codec vector)
        × (t.count ≡ s.count + 1)
        × (t.id_to_internal ≡ HashMap.insert s.id_to_internal id (internal_id_from s.count))
        × (t.internal_to_id ≡ s.internal_to_id ++ id ∷ [])
        × (t.file_size ≡ s.file_size + length (vector_bytes env floats codec vector))
        × (t.index_file ≡ s.index_file)
  unfolding append_vector remap
  append_vector_fields id vector s = ground arith
