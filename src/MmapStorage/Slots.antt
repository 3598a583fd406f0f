-- ===== src/MmapStorage/Slots.antt =====
-- The slots of a data file of mmap_storage.rs: what is appended is read, and the others stay.
use zapybase.Prelude.{
  ℕ, ◌+◌, ◌*◌, ◌≤◌, ◌≡◌, refl, ap, sym, ◌∙◌, false, some, List, [], ◌∷◌, ◌++◌, arith, length,
  length-append, eqb, ltb,
}
use zapybase.Prelude.Slices.{slice, slice-append, take_all}
use zapybase.Env.{Env, Num}
use zapybase.Wal.Bytes.{Byte}
use zapybase.Storage.{InternalId}
use zapybase.MmapStorage.{
  FloatBytes, IdCodec, MmapStorage, header_size, vector_bytes, read_vector, get,
}

-- the bytes of a float are four, and are read back
pub record ReadsBack {env : Env} (floats : FloatBytes env) : Type 0 where
  pub width : (x : Num env) → length (floats.to_bytes x) ≡ 4
  pub back : (x : Num env) → floats.from_bytes (floats.to_bytes x) ≡ x

module _ {env : Env} (floats : FloatBytes env) (codec : IdCodec) (law : ReadsBack floats) where
  read_float :
      (bytes rest : List Byte)
      → length bytes ≡ 4
      → read_vector env floats codec (bytes ++ rest)
        ≡ floats.from_bytes bytes ∷ read_vector env floats codec rest
  unfolding read_vector
  read_float (a ∷ b ∷ c ∷ d ∷ []) rest h = refl
  read_float [] rest h = absurd (omega arith)
  read_float (a ∷ []) rest h = absurd (omega arith)
  read_float (a ∷ b ∷ []) rest h = absurd (omega arith)
  read_float (a ∷ b ∷ c ∷ []) rest h = absurd (omega arith)
  read_float (a ∷ b ∷ c ∷ d ∷ e ∷ bytes) rest h = absurd (omega arith)

  pub read_vector-vector_bytes :
      (xs : List (Num env)) → read_vector env floats codec (vector_bytes env floats codec xs) ≡ xs
  unfolding vector_bytes read_vector
  read_vector-vector_bytes [] = refl
  read_vector-vector_bytes (x ∷ xs) = rw (
    read_float (floats.to_bytes x) (vector_bytes env floats codec xs) (law.width x),
    law.back x,
    read_vector-vector_bytes xs,
  )

  pub length-vector_bytes :
      (xs : List (Num env)) → length (vector_bytes env floats codec xs) ≡ length xs * 4
  unfolding vector_bytes
  length-vector_bytes [] = refl
  length-vector_bytes (x ∷ xs) = omega (
    arith,
    length-append (floats.to_bytes x) (vector_bytes env floats codec xs),
    law.width x,
    length-vector_bytes xs,
  )

module _ {env : Env} (floats : FloatBytes env) (codec : IdCodec) where
  -- where a slot begins
  abbrev pub offset : MmapStorage → InternalId → ℕ
  offset s i = header_size + i * (s.dimensions * 4)

  -- A slot inside a mapped file is read as its bytes say.
  pub get_slot :
      (s : MmapStorage) (i : InternalId)
      → s.mmap ≡ some (length s.data_file)
      → offset s i + s.dimensions * 4 ≤ length s.data_file
      → get env floats codec s i
        ≡ some (read_vector env floats codec (slice s.data_file (offset s i) (s.dimensions * 4)))
  unfolding get
  get_slot s i mapped fits =
      let whole = take_all s.data_file (length s.data_file) (omega arith) in
      let long : eqb (length s.data_file) 0 ≡ false = ground (arith, fits) in
      let inside : ltb (length s.data_file) (offset s i + s.dimensions * 4) ≡ false =
        ground (arith, fits) in
      rw (mapped, get) (rw whole (rw (long, inside) refl))

  -- Bytes that are appended leave the slots before them alone.
  pub get_append :
      (s t : MmapStorage) (i : InternalId) (bytes : List Byte)
      → s.mmap ≡ some (length s.data_file)
      → t.mmap ≡ some (length t.data_file)
      → t.dimensions ≡ s.dimensions
      → t.data_file ≡ s.data_file ++ bytes
      → offset s i + s.dimensions * 4 ≤ length s.data_file
      → get env floats codec t i ≡ get env floats codec s i
  get_append s t i bytes mapped mapped' dims file fits =
      let size = s.dimensions * 4 in
      let long = ap length file in
      let count = length-append s.data_file bytes in
      get_slot t i mapped' (rw dims (omega (arith, fits, long, count)))
      ∙ rw dims (
          ap (λ b. some (read_vector env floats codec b))
            (rw file (slice-append s.data_file bytes (offset s i) size fits)))
      ∙ sym (get_slot s i mapped fits)
