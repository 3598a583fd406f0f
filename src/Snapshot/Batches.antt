-- ===== src/Snapshot/Batches.antt =====
-- The content of a snapshot file: what `save` writes, `load` reads back.
use zapybase.Prelude.{
  ℕ, zero, suc, ◌-◌, ◌≤◌, ◌≡◌, refl, ap, sym, ◌∙◌, true, Option, some, List, [], ◌∷◌, ◌++◌, arith,
  length, length-append, length-take, length-drop, take, drop, take-append-drop, inl, inr,
  Option-cases,
}
use mathlib.Core.List.{append_assoc, append-nil}
use zapybase.Env.{Env}
use zapybase.Error.{ok, ◌>>=◌}
use zapybase.Wal.Bytes.{Byte, bytes_eq}
use zapybase.Snapshot.{
  SnapshotHeader, Snapshot, StoredVector, Codec, batch_size, write_batches, write_state,
  write_snapshot, read_batches, read_body, check_header, load, header_of, or_storage,
}

-- What a snapshot relies on of bincode: it reads back what it writes, whatever follows, and a
-- batch takes one byte at least (its length comes first).
pub record ReadsBack {env : Env} {State : Type 0} (codec : Codec env State) : Type 0 where
  pub header_round_trip :
      (header : SnapshotHeader) (bytes rest : List Byte)
      → codec.serialize_header header ≡ some bytes
      → codec.deserialize_header (bytes ++ rest) ≡ some (header, rest)
  pub state_round_trip :
      (state : Option State) (bytes rest : List Byte)
      → codec.serialize_state state ≡ some bytes
      → codec.deserialize_state (bytes ++ rest) ≡ some (state, rest)
  pub batch_round_trip :
      (batch : List (StoredVector env State)) (bytes rest : List Byte)
      → codec.serialize_batch batch ≡ some bytes
      → codec.deserialize_batch (bytes ++ rest) ≡ some (batch, rest)
  pub batch_takes :
      (batch : List (StoredVector env State)) (bytes : List Byte)
      → codec.serialize_batch batch ≡ some bytes
      → 1 ≤ length bytes

module _ {env : Env} {State : Type 0} (codec : Codec env State) (codec_ok : ReadsBack codec) where
  write_batches_step :
      (fuel : ℕ) (v : StoredVector env State) (vectors : List (StoredVector env State))
      (written bytes : List Byte)
      → codec.serialize_batch (take batch_size (v ∷ vectors)) ≡ some bytes
      → write_batches codec (suc fuel) (v ∷ vectors) written
        ≡ write_batches codec fuel (drop batch_size (v ∷ vectors)) (written ++ bytes)
  unfolding write_batches
  write_batches_step fuel v vectors written bytes e = rw (e, write_batches) refl

  read_batches_step :
      (fuel : ℕ) (v : StoredVector env State) (vectors before : List (StoredVector env State))
      (bytes rest : List Byte)
      → codec.serialize_batch (take batch_size (v ∷ vectors)) ≡ some bytes
      → read_batches codec (suc fuel) (length (v ∷ vectors)) (bytes ++ rest) before
        ≡ read_batches codec fuel
            (length (drop batch_size (v ∷ vectors)))
            rest
            (before ++ take batch_size (v ∷ vectors))
  unfolding read_batches
  read_batches_step fuel v vectors before bytes rest e =
      let batch = take batch_size (v ∷ vectors) in
      ap
        (λ o. or_storage o >>= λ read.
          read_batches codec fuel (length (v ∷ vectors) - length read.0) read.1 (before ++ read.0))
        (codec_ok.batch_round_trip batch bytes rest e)
      ∙ ap (λ n. read_batches codec fuel n rest (before ++ batch))
          (omega
            (arith, length-take batch_size (v ∷ vectors), length-drop batch_size (v ∷ vectors)))

  enough_fuel :
      (v : StoredVector env State) (vectors before : List (StoredVector env State))
      (bytes rest : List Byte)
      → let batch = take batch_size (v ∷ vectors) in
        let others = drop batch_size (v ∷ vectors) in
        codec.serialize_batch batch ≡ some bytes
        → ((fuel : ℕ)
            → length rest ≤ fuel
            → read_batches codec fuel (length others) rest (before ++ batch)
              ≡ ok ((before ++ batch) ++ others))
        → (fuel : ℕ) → length (bytes ++ rest) ≤ fuel
        → read_batches codec fuel (length (v ∷ vectors)) (bytes ++ rest) before
          ≡ ok (before ++ v ∷ vectors)
  enough_fuel v vectors before bytes rest e reads zero enough =
      let takes = codec_ok.batch_takes (take batch_size (v ∷ vectors)) bytes e in
      absurd (omega (arith, takes, length-append bytes rest))
  enough_fuel v vectors before bytes rest e reads (suc fuel) enough =
      let batch = take batch_size (v ∷ vectors) in
      let takes = codec_ok.batch_takes batch bytes e in
      read_batches_step fuel v vectors before bytes rest e
      ∙ reads fuel (omega (arith, takes, length-append bytes rest))
      ∙ ap ok (append_assoc before batch (drop batch_size (v ∷ vectors)))
      ∙ ap (λ t. ok (before ++ t)) (take-append-drop batch_size (v ∷ vectors))

  -- What is written is `written` and more, from which the loop of `load` gets the vectors.
  pub read_batches-write_batches :
      (fuel : ℕ) (vectors before : List (StoredVector env State)) (written : List Byte)
      → length vectors ≤ fuel
      → (write_batches codec fuel vectors written).0 ≡ true
      → (rest : List Byte) × ((write_batches codec fuel vectors written).1 ≡ written ++ rest)
        × ((fuel' : ℕ)
            → length rest ≤ fuel'
            → read_batches codec fuel' (length vectors) rest before ≡ ok (before ++ vectors))
  unfolding write_batches read_batches
  read_batches-write_batches fuel [] before written h ok' =
      ([], sym (append-nil written), λ fuel' enough. ap ok (sym (append-nil before)))
  read_batches-write_batches zero (v ∷ vectors) before written h ok' = cc
  read_batches-write_batches (suc fuel) (v ∷ vectors) before written h ok' =
      let batch = take batch_size (v ∷ vectors) in
      let others = drop batch_size (v ∷ vectors) in
      elim (Option-cases (codec.serialize_batch batch)) [
        | inl e ↦ ground (arith, e)
        | inr (bytes, e) ↦
            let step = write_batches_step fuel v vectors written bytes e in
            let (rest, same, reads) =
              read_batches-write_batches fuel others (before ++ batch) (written ++ bytes)
                (omega (arith, length-drop batch_size (v ∷ vectors)))
                (ap (λ p. p.0) (sym step) ∙ ok') in
            (
              bytes ++ rest,
              ap (λ p. p.1) step ∙ same ∙ append_assoc written bytes rest,
              enough_fuel v vectors before bytes rest e reads,
            )
      ]

  -- a file that the three parts make up
  load_parts :
      (snapshot : Snapshot env State) (header state rest : List Byte)
      → codec.serialize_header (header_of codec snapshot) ≡ some header
      → codec.serialize_state snapshot.hnsw_state ≡ some state
      → ((fuel : ℕ)
          → length rest ≤ fuel
          → read_batches codec fuel (length snapshot.vectors) rest [] ≡ ok snapshot.vectors)
      → load codec (header ++ (state ++ rest)) ≡ ok snapshot
  unfolding load check_header read_body header_of bytes_eq
  load_parts snapshot header state rest eh es reads =
      ap (λ o. or_storage o >>= check_header codec)
        (codec_ok.header_round_trip (header_of codec snapshot) header (state ++ rest) eh)
      ∙ rw (codec_ok.state_round_trip snapshot.hnsw_state state rest es)
          (rw (reads (length rest) (omega arith)) refl)

  written_parts :
      (snapshot : Snapshot env State) (header state : List Byte)
      → codec.serialize_header (header_of codec snapshot) ≡ some header
      → codec.serialize_state snapshot.hnsw_state ≡ some state
      → write_snapshot codec snapshot
        ≡ write_batches codec (length snapshot.vectors) snapshot.vectors (header ++ state)
  unfolding write_snapshot write_state
  written_parts snapshot header state eh es = rw (eh, write_snapshot) (rw (es, write_state) refl)

  -- A snapshot that was written is loaded again, with its index state and every vector.
  pub load-write_snapshot :
      (snapshot : Snapshot env State)
      → (write_snapshot codec snapshot).0 ≡ true
      → load codec (write_snapshot codec snapshot).1 ≡ ok snapshot
  unfolding write_snapshot write_state
  load-write_snapshot snapshot done =
      elim (Option-cases (codec.serialize_header (header_of codec snapshot))) [
        | inl eh ↦ ground (arith, eh)
        | inr (header, eh) ↦ elim (Option-cases (codec.serialize_state snapshot.hnsw_state)) [
          | inl es ↦ ground (arith, eh, es)
          | inr (state, es) ↦
              let parts = written_parts snapshot header state eh es in
              let (rest, same, reads) =
                read_batches-write_batches (length snapshot.vectors) snapshot.vectors []
                  (header ++ state) (omega arith) (ap (λ p. p.0) (sym parts) ∙ done) in
              ap (load codec) (ap (λ p. p.1) parts ∙ same ∙ append_assoc header state rest)
              ∙ load_parts snapshot header state rest eh es reads
        ]
      ]
