-- ===== src/Wal/Frames.antt =====
-- The records of wal.rs as they lie in the file, and the loops that read them back.
use zapybase.Prelude.{
  ℕ, zero, suc, ◌+◌, ◌%◌, ◌^◌, ◌≤◌, ◌<◌, ◌≡◌, refl, sym, ◌∙◌, true, none, some, List, [], ◌∷◌, ◌++◌,
  arith, length, length-append, ◌-◌, length-take, take, ltb→lt, ltb→le, ltb, if◌then◌else◌,
  Bool-cases, inl, inr,
}
use mathlib.Core.List.{append_assoc, append-nil}
use zapybase.Prelude.Slices.{take-append_past}
use zapybase.Env.{Env}
use zapybase.Wal.{
  WalEntry, WalRecord, Codec, frame, read_frame, verify, last_seq_loop, read_all_loop,
  read_after_loop,
}
use zapybase.Wal.Bytes.{
  Byte, to_le_bytes, read_exact-append, read_exact_short, length-to_le_bytes,
  from_le_bytes-to_le_bytes,
}

pub read_frame-frame :
    (bytes rest : List Byte)
    → length bytes < 2 ^ 32
    → read_frame (frame bytes ++ rest) ≡ some (bytes, rest)
unfolding read_frame frame
read_frame-frame bytes rest h =
    let len = to_le_bytes (length bytes % 2 ^ 32) in
    let small : length bytes % 2 ^ 32 ≡ length bytes = omega arith in
    rw (append_assoc len bytes rest) (
      rw
        (
          read_exact-append 4 len (bytes ++ rest)
              (sym (length-to_le_bytes (length bytes % 2 ^ 32))),
          read_frame,
        )
        (rw (from_le_bytes-to_le_bytes (length bytes % 2 ^ 32) (omega arith))
          (read_exact-append (length bytes % 2 ^ 32) bytes rest small)))

pub length-frame : (bytes : List Byte) → length (frame bytes) ≡ 4 + length bytes
unfolding frame
length-frame bytes = omega (
  arith,
  length-append (to_le_bytes (length bytes % 2 ^ 32)) bytes,
  length-to_le_bytes (length bytes % 2 ^ 32),
)

-- A frame that was cut short is not read.
pub read_frame_torn :
    (bytes : List Byte) (k : ℕ)
    → length bytes < 2 ^ 32
    → k < 4 + length bytes
    → read_frame (take k (frame bytes)) ≡ none
unfolding read_frame frame
read_frame_torn bytes k h short =
    let len = to_le_bytes (length bytes % 2 ^ 32) in
    let four = length-to_le_bytes (length bytes % 2 ^ 32) in
    elim (Bool-cases (ltb k 4)) [
      | inl early ↦ rw (
        read_exact_short 4 (take k (len ++ bytes))
            (omega (arith, length-take k (len ++ bytes), ltb→lt k 4 early)),
        read_frame,
      )
      | inr late ↦
          let rest = k - 4 in
          let at : k ≡ length len + rest = omega (arith, ltb→le k 4 late, four) in
          rw at (
            rw (take-append_past len bytes rest) (
              rw (read_exact-append 4 len (take rest bytes) (sym four), read_frame)
                (rw (from_le_bytes-to_le_bytes (length bytes % 2 ^ 32) (omega arith)) (
                  read_exact_short (length bytes % 2 ^ 32) (take rest bytes)
                    (omega (arith, length-take rest bytes, ltb→le k 4 late))))))
    ]

module _ {env : Env} (codec : Codec env) where
  open codec use {deserialize_record}

  -- a record with the bytes that it was written as
  abbrev pub Logged : Type 0
  Logged = WalRecord env × List Byte

  -- The bytes decode to the record, which verifies, and fit a length word.
  abbrev pub AllReadable : List Logged → Type 0
  AllReadable [] = Unit
  AllReadable ((r, bytes) ∷ log) =
      (deserialize_record bytes ≡ some r)
      × (verify codec r ≡ true)
      × (length bytes < 2 ^ 32)
      × AllReadable log

  abbrev pub frames : List Logged → List Byte
  frames [] = []
  frames ((r, bytes) ∷ log) = frame bytes ++ frames log

  abbrev pub entries : List Logged → List (WalEntry env)
  entries [] = []
  entries ((r, bytes) ∷ log) = r.entry ∷ entries log

  -- the entries that were logged after a sequence number
  abbrev pub entries_after : ℕ → List Logged → List (WalEntry env)
  entries_after n [] = []
  entries_after n ((r, bytes) ∷ log) =
      let rest = entries_after n log in if ltb n r.seq then r.entry ∷ rest else rest

  abbrev pub last_seq : ℕ → List Logged → ℕ
  last_seq n [] = n
  last_seq n ((r, bytes) ∷ log) = last_seq r.seq log

  pub length-le-frames : (log : List Logged) → length log ≤ length (frames log)
  length-le-frames [] = omega arith
  length-le-frames ((r, bytes) ∷ log) =
      omega
        (arith, length-append (frame bytes) (frames log), length-frame bytes, length-le-frames log)

  module _ (tail : List Byte) (ends : read_frame tail ≡ none) where
    pub read_all_loop-frames :
        (log : List Logged) (fuel : ℕ) (acc : List (WalEntry env))
        → AllReadable log
        → length log ≤ fuel
        → read_all_loop codec fuel (frames log ++ tail) acc ≡ acc ++ entries log
    unfolding read_all_loop
    read_all_loop-frames [] zero acc a h = sym (append-nil acc)
    read_all_loop-frames [] (suc fuel) acc a h = rw (ends, read_all_loop) (sym (append-nil acc))
    read_all_loop-frames ((r, bytes) ∷ log) zero acc a h = absurd (omega arith)
    read_all_loop-frames ((r, bytes) ∷ log) (suc fuel) acc (d, v, b, a) h =
        rw (append_assoc (frame bytes) (frames log) tail) (
          rw (read_frame-frame bytes (frames log ++ tail) b, d, v, read_all_loop)
            (read_all_loop-frames log fuel (acc ++ r.entry ∷ []) a (omega arith)
              ∙ append_assoc acc (r.entry ∷ []) (entries log)))

    pub read_after_loop-frames :
        (log : List Logged) (fuel n : ℕ) (acc : List (WalEntry env))
        → AllReadable log
        → length log ≤ fuel
        → read_after_loop codec fuel (frames log ++ tail) n acc ≡ acc ++ entries_after n log
    unfolding read_after_loop
    read_after_loop-frames [] zero n acc a h = sym (append-nil acc)
    read_after_loop-frames [] (suc fuel) n acc a h =
        rw (ends, read_after_loop) (sym (append-nil acc))
    read_after_loop-frames ((r, bytes) ∷ log) zero n acc a h = absurd (omega arith)
    read_after_loop-frames ((r, bytes) ∷ log) (suc fuel) n acc (d, v, b, a) h =
        rw (append_assoc (frame bytes) (frames log) tail) (
          rw (read_frame-frame bytes (frames log ++ tail) b, d, v, read_after_loop)
            (elim (Bool-cases (ltb n r.seq)) [
              | inl newer ↦ rw newer (
                  read_after_loop-frames log fuel n (acc ++ r.entry ∷ []) a (omega arith)
                  ∙ append_assoc acc (r.entry ∷ []) (entries_after n log))
              | inr older ↦ rw older (read_after_loop-frames log fuel n acc a (omega arith))
            ]))

    pub last_seq_loop-frames :
        (log : List Logged) (fuel n : ℕ)
        → AllReadable log
        → length log ≤ fuel
        → last_seq_loop codec fuel (frames log ++ tail) n ≡ last_seq n log
    unfolding last_seq_loop
    last_seq_loop-frames [] zero n a h = refl
    last_seq_loop-frames [] (suc fuel) n a h = rw (ends, last_seq_loop)
    last_seq_loop-frames ((r, bytes) ∷ log) zero n a h = absurd (omega arith)
    last_seq_loop-frames ((r, bytes) ∷ log) (suc fuel) n (d, v, b, a) h =
        rw (append_assoc (frame bytes) (frames log) tail) (
          rw (read_frame-frame bytes (frames log ++ tail) b, d, v, last_seq_loop)
            (last_seq_loop-frames log fuel r.seq a (omega arith)))
