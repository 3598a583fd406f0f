-- ===== src/Wal/Lost.antt =====
-- Where the log of wal.rs loses entries whose `append` succeeded.
use zapybase.Prelude.{
  ℕ, ◌+◌, ◌%◌, ◌^◌, ◌≤◌, ◌<◌, ◌≡◌, refl, sym, ap, ◌∙◌, none, some, List, [], ◌∷◌, ◌++◌, arith,
  length, length-append, length-take, take,
}
use mathlib.Core.List.{append_assoc}
use zapybase.Prelude.Slices.{take-append_past}
use zapybase.Env.{Env}
use zapybase.Error.{ok}
use zapybase.Wal.{
  WalEntry, WalRecord, Codec, Wal, frame, header, read_frame, new_record, read_all, read_after,
  open_wal, append, clear,
}
use zapybase.Wal.Bytes.{
  Byte, to_le_bytes, length-to_le_bytes, from_le_bytes-to_le_bytes, read_exact-append,
  read_exact_short,
}
use zapybase.Wal.Frames.{
  Logged, AllReadable, frames, entries, entries_after, length-le-frames, length-frame,
  read_all_loop-frames,
}
use zapybase.Wal.Log.{ReadsBack, append_result, read_all-stored}
use zapybase.Wal.Append.{IsLog-reads, append_reads, clear-IsLog, open_wal-IsLog}

-- A length word that promises more than what follows is no frame.
read_frame_unfinished :
    (n : ℕ) (rest : List Byte)
    → n < 2 ^ 32
    → length rest < n
    → read_frame (to_le_bytes n ++ rest) ≡ none
unfolding read_frame
read_frame_unfinished n rest small short =
    rw (read_exact-append 4 (to_le_bytes n) rest (sym (length-to_le_bytes n)), read_frame)
      (rw (from_le_bytes-to_le_bytes n small) (read_exact_short n rest short))

unfinished :
    (rest : ℕ) (bytes bytes' : List Byte)
    → length bytes < 2 ^ 32
    → rest + (4 + length bytes') < length bytes
    → read_frame (take (4 + rest) (frame bytes) ++ frame bytes') ≡ none
unfolding frame
unfinished rest bytes bytes' small short =
    let len = to_le_bytes (length bytes % 2 ^ 32) in
    let cut : take (4 + rest) (len ++ bytes) ≡ len ++ take rest bytes =
      ap (λ n. take (n + rest) (len ++ bytes)) (sym (length-to_le_bytes (length bytes % 2 ^ 32)))
      ∙ take-append_past len bytes rest in
    ap (λ t. read_frame (t ++ frame bytes')) cut
    ∙ ap read_frame (append_assoc len (take rest bytes) (frame bytes'))
    ∙ read_frame_unfinished (length bytes % 2 ^ 32) (take rest bytes ++ frame bytes') (omega arith)
        (omega (
          arith,
          length-append (take rest bytes) (frame bytes'),
          length-frame bytes',
          length-take rest bytes,
        ))

module _ {env : Env} (codec : Codec env) where
  -- A log that is reopened behind a torn record of which the length word was written: `open` does
  -- not cut the torn bytes off, so what is appended becomes a part of that record. While the
  -- record stays unfinished, an append succeeds and is not read back.
  pub append_after_torn_lost :
      (log : List (Logged codec)) (bytes bytes' : List Byte) (rest : ℕ) (entry : WalEntry env)
      → AllReadable codec log
      → length bytes < 2 ^ 32
      → rest + (4 + length bytes') < length bytes
      → let w =
          open_wal codec (some (header ++ (frames codec log ++ take (4 + rest) (frame bytes)))) in
        codec.serialize_record (new_record codec ((w.seq + 1) % 2 ^ 64) entry) ≡ some bytes'
        → ((append codec entry w).0 ≡ ok ((w.seq + 1) % 2 ^ 64))
          × (read_all codec (append codec entry w).1 ≡ ok (entries codec log))
  append_after_torn_lost log bytes bytes' rest entry readable small short h =
      let torn = frames codec log ++ take (4 + rest) (frame bytes) in
      let w = open_wal codec (some (header ++ torn)) in
      let tail = take (4 + rest) (frame bytes) ++ frame bytes' in
      let (done, stored) =
        append_result codec entry w (header ++ torn) bytes' (unfold open_wal in refl)
          (unfold open_wal in refl) h in
      let shape : torn ++ frame bytes' ≡ frames codec log ++ tail =
        append_assoc (frames codec log) (take (4 + rest) (frame bytes)) (frame bytes') in
      let enough : length log ≤ length (frames codec log ++ tail) =
        omega (arith, length-append (frames codec log) tail, length-le-frames codec log) in
      (
        done,
        read_all-stored codec (append codec entry w).1 (frames codec log ++ tail)
              (stored ∙ ap some (ap (λ t. header ++ t) shape))
            ∙ ap ok (
                read_all_loop-frames codec tail (unfinished rest bytes bytes' small short) log
                  (length (frames codec log ++ tail)) [] readable enough),
      )

  old_entry :
      (r : WalRecord env) (bytes : List Byte) (n : ℕ)
      → r.seq ≤ n
      → entries_after codec n ((r, bytes) ∷ []) ≡ []
  old_entry r bytes n h = ground arith

  -- A crash between `clear` and the append of the checkpoint marker: the process that opens the
  -- file starts again at number 0, so its first entry is not newer than the snapshot of sequence
  -- number `w.seq`, and recovery from that snapshot passes it over.
  pub append_after_clear_lost :
      (w : Wal env) (entry : WalEntry env) (bytes : List Byte)
      → ReadsBack codec
      → 0 < w.seq
      → codec.serialize_record (new_record codec 1 entry) ≡ some bytes
      → length bytes < 2 ^ 32
      → let reopened = open_wal codec (clear codec w).current in
        ((append codec entry reopened).0 ≡ ok 1)
        × (read_after codec w.seq (append codec entry reopened).1 ≡ ok [])
  append_after_clear_lost w entry bytes codec_ok pos h small =
      let reopened = open_wal codec (clear codec w).current in
      let l = open_wal-IsLog codec (clear codec w) [] (clear-IsLog codec w) in
      let zero_seq : reopened.seq ≡ 0 =
        (IsLog-reads codec (clear codec w) [] 0 (clear-IsLog codec w)).2 in
      let one : (reopened.seq + 1) % 2 ^ 64 ≡ 1 = omega arith in
      let (done, all', after, again) =
        append_reads codec entry reopened [] bytes w.seq codec_ok l (rw one h) small in
      (
        done ∙ ap ok one,
        after
            ∙ ap ok (
                old_entry (new_record codec ((reopened.seq + 1) % 2 ^ 64) entry) bytes w.seq
                  (unfold new_record in omega arith)),
      )
