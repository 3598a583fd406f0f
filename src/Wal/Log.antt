-- ===== src/Wal/Log.antt =====
-- What the log of wal.rs promises: what `append` wrote is read back, a crash in the middle of a
-- write loses that write alone, and reopening finds the sequence number.
use zapybase.Prelude.{
  ℕ, ◌+◌, ◌%◌, ◌^◌, ◌≤◌, ◌<◌, ◌≡◌, refl, sym, ap, ◌∙◌, true, none, some, List, [], ◌∷◌, ◌++◌, arith,
  length, length-append, eqb_refl, take,
}
use mathlib.Core.List.{append_assoc, append-nil}
use zapybase.Env.{Env}
use zapybase.Error.{ok, ◌>>=◌}
use zapybase.Wal.{
  WalEntry, WalRecord, Codec, Wal, frame, header, wal_magic, wal_version, new_record, verify,
  or_eof, or_zero, read_file, read_version, read_records, read_after_file, read_after_records,
  last_seq_from, read_all, read_after, read_all_loop, read_after_loop, last_seq_loop, find_last_seq,
  open_wal, append,
}
use zapybase.Wal.Bytes.{Byte, read_exact-append, bytes_eq}
use zapybase.Wal.Frames.{
  length-frame, read_frame_torn, Logged, AllReadable, frames, entries, entries_after, last_seq,
  length-le-frames, read_all_loop-frames, read_after_loop-frames, last_seq_loop-frames,
}

-- What the log relies on of bincode: what it serialises, it reads back.
pub record ReadsBack {env : Env} (codec : Codec env) : Type 0 where
  pub round_trip :
      (r : WalRecord env) (bytes : List Byte)
      → codec.serialize_record r ≡ some bytes
      → codec.deserialize_record bytes ≡ some r

module _ {env : Env} (codec : Codec env) where
  -- The file holds the header and the frames of `log`, and nothing else.
  pub record IsLog (w : Wal env) (log : List (Logged codec)) : Type 0 where
    pub stored : w.current ≡ some (header ++ frames codec log)
    pub opened : w.is_open ≡ true
    pub readable : AllReadable codec log
    pub sized : w.current_size ≡ 5 + length (frames codec log)

  pub verify-new_record :
      (seq : ℕ) (entry : WalEntry env) → verify codec (new_record codec seq entry) ≡ true
  unfolding verify new_record
  verify-new_record seq entry = eqb_refl _

  AllReadable-append :
      (log : List (Logged codec)) (l : Logged codec)
      → AllReadable codec log
      → AllReadable codec (l ∷ [])
      → AllReadable codec (log ++ l ∷ [])
  AllReadable-append [] l a b = b
  AllReadable-append ((r, bytes) ∷ log) l (d, v, s, a) b = (d, v, s, AllReadable-append log l a b)

  pub frames-append :
      (log : List (Logged codec)) (r : WalRecord env) (bytes : List Byte)
      → frames codec (log ++ (r, bytes) ∷ []) ≡ frames codec log ++ frame bytes
  frames-append [] r bytes = append-nil (frame bytes)
  frames-append ((q, b) ∷ log) r bytes =
      ap (λ t. frame b ++ t) (frames-append log r bytes)
      ∙ sym (append_assoc (frame b) (frames codec log) (frame bytes))

  -- `append` on a log puts one more record at its end.
  pub append-IsLog :
      (entry : WalEntry env) (w : Wal env) (log : List (Logged codec)) (bytes : List Byte)
      → ReadsBack codec
      → IsLog w log
      → let r = new_record codec ((w.seq + 1) % 2 ^ 64) entry in
        codec.serialize_record r ≡ some bytes
        → length bytes < 2 ^ 32
        → ((append codec entry w).0 ≡ ok ((w.seq + 1) % 2 ^ 64))
          × IsLog (append codec entry w).1 (log ++ (r, bytes) ∷ [])
  unfolding append
  append-IsLog entry w log bytes codec_ok l h small =
      let r = new_record codec ((w.seq + 1) % 2 ^ 64) entry in
      rw (h, append)
        (rw (l.opened, l.stored)
          (
            refl,
            record {
              stored = ap some (ap (λ t. header ++ t) (sym (frames-append log r bytes)));
              opened = refl;
              readable =
                  AllReadable-append log (r, bytes) l.readable
                    (
                      codec_ok.round_trip r bytes h,
                      verify-new_record ((w.seq + 1) % 2 ^ 64) entry,
                      small,
                      tt,
                    );
              sized = rw (frames-append log r bytes) (
                  rw (length-append (frames codec log) (frame bytes))
                    (omega (arith, length-frame bytes, l.sized)));
            },
          ))

  pub read_file-header :
      (records : List Byte)
      → read_file codec (header ++ records) ≡ ok (read_all_loop codec (length records) records [])
  unfolding read_file
  read_file-header records =
      ap (λ o. or_eof o >>= read_version codec)
        (read_exact-append 4 wal_magic (wal_version ∷ records) refl)
      ∙ (unfold read_version bytes_eq read_records in
          ap (λ o. or_eof o >>= read_records codec)
            (read_exact-append 1 (wal_version ∷ []) records refl))

  pub read_after_file-header :
      (n : ℕ) (records : List Byte)
      → read_after_file codec n (header ++ records)
        ≡ ok (read_after_loop codec (length records) records n [])
  unfolding read_after_file read_after_records
  read_after_file-header n records =
      ap (λ o. or_eof o >>= read_after_records codec n) (read_exact-append 5 header records refl)

  pub find_last_seq-header :
      (records : List Byte)
      → find_last_seq codec (header ++ records)
        ≡ some (last_seq_loop codec (length records) records 0)
  unfolding find_last_seq last_seq_from
  find_last_seq-header records = ap (last_seq_from codec) (read_exact-append 5 header records refl)

  -- A file that ends in the middle of a record, as a crash during `append` leaves it, and a file
  -- that ends behind one (k = 0): all the records before are read.
  module _ (log : List (Logged codec)) (readable : AllReadable codec log) (bytes : List Byte)
      (k : ℕ) (small : length bytes < 2 ^ 32) (short : k < 4 + length bytes) where
    abbrev torn : List Byte
    torn = frames codec log ++ take k (frame bytes)

    enough : length log ≤ length torn
    enough =
        omega (
          arith,
          length-append (frames codec log) (take k (frame bytes)),
          length-le-frames codec log,
        )

    -- After a crash in the middle of a write, `read_all` and `read_after` return the entries of
    -- every record that was written in full, and reopening finds the last one's sequence number.
    pub crash_recovery :
        (w : Wal env) (n : ℕ)
        → w.current ≡ some (header ++ torn)
        → (read_all codec w ≡ ok (entries codec log))
          × (read_after codec n w ≡ ok (entries_after codec n log))
          × ((open_wal codec w.current).seq ≡ last_seq codec 0 log)
    unfolding read_all read_after open_wal
    crash_recovery w n stored =
        let ends = read_frame_torn bytes k small short in
        let tail = take k (frame bytes) in
        (
          ap (λ o. elim o [ none ↦ ok [] | some file ↦ read_file codec file ]) stored
              ∙ read_file-header torn
              ∙ ap ok (read_all_loop-frames codec tail ends log (length torn) [] readable enough),
          ap (λ o. elim o [ none ↦ ok [] | some file ↦ read_after_file codec n file ]) stored
              ∙ read_after_file-header n torn
              ∙ ap ok
                  (read_after_loop-frames codec tail ends log (length torn) n [] readable enough),
          ap (λ o. (open_wal codec o).seq) stored
              ∙ ap (or_zero codec) (find_last_seq-header torn)
              ∙ last_seq_loop-frames codec tail ends log (length torn) 0 readable enough,
        )

  pub append_result :
      (entry : WalEntry env) (w : Wal env) (file bytes : List Byte)
      → w.is_open ≡ true
      → w.current ≡ some file
      → codec.serialize_record (new_record codec ((w.seq + 1) % 2 ^ 64) entry) ≡ some bytes
      → ((append codec entry w).0 ≡ ok ((w.seq + 1) % 2 ^ 64))
        × ((append codec entry w).1.current ≡ some (file ++ frame bytes))
  unfolding append
  append_result entry w file bytes o c h = rw (h, append) (rw (o, c) (refl, refl))

  pub read_all-stored :
      (w : Wal env) (records : List Byte)
      → w.current ≡ some (header ++ records)
      → read_all codec w ≡ ok (read_all_loop codec (length records) records [])
  unfolding read_all
  read_all-stored w records h =
      ap (λ o. elim o [ none ↦ ok [] | some file ↦ read_file codec file ]) h
      ∙ read_file-header records
