-- ===== src/Wal/Append.antt =====
-- `append` and `clear` of wal.rs, through what the log reads back.
use zapybase.Prelude.{
  ℕ, ◌+◌, ◌%◌, ◌^◌, ◌<◌, ◌≡◌, refl, sym, ap, subst, ◌∙◌, some, List, [], ◌∷◌, ◌++◌, arith, length,
}
use mathlib.Core.List.{append-nil}
use zapybase.Env.{Env}
use zapybase.Error.{ok}
use zapybase.Wal.{
  WalEntry, Codec, Wal, header, new_record, read_all, read_after, open_wal, append, clear,
  checkpoint,
}
use zapybase.Wal.Bytes.{Byte}
use zapybase.Wal.Frames.{Logged, frames, entries, entries_after, last_seq}
use zapybase.Wal.Log.{ReadsBack, IsLog, append-IsLog, crash_recovery}

module _ {env : Env} (codec : Codec env) where
  entries-append :
      (log : List (Logged codec)) (l : Logged codec)
      → entries codec (log ++ l ∷ []) ≡ entries codec log ++ l.0.entry ∷ []
  entries-append [] l = refl
  entries-append (p ∷ log) l = ap (λ t. p.0.entry ∷ t) (entries-append log l)

  pub last_seq-append :
      (n : ℕ) (log : List (Logged codec)) (l : Logged codec)
      → last_seq codec n (log ++ l ∷ []) ≡ l.0.seq
  last_seq-append n [] l = refl
  last_seq-append n (p ∷ log) l = last_seq-append p.0.seq log l

  -- What a log without a torn record reads back.
  pub IsLog-reads :
      (w : Wal env) (log : List (Logged codec)) (n : ℕ)
      → IsLog codec w log
      → (read_all codec w ≡ ok (entries codec log))
        × (read_after codec n w ≡ ok (entries_after codec n log))
        × ((open_wal codec w.current).seq ≡ last_seq codec 0 log)
  IsLog-reads w log n l =
      crash_recovery codec log l.readable [] 0 (omega arith) (omega arith) w n
        (l.stored ∙ ap some (ap (λ t. header ++ t) (sym (append-nil (frames codec log)))))

  -- An appended entry is read back behind those before it, by `read_all` and, unless its sequence
  -- number is too old, by `read_after`; and a process that opens the file again goes on from the
  -- number that `append` returned.
  pub append_reads :
      (entry : WalEntry env) (w : Wal env) (log : List (Logged codec)) (bytes : List Byte) (n : ℕ)
      → ReadsBack codec
      → IsLog codec w log
      → codec.serialize_record (new_record codec ((w.seq + 1) % 2 ^ 64) entry) ≡ some bytes
      → length bytes < 2 ^ 32
      → let out = append codec entry w in
        let seq = (w.seq + 1) % 2 ^ 64 in
        (out.0 ≡ ok seq)
        × (read_all codec out.1 ≡ ok (entries codec log ++ entry ∷ []))
        × (read_after codec n out.1
            ≡ ok (entries_after codec n (log ++ (new_record codec seq entry, bytes) ∷ [])))
        × ((open_wal codec out.1.current).seq ≡ seq)
  unfolding new_record
  append_reads entry w log bytes n codec_ok l h small =
      let r = new_record codec ((w.seq + 1) % 2 ^ 64) entry in
      let (done, l') = append-IsLog codec entry w log bytes codec_ok l h small in
      let (all', after, reopened) =
        IsLog-reads (append codec entry w).1 (log ++ (r, bytes) ∷ []) n l' in
      (
        done,
        all' ∙ ap ok (entries-append log (r, bytes)),
        after,
        reopened ∙ last_seq-append 0 log (r, bytes),
      )

  pub clear-IsLog : (w : Wal env) → IsLog codec (clear codec w) []
  unfolding clear
  clear-IsLog w = record { stored = refl; opened = refl; readable = tt; sized = omega arith }

  -- The file of a log, opened again, is a log.
  pub open_wal-IsLog :
      (w : Wal env) (log : List (Logged codec))
      → IsLog codec w log
      → IsLog codec (open_wal codec w.current) log
  open_wal-IsLog w log l =
      subst (λ o. IsLog codec (open_wal codec o) log) (sym l.stored)
        (unfold open_wal in
          record { stored = refl; opened = refl; readable = l.readable; sized = omega arith })

  -- After `clear` the file has no entry and a process that opens it starts at number 0; once the
  -- checkpoint marker is appended it goes on from the number of the marker.
  pub clear_reads :
      (w : Wal env) (snapshot_id : ℕ) (bytes : List Byte)
      → ReadsBack codec
      → codec.serialize_record (new_record codec ((w.seq + 1) % 2 ^ 64) (checkpoint snapshot_id))
        ≡ some bytes
      → length bytes < 2 ^ 32
      → let cleared = clear codec w in
        (read_all codec cleared ≡ ok [])
        × ((open_wal codec cleared.current).seq ≡ 0)
        × ((open_wal codec (append codec (checkpoint snapshot_id) cleared).1.current).seq
            ≡ (w.seq + 1) % 2 ^ 64)
  clear_reads w snapshot_id bytes codec_ok h small =
      let (all', after, reopened) = IsLog-reads (clear codec w) [] 0 (clear-IsLog w) in
      let (done, all'', after', reopened') =
        append_reads (checkpoint snapshot_id) (clear codec w) [] bytes 0 codec_ok (clear-IsLog w)
          (unfold clear in h) small in
      (all', reopened, unfold clear in reopened')
