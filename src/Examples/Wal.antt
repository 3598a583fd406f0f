-- ===== src/Examples/Wal.antt =====
-- Runs of wal.rs over a small codec, and the theorems on the log at short logs.
use zapybase.Prelude.{
  ℕ, zero, suc, ◌+◌, ◌%◌, ◌^◌, ◌≡◌, refl, Option, none, some, List, [], ◌∷◌, ◌++◌, arith, take,
  if◌then◌else◌,
}
use zapybase.Prelude.Eq.{◌==◌, string_eq}
use zapybase.Error.{ok}
use zapybase.Wal.{
  WalEntry, insert, delete, checkpoint, WalRecord, Codec, Wal, header, frame, new_record, read_all,
  read_after, open_wal, append, clear,
}
use zapybase.Wal.Bytes.{Byte}
use zapybase.Wal.Frames.{Logged, AllReadable, frames, entries, entries_after, last_seq}
use zapybase.Wal.Log.{ReadsBack, IsLog, append-IsLog, crash_recovery}
use zapybase.Wal.Append.{append_reads}
use zapybase.Wal.Lost.{append_after_torn_lost, append_after_clear_lost}
use zapybase.Examples.{env}

-- Vectors are stored for the id "a" without metadata, and only "a" is deleted: enough for runs.
unfoldable pub encode_record : WalRecord env → Option (List Byte)
encode_record r = elim r.entry [
  | insert id vector metadata ↦ elim metadata [
    | none ↦ if id == "a" then some (0 ∷ r.seq ∷ r.checksum ∷ vector) else none
    | some m ↦ none
  ]
  | delete id ↦ if id == "a" then some (1 ∷ r.seq ∷ r.checksum ∷ []) else none
  | checkpoint n ↦ some (2 ∷ r.seq ∷ r.checksum ∷ n ∷ [])
]

unfoldable pub decode_tail : ℕ → ℕ → ℕ → List Byte → Option (WalRecord env)
decode_tail zero seq checksum vector =
    some (record { seq = seq; entry = insert "a" vector none; checksum = checksum })
decode_tail (suc zero) seq checksum [] =
    some (record { seq = seq; entry = delete "a"; checksum = checksum })
decode_tail (suc (suc zero)) seq checksum (n ∷ []) =
    some (record { seq = seq; entry = checkpoint n; checksum = checksum })
decode_tail tag seq checksum other = none

unfoldable pub decode_record : List Byte → Option (WalRecord env)
unfolding decode_tail
decode_record (tag ∷ seq ∷ checksum ∷ rest) = decode_tail tag seq checksum rest
decode_record other = none

unfoldable pub encode_entry : WalEntry env → Option (List Byte)
encode_entry (insert id vector metadata) = some (0 ∷ vector)
encode_entry (delete id) = some (1 ∷ [])
encode_entry (checkpoint n) = some (2 ∷ n ∷ [])

abbrev pub codec : Codec env
codec = record {
  serialize_entry = encode_entry;
  serialize_record = encode_record;
  deserialize_record = decode_record;
}

round_trip_at :
    (seq : ℕ) (entry : WalEntry env) (checksum : ℕ) (bytes : List Byte)
    → encode_record (record { seq = seq; entry = entry; checksum = checksum }) ≡ some bytes
    → decode_record bytes ≡ some (record { seq = seq; entry = entry; checksum = checksum })
unfolding encode_record decode_record
round_trip_at seq (insert id vector none) checksum bytes h =
    ground (arith, string_eq.beq_iff id "a")
round_trip_at seq (insert id vector (some m)) checksum bytes h = cc
round_trip_at seq (delete id) checksum bytes h = ground (arith, string_eq.beq_iff id "a")
round_trip_at seq (checkpoint n) checksum bytes h = ground arith

pub codec-ReadsBack : ReadsBack codec
codec-ReadsBack = record {
  round_trip = λ r bytes h. round_trip_at r.seq r.entry r.checksum bytes h;
}

abbrev fresh : Wal env
fresh = open_wal codec none

fresh-IsLog : IsLog codec fresh []
unfolding open_wal
fresh-IsLog = record { stored = refl; opened = refl; readable = tt; sized = omega arith }

abbrev put_a : WalEntry env
put_a = insert "a" (3 ∷ 4 ∷ []) none

abbrev put_a_bytes : List Byte
put_a_bytes = 0 ∷ 1 ∷ (new_record codec 1 put_a).checksum ∷ 3 ∷ 4 ∷ []

put_a_encoded :
    codec.serialize_record (new_record codec ((fresh.seq + 1) % 2 ^ 64) put_a) ≡ some put_a_bytes
unfolding open_wal encode_record new_record
put_a_encoded = refl

append_reads_example :
    (let out = append codec put_a fresh in
      let seq = (fresh.seq + 1) % 2 ^ 64 in
      (out.0 ≡ ok seq)
      × (read_all codec out.1 ≡ ok (entries codec [] ++ put_a ∷ []))
      × (read_after codec 0 out.1
          ≡ ok (entries_after codec 0 ([] ++ (new_record codec seq put_a, put_a_bytes) ∷ [])))
      × ((open_wal codec out.1.current).seq ≡ seq))
append_reads_example =
    append_reads codec put_a fresh [] put_a_bytes 0 codec-ReadsBack fresh-IsLog put_a_encoded
      (omega arith)

abbrev one_log : List (Logged codec)
one_log = [] ++ (new_record codec ((fresh.seq + 1) % 2 ^ 64) put_a, put_a_bytes) ∷ []

one_readable : AllReadable codec one_log
one_readable =
    (append-IsLog codec put_a fresh [] put_a_bytes codec-ReadsBack fresh-IsLog put_a_encoded
      (omega arith)).1.readable

-- a file that ends six bytes into its second record
abbrev cut_file : List Byte
cut_file = header ++ (frames codec one_log ++ take 6 (frame put_a_bytes))

opened_cut : (open_wal codec (some cut_file)).current ≡ some cut_file
unfolding open_wal
opened_cut = refl

crash_recovery_example :
    (read_all codec (open_wal codec (some cut_file)) ≡ ok (entries codec one_log))
    × (read_after codec 1 (open_wal codec (some cut_file)) ≡ ok (entries_after codec 1 one_log))
    × ((open_wal codec (open_wal codec (some cut_file)).current).seq ≡ last_seq codec 0 one_log)
crash_recovery_example =
    crash_recovery codec one_log one_readable put_a_bytes 6 (omega arith) (omega arith)
      (open_wal codec (some cut_file)) 1 opened_cut

abbrev marker_bytes : ℕ → List Byte
marker_bytes seq = 2 ∷ seq ∷ (new_record codec seq (checkpoint 7)).checksum ∷ 7 ∷ []

marker_encoded :
    (seq : ℕ)
    → codec.serialize_record (new_record codec seq (checkpoint 7)) ≡ some (marker_bytes seq)
unfolding encode_record new_record
marker_encoded seq = refl

-- a record of 12 bytes, of which the length word alone was written
abbrev long_bytes : List Byte
long_bytes = 0 ∷ 1 ∷ 0 ∷ 1 ∷ 2 ∷ 3 ∷ 4 ∷ 5 ∷ 6 ∷ 7 ∷ 8 ∷ 9 ∷ []

abbrev behind_torn : Wal env
behind_torn =
    open_wal codec (some (header ++ (frames codec one_log ++ take (4 + 0) (frame long_bytes))))

append_after_torn_lost_example :
    ((append codec (checkpoint 7) behind_torn).0 ≡ ok ((behind_torn.seq + 1) % 2 ^ 64))
    × (read_all codec (append codec (checkpoint 7) behind_torn).1 ≡ ok (entries codec one_log))
append_after_torn_lost_example =
    append_after_torn_lost codec one_log long_bytes (marker_bytes ((behind_torn.seq + 1) % 2 ^ 64))
      0 (checkpoint 7) one_readable (omega arith) (omega arith)
      (marker_encoded ((behind_torn.seq + 1) % 2 ^ 64))

abbrev used : Wal env
used = record fresh { seq = 5 }

append_after_clear_lost_example :
    (let reopened = open_wal codec (clear codec used).current in
      ((append codec (checkpoint 7) reopened).0 ≡ ok 1)
      × (read_after codec used.seq (append codec (checkpoint 7) reopened).1 ≡ ok []))
append_after_clear_lost_example =
    append_after_clear_lost codec used (checkpoint 7) (marker_bytes 1) codec-ReadsBack (omega arith)
      (marker_encoded 1) (omega arith)
