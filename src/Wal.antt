-- ===== src/Wal.antt =====
-- crates/surgedb-core/src/wal.rs: the write-ahead log. The content of `current.wal` is a field of
-- the log; a write that the code flushes is in it. bincode is a parameter, `Codec`.
pub mod Bytes
pub mod Crc32
pub mod Frames
pub mod Log
pub mod Append
pub mod Lost
use zapybase.Prelude.{
  ℕ, zero, suc, ◌+◌, ◌%◌, ◌^◌, ◌*◌, ◌<◌, ◌≡◌, String, Bool, true, false, not, ◌&&◌, Option, none,
  some, List, [], ◌∷◌, ◌++◌, length, eqb, ltb, if◌then◌else◌,
}
use zapybase.Error.{Result, ok, err, ◌>>=◌, io, wal_corrupted, unsupported_version, serialization}
use zapybase.Env.{Env, Num, Meta}
use zapybase.Storage.{VectorId}
use Bytes.{Byte, to_le_bytes, from_le_bytes, read_exact, bytes_eq}
use Crc32.{crc32}

abbrev pub wal_magic : List Byte
wal_magic = b'Z' ∷ b'W' ∷ b'A' ∷ b'L' ∷ []

abbrev pub wal_version : Byte
wal_version = 1

abbrev pub header : List Byte
header = wal_magic ++ wal_version ∷ []

-- 64 * 1024 * 1024
abbrev pub default_max_size : ℕ
default_max_size = 67108864

module _ (env : Env) where
  pub data WalEntry : Type 0 where
    insert : VectorId → List (Num env) → Option (Meta env) → WalEntry
    delete : VectorId → WalEntry
    checkpoint : ℕ → WalEntry

  pub record WalRecord : Type 0 where
    pub seq : ℕ
    pub entry : WalEntry
    pub checksum : ℕ

  -- `serialize` and `deserialize` of bincode at the two types
  pub record Codec : Type 0 where
    pub serialize_entry : WalEntry → Option (List Byte)
    pub serialize_record : WalRecord → Option (List Byte)
    pub deserialize_record : List Byte → Option WalRecord

  pub record Wal : Type 0 where
    -- `dir/current.wal`, if it exists
    pub current : Option (List Byte)
    -- whether `file` is `Some`
    pub is_open : Bool
    pub seq : ℕ
    pub last_checkpoint_seq : ℕ
    pub max_wal_size : ℕ
    pub current_size : ℕ

-- the error of `read_exact` at the end of the file
abbrev pub or_eof {ℓ} : {A : Type ℓ} → Option A → Result A
or_eof none = err (io "failed to fill whole buffer")
or_eof (some read) = ok read

abbrev or_default : Option (List Byte) → List Byte
or_default none = []
or_default (some bytes) = bytes

-- `len.to_le_bytes()` and the bytes, as `append` writes them
unfoldable pub frame : List Byte → List Byte
frame bytes = to_le_bytes (length bytes % 2 ^ 32) ++ bytes

abbrev write : List Byte → Option (List Byte) → Option (List Byte)
write bytes none = none
write bytes (some file) = some (file ++ bytes)

-- the length and the bytes of one record: `none` where `read_exact` fails
unfoldable pub read_frame : List Byte → Option (List Byte × List Byte)
read_frame bytes = elim (read_exact 4 bytes) [
  | none ↦ none
  | some (len_bytes, rest) ↦ read_exact (from_le_bytes len_bytes) rest
]

module _ {env : Env} (codec : Codec env) where
  open codec use {serialize_entry, serialize_record, deserialize_record}

  -- `WalRecord::new`
  unfoldable pub new_record : ℕ → WalEntry env → WalRecord env
  new_record seq entry = record {
    seq = seq;
    entry = entry;
    checksum = crc32 (or_default (serialize_entry entry));
  }

  unfoldable pub verify : WalRecord env → Bool
  verify r = eqb (crc32 (or_default (serialize_entry r.entry))) r.checksum

  abbrev last_of : Option (WalRecord env) → ℕ → ℕ
  last_of none last_seq = last_seq
  last_of (some r) last_seq = if verify r then r.seq else last_seq

  -- the loop of `find_last_seq`
  unfoldable pub last_seq_loop : ℕ → List Byte → ℕ → ℕ
  last_seq_loop zero bytes last_seq = last_seq
  last_seq_loop (suc fuel) bytes last_seq = elim (read_frame bytes) [
    | none ↦ last_seq
    | some (data', rest) ↦ last_seq_loop fuel rest (last_of (deserialize_record data') last_seq)
  ]

  -- behind the header, if it could be read
  unfoldable pub last_seq_from : Option (List Byte × List Byte) → Option ℕ
  last_seq_from none = none
  last_seq_from (some (skipped, rest)) = some (last_seq_loop (length rest) rest 0)

  -- Each round reads four bytes at least, so the length is fuel enough.
  unfoldable pub find_last_seq : List Byte → Option ℕ
  find_last_seq file = last_seq_from (read_exact 5 file)

  abbrev pub or_zero : Option ℕ → ℕ
  or_zero none = 0
  or_zero (some n) = n

  -- `Wal::open`, on the file that is there
  unfoldable pub open_wal : Option (List Byte) → Wal env
  open_wal none = record {
    current = some header;
    is_open = true;
    seq = 0;
    last_checkpoint_seq = 0;
    max_wal_size = default_max_size;
    current_size = 5;
  }
  open_wal (some file) = record {
    current = some file;
    is_open = true;
    seq = or_zero (find_last_seq file);
    last_checkpoint_seq = 0;
    max_wal_size = default_max_size;
    current_size = length file;
  }

  -- The sequence number grows before the record is serialised, and stays so if that fails.
  unfoldable pub append : WalEntry env → Wal env → Result ℕ × Wal env
  append entry w =
      let seq = (w.seq + 1) % 2 ^ 64 in
      elim (serialize_record (new_record seq entry)) [
        | none ↦ (err (serialization "bincode"), record w { seq = seq })
        | some bytes ↦ (
          ok seq,
          if w.is_open
              then record w {
                seq = seq;
                current = write (frame bytes) w.current;
                current_size = w.current_size + (4 + length bytes);
              }
              else record w { seq = seq },
        )
      ]

  -- the loop of `read_all`: it stops at the first record that does not decode or verify
  unfoldable pub read_all_loop : ℕ → List Byte → List (WalEntry env) → List (WalEntry env)
  read_all_loop zero bytes entries = entries
  read_all_loop (suc fuel) bytes entries = elim (read_frame bytes) [
    | none ↦ entries
    | some (data', rest) ↦ elim (deserialize_record data') [
      | none ↦ entries
      | some r ↦ elim (verify r) [
        | true ↦ read_all_loop fuel rest (entries ++ r.entry ∷ [])
        | false ↦ entries
      ]
    ]
  ]

  unfoldable pub read_records : List Byte × List Byte → Result (List (WalEntry env))
  read_records (version, records) =
      if not (bytes_eq version (wal_version ∷ []))
      then err (unsupported_version (from_le_bytes (version ++ 0 ∷ 0 ∷ 0 ∷ [])) "1")
      else ok (read_all_loop (length records) records [])

  unfoldable pub read_version : List Byte × List Byte → Result (List (WalEntry env))
  read_version (magic, rest) =
      if not (bytes_eq magic wal_magic)
      then err (wal_corrupted "Invalid WAL magic bytes")
      else or_eof (read_exact 1 rest) >>= read_records

  unfoldable pub read_file : List Byte → Result (List (WalEntry env))
  read_file file = or_eof (read_exact 4 file) >>= read_version

  unfoldable pub read_all : Wal env → Result (List (WalEntry env))
  read_all w = elim w.current [ none ↦ ok [] | some file ↦ read_file file ]

  -- the loop of `read_after`: a record that does not verify is passed over
  unfoldable pub read_after_loop : ℕ → List Byte → ℕ → List (WalEntry env) → List (WalEntry env)
  read_after_loop zero bytes after_seq entries = entries
  read_after_loop (suc fuel) bytes after_seq entries = elim (read_frame bytes) [
    | none ↦ entries
    | some (data', rest) ↦ elim (deserialize_record data') [
      | none ↦ entries
      | some r ↦
          read_after_loop fuel rest after_seq
            (if verify r && ltb after_seq r.seq then entries ++ r.entry ∷ [] else entries)
    ]
  ]

  unfoldable pub read_after_records : ℕ → List Byte × List Byte → Result (List (WalEntry env))
  read_after_records after_seq (skipped, records) =
      ok (read_after_loop (length records) records after_seq [])

  unfoldable pub read_after_file : ℕ → List Byte → Result (List (WalEntry env))
  read_after_file after_seq file = or_eof (read_exact 5 file) >>= read_after_records after_seq

  unfoldable pub read_after : ℕ → Wal env → Result (List (WalEntry env))
  read_after after_seq w = elim w.current [
    | none ↦ ok []
    | some file ↦ read_after_file after_seq file
  ]

  unfoldable pub clear : Wal env → Wal env
  clear w = record w {
    current = some header;
    is_open = true;
    last_checkpoint_seq = w.seq;
    current_size = 5;
  }

  unfoldable pub needs_checkpoint : Wal env → Bool
  needs_checkpoint w = ltb w.max_wal_size w.current_size

  unfoldable pub set_max_size : ℕ → Wal env → Wal env
  set_max_size size w = record w { max_wal_size = size }
