-- ===== src/Examples/MmapStorage.antt =====
-- A memory-mapped storage with vectors of one component, and a codec for short lists of ids.
use zapybase.Prelude.{
  ℕ, zero, suc, ◌≡◌, refl, String, false, Option, none, some, List, [], ◌∷◌, arith, if◌then◌else◌,
}
use zapybase.Prelude.Eq.{◌==◌, string_eq}
use zapybase.Collections.HashMap
use zapybase.Error.{ok}
use zapybase.Storage.{internal_id_from}
use zapybase.Wal.Bytes.{Byte, to_le_bytes}
use zapybase.MmapStorage.{
  FloatBytes, IdCodec, MmapStorage, open_storage, open_with, load_index, map_file, number_ids,
  header, insert_internal, insert, append_vector, remap, vector_bytes, sync,
}
use zapybase.MmapStorage.Slots.{ReadsBack}
use zapybase.MmapStorage.Valid.{IsMapped, view}
use zapybase.MmapStorage.Inserted.{Inserted, insert_internal-view}
use zapybase.MmapStorage.Reopened.{sync-open_storage}
use zapybase.MmapStorage.Misread.{insert_misreads}
use zapybase.MmapStorage.Refines.{append_vector-IsMapped}
use zapybase.Examples.{env}

abbrev first_byte : List Byte → ℕ
first_byte [] = 0
first_byte (b ∷ bytes) = b

abbrev pub floats : FloatBytes env
floats = record { to_bytes = λ x. x ∷ 0 ∷ 0 ∷ 0 ∷ []; from_bytes = first_byte }

pub floats-ReadsBack : ReadsBack floats
floats-ReadsBack = record { width = λ x. refl; back = λ x. refl }

-- the lists of ids that occur here
abbrev write_ids : List String → Option (List Byte)
write_ids [] = some (1 ∷ [])
write_ids (a ∷ []) = if a == "a" then some (2 ∷ []) else none
write_ids (a ∷ b ∷ []) = if a == "a" then some (3 ∷ []) else none
write_ids other = none

abbrev read_ids : List Byte → Option (List String)
read_ids (suc zero ∷ []) = some []
read_ids (suc (suc zero) ∷ []) = some ("a" ∷ [])
read_ids (suc (suc (suc zero)) ∷ []) = some ("a" ∷ "b" ∷ [])
read_ids other = none

abbrev pub codec : IdCodec
codec = record { serialize = write_ids; deserialize = read_ids }

-- what opening an empty directory gives
abbrev pub empty : MmapStorage
empty = record {
  dimensions = 1;
  data_file = header env floats codec 1;
  index_file = none;
  mmap = none;
  count = 0;
  id_to_internal = HashMap.new;
  internal_to_id = [];
  file_size = 16;
}

open_run : open_storage env floats codec 1 none none ≡ ok empty
unfolding open_storage open_with load_index map_file header to_le_bytes
open_run = refl

pub empty-IsMapped : IsMapped floats codec empty
unfolding header to_le_bytes map_file number_ids
empty-IsMapped = record {
  positive = omega arith;
  small = omega arith;
  head = refl;
  sized = refl;
  counted = refl;
  measured = refl;
  mapped = refl;
  numbered = refl;
}

insert_internal-view_example :
    Inserted floats codec floats-ReadsBack "a"
      (7 ∷ [])
      false
      empty
      (insert_internal env floats codec "a" (7 ∷ []) false empty)
insert_internal-view_example =
    insert_internal-view floats codec floats-ReadsBack "a" (7 ∷ []) false empty empty-IsMapped
      (omega arith) (record { first = 2; others = []; written = refl; read = refl })

-- the storage with one vector, whose ids were saved
abbrev pub one : MmapStorage
one = append_vector env floats codec "a" (7 ∷ []) (record empty { index_file = some (2 ∷ []) })

pub one-IsMapped : IsMapped floats codec one
one-IsMapped =
    append_vector-IsMapped floats codec floats-ReadsBack "a" (7 ∷ [])
      (record empty { index_file = some (2 ∷ []) }) refl
      (record {
        positive = empty-IsMapped.positive;
        small = empty-IsMapped.small;
        head = empty-IsMapped.head;
        sized = empty-IsMapped.sized;
        counted = empty-IsMapped.counted;
        measured = empty-IsMapped.measured;
        mapped = empty-IsMapped.mapped;
        numbered = empty-IsMapped.numbered;
      })

sync-open_storage_example :
    ((sync env floats codec empty).0 ≡ ok tt)
    × (open_storage env floats codec 1
          (some (sync env floats codec empty).1.data_file)
          (sync env floats codec empty).1.index_file
        ≡ ok (sync env floats codec empty).1)
sync-open_storage_example =
    sync-open_storage floats codec empty
      (record { first = 1; others = []; written = refl; read = refl }) empty-IsMapped

insert_misreads_example :
    let stopped = (insert env floats codec "b" (8 ∷ []) one).1 in
    (opened : MmapStorage) × (open_storage env floats codec one.dimensions
        (some stopped.data_file)
        stopped.index_file
      ≡ ok opened)
    × ((insert env floats codec "c" (9 ∷ []) opened).0 ≡ ok one.count)
    × (view floats codec (insert env floats codec "c" (9 ∷ []) opened).1 "c" ≡ some (8 ∷ []))
insert_misreads_example =
    insert_misreads floats codec floats-ReadsBack "b" "c" (8 ∷ []) (9 ∷ []) one one-IsMapped
      (unfold append_vector remap vector_bytes in refl)
      (unfold append_vector remap vector_bytes in refl)
      (unfold append_vector remap vector_bytes load_index number_ids internal_id_from
          HashMap.insert in
        refl)
      (unfold append_vector remap vector_bytes HashMap.insert HashMap.contains_key HashMap.get in
        refl)
      (unfold append_vector remap vector_bytes HashMap.insert HashMap.contains_key HashMap.get in
        refl)
      (unfold append_vector remap vector_bytes in omega arith)
      (unfold append_vector remap vector_bytes in refl)
