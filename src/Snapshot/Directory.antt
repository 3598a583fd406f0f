-- ===== src/Snapshot/Directory.antt =====
-- The directory of snapshot.rs: sorting by id, and what a cleanup leaves.
use zapybase.Prelude.{
  ℕ, zero, suc, ◌+◌, ◌-◌, ◌≤◌, ◌<◌, ◌≡◌, refl, ap, ◌∙◌, some, List, [], ◌∷◌, ◌++◌, arith, length,
  length-append, take, take,
}
use zapybase.Prelude.Slices.{take-append}
use zapybase.Wal.Bytes.{Byte}
use zapybase.Snapshot.{
  SnapshotFile, SnapshotManager, create_file, remove_file, remove_files, insert_by_key, sort_by_key,
  list_snapshots, cleanup, last,
}

-- every file has an id below the bound
abbrev pub AllBelow : ℕ → List SnapshotFile → Type 0
AllBelow bound [] = Unit
AllBelow bound (file ∷ files) = (file.0 < bound) × AllBelow bound files

last-append :
    (files : List SnapshotFile) (file : SnapshotFile) → last (files ++ file ∷ []) ≡ some file
unfolding last
last-append [] file = refl
last-append (a ∷ []) file = refl
last-append (a ∷ b ∷ files) file = last-append (b ∷ files) file

create_file_new :
    (id : ℕ) (bytes : List Byte) (files : List SnapshotFile)
    → AllBelow id files
    → create_file id bytes files ≡ files ++ (id, bytes) ∷ []
unfolding create_file
create_file_new id bytes [] below = refl
create_file_new id bytes ((other, content) ∷ files) below =
    ground (arith, create_file_new id bytes files)

insert_by_key_last :
    (file : SnapshotFile) (files : List SnapshotFile)
    → AllBelow file.0 files
    → insert_by_key file files ≡ files ++ file ∷ []
unfolding insert_by_key
insert_by_key_last file [] below = refl
insert_by_key_last file (other ∷ files) below = ground (arith, insert_by_key_last file files)

insert_by_key_before :
    (file newest : SnapshotFile) (files : List SnapshotFile)
    → file.0 < newest.0
    → insert_by_key file (files ++ newest ∷ []) ≡ insert_by_key file files ++ newest ∷ []
unfolding insert_by_key
insert_by_key_before file newest [] below = ground arith
insert_by_key_before file newest (other ∷ files) below =
    ground (arith, insert_by_key_before file newest files below)

insert_by_key-AllBelow :
    (bound : ℕ) (file : SnapshotFile) (files : List SnapshotFile)
    → file.0 < bound
    → AllBelow bound files
    → AllBelow bound (insert_by_key file files)
unfolding insert_by_key
insert_by_key-AllBelow bound file [] h below = (h, tt)
insert_by_key-AllBelow bound file (other ∷ files) h below =
    ground (arith, insert_by_key-AllBelow bound file files)

sort_by_key-AllBelow :
    (bound : ℕ) (files : List SnapshotFile)
    → AllBelow bound files
    → AllBelow bound (sort_by_key files)
unfolding sort_by_key
sort_by_key-AllBelow bound [] below = tt
sort_by_key-AllBelow bound (file ∷ files) (h, below) =
    insert_by_key-AllBelow bound file (sort_by_key files) h (sort_by_key-AllBelow bound files below)

-- The newest file is listed last, behind the others in their order.
pub sort_by_key_newest :
    (newest : SnapshotFile) (files : List SnapshotFile)
    → AllBelow newest.0 files
    → sort_by_key (files ++ newest ∷ []) ≡ sort_by_key files ++ newest ∷ []
unfolding sort_by_key insert_by_key
sort_by_key_newest newest [] below = refl
sort_by_key_newest newest (file ∷ files) (h, below) =
    ap (insert_by_key file) (sort_by_key_newest newest files below)
    ∙ insert_by_key_before file newest (sort_by_key files) h

length-insert_by_key :
    (file : SnapshotFile) (files : List SnapshotFile)
    → length (insert_by_key file files) ≡ length files + 1
unfolding insert_by_key
length-insert_by_key file [] = refl
length-insert_by_key file (other ∷ files) = ground (arith, length-insert_by_key file files)

pub length-sort_by_key : (files : List SnapshotFile) → length (sort_by_key files) ≡ length files
unfolding sort_by_key
length-sort_by_key [] = refl
length-sort_by_key (file ∷ files) =
    omega (arith, length-insert_by_key file (sort_by_key files), length-sort_by_key files)

remove_file_newest :
    (id : ℕ) (newest : SnapshotFile) (files : List SnapshotFile)
    → id < newest.0
    → AllBelow newest.0 files
    → (remove_file id (files ++ newest ∷ []) ≡ remove_file id files ++ newest ∷ [])
      × AllBelow newest.0 (remove_file id files)
unfolding remove_file
remove_file_newest id newest [] h below = ground arith
remove_file_newest id newest (file ∷ files) h below =
    ground (arith, remove_file_newest id newest files h)

take-AllBelow :
    (bound n : ℕ) (files : List SnapshotFile) → AllBelow bound files → AllBelow bound (take n files)
take-AllBelow bound zero files below = tt
take-AllBelow bound (suc n) [] below = tt
take-AllBelow bound (suc n) (file ∷ files) (h, below) = (h, take-AllBelow bound n files below)

-- Removing older files leaves the newest at the end.
remove_files_newest :
    (removed : List SnapshotFile) (newest : SnapshotFile) (files : List SnapshotFile)
    → AllBelow newest.0 removed
    → AllBelow newest.0 files
    → (remove_files removed (files ++ newest ∷ []) ≡ remove_files removed files ++ newest ∷ [])
      × AllBelow newest.0 (remove_files removed files)
unfolding remove_files
remove_files_newest [] newest files h below = (refl, below)
remove_files_newest (file ∷ removed) newest files (h, hs) below =
    let (same, below') = remove_file_newest file.0 newest files h below in
    let (same', below'') =
      remove_files_newest removed newest (remove_file file.0 files) hs below' in
    (ap (remove_files removed) same ∙ same', below'')

AllBelow-append :
    (newest : SnapshotFile) (files : List SnapshotFile)
    → AllBelow newest.0 files
    → AllBelow (newest.0 + 1) (files ++ newest ∷ [])
AllBelow-append newest [] below = (omega arith, tt)
AllBelow-append newest (file ∷ files) (h, below) = (omega arith, AllBelow-append newest files below)

-- A cleanup that retains one snapshot at least keeps the newest, and it stays the newest.
pub cleanup_newest :
    (id : ℕ) (bytes : List Byte) (manager : SnapshotManager)
    → 1 ≤ manager.retain_count
    → AllBelow id manager.dir
    → let cleaned = cleanup (record manager { dir = create_file id bytes manager.dir }) in
      (last (list_snapshots cleaned.dir) ≡ some (id, bytes))
      × AllBelow (id + 1) cleaned.dir
      × (cleaned.retain_count ≡ manager.retain_count)
unfolding cleanup list_snapshots
cleanup_newest id bytes manager keep below =
    let newest : SnapshotFile = (id, bytes) in
    let sorted = sort_by_key manager.dir in
    let n = length (sorted ++ newest ∷ []) - manager.retain_count in
    let removed = take n sorted in
    let below_removed = take-AllBelow id n sorted (sort_by_key-AllBelow id manager.dir below) in
    let (same, below') = remove_files_newest removed newest manager.dir below_removed below in
    rw (create_file_new id bytes manager.dir below) (
      rw (sort_by_key_newest newest manager.dir below) (
        rw (take-append sorted (newest ∷ []) n (omega (arith, length-append sorted (newest ∷ []))))
          (rw same (
            ap last (sort_by_key_newest newest (remove_files removed manager.dir) below')
                ∙ last-append (sort_by_key (remove_files removed manager.dir)) newest,
            AllBelow-append newest (remove_files removed manager.dir) below',
            refl,
          ))))
