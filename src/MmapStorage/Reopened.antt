-- ===== src/MmapStorage/Reopened.antt =====
-- Opening the files of mmap_storage.rs again: after `sync`, and after a process that stopped without.
use zapybase.Prelude.{
  ℕ, ◌^◌, ◌≤◌, ◌<◌, ◌≡◌, refl, ap, sym, ◌∙◌, Option, some, List, ◌∷◌, arith, length, take,
  replicate, eqb_refl, le→leb,
}
use zapybase.Prelude.Eq.{string_eq}
use zapybase.Prelude.Slices.{take-append_self}
use zapybase.Collections.HashMap
use zapybase.Error.{ok}
use zapybase.Env.{Env}
use zapybase.Wal.Bytes.{
  Byte, to_le_bytes, read_exact, bytes_eq, from_le_bytes-to_le_bytes, length-to_le_bytes,
}
use zapybase.Storage.{VectorId, InternalId}
use zapybase.MmapStorage.{
  FloatBytes, IdCodec, MmapStorage, header_size, header, number_ids, map_file, load_index,
  check_header, open_with, open_storage, save_index, sync,
}
use zapybase.MmapStorage.Valid.{IsMapped}
use zapybase.MmapStorage.Inserted.{CodecReads}

module _ {env : Env} (floats : FloatBytes env) (codec : IdCodec) where
  -- The header that was written passes the checks.
  check_header-header :
      (dimensions : ℕ) (file : List Byte)
      → dimensions < 2 ^ 32
      → header_size ≤ length file
      → take header_size file ≡ header env floats codec dimensions
      → check_header env floats codec dimensions file ≡ ok tt
  unfolding check_header read_exact header bytes_eq
  check_header-header dimensions file small long head =
      let fits = le→leb header_size (length file) long in
      let number = from_le_bytes-to_le_bytes dimensions small in
      let word =
        take-append_self (to_le_bytes dimensions) (replicate 7 0) 4
          (sym (length-to_le_bytes dimensions)) in
      let same = eqb_refl dimensions in
      rw (fits, check_header, read_exact) (rw head (rw (word, number, same) refl))

  load_index-saved :
      (ids : List VectorId) (reads : CodecReads codec ids)
      → load_index env floats codec (some (reads.first ∷ reads.others))
        ≡ ok (number_ids 0 ids HashMap.new, ids)
  unfolding load_index
  load_index-saved ids reads = rw (reads.read, load_index) refl

  pub long_header : (s : MmapStorage) → IsMapped floats codec s → header_size ≤ length s.data_file
  long_header s v = let sized = v.sized in omega (arith, sized)

  -- Opening the files of a valid storage gives the storage that the index file describes.
  pub open_storage-IsMapped :
      (s : MmapStorage) (index_file : Option (List Byte)) (m : HashMap.HashMap VectorId InternalId)
      (ids : List VectorId)
      → IsMapped floats codec s
      → load_index env floats codec index_file ≡ ok (m, ids)
      → open_storage env floats codec s.dimensions (some s.data_file) index_file
        ≡ ok (record s {
          index_file = index_file;
          mmap = map_file env floats codec (length s.data_file);
          count = length ids;
          id_to_internal = m;
          internal_to_id = ids;
          file_size = length s.data_file;
        })
  unfolding open_storage open_with
  open_storage-IsMapped s index_file m ids v loaded =
      rw (check_header-header s.dimensions s.data_file v.small (long_header s v) v.head, loaded)
        refl

  -- what opening computes is what a valid storage has
  rebuilt :
      (index_file : Option (List Byte)) (s : MmapStorage)
      → IsMapped floats codec s
      → record s {
        index_file = index_file;
        mmap = map_file env floats codec (length s.data_file);
        count = length s.internal_to_id;
        id_to_internal = number_ids 0 s.internal_to_id HashMap.new;
        file_size = length s.data_file;
      }
        ≡ record s { index_file = index_file }
  rebuilt index_file s v =
      let mapped : map_file env floats codec (length s.data_file) ≡ s.mmap =
        ap (map_file env floats codec) (sym v.measured) ∙ sym v.mapped in
      rw (mapped, ← v.counted, ← v.numbered, ← v.measured) refl

  -- After `sync` a valid storage whose ids `bincode` writes and reads back is opened from its files as
  -- it was: the same ids, the same map of them and the same vectors.
  pub sync-open_storage :
      (s : MmapStorage)
      → CodecReads codec s.internal_to_id
      → IsMapped floats codec s
      → ((sync env floats codec s).0 ≡ ok tt)
        × (open_storage env floats codec s.dimensions
              (some (sync env floats codec s).1.data_file)
              (sync env floats codec s).1.index_file
            ≡ ok (sync env floats codec s).1)
  unfolding sync save_index
  sync-open_storage s reads v =
      let ids = s.internal_to_id in
      let bytes = reads.first ∷ reads.others in
      let opened =
        open_storage-IsMapped s (some bytes) (number_ids 0 ids HashMap.new) ids v
          (load_index-saved ids reads) in
      let whole : record s {
        index_file = some bytes;
        mmap = map_file env floats codec (length s.data_file);
        count = length ids;
        id_to_internal = number_ids 0 ids HashMap.new;
        internal_to_id = ids;
        file_size = length s.data_file;
      }
          ≡ record s { index_file = some bytes } =
        rebuilt (some bytes) s v in
      rw (reads.written, save_index) (refl, opened ∙ ap ok whole)
