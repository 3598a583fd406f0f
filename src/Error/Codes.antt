-- ===== src/Error/Codes.antt =====
-- The codes and the classes of the errors of error.rs.
use zapybase.Prelude.{
  ℕ, ◌+◌, ◌≡◌, refl, ap, sym, ◌∙◌, false, ◌&&◌, List, [], ◌∷◌, eqb, if◌then◌else◌,
}
use zapybase.Error.{
  Error, dimension_mismatch, vector_not_found, duplicate_id, empty_index, invalid_config,
  invalid_hnsw_param, storage, collection_not_found, duplicate_collection, capacity_exceeded, io,
  wal_corrupted, snapshot_corrupted, checksum_mismatch, unsupported_version, index_corrupted,
  id_mapping_corrupted, serialization, deserialization, lock_failed, cancelled, is_recoverable,
  is_corruption, is_user_error, error_code,
}

-- The variant of an error, without what it carries: its place in the declaration.
pub variant : Error → ℕ
variant (dimension_mismatch _ _) = 0
variant (vector_not_found _) = 1
variant (duplicate_id _) = 2
variant empty_index = 3
variant (invalid_config _) = 4
variant (invalid_hnsw_param _ _ _) = 5
variant (storage _) = 6
variant (collection_not_found _) = 7
variant (duplicate_collection _) = 8
variant (capacity_exceeded _) = 9
variant (io _) = 10
variant (wal_corrupted _) = 11
variant (snapshot_corrupted _) = 12
variant (checksum_mismatch _ _) = 13
variant (unsupported_version _ _) = 14
variant (index_corrupted _) = 15
variant (id_mapping_corrupted _ _) = 16
variant (serialization _) = 17
variant (deserialization _) = 18
variant (lock_failed _) = 19
variant cancelled = 20

index_of : ℕ → ℕ → List ℕ → ℕ
index_of code position [] = position
index_of code position (c ∷ codes) =
    let rest = index_of code (position + 1) codes in if eqb c code then position else rest

-- the variant that a code stands for
variant_of_code : ℕ → ℕ
variant_of_code code = index_of code 0 (
    1001 ∷ 1002 ∷ 1003 ∷ 1004 ∷ 1100 ∷ 1101 ∷ 1200 ∷ 1201 ∷ 1202 ∷ 1203 ∷ 1300 ∷ 1301 ∷ 1302 ∷ 1303
    ∷ 1304 ∷ 1400 ∷ 1401 ∷ 1500 ∷ 1501 ∷ 1600 ∷ 1601 ∷ [])

variant_of_code_lem : (e : Error) → variant_of_code (error_code e) ≡ variant e
unfolding variant_of_code index_of error_code variant
variant_of_code_lem (dimension_mismatch _ _) = refl
variant_of_code_lem _ = refl

-- Two errors with one code are of one variant.
pub error_code_injective : (e f : Error) → error_code e ≡ error_code f → variant e ≡ variant f
error_code_injective e f h =
    sym (variant_of_code_lem e) ∙ ap variant_of_code h ∙ variant_of_code_lem f

-- No error is in two of the classes recoverable, corruption and user error.
pub classes_disjoint :
    (e : Error)
    → ((is_recoverable e && is_corruption e) ≡ false)
      × ((is_recoverable e && is_user_error e) ≡ false)
      × ((is_corruption e && is_user_error e) ≡ false)
unfolding is_recoverable is_corruption is_user_error
classes_disjoint (dimension_mismatch _ _) = (refl, refl, refl)
classes_disjoint _ = (refl, refl, refl)
