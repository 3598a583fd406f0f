-- ===== src/Error.antt =====
-- crates/surgedb-core/src/error.rs: the errors, and `Result`.
pub mod Codes
use zapybase.Prelude.{ℕ, ◌≡◌, refl, Bool, true, false, String}

pub data Error : Type 0 where
  dimension_mismatch : ℕ → ℕ → Error
  vector_not_found : String → Error
  duplicate_id : String → Error
  empty_index : Error
  invalid_config : String → Error
  invalid_hnsw_param : String → String → String → Error
  storage : String → Error
  collection_not_found : String → Error
  duplicate_collection : String → Error
  capacity_exceeded : String → Error
  io : String → Error
  wal_corrupted : String → Error
  snapshot_corrupted : String → Error
  checksum_mismatch : ℕ → ℕ → Error
  unsupported_version : ℕ → String → Error
  index_corrupted : String → Error
  id_mapping_corrupted : ℕ → String → Error
  serialization : String → Error
  deserialization : String → Error
  lock_failed : String → Error
  cancelled : Error

pub data Result {ℓ} (A : Type ℓ) : Type ℓ where
  ok : A → Result A
  err : Error → Result A

infixl 5 ◌>>=◌
abbrev pub ◌>>=◌ {ℓ κ} : {A : Type ℓ} {B : Type κ} → Result A → (A → Result B) → Result B
ok a >>= f = f a
err e >>= f = err e

unfoldable pub is_recoverable : Error → Bool
is_recoverable empty_index = true
is_recoverable (lock_failed _) = true
is_recoverable cancelled = true
is_recoverable _ = false

unfoldable pub is_corruption : Error → Bool
is_corruption (wal_corrupted _) = true
is_corruption (snapshot_corrupted _) = true
is_corruption (checksum_mismatch _ _) = true
is_corruption (index_corrupted _) = true
is_corruption (id_mapping_corrupted _ _) = true
is_corruption _ = false

unfoldable pub is_user_error : Error → Bool
is_user_error (dimension_mismatch _ _) = true
is_user_error (vector_not_found _) = true
is_user_error (duplicate_id _) = true
is_user_error (invalid_config _) = true
is_user_error (invalid_hnsw_param _ _ _) = true
is_user_error (collection_not_found _) = true
is_user_error (duplicate_collection _) = true
is_user_error _ = false

unfoldable pub error_code : Error → ℕ
error_code (dimension_mismatch _ _) = 1001
error_code (vector_not_found _) = 1002
error_code (duplicate_id _) = 1003
error_code empty_index = 1004
error_code (invalid_config _) = 1100
error_code (invalid_hnsw_param _ _ _) = 1101
error_code (storage _) = 1200
error_code (collection_not_found _) = 1201
error_code (duplicate_collection _) = 1202
error_code (capacity_exceeded _) = 1203
error_code (io _) = 1300
error_code (wal_corrupted _) = 1301
error_code (snapshot_corrupted _) = 1302
error_code (checksum_mismatch _ _) = 1303
error_code (unsupported_version _ _) = 1304
error_code (index_corrupted _) = 1400
error_code (id_mapping_corrupted _ _) = 1401
error_code (serialization _) = 1500
error_code (deserialization _) = 1501
error_code (lock_failed _) = 1600
error_code cancelled = 1601
