-- ===== src/Metadata.antt =====
-- Metadata of the vectors: JSON values, filters on them, and the bitmap index over them.
pub mod Json
pub mod Filter
pub mod Roaring
pub mod BitmapIndex
