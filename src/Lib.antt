-- ===== src/Lib.antt =====
-- A verification library for SurgeDB (zapybase), the vector database of crates/surgedb-core.
--
-- The program keeps vectors with JSON metadata under external ids. `VectorStorage` holds them in a
-- flat array with two id maps, a set of deleted slots and a bitmap index over the metadata; a
-- persistent database logs each change in a write-ahead log before it applies it, and from time to
-- time saves a snapshot and empties the log.
--
-- Files and the code that they model (paths from the repository's root):
--   Error, Error/Codes         crates/surgedb-core/src/error.rs
--   Metadata/Json, /Filter     crates/surgedb-core/src/filter.rs: `Filter::matches` and paths
--   Metadata/BitmapIndex       crates/surgedb-core/src/bitmap_index.rs: `index`, `remove`, `filter`;
--                              below it `Pairs` is the independent description, `Update` and `Query`
--                              are the proofs
--   Storage                    crates/surgedb-core/src/storage.rs and types.rs: the record
--                              `VectorStorage` has the fields of the struct, an operation takes the
--                              state and returns the result with the new state; `Invariant`,
--                              `Preserve`, `View`, `Refines`, `Batch` and `Steps` are the proofs
--   Wal, Wal/Bytes, Wal/Crc32  crates/surgedb-core/src/wal.rs: the file's bytes are the field
--                              `current`; `Frames`, `Log`, `Append` and `Lost` are the proofs
--   Snapshot                   crates/surgedb-core/src/snapshot.rs: files as bytes, the directory as
--                              files under their ids; `Batches`, `Directory` and `Reload` are the
--                              proofs
--   Persistent, /Operations    crates/surgedb-core/src/persistent.rs: opening, recovery, checkpoint,
--                              and the calls of a client, over the models of the storage, the log
--                              and the snapshots; `Restore`, `Replay`, `Recovery`, `Durable`,
--                              `Durability`, `Inserted`, `Listing` and `Reachable` are the proofs,
--                              and `Indexed` fills the index
--   Hnsw, /Traverse, /Select, /Connect, /Insert, /Bulk, /State
--                              crates/surgedb-core/src/hnsw.rs: the search, the selection of
--                              neighbors, `insert`, and `insert_batch` with the feature `parallel`.
--                              `Source` is the trait
--                              `VectorStorageTrait` for one query; an index out of range, a panic in
--                              the code, is `none`. `Heap`, `Visit`, `Layer`, `Greedy` and `Hits` are
--                              the proofs on the search, and `Sound`, `Edges`, `Linked`, `Grows`,
--                              `Batched`, `GrowsMany`, `Isolated` and `Alone` those on insertion
--   VectorDb                   crates/surgedb-core/src/lib.rs: the in-memory database over the models
--                              of the storage and the index; `Ready`, `Batch` and `Found` are the
--                              proofs
--   DiskAnn                    crates/surgedb-core/src/diskann/layout.rs and storage.rs: the graph file
--                              as its bytes, which seeks and writes change in place; `Nodes`, `Graph`
--                              and `Update` are the proofs
--   MmapStorage                crates/surgedb-core/src/mmap_storage.rs: the data file and `index.dat`
--                              as bytes, the map of the data file as its length; `Slots`, `Valid`,
--                              `Refines`, `Inserted`, `Reopened` and `Misread` are the proofs
--   MmapDb                     crates/surgedb-core/src/mmap_db.rs: the database over the models of the
--                              memory-mapped storage and the index, with `index.state` as bytes, and
--                              `Ready`, `Rebuilt` and `Grown`
--                              are the proofs
--   Sparse, Sparse/Scores, Sparse/Fusion
--                              crates/surgedb-core/src/sparse/index.rs and rrf.rs: sparse vectors, the
--                              inverted index and the fusion of two rankings; `Sorted`, `Ranking`,
--                              `Search`, `Fused`, `Erased` and `Removed` are the proofs
--   MultiVector                crates/surgedb-core/src/multi_vector.rs: insertion and the MaxSim search;
--                              `Scored` and `MaxSim` are the proofs
--   Prelude, Collections       shared helpers, and the standard collections as lists
--   Env, Float, Metadata/Roaring
--                              what other crates and the hardware provide
--   Examples                   runs of the models, and the theorems at concrete inputs
--
-- Interface: `Persistent.Index` has the operations of hnsw.rs that the persistent database calls, and
-- `Accepts` is what the database relies on: a graph with a node for each slot of the storage takes
-- the vector of the next slot without an error, and its saved state has the same nodes. The model of
-- hnsw.rs fills both in `Persistent/Indexed`, whatever the levels of the nodes; a panic of it is an
-- error there. A checkpoint leaves the deleted slots out of its snapshot and keeps their nodes, so
-- the theorems ask that none is deleted when one is made, and that the clock is past the ids of the
-- snapshots.
--
-- Parameters: `serde_json` (numbers, printing, equality), `roaring` (a set of numbers, with the laws
-- of its members), `bincode` (`Codec`, which takes in the JSON text of the metadata by
-- `metadata_serde` of types.rs; a theorem that needs that it reads back what it writes says so by
-- `ReadsBack`; for lists of ids `IdCodec` and `CodecReads`, for the state of an index `StateCodec`),
-- the four bytes of an `f32` (`FloatBytes`) and the floats (operations without laws; a theorem that
-- needs laws of `<` or `>` says so by `IsStrict`, `IsWeakOrder` or `IsFloatOrder`). The distance of
-- a metric, whose kernels in distance.rs are SIMD intrinsics, is a function of two vectors.
--
-- Bounds: an `InternalId` is a number modulo 2 ^ 32 and a sequence number one modulo 2 ^ 64, as the
-- casts and the additions wrap; theorems that need a free id or a short record assume it. The loops
-- over a log file take its length as fuel: each round reads four bytes at least. The loops of the
-- search take the number of nodes as fuel: a node becomes a candidate
-- when it is first visited, and the greedy search moves to a closer node in each round. A heap takes
-- out an element that none exceeds; which of several equal ones the code's heap takes out is not
-- specified, and no theorem depends on it.
--
-- Not modelled: errors of the file system, the `sync` of the log, threads (an operation that takes
-- the locks is one step), the random level of a node (an argument of the insertions), quantization,
-- collections, and the server, command line and bindings.
pub mod Prelude
pub mod Collections
pub mod Float
pub mod Error
pub mod Env
pub mod Metadata
pub mod Storage
pub mod Wal
pub mod Snapshot
pub mod Sparse
pub mod Persistent
pub mod Hnsw
pub mod VectorDb
pub mod DiskAnn
pub mod MmapStorage
pub mod MmapDb
pub mod MultiVector
pub mod Examples
