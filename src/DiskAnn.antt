-- ===== src/DiskAnn.antt =====
-- crates/surgedb-core/src/diskann: the layout of layout.rs and `GraphStorage` of storage.rs. The file
-- is its bytes; a seek is an offset that the next read or write takes. The text of an error is that
-- of the code without the numbers it shows.
pub mod Nodes
pub mod Graph
pub mod Update
use zapybase.Prelude.{
  ℕ, zero, suc, ◌+◌, ◌-◌, ◌*◌, ◌/◌, ◌%◌, ◌^◌, Bool, true, false, not, Option, none, some, List, [],
  ◌∷◌, ◌++◌, length, take, drop, replicate, min, eqb, leb, if◌then◌else◌,
}
use zapybase.Prelude.Files.{write_at}
use zapybase.Error.{Result, ok, err, ◌>>=◌, io, storage}
use zapybase.Wal.Bytes.{Byte, to_le_bytes, from_le_bytes, read_exact, bytes_eq}

-- `GRAPH_MAGIC`, the bytes of "DANN", and `GRAPH_VERSION`
abbrev pub graph_magic : List Byte
graph_magic = 68 ∷ 65 ∷ 78 ∷ 78 ∷ []

abbrev pub graph_version : ℕ
graph_version = 1

abbrev pub header_size : ℕ
header_size = 4096

-- the fields of `GraphHeader` that are not constant
pub record GraphHeader : Type 0 where
  pub num_nodes : ℕ
  pub max_degree : ℕ
  pub entry_point : ℕ

pub record GraphStorage : Type 0 where
  pub file : List Byte
  pub header : GraphHeader
  pub node_size : ℕ

unfoldable pub node_size_bytes : ℕ → ℕ
node_size_bytes max_degree = 4 + max_degree * 4

unfoldable pub words_to_bytes : List ℕ → List Byte
words_to_bytes [] = []
words_to_bytes (n ∷ ns) = to_le_bytes n ++ words_to_bytes ns

-- `neighbors.len()..max_degree`: the padding
unfoldable pub serialize_node : List ℕ → ℕ → List Byte
serialize_node neighbors max_degree =
    to_le_bytes (min (length neighbors) max_degree)
    ++ (words_to_bytes (take max_degree neighbors)
        ++ words_to_bytes (replicate (max_degree - length neighbors) 0))

-- `u64::to_le_bytes` and `u64::from_le_bytes`
unfoldable pub u64_to_le_bytes : ℕ → List Byte
u64_to_le_bytes n = to_le_bytes (n % 2 ^ 32) ++ to_le_bytes (n / 2 ^ 32)

unfoldable pub u64_from_le_bytes : List Byte → ℕ
u64_from_le_bytes bytes = from_le_bytes (take 4 bytes) + 2 ^ 32 * from_le_bytes (drop 4 bytes)

unfoldable pub header_bytes : GraphHeader → List Byte
header_bytes header =
    graph_magic
    ++ (to_le_bytes graph_version
        ++ (u64_to_le_bytes header.num_nodes
            ++ (to_le_bytes header.max_degree
                ++ (to_le_bytes header.entry_point ++ replicate 4076 0))))

unfoldable pub create : ℕ → ℕ → GraphStorage
create max_degree entry_point =
    let header : GraphHeader = record {
      num_nodes = 0;
      max_degree = max_degree;
      entry_point = entry_point;
    } in
    record { file = header_bytes header; header = header; node_size = node_size_bytes max_degree }

abbrev pub or_eof : Option (List Byte × List Byte) → Result (List Byte × List Byte)
or_eof none = err (io "failed to fill whole buffer")
or_eof (some r) = ok r

-- the fields behind the version
unfoldable pub open_fields : List Byte → List Byte → Result GraphStorage
open_fields file bytes = or_eof (read_exact 8 bytes) >>= λ nodes.
    or_eof (read_exact 4 nodes.1) >>= λ degree. or_eof (read_exact 4 degree.1) >>= λ entry.
    ok (record {
      file = file;
      header = record {
        num_nodes = u64_from_le_bytes nodes.0;
        max_degree = from_le_bytes degree.0;
        entry_point = from_le_bytes entry.0;
      };
      node_size = node_size_bytes (from_le_bytes degree.0);
    })

unfoldable pub open_graph : List Byte → Result GraphStorage
open_graph file = or_eof (read_exact 4 file) >>= λ magic.
    if not (bytes_eq magic.0 graph_magic)
    then err (storage "Invalid graph file magic")
    else or_eof (read_exact 4 magic.1) >>= λ version.
        if not (eqb (from_le_bytes version.0) graph_version)
        then err (storage "Unsupported version")
        else open_fields file version.1

-- `for _ in 0..count`
unfoldable pub read_words : ℕ → List Byte → Result (List ℕ)
read_words zero bytes = ok []
read_words (suc count) bytes = or_eof (read_exact 4 bytes) >>= λ word.
    read_words count word.1 >>= λ rest. ok (from_le_bytes word.0 ∷ rest)

abbrev pub node_offset : GraphStorage → ℕ → ℕ
node_offset g node_id = header_size + node_id * g.node_size

unfoldable pub get_neighbors : ℕ → GraphStorage → Result (List ℕ)
get_neighbors node_id g = or_eof (read_exact 4 (drop (node_offset g node_id) g.file)) >>= λ count.
    read_words (from_le_bytes count.0) count.1

unfoldable pub update_header : GraphStorage → GraphStorage
update_header g = record g { file = write_at 8 (u64_to_le_bytes g.header.num_nodes) g.file }

unfoldable pub set_neighbors : ℕ → List ℕ → GraphStorage → GraphStorage
set_neighbors node_id neighbors g =
    let written = record g {
      file = write_at (node_offset g node_id) (serialize_node neighbors g.header.max_degree) g.file;
    } in
    if leb g.header.num_nodes node_id
    then update_header (record written { header = record g.header { num_nodes = node_id + 1 } })
    else written
