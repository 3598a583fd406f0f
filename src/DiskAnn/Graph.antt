-- ===== src/DiskAnn/Graph.antt =====
-- `set_neighbors`, `get_neighbors` and `open` of the graph file of diskann together.
use zapybase.Prelude.{
  ℕ, ◌+◌, ◌*◌, ◌/◌, ◌%◌, ◌^◌, ◌≤◌, ◌<◌, ◌≡◌, refl, ap, sym, ◌∙◌, ◌≢◌, ◌⊎◌, List, ◌++◌, arith,
  length, length-take, length-drop, drop, leb, Bool-cases, inl, inr,
}
use zapybase.Prelude.Slices.{slice, take-append_self, drop-append_self}
use zapybase.Prelude.Files.{
  drop-drop, write_at, slice-write_at, slice-write_at_before, slice-write_at_after,
}
use zapybase.Error.{ok}
use zapybase.Wal.Bytes.{
  Byte, to_le_bytes, read_exact, bytes_eq, from_le_bytes-to_le_bytes, length-to_le_bytes,
  read_exact-append,
}
use zapybase.DiskAnn.{
  GraphStorage, graph_magic, graph_version, node_size_bytes, serialize_node, u64_to_le_bytes,
  u64_from_le_bytes, header_bytes, create, open_fields, open_graph, node_offset,
}
use zapybase.DiskAnn.Nodes.{IsGraphFile, HasNode, append_assoc, drop-slice, length-serialize_node}

u64_round : (n : ℕ) → n < 2 ^ 64 → u64_from_le_bytes (u64_to_le_bytes n) ≡ n
unfolding u64_to_le_bytes u64_from_le_bytes
u64_round n h =
    let low = to_le_bytes (n % 2 ^ 32) in
    let high = to_le_bytes (n / 2 ^ 32) in
    let four = length-to_le_bytes (n % 2 ^ 32) in
    rw
      (
        take-append_self low high 4 (sym four),
        drop-append_self low high 4 (sym four),
        from_le_bytes-to_le_bytes (n % 2 ^ 32) (omega arith),
        from_le_bytes-to_le_bytes (n / 2 ^ 32) (omega arith),
      )
      (omega arith)

pub length-u64 : (n : ℕ) → length (u64_to_le_bytes n) ≡ 8
unfolding u64_to_le_bytes to_le_bytes
length-u64 n = refl

-- Opening a graph file gives the header and the file.
pub open_graph-IsGraphFile : (g : GraphStorage) → IsGraphFile g → open_graph g.file ≡ ok g
unfolding open_graph open_fields bytes_eq
open_graph-IsGraphFile g i =
    let h = g.header in
    let version = to_le_bytes graph_version in
    let nodes = u64_to_le_bytes h.num_nodes in
    let degree = to_le_bytes h.max_degree in
    let entry = to_le_bytes h.entry_point in
    let rest = drop 8 (drop 16 g.file) in
    let third : drop 16 g.file ≡ degree ++ (entry ++ rest) =
      drop-slice g.file (degree ++ entry) 16 8 i.fields ∙ append_assoc degree entry rest in
    let second : drop 8 g.file ≡ nodes ++ drop 16 g.file =
      drop-slice g.file nodes 8 8 i.count ∙ ap (λ t. nodes ++ t) (drop-drop 8 8 16 g.file refl) in
    let first : g.file ≡ graph_magic ++ (version ++ drop 8 g.file) =
      drop-slice g.file (graph_magic ++ version) 0 8 i.start
      ∙ append_assoc graph_magic version (drop 8 g.file) in
    let four = length-to_le_bytes in
    let eight : 8 ≡ length nodes = sym (length-u64 h.num_nodes) in
    rw
      (
        ap (read_exact 4) first ∙ read_exact-append 4 graph_magic (version ++ drop 8 g.file) refl,
        read_exact-append 4 version (drop 8 g.file) (sym (four graph_version)),
        from_le_bytes-to_le_bytes graph_version (omega arith),
        ap (read_exact 8) second ∙ read_exact-append 8 nodes (drop 16 g.file) eight,
        ap (read_exact 4) third
            ∙ read_exact-append 4 degree (entry ++ rest) (sym (four h.max_degree)),
        read_exact-append 4 entry rest (sym (four h.entry_point)),
        u64_round h.num_nodes i.num_nodes,
        from_le_bytes-to_le_bytes h.max_degree i.max_degree,
        from_le_bytes-to_le_bytes h.entry_point i.entry_point,
        ← i.node_size,
      )
      refl

-- A new graph file.
pub create-IsGraphFile :
    (max_degree entry_point : ℕ)
    → max_degree < 2 ^ 32
    → entry_point < 2 ^ 32
    → IsGraphFile (create max_degree entry_point)
unfolding create header_bytes u64_to_le_bytes to_le_bytes
create-IsGraphFile max_degree entry_point h k = record {
  node_size = refl;
  max_degree = h;
  entry_point = k;
  num_nodes = omega arith;
  long = omega arith;
  start = refl;
  count = refl;
  fields = refl;
}

-- A record is in the file, behind the header.
record_long :
    (g : GraphStorage) (node_id : ℕ) (neighbors : List ℕ)
    → IsGraphFile g
    → HasNode g node_id neighbors
    → node_offset g node_id + g.node_size ≤ length g.file
unfolding node_size_bytes
record_long g node_id neighbors i has =
    let size = i.node_size in
    let len = ap length has.stored in
    omega (
      arith,
      size,
      len,
      length-serialize_node neighbors g.header.max_degree,
      length-take g.node_size (drop (node_offset g node_id) g.file),
      length-drop (node_offset g node_id) g.file,
    )

-- records of different nodes do not overlap
apart : (a b size : ℕ) → a ≢ b → (a * size + size ≤ b * size) ⊎ (b * size + size ≤ a * size)
apart a b size h = elim (Bool-cases (leb a b)) [
  | inl low ↦ let less : a + 1 ≤ b = ground (arith, low, h) in inl (grind arith)
  | inr high ↦ let less : b + 1 ≤ a = ground (arith, high) in inr (grind arith)
]

-- what `set_neighbors` writes first
abbrev pub written : ℕ → List ℕ → GraphStorage → List Byte
written node_id neighbors g =
    write_at (node_offset g node_id) (serialize_node neighbors g.header.max_degree) g.file

pub written_stored :
    (g : GraphStorage) (node_id : ℕ) (neighbors : List ℕ)
    → IsGraphFile g
    → slice (written node_id neighbors g) (node_offset g node_id) g.node_size
      ≡ serialize_node neighbors g.header.max_degree
written_stored g node_id neighbors i =
    slice-write_at (node_offset g node_id) g.node_size
      (serialize_node neighbors g.header.max_degree) g.file
      (i.node_size ∙ sym (length-serialize_node neighbors g.header.max_degree))

pub written_other :
    (g : GraphStorage) (node_id other : ℕ) (neighbors others : List ℕ)
    → IsGraphFile g
    → node_id ≢ other
    → HasNode g other others
    → slice (written node_id neighbors g) (node_offset g other) g.node_size
      ≡ serialize_node others g.header.max_degree
written_other g node_id other neighbors others i differ has =
    let bytes = serialize_node neighbors g.header.max_degree in
    let len = length-serialize_node neighbors g.header.max_degree in
    let size = i.node_size in
    let long = record_long g other others i has in
    elim (apart node_id other g.node_size differ) [
      | inl behind ↦
          slice-write_at_after (node_offset g node_id) (node_offset g other) g.node_size bytes
            g.file (omega (arith, behind, len, size))
          ∙ has.stored
      | inr before ↦
          slice-write_at_before (node_offset g node_id) (node_offset g other) g.node_size bytes
            g.file (omega (arith, before)) long
          ∙ has.stored
    ]

-- a part of the header, under the write of a record
pub written_head :
    (g : GraphStorage) (node_id : ℕ) (neighbors : List ℕ) (start n : ℕ)
    → IsGraphFile g
    → start + n ≤ 24
    → slice (written node_id neighbors g) start n ≡ slice g.file start n
written_head g node_id neighbors start n i h =
    let long = i.long in
    slice-write_at_before (node_offset g node_id) start n
      (serialize_node neighbors g.header.max_degree) g.file (omega (arith, h))
      (omega (arith, h, long))
