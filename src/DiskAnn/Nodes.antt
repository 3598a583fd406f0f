-- ===== src/DiskAnn/Nodes.antt =====
-- The records of the graph file of diskann: what is written is read, and other records stay.
use zapybase.Prelude.{
  All, ℕ, ◌-◌, ◌*◌, ◌^◌, ◌≤◌, ◌<◌, ◌≡◌, refl, ap, sym, ◌∙◌, List, [], ◌∷◌, ◌++◌, arith, length,
  length-append, length-take, length-replicate, take, drop, take-All, replicate, min,
  take-append-drop,
}
use zapybase.Prelude.Slices.{slice}
use zapybase.Error.{ok}
use zapybase.Wal.Bytes.{
  Byte, to_le_bytes, from_le_bytes, from_le_bytes-to_le_bytes, length-to_le_bytes,
  read_exact-append,
}
use zapybase.DiskAnn.{
  GraphStorage, graph_magic, graph_version, node_size_bytes, words_to_bytes, serialize_node,
  u64_to_le_bytes, read_words, node_offset, get_neighbors,
}

abbrev pub AllWords : List ℕ → Type 0
AllWords ns = All (λ n. n < 2 ^ 32) ns

length-words_to_bytes : (ns : List ℕ) → length (words_to_bytes ns) ≡ 4 * length ns
unfolding words_to_bytes
length-words_to_bytes [] = refl
length-words_to_bytes (n ∷ ns) = omega (
  arith,
  length-append (to_le_bytes n) (words_to_bytes ns),
  length-to_le_bytes n,
  length-words_to_bytes ns,
)

pub append_assoc : (xs ys zs : List ℕ) → (xs ++ ys) ++ zs ≡ xs ++ (ys ++ zs)
append_assoc [] ys zs = refl
append_assoc (x ∷ xs) ys zs = ap (λ t. x ∷ t) (append_assoc xs ys zs)

-- Words are read back as they were written.
read_words-words_to_bytes :
    (ns : List ℕ) (rest : List Byte)
    → AllWords ns
    → read_words (length ns) (words_to_bytes ns ++ rest) ≡ ok ns
unfolding read_words words_to_bytes
read_words-words_to_bytes [] rest a = refl
read_words-words_to_bytes (n ∷ ns) rest (h, a) = rw (
  append_assoc (to_le_bytes n) (words_to_bytes ns) rest,
  read_exact-append 4 (to_le_bytes n) (words_to_bytes ns ++ rest) (sym (length-to_le_bytes n)),
  read_words-words_to_bytes ns rest a,
  from_le_bytes-to_le_bytes n h,
)

pub length-serialize_node :
    (ns : List ℕ) (max_degree : ℕ)
    → length (serialize_node ns max_degree) ≡ node_size_bytes max_degree
unfolding serialize_node node_size_bytes
length-serialize_node ns max_degree =
    let kept = words_to_bytes (take max_degree ns) in
    let pad = words_to_bytes (replicate (max_degree - length ns) 0) in
    let zeros = length-replicate {A = ℕ} (max_degree - length ns) 0 in
    omega (
      arith,
      length-append (to_le_bytes (min (length ns) max_degree)) (kept ++ pad),
      length-to_le_bytes (min (length ns) max_degree),
      length-append kept pad,
      length-words_to_bytes (take max_degree ns),
      length-words_to_bytes (replicate (max_degree - length ns) 0),
      length-take max_degree ns,
      zeros,
    )

-- what the file has where a record was
pub drop-slice :
    (xs bytes : List ℕ) (start n : ℕ)
    → slice xs start n ≡ bytes
    → drop start xs ≡ bytes ++ drop n (drop start xs)
drop-slice xs bytes start n h =
    sym (take-append-drop n (drop start xs)) ∙ ap (λ t. t ++ drop n (drop start xs)) h

-- The graph file agrees with the header that is kept in memory.
pub record IsGraphFile (g : GraphStorage) : Type 0 where
  pub node_size : g.node_size ≡ node_size_bytes g.header.max_degree
  pub max_degree : g.header.max_degree < 2 ^ 32
  pub entry_point : g.header.entry_point < 2 ^ 32
  pub num_nodes : g.header.num_nodes < 2 ^ 64
  pub long : 24 ≤ length g.file
  pub start : slice g.file 0 8 ≡ graph_magic ++ to_le_bytes graph_version
  pub count : slice g.file 8 8 ≡ u64_to_le_bytes g.header.num_nodes
  pub fields :
      slice g.file 16 8 ≡ to_le_bytes g.header.max_degree ++ to_le_bytes g.header.entry_point

-- the record of a node is that of a list of neighbors
pub record HasNode (g : GraphStorage) (node_id : ℕ) (neighbors : List ℕ) : Type 0 where
  pub stored :
      slice g.file (node_offset g node_id) g.node_size
      ≡ serialize_node neighbors g.header.max_degree
  pub words : AllWords neighbors

take-AllWords : (n : ℕ) (ns : List ℕ) → AllWords ns → AllWords (take n ns)
take-AllWords n ns a = take-All (λ k. k < 2 ^ 32) n ns a

-- Reading the record gives the neighbors, cut to the maximum degree.
pub get_neighbors-HasNode :
    (g : GraphStorage) (node_id : ℕ) (neighbors : List ℕ)
    → g.header.max_degree < 2 ^ 32
    → HasNode g node_id neighbors
    → get_neighbors node_id g ≡ ok (take g.header.max_degree neighbors)
unfolding get_neighbors serialize_node
get_neighbors-HasNode g node_id neighbors small has =
    let degree = g.header.max_degree in
    let offset = node_offset g node_id in
    let count = min (length neighbors) degree in
    let kept = take degree neighbors in
    let pad = words_to_bytes (replicate (degree - length neighbors) 0) in
    let rest = drop g.node_size (drop offset g.file) in
    let behind = words_to_bytes kept ++ (pad ++ rest) in
    let at : drop offset g.file ≡ to_le_bytes count ++ behind =
      drop-slice g.file (serialize_node neighbors degree) offset g.node_size has.stored
      ∙ append_assoc (to_le_bytes count) (words_to_bytes kept ++ pad) rest
      ∙ ap (λ t. to_le_bytes count ++ t) (append_assoc (words_to_bytes kept) pad rest) in
    let number : from_le_bytes (to_le_bytes count) ≡ length kept =
      from_le_bytes-to_le_bytes count (omega arith) ∙ omega (arith, length-take degree neighbors) in
    rw (at, read_exact-append 4 (to_le_bytes count) behind (sym (length-to_le_bytes count)), number)
      (read_words-words_to_bytes kept (pad ++ rest) (take-AllWords degree neighbors has.words))
