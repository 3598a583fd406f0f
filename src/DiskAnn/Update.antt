-- ===== src/DiskAnn/Update.antt =====
-- `set_neighbors` of the graph file of diskann, with the header that it brings up to date.
use zapybase.Prelude.{
  ℕ, ◌+◌, ◌^◌, ◌≤◌, ◌<◌, ◌≡◌, refl, ap, sym, ◌∙◌, ◌≢◌, List, arith, length, take, leb, Bool-cases,
  inl, inr, max,
}
use zapybase.Prelude.Slices.{slice}
use zapybase.Prelude.Files.{
  write_at, slice-write_at, slice-write_at_before, slice-write_at_after, length-write_at,
}
use zapybase.Error.{ok}
use zapybase.Wal.Bytes.{Byte}
use zapybase.DiskAnn.{
  GraphStorage, serialize_node, u64_to_le_bytes, open_graph, node_offset, get_neighbors,
  update_header, set_neighbors,
}
use zapybase.DiskAnn.Nodes.{AllWords, IsGraphFile, HasNode, get_neighbors-HasNode}
use zapybase.DiskAnn.Graph.{
  length-u64, open_graph-IsGraphFile, written, written_stored, written_other, written_head,
}

module _ (g : GraphStorage) (node_id : ℕ) (neighbors : List ℕ) (i : IsGraphFile g)
    (fits : node_id + 1 < 2 ^ 64) where
  abbrev first : List Byte
  first = written node_id neighbors g

  abbrev second : List Byte
  second = write_at 8 (u64_to_le_bytes (node_id + 1)) first

  -- the write of the header leaves the records alone
  records : (start n : ℕ) → 16 ≤ start → slice second start n ≡ slice first start n
  records start n h =
      slice-write_at_after 8 start n (u64_to_le_bytes (node_id + 1)) first
        (omega (arith, h, length-u64 (node_id + 1)))

  first_long : length g.file ≤ length first
  first_long = omega (
    arith,
    length-write_at (node_offset g node_id) (serialize_node neighbors g.header.max_degree) g.file,
  )

  pub set_neighbors-IsGraphFile : IsGraphFile (set_neighbors node_id neighbors g)
  unfolding set_neighbors update_header
  set_neighbors-IsGraphFile =
      let long = i.long in
      let head =
        λ (start n : ℕ) (h : start + n ≤ 24). written_head g node_id neighbors start n i h in
      elim (Bool-cases (leb g.header.num_nodes node_id)) [
        | inr known ↦ rw known (record {
          node_size = i.node_size;
          max_degree = i.max_degree;
          entry_point = i.entry_point;
          num_nodes = i.num_nodes;
          long = omega (arith, first_long, long);
          start = head 0 8 (omega arith) ∙ i.start;
          count = head 8 8 (omega arith) ∙ i.count;
          fields = head 16 8 (omega arith) ∙ i.fields;
        })
        | inl new ↦ rw new (record {
          node_size = i.node_size;
          max_degree = i.max_degree;
          entry_point = i.entry_point;
          num_nodes = fits;
          long =
              omega
                (arith, first_long, long, length-write_at 8 (u64_to_le_bytes (node_id + 1)) first);
          start =
              slice-write_at_before 8 0 8 (u64_to_le_bytes (node_id + 1)) first (omega arith)
                (omega (arith, first_long, long))
              ∙ head 0 8 (omega arith)
              ∙ i.start;
          count =
              slice-write_at 8 8 (u64_to_le_bytes (node_id + 1)) first
                (sym (length-u64 (node_id + 1)));
          fields = records 16 8 (omega arith) ∙ head 16 8 (omega arith) ∙ i.fields;
        })
      ]

  pub set_neighbors-HasNode :
      AllWords neighbors → HasNode (set_neighbors node_id neighbors g) node_id neighbors
  unfolding set_neighbors update_header
  set_neighbors-HasNode words =
      let at = written_stored g node_id neighbors i in
      elim (Bool-cases (leb g.header.num_nodes node_id)) [
        | inr known ↦ rw known (record { stored = at; words = words })
        | inl new ↦ rw new (record {
          stored = records (node_offset g node_id) g.node_size (omega arith) ∙ at;
          words = words;
        })
      ]

  set_neighbors_others :
      (other : ℕ) (others : List ℕ)
      → node_id ≢ other
      → HasNode g other others
      → HasNode (set_neighbors node_id neighbors g) other others
  unfolding set_neighbors update_header
  set_neighbors_others other others differ has =
      let at = written_other g node_id other neighbors others i differ has in
      elim (Bool-cases (leb g.header.num_nodes node_id)) [
        | inr known ↦ rw known (record { stored = at; words = has.words })
        | inl new ↦ rw new (record {
          stored = records (node_offset g other) g.node_size (omega arith) ∙ at;
          words = has.words;
        })
      ]

  set_neighbors_header :
      ((set_neighbors node_id neighbors g).header.max_degree ≡ g.header.max_degree)
      × ((set_neighbors node_id neighbors g).header.num_nodes
          ≡ max g.header.num_nodes (node_id + 1))
  unfolding set_neighbors update_header
  set_neighbors_header = elim (Bool-cases (leb g.header.num_nodes node_id)) [
    | inr known ↦ rw known (refl, ground (arith, known))
    | inl new ↦ rw new (refl, ground (arith, new))
  ]

  -- After the neighbors of one node are set in a graph file, reading that node gives them, cut to the
  -- maximum degree; reading any other node whose record was in the file gives what it gave before;
  -- and opening the file again gives this very storage, whose header counts the node. All ids and the
  -- degree are 32-bit words.
  pub set_neighbors-open_graph :
      (other : ℕ) (others : List ℕ)
      → AllWords neighbors
      → node_id ≢ other
      → HasNode g other others
      → let g' = set_neighbors node_id neighbors g in
        (get_neighbors node_id g' ≡ ok (take g.header.max_degree neighbors))
        × (get_neighbors other g' ≡ get_neighbors other g)
        × (open_graph g'.file ≡ ok g')
        × (g'.header.num_nodes ≡ max g.header.num_nodes (node_id + 1))
        × IsGraphFile g'
  set_neighbors-open_graph other others words differ has =
      let g' = set_neighbors node_id neighbors g in
      let i' = set_neighbors-IsGraphFile in
      let (degree, nodes) = set_neighbors_header in
      let cut = λ (ns : List ℕ). ap (λ d. ok (take d ns)) degree in
      (
        get_neighbors-HasNode g' node_id neighbors i'.max_degree (set_neighbors-HasNode words)
            ∙ cut neighbors,
        get_neighbors-HasNode g' other others i'.max_degree
              (set_neighbors_others other others differ has)
            ∙ cut others
            ∙ sym (get_neighbors-HasNode g other others i.max_degree has),
        open_graph-IsGraphFile g' i',
        nodes,
        i',
      )
