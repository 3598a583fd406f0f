-- ===== src/Examples/DiskAnn.antt =====
-- A graph file of diskann with two records.
use zapybase.Prelude.{ℕ, ◌≡◌, max, List, [], ◌∷◌, arith, take}
use zapybase.Error.{ok}
use zapybase.DiskAnn.{GraphStorage, create, open_graph, get_neighbors, set_neighbors}
use zapybase.DiskAnn.Nodes.{IsGraphFile, HasNode}
use zapybase.DiskAnn.Graph.{create-IsGraphFile}
use zapybase.DiskAnn.Update.{
  set_neighbors-IsGraphFile, set_neighbors-HasNode, set_neighbors-open_graph,
}

abbrev three : List ℕ
three = 5 ∷ 6 ∷ 7 ∷ []

abbrev new_file : GraphStorage
new_file = create 2 0

new_file-IsGraphFile : IsGraphFile new_file
new_file-IsGraphFile = create-IsGraphFile 2 0 (omega arith) (omega arith)

abbrev one : GraphStorage
one = set_neighbors 0 three new_file

one-IsGraphFile : IsGraphFile one
one-IsGraphFile = set_neighbors-IsGraphFile new_file 0 three new_file-IsGraphFile (omega arith)

one-HasNode : HasNode one 0 three
one-HasNode =
    set_neighbors-HasNode new_file 0 three new_file-IsGraphFile (omega arith)
      (omega arith, (omega arith, (omega arith, tt)))

set_neighbors-open_graph_example :
    let g' = set_neighbors 2 (1 ∷ []) one in
    (get_neighbors 2 g' ≡ ok (take one.header.max_degree (1 ∷ [])))
    × (get_neighbors 0 g' ≡ get_neighbors 0 one)
    × (open_graph g'.file ≡ ok g')
    × (g'.header.num_nodes ≡ max one.header.num_nodes 3)
    × IsGraphFile g'
set_neighbors-open_graph_example =
    set_neighbors-open_graph one 2 (1 ∷ []) one-IsGraphFile (omega arith) 0 three (omega arith, tt)
      (λ e. omega arith) one-HasNode
