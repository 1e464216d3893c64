-- ===== src/Tests/Graphs.antt =====
-- A small graph of named nodes, and the graph's theorems at it.
use seekira.Common.{
  String, ◌≡◌, refl, true, false, some, [], ◌∷◌, length, string_eq, ◌==◌, if◌then◌else◌,
}
use seekira.Common.Dict.{lookup, insert, contains}
use seekira.Graph.{
  BaseGraphNode, BaseGraph, elem, add_node, insert_adj, link, add_edge, is_empty, has_parents,
  has_children, is_valid, node_is_valid, nodes_are_valid, ends_are_nodes, edges_are_valid,
}
use seekira.Graph.Edges.{has_child, has_parent, has_adj, IsConsistent}
use seekira.Graph.Insertion.{Adds, add_edge-Adds, add_node-IsConsistent}
use seekira.Graph.Validity.{is_valid_sound}

abbrev empty_graph : BaseGraph String
empty_graph = record {
  settings = record { has_loops = false; one_parent = true };
  nodes = [];
  adj_mat = [];
}

abbrev lonely : BaseGraphNode String
lonely = record { parents = []; children = [] }

abbrev one_node : BaseGraph String
one_node = record empty_graph { nodes = ("input_node", lonely) ∷ [] }

abbrev two_nodes : BaseGraph String
two_nodes = record empty_graph { nodes = ("input_node", lonely) ∷ ("resizer", lonely) ∷ [] }

-- Two nodes, each the parent of the other.
abbrev ring : BaseGraph String
ring = record empty_graph {
  nodes =
      ("input_node", record { parents = "resizer" ∷ []; children = "resizer" ∷ [] })
      ∷ ("resizer", record { parents = "input_node" ∷ []; children = "input_node" ∷ [] })
      ∷ [];
  adj_mat = ("input_node", "resizer" ∷ []) ∷ ("resizer", "input_node" ∷ []) ∷ [];
}

empty_graph-IsConsistent : IsConsistent empty_graph
unfolding has_child has_parent has_adj elem lookup
empty_graph-IsConsistent = record {
  as_parent = λ a b. refl;
  as_adj = λ a b. refl;
  from_node = λ a b h. cc;
  to_node = λ a b h. cc;
  no_loop = λ a. refl;
}

one_node-IsConsistent :
    IsConsistent one_node
    × ((a b : String) → has_child one_node a b ≡ has_child empty_graph a b)
    × ((k : String)
        → contains k one_node.nodes
          ≡ (if "input_node" == k then true else contains k empty_graph.nodes))
unfolding add_node insert contains
one_node-IsConsistent =
    add_node-IsConsistent "input_node" empty_graph one_node empty_graph-IsConsistent refl

two_nodes-IsConsistent : IsConsistent two_nodes
unfolding add_node insert contains
two_nodes-IsConsistent =
    (add_node-IsConsistent "resizer" one_node two_nodes one_node-IsConsistent.0 refl).0

add_edge-Adds_example :
    Adds "input_node" "resizer" two_nodes (add_edge "input_node" "resizer" two_nodes)
add_edge-Adds_example = add_edge-Adds "input_node" "resizer" two_nodes two_nodes-IsConsistent

is_valid_sound_example :
    ((k : String) (n : BaseGraphNode String)
      → lookup k ring.nodes ≡ some n
      → (has_parents n ≡ true) × (has_children n ≡ true) × (true ≡ true → length n.parents ≡ 1))
    × ((a b : String)
        → has_adj ring a b ≡ true
        → (contains a ring.nodes ≡ true) × (contains b ring.nodes ≡ true))
unfolding is_valid nodes_are_valid node_is_valid edges_are_valid ends_are_nodes has_parents
    has_children is_empty contains
is_valid_sound_example = is_valid_sound ring refl

abbrev input : BaseGraphNode String
input = record lonely { children = "resizer" ∷ [] }

-- The two nodes after `add_edge`.
abbrev joined : BaseGraph String
joined = record two_nodes {
  nodes = ("input_node", input) ∷ ("resizer", record lonely { parents = "input_node" ∷ [] }) ∷ [];
  adj_mat = ("input_node", "resizer" ∷ []) ∷ [];
}

joined-IsConsistent : IsConsistent joined
unfolding add_edge link insert_adj insert lookup elem
joined-IsConsistent = add_edge-Adds_example.4
