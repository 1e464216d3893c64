-- ===== src/Graph.antt =====
-- src/core/graph: graph.cpp, graph_utils.cpp, graph.hpp, node.hpp and graph_settings.hpp. A node is the
-- value behind its shared pointer, so the model has no node that stands under two ids. `none` is a
-- failed STEP_ASSERT, which throws before anything is changed.
pub mod Edges
pub mod Insertion
pub mod Validity
use seekira.Common.{
  Bool, true, false, not, ◌&&◌, ◌||◌, Option, none, some, List, [], ◌∷◌, ◌++◌, length, ltb, Eq,
  ◌==◌, nat_eq, if◌then◌else◌,
}
use seekira.Common.Dict.{Dict, lookup, insert, contains}

pub record BaseGraphNode (K : Type 0) : Type 0 where
  pub parents : List K
  pub children : List K

pub record GraphSettings : Type 0 where
  pub has_loops : Bool
  pub one_parent : Bool

pub record BaseGraph (K : Type 0) : Type 0 where
  pub settings : GraphSettings
  pub nodes : Dict K (BaseGraphNode K)
  pub adj_mat : Dict K (List K)

unfoldable pub is_empty {ℓ} : {A : Type ℓ} → List A → Bool
is_empty [] = true
is_empty (x ∷ xs) = false

unfoldable pub has_parents : {K : Type 0} → BaseGraphNode K → Bool
unfolding is_empty
has_parents n = not (is_empty n.parents)

unfoldable pub has_children : {K : Type 0} → BaseGraphNode K → Bool
unfolding is_empty
has_children n = not (is_empty n.children)

module _ {K : Type 0} ⦃e : Eq K⦄ where
  unfoldable pub elem : K → List K → Bool
  elem k [] = false
  elem k (j ∷ js) = j == k || elem k js

  unfoldable pub add_node : K → BaseGraphNode K → BaseGraph K → Option (BaseGraph K)
  add_node id node g =
      if contains id g.nodes then none else some (record g { nodes = insert id node g.nodes })

  -- `m_adj_mat[from].insert(to)`, on a set.
  unfoldable pub insert_adj : K → K → Dict K (List K) → Dict K (List K)
  unfolding elem
  insert_adj from to m = elim (lookup from m) [
    | none ↦ insert from (to ∷ []) m
    | some s ↦ insert from (if elem to s then s else s ++ to ∷ []) m
  ]

  -- Both ends are looked up before either is changed, and they are different nodes.
  unfoldable pub link : K → K → BaseGraphNode K → BaseGraphNode K → BaseGraph K → BaseGraph K
  unfolding insert_adj
  link from to node_from node_to g = record g {
    nodes =
        insert to (record node_to { parents = node_to.parents ++ from ∷ [] })
          (insert from (record node_from { children = node_from.children ++ to ∷ [] }) g.nodes);
    adj_mat = insert_adj from to g.adj_mat;
  }

  unfoldable pub add_edge : K → K → BaseGraph K → Option (BaseGraph K)
  unfolding link elem
  add_edge from to g = if from == to then none else elim (lookup from g.nodes) [
    | none ↦ none
    | some node_from ↦ elim (lookup to g.nodes) [
      | none ↦ none
      | some node_to ↦
          if elem to node_from.children
          then none
          else if elem from node_to.parents
          then none
          else some (link from to node_from node_to g)
    ]
  ]

  unfoldable pub get_node : K → BaseGraph K → Option (BaseGraphNode K)
  get_node id g = lookup id g.nodes

  unfoldable pub get_nodes : List K → BaseGraph K → Option (List (BaseGraphNode K))
  unfolding get_node
  get_nodes [] g = some []
  get_nodes (id ∷ ids) g =
      let rest = get_nodes ids g in
      elim (get_node id g) [
        | none ↦ none
        | some n ↦ elim rest [ none ↦ none | some ns ↦ some (n ∷ ns) ]
      ]

  unfoldable pub get_parents : K → BaseGraph K → Option (List (BaseGraphNode K))
  unfolding get_nodes
  get_parents id g = elim (lookup id g.nodes) [ none ↦ none | some n ↦ get_nodes n.parents g ]

  unfoldable pub get_children : K → BaseGraph K → Option (List (BaseGraphNode K))
  unfolding get_nodes
  get_children id g = elim (lookup id g.nodes) [ none ↦ none | some n ↦ get_nodes n.children g ]

  -- The two loops of `is_valid`.
  unfoldable pub node_is_valid : Bool → BaseGraphNode K → Bool
  unfolding has_parents has_children
  node_is_valid one_parent n =
      if not (has_parents n) || not (has_children n)
      then false
      else if one_parent && not (length n.parents == 1)
      then false
      else true

  unfoldable pub nodes_are_valid : Bool → Dict K (BaseGraphNode K) → Bool
  unfolding node_is_valid
  nodes_are_valid one_parent [] = true
  nodes_are_valid one_parent ((id, n) ∷ m) =
      node_is_valid one_parent n && nodes_are_valid one_parent m

  unfoldable pub ends_are_nodes : Dict K (BaseGraphNode K) → List K → Bool
  ends_are_nodes nodes [] = true
  ends_are_nodes nodes (to ∷ s) = contains to nodes && ends_are_nodes nodes s

  unfoldable pub edges_are_valid : Dict K (BaseGraphNode K) → Dict K (List K) → Bool
  unfolding ends_are_nodes
  edges_are_valid nodes [] = true
  edges_are_valid nodes ((from, s) ∷ m) =
      contains from nodes && ends_are_nodes nodes s && edges_are_valid nodes m

  unfoldable pub is_valid : BaseGraph K → Bool
  unfolding nodes_are_valid edges_are_valid
  is_valid g = nodes_are_valid g.settings.one_parent g.nodes && edges_are_valid g.nodes g.adj_mat

module _ {K : Type 0} where
  unfoldable pub get_all_ids : Dict K (BaseGraphNode K) → List K
  get_all_ids [] = []
  get_all_ids ((id, n) ∷ m) = id ∷ get_all_ids m

  unfoldable pub get_nodes_without_parents : Dict K (BaseGraphNode K) → List K
  unfolding has_parents
  get_nodes_without_parents [] = []
  get_nodes_without_parents ((id, n) ∷ m) =
      let rest = get_nodes_without_parents m in if not (has_parents n) then id ∷ rest else rest

  -- Despite its name, the nodes with more than one child.
  unfoldable pub get_nodes_with_children : Dict K (BaseGraphNode K) → List K
  get_nodes_with_children [] = []
  get_nodes_with_children ((id, n) ∷ m) =
      let rest = get_nodes_with_children m in if ltb 1 (length n.children) then id ∷ rest else rest
