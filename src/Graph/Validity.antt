-- ===== src/Graph/Validity.antt =====
-- What `is_valid` accepts.
use seekira.Common.{
  ◌≡◌, refl, sym, ◌∙◌, ap, suc, Bool, true, some, List, [], ◌∷◌, arith, Eq, nat_eq, length,
}
use seekira.Common.Dict.{Dict, lookup, contains, lookup-present}
use seekira.Graph.{
  BaseGraphNode, BaseGraph, has_parents, has_children, elem, node_is_valid, nodes_are_valid,
  edges_are_valid, ends_are_nodes, is_valid, get_nodes_without_parents, get_nodes, get_children,
  get_parents,
}
use seekira.Graph.Edges.{has_child, has_parent, has_adj, IsConsistent, set_in}

module _ {K : Type 0} ⦃e : Eq K⦄ where
  no_orphan :
      (one_parent : Bool) (m : Dict K (BaseGraphNode K))
      → nodes_are_valid one_parent m ≡ true
      → get_nodes_without_parents m ≡ []
  unfolding nodes_are_valid get_nodes_without_parents node_is_valid
  no_orphan one_parent [] h = refl
  no_orphan one_parent ((id, n) ∷ m) h = ground (arith, no_orphan one_parent m)

  -- A graph that `is_valid` accepts has no node without parents, so none of the nodes from which a
  -- pipeline starts its branches.
  pub is_valid-without_parents :
      (g : BaseGraph K) → is_valid g ≡ true → get_nodes_without_parents g.nodes ≡ []
  unfolding is_valid
  is_valid-without_parents g h = no_orphan g.settings.one_parent g.nodes (ground arith)

  valid_node :
      (one_parent : Bool) (k : K) (m : Dict K (BaseGraphNode K)) (n : BaseGraphNode K)
      → nodes_are_valid one_parent m ≡ true
      → lookup k m ≡ some n
      → (has_parents n ≡ true)
        × (has_children n ≡ true)
        × (one_parent ≡ true → length n.parents ≡ 1)
  unfolding nodes_are_valid node_is_valid lookup
  valid_node one_parent k [] n h f = cc
  valid_node one_parent k ((id, x) ∷ m) n h f = ground (arith, valid_node one_parent k m n)

  pub ends_of :
      (k : K) (nodes : Dict K (BaseGraphNode K)) (s : List K)
      → ends_are_nodes nodes s ≡ true
      → elem k s ≡ true
      → contains k nodes ≡ true
  unfolding ends_are_nodes elem
  ends_of k nodes [] h f = cc
  ends_of k nodes (x ∷ s) h f = ground (arith, e.equals_iff x k, ends_of k nodes s)

  valid_edge :
      (a b : K) (nodes : Dict K (BaseGraphNode K)) (m : Dict K (List K))
      → edges_are_valid nodes m ≡ true
      → elem b (set_in (lookup a m)) ≡ true
      → (contains a nodes ≡ true) × (contains b nodes ≡ true)
  unfolding edges_are_valid lookup elem
  valid_edge a b nodes [] h f = cc
  valid_edge a b nodes ((from, s) ∷ m) h f =
      ground (arith, e.equals_iff from a, ends_of b nodes s, valid_edge a b nodes m)

  -- `is_valid` is sound: each node has a parent and a child, exactly one parent where the settings ask
  -- for that, and the edges of the matrix join nodes.
  pub is_valid_sound :
      (g : BaseGraph K)
      → is_valid g ≡ true
      → ((k : K) (n : BaseGraphNode K)
          → lookup k g.nodes ≡ some n
          → (has_parents n ≡ true)
            × (has_children n ≡ true)
            × (g.settings.one_parent ≡ true → length n.parents ≡ 1))
        × ((a b : K)
            → has_adj g a b ≡ true
            → (contains a g.nodes ≡ true) × (contains b g.nodes ≡ true))
  unfolding is_valid has_adj
  is_valid_sound g h =
      let nodes_ok : nodes_are_valid g.settings.one_parent g.nodes ≡ true = ground arith in
      let edges_ok : edges_are_valid g.nodes g.adj_mat ≡ true = ground arith in
      (
        (λ k n f. valid_node g.settings.one_parent k g.nodes n nodes_ok f),
        λ a b f. valid_edge a b g.nodes g.adj_mat edges_ok f,
      )

  get_nodes_total :
      (ids : List K) (g : BaseGraph K)
      → ((k : K) → elem k ids ≡ true → contains k g.nodes ≡ true)
      → (ns : List (BaseGraphNode K)) × (get_nodes ids g ≡ some ns) × (length ns ≡ length ids)
  unfolding get_nodes elem
  get_nodes_total [] g h = ([], refl, refl)
  get_nodes_total (id ∷ ids) g h =
      let (n, e') = lookup-present id g.nodes (h id (rw ((e.equals_iff id id).1 refl))) in
      let (ns, f, l) = get_nodes_total ids g (λ k x. h k (ground arith)) in
      (n ∷ ns, rw (e', get_nodes) (rw f), ap suc l)

  child_of :
      (id k : K) (g : BaseGraph K) (n : BaseGraphNode K)
      → lookup id g.nodes ≡ some n
      → elem k n.children ≡ true
      → has_child g id k ≡ true
  unfolding has_child
  child_of id k g n f x = rw f x

  parent_of :
      (id k : K) (g : BaseGraph K) (n : BaseGraphNode K)
      → lookup id g.nodes ≡ some n
      → elem k n.parents ≡ true
      → has_parent g k id ≡ true
  unfolding has_parent
  parent_of id k g n f x = rw f x

  -- In a consistent graph `get_children` and `get_parents` of a node never throw, and give as many nodes
  -- as the node has ids.
  pub get_children_total :
      (id : K) (g : BaseGraph K) (n : BaseGraphNode K)
      → IsConsistent g
      → lookup id g.nodes ≡ some n
      → ((ns : List (BaseGraphNode K)) × (get_children id g ≡ some ns)
          × (length ns ≡ length n.children))
        × ((ns : List (BaseGraphNode K)) × (get_parents id g ≡ some ns)
            × (length ns ≡ length n.parents))
  unfolding get_children get_parents
  get_children_total id g n v e' =
      let (ns, f, l) =
        get_nodes_total n.children g (λ k x. v.to_node id k (child_of id k g n e' x)) in
      let (ps, f', l') =
        get_nodes_total n.parents g
          (λ k x. v.from_node k id (sym (v.as_parent k id) ∙ parent_of id k g n e' x)) in
      ((ns, rw (e', get_children) f, l), (ps, rw (e', get_parents) f', l'))
