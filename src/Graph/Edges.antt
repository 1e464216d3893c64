-- ===== src/Graph/Edges.antt =====
-- The edges of a graph, seen from the three places that keep them: the children of a node, the parents
-- of a node, and the adjacency matrix.
use seekira.Common.{
  ◌≡◌, inl, inr, Bool, true, false, ◌&&◌, ◌||◌, Option, none, some, List, [], ◌∷◌, ◌++◌, arith, Eq,
  ◌==◌, if◌then◌else◌, Option-cases,
}
use seekira.Common.Dict.{Dict, lookup, contains, lookup-insert, contains-insert, contains-lookup}
use seekira.Graph.{BaseGraphNode, BaseGraph, elem, insert_adj, link, add_edge}

module _ {K : Type 0} ⦃e : Eq K⦄ where
  abbrev pub children_in : Option (BaseGraphNode K) → List K
  children_in none = []
  children_in (some n) = n.children

  abbrev pub parents_in : Option (BaseGraphNode K) → List K
  parents_in none = []
  parents_in (some n) = n.parents

  abbrev pub set_in : Option (List K) → List K
  set_in none = []
  set_in (some s) = s

  -- The edge from `a` to `b`, by the children of `a`, by the parents of `b`, and by the matrix.
  unfoldable pub has_child : BaseGraph K → K → K → Bool
  has_child g a b = elem b (children_in (lookup a g.nodes))

  unfoldable pub has_parent : BaseGraph K → K → K → Bool
  has_parent g a b = elem a (parents_in (lookup b g.nodes))

  unfoldable pub has_adj : BaseGraph K → K → K → Bool
  has_adj g a b = elem b (set_in (lookup a g.adj_mat))

  elem-snoc : (k y : K) (xs : List K) → elem k (xs ++ y ∷ []) ≡ (elem k xs || y == k)
  unfolding elem
  elem-snoc k y [] = ground arith
  elem-snoc k y (x ∷ xs) = ground (arith, elem-snoc k y xs)

  -- What a success of `add_edge` rests on.
  pub record Linked (from to : K) (g g' : BaseGraph K) : Type 0 where
    pub node_from : BaseGraphNode K
    pub node_to : BaseGraphNode K
    pub was_from : lookup from g.nodes ≡ some node_from
    pub was_to : lookup to g.nodes ≡ some node_to
    pub apart : (from == to) ≡ false
    pub no_child : elem to node_from.children ≡ false
    pub no_parent : elem from node_to.parents ≡ false
    pub result : g' ≡ link from to node_from node_to g

  pub add_edge-Linked :
      (from to : K) (g g' : BaseGraph K) → add_edge from to g ≡ some g' → Linked from to g g'
  unfolding add_edge
  add_edge-Linked from to g g' h = elim (Option-cases (lookup from g.nodes)) [
    | inl missing ↦ ground arith
    | inr (nf, ef) ↦ elim (Option-cases (lookup to g.nodes)) [
      | inl missing ↦ ground arith
      | inr (nt, et) ↦ record {
        node_from = nf;
        node_to = nt;
        was_from = ef;
        was_to = et;
        apart = ground arith;
        no_child = ground arith;
        no_parent = ground arith;
        result = ground arith;
      }
    ]
  ]

  lookup-link :
      (from to k : K) (nf nt : BaseGraphNode K) (g : BaseGraph K)
      → lookup k (link from to nf nt g).nodes ≡ (
          if to == k
          then some (record nt { parents = nt.parents ++ from ∷ [] })
          else if from == k
          then some (record nf { children = nf.children ++ to ∷ [] })
          else lookup k g.nodes)
  unfolding link
  lookup-link from to k nf nt g = simp lookup-insert

  pub has_child-link :
      (from to a b : K) (g g' : BaseGraph K)
      → Linked from to g g'
      → has_child g' a b ≡ ((from == a && to == b) || has_child g a b)
  unfolding has_child
  has_child-link from to a b g g' l =
      rw (l.result, lookup-link from to a l.node_from l.node_to g)
        (ground (
          arith,
          e.equals_iff to a,
          e.equals_iff from a,
          e.equals_iff from to,
          e.equals_iff to b,
          l.apart,
          l.was_from,
          l.was_to,
          elem-snoc b to l.node_from.children,
        ))

  pub has_parent-link :
      (from to a b : K) (g g' : BaseGraph K)
      → Linked from to g g'
      → has_parent g' a b ≡ ((from == a && to == b) || has_parent g a b)
  unfolding has_parent
  has_parent-link from to a b g g' l =
      rw (l.result, lookup-link from to b l.node_from l.node_to g)
        (ground (
          arith,
          e.equals_iff to b,
          e.equals_iff from b,
          e.equals_iff from to,
          e.equals_iff from a,
          l.apart,
          l.was_from,
          l.was_to,
          elem-snoc a from l.node_to.parents,
        ))

  lookup-insert_adj :
      (from to k : K) (m : Dict K (List K))
      → let s = set_in (lookup from m) in
        lookup k (insert_adj from to m)
        ≡ (if from == k then some (if elem to s then s else s ++ to ∷ []) else lookup k m)
  unfolding insert_adj elem
  lookup-insert_adj from to k m = elim (Option-cases (lookup from m)) [
    | inl missing ↦ rw (missing, insert_adj) (lookup-insert from k (to ∷ []) m)
    | inr (s, at) ↦
        rw (at, insert_adj) (lookup-insert from k (if elem to s then s else s ++ to ∷ []) m)
  ]

  pub has_adj-link :
      (from to a b : K) (g g' : BaseGraph K)
      → Linked from to g g'
      → has_adj g' a b ≡ ((from == a && to == b) || has_adj g a b)
  unfolding has_adj link
  has_adj-link from to a b g g' l =
      rw (l.result, lookup-insert_adj from to a g.adj_mat)
        (ground (
          arith,
          e.equals_iff from a,
          e.equals_iff to b,
          elem-snoc b to (set_in (lookup from g.adj_mat)),
        ))

  pub contains-link :
      (from to k : K) (g g' : BaseGraph K)
      → Linked from to g g'
      → contains k g'.nodes ≡ contains k g.nodes
  unfolding link
  contains-link from to k g g' l = rw l.result (
      simp contains-insert (
        ground (
          arith,
          e.equals_iff to k,
          e.equals_iff from k,
          contains-lookup to g.nodes l.node_to l.was_to,
          contains-lookup from g.nodes l.node_from l.was_from,
        )))

  -- One set of edges, kept in three places: its ends are nodes, and no edge is a loop.
  pub record IsConsistent (g : BaseGraph K) : Type 0 where
    pub as_parent : (a b : K) → has_parent g a b ≡ has_child g a b
    pub as_adj : (a b : K) → has_adj g a b ≡ has_child g a b
    pub from_node : (a b : K) → has_child g a b ≡ true → contains a g.nodes ≡ true
    pub to_node : (a b : K) → has_child g a b ≡ true → contains b g.nodes ≡ true
    pub no_loop : (a : K) → has_child g a a ≡ false
