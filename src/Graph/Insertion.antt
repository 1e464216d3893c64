-- ===== src/Graph/Insertion.antt =====
-- `add_node` and `add_edge` on a consistent graph.
use seekira.Common.{
  ◌≡◌, ◌≢◌, refl, inl, inr, ◌⊎◌, true, false, ◌&&◌, ◌||◌, Option, none, some, [], ◌∷◌, arith, Eq,
  ◌==◌, if◌then◌else◌, Option-cases,
}
use seekira.Common.Dict.{
  Dict, lookup, insert, contains, lookup-insert, contains-insert, lookup-absent, contains-lookup,
}
use seekira.Graph.{BaseGraph, elem, add_node, add_edge}
use seekira.Graph.Edges.{
  has_child, has_parent, has_adj, Linked, add_edge-Linked, has_child-link, has_parent-link,
  has_adj-link, contains-link, IsConsistent,
}

module _ {K : Type 0} ⦃e : Eq K⦄ where
  pub contains-none : (k : K) {V : Type 0} (m : Dict K V) → lookup k m ≡ none → contains k m ≡ false
  unfolding lookup contains
  contains-none k [] h = refl
  contains-none k ((j, w) ∷ m) h = ground (arith, contains-none k m)

  refused :
      (from to : K) (g : BaseGraph K)
      → IsConsistent g
      → add_edge from to g ≡ none
      → (from ≡ to)
        ⊎ ((contains from g.nodes ≡ false)
            ⊎ ((contains to g.nodes ≡ false) ⊎ (has_child g from to ≡ true)))
  unfolding add_edge has_child has_parent
  refused from to g v h = elim (Option-cases (lookup from g.nodes)) [
    | inl missing ↦ inr (inl (contains-none from g.nodes missing))
    | inr (nf, ef) ↦ elim (Option-cases (lookup to g.nodes)) [
      | inl missing ↦ inr (inr (inl (contains-none to g.nodes missing)))
      | inr (nt, et) ↦ ground (arith, e.equals_iff from to, v.as_parent from to)
    ]
  ]

  Linked-IsConsistent :
      (from to : K) (g g' : BaseGraph K) → IsConsistent g → Linked from to g g' → IsConsistent g'
  Linked-IsConsistent from to g g' v l = record {
    as_parent = λ a b. ground (
      arith,
      has_parent-link from to a b g g' l,
      has_child-link from to a b g g' l,
      v.as_parent a b,
    );
    as_adj = λ a b.
        ground
          (arith, has_adj-link from to a b g g' l, has_child-link from to a b g g' l, v.as_adj a b);
    from_node = λ a b h. ground (
      arith,
      has_child-link from to a b g g' l,
      v.from_node a b,
      contains-link from to a g g' l,
      e.equals_iff from a,
      contains-lookup from g.nodes l.node_from l.was_from,
    );
    to_node = λ a b h. ground (
      arith,
      has_child-link from to a b g g' l,
      v.to_node a b,
      contains-link from to b g g' l,
      e.equals_iff to b,
      contains-lookup to g.nodes l.node_to l.was_to,
    );
    no_loop = λ a. ground (
      arith,
      has_child-link from to a a g g' l,
      v.no_loop a,
      e.equals_iff from a,
      e.equals_iff to a,
      e.equals_iff from to,
      l.apart,
    );
  }

  no_edge : (from to : K) (g g' : BaseGraph K) → Linked from to g g' → has_child g from to ≡ false
  unfolding has_child
  no_edge from to g g' l = rw l.was_from l.no_child

  abbrev pub Adds : K → K → BaseGraph K → Option (BaseGraph K) → Type 0
  Adds from to g none =
      (from ≡ to)
      ⊎ ((contains from g.nodes ≡ false)
          ⊎ ((contains to g.nodes ≡ false) ⊎ (has_child g from to ≡ true)))
  Adds from to g (some g') =
      (from ≢ to)
      × (contains from g.nodes ≡ true)
      × (contains to g.nodes ≡ true)
      × (has_child g from to ≡ false)
      × IsConsistent g'
      × ((a b : K) → has_child g' a b ≡ ((from == a && to == b) || has_child g a b))
      × ((k : K) → contains k g'.nodes ≡ contains k g.nodes)

  -- `add_edge` adds one edge to a consistent graph, in all three places at once, keeps the nodes, and
  -- leaves the graph consistent; it throws exactly when the two ids are equal, or one of them is no
  -- node, or the edge is there already.
  pub add_edge-Adds :
      (from to : K) (g : BaseGraph K) → IsConsistent g → Adds from to g (add_edge from to g)
  add_edge-Adds from to g v = elim (Option-cases (add_edge from to g)) [
    | inl h ↦ rw h (refused from to g v h)
    | inr (g', h) ↦
        let l = add_edge-Linked from to g g' h in
        rw h (
          (λ same. cc ((e.equals_iff from to).1 same, l.apart)),
          contains-lookup from g.nodes l.node_from l.was_from,
          contains-lookup to g.nodes l.node_to l.was_to,
          no_edge from to g g' l,
          Linked-IsConsistent from to g g' v l,
          (λ a b. has_child-link from to a b g g' l),
          λ k. contains-link from to k g g' l,
        )
  ]

  -- What a success of `add_node` comes to.
  record Inserted (id : K) (g g' : BaseGraph K) : Type 0 where
    absent : contains id g.nodes ≡ false
    result : g' ≡ record g { nodes = insert id (record { parents = []; children = [] }) g.nodes }

  add_node-Inserted :
      (id : K) (g g' : BaseGraph K)
      → add_node id (record { parents = []; children = [] }) g ≡ some g'
      → Inserted id g g'
  unfolding add_node
  add_node-Inserted id g g' h = ground arith

  has_child-insert :
      (id a b : K) (g g' : BaseGraph K) → Inserted id g g' → has_child g' a b ≡ has_child g a b
  unfolding has_child elem
  has_child-insert id a b g g' r =
      rw (r.result, lookup-insert)
        (ground (arith, e.equals_iff id a, lookup-absent id g.nodes r.absent))

  has_parent-insert :
      (id a b : K) (g g' : BaseGraph K) → Inserted id g g' → has_parent g' a b ≡ has_parent g a b
  unfolding has_parent elem
  has_parent-insert id a b g g' r =
      rw (r.result, lookup-insert)
        (ground (arith, e.equals_iff id b, lookup-absent id g.nodes r.absent))

  has_adj-insert :
      (id a b : K) (g g' : BaseGraph K) → Inserted id g g' → has_adj g' a b ≡ has_adj g a b
  unfolding has_adj
  has_adj-insert id a b g g' r = rw r.result

  contains-insert_node :
      (id k : K) (g g' : BaseGraph K)
      → Inserted id g g'
      → contains k g'.nodes ≡ (if id == k then true else contains k g.nodes)
  contains-insert_node id k g g' r = rw (r.result, contains-insert)

  -- A new node without edges leaves a consistent graph consistent, adds that node and no edge.
  pub add_node-IsConsistent :
      (id : K) (g g' : BaseGraph K)
      → IsConsistent g
      → add_node id (record { parents = []; children = [] }) g ≡ some g'
      → IsConsistent g'
        × ((a b : K) → has_child g' a b ≡ has_child g a b)
        × ((k : K) → contains k g'.nodes ≡ (if id == k then true else contains k g.nodes))
  add_node-IsConsistent id g g' v h =
      let r = add_node-Inserted id g g' h in
      (
        record {
          as_parent = λ a b. ground (
            arith,
            has_child-insert id a b g g' r,
            has_parent-insert id a b g g' r,
            v.as_parent a b,
          );
          as_adj = λ a b.
              ground
                (arith, has_child-insert id a b g g' r, has_adj-insert id a b g g' r, v.as_adj a b);
          from_node = λ a b f. ground (
            arith,
            has_child-insert id a b g g' r,
            contains-insert_node id a g g' r,
            v.from_node a b,
          );
          to_node = λ a b f. ground (
            arith,
            has_child-insert id a b g g' r,
            contains-insert_node id b g g' r,
            v.to_node a b,
          );
          no_loop = λ a. ground (arith, has_child-insert id a a g g' r, v.no_loop a);
        },
        (λ a b. has_child-insert id a b g g' r),
        λ k. contains-insert_node id k g g' r,
      )
