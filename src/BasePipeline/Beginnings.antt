-- ===== src/BasePipeline/Beginnings.antt =====
-- What holds of a node at which a branch begins.
use mathlib.Core.Option.{some-injective}
use seekira.Common.{
  ◌≡◌, refl, subst, sym, ◌∙◌, ◌⊎◌, inl, inr, Bool, true, some, List, [], ◌∷◌, arith, length, ltb,
  Eq, ◌==◌, Bool-cases, Option-cases, List-cases,
}
use seekira.Common.Dict.{Dict, lookup, contains, has_unique_keys, contains-lookup}
use seekira.Graph.{
  BaseGraphNode, BaseGraph, is_empty, has_parents, elem, get_node, get_nodes_without_parents,
  get_nodes_with_children,
}
use seekira.BasePipeline.{insert_ids, insert_children, branch_ids}
use seekira.BasePipeline.Branching.{elem-insert_ids}

module _ {K : Type 0} ⦃e : Eq K⦄ where
  -- A node without parents, or one of several children of a node.
  abbrev pub BeginsBranch : BaseGraph K → K → Type 0
  BeginsBranch g k =
      ((n : BaseGraphNode K) × (get_node k g ≡ some n) × (n.parents ≡ []))
      ⊎ ((parent : K) × (n : BaseGraphNode K) × (get_node parent g ≡ some n)
          × (ltb 1 (length n.children) ≡ true)
          × (elem k n.children ≡ true))

  -- The node of a key that is not the first is not the first.
  lookup-later :
      {V : Type 0} (k j : K) (x v : V) (m : Dict K V)
      → has_unique_keys ((j, x) ∷ m) ≡ true
      → lookup k m ≡ some v
      → lookup k ((j, x) ∷ m) ≡ some v
  unfolding lookup has_unique_keys
  lookup-later k j x v m u f = elim (Bool-cases (j == k)) [
    | inr other ↦ rw (other, f)
    | inl same ↦
        let there : contains j m ≡ true =
          subst (λ i. contains i m ≡ true) (sym ((e.equals_iff j k).0 same))
            (contains-lookup k m v f) in
        ground arith
  ]

  without_parents-node :
      (k : K) (m : Dict K (BaseGraphNode K))
      → has_unique_keys m ≡ true
      → elem k (get_nodes_without_parents m) ≡ true
      → (n : BaseGraphNode K) × (lookup k m ≡ some n) × (n.parents ≡ [])
  unfolding elem get_nodes_without_parents has_parents is_empty lookup has_unique_keys
  without_parents-node k [] u i = cc
  without_parents-node k ((j, x) ∷ m) u i =
      let later : elem k (get_nodes_without_parents m) ≡ true
          → (n : BaseGraphNode K) × (lookup k ((j, x) ∷ m) ≡ some n) × (n.parents ≡ []) =
        λ there.
          let (n, f, alone) = without_parents-node k m (ground arith) there in
          (n, lookup-later k j x n m u f, alone) in
      elim (List-cases x.parents) [
        | inr (p, ps, some_parent) ↦ later (rw some_parent at i)
        | inl alone ↦ elim (Bool-cases (j == k)) [
          | inl same ↦ (x, rw same refl, alone)
          | inr other ↦ later (rw (alone, other) at i)
        ]
      ]

  with_children-node :
      (k : K) (m : Dict K (BaseGraphNode K))
      → has_unique_keys m ≡ true
      → elem k (get_nodes_with_children m) ≡ true
      → (n : BaseGraphNode K) × (lookup k m ≡ some n) × (ltb 1 (length n.children) ≡ true)
  unfolding elem get_nodes_with_children lookup has_unique_keys
  with_children-node k [] u i = cc
  with_children-node k ((j, x) ∷ m) u i =
      let later : elem k (get_nodes_with_children m) ≡ true
          → (n : BaseGraphNode K) × (lookup k ((j, x) ∷ m) ≡ some n)
            × (ltb 1 (length n.children) ≡ true) =
        λ there.
          let (n, f, several) = with_children-node k m (ground arith) there in
          (n, lookup-later k j x n m u f, several) in
      elim (Bool-cases (ltb 1 (length x.children))) [
        | inr few ↦ later (rw few at i)
        | inl several ↦ elim (Bool-cases (j == k)) [
          | inl same ↦ (x, rw same refl, several)
          | inr other ↦ later (rw (several, other) at i)
        ]
      ]

  -- What `insert_children` adds is a child of one of the nodes.
  insert_children-new :
      (less : K → K → Bool) (g : BaseGraph K) (ks s t : List K) (c : K)
      → insert_children less g ks s ≡ some t
      → elem c t ≡ true
      → (elem c s ≡ true)
        ⊎ ((id : K) × (n : BaseGraphNode K) × (elem id ks ≡ true)
            × (get_node id g ≡ some n)
            × (elem c n.children ≡ true))
  unfolding insert_children elem
  insert_children-new less g [] s t c h i = inl (ground (arith, some-injective s t h))
  insert_children-new less g (j ∷ ks) s t c h i = elim (Option-cases (get_node j g)) [
    | inl gone ↦ let out = rw (insert_children, gone) at h in cc
    | inr (m, at) ↦
        elim (insert_children-new less g ks (insert_ids less m.children s) t c
          (rw (insert_children, at) at h) i) [
            | inr (id, n, there, f, child) ↦ inr (id, n, ground arith, f, child)
            | inl new ↦ elim (Bool-cases (elem c m.children)) [
              | inl child ↦ inr (j, m, ground (arith, e.equals_iff j j), at, child)
              | inr other ↦ inl (ground (arith, elem-insert_ids less c m.children s))
            ]
          ]
  ]

  pub branch_ids-Begins :
      (less : K → K → Bool) (g : BaseGraph K) (ids : List K)
      → has_unique_keys g.nodes ≡ true
      → branch_ids less g ≡ some ids
      → (k : K) → elem k ids ≡ true
      → BeginsBranch g k
  unfolding branch_ids get_node elem
  branch_ids-Begins less g ids u made k i =
      let roots = get_nodes_without_parents g.nodes in
      elim (insert_children-new less g (get_nodes_with_children g.nodes) (insert_ids less roots [])
        ids k made i) [
          | inl old ↦
              inl
                (without_parents-node k g.nodes u (ground (arith, elem-insert_ids less k roots [])))
          | inr (p, n, there, f, child) ↦
              let (m, f', several) = with_children-node p g.nodes u there in
              let same : m ≡ n = some-injective m n (sym f' ∙ f) in
              inr (p, n, f, subst (λ x. ltb 1 (length x.children) ≡ true) same several, child)
        ]
