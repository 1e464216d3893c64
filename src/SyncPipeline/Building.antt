-- ===== src/SyncPipeline/Building.antt =====
-- `init_branches` of a synchronous pipeline, on a graph without cycles.
use seekira.Common.{
  ℕ, ◌≤◌, ◌≡◌, refl, inl, inr, Bool, true, false, none, some, List, [], ◌∷◌, arith, Eq, Bool-cases,
}
use seekira.Common.Dict.{Dict, lookup, contains, has_unique_keys, lookup-present}
use seekira.Graph.{
  BaseGraphNode, BaseGraph, elem, get_node, get_nodes_without_parents, get_nodes_with_children,
}
use seekira.BasePipeline.{Built, built, insert_ids, insert_children, branch_ids, init_branches}
use seekira.BasePipeline.Beginnings.{BeginsBranch, branch_ids-Begins}
use seekira.BasePipeline.Branching.{IsBranchIds, branch_ids-IsBranchIds, elem-insert_ids}
use seekira.BasePipeline.Chains.{IsAcyclic, IsBranch, begin_all-AreBranches}
use seekira.SyncPipeline.{sync_maker}

module _ {K : Type 0} ⦃e : Eq K⦄ where
  without_parents-contains :
      (k : K) (m : Dict K (BaseGraphNode K))
      → elem k (get_nodes_without_parents m) ≡ true
      → contains k m ≡ true
  unfolding elem get_nodes_without_parents contains
  without_parents-contains k [] h = cc
  without_parents-contains k ((j, n) ∷ m) h = ground (arith, without_parents-contains k m)

  with_children-contains :
      (k : K) (m : Dict K (BaseGraphNode K))
      → elem k (get_nodes_with_children m) ≡ true
      → contains k m ≡ true
  unfolding elem get_nodes_with_children contains
  with_children-contains k [] h = cc
  with_children-contains k ((j, n) ∷ m) h = ground (arith, with_children-contains k m)

  abbrev pub AreNodes : BaseGraph K → List K → Type 0
  AreNodes g ks = (k : K) → elem k ks ≡ true → (n : BaseGraphNode K) × (get_node k g ≡ some n)

  insert_children-total :
      (less : K → K → Bool) (g : BaseGraph K) (w : K → ℕ) (ks s : List K)
      → IsAcyclic g w
      → AreNodes g ks
      → AreNodes g s
      → (t : List K) × (insert_children less g ks s ≡ some t) × AreNodes g t
  unfolding insert_children elem
  insert_children-total less g w [] s a these old = (s, refl, old)
  insert_children-total less g w (k ∷ ks) s a these old =
      let (n, f) = these k (rw (e.equals_iff k k).1 refl) in
      let (t, made, nodes) =
        insert_children-total less g w ks (insert_ids less n.children s) a
          (λ j i. these j (ground arith))
          (λ j i. elim (Bool-cases (elem j n.children)) [
            | inl new ↦ a.ends k j n f new
            | inr other ↦ old j (ground (arith, elem-insert_ids less j n.children s))
          ]) in
      (t, rw (insert_children, f) made, nodes)

  branch_ids-total :
      (less : K → K → Bool) (g : BaseGraph K) (w : K → ℕ)
      → IsAcyclic g w
      → (ids : List K) × (branch_ids less g ≡ some ids) × AreNodes g ids
  unfolding branch_ids get_node elem
  branch_ids-total less g w a =
      insert_children-total less g w (get_nodes_with_children g.nodes)
        (insert_ids less (get_nodes_without_parents g.nodes) []) a
        (λ k i. lookup-present k g.nodes (with_children-contains k g.nodes i))
        (λ k i. lookup-present k g.nodes (
          without_parents-contains k g.nodes
            (ground (arith, elem-insert_ids less k (get_nodes_without_parents g.nodes) []))))

  -- The branches cut the graph: `ids` are the nodes at which a branch begins, and the branch of each follows
  -- the first child of every node up to a node at which another begins.
  pub record Cut (g : BaseGraph K) (out : Built (Dict K (List K))) : Type 0 where
    pub ids : List K
    pub result : Dict K (List K)
    pub returns : out ≡ built result
    pub are_ids : IsBranchIds g ids
    pub only : (k : K) → elem k ids ≡ true → BeginsBranch g k
    pub are_nodes : AreNodes g ids
    pub begun :
        (k : K)
        → elem k ids ≡ true
        → (ns : List K) × (IsBranch g ids k ns) × (lookup k result ≡ some ns)
    pub others : (k : K) → elem k ids ≡ false → lookup k result ≡ none

  -- On a graph whose weights drop along the edges and bound the fuel, and where no id has two nodes,
  -- `init_branches` of a synchronous pipeline returns. It begins a branch at every node without parents and at every child of a node with several
  -- children, at none twice and at no other id, and each branch is the way from its first node along the first
  -- children, which ends before the next node at which a branch begins or at a node without children.
  pub init_branches-Cut :
      (less : K → K → Bool) (g : BaseGraph K) (w : K → ℕ) (fuel : ℕ)
      → IsAcyclic g w
      → has_unique_keys g.nodes ≡ true
      → ((k : K) (n : BaseGraphNode K) → get_node k g ≡ some n → w k ≤ fuel)
      → Cut g (init_branches sync_maker less fuel g [])
  unfolding init_branches lookup
  init_branches-Cut less g w fuel a keys_differ b =
      let (ids, made, nodes) = branch_ids-total less g w a in
      let facts = branch_ids-IsBranchIds less g ids made in
      let all =
        begin_all-AreBranches g w ids fuel ids [] a b facts.unique (λ k i. (nodes k i, refl)) in
      rw (init_branches, made, all.returns)
        (record {
          ids = ids;
          result = all.result;
          returns = refl;
          are_ids = facts;
          only = branch_ids-Begins less g ids keys_differ made;
          are_nodes = nodes;
          begun = all.begun;
          others = λ k i. all.others k i;
        })
