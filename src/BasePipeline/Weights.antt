-- ===== src/BasePipeline/Weights.antt =====
-- A test of weights on the nodes of a graph.
use mathlib.Core.Option.{some-injective}
use seekira.Common.{
  ℕ, ◌<◌, ◌≡◌, subst, inl, inr, Bool, true, ◌&&◌, some, [], ◌∷◌, arith, ltb, Eq, ◌==◌, Bool-cases,
}
use seekira.Common.Dict.{Dict, lookup, lookup-present}
use seekira.Graph.{BaseGraphNode, BaseGraph, get_node, ends_are_nodes}
use seekira.Graph.Validity.{ends_of}
use seekira.BasePipeline.Chains.{total, IsAcyclic}

module _ {K : Type 0} ⦃e : Eq K⦄ where
  -- The weight of each node is below the bound and above those of its children together, which are nodes.
  unfoldable pub is_weighted :
      (K → ℕ) → ℕ → Dict K (BaseGraphNode K) → Dict K (BaseGraphNode K) → Bool
  unfolding total ends_are_nodes
  is_weighted w bound nodes [] = true
  is_weighted w bound nodes ((k, n) ∷ m) =
      ltb (w k) bound
      && ltb (total w n.children) (w k)
      && ends_are_nodes nodes n.children
      && is_weighted w bound nodes m

  record Weighted (w : K → ℕ) (bound : ℕ) (nodes : Dict K (BaseGraphNode K)) (k : K)
      (n : BaseGraphNode K) : Type 0 where
    below : w k < bound
    drop : total w n.children < w k
    ends : ends_are_nodes nodes n.children ≡ true

  lookup-Weighted :
      (w : K → ℕ) (bound : ℕ) (nodes m : Dict K (BaseGraphNode K)) (k : K) (n : BaseGraphNode K)
      → is_weighted w bound nodes m ≡ true
      → lookup k m ≡ some n
      → Weighted w bound nodes k n
  unfolding is_weighted lookup
  lookup-Weighted w bound nodes [] k n h f = cc
  lookup-Weighted w bound nodes ((j, x) ∷ m) k n h f = elim (Bool-cases (j == k)) [
    | inl same ↦
        subst (λ r. Weighted w bound nodes k r) (some-injective x n (rw same at f))
          (subst (λ i. Weighted w bound nodes i x) ((e.equals_iff j k).0 same)
            (record { below = ground arith; drop = ground arith; ends = ground arith }))
    | inr other ↦ lookup-Weighted w bound nodes m k n (ground arith) (rw other at f)
  ]

  pub is_weighted-IsAcyclic :
      (w : K → ℕ) (bound : ℕ) (g : BaseGraph K)
      → is_weighted w bound g.nodes g.nodes ≡ true
      → IsAcyclic g w
  unfolding get_node
  is_weighted-IsAcyclic w bound g h = record {
    drops =
        λ k n f. let r = lookup-Weighted w bound g.nodes g.nodes k n h f in omega (arith, r.drop);
    ends = λ k c n f i.
        lookup-present c g.nodes
          (ends_of c g.nodes n.children (lookup-Weighted w bound g.nodes g.nodes k n h f).ends i);
  }

  pub is_weighted-bound :
      (w : K → ℕ) (bound : ℕ) (g : BaseGraph K)
      → is_weighted w bound g.nodes g.nodes ≡ true
      → (k : K) (n : BaseGraphNode K) → get_node k g ≡ some n
      → w k < bound
  unfolding get_node
  is_weighted-bound w bound g h k n f = (lookup-Weighted w bound g.nodes g.nodes k n h f).below
