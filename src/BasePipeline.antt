-- ===== src/BasePipeline.antt =====
-- src/proc/pipeline/pipeline.hpp: the branches of a pipeline, made from its graph. P is the state of the
-- pipeline, with the operations by which a kind of pipeline makes its branches; `none` is an exception.
pub mod Beginnings
pub mod Branching
pub mod Chains
pub mod Cycles
pub mod Weights
use seekira.Common.{
  ℕ, zero, suc, ◌+◌, Bool, true, false, Option, none, some, List, [], ◌∷◌, Eq, ◌==◌, if◌then◌else◌,
}
use seekira.Graph.{
  BaseGraphNode, BaseGraph, elem, get_node, get_nodes_without_parents, get_nodes_with_children,
}

pub record BranchMaker (K P : Type 0) : Type 0 where
  pub create_branch : K → P → Option P
  pub add_node_to_branch : K → K → P → Option P

-- The loop over the nodes has ended, or an exception, or no fuel.
pub data Built (P : Type 0) : Type 0 where
  built : P → Built P
  threw : Built P
  no_fuel : Built P

module _ {K : Type 0} ⦃e : Eq K⦄ where
  unfoldable pub place_id : (K → K → Bool) → K → List K → List K
  place_id less k [] = k ∷ []
  place_id less k (j ∷ js) = if less k j then k ∷ j ∷ js else j ∷ place_id less k js

  -- `insert` of a `std::set` of ids, which stand in their order.
  unfoldable pub insert_id : (K → K → Bool) → K → List K → List K
  unfolding elem place_id
  insert_id less k s = if elem k s then s else place_id less k s

  unfoldable pub insert_ids : (K → K → Bool) → List K → List K → List K
  unfolding insert_id
  insert_ids less [] s = s
  insert_ids less (k ∷ ks) s = insert_ids less ks (insert_id less k s)

  -- The children of each of the nodes.
  unfoldable pub insert_children : (K → K → Bool) → BaseGraph K → List K → List K → Option (List K)
  unfolding insert_ids get_node
  insert_children less g [] s = some s
  insert_children less g (k ∷ ks) s = elim (get_node k g) [
    | none ↦ none
    | some n ↦ insert_children less g ks (insert_ids less n.children s)
  ]

  -- Where branches begin.
  unfoldable pub branch_ids : (K → K → Bool) → BaseGraph K → Option (List K)
  unfolding insert_ids insert_children get_nodes_without_parents get_nodes_with_children
  branch_ids less g =
      insert_children less g (get_nodes_with_children g.nodes)
        (insert_ids less (get_nodes_without_parents g.nodes) [])

  module _ {P : Type 0} (maker : BranchMaker K P) (g : BaseGraph K) (ids : List K) where
    -- The loop along a branch.
    unfoldable pub extend : ℕ → K → K → P → Built P
    unfolding get_node elem
    extend zero front id p = no_fuel
    extend (suc fuel) front id p = if elem id ids then built p else elim (get_node id g) [
      | none ↦ threw
      | some n ↦ elim (maker.add_node_to_branch front id p) [
        | none ↦ threw
        | some p' ↦ elim n.children [ [] ↦ built p' | c ∷ cs ↦ extend fuel front c p' ]
      ]
    ]

    unfoldable pub begin : ℕ → K → P → Built P
    unfolding extend
    begin fuel id p = elim (get_node id g) [
      | none ↦ threw
      | some n ↦ elim (maker.create_branch id p) [
        | none ↦ threw
        | some p' ↦ elim n.children [ [] ↦ built p' | c ∷ cs ↦ extend fuel id c p' ]
      ]
    ]

    unfoldable pub begin_all : ℕ → List K → P → Built P
    unfolding begin
    begin_all fuel [] p = built p
    begin_all fuel (id ∷ rest) p = elim (begin fuel id p) [
      | threw ↦ threw
      | no_fuel ↦ no_fuel
      | built p' ↦ begin_all fuel rest p'
    ]

  unfoldable pub init_branches :
      {P : Type 0} → BranchMaker K P → (K → K → Bool) → ℕ → BaseGraph K → P → Built P
  unfolding branch_ids begin_all
  init_branches maker less fuel g p = elim (branch_ids less g) [
    | none ↦ threw
    | some ids ↦ begin_all maker g ids fuel ids p
  ]
