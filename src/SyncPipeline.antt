-- ===== src/SyncPipeline.antt =====
-- src/proc/pipeline/sync/sync_pipeline.hpp: the branches of a pipeline process the data one after the other, in
-- one thread. A branch is the list of its nodes (PipelineBranch), and `process_node` is what a node does.
pub mod Building
pub mod Order
pub mod Visiting
use seekira.Common.{
  ℕ, zero, suc, ◌+◌, Option, none, some, List, [], ◌∷◌, ◌++◌, Bool, true, false, Eq, if◌then◌else◌,
}
use seekira.Common.Dict.{Dict, lookup, insert, contains}
use seekira.Graph.{BaseGraph, get_node}
use seekira.PipelineBranch.{get_last_id, process_all}
use seekira.BasePipeline.{BranchMaker}

module _ {K : Type 0} ⦃e : Eq K⦄ where
  unfoldable pub create_sync_branch : K → Dict K (List K) → Option (Dict K (List K))
  create_sync_branch id m = if contains id m then none else some (insert id (id ∷ []) m)

  unfoldable pub add_node_to_sync_branch : K → K → Dict K (List K) → Option (Dict K (List K))
  add_node_to_sync_branch branch_id node m = elim (lookup branch_id m) [
    | none ↦ none
    | some ns ↦ some (insert branch_id (ns ++ node ∷ []) m)
  ]

  abbrev pub sync_maker : BranchMaker K (Dict K (List K))
  sync_maker = record {
    create_branch = create_sync_branch;
    add_node_to_branch = add_node_to_sync_branch;
  }

  -- The children of a branch's last node.
  unfoldable pub next_ids : BaseGraph K → List K → Option (List K)
  unfolding get_last_id get_node
  next_ids g ns = elim (get_last_id ns) [
    | none ↦ none
    | some id ↦ elim (get_node id g) [ none ↦ none | some n ↦ some n.children ]
  ]

  -- An exception of a node, or `assertion` for a failed STEP_ASSERT, ends the loop; no fuel is `none`.
  module _ {S X : Type 0} (process_node : K → S → S × Option X) (assertion : X) (g : BaseGraph K)
      (branches : Dict K (List K)) where
    unfoldable pub process_queue : ℕ → List K → S → Option (S × Option X)
    unfolding next_ids process_all
    process_queue zero queue s = none
    process_queue (suc fuel) [] s = some (s, none)
    process_queue (suc fuel) (id ∷ queue) s = elim (lookup id branches) [
      | none ↦ some (s, some assertion)
      | some ns ↦
          let (s', x) = process_all process_node ns s in
          elim x [
            | some err ↦ some (s', some err)
            | none ↦ elim (next_ids g ns) [
              | none ↦ some (s', some assertion)
              | some ids ↦ process_queue fuel (queue ++ ids) s'
            ]
          ]
    ]

    unfoldable pub process : ℕ → Option K → S → Option (S × Option X)
    unfolding process_queue
    process fuel none s = some (s, some assertion)
    process fuel (some root) s = process_queue fuel (root ∷ []) s
