-- ===== src/Pipeline/Finishing.antt =====
-- `on_finished`, `create_branch` and `add_node_to_branch` of async/async_pipeline.hpp.
use seekira.Common.{Bool, true, ◌&&◌, Option, none, some, List, [], ◌∷◌, Eq, if◌then◌else◌}
use seekira.Common.Dict.{Dict, lookup, insert, contains}
use seekira.Events.{register_event_handler}
use seekira.Graph.{get_node}
use seekira.PipelineBranch.{get_last_id, make_branch, add_branch_node}
use seekira.Pipeline.{
  BranchProcessData, AsyncPipeline, idle, ready, is_finished, is_wait, is_no_wait, branch_at,
}

-- What the observers are told, or that something threw. What was changed before stays changed.
pub data Finish (K D X H : Type 0) : Type 0 where
  skipped : AsyncPipeline K D X H → Finish K D X H
  delivered : Dict K D → AsyncPipeline K D X H → Finish K D X H
  thrown : AsyncPipeline K D X H → Finish K D X H

module _ {K D : Type 0} where
  -- The copy of the whole map: a clone of a null pointer throws.
  unfoldable pub clone_all : Dict K (Option D) → Option (Dict K D)
  clone_all [] = some []
  clone_all ((id, none) ∷ m) = none
  clone_all ((id, some d) ∷ m) = elim (clone_all m) [ none ↦ none | some c ↦ some ((id, d) ∷ c) ]

module _ {K D : Type 0} ⦃e : Eq K⦄ where
  unfoldable pub give_children :
      List K → D → Dict K (BranchProcessData D) → Dict K (BranchProcessData D)
  unfolding branch_at is_finished
  give_children [] d m = m
  give_children (child ∷ cs) d m =
      let b = branch_at child m in
      give_children cs d (
        insert child
          (if is_finished b.status then record { data_to_process = some d; status = ready } else b)
          m)

module _ {K V W : Type 0} ⦃e : Eq K⦄ where
  unfoldable pub has_all : Dict K V → Dict K W → Bool
  has_all [] m = true
  has_all ((id, v) ∷ t) m = contains id m && has_all t m

module _ {K D X H : Type 0} ⦃e : Eq K⦄ where
  -- What is sent once the branch's data are stored.
  unfoldable pub send : K → D → AsyncPipeline K D X H → Finish K D X H
  unfolding clone_all has_all is_wait is_no_wait
  send id d p =
      if is_no_wait p.sync_policy
      then delivered ((id, d) ∷ []) p
      else if is_wait p.sync_policy && has_all p.threads p.output_branches_data
      then elim (clone_all p.output_branches_data) [
        | none ↦ thrown p
        | some output ↦ delivered output p
      ]
      else delivered [] p

  unfoldable pub store_result : K → List K → D → AsyncPipeline K D X H → AsyncPipeline K D X H
  unfolding give_children
  store_result id children d p = record p {
    branches_data = give_children children d (insert id idle p.branches_data);
    output_branches_data = insert id (some d) p.output_branches_data;
  }

  unfoldable pub children_of : K → AsyncPipeline K D X H → Option (List K)
  unfolding get_last_id get_node
  children_of id p = elim (lookup id p.threads) [
    | none ↦ none
    | some t ↦ elim (get_last_id t.nodes) [
      | none ↦ none
      | some last_id ↦ elim (get_node last_id p.graph) [ none ↦ none | some n ↦ some n.children ]
    ]
  ]

  -- The worker of `id` has finished with `d`: it hands on the pointer it was started with, which is not
  -- null.
  unfoldable pub on_finished : K → D → AsyncPipeline K D X H → Finish K D X H
  unfolding children_of store_result send
  on_finished id d p = if p.need_stop then skipped p else elim (children_of id p) [
    | none ↦ thrown p
    | some children ↦ send id d (store_result id children d p)
  ]

  -- `self` is the pipeline as an observer of the worker.
  unfoldable pub create_branch :
      ⦃h : Eq H⦄ → H → K → AsyncPipeline K D X H → Option (AsyncPipeline K D X H)
  unfolding make_branch register_event_handler
  create_branch self id p =
      if contains id p.threads
      then none
      else let branch = make_branch id in
        let worker = record branch.worker {
          event_observers = register_event_handler (some self) branch.worker.event_observers;
        } in
        some (record p {
          threads = insert id (record branch { worker = worker }) p.threads;
          branches_data = insert id idle p.branches_data;
        })

  unfoldable pub add_node_to_branch : K → K → AsyncPipeline K D X H → Option (AsyncPipeline K D X H)
  unfolding add_branch_node
  add_node_to_branch branch_id node p = elim (lookup branch_id p.threads) [
    | none ↦ none
    | some b ↦ some (record p { threads = insert branch_id (add_branch_node node b) p.threads })
  ]
