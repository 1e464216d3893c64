-- ===== src/Pipeline.antt =====
-- src/proc/pipeline: pipeline_settings.hpp, pipeline_data.hpp and
-- async/async_pipeline.hpp. D is what a PipelineDataPtr points to, so a clone is an equal value and
-- `none` is a null pointer. Every operation here holds m_branches_data_guard, so it is one step.
pub mod Starting
pub mod Results
pub mod Recovery
pub mod Validity
pub mod Iteration
pub mod Finishing
use seekira.Common.{
  Bool, true, false, not, ◌&&◌, ◌||◌, Option, none, some, List, [], ◌∷◌, ◌++◌, Eq, ◌==◌,
  if◌then◌else◌,
}
use seekira.Common.Dict.{Dict, lookup, insert, contains}
use seekira.Graph.{BaseGraph, get_node}
use seekira.PipelineBranch.{Branch}
use seekira.Worker.{ThreadPoolWorker, add_data, has_exceptions, get_exceptions, reset_exceptions}

pub data PipelineSyncPolicy : Type 0 where
  undefined : PipelineSyncPolicy
  sync : PipelineSyncPolicy
  parallel_wait : PipelineSyncPolicy
  parallel_no_wait : PipelineSyncPolicy

unfoldable pub is_wait : PipelineSyncPolicy → Bool
is_wait parallel_wait = true
is_wait _ = false

unfoldable pub is_no_wait : PipelineSyncPolicy → Bool
is_no_wait parallel_no_wait = true
is_no_wait _ = false

pub data BranchStatus : Type 0 where
  ready : BranchStatus
  running : BranchStatus
  finished : BranchStatus

unfoldable pub is_ready : BranchStatus → Bool
is_ready ready = true
is_ready _ = false

unfoldable pub is_running : BranchStatus → Bool
is_running running = true
is_running _ = false

unfoldable pub is_finished : BranchStatus → Bool
is_finished finished = true
is_finished _ = false

pub record BranchProcessData (D : Type 0) : Type 0 where
  pub data_to_process : Option D
  pub status : BranchStatus

-- {nullptr, BranchStatus::Finished}, which is also the value of a fresh entry.
abbrev pub idle : {D : Type 0} → BranchProcessData D
idle = record { data_to_process = none; status = finished }

pub record AsyncPipeline (K D X H : Type 0) : Type 0 where
  pub sync_policy : PipelineSyncPolicy
  pub root_id : K
  pub graph : BaseGraph K
  pub threads : Dict K (Branch K D X H)
  pub branches_data : Dict K (BranchProcessData D)
  pub output_branches_data : Dict K (Option D)
  pub need_stop : Bool

module _ {K D : Type 0} where
  unfoldable pub stop_branches : Dict K (BranchProcessData D) → Dict K (BranchProcessData D)
  stop_branches [] = []
  stop_branches ((id, b) ∷ m) = (id, idle) ∷ stop_branches m

module _ {K D : Type 0} ⦃e : Eq K⦄ where
  -- `m_branches_data[id]`, which makes an idle entry where there is none.
  unfoldable pub branch_at : K → Dict K (BranchProcessData D) → BranchProcessData D
  branch_at id m = elim (lookup id m) [ none ↦ idle | some b ↦ b ]

  -- The loop over the exceptions of one branch: it resets its entries once for each of them.
  unfoldable pub reset_entries :
      {X : Type 0}
      → K
      → List X
      → Dict K (BranchProcessData D)
      → Dict K (Option D)
      → Dict K (BranchProcessData D) × Dict K (Option D)
  reset_entries id [] b o = (b, o)
  reset_entries id (x ∷ xs) b o = reset_entries id xs (insert id idle b) (insert id none o)

  unfoldable pub waits_for_root : K → Dict K (BranchProcessData D) → Bool
  unfolding is_ready is_finished
  waits_for_root root_id [] = true
  waits_for_root root_id ((id, b) ∷ m) =
      (if id == root_id then is_ready b.status else is_finished b.status)
      && waits_for_root root_id m

  -- The data with which the loop starts the branch `id`, if it starts it.
  unfoldable pub starts_with : PipelineSyncPolicy → K → Bool → K → BranchProcessData D → Option D
  unfolding is_running is_ready is_wait
  starts_with policy root_id ready_for_wait id b =
      if is_running b.status
      then none
      else if is_wait policy && not (not (root_id == id) || (root_id == id && ready_for_wait))
      then none
      else if is_ready b.status
      then b.data_to_process
      else none

module _ {K D X H : Type 0} where
  unfoldable pub thread_pool_stop_impl : AsyncPipeline K D X H → AsyncPipeline K D X H
  unfolding stop_branches
  thread_pool_stop_impl p = record p { branches_data = stop_branches p.branches_data }

module _ {K D X H : Type 0} ⦃e : Eq K⦄ where
  unfoldable pub add_process_data :
      K → Option D → AsyncPipeline K D X H → Bool × AsyncPipeline K D X H
  unfolding branch_at is_finished
  add_process_data id input p =
      let b = branch_at id p.branches_data in
      if not (is_finished b.status)
      then (false, record p { branches_data = insert id b p.branches_data })
      else (
        true,
        record p {
          branches_data =
              insert id (record { data_to_process = input; status = ready }) p.branches_data;
        },
      )

  -- The loop over the threads. `between` is what each thread adds while its exceptions are reset;
  -- `none` is the exception of `reset_exceptions`.
  unfoldable pub handle_exceptions :
      (K → List X)
      → Dict K (Branch K D X H)
      → Dict K (BranchProcessData D)
      → Dict K (Option D)
      → Option (Dict K (Branch K D X H) × Dict K (BranchProcessData D) × Dict K (Option D))
  unfolding reset_entries has_exceptions get_exceptions reset_exceptions
  handle_exceptions between [] b o = some ([], b, o)
  handle_exceptions between ((id, t) ∷ m) b o =
      let (b', o') = reset_entries id (get_exceptions t.worker) b o in
      let quiet = handle_exceptions between m b o in
      let handled = handle_exceptions between m b' o' in
      if not (has_exceptions t.worker)
      then elim quiet [ none ↦ none | some (m', b'', o'') ↦ some ((id, t) ∷ m', b'', o'') ]
      else elim (reset_exceptions (between id) t.worker) [
        | none ↦ none
        | some w ↦ elim handled [
          | none ↦ none
          | some (m', b'', o'') ↦ some ((id, record t { worker = w }) ∷ m', b'', o'')
        ]
      ]

  unfoldable pub ready_for_wait_iteration : AsyncPipeline K D X H → Bool
  unfolding is_wait waits_for_root
  ready_for_wait_iteration p =
      if is_wait p.sync_policy then waits_for_root p.root_id p.branches_data else true

  -- The worker takes the data. `m_threads[id]` is there, or a null pointer would be used: `none`.
  unfoldable pub start_worker : K → D → Dict K (Branch K D X H) → Option (Dict K (Branch K D X H))
  unfolding add_data
  start_worker id d threads = elim (lookup id threads) [
    | none ↦ none
    | some t ↦ some (insert id (record t { worker = add_data d t.worker }) threads)
  ]

  unfoldable pub start_branches :
      PipelineSyncPolicy
      → K
      → Bool
      → Dict K (BranchProcessData D)
      → Dict K (Branch K D X H)
      → Dict K (Option D)
      → Option (Dict K (BranchProcessData D) × Dict K (Branch K D X H) × Dict K (Option D))
  unfolding starts_with start_worker
  start_branches policy root_id go [] t o = some ([], t, o)
  start_branches policy root_id go ((id, b) ∷ m) t o = elim (starts_with policy root_id go id b) [
    | none ↦ elim (start_branches policy root_id go m t o) [
      | none ↦ none
      | some (m', t', o') ↦ some ((id, b) ∷ m', t', o')
    ]
    | some d ↦ elim (start_worker id d t) [
      | none ↦ none
      | some t1 ↦ elim (start_branches policy root_id go m t1 (insert id none o)) [
        | none ↦ none
        | some (m', t', o') ↦
            some ((id, record { data_to_process = none; status = running }) ∷ m', t', o')
      ]
    ]
  ]

  unfoldable pub start_all : AsyncPipeline K D X H → Option (AsyncPipeline K D X H)
  unfolding start_branches ready_for_wait_iteration
  start_all p =
      elim (start_branches p.sync_policy p.root_id (ready_for_wait_iteration p) p.branches_data
        p.threads p.output_branches_data) [
          | none ↦ none
          | some (b, t, o) ↦
              some (record p { branches_data = b; threads = t; output_branches_data = o })
        ]

  unfoldable pub thread_pool_iteration :
      (K → List X) → AsyncPipeline K D X H → Option (AsyncPipeline K D X H)
  unfolding handle_exceptions start_all
  thread_pool_iteration between p =
      elim (handle_exceptions between p.threads p.branches_data p.output_branches_data) [
        | none ↦ none
        | some (t, b, o) ↦
            start_all (record p { threads = t; branches_data = b; output_branches_data = o })
      ]
