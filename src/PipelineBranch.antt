-- ===== src/PipelineBranch.antt =====
-- src/proc/pipeline/pipeline_branch.hpp and async/async_pipeline_branch.hpp. A node is its id; what it
-- does to the data is the parameter `process_node`. `none` is a failed STEP_ASSERT.
use seekira.Common.{Option, none, some, List, [], ◌∷◌, ◌++◌, if◌then◌else◌}
use seekira.Worker.{ThreadPoolWorker, make_worker}

-- A branch of an asynchronous pipeline: the list of its nodes with its worker.
pub record Branch (K D X H : Type 0) : Type 0 where
  pub worker : ThreadPoolWorker K D X H
  pub nodes : List K

unfoldable pub last {ℓ} : {A : Type ℓ} → A → List A → A
last a [] = a
last a (b ∷ bs) = last b bs

unfoldable pub get_id : {K : Type 0} → List K → Option K
get_id [] = none
get_id (n ∷ ns) = some n

unfoldable pub get_last_id : {K : Type 0} → List K → Option K
unfolding last
get_last_id [] = none
get_last_id (n ∷ ns) = some (last n ns)

-- The nodes process the data one after the other; the first that throws ends the loop.
unfoldable pub process_all : {K S X : Type 0} → (K → S → S × Option X) → List K → S → S × Option X
process_all process_node [] s = (s, none)
process_all process_node (n ∷ ns) s =
    let (s', x) = process_node n s in
    elim x [ none ↦ process_all process_node ns s' | some e ↦ (s', some e) ]

module _ {K D X H : Type 0} where
  unfoldable pub make_branch : K → Branch K D X H
  make_branch n = record { worker = make_worker n; nodes = n ∷ [] }

  unfoldable pub add_branch_node : K → Branch K D X H → Branch K D X H
  add_branch_node n b = if b.worker.is_running then b else record b { nodes = b.nodes ++ n ∷ [] }
