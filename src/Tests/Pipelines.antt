-- ===== src/Tests/Pipelines.antt =====
-- A pipeline of two branches, its workers and its observers, and the theorems at them.
use seekira.Common.{
  ℕ, ◌+◌, ◌≡◌, ◌≢◌, refl, String, true, false, ◌&&◌, Option, none, some, List, [], ◌∷◌, arith,
  string_eq, nat_eq, ◌==◌, if◌then◌else◌, ltb,
}
use seekira.Common.Dict.{lookup, contains, has_unique_keys}
use seekira.Graph.{BaseGraph, elem, get_node}
use seekira.Events.{EventHandlerList, subscribes, perform, perform_for_each_event_handler}
use seekira.Events.Lists.{
  Change, register, unregister, change_all, after_all, is_unique, change_all-Changed,
}
use seekira.Worker.{
  ThreadPoolWorker, Outcome, result, raised, add_data, pause, run_worker, open_gate, take_data,
  handle_data, notify, keep_exception, stop_worker, reset_exceptions,
}
use seekira.Worker.Order.{
  adds, opens, takes, pauses, step, run_events, Serializes, run_events-Serializes,
}
use seekira.Worker.Exceptions.{reset_exceptions-Resets, stop_worker-stops}
use seekira.ThreadPool.{ThreadPool}
use seekira.ThreadPool.Stopping.{OwnIds}
use seekira.PipelineBranch.{last, get_last_id}
use seekira.Pipeline.{
  AsyncPipeline, parallel_wait, is_ready, is_running, is_finished, is_wait, idle, branch_at,
  starts_with, waits_for_root, ready_for_wait_iteration, add_process_data, thread_pool_iteration,
}
use seekira.Pipeline.Starting.{start_of}
use seekira.Pipeline.Iteration.{started_of, root_starts-Alone}
use seekira.Pipeline.Results.{passed, Sends, on_finished-Finishes}
use seekira.Pipeline.Finishing.{children_of, on_finished}
use seekira.Pipeline.Validity.{
  fits, IsValid, Iterates, thread_pool_iteration-Iterates, add_process_data-Takes,
}

abbrev handlers : EventHandlerList ℕ
handlers = record { subscribers = 1 ∷ 2 ∷ []; cache = []; is_enabled = true }

abbrev changes : List (Change ℕ)
changes = unregister (some 1) ∷ register (some 3) ∷ register none ∷ []

change_all-Changed_example :
    (is_unique (change_all changes handlers).subscribers ≡ true)
    × (subscribes 3 (change_all changes handlers).subscribers
        ≡ after_all 3 changes (subscribes 3 handlers.subscribers))
unfolding is_unique subscribes
change_all-Changed_example = change_all-Changed 3 changes handlers refl refl

abbrev worker : List ℕ → ThreadPoolWorker String ℕ ℕ ℕ
worker exceptions = record {
  id = "resizer";
  is_running = true;
  need_stop = false;
  data_queue = 4 ∷ [];
  continues_reading = true;
  awaits_data = false;
  exceptions = exceptions;
  event_observers = handlers;
}

-- Data below 5 are processed, others throw; each observer adds what it is told.
process : ℕ → ℕ → ℕ × Outcome ℕ ℕ
process d s = (s, if ltb d 5 then result d else raised d)

tell : ℕ → String → ℕ → ℕ → ℕ × Option ℕ
tell h id r s = (s + r, none)

run_events-Serializes_example :
    Serializes process tell
      (adds 7 ∷ opens ∷ takes ∷ pauses ∷ [])
      (worker [])
      0
      (record (worker []) { data_queue = 7 ∷ []; continues_reading = false })
      8
unfolding run_events step add_data run_worker open_gate take_data handle_data notify keep_exception
    process tell perform perform_for_each_event_handler pause
run_events-Serializes_example =
    run_events-Serializes process tell (adds 7 ∷ opens ∷ takes ∷ pauses ∷ []) (worker [])
      (record (worker []) { data_queue = 7 ∷ []; continues_reading = false }) 0 8 refl

reset_exceptions-Resets_example : reset_exceptions (8 ∷ []) (worker (7 ∷ [])) ≡ none
reset_exceptions-Resets_example = reset_exceptions-Resets (8 ∷ []) (worker (7 ∷ []))

stop_worker-stops_example :
    stop_worker (worker (7 ∷ []))
    ≡ some (record (worker []) { is_running = false; data_queue = [] })
stop_worker-stops_example = stop_worker-stops (worker (7 ∷ []))

abbrev two_nodes : BaseGraph String
two_nodes = record {
  settings = record { has_loops = false; one_parent = true };
  nodes =
      ("input_node", record { parents = []; children = "resizer" ∷ [] })
      ∷ ("resizer", record { parents = "input_node" ∷ []; children = [] })
      ∷ [];
  adj_mat = ("input_node", "resizer" ∷ []) ∷ [];
}

abbrev pipeline : AsyncPipeline String ℕ ℕ ℕ
pipeline = record {
  sync_policy = parallel_wait;
  root_id = "input_node";
  graph = two_nodes;
  threads =
      (
        "input_node",
        record { worker = record (worker []) { id = "input_node" }; nodes = "input_node" ∷ [] },
      )
      ∷ ("resizer", record { worker = worker (7 ∷ []); nodes = "resizer" ∷ [] })
      ∷ [];
  branches_data = ("input_node", passed 5) ∷ ("resizer", idle) ∷ [];
  output_branches_data = ("resizer", some 3) ∷ [];
  need_stop = false;
}

pipeline-IsValid : IsValid pipeline
unfolding has_unique_keys contains branch_at lookup fits is_ready
pipeline-IsValid = record {
  unique_threads = refl;
  unique_branches = refl;
  has_worker = λ k i. i;
  data_fits = λ k. ground arith;
}

thread_pool_iteration-Iterates_example :
    (p' : AsyncPipeline String ℕ ℕ ℕ) × (thread_pool_iteration (λ k. []) pipeline ≡ some p')
    × Iterates pipeline p'
    × IsValid p'
thread_pool_iteration-Iterates_example = thread_pool_iteration-Iterates pipeline pipeline-IsValid

add_process_data-Takes_example :
    ((add_process_data "resizer" (some 6) pipeline).0
      ≡ is_finished (branch_at "resizer" pipeline.branches_data).status)
    × ((k : String)
        → branch_at k (add_process_data "resizer" (some 6) pipeline).1.branches_data ≡ (
            if "resizer" == k && is_finished (branch_at "resizer" pipeline.branches_data).status
            then passed 6
            else branch_at k pipeline.branches_data))
add_process_data-Takes_example = add_process_data-Takes "resizer" 6 pipeline

resizer_is_not_root : ◌≢◌ {A = String} "resizer" "input_node"
resizer_is_not_root h =
    let same : false ≡ true = (string_eq.equals_iff "resizer" "input_node").1 h in cc

root_starts-Alone_example :
    (is_finished (branch_at "resizer" pipeline.branches_data).status ≡ true)
    × (started_of "resizer" pipeline ≡ none)
unfolding start_of lookup starts_with ready_for_wait_iteration waits_for_root is_wait is_ready
    is_running is_finished
root_starts-Alone_example = root_starts-Alone pipeline 5 "resizer" refl refl resizer_is_not_root

on_finished-Finishes_example :
    (p' : AsyncPipeline String ℕ ℕ ℕ) × ((k : String)
      → let b = if "input_node" == k then idle else branch_at k pipeline.branches_data in
        branch_at k p'.branches_data
        ≡ (if elem k ("resizer" ∷ []) && is_finished b.status then passed 5 else b))
    × ((k : String)
        → lookup k p'.output_branches_data
          ≡ (if "input_node" == k then some (some 5) else lookup k pipeline.output_branches_data))
    × (p'.threads ≡ pipeline.threads)
    × Sends "input_node" 5 p' (on_finished "input_node" 5 pipeline)
unfolding children_of lookup get_last_id last get_node has_unique_keys contains
on_finished-Finishes_example =
    on_finished-Finishes "input_node" 5 ("resizer" ∷ []) pipeline refl refl refl

-- A pool with one worker, whose deriving class counts how often it cleans up.
abbrev pool : ThreadPool String ℕ ℕ ℕ
pool = record {
  threads = ("resizer", worker (7 ∷ [])) ∷ [];
  pool_is_running = true;
  pool_need_stop = false;
}

abbrev second : ThreadPoolWorker String ℕ ℕ ℕ
second = record (worker []) { id = "input_node" }

pool-OwnIds : OwnIds pool
unfolding lookup
pool-OwnIds k w h = ground (arith, string_eq.equals_iff "resizer" k)
