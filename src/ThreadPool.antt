-- ===== src/ThreadPool.antt =====
-- src/core/threading/thread_pool.hpp, without its own thread, which repeats thread_pool_iteration until it is asked
-- to stop. Of `stop` only the loop over the workers is here: an iteration may still be in progress then, since the
-- thread is joined after it. `none` is what throws.
pub mod Stopping
use seekira.Common.{Bool, true, false, not, Option, none, some, List, [], ◌∷◌, Eq, if◌then◌else◌}
use seekira.Common.Dict.{Dict, insert, contains}
use seekira.Worker.{ThreadPoolWorker, stop_worker}

pub record ThreadPool (K D X H : Type 0) : Type 0 where
  pub threads : Dict K (ThreadPoolWorker K D X H)
  pub pool_is_running : Bool
  pub pool_need_stop : Bool

module _ {K D X H : Type 0} where
  abbrev pub new_pool : ThreadPool K D X H
  new_pool = record { threads = []; pool_is_running = false; pool_need_stop = false }

  unfoldable pub run : ThreadPool K D X H → ThreadPool K D X H
  run p =
      if p.pool_is_running then p else record p { pool_need_stop = false; pool_is_running = true }

  unfoldable pub stop_threads :
      Dict K (ThreadPoolWorker K D X H) → Option (Dict K (ThreadPoolWorker K D X H))
  unfolding stop_worker
  stop_threads [] = some []
  stop_threads ((id, w) ∷ m) = elim (stop_worker w) [
    | none ↦ none
    | some w' ↦ elim (stop_threads m) [ none ↦ none | some m' ↦ some ((id, w') ∷ m') ]
  ]

  unfoldable pub add_thread_worker :
      ⦃e : Eq K⦄ → ThreadPoolWorker K D X H → ThreadPool K D X H → Option (ThreadPool K D X H)
  add_thread_worker w p =
      if contains w.id p.threads
      then none
      else some (record p { threads = insert w.id w p.threads })
