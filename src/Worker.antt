-- ===== src/Worker.antt =====
-- src/core/threading/thread_pool_worker.hpp. The thread's loop is cut where it waits: `open_gate` is the
-- first wait, `take_data` the second and what follows it. `process` is the class's virtual method, and
-- `on_finished` the observers' callback; either may throw an exception of type X.
pub mod Order
pub mod Exceptions
use seekira.Common.{
  ℕ, Bool, true, false, not, ◌||◌, Option, none, some, List, [], ◌∷◌, ◌++◌, length, ltb, nat_eq,
  ◌==◌, drop, if◌then◌else◌,
}
use seekira.Events.{EventHandlerList, no_handlers, perform, perform_for_each_event_handler}

pub data Outcome (R X : Type 0) : Type 0 where
  result : R → Outcome R X
  raised : X → Outcome R X

pub record ThreadPoolWorker (K D X H : Type 0) : Type 0 where
  pub id : K
  pub is_running : Bool
  pub need_stop : Bool
  pub data_queue : List D
  pub continues_reading : Bool
  -- The thread has passed the first wait and stands at the second.
  pub awaits_data : Bool
  pub exceptions : List X
  pub event_observers : EventHandlerList H

module _ {X : Type 0} where
  -- `rest` is what stands in `now` from the loop's index on; `at` throws where nothing does.
  unfoldable pub copy_new : ℕ → List X → List X → List X → Option (List X)
  copy_new size now [] copied = if ltb size (length now) then none else some copied
  copy_new size now (x ∷ rest) copied =
      let next = copy_new size now rest (copied ++ x ∷ []) in
      if ltb size (length now) then next else some copied

module _ {K D X H : Type 0} where
  unfoldable pub make_worker : K → ThreadPoolWorker K D X H
  make_worker id = record {
    id = id;
    is_running = false;
    need_stop = false;
    data_queue = [];
    continues_reading = true;
    awaits_data = false;
    exceptions = [];
    event_observers = no_handlers;
  }

  unfoldable pub run_worker : ThreadPoolWorker K D X H → ThreadPoolWorker K D X H
  run_worker w =
      if w.is_running then w else record w { is_running = true; continues_reading = true }

  unfoldable pub add_data : D → ThreadPoolWorker K D X H → ThreadPoolWorker K D X H
  unfolding run_worker
  add_data d w =
      let w' = if not w.is_running then run_worker w else w in
      record w' { data_queue = w'.data_queue ++ d ∷ [] }

  unfoldable pub get_data_size : ThreadPoolWorker K D X H → ℕ
  get_data_size w = length w.data_queue

  unfoldable pub has_data : ThreadPoolWorker K D X H → Bool
  has_data w = elim w.data_queue [ [] ↦ false | d ∷ ds ↦ true ]

  unfoldable pub is_paused : ThreadPoolWorker K D X H → Bool
  is_paused w = not w.continues_reading

  unfoldable pub pause : ThreadPoolWorker K D X H → ThreadPoolWorker K D X H
  pause w = record w { continues_reading = false }

  unfoldable pub continue_reading : ThreadPoolWorker K D X H → ThreadPoolWorker K D X H
  continue_reading w = record w { continues_reading = true }

  unfoldable pub has_exceptions : ThreadPoolWorker K D X H → Bool
  has_exceptions w = elim w.exceptions [ [] ↦ false | x ∷ xs ↦ true ]

  unfoldable pub get_exceptions : ThreadPoolWorker K D X H → List X
  get_exceptions w = w.exceptions

  -- `between` is what the thread pushes after the first lock is released and before the second is
  -- taken. `none` is the exception of `at`.
  unfoldable pub reset_exceptions :
      List X → ThreadPoolWorker K D X H → Option (ThreadPoolWorker K D X H)
  unfolding copy_new
  reset_exceptions between w =
      let size = length w.exceptions in
      let now = w.exceptions ++ between in
      if size == length now
      then some (record w { exceptions = [] })
      else elim (copy_new size now (drop size now) []) [
        | none ↦ none
        | some new ↦ some (record w { exceptions = new })
      ]

  unfoldable pub reset_data : ThreadPoolWorker K D X H → ThreadPoolWorker K D X H
  reset_data w = record w { data_queue = [] }

  -- `stop_worker` up to the join, and after it, when no thread pushes exceptions any more.
  unfoldable pub request_stop : ThreadPoolWorker K D X H → ThreadPoolWorker K D X H
  request_stop w = if not w.is_running then w else record w { need_stop = true }

  unfoldable pub after_join : ThreadPoolWorker K D X H → Option (ThreadPoolWorker K D X H)
  unfolding reset_data reset_exceptions
  after_join w = elim (reset_exceptions [] (reset_data w)) [
    | none ↦ none
    | some w' ↦ some (record w' { is_running = false; need_stop = false; awaits_data = false })
  ]

  unfoldable pub stop_worker : ThreadPoolWorker K D X H → Option (ThreadPoolWorker K D X H)
  unfolding request_stop after_join
  stop_worker w = if not w.is_running then some w else after_join (request_stop w)

  -- `none` in the two waits: the thread goes on waiting, or its loop has ended.
  unfoldable pub open_gate : ThreadPoolWorker K D X H → Option (ThreadPoolWorker K D X H)
  open_gate w =
      if not w.is_running || w.need_stop || w.awaits_data
      then none
      else if w.continues_reading
      then some (record w { awaits_data = true })
      else none

  unfoldable pub notify :
      {R S : Type 0}
      → (H → K → R → S → S × Option X)
      → ThreadPoolWorker K D X H
      → R
      → S
      → S × Option X
  unfolding perform_for_each_event_handler
  notify on_finished w r s =
      perform_for_each_event_handler (λ h. on_finished h w.id r) w.event_observers s

  unfoldable pub keep_exception : Option X → ThreadPoolWorker K D X H → ThreadPoolWorker K D X H
  keep_exception none w = w
  keep_exception (some x) w = record w { exceptions = w.exceptions ++ x ∷ [] }

module _ {K D R X H S : Type 0} (process : D → S → S × Outcome R X)
    (on_finished : H → K → R → S → S × Option X) where
  -- What happens to one piece of data, outside the lock of the queue.
  unfoldable pub handle_data : D → ThreadPoolWorker K D X H → S → ThreadPoolWorker K D X H × S
  unfolding notify keep_exception
  handle_data d w s =
      let (s', o) = process d s in
      elim o [
        | raised x ↦ (keep_exception (some x) w, s')
        | result r ↦ let (s'', x) = notify on_finished w r s' in (keep_exception x w, s'')
      ]

  unfoldable pub take_data : ThreadPoolWorker K D X H → S → Option (ThreadPoolWorker K D X H × S)
  unfolding handle_data
  take_data w s =
      if not w.is_running || w.need_stop || not w.awaits_data then none else elim w.data_queue [
        | [] ↦ none
        | d ∷ ds ↦ some (handle_data d (record w { data_queue = ds; awaits_data = false }) s)
      ]
