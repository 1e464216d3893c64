-- ===== src/Worker/Exceptions.antt =====
-- The reset of a worker's exceptions, with what the thread adds between its two locks.
use seekira.Common.{
  ℕ, ◌≡◌, refl, true, false, Option, none, some, List, [], ◌∷◌, ◌++◌, arith, length, length-append,
  ltb, drop, nat_eq, if◌then◌else◌, inl, inr, Bool-cases,
}
use seekira.Worker.{
  ThreadPoolWorker, copy_new, reset_exceptions, reset_data, after_join, request_stop, stop_worker,
}

module _ {X : Type 0} where
  copy_new-raises :
      (size : ℕ) (now rest copied : List X)
      → ltb size (length now) ≡ true
      → copy_new size now rest copied ≡ none
  unfolding copy_new
  copy_new-raises size now [] copied h = rw h
  copy_new-raises size now (x ∷ rest) copied h =
      rw h (copy_new-raises size now rest (copied ++ x ∷ []) h)

module _ {K D X H : Type 0} where
  abbrev pub Resets : ThreadPoolWorker K D X H → List X → Option (ThreadPoolWorker K D X H) → Type 0
  Resets w [] o = o ≡ some (record w { exceptions = [] })
  Resets w (x ∷ xs) o = o ≡ none

  -- `reset_exceptions` clears the exceptions when the thread adds none between its two locks. When the
  -- thread adds one there, the loop that copies the new ones does not end by its condition, and `at`
  -- throws.
  pub reset_exceptions-Resets :
      (between : List X) (w : ThreadPoolWorker K D X H)
      → Resets w between (reset_exceptions between w)
  unfolding reset_exceptions
  reset_exceptions-Resets [] w = ground (arith, length-append w.exceptions [])
  reset_exceptions-Resets (x ∷ xs) w =
      let now = w.exceptions ++ x ∷ xs in
      let longer = length-append w.exceptions (x ∷ xs) in
      ground (
        arith,
        longer,
        copy_new-raises (length w.exceptions) now (drop (length w.exceptions) now) []
            (ground (arith, longer)),
      )

  after_join-stops :
      (w : ThreadPoolWorker K D X H)
      → after_join w
        ≡ some (record w {
          is_running = false;
          need_stop = false;
          data_queue = [];
          awaits_data = false;
          exceptions = [];
        })
  unfolding after_join reset_data
  after_join-stops w = rw (after_join, reset_exceptions-Resets [] (reset_data w)) refl

  -- `stop_worker` never throws. A running worker has no data and no exceptions after it, and can be
  -- started again; a worker that does not run is left as it is, with the data that it has.
  pub stop_worker-stops :
      (w : ThreadPoolWorker K D X H)
      → stop_worker w
        ≡ some (
            if w.is_running
            then record w {
              is_running = false;
              need_stop = false;
              data_queue = [];
              awaits_data = false;
              exceptions = [];
            }
            else w)
  unfolding stop_worker request_stop after_join reset_data
  stop_worker-stops w = elim (Bool-cases w.is_running) [
    | inl on ↦ simp (on, after_join-stops)
    | inr off ↦ simp off
  ]
