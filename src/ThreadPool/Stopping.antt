-- ===== src/ThreadPool/Stopping.antt =====
-- What is left when the workers have been stopped, and that every worker stands under its own id.
use seekira.Common.{
  ◌≡◌, refl, sym, ◌∙◌, ap, inl, inr, true, false, Option, none, some, [], ◌∷◌, arith, Eq, ◌==◌,
  if◌then◌else◌, Bool-cases,
}
use seekira.Common.Dict.{Dict, lookup, insert, contains, lookup-insert}
use seekira.Worker.{ThreadPoolWorker}
use seekira.Worker.Exceptions.{stop_worker-stops}
use seekira.ThreadPool.{ThreadPool, stop_threads, add_thread_worker}

module _ {K D X H : Type 0} where
  abbrev stopped : ThreadPoolWorker K D X H → ThreadPoolWorker K D X H
  stopped w =
      if w.is_running
      then record w {
        is_running = false;
        need_stop = false;
        data_queue = [];
        awaits_data = false;
        exceptions = [];
      }
      else w

  abbrev stopped_of : Option (ThreadPoolWorker K D X H) → Option (ThreadPoolWorker K D X H)
  stopped_of none = none
  stopped_of (some w) = some (stopped w)

module _ {K D X H : Type 0} ⦃e : Eq K⦄ where
  -- The workers that run are stopped and have neither data nor exceptions, the others are left as they are.
  stop_threads-stops :
      (m : Dict K (ThreadPoolWorker K D X H))
      → (m' : Dict K (ThreadPoolWorker K D X H)) × (stop_threads m ≡ some m')
        × ((k : K) → lookup k m' ≡ stopped_of (lookup k m))
  unfolding stop_threads lookup
  stop_threads-stops [] = ([], refl, λ k. refl)
  stop_threads-stops ((id, w) ∷ m) =
      let (m', f, at) = stop_threads-stops m in
      (
        (id, stopped w) ∷ m',
        rw (stop_threads, stop_worker-stops w, f) refl,
        λ k. elim (Bool-cases (id == k)) [
          | inl h ↦ rw (h, lookup) refl
          | inr h ↦ rw (h, lookup) (at k)
        ],
      )

  -- Every worker stands under its own id.
  abbrev pub OwnIds : ThreadPool K D X H → Type 0
  OwnIds p = (k : K) (w : ThreadPoolWorker K D X H) → lookup k p.threads ≡ some w → w.id ≡ k

  -- In a pool whose workers stand under their own ids, `add_thread_worker` throws exactly when a worker with this id is there; otherwise the worker is
  -- found under its id, the others stay, and every worker still stands under its own id.
  pub add_thread_worker-Adds :
      (w : ThreadPoolWorker K D X H) (p : ThreadPool K D X H)
      → OwnIds p
      → (contains w.id p.threads ≡ true → add_thread_worker w p ≡ none)
        × (contains w.id p.threads ≡ false
            → (p' : ThreadPool K D X H) × (add_thread_worker w p ≡ some p')
              × OwnIds p'
              × ((k : K)
                  → lookup k p'.threads ≡ (if w.id == k then some w else lookup k p.threads)))
  unfolding add_thread_worker
  add_thread_worker-Adds w p own = (
    (λ h. simp h),
    λ h. (
      record p { threads = insert w.id w p.threads },
      simp h,
      (λ k v f. elim (Bool-cases (w.id == k)) [
        | inl same ↦
            let found : w ≡ v = ground (arith, lookup-insert w.id k w p.threads) in
            ap (λ x. x.id) (sym found) ∙ (e.equals_iff w.id k).0 same
        | inr other ↦ own k v (ground (arith, lookup-insert w.id k w p.threads))
      ]),
      λ k. lookup-insert w.id k w p.threads,
    ),
  )
