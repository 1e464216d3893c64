-- ===== src/Worker/Order.antt =====
-- Any interleaving of a worker's callers with its thread.
use seekira.Common.{
  ℕ, suc, ◌≡◌, refl, sym, ◌∙◌, ap, inl, inr, ◌⊎◌, false, Option, none, some, List, [], ◌∷◌, ◌++◌,
  arith, length, Option-cases, List-cases,
}
use mathlib.Core.List.{append-nil, append_assoc}
use seekira.Events.{perform, perform_for_each_event_handler}
use seekira.Worker.{
  notify, ThreadPoolWorker, run_worker, add_data, pause, continue_reading, open_gate, handle_data,
  take_data, Outcome, raised, result, keep_exception,
}

pub data Event (D : Type 0) : Type 0 where
  adds : D → Event D
  pauses : Event D
  continues : Event D
  opens : Event D
  takes : Event D

Outcome-cases :
    {R X : Type 0} (o : Outcome R X) → ((x : X) × (o ≡ raised x)) ⊎ ((r : R) × (o ≡ result r))
Outcome-cases (raised x) = inl (x, refl)
Outcome-cases (result r) = inr (r, refl)

module _ {K D R X H S : Type 0} (process : D → S → S × Outcome R X)
    (on_finished : H → K → R → S → S × Option X) where
  -- A step of the thread that cannot be made is no step of a run.
  unfoldable pub step :
      Event D → ThreadPoolWorker K D X H → S → Option (ThreadPoolWorker K D X H × S)
  step (adds d) w s = some (add_data d w, s)
  step pauses w s = some (pause w, s)
  step continues w s = some (continue_reading w, s)
  step opens w s = elim (open_gate w) [ none ↦ none | some w' ↦ some (w', s) ]
  step takes w s = take_data process on_finished w s

  unfoldable pub run_events :
      List (Event D) → ThreadPoolWorker K D X H → S → Option (ThreadPoolWorker K D X H × S)
  unfolding step
  run_events [] w s = some (w, s)
  run_events (e ∷ es) w s = elim (step e w s) [ none ↦ none | some (w', s') ↦ run_events es w' s' ]

  unfoldable pub added : List (Event D) → List D
  added [] = []
  added (adds d ∷ es) = d ∷ added es
  added (pauses ∷ es) = added es
  added (continues ∷ es) = added es
  added (opens ∷ es) = added es
  added (takes ∷ es) = added es

  unfoldable pub takes_count : List (Event D) → ℕ
  takes_count [] = 0
  takes_count (adds d ∷ es) = takes_count es
  takes_count (pauses ∷ es) = takes_count es
  takes_count (continues ∷ es) = takes_count es
  takes_count (opens ∷ es) = takes_count es
  takes_count (takes ∷ es) = suc (takes_count es)

  abbrev kept : Option X → List X → List X
  kept none xs = xs
  kept (some x) xs = xs ++ x ∷ []

  -- One piece of data in a program without threads: it is processed, then every observer is told, and
  -- the first exception is kept.
  unfoldable pub serve : K → List H → D → List X → S → List X × S
  unfolding perform
  serve id hs d xs s =
      let (s', o) = process d s in
      elim o [
        | raised x ↦ (kept (some x) xs, s')
        | result r ↦ let (s'', x) = perform (λ h. on_finished h id r) hs s' in (kept x xs, s'')
      ]

  unfoldable pub serve_all : K → List H → List D → List X → S → List X × S
  unfolding serve
  serve_all id hs [] xs s = (xs, s)
  serve_all id hs (d ∷ ds) xs s = let (xs', s') = serve id hs d xs s in serve_all id hs ds xs' s'

  keep-kept :
      (x : Option X) (w : ThreadPoolWorker K D X H)
      → keep_exception x w ≡ record w { exceptions = kept x w.exceptions }
  unfolding keep_exception
  keep-kept none w = refl
  keep-kept (some x) w = refl

  handle_data-serve :
      (d : D) (w : ThreadPoolWorker K D X H) (s : S)
      → let (xs, s') = serve w.id w.event_observers.subscribers d w.exceptions s in
        handle_data process on_finished d w s ≡ (record w { exceptions = xs }, s')
  unfolding handle_data serve notify perform_for_each_event_handler
  handle_data-serve d w s = elim (Outcome-cases (process d s).1) [
    | inl (x, e) ↦ rw (e, handle_data, serve) refl
    | inr (r, e) ↦
        let x =
          (perform (λ h. on_finished h w.id r) w.event_observers.subscribers (process d s).0).1 in
        rw (e, handle_data, serve) (simp (keep-kept x w))
  ]

  -- What a run comes to: the data that it took are the first that were there or were added, in order;
  -- the rest is left in the queue; exceptions and observers saw what they would have seen without
  -- threads.
  pub record Serializes (es : List (Event D)) (w : ThreadPoolWorker K D X H) (s : S)
      (w' : ThreadPoolWorker K D X H) (s' : S) : Type 0 where
    pub taken : List D
    pub in_order : taken ++ w'.data_queue ≡ w.data_queue ++ added es
    pub each_once : length taken ≡ takes_count es
    pub as_serial :
        (w'.exceptions, s') ≡ serve_all w.id w.event_observers.subscribers taken w.exceptions s

  -- What one step of the thread leaves alone.
  record Keeps (w w' : ThreadPoolWorker K D X H) : Type 0 where
    same_id : w'.id ≡ w.id
    same_observers : w'.event_observers ≡ w.event_observers

  record Quiet (e : Event D) (w : ThreadPoolWorker K D X H) (s : S) (w' : ThreadPoolWorker K D X H)
      (s' : S) : Type 0 where
    keeps : Keeps w w'
    same_exceptions : w'.exceptions ≡ w.exceptions
    same_state : s' ≡ s
    queue : w'.data_queue ≡ w.data_queue ++ added (e ∷ [])
    takes_nothing : takes_count (e ∷ []) ≡ 0

  record Takes (w : ThreadPoolWorker K D X H) (s : S) (w' : ThreadPoolWorker K D X H) (s' : S)
      : Type 0 where
    keeps : Keeps w w'
    d : D
    queue : w.data_queue ≡ d ∷ w'.data_queue
    served : (w'.exceptions, s') ≡ serve w.id w.event_observers.subscribers d w.exceptions s

  take_data-Takes :
      (w : ThreadPoolWorker K D X H) (s : S) (w' : ThreadPoolWorker K D X H) (s' : S)
      → take_data process on_finished w s ≡ some (w', s')
      → Takes w s w' s'
  unfolding take_data
  take_data-Takes w s w' s' h = elim (List-cases w.data_queue) [
    | inl e ↦ ground arith
    | inr (d, ds, e) ↦
        let w1 = record w { data_queue = ds; awaits_data = false } in
        let done : handle_data process on_finished d w1 s ≡ (w', s') = ground arith in
        let was : (w', s') ≡ _ = sym done ∙ handle_data-serve d w1 s in
        record {
          keeps = record {
            same_id = ap (λ p. p.0.id) was;
            same_observers = ap (λ p. p.0.event_observers) was;
          };
          d = d;
          queue = e ∙ ap (λ p. d ∷ p.0.data_queue) (sym was);
          served = ap (λ p. (p.0.exceptions, p.1)) was;
        }
  ]

  add_data-Quiet :
      (d : D) (w : ThreadPoolWorker K D X H) (s : S) → Quiet (adds d) w s (add_data d w) s
  unfolding add_data run_worker added takes_count
  add_data-Quiet d w s = record {
    keeps = record { same_id = ground arith; same_observers = ground arith };
    same_exceptions = ground arith;
    same_state = refl;
    queue = ground arith;
    takes_nothing = refl;
  }

  pause-Quiet : (w : ThreadPoolWorker K D X H) (s : S) → Quiet pauses w s (pause w) s
  unfolding pause added takes_count
  pause-Quiet w s = record {
    keeps = record { same_id = refl; same_observers = refl };
    same_exceptions = refl;
    same_state = refl;
    queue = sym (append-nil w.data_queue);
    takes_nothing = refl;
  }

  continue_reading-Quiet :
      (w : ThreadPoolWorker K D X H) (s : S) → Quiet continues w s (continue_reading w) s
  unfolding continue_reading added takes_count
  continue_reading-Quiet w s = record {
    keeps = record { same_id = refl; same_observers = refl };
    same_exceptions = refl;
    same_state = refl;
    queue = sym (append-nil w.data_queue);
    takes_nothing = refl;
  }

  open_gate-Quiet :
      (w : ThreadPoolWorker K D X H) (s : S) (w' : ThreadPoolWorker K D X H)
      → open_gate w ≡ some w'
      → Quiet opens w s w' s
  unfolding open_gate added takes_count
  open_gate-Quiet w s w' h = record {
    keeps = record { same_id = ground arith; same_observers = ground arith };
    same_exceptions = ground arith;
    same_state = refl;
    queue = ground (arith, append-nil w.data_queue);
    takes_nothing = refl;
  }

  Quiet-Serializes :
      (e : Event D) (es : List (Event D)) (w w1 w' : ThreadPoolWorker K D X H) (s s1 s' : S)
      → Quiet e w s w1 s1
      → added (e ∷ es) ≡ added (e ∷ []) ++ added es
      → takes_count (e ∷ es) ≡ takes_count es
      → Serializes es w1 s1 w' s'
      → Serializes (e ∷ es) w s w' s'
  Quiet-Serializes e es w w1 w' s s1 s' q a t r = record {
    taken = r.taken;
    in_order =
        r.in_order
        ∙ ap (λ l. l ++ added es) q.queue
        ∙ append_assoc w.data_queue (added (e ∷ [])) (added es)
        ∙ ap (λ l. w.data_queue ++ l) (sym a);
    each_once = r.each_once ∙ sym t;
    as_serial =
        rw (q.keeps.same_id, q.keeps.same_observers, q.same_exceptions, q.same_state) at
          r.as_serial;
  }

  Takes-Serializes :
      (es : List (Event D)) (w w1 w' : ThreadPoolWorker K D X H) (s s1 s' : S)
      → Takes w s w1 s1
      → Serializes es w1 s1 w' s'
      → Serializes (takes ∷ es) w s w' s'
  unfolding added takes_count serve_all
  Takes-Serializes es w w1 w' s s1 s' t r = record {
    taken = t.d ∷ r.taken;
    in_order = ap (λ l. t.d ∷ l) r.in_order ∙ ap (λ l. l ++ added es) (sym t.queue);
    each_once = ap suc r.each_once;
    as_serial =
        (rw (t.keeps.same_id, t.keeps.same_observers) at r.as_serial)
        ∙ ap (λ p. serve_all w.id w.event_observers.subscribers r.taken p.0 p.1) t.served;
  }

  -- In every run: however the callers' `add_data`, `pause` and `continue_reading` interleave with the thread, and
  -- however often the thread waits, the thread takes the data that were queued or added in order, each
  -- once, and the observers' state and the exceptions are those of a program that handles the same data
  -- one after the other without threads.
  pub run_events-Serializes :
      (es : List (Event D)) (w w' : ThreadPoolWorker K D X H) (s s' : S)
      → run_events es w s ≡ some (w', s')
      → Serializes es w s w' s'
  unfolding run_events step added takes_count serve_all
  run_events-Serializes [] w w' s s' h =
      let was : ◌≡◌ {A = ThreadPoolWorker K D X H × S} (w, s) (w', s') = cc in
      record {
        taken = [];
        in_order = ap (λ p. p.0.data_queue) (sym was) ∙ sym (append-nil w.data_queue);
        each_once = refl;
        as_serial = ap (λ p. (p.0.exceptions, p.1)) (sym was);
      }
  run_events-Serializes (adds d ∷ es) w w' s s' h =
      Quiet-Serializes (adds d) es w (add_data d w) w' s s s' (add_data-Quiet d w s) refl refl
        (run_events-Serializes es (add_data d w) w' s s' h)
  run_events-Serializes (pauses ∷ es) w w' s s' h =
      Quiet-Serializes pauses es w (pause w) w' s s s' (pause-Quiet w s) refl refl
        (run_events-Serializes es (pause w) w' s s' h)
  run_events-Serializes (continues ∷ es) w w' s s' h =
      Quiet-Serializes continues es w (continue_reading w) w' s s s' (continue_reading-Quiet w s)
        refl refl (run_events-Serializes es (continue_reading w) w' s s' h)
  run_events-Serializes (opens ∷ es) w w' s s' h = elim (Option-cases (open_gate w)) [
    | inl e ↦ ground arith
    | inr (w1, e) ↦
        Quiet-Serializes opens es w w1 w' s s s' (open_gate-Quiet w s w1 e) refl refl
          (run_events-Serializes es w1 w' s s' (rw (e, run_events, step) at h))
  ]
  run_events-Serializes (takes ∷ es) w w' s s' h =
      elim (Option-cases (take_data process on_finished w s)) [
        | inl e ↦ ground arith
        | inr ((w1, s1), e) ↦
            Takes-Serializes es w w1 w' s s1 s' (take_data-Takes w s w1 s1 e)
              (run_events-Serializes es w1 w' s1 s' (rw (e, run_events, step) at h))
      ]
