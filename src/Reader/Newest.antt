-- ===== src/Reader/Newest.antt =====
-- Which of the events that wait the worker handles.
use seekira.Common.{
  ℕ, zero, suc, ◌≡◌, refl, inl, inr, Bool, true, false, Option, none, some, List, [], ◌∷◌, ◌++◌,
  length, Bool-cases,
}
use seekira.VideoStream.{VideoStream}
use seekira.Reader.{ReaderEvent, play, pause, need_break_reading}
use seekira.Reader.Position.{Reader}
use seekira.Reader.Worker.{
  left, again, waits, failed, crashed, newest, take_event, turn_of, play_impl, pause_impl,
  handle_event, iterate,
}

newest-snoc : (d e : ReaderEvent) (q : List ReaderEvent) → newest d (q ++ e ∷ []) ≡ e
unfolding newest
newest-snoc d e [] = refl
newest-snoc d e (x ∷ q) = newest-snoc x e q

-- The event that lets the worker read on, and the one that does not.
abbrev pub switch : Bool → ReaderEvent
switch true = play
switch false = pause

module _ (V : VideoStream) {A B : Type 0} where
  -- So many turns of the worker, one after the other; `none` if it does not come to them.
  unfoldable pub turns : ℕ → Reader V A B → Option (Reader V A B)
  turns zero r = some r
  turns (suc n) r = elim (iterate V r) [
    | none ↦ none
    | some t ↦ elim t [
      | again r' ↦ turns n r'
      | left r' ↦ none
      | waits r' ↦ none
      | failed r' ↦ none
      | crashed r' ↦ none
    ]
  ]

  abbrev pub switched : Bool → List ReaderEvent → Reader V A B → Reader V A B
  switched on q r = record r { event_queue = q; continue_reading = on }

  handle-switch :
      (on : Bool) (r : Reader V A B) (q : List ReaderEvent)
      → elim (handle_event V (switch on) (record r { event_queue = q })) [
        | none ↦ none
        | some x ↦ some (turn_of x)
      ]
        ≡ some (again (switched on q r))
  unfolding handle_event turn_of play_impl pause_impl
  handle-switch true r q = elim (Bool-cases r.continue_reading) [
    | inl on ↦ simp on refl
    | inr off ↦ simp off refl
  ]
  handle-switch false r q = elim (Bool-cases r.continue_reading) [
    | inl on ↦ simp on refl
    | inr off ↦ simp off refl
  ]

  iterate-switch :
      (on : Bool) (r : Reader V A B) (e : ReaderEvent) (q : List ReaderEvent)
      → need_break_reading r ≡ false
      → r.event_queue ≡ e ∷ q
      → newest e q ≡ switch on
      → iterate V r ≡ some (again (switched on q r))
  unfolding iterate take_event
  iterate-switch on r e q runs queue last = simp (iterate, runs, queue, last) (handle-switch on r q)

  -- A worker that runs, and for which events wait, the newest of them a play or a pause, does, if none is added, what this one
  -- asks for in a turn for each event: the queue is empty then, and nothing but the reading on or off has changed.
  -- The older events, a stop or a new position among them, are lost.
  pub turns-newest :
      (on : Bool) (q : List ReaderEvent) (r : Reader V A B)
      → need_break_reading r ≡ false
      → r.event_queue ≡ q ++ switch on ∷ []
      → turns (suc (length q)) r ≡ some (switched on [] r)
  unfolding turns need_break_reading newest
  turns-newest on [] r runs queue =
      rw (turns, iterate-switch on r (switch on) [] runs queue refl) refl
  turns-newest on (d ∷ q) r runs queue =
      rw
        (
          turns,
          iterate-switch on r d (q ++ switch on ∷ []) runs queue (newest-snoc d (switch on) q),
        )
        (turns-newest on q (switched on (q ++ switch on ∷ []) r) runs refl)
