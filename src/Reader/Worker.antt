-- ===== src/Reader/Worker.antt =====
-- The events and the turns of the worker thread (`handle_event` and `worker_thread` of
-- src/video/ffmpeg/reader/reader.cpp).
use seekira.Common.{
  Bool, true, false, not, ◌&&◌, ◌||◌, Option, none, some, List, [], ◌∷◌, if◌then◌else◌,
}
use seekira.VideoStream.{VideoStream}
use seekira.Reader.{
  ReaderState, reading, paused, error, end_of_file, unknown, stopped, ReaderEvent, undefined_event,
  play, pause, stop, step_forward, step_backward, rewind_forward, rewind_backward, set_position,
  Ran, ran, threw, null_frame, need_break_reading, has_event, set_reader_state, add_reader_event,
  read_frame,
}
use seekira.Reader.Position.{
  Reader, set_position_impl, step_forward_impl, step_backward_impl, rewind_forward_impl,
  rewind_backward_impl,
}

-- `back` and then `pop` of the queue: the event is the last one, and the first one is removed.
unfoldable pub newest : ReaderEvent → List ReaderEvent → ReaderEvent
newest e [] = e
newest e (f ∷ es) = newest f es

unfoldable pub take_event : List ReaderEvent → Option (ReaderEvent × List ReaderEvent)
unfolding newest
take_event [] = none
take_event (e ∷ es) = some (newest e es, es)

-- The loop ends, or begins again, or waits for another thread; or it ends by an exception, or a null pointer
-- is used.
pub data Turn (R : Type 0) : Type 0 where
  left : R → Turn R
  again : R → Turn R
  waits : R → Turn R
  failed : R → Turn R
  crashed : R → Turn R

unfoldable pub turn_of : {R : Type 0} → Ran R → Turn R
turn_of (ran r) = again r
turn_of (threw r) = failed r
turn_of (null_frame r) = crashed r

unfoldable pub is_end_of_file : ReaderState → Bool
is_end_of_file s = elim s [
  | unknown ↦ false
  | reading ↦ false
  | paused ↦ false
  | stopped ↦ false
  | end_of_file ↦ true
  | error ↦ false
]

module _ (V : VideoStream) {A B : Type 0} where
  unfoldable pub play_impl : Reader V A B → Reader V A B
  play_impl r = if not r.continue_reading then record r { continue_reading = true } else r

  unfoldable pub pause_impl : Reader V A B → Reader V A B
  pause_impl r = if r.continue_reading then record r { continue_reading = false } else r

  unfoldable pub stop_impl : Reader V A B → Reader V A B
  stop_impl r = record r { continue_reading = false; need_stop = true }

  unfoldable pub handle_event : ReaderEvent → Reader V A B → Option (Ran (Reader V A B))
  handle_event undefined_event r = some (threw r)
  handle_event pause r = some (ran (pause_impl r))
  handle_event play r = some (ran (play_impl r))
  handle_event stop r = some (ran (stop_impl r))
  handle_event step_forward r = step_forward_impl V r
  handle_event step_backward r = step_backward_impl V r
  handle_event rewind_forward r = rewind_forward_impl V r
  handle_event rewind_backward r = rewind_backward_impl V r
  handle_event (set_position time) r = set_position_impl V time r

  -- From the end of the wait on: `has_event` holds if an event has come while it waited.
  unfoldable pub after_wait : Reader V A B → Turn (Reader V A B)
  unfolding set_reader_state turn_of has_event
  after_wait r =
      if need_break_reading r
      then left r
      else if has_event r
      then again r
      else turn_of (read_frame V (set_reader_state reading r))

  unfoldable pub await : Reader V A B → Turn (Reader V A B)
  unfolding after_wait set_reader_state
  await r =
      let at_end = if V.is_eof_reached r.stream then record r { continue_reading = false } else r in
      let told = if not at_end.continue_reading then set_reader_state paused at_end else at_end in
      if need_break_reading told || has_event told || told.continue_reading
      then after_wait told
      else waits told

  -- A turn of the loop.
  unfoldable pub iterate : Reader V A B → Option (Turn (Reader V A B))
  unfolding take_event turn_of
  iterate r = if need_break_reading r then some (left r) else elim (take_event r.event_queue) [
    | none ↦ some (await r)
    | some (e, es) ↦ elim (handle_event e (record r { event_queue = es })) [
      | none ↦ none
      | some x ↦ some (turn_of x)
    ]
  ]

  -- What follows the loop.
  unfoldable pub finish_loop : Reader V A B → Reader V A B
  unfolding set_reader_state is_end_of_file add_reader_event
  finish_loop r =
      let ended = record r { continue_reading = false } in
      if not ended.need_stop && need_break_reading ended
      then set_reader_state error ended
      else if is_end_of_file ended.state
      then add_reader_event pause ended
      else ended
