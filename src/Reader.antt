-- ===== src/Reader.antt =====
-- src/video/ffmpeg/reader/reader.cpp and reader.hpp. The observers are known by their addresses, A those of
-- frames and B those of states; `notices` are the calls that are queued for them, in order.
pub mod Position
pub mod Worker
pub mod Ends
pub mod Newest
pub mod Quiet
pub mod Shows
use seekira.Common.{
  ℕ, zero, suc, ◌+◌, Bool, true, false, not, ◌&&◌, ◌||◌, Option, none, some, List, [], ◌∷◌, ◌++◌,
  ltb, if◌then◌else◌,
}
use seekira.Common.Int.{ℤ, pos}
use seekira.Demuxer.Seek.{Sought, returned, raised}
use seekira.Events.{EventHandlerList, perform_for_each_event_handler}
use seekira.Stream.{Frame}
use seekira.VideoStream.{VideoStream}

pub data ReaderMode : Type 0 where
  no_mode : ReaderMode
  key_frame : ReaderMode
  all_frames : ReaderMode

pub data ReaderState : Type 0 where
  unknown : ReaderState
  reading : ReaderState
  paused : ReaderState
  stopped : ReaderState
  end_of_file : ReaderState
  error : ReaderState

pub data Notice (Image A B : Type 0) : Type 0 where
  frame_told : A → Frame Image → Notice Image A B
  state_told : B → ReaderState → Notice Image A B

pub data ReaderEvent : Type 0 where
  undefined_event : ReaderEvent
  play : ReaderEvent
  pause : ReaderEvent
  stop : ReaderEvent
  step_forward : ReaderEvent
  step_backward : ReaderEvent
  rewind_forward : ReaderEvent
  rewind_backward : ReaderEvent
  set_position : ℤ → ReaderEvent

pub record ReaderFf (State Image A B : Type 0) : Type 0 where
  pub stream : State
  pub event_queue : List ReaderEvent
  pub last_valid_frame : Option (Frame Image)
  pub prev_duration : ℤ
  pub invalid_counter : ℕ
  pub frame_observers : EventHandlerList A
  pub reader_observers : EventHandlerList B
  pub mode : ReaderMode
  pub state : ReaderState
  pub continue_reading : Bool
  pub need_stop : Bool
  pub skip_frame_handle : Bool
  pub need_handle_after_force_set_pos : Bool
  pub is_last_key_frame : Bool
  pub notices : List (Notice Image A B)

-- A call returns, or it throws, or it uses a null pointer as the last valid frame.
pub data Ran (R : Type 0) : Type 0 where
  ran : R → Ran R
  threw : R → Ran R
  null_frame : R → Ran R

abbrev pub then_run : {R : Type 0} → (R → Ran R) → Ran R → Ran R
then_run f (ran r) = f r
then_run f (threw r) = threw r
then_run f (null_frame r) = null_frame r

abbrev pub max_invalid_threshold : ℕ
max_invalid_threshold = 10

unfoldable pub is_valid_state : ReaderState → Bool
is_valid_state unknown = false
is_valid_state reading = true
is_valid_state paused = true
is_valid_state stopped = false
is_valid_state end_of_file = true
is_valid_state error = false

unfoldable pub shows_all : ReaderMode → Bool
shows_all no_mode = false
shows_all key_frame = false
shows_all all_frames = true

module _ {State Image A B : Type 0} where
  unfoldable pub add_reader_event :
      ReaderEvent → ReaderFf State Image A B → ReaderFf State Image A B
  add_reader_event e r = record r { event_queue = r.event_queue ++ e ∷ [] }

  unfoldable pub has_event : ReaderFf State Image A B → Bool
  has_event r = elim r.event_queue [ [] ↦ false | e ∷ es ↦ true ]

  unfoldable pub set_reader_state :
      ReaderState → ReaderFf State Image A B → ReaderFf State Image A B
  unfolding perform_for_each_event_handler
  set_reader_state s r =
      let told =
        perform_for_each_event_handler {X = Unit} (λ b ns. (ns ++ state_told b s ∷ [], none))
          r.reader_observers r.notices in
      record r { state = s; notices = told.0 }

  unfoldable pub tell_frame : Frame Image → ReaderFf State Image A B → ReaderFf State Image A B
  unfolding perform_for_each_event_handler
  tell_frame f r =
      let told =
        perform_for_each_event_handler {X = Unit} (λ a ns. (ns ++ frame_told a f ∷ [], none))
          r.frame_observers r.notices in
      record r { notices = told.0 }

  unfoldable pub need_break_reading : ReaderFf State Image A B → Bool
  unfolding is_valid_state
  need_break_reading r =
      r.need_stop || not (is_valid_state r.state) || ltb max_invalid_threshold r.invalid_counter

  unfoldable pub need_handle_frame : ReaderFf State Image A B → Bool
  unfolding shows_all
  need_handle_frame r =
      if r.skip_frame_handle
      then false
      else shows_all r.mode || r.is_last_key_frame || r.need_handle_after_force_set_pos

  -- What `read_frame` does with what it has read. The last line, a message, shows the last valid frame.
  unfoldable pub take_frame :
      Option (Frame Image) → ReaderFf State Image A B → Ran (ReaderFf State Image A B)
  unfolding need_handle_frame tell_frame
  take_frame (some f) r =
      let kept = record r {
        invalid_counter = 0;
        prev_duration = elim r.last_valid_frame [ none ↦ pos 0 | some g ↦ g.duration ];
        last_valid_frame = some f;
      } in
      ran (if need_handle_frame r then tell_frame f kept else kept)
  take_frame none r =
      let counted = record r { invalid_counter = suc r.invalid_counter } in
      elim r.last_valid_frame [ none ↦ null_frame counted | some f ↦ ran counted ]

module _ (V : VideoStream) {A B : Type 0} where
  unfoldable pub read_frame : ReaderFf V.State V.Image A B → Ran (ReaderFf V.State V.Image A B)
  unfolding take_frame
  read_frame r = elim (V.read_frame r.stream) [
    | raised s ↦ threw (record r { stream = s })
    | returned f s ↦
        take_frame f (record r { stream = s; is_last_key_frame = V.is_last_key_frame s })
  ]

  -- `request_seek`, `do_seek` and what follows them.
  unfoldable pub seek : ℤ → ReaderFf V.State V.Image A B → Ran (ReaderFf V.State V.Image A B)
  unfolding set_reader_state
  seek time r = elim (V.seek time r.stream) [
    | raised s ↦ threw (record r { stream = s })
    | returned u s ↦
        let r' = record r { stream = s } in
        ran (if not (V.get_last_seek_result s) then set_reader_state error r' else r')
  ]
