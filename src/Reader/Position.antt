-- ===== src/Reader/Position.antt =====
-- `set_position_impl` and the steps that use it (src/video/ffmpeg/reader/reader_impl.cpp).
use seekira.Common.{
  ℕ, zero, suc, ◌+◌, ◌*◌, Bool, true, false, ◌&&◌, ◌||◌, Option, none, some, ◌==◌, if◌then◌else◌,
}
use seekira.Common.Int.{ℤ, pos, ◌+ℤ◌, ◌-ℤ◌, leb_ℤ, ltb_ℤ, int_eq}
use seekira.Packet.{no_pts, av_second}
use seekira.Events.{disable, enable}
use seekira.VideoStream.{VideoStream}
use seekira.Reader.{
  ReaderFf, ReaderState, unknown, reading, paused, stopped, end_of_file, error, Ran, ran, threw,
  null_frame, then_run, need_break_reading, set_reader_state, read_frame, seek,
}

abbrev pub step_value : ℤ
step_value = pos (10 * av_second)

unfoldable pub is_error : ReaderState → Bool
is_error s = elim s [
  | unknown ↦ false
  | reading ↦ false
  | paused ↦ false
  | stopped ↦ false
  | end_of_file ↦ false
  | error ↦ true
]

-- The frame that is read next is the one that shows at `time`.
unfoldable pub is_target_frame : ℤ → ℤ → ℤ → Bool
is_target_frame time next after = leb_ℤ next time && ltb_ℤ time after

unfoldable pub not_before_start : ℤ → ℤ
not_before_start asked = if ltb_ℤ asked (pos 0) then pos 0 else asked

abbrev pub Reader : VideoStream → Type 0 → Type 0 → Type 0
Reader V A B = ReaderFf V.State V.Image A B

module _ (V : VideoStream) {A B : Type 0} where
  -- The loop that reads up to the frame. `length` is what is taken for the duration of the next frame.
  unfoldable pub read_up_to : ℕ → ℤ → ℤ → Reader V A B → Option (Ran (Reader V A B))
  unfolding is_target_frame
  read_up_to zero time length r = none
  read_up_to (suc fuel) time length r =
      let next = V.get_position r.stream in
      if need_break_reading r || is_target_frame time next (next +ℤ length)
      then some (ran r)
      else elim (read_frame V r) [
        | threw r' ↦ some (threw r')
        | null_frame r' ↦ some (null_frame r')
        | ran r' ↦
            let given = V.get_pkt_duration r'.stream in
            read_up_to fuel time (if given == no_pts then length else given) r'
      ]

  unfoldable pub disable_observers : Reader V A B → Reader V A B
  disable_observers r = record r {
    frame_observers = disable r.frame_observers;
    reader_observers = disable r.reader_observers;
  }

  unfoldable pub enable_observers : Reader V A B → Reader V A B
  enable_observers r = record r {
    frame_observers = enable r.frame_observers;
    reader_observers = enable r.reader_observers;
  }

  -- What follows the loop: the frame that was sought is read and shown, and the state is as before.
  unfoldable pub show_target : ReaderState → Reader V A B → Ran (Reader V A B)
  unfolding enable_observers
  show_target before r =
      let shown = enable_observers r in
      if need_break_reading shown
      then ran (set_reader_state shown.state shown)
      else then_run (λ r'. ran (set_reader_state before r'))
          (read_frame V (record shown { skip_frame_handle = false }))

  -- At most this many frames are read: with each a frame is past, or one more is invalid, up to eleven.
  unfoldable pub frames_left : Reader V A B → ℕ
  frames_left r = 12 + 12 * V.remaining r.stream

  unfoldable pub approach : ReaderState → ℤ → Reader V A B → Option (Ran (Reader V A B))
  unfolding is_error show_target frames_left read_up_to
  approach before time r =
      if is_error r.state
      then some (ran r)
      else elim (read_up_to (frames_left r) time (V.get_pkt_duration r.stream)
          (record r { skip_frame_handle = true })) [
            | none ↦ none
            | some r' ↦ some (then_run (show_target before) r')
          ]

  unfoldable pub go_to : ℤ → Reader V A B → Option (Ran (Reader V A B))
  unfolding disable_observers
  go_to time r = elim (seek V time (disable_observers r)) [
    | threw r' ↦ some (threw r')
    | null_frame r' ↦ some (null_frame r')
    | ran r' ↦ approach r.state time r'
  ]

  -- A message shows the position before the seek, which throws if no frame has been valid.
  unfoldable pub set_position_impl : ℤ → Reader V A B → Option (Ran (Reader V A B))
  unfolding not_before_start
  set_position_impl asked r =
      if leb_ℤ V.duration (not_before_start asked) then some (ran r) else elim r.last_valid_frame [
        | none ↦ some (threw r)
        | some f ↦ go_to (not_before_start asked) r
      ]

  -- An exception leaves the flag set.
  unfoldable pub forced :
      (Reader V A B → Option (Ran (Reader V A B))) → Reader V A B → Option (Ran (Reader V A B))
  forced f r = elim (f (record r { need_handle_after_force_set_pos = true })) [
    | none ↦ none
    | some r' ↦
        some (then_run (λ r2. ran (record r2 { need_handle_after_force_set_pos = false })) r')
  ]

  -- `get_position`, or an exception.
  unfoldable pub moved_by : (ℤ → ℤ) → Reader V A B → Option (Ran (Reader V A B))
  unfolding set_position_impl
  moved_by f r = elim r.last_valid_frame [
    | none ↦ some (threw r)
    | some g ↦ set_position_impl (f g.ts) r
  ]

  unfoldable pub step_forward_impl : Reader V A B → Option (Ran (Reader V A B))
  unfolding forced
  step_forward_impl r =
      if r.continue_reading then some (ran r) else forced (λ r'. some (read_frame V r')) r

  unfoldable pub step_backward_impl : Reader V A B → Option (Ran (Reader V A B))
  unfolding forced moved_by
  step_backward_impl r =
      if r.continue_reading then some (ran r) else forced (moved_by (λ at. at -ℤ r.prev_duration)) r

  unfoldable pub rewind_forward_impl : Reader V A B → Option (Ran (Reader V A B))
  unfolding forced moved_by
  rewind_forward_impl r = forced (moved_by (λ at. at +ℤ step_value)) r

  unfoldable pub rewind_backward_impl : Reader V A B → Option (Ran (Reader V A B))
  unfolding forced moved_by
  rewind_backward_impl r = forced (moved_by (λ at. at -ℤ step_value)) r
