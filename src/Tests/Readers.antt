-- ===== src/Tests/Readers.antt =====
-- A clip of three frames, its reader, and the reader's theorems at it.
use seekira.Common.{
  ℕ, ◌<◌, ◌≤◌, ◌≡◌, refl, true, false, Option, none, some, List, [], ◌∷◌, arith, length,
}
use seekira.Common.Int.{ℤ, pos, ◌+ℤ◌}
use seekira.Packet.{no_pts}
use seekira.Demuxer.Seek.{Sought, returned}
use seekira.Events.{EventHandlerList, disable, enable, perform_for_each_event_handler}
use seekira.Stream.{Frame}
use seekira.VideoStream.{VideoStream}
use seekira.Reader.{
  Ran, ran, threw, null_frame, play, stop, set_position, paused, key_frame, Notice, frame_told,
  state_told, need_break_reading, seek, read_frame, take_frame, set_reader_state, tell_frame,
  need_handle_frame, shows_all, is_valid_state,
}
use seekira.Reader.Position.{
  Reader, not_before_start, set_position_impl, go_to, approach, read_up_to, is_target_frame,
  show_target, is_error, disable_observers, enable_observers, frames_left,
}
use seekira.Reader.Newest.{turns, switched, turns-newest}

abbrev picture : ℕ → Frame ℕ
picture t = record { ts = pos t; duration = pos 40; image = t }

show_next : List ℕ → Sought (Option (Frame ℕ)) (List ℕ)
show_next [] = returned none []
show_next (t ∷ ts) = returned (some (picture t)) ts

place_of : List ℕ → ℤ
place_of [] = no_pts
place_of (t ∷ ts) = pos t

show_next-shrinks :
    (s s' : List ℕ) (f : Frame ℕ) → show_next s ≡ returned (some f) s' → length s' < length s
unfolding show_next
show_next-shrinks [] s' f e = cc
show_next-shrinks (t ∷ ts) s' f e = ground arith

show_next-keeps : (s s' : List ℕ) → show_next s ≡ returned none s' → length s' ≤ length s
unfolding show_next
show_next-keeps [] s' e = ground arith
show_next-keeps (t ∷ ts) s' e = cc

abbrev clip : VideoStream
clip = record {
  Image = ℕ;
  State = List ℕ;
  duration = pos 120;
  read_frame = show_next;
  seek = λ t s. returned tt (0 ∷ 40 ∷ 80 ∷ []);
  is_last_key_frame = λ s. false;
  is_eof_reached = λ s. false;
  get_last_seek_result = λ s. true;
  get_position = place_of;
  get_pkt_duration = λ s. pos 40;
  remaining = length;
  read_shrinks = show_next-shrinks;
  read_keeps = show_next-keeps;
}

abbrev listeners : {H : Type 0} → H → EventHandlerList H
listeners h = record { subscribers = h ∷ []; cache = []; is_enabled = true }

abbrev paused_reader : Reader clip ℕ ℕ
paused_reader = record {
  stream = 80 ∷ [];
  event_queue = play ∷ set_position (pos 90) ∷ [];
  last_valid_frame = some (picture 40);
  prev_duration = pos 40;
  invalid_counter = 0;
  frame_observers = listeners 1;
  reader_observers = listeners 2;
  mode = key_frame;
  state = paused;
  continue_reading = false;
  need_stop = false;
  skip_frame_handle = false;
  need_handle_after_force_set_pos = true;
  is_last_key_frame = false;
  notices = [];
}

notices_of : Option (Ran (Reader clip ℕ ℕ)) → Option (List (Notice ℕ ℕ ℕ))
notices_of none = none
notices_of (some (ran r)) = some r.notices
notices_of (some (threw r)) = none
notices_of (some (null_frame r)) = none

-- Two frames are passed over; the third, which shows at 90, is told, and then the state.
set_to_90 :
    notices_of (set_position_impl clip (pos 90) paused_reader)
    ≡ some (frame_told 1 (picture 80) ∷ state_told 2 paused ∷ [])
unfolding ◌+ℤ◌ notices_of set_position_impl go_to approach read_up_to is_target_frame show_target
    is_error disable_observers enable_observers frames_left not_before_start seek read_frame
    take_frame set_reader_state tell_frame need_handle_frame shows_all need_break_reading
    is_valid_state disable enable perform_for_each_event_handler show_next place_of
set_to_90 = refl

-- A position that was asked for and a stop are lost.
turns-newest_example :
    turns clip 3 (record paused_reader { event_queue = set_position (pos 90) ∷ stop ∷ play ∷ [] })
    ≡ some (switched clip true [] paused_reader)
unfolding need_break_reading is_valid_state
turns-newest_example =
    turns-newest clip true (set_position (pos 90) ∷ stop ∷ [])
      (record paused_reader { event_queue = set_position (pos 90) ∷ stop ∷ play ∷ [] }) refl refl
