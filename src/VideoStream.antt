-- ===== src/VideoStream.antt =====
-- What a reader uses of its stream (`IStream` of video/ffmpeg/interfaces/stream.hpp). `read_frame` and a seek,
-- which is `request_seek` without a checker and then `do_seek`, return or throw; `none` is a null pointer.
use seekira.Common.{ℕ, ◌≡◌, ◌<◌, ◌≤◌, Bool, Option, none, some}
use seekira.Common.Int.{ℤ}
use seekira.Demuxer.Seek.{Sought, returned}
use seekira.Stream.{Frame}

-- `remaining` bounds the frames that are still to come before the next seek: a file is finite.
pub record VideoStream : Type 1 where
  pub Image : Type 0
  pub State : Type 0
  pub duration : ℤ
  pub read_frame : State → Sought (Option (Frame Image)) State
  pub seek : ℤ → State → Sought Unit State
  pub is_last_key_frame : State → Bool
  pub is_eof_reached : State → Bool
  pub get_last_seek_result : State → Bool
  pub get_position : State → ℤ
  pub get_pkt_duration : State → ℤ
  pub remaining : State → ℕ
  pub read_shrinks :
      (s s' : State) (f : Frame Image)
      → read_frame s ≡ returned (some f) s'
      → remaining s' < remaining s
  pub read_keeps : (s s' : State) → read_frame s ≡ returned none s' → remaining s' ≤ remaining s
