-- ===== src/FakeCamera.antt =====
-- src/video/camera/camera_fake: a camera whose frames are the image files of a directory, or one file. Files are
-- known by their path; `open_file` of src/video/frame/utils/frame_utils_io.cpp opens one with OpenCV.
pub mod Rounds
pub mod Streaming
use seekira.Common.{
  ℕ, zero, suc, Bool, true, false, not, ◌&&◌, Option, none, some, List, [], ◌∷◌, ◌++◌,
  if◌then◌else◌,
}
use seekira.PixelFormat.{PixFmt, undefined, gray, rgb, rgba, bgr, bgra, end_of}

pub record FakeCameraSettings (FilePath : Type 0) : Type 0 where
  pub source_path : FilePath
  pub is_cyclic : Bool
  pub frame_rate : Option ℕ
  pub pix_fmt : PixFmt

pub record FakeFrameProvider (FilePath : Type 0) : Type 0 where
  pub frames : List FilePath
  pub retired_frames : List FilePath
  pub settings : FakeCameraSettings FilePath

-- The file system: `list_directory` gives the entries of a directory, with what is a directory itself. `read_image`
-- is what OpenCV makes of a file in a pixel format, or `none` where it throws.
pub record Files (FilePath Image : Type 0) : Type 0 where
  pub exists : FilePath → Bool
  pub list_directory : FilePath → Option (List (FilePath × Bool))
  pub read_image : FilePath → PixFmt → Option Image
  pub is_valid : Image → Bool

-- A next frame; or the exception of `open_file`, after which the path has been moved on; or all have been read,
-- which throws; or the front of an empty deque, which is undefined.
pub data NextFrame (FilePath Image : Type 0) : Type 0 where
  took : Image → FakeFrameProvider FilePath → NextFrame FilePath Image
  open_failed : FakeFrameProvider FilePath → NextFrame FilePath Image
  all_read : NextFrame FilePath Image
  no_front : NextFrame FilePath Image

-- The formats of which `open_file` knows how to read a file.
unfoldable pub can_open : PixFmt → Bool
can_open undefined = false
can_open gray = true
can_open rgb = true
can_open rgba = true
can_open bgr = true
can_open bgra = true
can_open end_of = false

abbrev pub default_fps : ℕ
default_fps = 30

module _ {FilePath : Type 0} where
  unfoldable pub exhausted : FakeFrameProvider FilePath → Bool
  exhausted p = elim p.frames [ [] ↦ true | f ∷ fs ↦ false ]

  unfoldable pub with_rate : FakeCameraSettings FilePath → FakeCameraSettings FilePath
  with_rate s = elim s.frame_rate [ none ↦ record s { frame_rate = some default_fps } | some r ↦ s ]

  unfoldable pub refill : FakeFrameProvider FilePath → FakeFrameProvider FilePath
  refill p = record p { frames = p.retired_frames; retired_frames = p.frames }

module _ {FilePath Image : Type 0} (F : Files FilePath Image) where
  open F use {exists, list_directory, read_image, is_valid}

  -- `none` is an exception.
  unfoldable pub open_file : FilePath → PixFmt → Option Image
  unfolding can_open
  open_file path fmt = if not (can_open fmt) then none else read_image path fmt

  unfoldable pub add_frame : List FilePath → FilePath → Option (List FilePath)
  add_frame frames path = elim (open_file path bgr) [
    | none ↦ none
    | some image ↦ some (if is_valid image then frames ++ path ∷ [] else frames)
  ]

  unfoldable pub add_entries : List FilePath → List (FilePath × Bool) → Option (List FilePath)
  unfolding add_frame
  add_entries frames [] = some frames
  add_entries frames ((path, is_directory) ∷ entries) =
      elim (if is_directory then some frames else add_frame frames path) [
        | none ↦ none
        | some frames' ↦ add_entries frames' entries
      ]

  -- The constructor; `none` is an exception.
  unfoldable pub make_provider : FakeCameraSettings FilePath → Option (FakeFrameProvider FilePath)
  unfolding add_entries with_rate
  make_provider s =
      let p : List FilePath → FakeFrameProvider FilePath =
        λ frames. record { frames = frames; retired_frames = []; settings = with_rate s } in
      if not (exists s.source_path) then none else elim (list_directory s.source_path) [
        | some entries ↦ elim (add_entries [] entries) [
          | none ↦ none
          | some [] ↦ none
          | some (f ∷ fs) ↦ some (p (f ∷ fs))
        ]
        | none ↦ elim (open_file s.source_path bgr) [
          | none ↦ none
          | some image ↦ if is_valid image then some (p (s.source_path ∷ [])) else none
        ]
      ]

  unfoldable pub take_path : FakeFrameProvider FilePath → NextFrame FilePath Image
  take_path p = elim p.frames [
    | [] ↦ no_front
    | f ∷ fs ↦
        let p' : FakeFrameProvider FilePath = record p {
          frames = fs;
          retired_frames =
              if p.settings.is_cyclic then p.retired_frames ++ f ∷ [] else p.retired_frames;
        } in
        elim (open_file f p.settings.pix_fmt) [ none ↦ open_failed p' | some image ↦ took image p' ]
  ]

  unfoldable pub get_next_frame : FakeFrameProvider FilePath → NextFrame FilePath Image
  unfolding take_path exhausted refill
  get_next_frame p =
      if exhausted p
      then (if not p.settings.is_cyclic then all_read else take_path (refill p))
      else take_path p

-- The streamer: `handled` is what went to the handlers of frames, and `is_joinable` tells of its thread.
pub record FakeCameraStreamer (FilePath Image : Type 0) : Type 0 where
  pub provider : FakeFrameProvider FilePath
  pub is_streaming : Bool
  pub is_joinable : Bool
  pub handled : List Image

-- `aborted` is a `std::terminate`, `refused` a failed STEP_ASSERT.
pub data Started (S : Type 0) : Type 0 where
  started : S → Started S
  refused : Started S
  aborted : Started S

-- How a round of the streaming thread ends.
pub data Streamed (S : Type 0) : Type 0 where
  left : S → Streamed S
  streams_on : S → Streamed S
  threw : Streamed S

module _ {FilePath Image : Type 0} where
  unfoldable pub start :
      FakeCameraStreamer FilePath Image → Started (FakeCameraStreamer FilePath Image)
  start s =
      if s.is_streaming
      then refused
      else if s.is_joinable
      then aborted
      else started (record s { is_streaming = true; is_joinable = true })

  -- `stop` up to the join, which ends when the streaming thread has left its loop.
  unfoldable pub stop_streaming :
      FakeCameraStreamer FilePath Image → FakeCameraStreamer FilePath Image
  stop_streaming s = record s { is_streaming = false }

module _ {FilePath Image : Type 0} (F : Files FilePath Image) where
  -- A round; `is_stopped` tells whether `stop` comes between the two tests of the flag.
  unfoldable pub stream_round :
      Bool → FakeCameraStreamer FilePath Image → Streamed (FakeCameraStreamer FilePath Image)
  unfolding get_next_frame exhausted stop_streaming
  stream_round is_stopped s =
      if not s.is_streaming
      then left s
      else if is_stopped
      then left (stop_streaming s)
      else if not s.provider.settings.is_cyclic && exhausted s.provider
      then left (record s { is_streaming = false })
      else elim (get_next_frame F s.provider) [
        | took image p ↦ streams_on (record s { provider = p; handled = s.handled ++ image ∷ [] })
        | open_failed p ↦ threw
        | all_read ↦ threw
        | no_front ↦ threw
      ]

  -- The rounds of the thread, with what `stop` does in each.
  unfoldable pub stream :
      List Bool → FakeCameraStreamer FilePath Image → Streamed (FakeCameraStreamer FilePath Image)
  unfolding stream_round
  stream [] s = streams_on s
  stream (is_stopped ∷ more) s = elim (stream_round is_stopped s) [
    | left s' ↦ left s'
    | streams_on s' ↦ stream more s'
    | threw ↦ threw
  ]
