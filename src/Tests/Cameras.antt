-- ===== src/Tests/Cameras.antt =====
-- A directory of files, and the theorems on cameras at it.
use seekira.Common.{
  String, ◌+◌, ◌*◌, ◌≡◌, refl, true, false, not, none, some, [], ◌∷◌, if◌then◌else◌, string_eq,
  ◌==◌,
}
use seekira.PixelFormat.{bgr, undefined}
use seekira.FakeCamera.{
  FakeCameraSettings, FakeFrameProvider, Files, FakeCameraStreamer, aborted, left, threw, with_rate,
  get_next_frame, take_path, open_file, can_open, add_frame, add_entries, make_provider, start,
  exhausted, stream_round, stream,
}
use seekira.FakeCamera.Rounds.{repeated, take_frames, take_frames-repeated}
use seekira.FakeCamera.Streaming.{streamer, Streams, stream-Streams}

-- A file shows its name; one of them is no image.
abbrev folder : Files String String
folder = record {
  exists = λ p. true;
  list_directory = λ p.
      if p == "frames"
      then some (("a.png", false) ∷ ("old", true) ∷ ("b.txt", false) ∷ ("c.png", false) ∷ [])
      else none;
  read_image = λ p fmt. some p;
  is_valid = λ i. not (i == "b.txt");
}

abbrev cyclic : FakeCameraSettings String
cyclic = record { source_path = "frames"; is_cyclic = true; frame_rate = none; pix_fmt = bgr }

abbrev two_frames : FakeFrameProvider String
two_frames = record {
  frames = "a.png" ∷ "c.png" ∷ [];
  retired_frames = [];
  settings = record cyclic { frame_rate = some 30 };
}

make_provider-folder : make_provider folder cyclic ≡ some two_frames
unfolding make_provider add_entries add_frame with_rate open_file can_open
make_provider-folder = refl

-- The constructor opens the files in another format than the thread, and takes one that no file opens in.
abbrev without_format : FakeCameraStreamer String String
without_format = record {
  provider = record two_frames { settings = record cyclic { pix_fmt = undefined } };
  is_streaming = true;
  is_joinable = true;
  handled = [];
}

stream-without_format : stream folder (false ∷ []) without_format ≡ threw
unfolding stream stream_round exhausted get_next_frame take_path open_file can_open
stream-without_format = refl

take_frames-repeated_example :
    (p : FakeFrameProvider String) × (take_frames folder (2 * 2 + 1) two_frames
      ≡ some ("a.png" ∷ "c.png" ∷ "a.png" ∷ "c.png" ∷ "a.png" ∷ [], p))
unfolding repeated open_file can_open
take_frames-repeated_example =
    take_frames-repeated folder (record cyclic { frame_rate = some 30 }) refl (λ p. p) 2 "a.png"
      ("c.png" ∷ []) ("a.png" ∷ []) ("c.png" ∷ []) (refl, (refl, tt)) refl

stream-Streams_example :
    Streams folder "frames" none bgr ("a.png" ∷ "c.png" ∷ []) [] (false ∷ false ∷ true ∷ []) (
      stream folder
        (false ∷ false ∷ true ∷ [])
        (streamer folder "frames" none bgr ("a.png" ∷ "c.png" ∷ []) [] []))
stream-Streams_example =
    stream-Streams folder "frames" none bgr (false ∷ false ∷ true ∷ []) ("a.png" ∷ "c.png" ∷ []) []
      []

-- The thread of a camera that has shown all of its frames was not joined, and `start` begins another.
abbrev finished : FakeCameraStreamer String String
finished = record {
  provider = record two_frames { frames = []; settings = record cyclic { is_cyclic = false } };
  is_streaming = false;
  is_joinable = true;
  handled = "a.png" ∷ "c.png" ∷ [];
}

stream_ends : stream folder (false ∷ []) (record finished { is_streaming = true }) ≡ left finished
unfolding stream stream_round exhausted
stream_ends = refl

start_again : start finished ≡ aborted
unfolding start
start_again = refl
