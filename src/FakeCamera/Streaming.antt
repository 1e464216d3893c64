-- ===== src/FakeCamera/Streaming.antt =====
-- The streaming thread of a camera that is not cyclic.
use mathlib.Core.List.{append-nil, append_assoc}
use seekira.Common.{
  ℕ, ◌≤◌, ◌≡◌, refl, sym, ◌∙◌, ap, Bool, true, false, ◌||◌, Option, none, some, List, [], ◌∷◌, ◌++◌,
  arith, length, inl, inr, Option-cases,
}
use seekira.PixelFormat.{PixFmt}
use seekira.FakeCamera.{
  FakeCameraSettings, Files, FakeCameraStreamer, Streamed, left, streams_on, threw, exhausted,
  open_file, take_path, get_next_frame, stop_streaming, stream_round, stream,
}

unfoldable pub any_stop : List Bool → Bool
any_stop [] = false
any_stop (b ∷ bs) = b || any_stop bs

module _ {FilePath Image : Type 0} (F : Files FilePath Image) (source_path : FilePath)
    (frame_rate : Option ℕ) (pix_fmt : PixFmt) where
  abbrev pub settings : FakeCameraSettings FilePath
  settings = record {
    source_path = source_path;
    is_cyclic = false;
    frame_rate = frame_rate;
    pix_fmt = pix_fmt;
  }

  -- A streamer at work.
  abbrev pub streamer :
      List FilePath → List FilePath → List Image → FakeCameraStreamer FilePath Image
  streamer fs rs images = record {
    provider = record { frames = fs; retired_frames = rs; settings = settings };
    is_streaming = true;
    is_joinable = true;
    handled = images;
  }

  -- The images of frames, in their order, where each of them opens.
  abbrev pub Opens : List FilePath → List Image → Type 0
  Opens [] [] = Unit
  Opens [] (i ∷ is) = ⊥
  Opens (f ∷ fs) [] = ⊥
  Opens (f ∷ fs) (i ∷ is) = (open_file F f pix_fmt ≡ some i) × Opens fs is

  -- How far the thread has come: `shown` has been handed on, and `rest` is left.
  pub record Reached (fs : List FilePath) (images : List Image)
      (s : FakeCameraStreamer FilePath Image) : Type 0 where
    pub shown : List FilePath
    pub shown_images : List Image
    pub parts : fs ≡ shown ++ s.provider.frames
    pub opens : Opens shown shown_images
    pub handles : s.handled ≡ images ++ shown_images

  abbrev pub Streams :
      List FilePath → List Image → List Bool → Streamed (FakeCameraStreamer FilePath Image) → Type 0
  Streams fs images stops (left s) =
      Reached fs images s
      × (s.is_streaming ≡ false)
      × (any_stop stops ≡ false → s.provider.frames ≡ [])
  Streams fs images stops (streams_on s) =
      Reached fs images s × (s.is_streaming ≡ true) × (length stops ≤ length fs)
  Streams fs images stops threw =
      (shown : List FilePath) × (shown_images : List Image) × (f : FilePath) × (rest : List
        FilePath)
      × (fs ≡ shown ++ f ∷ rest)
      × Opens shown shown_images
      × (open_file F f pix_fmt ≡ none)

  Reached-next :
      (f : FilePath) (fs : List FilePath) (image : Image) (images : List Image)
      (s : FakeCameraStreamer FilePath Image)
      → open_file F f pix_fmt ≡ some image
      → Reached fs (images ++ image ∷ []) s
      → Reached (f ∷ fs) images s
  Reached-next f fs image images s opens r = record {
    shown = f ∷ r.shown;
    shown_images = image ∷ r.shown_images;
    parts = ap (λ l. f ∷ l) r.parts;
    opens = (opens, r.opens);
    handles = r.handles ∙ append_assoc images (image ∷ []) r.shown_images;
  }

  Streams-next :
      (f : FilePath) (fs : List FilePath) (image : Image) (images : List Image) (stops : List Bool)
      (r : Streamed (FakeCameraStreamer FilePath Image))
      → open_file F f pix_fmt ≡ some image
      → Streams fs (images ++ image ∷ []) stops r
      → Streams (f ∷ fs) images (false ∷ stops) r
  unfolding any_stop
  Streams-next f fs image images stops (left s) opens (reached, off, all) =
      (Reached-next f fs image images s opens reached, off, all)
  Streams-next f fs image images stops (streams_on s) opens (reached, on, few) =
      (Reached-next f fs image images s opens reached, on, omega arith)
  Streams-next f fs image images stops threw opens
        (shown, shown_images, f', rest, parts, more, fails) =
      (f ∷ shown, image ∷ shown_images, f', rest, ap (λ l. f ∷ l) parts, (opens, more), fails)

  -- No frame has been handed on yet.
  nothing_yet :
      (fs rs : List FilePath) (images : List Image) (b : Bool)
      → Reached fs images (record (streamer fs rs images) { is_streaming = b })
  nothing_yet fs rs images b = record {
    shown = [];
    shown_images = [];
    parts = refl;
    opens = tt;
    handles = sym (append-nil images);
  }

  -- The thread of a camera that is not cyclic opens its frames one after the other and hands their images to the
  -- handlers, whenever `stop` comes: at any time the frames are those whose images were handed on, in this order,
  -- and then those that are left. It goes on for at most as many rounds as there are frames. When it has left, the
  -- flag is down, and without a `stop` no frame is left. It throws only where a frame does not open, the first such
  -- one after those whose images were handed on.
  pub stream-Streams :
      (stops : List Bool) (fs rs : List FilePath) (images : List Image)
      → Streams fs images stops (stream F stops (streamer fs rs images))
  unfolding stream stream_round any_stop stop_streaming exhausted get_next_frame take_path open_file
  stream-Streams [] fs rs images = (nothing_yet fs rs images true, refl, omega arith)
  stream-Streams (true ∷ stops) fs rs images = (nothing_yet fs rs images false, refl, λ h. cc)
  stream-Streams (false ∷ stops) [] rs images = (nothing_yet [] rs images false, refl, λ h. refl)
  stream-Streams (false ∷ stops) (f ∷ fs) rs images = elim (Option-cases (open_file F f pix_fmt)) [
    | inl fails ↦ rw fails ([], [], f, fs, refl, tt, fails)
    | inr (image, opens) ↦ rw opens (
        Streams-next f fs image images stops _ opens
          (stream-Streams stops fs rs (images ++ image ∷ [])))
  ]
