-- ===== src/Stream.antt =====
-- src/video/ffmpeg/decoding/stream.cpp. A stream has its demuxer behind the reader's pointer, and a video
-- decoder (decoder_video.cpp), whose state is Decoder: `decode` takes a packet, or a null pointer to get what
-- it holds back, and may throw. A stream that is not of video has no decoder. An image is what a frame shows.
-- `raised` is an exception.
pub mod Places
pub mod Frames
pub mod Seeking
use seekira.Common.{
  ℕ, zero, suc, ◌+◌, Bool, true, false, not, ◌&&◌, ◌||◌, Option, none, some, List, [], ◌∷◌,
  get_elem?, set, ◌==◌, if◌then◌else◌,
}
use seekira.Common.Int.{ℤ, pos, ◌+ℤ◌, leb_ℤ, ltb_ℤ, int_eq}
use seekira.Packet.{DataPacket, pts_or_dts, is_key_frame, no_pts}
use seekira.Demuxer.Seek.{Sought, returned, raised}
use seekira.Source.{Source}
use seekira.StreamReader.{
  StreamInfo, SeekEnd, request_seek as request_seek_info, seek as seek_streams,
}

pub record Frame (Image : Type 0) : Type 0 where
  pub ts : ℤ
  pub duration : ℤ
  pub image : Image

pub record DemuxedStream (Image : Type 0) : Type 0 where
  pub stream : ℕ
  pub has_reader : Bool
  pub has_decoder : Bool
  pub position : ℤ
  pub seek_position : ℤ
  pub terminated : Bool
  pub processed_pkt_count : ℕ
  pub processed_frame_count : ℕ
  pub buffered_packet : Option DataPacket
  pub buffered_data : Option (Frame Image)
  pub last_seek_result : Bool
  pub last_key_frame : Bool

module _ {Image : Type 0} where
  -- The constructor: whether the stream is one of video, and whether its decoder opens; `none` is an exception.
  unfoldable pub make_stream : ℕ → Bool → Bool → Option (DemuxedStream Image)
  make_stream id is_video opens =
      if is_video && not opens
      then none
      else some (record {
        stream = id;
        has_reader = true;
        has_decoder = is_video;
        position = pos 0;
        seek_position = pos 0;
        terminated = false;
        processed_pkt_count = 0;
        processed_frame_count = 0;
        buffered_packet = none;
        buffered_data = none;
        last_seek_result = false;
        last_key_frame = false;
      })

  -- The bookkeeping of `read` on what it returns.
  unfoldable pub count_packet : DataPacket → DemuxedStream Image → DemuxedStream Image
  count_packet p s = record s {
    position = if not (pts_or_dts p == no_pts) then pts_or_dts p +ℤ p.duration else pts_or_dts p;
    processed_pkt_count = s.processed_pkt_count + 1;
  }

  unfoldable pub terminate : DemuxedStream Image → DemuxedStream Image
  terminate s = record s { terminated = true }

  unfoldable pub get_pkt_duration : DemuxedStream Image → ℤ
  get_pkt_duration s = elim s.buffered_packet [ none ↦ no_pts | some p ↦ p.duration ]

  -- `request_seek` on the stream itself; the decoder is flushed and the reader told by the caller.
  unfoldable pub prepare_seek : ℤ → DemuxedStream Image → DemuxedStream Image
  prepare_seek time s = record s {
    terminated = false;
    seek_position = time;
    buffered_packet = none;
    position = no_pts;
  }

  -- The end of `get_seek_result`, on the packet that was found.
  unfoldable pub place : Option DataPacket → DemuxedStream Image → Bool × DemuxedStream Image
  place none s = (false, record s { buffered_packet = none; position = no_pts })
  place (some p) s =
      let ok = leb_ℤ (pts_or_dts p) s.seek_position && is_key_frame p in
      (ok, record s { buffered_packet = some p; position = pts_or_dts p; last_seek_result = ok })

  -- A frame that lies after the position is copied and stays; the buffer is emptied otherwise.
  unfoldable pub deliver_frame :
      Frame Image → DemuxedStream Image → Frame Image × DemuxedStream Image
  deliver_frame f s =
      let this_position = if s.position == no_pts then s.seek_position else s.position in
      (
        f,
        record s {
          buffered_data = if ltb_ℤ this_position f.ts then some f else none;
          position = f.ts +ℤ f.duration;
          processed_frame_count = s.processed_frame_count + 1;
        },
      )

-- `read_frame` returns a frame, or a null pointer, or it uses a packet or a decoder that is a null pointer.
pub data FrameEnd (Image : Type 0) : Type 0 where
  frame : Frame Image → FrameEnd Image
  nothing : FrameEnd Image
  null_packet : FrameEnd Image
  null_decoder : FrameEnd Image

-- What a round of its loop comes to.
pub data FrameStep (Image : Type 0) : Type 0 where
  ends : FrameEnd Image → FrameStep Image
  goes_on : FrameStep Image

module _ {Image : Type 0} where
  -- The decoder's frame is buffered, and the packet is asked whether it is a key frame.
  unfoldable pub buffer_frame :
      Option DataPacket
      → Option (Frame Image)
      → DemuxedStream Image
      → FrameStep Image × DemuxedStream Image
  buffer_frame none none s = (ends nothing, record s { buffered_data = none })
  buffer_frame none (some f) s = (ends null_packet, record s { buffered_data = some f })
  buffer_frame (some q) none s = (goes_on, record s { buffered_data = none })
  buffer_frame (some q) (some f) s =
      (goes_on, record s { buffered_data = some f; last_key_frame = is_key_frame q })

module _ (D : Source) where
  open D use {State}

  -- The loop of `get_seek_result`: past the packets that are not key frames, if the time is positive. The state
  -- is the buffered packet and the demuxer's.
  unfoldable pub skip_to_key :
      ℕ → ℕ → ℤ → Option DataPacket → State → Option (Sought Unit (Option DataPacket × State))
  skip_to_key zero stream time b d = none
  skip_to_key (suc fuel) stream time b d = elim (D.read stream d) [
    | raised d' ↦ some (raised (b, d'))
    | returned none d' ↦ some (returned tt (none, d'))
    | returned (some p) d' ↦
        let rest = skip_to_key fuel stream time (some p) d' in
        if leb_ℤ time (pos 0) || is_key_frame p then some (returned tt (some p, d')) else rest
  ]

module _ (D : Source) {Image : Type 0} where
  open D use {State}

  unfoldable pub read_packet :
      DemuxedStream Image → State → Sought (Option DataPacket) (DemuxedStream Image × State)
  unfolding count_packet
  read_packet s d =
      if not s.has_reader
      then raised (s, d)
      else if s.terminated
      then returned none (s, d)
      else elim s.buffered_packet [
        | some p ↦ returned (some p) (count_packet p (record s { buffered_packet = none }), d)
        | none ↦ elim (D.read s.stream d) [
          | raised d' ↦ raised (s, d')
          | returned none d' ↦ returned none (s, d')
          | returned (some p) d' ↦ returned (some p) (count_packet p s, d')
        ]
      ]

  -- `none` is undefined behaviour: the reader is used, even where it is a null pointer. Each packet that is
  -- skipped is one less to come.
  unfoldable pub get_seek_result :
      DemuxedStream Image → State → Option (Sought Bool (DemuxedStream Image × State))
  unfolding skip_to_key place
  get_seek_result s d =
      if not s.has_reader
      then none
      else elim (skip_to_key D (suc (D.remaining d)) s.stream s.seek_position s.buffered_packet d) [
        | none ↦ none
        | some (raised (b, d')) ↦ some (raised (record s { buffered_packet = b }, d'))
        | some (returned u (p, d')) ↦ let (ok, s') = place p s in some (returned ok (s', d'))
      ]

module _ {Image Decoder : Type 0}
    (decode : Option DataPacket → Decoder → Sought (Option (Frame Image)) Decoder) where
  -- What follows the reading of a packet.
  unfoldable pub decode_packet :
      Option DataPacket
      → DemuxedStream Image
      → Decoder
      → Sought (FrameStep Image) (DemuxedStream Image × Decoder)
  unfolding buffer_frame
  decode_packet p s c =
      if not s.has_decoder then returned (ends null_decoder) (s, c) else elim (decode p c) [
        | raised c' ↦ raised (s, c')
        | returned f c' ↦ let (r, s') = buffer_frame p f s in returned r (s', c')
      ]

  module _ (D : Source) where
    open D use {State}

    unfoldable pub read_step :
        DemuxedStream Image
        → State
        → Decoder
        → Sought (FrameStep Image) (DemuxedStream Image × State × Decoder)
    unfolding deliver_frame
    read_step s d c =
        if s.terminated
        then returned (ends nothing) (s, d, c)
        else if not s.has_reader
        then raised (s, d, c)
        else if leb_ℤ (D.stream_duration s.stream) s.seek_position
        then returned (ends nothing) (s, d, c)
        else elim s.buffered_data [
          | some f ↦ let (g, s') = deliver_frame f s in returned (ends (frame g)) (s', d, c)
          | none ↦ elim (read_packet D s d) [
            | raised (s', d') ↦ raised (s', d', c)
            | returned p (s', d') ↦ elim (decode_packet p s' c) [
              | raised (s2, c') ↦ raised (s2, d', c')
              | returned r (s2, c') ↦ returned r (s2, d', c')
            ]
          ]
        ]

    unfoldable pub read_loop :
        ℕ
        → DemuxedStream Image
        → State
        → Decoder
        → Option (Sought (FrameEnd Image) (DemuxedStream Image × State × Decoder))
    unfolding read_step
    read_loop zero s d c = none
    read_loop (suc fuel) s d c = elim (read_step s d c) [
      | raised t ↦ some (raised t)
      | returned (ends r) t ↦ some (returned r t)
      | returned goes_on (s', d', c') ↦ read_loop fuel s' d' c'
    ]

    -- The buffered packet, the packets to come, and two rounds without one.
    unfoldable pub read_frame :
        DemuxedStream Image
        → State
        → Decoder
        → Option (Sought (FrameEnd Image) (DemuxedStream Image × State × Decoder))
    unfolding read_loop
    read_frame s d c = read_loop (3 + D.remaining d) s d c
