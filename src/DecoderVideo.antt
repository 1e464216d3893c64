-- ===== src/DecoderVideo.antt =====
-- src/video/ffmpeg/decoding/decoder_video.cpp: packets go to a codec, its frames are timed, and each frame is held
-- back until the time of the next one tells its duration. The codec and the scaling of its images are
-- operations of ffmpeg, and so are the two quotients of a second by the frame rate.
pub mod Decoding
pub mod Delivery
pub mod Receiving
pub mod Runs
pub mod Timing
use seekira.Common.{
  ℕ, zero, suc, ◌+◌, Bool, true, false, not, ◌&&◌, ◌||◌, Option, none, some, List, [], ◌∷◌, ◌++◌,
  ◌==◌, if◌then◌else◌,
}
use seekira.Common.Int.{ℤ, pos, ◌+ℤ◌, ◌-ℤ◌, leb_ℤ, ltb_ℤ, int_eq}
use seekira.Packet.{DataPacket, TimestampFf, TimeFf, is_key_frame, no_pts}
use seekira.ParserFf.{AvRational}
use seekira.Stream.{Frame}

-- A frame of the codec: its times, which of its planes are there, and what it shows.
pub record AvFrame (Raw : Type 0) : Type 0 where
  pub pts : TimestampFf
  pub best_effort_timestamp : TimestampFf
  pub pkt_duration : TimeFf
  pub plane_0 : Bool
  pub plane_1 : Bool
  pub plane_2 : Bool
  pub raw : Raw

-- What `send_packet` returns: AVERROR(EAGAIN), AVERROR_EOF, another negative number, or none of these.
pub data SendCode : Type 0 where
  again end_of_file refused taken : SendCode

-- `receive` gives `none` for AVERROR_EOF and AVERROR(EAGAIN), and for another
-- error a frame without planes; `scale` gives `none` where the frame is not
-- allocated or an exception is caught. `send` takes no packet to drain the codec.
pub record VideoCodec (C Raw Image : Type 0) : Type 0 where
  pub send : Option DataPacket → C → SendCode × C
  pub receive : C → Option (AvFrame Raw) × C
  pub has_codec : C → Bool
  pub is_yuv420 : C → Bool
  pub flush_buffers : C → C
  pub close : C → C
  pub scale : Raw → C → Option Image
  pub packet_time : AvRational → TimeFf
  pub average_time : AvRational → TimeFf

pub record DecoderVideo (C Image : Type 0) : Type 0 where
  pub codec : C
  pub fps : AvRational
  pub can_reopen_decoder : Bool
  pub clock_reset : Bool
  pub clock : TimestampFf
  pub first_frame_after_seek : Bool
  pub use_dts : Bool
  pub prev_duration_clock : TimeFf
  pub prev_duration_frame_pkt : TimeFf
  pub has_sws : Bool
  pub queue : List (Frame Image)
  pub prev_frame : Option (Frame Image)
  pub start_time : TimestampFf
  pub processed_count : ℕ

-- A call returns, throws, or has no fuel.
pub data Call (R S : Type 0) : Type 0 where
  gives : R → S → Call R S
  throws : S → Call R S
  no_fuel : Call R S

-- How a round of the loop of `decode` ends.
pub data DecodeRound (Image : Type 0) : Type 0 where
  hands_out : Option (Frame Image) → DecodeRound Image
  goes_on : DecodeRound Image

-- How the loop over the codec's frames ends.
pub data LoopEnd : Type 0 where
  breaks no_image : LoopEnd

module _ {C Raw Image : Type 0} (V : VideoCodec C Raw Image) where
  open V use {
    send, receive, has_codec, is_yuv420, flush_buffers, close, scale, packet_time, average_time,
  }

  unfoldable pub flush : TimestampFf → DecoderVideo C Image → DecoderVideo C Image
  flush start_time d = record d {
    use_dts = false;
    first_frame_after_seek = true;
    prev_duration_clock = pos 0;
    prev_duration_frame_pkt = pos 0;
    prev_frame = none;
    start_time = start_time;
    codec = if has_codec d.codec then flush_buffers d.codec else d.codec;
    clock_reset = true;
    clock = no_pts;
    queue = [];
  }

  unfoldable pub release_internal_data : DecoderVideo C Image → DecoderVideo C Image
  release_internal_data d = record d {
    prev_frame = none;
    has_sws = false;
    codec = if has_codec d.codec then close d.codec else d.codec;
    can_reopen_decoder = has_codec d.codec || d.can_reopen_decoder;
    clock_reset = true;
  }

  -- `found` is what `avcodec_find_decoder` has found, and `opened` the context that `avcodec_open2` opens.
  unfoldable pub get_context : Bool → Option C → AvRational → Option C
  get_context found opened fps = if not found then none else elim opened [
    | none ↦ none
    | some c ↦
        if fps.num == pos 0 || fps.den == pos 0
        then none
        else some (if has_codec c then flush_buffers c else c)
  ]

  unfoldable pub open_decoder :
      Bool → Option C → AvRational → DecoderVideo C Image → Bool × DecoderVideo C Image
  unfolding get_context
  open_decoder found opened fps d =
      let d' = record d {
        fps = fps;
        clock = pos 0;
        clock_reset = true;
        can_reopen_decoder = false;
      } in
      elim (get_context found opened fps) [
        | none ↦ (false, d')
        | some c ↦ (
          true,
          record d' {
            codec = c;
            clock = no_pts;
            use_dts = false;
            first_frame_after_seek = true;
            has_sws = true;
          },
        )
      ]
