-- ===== src/ParserFf.antt =====
-- src/video/ffmpeg/decoding/parser.cpp, the part that gives the packets of a file their times. S is the state of
-- ffmpeg's input, whose streams do not change while packets are read. An index that is not in one of the
-- parser's vectors reads zero or `false`; the code only uses indices of streams.
pub mod Times
pub mod Chapters
pub mod Reading
pub mod Fixed
pub mod Wrapping
pub mod Seeking
pub mod Shifting
use seekira.Common.{
  ℕ, zero, suc, ◌+◌, ◌-◌, ◌*◌, ◌^◌, Bool, true, false, not, ◌&&◌, ◌||◌, List, [], ◌∷◌, ltb,
  if◌then◌else◌,
}
use seekira.Common.Int.{ℤ, pos, negsuc, pos_part, ltb_ℤ}
use seekira.Common.Dict.{Dict}
use seekira.Packet.{MediaType}

-- What the parser uses of ffmpeg's `AVPacket`, `AVRational` and `AVStream`.
pub record AvPacket : Type 0 where
  pub stream_index : ℤ
  pub pts : ℤ
  pub dts : ℤ
  pub duration : ℤ
  pub place : ℤ
  pub size : ℕ
  pub flags : ℕ

pub record AvRational : Type 0 where
  pub num : ℤ
  pub den : ℤ

pub data CodecType : Type 0 where
  video_codec audio_codec data_codec other_codec : CodecType

pub record AvStream : Type 0 where
  pub codec_type : CodecType
  pub is_apng : Bool
  pub start_time : ℤ
  pub time_base : AvRational
  pub avg_frame_rate : AvRational
  pub r_frame_rate : AvRational

pub record ChapterVob : Type 0 where
  pub pts_start : ℤ
  pub pts_end : ℤ
  pub time_shift : ℤ
  pub pos_start : ℤ
  pub pos_end : ℤ

pub record ParserFf (S : Type 0) : Type 0 where
  pub input : S
  pub streams : List AvStream
  pub start_time : ℤ
  pub stream_count : ℕ
  pub gen_pts : List ℤ
  pub time_shift : List ℤ
  pub first_pkt_pos : ℤ
  pub dts_shifts : List ℤ
  pub last_seek_ts : Dict ℤ ℤ
  pub first_stream_pkt_received : List Bool
  pub default_chapter_list_index : ℤ
  pub current_chapter : Dict ℤ ℤ
  pub chapters : Dict ℤ (List ChapterVob)
  pub prev_pkt_times : Dict ℤ (ℤ × ℤ)
  pub format_swf : Bool
  pub format_vob : Bool
  pub format_vro : Bool
  pub format_pix : Bool
  pub format_mpeg_ts : Bool
  pub format_dav : Bool
  pub format_asf : Bool

unfoldable pub is_binary_seek : {S : Type 0} → ParserFf S → Bool
is_binary_seek p = p.format_dav || p.format_pix || p.format_vob || p.format_vro

unfoldable pub get_available_fps : AvStream → AvRational
get_available_fps s =
    if ltb_ℤ (pos 0) s.avg_frame_rate.num && ltb_ℤ (pos 0) s.avg_frame_rate.den
    then s.avg_frame_rate
    else s.r_frame_rate
