-- ===== src/Packet.antt =====
-- src/video/ffmpeg/interfaces/types.hpp and the accessors of src/video/ffmpeg/decoding/data_packet.hpp.
-- A packet is a value: the reference counted buffer behind it is ffmpeg's.
use Prim.Native.Nat.{bit_and}
use seekira.Common.{ℕ, ◌-◌, ◌^◌, ◌*◌, Bool, not, ◌==◌, nat_eq, if◌then◌else◌}
use seekira.Common.Int.{ℤ, negsuc, int_eq}

pub data MediaType : Type 0 where
  undefined video audio : MediaType

abbrev pub TimestampFf : Type 0
TimestampFf = ℤ

abbrev pub TimeFf : Type 0
TimeFf = ℤ

-- `AV_NOPTS_VALUE` of ffmpeg, the least `int64_t`.
abbrev pub no_pts : ℤ
no_pts = negsuc (2 ^ 63 - 1)

abbrev pub av_millisecond : ℕ
av_millisecond = 1000

abbrev pub av_second : ℕ
av_second = 1000 * av_millisecond

-- ffmpeg's `AV_PKT_FLAG_KEY` and `AV_PKT_FLAG_CORRUPT`.
abbrev pub flag_key : ℕ
flag_key = 1

abbrev pub flag_corrupt : ℕ
flag_corrupt = 2

pub record DataPacket : Type 0 where
  pub media_type : MediaType
  pub stream_index : ℕ
  pub pts : TimestampFf
  pub dts : TimestampFf
  pub duration : TimeFf
  pub flags : ℕ
  pub pos_in_file : ℤ
  pub size : ℕ

unfoldable pub pts_or_dts : DataPacket → TimestampFf
pts_or_dts p = if not (p.pts == no_pts) then p.pts else p.dts

unfoldable pub is_key_frame : DataPacket → Bool
is_key_frame p = not (bit_and p.flags flag_key == 0)

unfoldable pub is_corrupted : DataPacket → Bool
is_corrupted p = not (bit_and p.flags flag_corrupt == 0)

unfoldable pub is_minor_field : DataPacket → Bool
is_minor_field p = p.pos_in_file == negsuc 0
