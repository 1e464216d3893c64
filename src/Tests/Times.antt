-- ===== src/Tests/Times.antt =====
-- A file with two streams, and the theorems on packets' times at it.
use seekira.Common.{
  suc, ℕ, ◌-◌, ◌≤◌, ◌<◌, ◌≡◌, refl, if◌then◌else◌, ltb, ◌⊎◌, Bool, true, false, none, some, [], ◌∷◌,
  arith,
}
use seekira.Common.Int.{ℤ, pos, negsuc}
use seekira.Packet.{no_pts}
use seekira.ParserFf.{AvPacket, AvRational, AvStream, video_codec, ParserFf}
use seekira.ParserFf.Times.{mpeg_ts_time_stamp_wrap_around}
use seekira.ParserFf.Fixed.{ErrorCodes, read_frame_fixed}
use seekira.ParserFf.Reading.{finish_packet, unshift}
use seekira.ParserFf.Wrapping.{mpeg_ts_time_stamp_wrap_around-near}
use seekira.ParserFf.Shifting.{finish_packet-zero}

abbrev rate : AvRational
rate = record { num = pos 1; den = pos 25 }

abbrev pub track : AvStream
track = record {
  codec_type = video_codec;
  is_apng = false;
  start_time = pos 7;
  time_base = rate;
  avg_frame_rate = rate;
  r_frame_rate = rate;
}

-- The time of stream 0 is shifted by 7, that of stream 1 by 500.
abbrev pub two_tracks : Bool → ParserFf ℕ
two_tracks seen = record {
  input = 0;
  streams = track ∷ track ∷ [];
  start_time = no_pts;
  stream_count = 2;
  gen_pts = no_pts ∷ no_pts ∷ [];
  time_shift = pos 7 ∷ pos 500 ∷ [];
  first_pkt_pos = no_pts;
  dts_shifts = [];
  last_seek_ts = [];
  first_stream_pkt_received = if seen then false ∷ true ∷ [] else [];
  default_chapter_list_index = pos 0;
  current_chapter = [];
  chapters = [];
  prev_pkt_times = [];
  format_swf = false;
  format_vob = false;
  format_vro = false;
  format_pix = false;
  format_mpeg_ts = false;
  format_dav = false;
  format_asf = false;
}

abbrev bit : ℕ → ℤ → AvPacket
bit i time = record {
  stream_index = pos i;
  pts = time;
  dts = time;
  duration = pos 40;
  place = pos 0;
  size = 10;
  flags = 0;
}

release : AvPacket → AvPacket
release x = record x { stream_index = pos 0 }

mpeg_ts_time_stamp_wrap_around-near_example :
    ((0x200000005 < 0x200000000)
      × (mpeg_ts_time_stamp_wrap_around (pos 0x1FFFFFF00) (pos 0x200000005) ≡ pos 0x200000005))
    ⊎ ((0x200000000 ≤ 0x200000005)
        × (mpeg_ts_time_stamp_wrap_around (pos 0x1FFFFFF00) (pos (0x200000005 - 0x200000000))
            ≡ pos (0x200000005 - 1)))
mpeg_ts_time_stamp_wrap_around-near_example =
    mpeg_ts_time_stamp_wrap_around-near 0x1FFFFFF00 0x200000005 (omega arith) (omega arith)
      (omega arith) (omega arith)

finish_packet-zero_example :
    finish_packet (λ a b c. a) (λ n. (none, n)) release (bit 1 (pos 600)) (two_tracks true)
    ≡ some (
      record (bit 1 (pos 600)) { pts = unshift (pos 7) (pos 600); dts = unshift (pos 7) (pos 600) },
      two_tracks true,
    )
unfolding release
finish_packet-zero_example =
    finish_packet-zero (λ a b c. a) (λ n. (none, n)) release (λ x. refl) track (bit 1 (pos 600))
      (two_tracks true)
      (record {
        no_vro = refl;
        no_vob = refl;
        no_mpeg_ts = refl;
        no_dav = refl;
        no_asf = refl;
        no_swf = refl;
        no_dts_shifts = refl;
      })
      refl refl (λ e. cc)

abbrev codes : ErrorCodes
codes = record {
  enoent = negsuc 1;
  enxio = negsuc 5;
  enodev = negsuc 18;
  eof = negsuc 100;
  eagain = negsuc 10;
}

-- The third reading succeeds.
third : ℕ → ℤ × AvPacket × ℕ
third n = if ltb n 2 then (negsuc 10, bit 0 no_pts, suc n) else (pos 0, bit 0 (pos 3), suc n)

reads_third :
    read_frame_fixed codes (λ s. none) third (λ s. pos 0) (λ s. pos 0) (λ at s. (false, s)) 5 0
    ≡ some (pos 0, bit 0 (pos 3), 3)
unfolding read_frame_fixed third
reads_third = refl
