-- ===== src/ParserFf/Times.antt =====
-- The times of packets: `mpeg_ts_time_stamp_wrap_around`, `restore_packet_pts`, `detect_runtime_timeshift` and
-- `calc_container_shift` of parser.cpp, `stream_to_global` of src/video/ffmpeg/utils/utils.cpp.
use seekira.Common.{
  ℕ, suc, ◌*◌, true, false, not, ◌&&◌, none, some, [], ◌∷◌, get_elem?, get_or, set, ◌==◌,
  if◌then◌else◌,
}
use seekira.Common.Int.{ℤ, pos, negsuc, pos_part, ◌+ℤ◌, ◌-ℤ◌, ltb_ℤ, int_eq}
use seekira.Common.Dict.{Dict, lookup, insert}
use seekira.Packet.{no_pts, av_second}
use seekira.ParserFf.{AvPacket, AvStream, AvRational, ParserFf}

abbrev pub half_range : ℕ
half_range = 0xFFFFFFFF

abbrev pub wrap_step : ℕ
wrap_step = 0x1FFFFFFFF

unfoldable pub mpeg_ts_time_stamp_wrap_around : ℤ → ℤ → ℤ
mpeg_ts_time_stamp_wrap_around start_time current_time =
    if ltb_ℤ (pos half_range) start_time && ltb_ℤ current_time (pos half_range)
    then current_time +ℤ pos wrap_step
    else current_time +ℤ pos 0

-- `rescale` is ffmpeg's `av_rescale_q` into microseconds.
unfoldable pub stream_to_global : (ℤ → AvRational → ℤ) → ℤ → AvRational → ℤ
stream_to_global rescale time base = if time == no_pts then no_pts else rescale time base

-- An entry of a map is taken out.
unfoldable pub erase_key : {T : Type 0} → ℤ → Dict ℤ T → Dict ℤ T
erase_key k [] = []
erase_key k ((j, v) ∷ m) = if j == k then m else (j, v) ∷ erase_key k m

module _ {S : Type 0} where
  unfoldable pub restore_packet_pts : AvPacket → ParserFf S → AvPacket × ParserFf S
  unfolding erase_key
  restore_packet_pts pkt p =
      if not (pkt.pts == no_pts)
      then (pkt, record p { prev_pkt_times = erase_key pkt.stream_index p.prev_pkt_times })
      else elim (lookup pkt.stream_index p.prev_pkt_times) [
        | none ↦
            if not (get_or p.first_stream_pkt_received (pos_part pkt.stream_index) false)
            then (
              record pkt { pts = pos 0; dts = pos 0 },
              record p {
                prev_pkt_times = insert pkt.stream_index (pos 0, pkt.duration) p.prev_pkt_times;
              },
            )
            else (pkt, p)
        | some (prev_pts, prev_dur) ↦ (
          record pkt { pts = prev_pts +ℤ prev_dur; dts = prev_pts +ℤ prev_dur },
          record p {
            prev_pkt_times =
                insert pkt.stream_index (prev_pts +ℤ prev_dur, pkt.duration) p.prev_pkt_times;
          },
        )
      ]

  -- `rescale` is ffmpeg's `av_rescale`.
  module _ (rescale : ℤ → ℤ → ℤ → ℤ) where
    unfoldable pub calc_container_shift : AvStream → ParserFf S → ℤ
    calc_container_shift s p =
        if not (p.start_time == no_pts) && not (p.start_time == pos 0)
        then rescale p.start_time s.time_base.den (elim s.time_base.num [
          | pos n ↦ pos (av_second * n)
          | negsuc n ↦ pos 0 -ℤ pos (av_second * suc n)
        ])
        else pos 0

    unfoldable pub detect_runtime_timeshift : AvPacket → ParserFf S → ParserFf S
    unfolding calc_container_shift
    detect_runtime_timeshift pkt p =
        let i = pos_part pkt.stream_index in
        if get_or p.first_stream_pkt_received i false then p else elim (get_elem? p.streams i) [
          | none ↦ p
          | some s ↦
              if not s.is_apng
              then p
              else if not (s.start_time == no_pts)
                  && not (pkt.pts == no_pts)
                  && ltb_ℤ s.start_time pkt.pts
              then record p {
                time_shift =
                    set p.time_shift i ((pkt.pts -ℤ s.start_time) +ℤ calc_container_shift s p);
                first_stream_pkt_received = set p.first_stream_pkt_received i true;
              }
              else p
        ]
