-- ===== src/ParserFf/Reading.antt =====
-- `read_packet` and `read` of parser.cpp. `next` stands for `read_frame_fixed` (Fixed), whose errors and end are `none`,
-- and `unref` for ffmpeg's `av_packet_unref`.
use Prim.Native.Nat.{bit_or}
use seekira.Common.{
  ℕ, zero, suc, Bool, true, false, not, ◌&&◌, ◌||◌, Option, none, some, [], ◌∷◌, get_elem?, get_or,
  set, ◌==◌, if◌then◌else◌,
}
use seekira.Common.Int.{ℤ, pos, pos_part, ◌-ℤ◌, leb_ℤ, ltb_ℤ, int_eq}
use seekira.Common.Dict.{insert}
use seekira.Packet.{DataPacket, MediaType, undefined, video, audio, no_pts, flag_key}
use seekira.ParserFf.{
  AvPacket, AvStream, AvRational, CodecType, video_codec, audio_codec, data_codec, other_codec,
  ParserFf,
}
use seekira.ParserFf.Times.{
  mpeg_ts_time_stamp_wrap_around, stream_to_global, restore_packet_pts, detect_runtime_timeshift,
}
use seekira.ParserFf.Chapters.{in_chapter}

unfoldable pub media_type_of : CodecType → MediaType
media_type_of video_codec = video
media_type_of audio_codec = audio
media_type_of data_codec = undefined
media_type_of other_codec = undefined

unfoldable pub is_video : CodecType → Bool
is_video video_codec = true
is_video audio_codec = false
is_video data_codec = false
is_video other_codec = false

unfoldable pub is_data : CodecType → Bool
is_data video_codec = false
is_data audio_codec = false
is_data data_codec = true
is_data other_codec = false

unfoldable pub unshift : ℤ → ℤ → ℤ
unshift shift time = if not (time == no_pts) then time -ℤ shift else time

module _ {S : Type 0} where
  unfoldable pub wrap_times : ℤ → AvPacket → ParserFf S → AvPacket
  unfolding mpeg_ts_time_stamp_wrap_around
  wrap_times shift pkt p =
      if p.format_mpeg_ts
      then record pkt {
        pts = mpeg_ts_time_stamp_wrap_around shift pkt.pts;
        dts = mpeg_ts_time_stamp_wrap_around shift pkt.dts;
      }
      else pkt

  -- The times are made to begin at 0 or, where the stream has no start, they are the time of the last seek.
  unfoldable pub shift_times : ℕ → AvStream → AvPacket → ParserFf S → AvPacket × ParserFf S
  unfolding wrap_times unshift
  shift_times i s pkt p =
      let shift = get_or p.time_shift i (pos 0) in
      let wrapped = wrap_times shift pkt p in
      if not (s.start_time == no_pts)
      then (record wrapped { pts = unshift shift wrapped.pts; dts = unshift shift wrapped.dts }, p)
      else if wrapped.pts == no_pts
          && wrapped.dts == no_pts
          && not (get_or p.gen_pts i no_pts == no_pts)
      then (
        record wrapped { pts = get_or p.gen_pts i no_pts },
        record p { gen_pts = set p.gen_pts i no_pts },
      )
      else (wrapped, p)

  unfoldable pub mark_key : AvPacket → ParserFf S → AvPacket
  unfolding is_video
  mark_key pkt p = elim (get_elem? p.streams (pos_part pkt.stream_index)) [
    | none ↦ pkt
    | some s ↦
        if p.format_swf && is_video s.codec_type
        then record pkt { flags = bit_or pkt.flags flag_key }
        else pkt
  ]

  -- `none` is an index for which there is no stream.
  unfoldable pub give_times : ℕ → AvPacket → ParserFf S → Option (AvPacket × ParserFf S)
  unfolding is_data
  give_times i pkt p = elim (get_elem? p.streams i) [
    | none ↦ none
    | some s ↦
        let (pkt', p') =
          if (p.format_vro || p.format_vob) && not (is_data s.codec_type)
          then in_chapter pkt p
          else shift_times i s pkt p in
        some (mark_key pkt' p', p')
  ]

  module _ (rescale : ℤ → ℤ → ℤ → ℤ) where
    -- The packet's copy, up to its stream's times.
    unfoldable pub prepare_packet : AvPacket → ParserFf S → AvPacket × ParserFf S
    unfolding restore_packet_pts detect_runtime_timeshift
    prepare_packet pkt p =
        let (pkt1, p1) =
          if p.format_dav || p.format_asf then restore_packet_pts pkt p else (pkt, p) in
        let p2 = detect_runtime_timeshift rescale pkt1 p1 in
        elim p2.dts_shifts [
          | [] ↦ (pkt1, p2)
          | d ∷ ds ↦ (
            record pkt1 {
              dts = pkt1.dts -ℤ get_or p2.dts_shifts (pos_part pkt1.stream_index) (pos 0);
            },
            p2,
          )
        ]

    module _ (next : S → Option AvPacket × S) (unref : AvPacket → AvPacket) where
      -- The index of the stream is read from the packet after it has been released.
      unfoldable pub finish_packet : AvPacket → ParserFf S → Option (AvPacket × ParserFf S)
      finish_packet pkt p =
          let (copy, p') = prepare_packet pkt p in
          give_times (pos_part (unref pkt).stream_index) copy p'

      unfoldable pub is_known : AvPacket → ParserFf S → Bool
      is_known pkt p = leb_ℤ (pos 0) pkt.stream_index && ltb_ℤ pkt.stream_index (pos p.stream_count)

      unfoldable pub note_first : AvPacket → ParserFf S → ParserFf S
      note_first pkt p =
          if p.first_pkt_pos == no_pts then record p { first_pkt_pos = pkt.place } else p

      -- The answer is a packet or, at the end, none. No fuel, or a missing stream, is `none`.
      unfoldable pub read_packet : ℕ → ParserFf S → Option (Option AvPacket × ParserFf S)
      unfolding is_known note_first finish_packet
      read_packet zero p = none
      read_packet (suc fuel) p =
          let (got, s) = next p.input in
          elim got [
            | none ↦ some (none, record p { input = s })
            | some pkt ↦
                let noted = note_first pkt (record p { input = s }) in
                let rest = read_packet fuel noted in
                if is_known pkt noted
                then elim (finish_packet pkt noted) [
                  | none ↦ none
                  | some (out, p') ↦ some (some out, p')
                ]
                else rest
          ]

      -- `to_global` is ffmpeg's `av_rescale_q` into microseconds.
      unfoldable pub read :
          (ℤ → AvRational → ℤ) → ℕ → ParserFf S → Option (Option DataPacket × ParserFf S)
      unfolding read_packet stream_to_global media_type_of
      read to_global fuel p = elim (read_packet fuel p) [
        | none ↦ none
        | some (none, p') ↦ some (none, p')
        | some (some pkt, p') ↦ elim (get_elem? p'.streams (pos_part pkt.stream_index)) [
          | none ↦ none
          | some s ↦ some (
            some (record {
              media_type = media_type_of s.codec_type;
              stream_index = pos_part pkt.stream_index;
              pts = stream_to_global to_global pkt.pts s.time_base;
              dts = stream_to_global to_global pkt.dts s.time_base;
              duration = stream_to_global to_global pkt.duration s.time_base;
              flags = pkt.flags;
              pos_in_file = pkt.place;
              size = pkt.size;
            }),
            record p' { last_seek_ts = insert pkt.stream_index pkt.dts p'.last_seek_ts },
          )
        ]
      ]
