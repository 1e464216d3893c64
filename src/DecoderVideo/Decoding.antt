-- ===== src/DecoderVideo/Decoding.antt =====
-- decode, decode_internal and get_next_queued_frame of src/video/ffmpeg/decoding/decoder_video.cpp.
use seekira.Common.{
  ℕ, zero, suc, ◌+◌, Bool, true, false, not, ◌&&◌, ◌||◌, Option, none, some, [], ◌∷◌, ◌++◌, ◌==◌,
  if◌then◌else◌,
}
use seekira.Common.Int.{pos, ◌+ℤ◌, ◌-ℤ◌, leb_ℤ, ltb_ℤ, int_eq}
use seekira.Packet.{DataPacket, TimestampFf, TimeFf, is_key_frame, no_pts}
use seekira.ParserFf.{AvRational}
use seekira.Stream.{Frame}
use seekira.DecoderVideo.{
  AvFrame, VideoCodec, DecoderVideo, Call, gives, throws, no_fuel, DecodeRound, hands_out, goes_on,
  LoopEnd, breaks, no_image, SendCode, again, end_of_file, refused, taken,
}

unfoldable pub has_packet : Option DataPacket → Bool
has_packet none = false
has_packet (some p) = true

-- The tests of the planes.
unfoldable pub has_planes : {Raw : Type 0} → Bool → AvFrame Raw → Bool
has_planes yuv420 f = if yuv420 then f.plane_0 && f.plane_1 && f.plane_2 else f.plane_0

module _ {C Image : Type 0} where
  -- The time of a frame of the codec, and the time by which the clock has moved.
  unfoldable pub next_clock :
      {Raw : Type 0} → AvFrame Raw → DecoderVideo C Image → TimestampFf × TimeFf
  next_clock f d =
      if f.best_effort_timestamp == no_pts && (d.clock == no_pts && d.first_frame_after_seek)
      then (d.start_time, pos 0)
      else if leb_ℤ d.clock f.best_effort_timestamp || d.first_frame_after_seek
      then (
        f.best_effort_timestamp,
        if d.first_frame_after_seek then pos 0 else f.best_effort_timestamp -ℤ d.clock,
      )
      else let step =
          if f.pts == no_pts && ltb_ℤ (pos 0) d.prev_duration_frame_pkt
          then d.prev_duration_frame_pkt
          else d.prev_duration_clock in
        (d.clock +ℤ step, step)

  unfoldable pub advance_clock :
      {Raw : Type 0} → AvFrame Raw → DecoderVideo C Image → DecoderVideo C Image
  unfolding next_clock
  advance_clock f d =
      let (time, step) = next_clock f d in record d { clock = time; prev_duration_clock = step }

  unfoldable pub note_duration :
      {Raw : Type 0}
      → (AvRational → TimeFf)
      → AvFrame Raw
      → DecoderVideo C Image
      → DecoderVideo C Image
  note_duration packet_time f d = record d {
    prev_duration_frame_pkt =
        if f.pkt_duration == pos 0 || f.pkt_duration == no_pts
        then (if d.fps.num == pos 0 then pos 0 else packet_time d.fps)
        else f.pkt_duration;
    first_frame_after_seek = false;
  }

  unfoldable pub push_frame : Image → DecoderVideo C Image → DecoderVideo C Image
  push_frame image d = record d {
    queue =
        d.queue
        ++ record { ts = d.clock; duration = d.prev_duration_frame_pkt; image = image } ∷ [];
    processed_count = d.processed_count + 1;
  }

  unfoldable pub get_next_queued_frame :
      DecoderVideo C Image → Option (Frame Image) × DecoderVideo C Image
  get_next_queued_frame d = elim d.queue [
    | [] ↦ (none, d)
    | f ∷ fs ↦ (some f, record d { queue = fs })
  ]

  -- The packet as it goes to the codec.
  unfoldable pub prepare_times :
      Option DataPacket → DecoderVideo C Image → Option DataPacket × DecoderVideo C Image
  prepare_times none d = (none, d)
  prepare_times (some p) d =
      let d' =
        if is_key_frame p && d.clock_reset
        then record d { use_dts = p.pts == no_pts && not (p.dts == no_pts); clock_reset = false }
        else d in
      (some (if d'.use_dts then record p { pts = p.dts } else p), d')

module _ {C Raw Image : Type 0} (V : VideoCodec C Raw Image) where
  open V use {
    send, receive, has_codec, is_yuv420, flush_buffers, close, scale, packet_time, average_time,
  }

  -- The loop over the codec's frames.
  unfoldable pub receive_all : ℕ → DecoderVideo C Image → Call LoopEnd (DecoderVideo C Image)
  unfolding has_planes advance_clock note_duration push_frame
  receive_all zero d = no_fuel
  receive_all (suc fuel) d =
      let (f, c) = receive d.codec in
      elim f [
        | none ↦ gives breaks (record d { codec = c })
        | some f ↦
            if not (has_planes (is_yuv420 c) f)
            then gives breaks (record d { codec = c })
            else let d' = note_duration packet_time f (advance_clock f (record d { codec = c })) in
              if not d.has_sws then throws d' else elim (scale f.raw c) [
                | none ↦ gives no_image d'
                | some image ↦ receive_all fuel (push_frame image d')
              ]
      ]

  -- The frame that is returned once the codec has nothing more.
  unfoldable pub next_frame :
      ℕ → DecoderVideo C Image → Call (Option (Frame Image)) (DecoderVideo C Image)
  unfolding receive_all get_next_queued_frame
  next_frame fuel d = elim (receive_all fuel d) [
    | gives breaks d' ↦ let (f, d'') = get_next_queued_frame d' in gives f d''
    | gives no_image d' ↦ gives none d'
    | throws d' ↦ throws d'
    | no_fuel ↦ no_fuel
  ]

  unfoldable pub after_send :
      ℕ → SendCode → DecoderVideo C Image → Call (Option (Frame Image)) (DecoderVideo C Image)
  unfolding next_frame
  after_send fuel again d = throws d
  after_send fuel refused d = gives none d
  after_send fuel end_of_file d = next_frame fuel d
  after_send fuel taken d = next_frame fuel d

  unfoldable pub decode_internal :
      ℕ
      → Option DataPacket
      → DecoderVideo C Image
      → Call (Option (Frame Image)) (DecoderVideo C Image)
  unfolding after_send prepare_times
  decode_internal fuel packet d =
      let (timed, d1) = prepare_times packet (record d { can_reopen_decoder = false }) in
      let (code, c) = send timed d1.codec in after_send fuel code (record d1 { codec = c })

  -- What a round of `decode` does with the frame it got.
  unfoldable pub settle :
      Bool → Option (Frame Image) → DecoderVideo C Image → DecodeRound Image × DecoderVideo C Image
  settle more (some f) d = elim d.prev_frame [
    | none ↦ (if more then hands_out none else goes_on, record d { prev_frame = some f })
    | some p ↦
        let new_duration = f.ts -ℤ p.ts in
        if leb_ℤ new_duration (pos 0) then (hands_out none, d) else (
          hands_out (some (record p { duration = new_duration })),
          record d { prev_frame = some f },
        )
  ]
  settle more none d = if more then (hands_out none, d) else elim d.prev_frame [
    | none ↦ (hands_out none, d)
    | some p ↦ (
      hands_out (some (record p { duration = average_time d.fps })),
      record d { prev_frame = none },
    )
  ]

  unfoldable pub decode_rounds :
      ℕ
      → ℕ
      → Option DataPacket
      → DecoderVideo C Image
      → Call (Option (Frame Image)) (DecoderVideo C Image)
  unfolding decode_internal settle has_packet
  decode_rounds zero fuel packet d = no_fuel
  decode_rounds (suc rounds) fuel packet d = elim (decode_internal fuel packet d) [
    | throws d' ↦ throws d'
    | no_fuel ↦ no_fuel
    | gives f d' ↦
        let (turn, d'') = settle (has_packet packet) f d' in
        elim turn [ hands_out r ↦ gives r d'' | goes_on ↦ decode_rounds rounds fuel packet d'' ]
  ]

  -- Two rounds: the second begins with a frame held back.
  unfoldable pub decode :
      ℕ
      → Option DataPacket
      → DecoderVideo C Image
      → Call (Option (Frame Image)) (DecoderVideo C Image)
  unfolding decode_rounds
  decode fuel packet d = decode_rounds 2 fuel packet d
