-- ===== src/ParserFf/Shifting.antt =====
-- Which stream's time shift a packet gets.
use seekira.Common.{
  ℕ, ◌≡◌, ◌≢◌, refl, ap, inl, inr, true, false, Option, some, [], get_elem?, get_or, ◌==◌,
  Bool-cases, Option-cases,
}
use seekira.Common.Int.{ℤ, pos, pos_part, int_eq, int_beq_iff}
use seekira.Packet.{no_pts}
use seekira.ParserFf.{AvPacket, AvStream, ParserFf}
use seekira.ParserFf.Times.{detect_runtime_timeshift}
use seekira.ParserFf.Reading.{
  unshift, shift_times, wrap_times, mark_key, give_times, prepare_packet, finish_packet,
}

-- A file of none of the formats that the parser treats apart, with no shifts of decoding times.
pub record IsPlain {S : Type 0} (p : ParserFf S) : Type 0 where
  pub no_vro : p.format_vro ≡ false
  pub no_vob : p.format_vob ≡ false
  pub no_mpeg_ts : p.format_mpeg_ts ≡ false
  pub no_dav : p.format_dav ≡ false
  pub no_asf : p.format_asf ≡ false
  pub no_swf : p.format_swf ≡ false
  pub no_dts_shifts : p.dts_shifts ≡ []

module _ {S : Type 0} where
  prepare_packet-plain :
      (rescale : ℤ → ℤ → ℤ → ℤ) (pkt : AvPacket) (p : ParserFf S)
      → IsPlain p
      → get_or p.first_stream_pkt_received (pos_part pkt.stream_index) false ≡ true
      → prepare_packet rescale pkt p ≡ (pkt, p)
  unfolding prepare_packet detect_runtime_timeshift
  prepare_packet-plain rescale pkt p plain seen =
      simp
        (
          prepare_packet, detect_runtime_timeshift, plain.no_dav, plain.no_asf, seen,
          plain.no_dts_shifts,
        )
        refl

  mark_key-plain : (pkt : AvPacket) (p : ParserFf S) → IsPlain p → mark_key pkt p ≡ pkt
  unfolding mark_key
  mark_key-plain pkt p plain =
      elim (Option-cases (get_elem? p.streams (pos_part pkt.stream_index))) [
        | inl gone ↦ simp (mark_key, gone) refl
        | inr (s, at) ↦ simp (mark_key, at, plain.no_swf) refl
      ]

  wrap_times-plain :
      (shift : ℤ) (pkt : AvPacket) (p : ParserFf S) → IsPlain p → wrap_times shift pkt p ≡ pkt
  unfolding wrap_times
  wrap_times-plain shift pkt p plain = simp (wrap_times, plain.no_mpeg_ts) refl

  shift_times-plain :
      (i : ℕ) (s : AvStream) (pkt : AvPacket) (p : ParserFf S)
      → IsPlain p
      → s.start_time ≢ no_pts
      → let shift = get_or p.time_shift i (pos 0) in
        shift_times i s pkt p
        ≡ (record pkt { pts = unshift shift pkt.pts; dts = unshift shift pkt.dts }, p)
  unfolding shift_times
  shift_times-plain i s pkt p plain starts = elim (Bool-cases (s.start_time == no_pts)) [
    | inl none_there ↦ absurd (starts ((int_beq_iff s.start_time no_pts).0 none_there))
    | inr there ↦
        simp (shift_times, there, wrap_times-plain (get_or p.time_shift i (pos 0)) pkt p plain) refl
  ]

  give_times-plain :
      (i : ℕ) (s : AvStream) (pkt : AvPacket) (p : ParserFf S)
      → IsPlain p
      → get_elem? p.streams i ≡ some s
      → s.start_time ≢ no_pts
      → let shift = get_or p.time_shift i (pos 0) in
        give_times i pkt p
        ≡ some (record pkt { pts = unshift shift pkt.pts; dts = unshift shift pkt.dts }, p)
  unfolding give_times
  give_times-plain i s pkt p plain at starts =
      let shift = get_or p.time_shift i (pos 0) in
      let out = record pkt { pts = unshift shift pkt.pts; dts = unshift shift pkt.dts } in
      simp (give_times, at, plain.no_vro, plain.no_vob, shift_times-plain i s pkt p plain starts)
        (ap (λ x. some (x, p)) (mark_key-plain out p plain))

  -- If releasing a packet resets its stream's index to 0, as ffmpeg's documentation says, then in a plain file whose
  -- stream 0 has a start time a packet of any stream, once this stream is marked as begun, gets the time shift
  -- of stream 0.
  pub finish_packet-zero :
      (rescale : ℤ → ℤ → ℤ → ℤ) (next : S → Option AvPacket × S) (unref : AvPacket → AvPacket)
      → ((x : AvPacket) → (unref x).stream_index ≡ pos 0)
      → (s : AvStream) (pkt : AvPacket) (p : ParserFf S) → IsPlain p
      → get_or p.first_stream_pkt_received (pos_part pkt.stream_index) false ≡ true
      → get_elem? p.streams 0 ≡ some s
      → s.start_time ≢ no_pts
      → let shift = get_or p.time_shift 0 (pos 0) in
        finish_packet rescale next unref pkt p
        ≡ some (record pkt { pts = unshift shift pkt.pts; dts = unshift shift pkt.dts }, p)
  unfolding finish_packet
  finish_packet-zero rescale next unref resets s pkt p plain seen at starts =
      simp (finish_packet, resets pkt, prepare_packet-plain rescale pkt p plain seen)
        (give_times-plain 0 s pkt p plain at starts)
