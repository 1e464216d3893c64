-- ===== src/Tests/Decoding.antt =====
-- A decoder for a codec that holds one frame, and the theorems on decoding at it.
use seekira.Common.{ℕ, ◌<◌, ◌≡◌, refl, Bool, true, false, Option, none, some, List, [], ◌∷◌, arith}
use seekira.Common.Int.{ℤ, pos, ◌+ℤ◌, ◌-ℤ◌}
use seekira.Packet.{DataPacket, video, no_pts, is_key_frame}
use seekira.Stream.{Frame}
use seekira.DecoderVideo.{
  AvFrame, VideoCodec, DecoderVideo, SendCode, taken, Call, gives, throws, no_fuel, get_context,
  open_decoder, release_internal_data,
}
use seekira.DecoderVideo.Decoding.{
  has_packet, has_planes, next_clock, advance_clock, note_duration, push_frame,
  get_next_queued_frame, prepare_times, receive_all, next_frame, after_send, decode_internal,
  settle, decode_rounds, decode,
}
use seekira.DecoderVideo.Timing.{held_times, frame_times, IsTimed}
use seekira.DecoderVideo.Delivery.{Answers, decode-Answers}
use seekira.DecoderVideo.Runs.{Fed, add_frame, add_first, feed, feed-Fed}

-- The codec shows a packet's time as its image.
abbrev shown : DataPacket → AvFrame ℤ
shown p = record {
  pts = p.pts;
  best_effort_timestamp = p.pts;
  pkt_duration = p.duration;
  plane_0 = true;
  plane_1 = true;
  plane_2 = true;
  raw = p.pts;
}

abbrev send_one : Option DataPacket → Option (AvFrame ℤ) → SendCode × Option (AvFrame ℤ)
send_one none c = (taken, c)
send_one (some p) c = (taken, some (shown p))

abbrev one_frame : VideoCodec (Option (AvFrame ℤ)) ℤ ℤ
one_frame = record {
  send = send_one;
  receive = λ c. (c, none);
  has_codec = λ c. true;
  is_yuv420 = λ c. true;
  flush_buffers = λ c. none;
  close = λ c. none;
  scale = λ r c. some r;
  packet_time = λ fps. pos 40;
  average_time = λ fps. pos 40;
}

abbrev unopened : DecoderVideo (Option (AvFrame ℤ)) ℤ
unopened = record {
  codec = none;
  fps = record { num = pos 0; den = pos 0 };
  can_reopen_decoder = false;
  clock_reset = false;
  clock = no_pts;
  first_frame_after_seek = false;
  use_dts = false;
  prev_duration_clock = pos 0;
  prev_duration_frame_pkt = pos 0;
  has_sws = false;
  queue = [];
  prev_frame = none;
  start_time = pos 0;
  processed_count = 0;
}

abbrev opened : DecoderVideo (Option (AvFrame ℤ)) ℤ
opened = record unopened {
  fps = record { num = pos 25; den = pos 1 };
  clock_reset = true;
  first_frame_after_seek = true;
  has_sws = true;
}

open_25 :
    open_decoder one_frame true (some none) (record { num = pos 25; den = pos 1 }) unopened
    ≡ (true, opened)
unfolding open_decoder get_context
open_25 = refl

abbrev packet_at : ℤ → DataPacket
packet_at t = record {
  media_type = video;
  stream_index = 0;
  pts = t;
  dts = t;
  duration = pos 30;
  flags = 1;
  pos_in_file = pos 0;
  size = 1;
}

abbrev three_packets : List DataPacket
three_packets = packet_at (pos 0) ∷ packet_at (pos 40) ∷ packet_at (pos 90) ∷ []

abbrev shown_for : ℤ → ℤ → Frame ℤ
shown_for t duration = record { ts = t; duration = duration; image = t }

frames_of : Call (List (Frame ℤ)) (DecoderVideo (Option (AvFrame ℤ)) ℤ) → List (Frame ℤ)
frames_of (gives fs d) = fs
frames_of (throws d) = []
frames_of no_fuel = []

feed_three :
    frames_of (feed one_frame 2 three_packets opened)
    ≡ shown_for (pos 0) (pos 40) ∷ shown_for (pos 40) (pos 50) ∷ []
unfolding frames_of feed add_first add_frame decode decode_rounds settle decode_internal after_send
    next_frame receive_all prepare_times get_next_queued_frame push_frame note_duration
    advance_clock next_clock has_planes has_packet is_key_frame ◌-ℤ◌ ◌+ℤ◌
feed_three = refl

opened-IsTimed : IsTimed opened
unfolding held_times frame_times
opened-IsTimed = record { forward = omega arith; climbs = tt; fresh = λ e. refl }

abbrev held_one : Option (AvFrame ℤ) → ℕ
held_one none = 0
held_one (some f) = 1

held_one-shrinks :
    (c : Option (AvFrame ℤ)) (f : AvFrame ℤ)
    → (one_frame.receive c).0 ≡ some f
    → held_one (one_frame.receive c).1 < held_one c
held_one-shrinks none f h = cc
held_one-shrinks (some g) f h = omega arith

held_one-bounded : (c : Option (AvFrame ℤ)) → held_one c < 2
held_one-bounded none = omega arith
held_one-bounded (some f) = omega arith

decode-Answers_example :
    Answers one_frame true opened (decode one_frame 2 (some (packet_at (pos 0))) opened)
unfolding has_packet
decode-Answers_example =
    decode-Answers one_frame held_one 2 held_one-shrinks held_one-bounded (some (packet_at (pos 0)))
      opened opened-IsTimed

feed-Fed_example : Fed none (feed one_frame 2 three_packets opened)
feed-Fed_example =
    feed-Fed one_frame held_one 2 held_one-shrinks held_one-bounded three_packets opened
      opened-IsTimed

-- Without a packet, two frames of one time: no frame comes out, though a later one is in the queue.
abbrev two_at_once : DecoderVideo (Option (AvFrame ℤ)) ℤ
two_at_once = record opened {
  first_frame_after_seek = false;
  clock = pos 80;
  prev_frame = some (shown_for (pos 40) (pos 40));
  queue = shown_for (pos 40) (pos 40) ∷ shown_for (pos 80) (pos 40) ∷ [];
}

drained_early :
    decode one_frame 2 none two_at_once
    ≡ gives none (record two_at_once { queue = shown_for (pos 80) (pos 40) ∷ [] })
unfolding decode decode_rounds settle decode_internal after_send next_frame receive_all
    prepare_times get_next_queued_frame has_packet ◌-ℤ◌
drained_early = refl

abbrev threw : {R S : Type 0} → Call R S → Bool
threw (gives r s) = false
threw (throws s) = true
threw no_fuel = false

decode_after_release :
    threw (decode one_frame 2 (some (packet_at (pos 0))) (release_internal_data one_frame opened))
    ≡ true
unfolding decode decode_rounds settle decode_internal after_send next_frame receive_all
    prepare_times has_planes note_duration advance_clock next_clock has_packet is_key_frame
    release_internal_data
decode_after_release = refl
