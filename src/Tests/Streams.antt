-- ===== src/Tests/Streams.antt =====
-- A short file with one stream behind a reader, its seeks and frames, and the streams' theorems at it.
use seekira.Common.{
  ℕ, suc, ◌<◌, ◌≡◌, refl, Bool, true, false, Option, none, some, List, [], ◌∷◌, arith, length,
  if◌then◌else◌, nat_eq, get_elem?,
}
use mathlib.Core.Option
use seekira.Common.Int.{ℤ, pos, negsuc, ltb_ℤ}
use seekira.Packet.{DataPacket, video, is_key_frame, pts_or_dts, no_pts}
use seekira.Demuxer.Reading.{Ensures}
use seekira.Demuxer.Seek.{Sought, returned, raised}
use seekira.StreamReader.{StreamInfo, request_seek, find_seek_pos, seek}
use seekira.StreamReader.Requests.{Least, find_seek_pos-Least}
use seekira.Source.{Source}
use seekira.Stream.{
  Frame, DemuxedStream, make_stream, prepare_seek, get_seek_result, read_packet, decode_packet,
  read_frame, frame, nothing, null_packet, null_decoder,
}
use seekira.Stream.Places.{Placed, get_seek_result-Placed}
use seekira.Stream.Frames.{Delivers, read_frame-Delivers}
use seekira.Stream.Seeking.{seek_source, check_stream, do_seek}

abbrev chunk : ℕ → ℕ → DataPacket
chunk time flags = record {
  media_type = video;
  stream_index = 0;
  pts = pos time;
  dts = pos time;
  duration = pos 40;
  flags = flags;
  pos_in_file = pos time;
  size = 100;
}

abbrev chunks : List DataPacket
chunks = chunk 0 1 ∷ chunk 40 0 ∷ chunk 80 1 ∷ []

next : List DataPacket → Sought (Option DataPacket) (List DataPacket)
next [] = returned none []
next (p ∷ ps) = returned (some p) ps

next-shrinks :
    (i : ℕ) (s s' : List DataPacket) (p : DataPacket)
    → next s ≡ returned (some p) s'
    → length s' < length s
unfolding next
next-shrinks i [] s' p e = cc
next-shrinks i (x ∷ xs) s' p e = ground arith

abbrev jump : ℤ → List DataPacket
jump t = if ltb_ℤ (pos 0) t then chunk 40 0 ∷ chunk 80 1 ∷ [] else chunks

abbrev answer_jump : ℕ → Sought ℤ (List DataPacket)
answer_jump t = returned (pos t) (jump (pos t))

never_below : (t n : ℕ) (s s' : List DataPacket) → answer_jump t ≡ returned (negsuc n) s' → ⊥
never_below t n s s' e = cc

abbrev chunk_source : Source
chunk_source = record {
  State = List DataPacket;
  stream_duration = λ i. pos 120;
  read = λ i. next;
  seek = λ t s. returned t (jump t);
  release_internal_data = λ i s. s;
  remaining = length;
  read_shrinks = next-shrinks;
  seek_at_least = never_below;
}

-- A decoder that shows the time of a packet, with a delay of one packet.
decode_late : Option DataPacket → Option DataPacket → Sought (Option (Frame ℤ)) (Option DataPacket)
decode_late p held =
    returned
      (Option.map (λ q. record { ts = pts_or_dts q; duration = q.duration; image = q.pts }) held) p

abbrev one_stream : DemuxedStream ℤ
one_stream = record {
  stream = 0;
  has_reader = true;
  has_decoder = true;
  position = pos 0;
  seek_position = pos 0;
  terminated = false;
  processed_pkt_count = 0;
  processed_frame_count = 0;
  buffered_packet = none;
  buffered_data = none;
  last_seek_result = false;
  last_key_frame = false;
}

make_stream-video : make_stream 0 true true ≡ some one_stream
unfolding make_stream
make_stream-video = refl

make_stream-refused : make_stream {Image = ℤ} 0 true false ≡ none
unfolding make_stream
make_stream-refused = refl

-- The reader's view of a stream that has asked for the time 50.
abbrev asked : List (StreamInfo ℕ)
asked =
    request_seek (pos 50) 0 (record {
      demuxed_stream = some 0;
      seek_time = no_pts;
      seek_already_done = false;
      seek_result_checkers = [];
    })
    ∷ []

abbrev at_50 : DemuxedStream ℤ
at_50 = prepare_seek (pos 50) one_stream

-- The first key frame after the demuxer's seek to 50 is at 80, which is too late; the next try is at 0.
seek_lands :
    Option.map
      (λ r. elim r [
        | raised w ↦ none
        | returned b (is, none) ↦ none
        | returned b (is, some (ss, d)) ↦
            Option.map (λ (s : DemuxedStream ℤ). s.position) (get_elem? ss 0)
      ])
      (do_seek chunk_source ℤ 0 asked (at_50 ∷ [], chunks))
    ≡ some (some (pos 0))
unfolding do_seek seek_source check_stream seek get_seek_result request_seek prepare_seek next
    is_key_frame pts_or_dts
seek_lands = refl

-- The frame of the first packet comes when the second has been decoded.
first_frame :
    Option.map
      (λ r. elim r [
        | raised w ↦ none
        | returned e w ↦ elim e [
          | frame f ↦ some f.ts
          | nothing ↦ none
          | null_packet ↦ none
          | null_decoder ↦ none
        ]
      ])
      (read_frame decode_late chunk_source one_stream chunks none)
    ≡ some (some (pos 0))
unfolding read_frame read_packet decode_packet decode_late next is_key_frame pts_or_dts
first_frame = refl

find_seek_pos-Least_example : Least no_pts (pos 50) asked
unfolding find_seek_pos request_seek
find_seek_pos-Least_example = find_seek_pos-Least no_pts (pos 50) asked refl

check_at_zero : ℕ → ℤ → Sought Bool ℤ
check_at_zero c t = returned (if ltb_ℤ (pos 0) t then false else true) t

get_seek_result-Placed_example :
    Ensures (Placed chunk_source at_50 chunks) (get_seek_result chunk_source at_50 chunks)
unfolding prepare_seek
get_seek_result-Placed_example = get_seek_result-Placed chunk_source at_50 chunks refl

read_frame-Delivers_example :
    Ensures
      (Delivers decode_late chunk_source one_stream)
      (read_frame decode_late chunk_source one_stream chunks none)
read_frame-Delivers_example = read_frame-Delivers decode_late chunk_source one_stream chunks none

allow : ℕ → Bool → ℕ → Option ℕ
allow id b n = some (suc n)
