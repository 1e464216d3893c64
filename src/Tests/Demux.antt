-- ===== src/Tests/Demux.antt =====
-- A small file with a video and an audio stream, and the demuxer's theorems at it.
use seekira.Common.{
  ℕ, ◌+◌, ◌<◌, Option, ◌≡◌, refl, true, none, some, List, [], ◌∷◌, arith, length, ltb,
  if◌then◌else◌,
}
use seekira.Common.Int.{ℤ, pos}
use seekira.Packet.{is_key_frame, pts_or_dts, DataPacket, MediaType, undefined, video, audio}
use seekira.Parser.{Parser, ReadResult, packet, finished, moved, failed}
use seekira.Queue.{
  PacketQueue, make_queue, push, pop, is_full, reset, is_av, size, position, first_stamp,
}
use seekira.Queue.Counters.{IsCounted, make_queue-IsCounted, push-IsCounted, pop-IsCounted}
use seekira.Demuxer.{
  drops_older, reset_queue, any_queue, is_hungry, is_hungry_first, total_packets, is_before,
  check_streams_position, Demuxer, make_demuxer, read, store, fill_queue, read_packets_from_parser,
}
use seekira.Demuxer.Reading.{Ensures, IsValid, ReadsFrom, read_packets_from_parser-Reads}
use seekira.Demuxer.Filling.{FillsFrom, fill_queue-Fills}
use seekira.Demuxer.Control.{make_demuxer-IsValid}
use seekira.Demuxer.Delivery.{Answers, read-Answers}
use seekira.Demuxer.Order.{
  Feeds, KeepsEnd, feed_all, feed_all-KeepsEnd, read_packets_from_parser-Feeds,
}
use mathlib.Core.Option
use seekira.Demuxer.Seek.{
  is_at, is_not_worse, seek_is_better, seek_is_done, update_positions, Sought, seek, returned,
  raised,
}
use seekira.Demuxer.Seek.Result.{Seeks, seek-Seeks}

abbrev frame : ℕ → ℕ → ℕ → DataPacket
frame stream time flags = record {
  media_type = video;
  stream_index = stream;
  pts = pos time;
  dts = pos time;
  duration = pos 40;
  flags = flags;
  pos_in_file = pos time;
  size = 100;
}

abbrev file : List DataPacket
file = frame 0 0 1 ∷ frame 1 0 1 ∷ frame 7 10 0 ∷ frame 0 40 0 ∷ frame 1 40 1 ∷ frame 0 80 1 ∷ []

answer : Sought ℤ (Demuxer (List DataPacket)) → Option ℤ
answer (returned t d) = some t
answer (raised d) = none

type_of : ℕ → MediaType
type_of i = if ltb i 1 then video else if ltb i 2 then audio else undefined

next_packet : List DataPacket → ReadResult (List DataPacket)
next_packet [] = finished []
next_packet (p ∷ ps) = if ltb p.stream_index 2 then packet p ps else next_packet ps

next_packet-shrinks :
    (s s' : List DataPacket) (p : DataPacket) → next_packet s ≡ packet p s' → length s' < length s
unfolding next_packet
next_packet-shrinks [] s' p e = cc
next_packet-shrinks (x ∷ xs) s' p e = ground (arith, next_packet-shrinks xs s' p)

next_packet-in_range :
    (s s' : List DataPacket) (p : DataPacket) → next_packet s ≡ packet p s' → p.stream_index < 2
unfolding next_packet
next_packet-in_range [] s' p e = cc
next_packet-in_range (x ∷ xs) s' p e = ground (arith, next_packet-in_range xs s' p)

abbrev file_parser : Parser
file_parser = record {
  State = List DataPacket;
  stream_count = 2;
  stream_type = type_of;
  seek_stream = 0;
  read = next_packet;
  seek = λ i t s. if ltb i 2 then moved file else failed s;
  remaining = length;
  read_shrinks = next_packet-shrinks;
  read_in_range = next_packet-in_range;
}

abbrev start : Demuxer (List DataPacket)
start = make_demuxer file_parser file

-- Three packets are read: those of stream 0 and 1 stand in their queues.
read_three :
    read_packets_from_parser file_parser 3 start
    ≡ some (
      true,
      record start {
        parser = frame 1 40 1 ∷ frame 0 80 1 ∷ [];
        queues =
            push (push (make_queue video) (frame 0 0 1)) (frame 0 40 0)
            ∷ push (make_queue audio) (frame 1 0 1)
            ∷ [];
      },
    )
unfolding read_packets_from_parser make_demuxer next_packet store is_full type_of make_queue push
    drops_older is_key_frame reset
read_three = refl

-- A seek to 50 succeeds at the first try.
seek_to_50 : Option.map (λ r. answer r) (seek file_parser (pos 50) start) ≡ some (some (pos 50))
unfolding seek answer is_av fill_queue reset_queue any_queue size is_hungry is_hungry_first position
    first_stamp pts_or_dts is_at is_not_worse seek_is_better seek_is_done update_positions
    total_packets is_before check_streams_position make_demuxer next_packet store is_full type_of
    make_queue push drops_older is_key_frame reset
seek_to_50 = refl

start-IsValid : IsValid file_parser start
start-IsValid = make_demuxer-IsValid file_parser file

pop-IsCounted_example :
    (q' : PacketQueue) × (pop (push (make_queue video) (frame 0 0 1)) ≡ some (frame 0 0 1, q'))
    × (q'.list ≡ [])
    × (q'.current_size + 100 ≡ 100)
    × (q'.key_count + 1 ≡ 1)
    × IsCounted q'
unfolding push make_queue is_key_frame
pop-IsCounted_example =
    pop-IsCounted (push (make_queue video) (frame 0 0 1)) (frame 0 0 1) [] refl
      (push-IsCounted (make_queue video) (frame 0 0 1) refl (make_queue-IsCounted video)) refl

read_packets_from_parser-Reads_example :
    Ensures (ReadsFrom file_parser 3 start) (read_packets_from_parser file_parser 3 start)
read_packets_from_parser-Reads_example =
    read_packets_from_parser-Reads file_parser 3 start start-IsValid

fill_queue-Fills_example :
    Ensures (FillsFrom file_parser true start) (fill_queue file_parser true start)
fill_queue-Fills_example = fill_queue-Fills file_parser true start start-IsValid

read-Answers_example : Ensures (Answers file_parser 1 start) (read file_parser 1 start)
read-Answers_example = read-Answers file_parser 1 start start-IsValid

feed_all-KeepsEnd_example :
    KeepsEnd
      (pos 50)
      (make_queue video)
      (frame 0 0 1 ∷ frame 0 40 0 ∷ [])
      (feed_all (pos 50) (make_queue video) (frame 0 0 1 ∷ frame 0 40 0 ∷ []))
unfolding make_queue
feed_all-KeepsEnd_example =
    feed_all-KeepsEnd (pos 50) (make_queue video) (frame 0 0 1 ∷ frame 0 40 0 ∷ []) refl

read_packets_from_parser-Feeds_example :
    Ensures (Feeds file_parser start) (read_packets_from_parser file_parser 3 start)
read_packets_from_parser-Feeds_example =
    read_packets_from_parser-Feeds file_parser 3 start start-IsValid

seek-Seeks_example : Ensures (Seeks file_parser (pos 50) start) (seek file_parser (pos 50) start)
seek-Seeks_example = seek-Seeks file_parser (pos 50) start (omega arith) start-IsValid
