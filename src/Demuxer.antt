-- ===== src/Demuxer.antt =====
-- src/video/ffmpeg/decoding/demuxer_queue.cpp and .hpp: packets of a file, sorted into one queue for
-- each stream. The lock makes each public method one step. A method returns the new state beside its
-- result; `none` is an access out of range, or a loop that ran out of fuel.
pub mod Route
pub mod Reading
pub mod Filling
pub mod Delivery
pub mod Control
pub mod Order
pub mod Seek
use seekira.Common.{
  ℕ, zero, suc, ◌+◌, Bool, true, false, not, ◌&&◌, ◌||◌, Option, none, some, List, [], ◌∷◌, map,
  get_elem?, set, leb, ltb, ◌==◌, nat_eq, if◌then◌else◌,
}
use seekira.Common.Int.{ℤ, pos, leb_ℤ, ltb_ℤ, int_eq}
use seekira.Packet.{DataPacket, no_pts, is_key_frame}
use seekira.Parser.{Parser, packet, finished}
use seekira.Queue.{PacketQueue, make_queue, push, pop, size, reset, set_enabled, is_full, position}

-- What `read` returns: a packet, or the null pointer; `raised` is its exception.
pub data Reply (S : Type 0) : Type 0 where
  delivered : DataPacket → S → Reply S
  nothing : S → Reply S
  raised : Reply S

pub record Demuxer (S : Type 0) : Type 0 where
  pub parser : S
  pub key_packets_must_exist : Bool
  pub seek_time : ℤ
  pub eof_is_reached : Bool
  pub processed_count : ℕ
  pub queues : List PacketQueue

-- `reset_queue` of one packet: a key frame at or before the time of the seek makes what came
-- before it useless.
unfoldable pub drops_older : ℤ → DataPacket → Bool
drops_older t p =
    is_key_frame p
    && (if not (p.pts == no_pts)
        then leb_ℤ p.pts t && ltb_ℤ (pos 0) p.duration
        else if not (p.dts == no_pts)
        then leb_ℤ p.dts t && ltb_ℤ (pos 0) p.duration
        else false)

-- The queue of a stream after one of its packets.
unfoldable pub store : ℤ → PacketQueue → DataPacket → PacketQueue
store t q p = push (if drops_older t p then reset q else q) p

-- The tests of `fill_queue` before its loop and after each round.
unfoldable pub is_hungry_first : Bool → PacketQueue → Bool
is_hungry_first keys q = q.enabled && (size q == 0 || (keys && ltb q.key_count 2))

unfoldable pub is_hungry : Bool → PacketQueue → Bool
is_hungry keys q =
    if not keys
    then q.enabled && (size q == 0) && not q.can_be_empty
    else q.enabled && ltb q.key_count 2 && not q.can_be_empty

unfoldable pub any_queue : (PacketQueue → Bool) → List PacketQueue → Bool
any_queue f [] = false
any_queue f (q ∷ qs) = f q || any_queue f qs

unfoldable pub total_packets : List PacketQueue → ℕ
total_packets [] = 0
total_packets (q ∷ qs) = size q + total_packets qs

-- `check_streams_position`.
unfoldable pub is_before : ℤ → PacketQueue → Bool
is_before t q =
    if q.enabled && not q.can_be_empty
    then not (position q == no_pts) && leb_ℤ (position q) t
    else true

unfoldable pub check_streams_position : ℤ → List PacketQueue → Bool
check_streams_position t [] = true
check_streams_position t (q ∷ qs) = is_before t q && check_streams_position t qs

module _ (P : Parser) where
  open P use {State, stream_count, stream_type, read as parser_read, remaining}

  make_queues : ℕ → ℕ → List PacketQueue
  make_queues i zero = []
  make_queues i (suc n) = make_queue (stream_type i) ∷ make_queues (i + 1) n

  unfoldable pub make_demuxer : State → Demuxer State
  unfolding make_queues
  make_demuxer s = record {
    parser = s;
    key_packets_must_exist = true;
    seek_time = pos 0;
    eof_is_reached = false;
    processed_count = 0;
    queues = make_queues 0 stream_count;
  }

  unfoldable pub reset_queue : Demuxer State → Demuxer State
  reset_queue d = record d {
    queues = map reset d.queues;
    key_packets_must_exist = true;
    eof_is_reached = false;
  }

  -- The loop over `z`: `n` is `packetCount - z`. A packet of a disabled stream empties its queue and
  -- does not count.
  unfoldable pub read_loop : ℕ → ℕ → Demuxer State → Option (Bool × Demuxer State)
  read_loop fuel zero d = some (true, d)
  read_loop zero (suc n) d = none
  read_loop (suc fuel) (suc n) d = elim (parser_read d.parser) [
    | finished s ↦ some (false, record d { parser = s; eof_is_reached = true })
    | packet p s ↦ elim (get_elem? d.queues p.stream_index) [
      | none ↦ none
      | some q ↦ elim q.enabled [
        | false ↦
            read_loop fuel (suc n)
              (record d { parser = s; queues = set d.queues p.stream_index (reset q) })
        | true ↦
            let q' = store d.seek_time q p in
            let d' = record d { parser = s; queues = set d.queues p.stream_index q' } in
            elim (is_full q') [ true ↦ some (false, d') | false ↦ read_loop fuel n d' ]
      ]
    ]
  ]

  -- Each round of the loop takes a packet from the parser, so the packets that are left bound it.
  unfoldable pub read_packets_from_parser : ℕ → Demuxer State → Option (Bool × Demuxer State)
  unfolding read_loop
  read_packets_from_parser count d =
      if d.eof_is_reached then some (false, d) else read_loop (suc (remaining d.parser)) count d

  -- What a round of `fill_queue` does with the result of `read_packets_from_parser(16)`.
  after_round :
      (Bool → Bool → Demuxer State → Option (Bool × Demuxer State))
      → Bool
      → Bool × Demuxer State
      → Option (Bool × Demuxer State)
  after_round again keys (true, d) =
      again (any_queue (is_hungry keys) d.queues) (any_queue is_full d.queues) d
  after_round again keys (false, d) =
      let rest = again false false d in
      if d.eof_is_reached then some (not (total_packets d.queues == 0), d) else rest

  unfoldable pub fill_loop : ℕ → Bool → Bool → Bool → Demuxer State → Option (Bool × Demuxer State)
  unfolding after_round read_packets_from_parser
  fill_loop zero keys need full d = none
  fill_loop (suc fuel) keys need full d = elim (need && not full) [
    | false ↦ some (true, d)
    | true ↦ elim (read_packets_from_parser 16 d) [
      | none ↦ none
      | some r ↦ after_round (fill_loop fuel keys) keys r
    ]
  ]

  -- Every round but the last reads 16 packets, so two rounds more than the packets left are enough.
  unfoldable pub fill_queue : Bool → Demuxer State → Option (Bool × Demuxer State)
  unfolding fill_loop
  fill_queue keys d =
      if d.eof_is_reached
      then some (false, d)
      else if any_queue is_full d.queues
      then some (false, d)
      else fill_loop (suc (suc (remaining d.parser))) keys
          (any_queue (is_hungry_first keys) d.queues) false d

  -- The end of `read`, on the queue of the stream.
  deliver : ℕ → Demuxer State → Option (Reply (Demuxer State))
  deliver stream d = elim (get_elem? d.queues stream) [
    | none ↦ none
    | some q ↦ elim (pop q) [
      | none ↦ some (nothing d)
      | some (p, q') ↦ some (
          delivered p
            (record d { queues = set d.queues stream q'; processed_count = d.processed_count + 1 }))
    ]
  ]

  unfoldable pub read : ℕ → Demuxer State → Option (Reply (Demuxer State))
  unfolding deliver
  read stream d =
      if leb stream_count stream then some raised else elim (get_elem? d.queues stream) [
        | none ↦ none
        | some q ↦ elim (size q == 0) [
          | false ↦ deliver stream d
          | true ↦ elim (fill_queue false d) [ none ↦ none | some (_, d') ↦ deliver stream d' ]
        ]
      ]

  -- `none` is the exception of a stream that is not there.
  unfoldable pub enable_stream : ℕ → Bool → Demuxer State → Option (Demuxer State)
  enable_stream stream value d =
      if leb stream_count stream then none else elim (get_elem? d.queues stream) [
        | none ↦ none
        | some q ↦ some (record d { queues = set d.queues stream (set_enabled q value) })
      ]

  unfoldable pub release_internal_data : ℕ → Demuxer State → Option (Demuxer State)
  release_internal_data stream d = elim (get_elem? d.queues stream) [
    | none ↦ none
    | some q ↦ some (record d { queues = set d.queues stream (reset q) })
  ]
