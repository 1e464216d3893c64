-- ===== src/Queue.antt =====
-- src/video/ffmpeg/decoding/packet_queue.cpp and .hpp. A method returns the new queue.
pub mod Counters
use seekira.Common.{
  ℕ, ◌+◌, ◌-◌, ◌*◌, Bool, true, false, not, ◌&&◌, ◌||◌, Option, none, some, List, [], ◌∷◌, ◌++◌,
  length, ltb, ◌==◌, nat_eq, if◌then◌else◌,
}
use seekira.Common.Int.{int_eq}
use seekira.Packet.{
  MediaType, undefined, video, audio, TimestampFf, no_pts, DataPacket, pts_or_dts, is_key_frame,
}

-- `m_current_size` is a sum of sizes; `Counters` shows that the subtraction in `pop` never stops at 0.
pub record PacketQueue : Type 0 where
  pub enabled : Bool
  pub can_be_empty : Bool
  pub key_count : ℕ
  pub current_size : ℕ
  pub max_packets : ℕ
  pub max_size : ℕ
  pub list : List DataPacket

unfoldable pub is_av : MediaType → Bool
is_av undefined = false
is_av video = true
is_av audio = true

unfoldable pub make_queue : MediaType → PacketQueue
unfolding is_av
make_queue type = record {
  enabled = true;
  can_be_empty = not (is_av type);
  key_count = 0;
  current_size = 0;
  max_packets = 999999;
  max_size = 50 * 1000000;
  list = [];
}

-- A `bool` that is added to an `int`.
abbrev pub to_int : Bool → ℕ
to_int true = 1
to_int false = 0

unfoldable pub push : PacketQueue → DataPacket → PacketQueue
push q p = record q {
  list = q.list ++ (p ∷ []);
  current_size = q.current_size + p.size;
  key_count = q.key_count + to_int (is_key_frame p);
}

take_front : PacketQueue → List DataPacket → Option (DataPacket × PacketQueue)
take_front q [] = none
take_front q (p ∷ rest) = some (
  p,
  record q {
    list = rest;
    current_size = q.current_size - p.size;
    key_count = q.key_count - to_int (is_key_frame p);
  },
)

-- `front` of an empty list is undefined behaviour: `none`.
unfoldable pub pop : PacketQueue → Option (DataPacket × PacketQueue)
unfolding take_front
pop q = take_front q q.list

-- The first time stamp that is there.
unfoldable pub first_stamp : List DataPacket → TimestampFf
first_stamp [] = no_pts
first_stamp (p ∷ ps) = if not (pts_or_dts p == no_pts) then pts_or_dts p else first_stamp ps

unfoldable pub position : PacketQueue → TimestampFf
position q = if q.current_size == 0 then no_pts else first_stamp q.list

unfoldable pub size : PacketQueue → ℕ
size q = length q.list

unfoldable pub reset : PacketQueue → PacketQueue
reset q = record q { list = []; current_size = 0; key_count = 0 }

unfoldable pub set_enabled : PacketQueue → Bool → PacketQueue
unfolding reset
set_enabled q value =
    if not value then reset (record q { enabled = value }) else record q { enabled = value }

unfoldable pub is_full : PacketQueue → Bool
is_full q = ltb q.max_packets (length q.list) || ltb q.max_size q.current_size
