-- ===== src/Parser.antt =====
-- What src/video/ffmpeg/decoding/demuxer_queue.cpp uses of `ParserFF` (parser.hpp): the client's side of
-- the interface. A parser is a state behind `read` and `seek`; the layout of the streams is fixed once
-- a file is open.
use seekira.Common.{ℕ, ◌<◌, ◌≡◌}
use seekira.Common.Int.{ℤ}
use seekira.Packet.{DataPacket, MediaType}

-- `read` gives a packet, or the null pointer at the end of the file.
pub data ReadResult (S : Type 0) : Type 0 where
  packet : DataPacket → S → ReadResult S
  finished : S → ReadResult S

-- `seek` returns, or it throws.
pub data SeekResult (S : Type 0) : Type 0 where
  moved : S → SeekResult S
  failed : S → SeekResult S

-- `remaining` bounds the packets that are still to come: a file is finite, and each packet that is
-- read lies behind the read position. Packets of unknown streams are dropped by `read_packet`.
pub record Parser : Type 1 where
  pub State : Type 0
  pub stream_count : ℕ
  pub stream_type : ℕ → MediaType
  pub seek_stream : ℕ
  pub read : State → ReadResult State
  pub seek : ℕ → ℤ → State → SeekResult State
  pub remaining : State → ℕ
  pub read_shrinks :
      (s s' : State) (p : DataPacket) → read s ≡ packet p s' → remaining s' < remaining s
  pub read_in_range :
      (s s' : State) (p : DataPacket) → read s ≡ packet p s' → p.stream_index < stream_count
