-- ===== src/Source.antt =====
-- src/video/ffmpeg/interfaces/demuxer.hpp: what a stream and its reader use of `IDemuxer`. `seek` and
-- `read` return, or they throw.
use seekira.Common.{ℕ, ◌<◌, ◌≡◌, Option, some}
use seekira.Common.Int.{ℤ, pos, negsuc}
use seekira.Packet.{DataPacket}
use seekira.Demuxer.Seek.{Sought, returned}

-- `remaining` bounds the packets that are still to come before the next seek: a file is finite. A seek
-- to a time that is not negative is answered by such a time.
pub record Source : Type 1 where
  pub State : Type 0
  pub stream_duration : ℕ → ℤ
  pub read : ℕ → State → Sought (Option DataPacket) State
  pub seek : ℤ → State → Sought ℤ State
  pub release_internal_data : ℕ → State → State
  pub remaining : State → ℕ
  pub read_shrinks :
      (i : ℕ) (s s' : State) (p : DataPacket)
      → read i s ≡ returned (some p) s'
      → remaining s' < remaining s
  pub seek_at_least : (t n : ℕ) (s s' : State) → seek (pos t) s ≡ returned (negsuc n) s' → ⊥
