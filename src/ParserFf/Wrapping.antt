-- ===== src/ParserFf/Wrapping.antt =====
-- The times of a transport stream, which begin again after 2 ^ 33.
use seekira.Common.{ℕ, ◌+◌, ◌-◌, ◌≤◌, ◌<◌, ◌≡◌, ◌≢◌, ◌⊎◌, arith}
use seekira.Common.Int.{pos, ◌+ℤ◌}
use seekira.Packet.{no_pts}
use seekira.ParserFf.Times.{mpeg_ts_time_stamp_wrap_around}

-- A time less than 2 ^ 32 - 1 after the start, of which a packet shows the lower 33 bits, is found again as long as
-- it has not passed 2 ^ 33; after that it is found one unit too early.
pub mpeg_ts_time_stamp_wrap_around-near :
    (start time : ℕ)
    → start < 0x200000000
    → 0xFFFFFFFF < start
    → start ≤ time
    → time < start + 0xFFFFFFFF
    → ((time < 0x200000000) × (mpeg_ts_time_stamp_wrap_around (pos start) (pos time) ≡ pos time))
      ⊎ ((0x200000000 ≤ time)
          × (mpeg_ts_time_stamp_wrap_around (pos start) (pos (time - 0x200000000))
              ≡ pos (time - 1)))
unfolding mpeg_ts_time_stamp_wrap_around ◌+ℤ◌
mpeg_ts_time_stamp_wrap_around-near start time low high from near = ground arith

-- A time that is missing is made into one that is there, when the stream starts late.
pub mpeg_ts_time_stamp_wrap_around-missing :
    (start : ℕ) → 0xFFFFFFFF < start → mpeg_ts_time_stamp_wrap_around (pos start) no_pts ≢ no_pts
unfolding mpeg_ts_time_stamp_wrap_around ◌+ℤ◌
mpeg_ts_time_stamp_wrap_around-missing start high = λ e. ground arith
