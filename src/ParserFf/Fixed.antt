-- ===== src/ParserFf/Fixed.antt =====
-- `read_frame_fixed` of src/video/ffmpeg/utils/utils.cpp: reading goes on past some errors. ffmpeg's operations and
-- error codes are parameters; a negative result is an error. `io_pos` is the place in the file, if there is one.
use seekira.Common.{
  ℕ, zero, suc, Bool, not, ◌&&◌, ◌||◌, Option, none, some, ltb, ◌==◌, if◌then◌else◌,
}
use seekira.Common.Int.{ℤ, pos, ◌+ℤ◌, ◌-ℤ◌, ltb_ℤ, int_eq}
use seekira.Packet.{no_pts}
use seekira.ParserFf.{AvPacket}

pub record ErrorCodes : Type 0 where
  pub enoent : ℤ
  pub enxio : ℤ
  pub enodev : ℤ
  pub eof : ℤ
  pub eagain : ℤ

-- Nothing that is read after it can be repaired.
unfoldable pub is_final : ErrorCodes → ℤ → Bool
is_final codes res =
    res == codes.enoent || res == codes.enxio || res == codes.enodev || res == codes.eof

-- The size, which is asked for once: `avio_size`, or `avio_tell`, or not known.
unfoldable pub known_size : ℤ → ℤ → ℤ → ℤ
known_size total size tell =
    if not (total == no_pts)
    then total
    else if not (ltb_ℤ size (pos 0))
    then size
    else if not (ltb_ℤ tell (pos 0))
    then tell
    else no_pts

-- The end of the file is more than 100 kilobytes away.
unfoldable pub is_inside : ℤ → ℤ → Bool
is_inside total at = ltb_ℤ (pos 0) total && ltb_ℤ (pos 102400) (total -ℤ at)

module _ {S : Type 0} (codes : ErrorCodes) (io_pos : S → Option ℤ)
    (av_read_frame : S → ℤ × AvPacket × S) (avio_size avio_tell : S → ℤ)
    (av_seek_frame : ℤ → S → Bool × S) where
  -- No fuel is `none`. `count` and `at` and `total` are the source's variables.
  unfoldable pub read_on : ℕ → ℕ → ℤ → ℤ → S → Option (ℤ × AvPacket × S)
  unfolding is_final known_size is_inside
  read_on zero count at total s = none
  read_on (suc fuel) count at total s =
      let here = elim (io_pos s) as (λ _. ℤ) [ none ↦ at | some p ↦ p ] in
      let (res, pkt, s') = av_read_frame s in
      let size = known_size total (avio_size s') (avio_tell s') in
      let again = read_on fuel (suc count) here total s' in
      let (moved, s2) = av_seek_frame (here +ℤ pos 1024) s' in
      let further = read_on fuel 0 (here +ℤ pos 1024) size s2 in
      if not (ltb_ℤ res (pos 0)) || is_final codes res
      then some (res, pkt, s')
      else if res == codes.eagain && ltb count 20
      then again
      else if not (not (here == no_pts) && ltb_ℤ (pos 0) here)
      then some (res, pkt, s')
      else if not (is_inside size here)
      then some (res, pkt, s')
      else if moved
      then further
      else some (res, pkt, s2)

  unfoldable pub read_frame_fixed : ℕ → S → Option (ℤ × AvPacket × S)
  unfolding read_on
  read_frame_fixed fuel s = read_on fuel 0 no_pts no_pts s
