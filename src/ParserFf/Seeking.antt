-- ===== src/ParserFf/Seeking.antt =====
-- `seek` of src/video/ffmpeg/decoding/parser.cpp, and what `find_stream_info` sets up for it. A stream is known by
-- its index, which is a natural number here, as the callers have it.
pub mod Ignored
pub mod Moves
use seekira.Common.{
  ℕ, zero, suc, ◌+◌, ◌*◌, ◌-◌, Bool, true, false, not, ◌&&◌, ◌||◌, Option, none, some, List, [],
  ◌∷◌, map, ltb, leb, get_elem?, get_or, set, ◌==◌, nat_eq, if◌then◌else◌,
}
use seekira.Common.Dict.{Dict, lookup, insert, contains}
use seekira.Common.Int.{ℤ, pos, negsuc, ◌+ℤ◌, leb_ℤ, ltb_ℤ, int_eq}
use seekira.Packet.{no_pts, av_second}
use seekira.ParserFf.Times.{erase_key}
use seekira.ParserFf.{AvStream, ParserFf, is_binary_seek}

-- ffmpeg's operations, each with whether it succeeded, and what the file is known to be.
pub record SeekFile (S : Type 0) : Type 0 where
  -- `av_seek_frame` with AVSEEK_FLAG_BYTE: a stream and a position.
  pub seek_byte : ℕ → ℤ → S → Bool × S
  -- `avformat_seek_file`: a stream, or none for the whole file, and the least, the wanted and the greatest time.
  pub seek_file : Option ℕ → ℤ → ℤ → ℤ → Bool → S → Bool × S
  pub reopen : S → S
  pub rescale : ℤ → ℤ → ℤ → ℤ
  pub is_cover : ℕ → Bool
  pub is_compressed_swf : Bool
  pub avi_with_repeating_pts : Bool
  pub format_img : Bool
  pub is_mpeg_ps : Bool
  pub is_quick_time : Bool
  pub seek_stream : ℕ
  pub size : ℤ
  pub duration : ℤ

-- INT64_MIN and INT64_MAX.
abbrev pub int64_min : ℤ
int64_min = no_pts

abbrev pub int64_max : ℤ
int64_max = pos 9223372036854775807

-- `seek` returns, or it throws; `no_stream` reads a stream that is not there.
pub data Positioned (S : Type 0) : Type 0 where
  positioned : ParserFf S → Positioned S
  threw : ParserFf S → Positioned S
  no_stream : Positioned S

-- `AV_SECOND * n`.
abbrev pub times_second : ℤ → ℤ
times_second (pos n) = pos (av_second * n)
times_second (negsuc n) = negsuc (av_second * suc n - 1)

-- The loop of `find_stream_info` over the streams' indices.
unfoldable pub reset_last_seek_ts : List ℕ → Dict ℤ ℤ → Dict ℤ ℤ
reset_last_seek_ts [] m = m
reset_last_seek_ts (i ∷ indices) m = reset_last_seek_ts indices (insert (pos i) no_pts [])

module _ {S : Type 0} where
  unfoldable pub forget_stream : ℕ → ParserFf S → ParserFf S
  forget_stream index p = record p {
    first_stream_pkt_received = set p.first_stream_pkt_received index false;
    prev_pkt_times = erase_key (pos index) p.prev_pkt_times;
  }

  -- What the format makes of the time that is asked for.
  unfoldable pub restart_repeating : SeekFile S → ℤ → ParserFf S → ℤ × ParserFf S
  restart_repeating F time p =
      if F.avi_with_repeating_pts || p.format_dav
      then (pos 0, record p { prev_pkt_times = [] })
      else (time, p)

  unfoldable pub restart_asf : ℕ → ℤ → ParserFf S → ℤ × ParserFf S
  unfolding forget_stream
  restart_asf index time p =
      if p.format_asf && contains (pos index) p.prev_pkt_times
      then (pos 0, forget_stream index p)
      else (time, p)

  unfoldable pub adjust_time : SeekFile S → ℕ → ℤ → ParserFf S → ℤ × ParserFf S
  unfolding restart_repeating restart_asf
  adjust_time F index time p =
      let (time2, p2) = restart_repeating F time (record p { current_chapter = [] }) in
      restart_asf index time2 p2

  -- The stream's time in each stream's units.
  unfoldable pub stream_times : SeekFile S → ℤ → List AvStream → List ℤ
  stream_times F time [] = []
  stream_times F time (s ∷ ss) =
      F.rescale time s.time_base.den (times_second s.time_base.num) ∷ stream_times F time ss

  unfoldable pub uses_bytes : SeekFile S → ℤ → ParserFf S → Bool
  uses_bytes F time p = p.format_mpeg_ts || (is_binary_seek p || (F.is_mpeg_ps && time == pos 0))

  -- The last tries, which move the right end of the range away from 0.
  unfoldable pub seek_near_start : SeekFile S → ℕ → ℕ → S → Bool × S
  seek_near_start F zero right s = (false, s)
  seek_near_start F (suc tries) right s =
      let (ok, s') = F.seek_file none int64_min (pos 0) (pos right) true s in
      if ok then (true, s') else seek_near_start F tries (right + 100000) s'

  -- From the tries of ffmpeg's operations on: whether one of them succeeded.
  unfoldable pub seek_in_file : SeekFile S → ℕ → ℤ → ℤ → Bool → Bool → S → Bool × S
  unfolding seek_near_start
  seek_in_file F index time stream_time forward by_bytes s =
      let (ok1, s1) =
        if by_bytes then F.seek_byte index (F.rescale F.size time F.duration) s else (false, s) in
      let (ok2, s2) =
        if not ok1 && F.is_quick_time
        then F.seek_file none int64_min time int64_max false s1
        else (ok1, s1) in
      let (ok3, s3) =
        if ok2
        then (true, s2)
        else if forward
        then F.seek_file (some index) stream_time stream_time int64_max false s2
        else F.seek_file (some index) int64_min stream_time stream_time false s2 in
      if ok3 then (true, s3) else if time == pos 0 then seek_near_start F 50 0 s3 else (false, s3)

  -- From the last time of the stream on.
  unfoldable pub seek_from_last :
      SeekFile S → ℕ → ℤ → Bool → AvStream → ℤ → ParserFf S → Positioned S
  unfolding seek_in_file
  seek_from_last F index time by_bytes s last_ts p =
      let gen = get_or p.gen_pts index (pos 0) in
      let forward = not (last_ts == no_pts) && ltb_ℤ last_ts gen in
      let stream_time = if s.start_time == no_pts then gen else gen +ℤ s.start_time in
      if p.format_swf && forward
      then positioned p
      else if p.format_swf && F.is_compressed_swf
      then positioned (record p { input = F.reopen p.input })
      else let time2 = if p.format_swf then pos 0 else time in
        let p2 =
          if s.is_apng && time2 == pos 0
          then record p { first_stream_pkt_received = set p.first_stream_pkt_received index false }
          else p in
        let (ok, input) =
          seek_in_file F index time2 stream_time forward (by_bytes || p.format_swf) p2.input in
        if ok then positioned (record p2 { input = input }) else threw (record p2 { input = input })

  -- The result of the first try on an image is not looked at.
  unfoldable pub seek_image : SeekFile S → ℕ → ℤ → ParserFf S → ParserFf S
  seek_image F index time p =
      if F.format_img && time == pos 0
      then record p { input = (F.seek_byte index (pos 0) p.input).1 }
      else p

  -- From the check of the stream on.
  unfoldable pub seek_stream_to : SeekFile S → ℕ → ℤ → ParserFf S → Positioned S
  unfolding stream_times uses_bytes seek_from_last
  seek_stream_to F index time p =
      if p.format_mpeg_ts && not (index == F.seek_stream)
      then threw p
      else let p2 = record p { gen_pts = stream_times F time p.streams } in
        elim (get_elem? p.streams index) [
          | none ↦ no_stream
          | some s ↦ elim (lookup (pos index) p.last_seek_ts) [
            | none ↦ positioned p2
            | some last_ts ↦ seek_from_last F index time (uses_bytes F time p2) s last_ts p2
          ]
        ]

  unfoldable pub seek_file_to : SeekFile S → ℕ → ℤ → ParserFf S → Positioned S
  unfolding adjust_time seek_image seek_stream_to
  seek_file_to F index time p =
      if F.is_cover index
      then positioned p
      else let (time2, p2) = adjust_time F index time p in
        if ltb_ℤ time2 (pos 0)
        then threw p2
        else if leb p2.stream_count index
        then threw p2
        else if F.format_img && not (time2 == pos 0)
        then threw p2
        else seek_stream_to F index time2 (seek_image F index time2 p2)
