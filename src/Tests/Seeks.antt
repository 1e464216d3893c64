-- ===== src/Tests/Seeks.antt =====
-- Seeks in a file with two streams, whose place is a number, and the theorems on seeks at it.
use seekira.Common.{ℕ, ◌≡◌, refl, true, false, [], ◌∷◌, arith}
use seekira.Common.Dict.{insert, contains}
use seekira.Common.Int.{pos, pos_part}
use seekira.Packet.{no_pts}
use seekira.ParserFf.{ParserFf}
use seekira.ParserFf.Seeking.{SeekFile, reset_last_seek_ts, seek_file_to}
use seekira.ParserFf.Seeking.Ignored.{StaysAt, seek-StaysAt}
use seekira.ParserFf.Seeking.Moves.{Reaches, seek-Reaches}
use seekira.Tests.Times.{track, two_tracks}

-- The seek of a stream goes to the time; the others fail.
abbrev tape : SeekFile ℕ
tape = record {
  seek_byte = λ i at s. (false, s);
  seek_file = λ i low time high any s. (true, pos_part time);
  reopen = λ s. 0;
  rescale = λ a b c. a;
  is_cover = λ i. false;
  is_compressed_swf = false;
  avi_with_repeating_pts = false;
  format_img = false;
  is_mpeg_ps = false;
  is_quick_time = false;
  seek_stream = 0;
  size = pos 1000;
  duration = pos 1000;
}

-- As `find_stream_info` leaves it.
abbrev opened_file : ParserFf ℕ
opened_file = record (two_tracks false) { input = 90; last_seek_ts = (pos 1, no_pts) ∷ [] }

reset_two : reset_last_seek_ts (0 ∷ 1 ∷ []) [] ≡ opened_file.last_seek_ts
unfolding reset_last_seek_ts insert
reset_two = refl

seek-StaysAt_example : StaysAt tape 90 (seek_file_to tape 0 (pos 40) opened_file)
unfolding contains
seek-StaysAt_example =
    seek-StaysAt tape 0 (pos 40) opened_file track (omega arith) (omega arith) refl (λ h. refl) refl
      refl

seek-Reaches_example : Reaches tape 1 (seek_file_to tape 1 (pos 40) opened_file)
unfolding contains
seek-Reaches_example =
    seek-Reaches tape 1 (pos 40) opened_file track (omega arith) refl refl refl refl
