-- ===== src/ParserFf/Seeking/Ignored.antt =====
-- A seek to a stream of which the parser has no last time.
use seekira.Common.{
  ℕ, ◌<◌, ◌≡◌, refl, sym, ◌∙◌, ap, subst, Bool, true, false, not, ◌&&◌, ◌||◌, none, some, List, [],
  ◌∷◌, arith, leb, get_elem?, set, ◌==◌, nat_eq, by_test, by_option,
}
use seekira.Common.Dict.{Dict, lookup, insert, contains, contains-lookup}
use seekira.Common.Int.{ℤ, pos, ◌≤ℤ◌, ltb_ℤ, int_eq}
use seekira.Packet.{no_pts}
use seekira.ParserFf.{AvStream, ParserFf}
use seekira.ParserFf.Times.{erase_key}
use seekira.ParserFf.Seeking.{
  SeekFile, Positioned, positioned, threw, no_stream, reset_last_seek_ts, forget_stream,
  restart_repeating, restart_asf, adjust_time, seek_image, seek_stream_to, seek_file_to,
}

-- The last of the indices.
unfoldable pub last_index : ℕ → List ℕ → ℕ
last_index i [] = i
last_index i (j ∷ js) = last_index j js

-- Of the streams whose last times `find_stream_info` sets up, the parser knows the last one alone.
pub reset-last :
    (i : ℕ) (indices : List ℕ) (m : Dict ℤ ℤ) (k : ℕ)
    → contains (pos k) (reset_last_seek_ts (i ∷ indices) m) ≡ (last_index i indices == k)
unfolding reset_last_seek_ts last_index contains insert
reset-last i [] m k = ground arith
reset-last i (j ∷ js) m k = reset-last j js (insert (pos i) no_pts []) k

module _ {S : Type 0} (F : SeekFile S) where
  -- It returns, and the file stands where it did.
  abbrev pub StaysAt : S → Positioned S → Type 0
  StaysAt s (positioned p) = p.input ≡ s
  StaysAt s (threw p) = ⊥
  StaysAt s no_stream = ⊥

  -- What the format changes of a parser.
  pub record Adjusted (p : ParserFf S) (r : ℤ × ParserFf S) : Type 0 where
    pub late : pos 0 ≤ℤ r.0
    pub input : r.1.input ≡ p.input
    pub last_seek_ts : r.1.last_seek_ts ≡ p.last_seek_ts
    pub streams : r.1.streams ≡ p.streams
    pub stream_count : r.1.stream_count ≡ p.stream_count
    pub format_swf : r.1.format_swf ≡ p.format_swf
    format_mpeg_ts : r.1.format_mpeg_ts ≡ p.format_mpeg_ts

  same_file :
      (p : ParserFf S) (time : ℤ) (chapter : Dict ℤ ℤ) (received : List Bool)
      (times : Dict ℤ (ℤ × ℤ))
      → pos 0 ≤ℤ time
      → Adjusted p (
        time,
        record p {
          current_chapter = chapter;
          first_stream_pkt_received = received;
          prev_pkt_times = times;
        },
      )
  same_file p time chapter received times late = record {
    late = late;
    input = refl;
    last_seek_ts = refl;
    streams = refl;
    stream_count = refl;
    format_swf = refl;
    format_mpeg_ts = refl;
  }

  Adjusted-twice :
      (p : ParserFf S) (q r : ℤ × ParserFf S) → Adjusted p q → Adjusted q.1 r → Adjusted p r
  Adjusted-twice p q r a b = record {
    late = b.late;
    input = b.input ∙ a.input;
    last_seek_ts = b.last_seek_ts ∙ a.last_seek_ts;
    streams = b.streams ∙ a.streams;
    stream_count = b.stream_count ∙ a.stream_count;
    format_swf = b.format_swf ∙ a.format_swf;
    format_mpeg_ts = b.format_mpeg_ts ∙ a.format_mpeg_ts;
  }

  pub adjust_time-Adjusted :
      (index : ℕ) (time : ℤ) (p : ParserFf S)
      → pos 0 ≤ℤ time
      → Adjusted p (adjust_time F index time p)
  unfolding adjust_time restart_repeating restart_asf forget_stream
  adjust_time-Adjusted index time p late =
      let start = record p { current_chapter = [] } in
      let first : Adjusted p (restart_repeating F time start) =
        by_test (F.avi_with_repeating_pts || p.format_dav) (λ r. Adjusted p r)
          (λ repeats. same_file p (pos 0) [] p.first_stream_pkt_received [] (omega arith))
          (λ plain. same_file p time [] p.first_stream_pkt_received p.prev_pkt_times late) in
      let (time2, p2) = restart_repeating F time start in
      Adjusted-twice p (time2, p2) (restart_asf index time2 p2) first
        (by_test (p2.format_asf && contains (pos index) p2.prev_pkt_times) (λ r. Adjusted p2 r)
          (λ repeats.
            same_file p2 (pos 0) p2.current_chapter (set p2.first_stream_pkt_received index false)
              (erase_key (pos index) p2.prev_pkt_times) (omega arith))
          (λ plain.
            same_file p2 time2 p2.current_chapter p2.first_stream_pkt_received p2.prev_pkt_times
              first.late))

  stream-StaysAt :
      (index : ℕ) (time : ℤ) (p : ParserFf S) (s : AvStream)
      → (p.format_mpeg_ts ≡ true → index ≡ F.seek_stream)
      → get_elem? p.streams index ≡ some s
      → contains (pos index) p.last_seek_ts ≡ false
      → StaysAt p.input (seek_stream_to F index time p)
  unfolding seek_stream_to
  stream-StaysAt index time p s ts at unknown =
      by_test (p.format_mpeg_ts && not (index == F.seek_stream)) (λ r. StaysAt p.input r)
        (λ refused. absurd (ground (arith, ts)))
        (λ allowed.
          by_option (get_elem? p.streams index) (λ r. StaysAt p.input r)
            (λ gone. absurd (let out : none ≡ some s = sym gone ∙ at in cc))
            (λ t there.
              by_option (lookup (pos index) p.last_seek_ts) (λ r. StaysAt p.input r)
                (λ missing. refl)
                (λ last_ts found.
                  absurd
                    (let known = contains-lookup (pos index) p.last_seek_ts last_ts found in cc))))

  image-same :
      (index : ℕ) (time : ℤ) (p : ParserFf S) → F.format_img ≡ false → seek_image F index time p ≡ p
  unfolding seek_image
  image-same index time p img =
      by_test (F.format_img && time == pos 0) (λ r. r ≡ p) (λ image. absurd (ground arith))
        (λ other. refl)

  -- A seek to a time from 0 on, to a stream of which the parser has no last time, returns as if it had been done,
  -- but leaves the file where it stands: in every format but that of images, and in an MPEG-TS file for the
  -- stream that seeks are made on.
  pub seek-StaysAt :
      (index : ℕ) (time : ℤ) (p : ParserFf S) (s : AvStream)
      → pos 0 ≤ℤ time
      → index < p.stream_count
      → F.format_img ≡ false
      → (p.format_mpeg_ts ≡ true → index ≡ F.seek_stream)
      → get_elem? p.streams index ≡ some s
      → contains (pos index) p.last_seek_ts ≡ false
      → StaysAt p.input (seek_file_to F index time p)
  unfolding seek_file_to
  seek-StaysAt index time p s late inside img ts at unknown =
      let a = adjust_time-Adjusted index time p late in
      let (time2, p2) = adjust_time F index time p in
      let stays : StaysAt p2.input (seek_stream_to F index time2 p2) =
        stream-StaysAt index time2 p2 s (λ t. ts (sym a.format_mpeg_ts ∙ t))
          (ap (λ xs. get_elem? xs index) a.streams ∙ at)
          (ap (λ m. contains (pos index) m) a.last_seek_ts ∙ unknown) in
      by_test (F.is_cover index) (λ r. StaysAt p.input r) (λ cover. refl)
        (λ other.
          by_test (ltb_ℤ time2 (pos 0)) (λ r. StaysAt p.input r)
            (λ early. absurd (ground (arith, a.late)))
            (λ from_0.
              by_test (leb p2.stream_count index) (λ r. StaysAt p.input r)
                (λ outside. absurd (ground (arith, a.stream_count)))
                (λ there.
                  by_test (F.format_img && not (time2 == pos 0)) (λ r. StaysAt p.input r)
                    (λ image. absurd (ground arith))
                    (λ plain.
                      subst (λ q. StaysAt p.input (seek_stream_to F index time2 q))
                        (sym (image-same index time2 p2 img))
                        (subst (λ i. StaysAt i (seek_stream_to F index time2 p2)) a.input stays)))))
