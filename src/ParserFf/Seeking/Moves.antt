-- ===== src/ParserFf/Seeking/Moves.antt =====
-- What a seek that returns has done.
use seekira.Common.{
  ℕ, zero, suc, ◌+◌, ◌≡◌, ◌⊎◌, inl, inr, refl, sym, ◌∙◌, ap, Bool, true, false, not, ◌&&◌, ◌||◌,
  Option, none, some, arith, leb, set, get_elem?, get_or, ◌==◌, nat_eq, if◌then◌else◌, by_test,
  by_option,
}
use seekira.Common.Dict.{lookup, contains, lookup-present}
use seekira.Common.Int.{ℤ, pos, ◌+ℤ◌, ◌≤ℤ◌, ltb_ℤ, int_eq}
use seekira.Packet.{no_pts}
use seekira.ParserFf.{AvStream, ParserFf}
use seekira.ParserFf.Seeking.{
  SeekFile, int64_min, int64_max, Positioned, positioned, threw, no_stream, adjust_time,
  seek_near_start, seek_in_file, seek_from_last, stream_times, uses_bytes, seek_image,
  seek_stream_to, seek_file_to,
}
use seekira.ParserFf.Seeking.Ignored.{adjust_time-Adjusted}

module _ {S : Type 0} (F : SeekFile S) where
  -- The file stands where one of ffmpeg's operations, which succeeded, has put it.
  pub data IsPut : S → Type 0 where
    by_byte :
        (i : ℕ) (at : ℤ) (s : S) → (F.seek_byte i at s).0 ≡ true → IsPut (F.seek_byte i at s).1
    by_file :
        (i : Option ℕ) (low time high : ℤ) (any : Bool) (s : S)
        → (F.seek_file i low time high any s).0 ≡ true
        → IsPut (F.seek_file i low time high any s).1

  abbrev IsTried : Bool × S → Type 0
  IsTried (true, s) = IsPut s
  IsTried (false, s) = Unit

  tried : (r : Bool × S) → (r.0 ≡ true → IsPut r.1) → IsTried r
  tried (true, s) h = h refl
  tried (false, s) h = tt

  -- The seek of the stream has failed.
  abbrev pub HasFailed : ℕ → Type 0
  HasFailed index =
      (low : ℤ) × (time : ℤ) × (high : ℤ) × (s : S) × ((F.seek_file (some index) low time high false
          s).0
        ≡ false)

  abbrev IsFinal : ℕ → Bool × S → Type 0
  IsFinal index (true, s) = IsPut s
  IsFinal index (false, s) = HasFailed index

  by-IsTried :
      (r other : Bool × S)
      → IsTried r
      → IsTried other
      → IsTried (if r.0 then (true, r.1) else other)
  by-IsTried (true, s) other t o = t
  by-IsTried (false, s) other t o = o

  by-IsFinal :
      (index : ℕ) (r other : Bool × S)
      → IsFinal index r
      → (HasFailed index → IsFinal index other)
      → IsFinal index (if r.0 then (true, r.1) else other)
  by-IsFinal index (true, s) other t o = t
  by-IsFinal index (false, s) other t o = o t

  try-IsFinal : (index : ℕ) (r : Bool × S) → IsTried r → HasFailed index → IsFinal index r
  try-IsFinal index (true, s) t failed = t
  try-IsFinal index (false, s) t failed = failed

  after-IsTried :
      (index : ℕ) (r other : Bool × S)
      → IsTried r
      → IsFinal index other
      → IsFinal index (if r.0 then (true, r.1) else other)
  after-IsTried index (true, s) other t o = t
  after-IsTried index (false, s) other t o = o

  IsFinal-of :
      (index : ℕ) (q : Bool × S)
      → (q.0 ≡ true → IsPut q.1)
      → (q.0 ≡ false → HasFailed index)
      → IsFinal index q
  IsFinal-of index (true, s) put failed = put refl
  IsFinal-of index (false, s) put failed = failed refl

  seek-IsFinal :
      (index : ℕ) (low time high : ℤ) (s : S)
      → IsFinal index (F.seek_file (some index) low time high false s)
  seek-IsFinal index low time high s =
      IsFinal-of index (F.seek_file (some index) low time high false s)
        (by_file (some index) low time high false s) (λ h. (low, time, high, s, h))

  near_start-IsTried : (tries right : ℕ) (s : S) → IsTried (seek_near_start F tries right s)
  unfolding seek_near_start
  near_start-IsTried zero right s = tt
  near_start-IsTried (suc tries) right s =
      let r = F.seek_file none int64_min (pos 0) (pos right) true s in
      by-IsTried r _ (tried r (by_file none int64_min (pos 0) (pos right) true s))
        (near_start-IsTried tries (right + 100000) r.1)

  in_file-IsFinal :
      (index : ℕ) (time stream_time : ℤ) (forward by_bytes : Bool) (s : S)
      → IsFinal index (seek_in_file F index time stream_time forward by_bytes s)
  unfolding seek_in_file
  in_file-IsFinal index time stream_time forward by_bytes s =
      let r1 =
        if by_bytes then F.seek_byte index (F.rescale F.size time F.duration) s else (false, s) in
      let t1 : IsTried r1 =
        by_test by_bytes IsTried
          (λ h.
            tried (F.seek_byte index (F.rescale F.size time F.duration) s)
              (by_byte index (F.rescale F.size time F.duration) s))
          (λ h. tt) in
      let r2 =
        if not r1.0 && F.is_quick_time
        then F.seek_file none int64_min time int64_max false r1.1
        else r1 in
      let t2 : IsTried r2 =
        by_test (not r1.0 && F.is_quick_time) IsTried
          (λ h.
            tried (F.seek_file none int64_min time int64_max false r1.1)
              (by_file none int64_min time int64_max false r1.1))
          (λ h. t1) in
      let whole =
        if forward
        then F.seek_file (some index) stream_time stream_time int64_max false r2.1
        else F.seek_file (some index) int64_min stream_time stream_time false r2.1 in
      let t3 : IsFinal index whole =
        by_test forward (λ r. IsFinal index r)
          (λ h. seek-IsFinal index stream_time stream_time int64_max r2.1)
          (λ h. seek-IsFinal index int64_min stream_time stream_time r2.1) in
      let r3 = if r2.0 then (true, r2.1) else whole in
      by-IsFinal index r3 _ (after-IsTried index r2 whole t2 t3) (λ failed.
        by_test (time == pos 0) (λ r. IsFinal index r)
          (λ h.
            try-IsFinal index (seek_near_start F 50 0 r3.1) (near_start-IsTried 50 0 r3.1) failed)
          (λ h. failed))

  -- Why a seek throws.
  abbrev pub IsRefused : ℕ → ParserFf S → Type 0
  IsRefused index p =
      (leb p.stream_count index ≡ true)
      ⊎ ((F.format_img ≡ true)
          ⊎ (((p.format_mpeg_ts && not (index == F.seek_stream)) ≡ true) ⊎ HasFailed index))

  abbrev pub Reaches : ℕ → Positioned S → Type 0
  Reaches index (positioned p) = IsPut p.input
  Reaches index (threw p) = IsRefused index p
  Reaches index no_stream = ⊥

  end-Reaches :
      (index : ℕ) (r : Bool × S) (p : ParserFf S)
      → IsFinal index r
      → Reaches index
          (if r.0 then positioned (record p { input = r.1 }) else threw (record p { input = r.1 }))
  end-Reaches index (true, s) p t = t
  end-Reaches index (false, s) p t = inr (inr (inr t))

  from_last-Reaches :
      (index : ℕ) (time : ℤ) (by_bytes : Bool) (s : AvStream) (last_ts : ℤ) (p : ParserFf S)
      → p.format_swf ≡ false
      → Reaches index (seek_from_last F index time by_bytes s last_ts p)
  unfolding seek_from_last
  from_last-Reaches index time by_bytes s last_ts p swf =
      let gen = get_or p.gen_pts index (pos 0) in
      let forward = not (last_ts == no_pts) && ltb_ℤ last_ts gen in
      let stream_time = if s.start_time == no_pts then gen else gen +ℤ s.start_time in
      let time2 = if p.format_swf then pos 0 else time in
      let p2 =
        if s.is_apng && time2 == pos 0
        then record p { first_stream_pkt_received = set p.first_stream_pkt_received index false }
        else p in
      by_test (p.format_swf && forward) (λ r. Reaches index r) (λ h. absurd (ground arith))
        (λ h.
          by_test (p.format_swf && F.is_compressed_swf) (λ r. Reaches index r)
            (λ h. absurd (ground arith))
            (λ h.
              end-Reaches index
                (seek_in_file F index time2 stream_time forward (by_bytes || p.format_swf) p2.input)
                p2
                (in_file-IsFinal index time2 stream_time forward (by_bytes || p.format_swf)
                  p2.input)))

  stream-Reaches :
      (index : ℕ) (time : ℤ) (p : ParserFf S) (s : AvStream)
      → p.format_swf ≡ false
      → get_elem? p.streams index ≡ some s
      → contains (pos index) p.last_seek_ts ≡ true
      → Reaches index (seek_stream_to F index time p)
  unfolding seek_stream_to
  stream-Reaches index time p s swf at known =
      let p2 : ParserFf S = record p { gen_pts = stream_times F time p.streams } in
      by_test (p.format_mpeg_ts && not (index == F.seek_stream)) (λ r. Reaches index r)
        (λ h. inr (inr (inl h)))
        (λ h.
          by_option (get_elem? p.streams index) (λ r. Reaches index r)
            (λ gone. let out : none ≡ some s = sym gone ∙ at in cc)
            (λ t there.
              by_option (lookup (pos index) p.last_seek_ts) (λ r. Reaches index r)
                (λ missing. absurd (
                  let (v, found) = lookup-present (pos index) p.last_seek_ts known in
                  let out : none ≡ some v = sym missing ∙ found in cc))
                (λ last_ts found.
                  from_last-Reaches index time (uses_bytes F time p2) t last_ts p2 swf)))

  -- A seek to a time from 0 on, to a stream that is there, is no cover and has a last time in the parser, in every
  -- format but SWF: if it returns, then one of ffmpeg's operations has succeeded and has put the file where it
  -- stands. It throws only for an index above those of the streams, for images, for a stream of an MPEG-TS file
  -- that seeks are not made on, or where ffmpeg's seek of the stream has failed.
  pub seek-Reaches :
      (index : ℕ) (time : ℤ) (p : ParserFf S) (s : AvStream)
      → pos 0 ≤ℤ time
      → F.is_cover index ≡ false
      → p.format_swf ≡ false
      → get_elem? p.streams index ≡ some s
      → contains (pos index) p.last_seek_ts ≡ true
      → Reaches index (seek_file_to F index time p)
  unfolding seek_file_to seek_image
  seek-Reaches index time p s late no_cover swf at known =
      let a = adjust_time-Adjusted F index time p late in
      let (time2, p2) = adjust_time F index time p in
      let swf2 : p2.format_swf ≡ false = a.format_swf ∙ swf in
      let at2 : get_elem? p2.streams index ≡ some s =
        ap (λ xs. get_elem? xs index) a.streams ∙ at in
      let known2 : contains (pos index) p2.last_seek_ts ≡ true =
        ap (λ m. contains (pos index) m) a.last_seek_ts ∙ known in
      by_test (F.is_cover index) (λ r. Reaches index r) (λ cover. absurd (ground arith))
        (λ h.
          by_test (ltb_ℤ time2 (pos 0)) (λ r. Reaches index r)
            (λ h. absurd (ground (arith, a.late)))
            (λ h.
              by_test (leb p2.stream_count index) (λ r. Reaches index r) (λ h. inl h)
                (λ h.
                  by_test (F.format_img && not (time2 == pos 0)) (λ r. Reaches index r)
                    (λ h. inr (inl (ground arith)))
                    (λ h.
                      by_test (F.format_img && time2 == pos 0)
                        (λ q. Reaches index (seek_stream_to F index time2 q))
                        (λ h.
                          stream-Reaches index time2
                            (record p2 { input = (F.seek_byte index (pos 0) p2.input).1 }) s swf2
                            at2 known2)
                        (λ h. stream-Reaches index time2 p2 s swf2 at2 known2)))))
