-- ===== src/Stream/Frames.antt =====
-- The frames that a stream gives.
use seekira.Common.{
  ℕ, zero, suc, ◌+◌, ◌<◌, ◌≡◌, refl, sym, ◌∙◌, ap, subst, ◌⊎◌, inl, inr, Bool, true, false, Option,
  none, some, arith, Bool-cases, Option-cases,
}
use seekira.Common.Int.{◌+ℤ◌, leb_ℤ, int_eq}
use seekira.Packet.{DataPacket, is_key_frame}
use seekira.Demuxer.Reading.{Ensures}
use seekira.Demuxer.Seek.{Sought, returned, raised}
use seekira.StreamReader.Terminates.{Sought-cases}
use seekira.Source.{Source}
use seekira.Stream.{
  Frame, DemuxedStream, FrameEnd, frame, nothing, null_packet, null_decoder, FrameStep,
  buffer_frame, ends, goes_on, count_packet, read_packet, decode_packet, read_step, read_loop,
  read_frame,
}

module _ {Image Decoder : Type 0}
    (decode : Option DataPacket → Decoder → Sought (Option (Frame Image)) Decoder)
    (D : Source) where
  open D use {State}

  -- The decoder makes the frame of some packet, or of none.
  abbrev pub Decoded : Frame Image → Type 0
  Decoded g =
      (p : Option DataPacket) × (c : Decoder) × (c' : Decoder) × (decode p c ≡ returned (some g) c')

  -- The settings of a stream stay, and `n` frames are counted.
  pub record Counts (s : DemuxedStream Image) (n : ℕ) (s' : DemuxedStream Image) : Type 0 where
    pub same_stream : s'.stream ≡ s.stream
    pub same_time : s'.seek_position ≡ s.seek_position
    pub same_end : s'.terminated ≡ s.terminated
    pub same_reader : s'.has_reader ≡ s.has_reader
    pub same_decoder : s'.has_decoder ≡ s.has_decoder
    pub counts : s'.processed_frame_count ≡ s.processed_frame_count + n

  -- A frame was waiting or has been decoded; the stream runs and has its reader, its seek is not past its end, and the
  -- position is the end of the frame. No frame is given if the stream was stopped, or its seek lies past
  -- the end, or the decoder has nothing left. The null packet is used if the decoder has something left, and the null
  -- decoder if the stream has none.
  abbrev pub Delivers :
      DemuxedStream Image → Sought (FrameEnd Image) (DemuxedStream Image × State × Decoder) → Type 0
  Delivers s (raised (s', d', c')) = Counts s 0 s'
  Delivers s (returned (frame g) (s', d', c')) =
      Counts s 1 s'
      × (s.terminated ≡ false)
      × (s.has_reader ≡ true)
      × (leb_ℤ (D.stream_duration s.stream) s.seek_position ≡ false)
      × (s'.position ≡ g.ts +ℤ g.duration)
      × ((s.buffered_data ≡ some g) ⊎ Decoded g)
  Delivers s (returned nothing (s', d', c')) =
      Counts s 0 s'
      × ((s.terminated ≡ true)
          ⊎ (leb_ℤ (D.stream_duration s.stream) s.seek_position ≡ true)
          ⊎ ((c : Decoder) × (c2 : Decoder) × (decode none c ≡ returned none c2)))
  Delivers s (returned null_packet (s', d', c')) =
      Counts s 0 s'
      × ((g : Frame Image) × (c : Decoder) × (c2 : Decoder) × (decode none c
            ≡ returned (some g) c2))
  Delivers s (returned null_decoder (s', d', c')) = Counts s 0 s' × (s.has_decoder ≡ false)

  -- The packets that a stream can still take.
  unfoldable waiting : DemuxedStream Image → State → ℕ
  waiting s d = elim s.buffered_packet [ none ↦ D.remaining d | some p ↦ suc (D.remaining d) ]

  Reads :
      DemuxedStream Image
      → State
      → Sought (Option DataPacket) (DemuxedStream Image × State)
      → Type 0
  Reads s d (raised (s', d')) = Counts s 0 s'
  Reads s d (returned none (s', d')) = Counts s 0 s'
  Reads s d (returned (some p) (s', d')) = Counts s 0 s' × (waiting s' d' < waiting s d)

  Counts-self : (s : DemuxedStream Image) → Counts s 0 s
  Counts-self s = record {
    same_stream = refl;
    same_time = refl;
    same_end = refl;
    same_reader = refl;
    same_decoder = refl;
    counts = omega arith;
  }

  read_packet-Reads : (s : DemuxedStream Image) (d : State) → Reads s d (read_packet D s d)
  unfolding read_packet Reads count_packet waiting
  read_packet-Reads s d = elim (Bool-cases s.has_reader) [
    | inr off ↦ simp (read_packet, off) (Counts-self s)
    | inl on ↦ elim (Bool-cases s.terminated) [
      | inl over ↦ simp (read_packet, on, over) (Counts-self s)
      | inr runs ↦ elim (Option-cases s.buffered_packet) [
        | inr (p, there) ↦
            simp (read_packet, on, runs, there)
              (
                record {
                  same_stream = refl;
                  same_time = refl;
                  same_end = sym runs;
                  same_reader = sym on;
                  same_decoder = refl;
                  counts = omega arith;
                },
                ground arith,
              )
        | inl empty ↦ elim (Sought-cases (D.read s.stream d)) [
          | inr (d', f) ↦ simp (read_packet, on, runs, empty, f) (Counts-self s)
          | inl (none, d', f) ↦ simp (read_packet, on, runs, empty, f) (Counts-self s)
          | inl (some p, d', f) ↦
              simp (read_packet, on, runs, empty, f)
                (
                  record {
                    same_stream = refl;
                    same_time = refl;
                    same_end = sym runs;
                    same_reader = sym on;
                    same_decoder = refl;
                    counts = omega arith;
                  },
                  ground (arith, D.read_shrinks s.stream d d' p f),
                )
        ]
      ]
    ]
  ]

  Counts-trans : (a b c : DemuxedStream Image) (n : ℕ) → Counts a 0 b → Counts b n c → Counts a n c
  Counts-trans a b c n x y = record {
    same_stream = y.same_stream ∙ x.same_stream;
    same_time = y.same_time ∙ x.same_time;
    same_end = y.same_end ∙ x.same_end;
    same_reader = y.same_reader ∙ x.same_reader;
    same_decoder = y.same_decoder ∙ x.same_decoder;
    counts = omega (arith, x.counts, y.counts);
  }

  Steps :
      DemuxedStream Image
      → State
      → Sought (FrameStep Image) (DemuxedStream Image × State × Decoder)
      → Type 0
  Steps s d (raised t) = Delivers s (raised t)
  Steps s d (returned (ends r) t) = Delivers s (returned r t)
  Steps s d (returned goes_on (s', d', c')) =
      Counts s 0 s'
      × (waiting s' d' < waiting s d)
      × ((g : Frame Image) → s'.buffered_data ≡ some g → Decoded g)

  Counts-data :
      (s s' : DemuxedStream Image) (n : ℕ) (f : Option (Frame Image)) (key : Bool)
      → Counts s n s'
      → Counts s n (record s' { buffered_data = f; last_key_frame = key })
  Counts-data s s' n f key x = record {
    same_stream = x.same_stream;
    same_time = x.same_time;
    same_end = x.same_end;
    same_reader = x.same_reader;
    same_decoder = x.same_decoder;
    counts = x.counts;
  }

  -- What a packet and the decoder's answer to it come to.
  after_decode :
      State
      → Sought (FrameStep Image) (DemuxedStream Image × Decoder)
      → Sought (FrameStep Image) (DemuxedStream Image × State × Decoder)
  after_decode d (raised (s, c)) = raised (s, d, c)
  after_decode d (returned r (s, c)) = returned r (s, d, c)

  buffer_frame-Steps :
      (s s' : DemuxedStream Image) (d d' : State) (c c' : Decoder) (p : Option DataPacket)
      (f : Option (Frame Image))
      → Reads s d (returned p (s', d'))
      → decode p c ≡ returned f c'
      → Steps s d (let (r, s2) = buffer_frame p f s' in returned r (s2, d', c'))
  unfolding buffer_frame Reads Steps waiting
  buffer_frame-Steps s s' d d' c c' none none kept e =
      (Counts-data s s' 0 none s'.last_key_frame kept, inr (inr (c, c', e)))
  buffer_frame-Steps s s' d d' c c' none (some g) kept e =
      (Counts-data s s' 0 (some g) s'.last_key_frame kept, (g, c, c', e))
  buffer_frame-Steps s s' d d' c c' (some q) none (kept, less) e =
      (Counts-data s s' 0 none s'.last_key_frame kept, less, λ g h. cc)
  buffer_frame-Steps s s' d d' c c' (some q) (some f) (kept, less) e = (
    Counts-data s s' 0 (some f) (is_key_frame q) kept,
    less,
    λ g h. (some q, c, c', e ∙ ap (λ x. returned x c') h),
  )

  Reads-Counts :
      (s s' : DemuxedStream Image) (d d' : State) (p : Option DataPacket)
      → Reads s d (returned p (s', d'))
      → Counts s 0 s'
  unfolding Reads
  Reads-Counts s s' d d' none kept = kept
  Reads-Counts s s' d d' (some q) (kept, less) = kept

  decode_packet-Steps :
      (s s' : DemuxedStream Image) (d d' : State) (c : Decoder) (p : Option DataPacket)
      → Reads s d (returned p (s', d'))
      → Steps s d (after_decode d' (decode_packet decode p s' c))
  unfolding decode_packet Steps after_decode
  decode_packet-Steps s s' d d' c p reads =
      let kept = Reads-Counts s s' d d' p reads in
      elim (Bool-cases s'.has_decoder) [
        | inr off ↦ simp (decode_packet, off) (kept, sym kept.same_decoder ∙ off)
        | inl on ↦ elim (Sought-cases (decode p c)) [
          | inr (c', f) ↦ simp (decode_packet, on, f) kept
          | inl (f, c', e) ↦
              simp (decode_packet, on, e) (buffer_frame-Steps s s' d d' c c' p f reads e)
        ]
      ]

  read_step-Steps :
      (s : DemuxedStream Image) (d : State) (c : Decoder) → Steps s d (read_step decode D s d c)
  unfolding read_step Steps Reads decode_packet after_decode
  read_step-Steps s d c = elim (Bool-cases s.terminated) [
    | inl over ↦ simp (read_step, over) (Counts-self s, inl refl)
    | inr runs ↦ elim (Bool-cases s.has_reader) [
      | inr off ↦ simp (read_step, runs, off) (Counts-self s)
      | inl on ↦ elim (Bool-cases (leb_ℤ (D.stream_duration s.stream) s.seek_position)) [
        | inl past ↦ simp (read_step, runs, on, past) (Counts-self s, inr (inl refl))
        | inr within ↦ elim (Option-cases s.buffered_data) [
          | inr (f, there) ↦
              simp (read_step, runs, on, within, there)
                (
                  record {
                    same_stream = refl;
                    same_time = refl;
                    same_end = sym runs;
                    same_reader = sym on;
                    same_decoder = refl;
                    counts = omega arith;
                  },
                  refl,
                  refl,
                  refl,
                  refl,
                  inl refl,
                )
          | inl empty ↦
              let reads = read_packet-Reads s d in
              elim (Sought-cases (read_packet D s d)) [
                | inr ((s', d'), f) ↦
                    simp (read_step, runs, on, within, empty, f) (subst (λ r. Reads s d r) f reads)
                | inl (p, (s', d'), f) ↦
                    simp (read_step, runs, on, within, empty, f)
                      (decode_packet-Steps s s' d d' c p (subst (λ r. Reads s d r) f reads))
              ]
        ]
      ]
    ]
  ]

  Delivers-later :
      (s s' : DemuxedStream Image)
      (r : Sought (FrameEnd Image) (DemuxedStream Image × State × Decoder))
      → Counts s 0 s'
      → ((g : Frame Image) → s'.buffered_data ≡ some g → Decoded g)
      → Delivers s' r
      → Delivers s r
  Delivers-later s s' (raised t) k made x = Counts-trans s s' t.0 0 k x
  Delivers-later s s' (returned (frame g) t) k made (n, runs, linked, within, at, origin) = (
    Counts-trans s s' t.0 1 k n,
    sym k.same_end ∙ runs,
    sym k.same_reader ∙ linked,
    subst (λ i. leb_ℤ (D.stream_duration i) s.seek_position ≡ false) k.same_stream
        (subst (λ z. leb_ℤ (D.stream_duration s'.stream) z ≡ false) k.same_time within),
    at,
    inr (elim origin [ inl e ↦ made g e | inr o ↦ o ]),
  )
  Delivers-later s s' (returned nothing t) k made (n, why) = (
    Counts-trans s s' t.0 0 k n,
    elim why [
      | inl over ↦ inl (sym k.same_end ∙ over)
      | inr (inr gone) ↦ inr (inr gone)
      | inr (inl past) ↦ inr (
          inl (
            subst (λ i. leb_ℤ (D.stream_duration i) s.seek_position ≡ true) k.same_stream
              (subst (λ z. leb_ℤ (D.stream_duration s'.stream) z ≡ true) k.same_time past)))
    ],
  )
  Delivers-later s s' (returned null_packet t) k made (n, held) =
      (Counts-trans s s' t.0 0 k n, held)
  Delivers-later s s' (returned null_decoder t) k made (n, off) =
      (Counts-trans s s' t.0 0 k n, sym k.same_decoder ∙ off)

  Ensures-later :
      (s s' : DemuxedStream Image)
      (r : Option (Sought (FrameEnd Image) (DemuxedStream Image × State × Decoder)))
      → Counts s 0 s'
      → ((g : Frame Image) → s'.buffered_data ≡ some g → Decoded g)
      → Ensures (Delivers s') r
      → Ensures (Delivers s) r
  Ensures-later s s' none kept made x = elim x [ ]
  Ensures-later s s' (some r) kept made x = Delivers-later s s' r kept made x

  read_loop-Delivers :
      (fuel : ℕ) (s : DemuxedStream Image) (d : State) (c : Decoder)
      → waiting s d < fuel
      → Ensures (Delivers s) (read_loop decode D fuel s d c)
  unfolding read_loop Steps
  read_loop-Delivers zero s d c low = absurd (omega arith)
  read_loop-Delivers (suc fuel) s d c low =
      let steps = read_step-Steps s d c in
      elim (Sought-cases (read_step decode D s d c)) [
        | inr (t, f) ↦ simp (read_loop, f) (subst (λ r. Steps s d r) f steps)
        | inl (ends r, t, f) ↦ simp (read_loop, f) (subst (λ r. Steps s d r) f steps)
        | inl (goes_on, (s', d', c'), f) ↦
            let (kept, less, made) = subst (λ r. Steps s d r) f steps in
            let later = read_loop-Delivers fuel s' d' c' (omega arith) in
            simp (read_loop, f)
              (Ensures-later s s' (read_loop decode D fuel s' d' c') kept made later)
      ]

  -- A stream answers each call for a frame, whatever its decoder does, within its fuel, which is three more than the
  -- packets that its demuxer has left. If it gives a frame, then it has not been stopped and has its reader, the last seek
  -- was to a time before its end, the frame was waiting or is the decoder's, the position is the frame's end
  -- and one frame more is counted. It gives none only if it was stopped, if the seek was to its end or later, or if
  -- its decoder has nothing left. It uses a null packet only if the decoder has a frame left without a packet, and a null
  -- decoder only if it has none. An exception leaves the count of frames as it was.
  pub read_frame-Delivers :
      (s : DemuxedStream Image) (d : State) (c : Decoder)
      → Ensures (Delivers s) (read_frame decode D s d c)
  unfolding read_frame waiting
  read_frame-Delivers s d c = read_loop-Delivers (3 + D.remaining d) s d c (ground arith)
