-- ===== src/DecoderVideo/Delivery.antt =====
-- What `decode` hands out.
use seekira.Common.{
  ℕ, suc, ◌<◌, ◌≡◌, refl, sym, ◌∙◌, ap, subst, ◌⊎◌, inl, inr, Bool, false, Option, none, some, List,
  [], ◌∷◌, arith, by_test, by_option,
}
use seekira.Common.Int.{ℤ, pos, ◌+ℤ◌, ◌-ℤ◌, ◌<ℤ◌, leb_ℤ, int_eq, +ℤ_parts, -ℤ_parts, eq_of_parts}
use seekira.Packet.{DataPacket}
use seekira.Stream.{Frame}
use seekira.DecoderVideo.{
  AvFrame, VideoCodec, DecoderVideo, Call, gives, throws, no_fuel, DecodeRound, hands_out, goes_on,
}
use seekira.DecoderVideo.Decoding.{has_packet, decode_internal, settle, decode_rounds, decode}
use seekira.DecoderVideo.Receiving.{Call-cases, Keeps, Took, Got, decode_internal-Got}
use seekira.DecoderVideo.Timing.{held_times, frame_times, IsClimb, IsClimb-skip, IsTimed}

forth_and_back : (a b : ℤ) → a +ℤ (b -ℤ a) ≡ b
forth_and_back a b =
    eq_of_parts (a +ℤ (b -ℤ a)) b (omega (arith, +ℤ_parts a (b -ℤ a), -ℤ_parts b a))

IsClimb-rest : (t : ℤ) (ts : List ℤ) (high : ℤ) → IsClimb (t ∷ ts) high → IsClimb ts high
IsClimb-rest t [] high c = tt
IsClimb-rest t (u ∷ ts) high c = c.1

module _ {Image : Type 0} where
  -- The frame begins where the frame held back does, and shows the same.
  abbrev pub Begins : Option (Frame Image) → Frame Image → Type 0
  Begins none f = Unit
  Begins (some p) f = f ≡ record p { duration = f.duration }

  -- What a call hands out, by the frames held back before it and after it: no frame, and the frame held back has
  -- not changed or is the first one; a frame of positive duration that ends where the frame held back now
  -- begins; or, without a packet, the last frame.
  abbrev pub Handed :
      ℤ → Bool → Option (Frame Image) → Option (Frame Image) → Option (Frame Image) → Type 0
  Handed average more before none after = (after ≡ before) ⊎ (before ≡ none)
  Handed average more before (some f) none =
      (more ≡ false) × (f.duration ≡ average) × Begins before f
  Handed average more before (some f) (some q) =
      (pos 0 <ℤ f.duration) × (f.ts +ℤ f.duration ≡ q.ts) × Begins before f

  held_some : (p : Frame Image) (fs : List (Frame Image)) → held_times (some p) fs ≡ [] → ⊥
  unfolding held_times
  held_some p fs h = cc

  Handed-fresh :
      (average : ℤ) (more : Bool) (before r after : Option (Frame Image))
      → Handed average more before r after
      → Handed average more none r after
  Handed-fresh average more before none after h = inr refl
  Handed-fresh average more before (some f) none (drained, lasts, b) = (drained, lasts, tt)
  Handed-fresh average more before (some f) (some q) (positive, joins, b) = (positive, joins, tt)

module _ {C Image : Type 0} where
  Begins-held :
      (d d' : DecoderVideo C Image) (p : Frame Image) (t : ℤ)
      → d'.prev_frame ≡ d.prev_frame
      → d'.prev_frame ≡ some p
      → Begins d.prev_frame (record p { duration = t })
  Begins-held d d' p t same there =
      subst (λ b. Begins b (record p { duration = t })) (sym there ∙ same) refl

  Took-next :
      (d d' : DecoderVideo C Image) (f : Frame Image)
      → Took d f d'
      → IsClimb (f.ts ∷ frame_times d'.queue) d'.clock
      → IsTimed (record d' { prev_frame = some f })
  unfolding held_times
  Took-next d d' f k climbs = record {
    forward = k.forward;
    climbs = climbs;
    fresh = λ first. absurd (ground (arith, k.running));
  }

  Took-dropped :
      (d d' : DecoderVideo C Image) (f p : Frame Image)
      → Took d f d'
      → d'.prev_frame ≡ some p
      → IsTimed d'
  unfolding held_times frame_times
  Took-dropped d d' f p k there = record {
    forward = k.forward;
    climbs =
        subst (λ r. IsClimb (held_times r d'.queue) d'.clock) (sym there)
          (IsClimb-skip p.ts f.ts (frame_times d'.queue) d'.clock
            (subst (λ r. IsClimb (held_times r (f ∷ d'.queue)) d'.clock) there k.climbs));
    fresh = λ first. absurd (ground (arith, k.running));
  }

module _ {C Raw Image : Type 0} (V : VideoCodec C Raw Image) where
  abbrev Settled :
      ℤ → Bool → Option (Frame Image) → DecodeRound Image × DecoderVideo C Image → Type 0
  Settled average more before (hands_out r, d) =
      IsTimed d × Handed average more before r d.prev_frame
  Settled average more before (goes_on, d) =
      IsTimed d
      × (more ≡ false)
      × (before ≡ none)
      × ((q : Frame Image) × (d.prev_frame ≡ some q))
      × (V.average_time d.fps ≡ average)

  settle-frame :
      (more : Bool) (f : Frame Image) (d d' : DecoderVideo C Image)
      → Took d f d'
      → Settled (V.average_time d.fps) more d.prev_frame (settle V more (some f) d')
  unfolding settle held_times frame_times
  settle-frame more f d d' k =
      by_option d'.prev_frame (λ r. Settled (V.average_time d.fps) more d.prev_frame r)
        (λ empty.
          let before : d.prev_frame ≡ none = sym k.prev_frame ∙ empty in
          let timed =
            Took-next d d' f k
              (subst (λ r. IsClimb (held_times r (f ∷ d'.queue)) d'.clock) empty k.climbs) in
          by_test more
            (λ t.
              Settled (V.average_time d.fps) more d.prev_frame
                (t, record d' { prev_frame = some f }))
            (λ with_packet. (timed, inr before))
            (λ drained. (timed, drained, before, (f, refl), ap (λ r. V.average_time r) k.fps)))
        (λ p there.
          by_test (leb_ℤ (f.ts -ℤ p.ts) (pos 0))
            (λ r. Settled (V.average_time d.fps) more d.prev_frame r)
            (λ same. (Took-dropped d d' f p k there, inl k.prev_frame))
            (λ later. (
              Took-next d d' f k
                  (subst (λ r. IsClimb (held_times r (f ∷ d'.queue)) d'.clock) there k.climbs).1,
              (
                ground arith,
                forth_and_back p.ts f.ts,
                Begins-held d d' p (f.ts -ℤ p.ts) k.prev_frame there,
              ),
            )))

  settle-none :
      (more : Bool) (d d' : DecoderVideo C Image)
      → Keeps d d'
      → Settled (V.average_time d.fps) more d.prev_frame (settle V more none d')
  unfolding settle held_times frame_times
  settle-none more d d' k =
      by_test more (λ r. Settled (V.average_time d.fps) more d.prev_frame r)
        (λ with_packet. (k.timed, inl k.prev_frame))
        (λ drained.
          by_option d'.prev_frame (λ r. Settled (V.average_time d.fps) more d.prev_frame r)
            (λ empty. (k.timed, inl k.prev_frame))
            (λ p there. (
              record {
                forward = k.timed.forward;
                climbs =
                    IsClimb-rest p.ts (frame_times d'.queue) d'.clock
                      (subst (λ r. IsClimb (held_times r d'.queue) d'.clock) there k.timed.climbs);
                fresh = λ first. absurd (
                    held_some p d'.queue
                      (subst (λ r. held_times r d'.queue ≡ []) there (k.timed.fresh first)));
              },
              (
                drained,
                ap (λ r. V.average_time r) k.fps,
                Begins-held d d' p (V.average_time d'.fps) k.prev_frame there,
              ),
            )))

  -- What a call comes to.
  abbrev pub Answers :
      Bool → DecoderVideo C Image → Call (Option (Frame Image)) (DecoderVideo C Image) → Type 0
  Answers more d (gives r d') =
      IsTimed d' × Handed (V.average_time d.fps) more d.prev_frame r d'.prev_frame
  Answers more d (throws d') = IsTimed d'
  Answers more d no_fuel = ⊥

  module _ (held : C → ℕ) (limit : ℕ)
      (shrinks : (c : C) (f : AvFrame Raw)
        → (V.receive c).0 ≡ some f
        → held (V.receive c).1 < held c)
      (bounded : (c : C) → held c < limit) where
    settle-Settled :
        (more : Bool) (d d' : DecoderVideo C Image) (r : Option (Frame Image))
        → Got d (gives r d')
        → Settled (V.average_time d.fps) more d.prev_frame (settle V more r d')
    settle-Settled more d d' none k = settle-none more d d' k
    settle-Settled more d d' (some f) k = settle-frame more f d d' k

    turn_ends :
        (more : Bool) (d : DecoderVideo C Image) (t : DecodeRound Image) (d2 : DecoderVideo C Image)
        (go : DecoderVideo C Image → Call (Option (Frame Image)) (DecoderVideo C Image))
        → Settled (V.average_time d.fps) more d.prev_frame (t, d2)
        → (Settled (V.average_time d.fps) more d.prev_frame (goes_on, d2) → Answers more d (go d2))
        → Answers more d (elim t [ hands_out r ↦ gives r d2 | goes_on ↦ go d2 ])
    turn_ends more d (hands_out r) d2 go s next = s
    turn_ends more d goes_on d2 go s next = next s

    round-Answers :
        (rounds : ℕ) (packet : Option DataPacket) (d : DecoderVideo C Image)
        → IsTimed d
        → ((d2 : DecoderVideo C Image)
            → Settled (V.average_time d.fps) (has_packet packet) d.prev_frame (goes_on, d2)
            → Answers (has_packet packet) d (decode_rounds V rounds limit packet d2))
        → Answers (has_packet packet) d (decode_rounds V (suc rounds) limit packet d)
    unfolding decode_rounds
    round-Answers rounds packet d t next =
        let got = decode_internal-Got V held limit shrinks bounded packet d t in
        elim (Call-cases (decode_internal V limit packet d)) [
          | inl (f, d', e) ↦
              let (turn, d2) = settle V (has_packet packet) f d' in
              rw (decode_rounds, e)
                (turn_ends (has_packet packet) d turn d2
                  (λ r. decode_rounds V rounds limit packet r)
                  (settle-Settled (has_packet packet) d d' f (subst (λ x. Got d x) e got))
                  (next d2))
          | inr (inl (d', e)) ↦
              rw (decode_rounds, e) (let made : IsTimed d' = subst (λ x. Got d x) e got in made)
          | inr (inr e) ↦ absurd (subst (λ x. Got d x) e got)
        ]

    Answers-from :
        (more : Bool) (d d2 : DecoderVideo C Image)
        (r : Call (Option (Frame Image)) (DecoderVideo C Image))
        → Settled (V.average_time d.fps) more d.prev_frame (goes_on, d2)
        → Answers more d2 r
        → Answers more d r
    Answers-from more d d2 (gives r d') (t, m, fresh, there, avg) (t', h) = (
      t',
      subst (λ b. Handed (V.average_time d.fps) more b r d'.prev_frame) (sym fresh)
          (Handed-fresh (V.average_time d.fps) more d2.prev_frame r d'.prev_frame
            (subst (λ x. Handed x more d2.prev_frame r d'.prev_frame) avg h)),
    )
    Answers-from more d d2 (throws d') s t = t
    Answers-from more d d2 no_fuel s t = t

    -- If each frame that the codec gives leaves fewer than before in it, and fewer than `limit` are in it at any
    -- time, then `decode` with this limit returns or throws, and it keeps the frames that are held in the order
    -- of their times, up to the clock. What it hands out is no frame, and then the frame held back is as before
    -- or there was none; or the frame that was held back before, if there was one, with the image and the time
    -- that it had and a positive duration, at the end of which the frame begins that is held back now; or,
    -- without a packet alone, the last frame, with the duration that the frame rate gives.
    pub decode-Answers :
        (packet : Option DataPacket) (d : DecoderVideo C Image)
        → IsTimed d
        → Answers (has_packet packet) d (decode V limit packet d)
    unfolding decode
    decode-Answers packet d t = round-Answers 1 packet d t (λ d2 s.
        Answers-from (has_packet packet) d d2 (decode_rounds V 1 limit packet d2) s (
          round-Answers 0 packet d2 s.0 (λ d3 again.
            absurd (let (q, there) = s.3 in let gone : d2.prev_frame ≡ none = again.2 in cc))))
