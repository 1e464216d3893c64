-- ===== src/DecoderVideo/Receiving.antt =====
-- The loop over the codec's frames, and what `decode_internal` returns.
use seekira.Common.{
  ℕ, zero, suc, ◌<◌, ◌≡◌, refl, ◌∙◌, subst, ◌⊎◌, inl, inr, Bool, false, not, ◌&&◌, Option, none,
  some, ◌∷◌, arith, ◌==◌, by_test, by_list, Option-cases,
}
use seekira.Common.Int.{pos, ◌≤ℤ◌, int_eq}
use seekira.Packet.{DataPacket, no_pts, is_key_frame}
use seekira.Stream.{Frame}
use seekira.DecoderVideo.{
  AvFrame, VideoCodec, DecoderVideo, Call, gives, throws, no_fuel, LoopEnd, breaks, no_image,
  SendCode, again, refused, end_of_file, taken,
}
use seekira.DecoderVideo.Decoding.{
  after_send, has_planes, advance_clock, note_duration, push_frame, get_next_queued_frame,
  prepare_times, receive_all, next_frame, decode_internal,
}
use seekira.DecoderVideo.Timing.{
  held_times, IsClimb, IsTimed, advance-IsTimed, push-IsTimed, pop-Popped,
}

pub Call-cases :
    {R S : Type 0} (r : Call R S)
    → ((x : R) × (s : S) × (r ≡ gives x s)) ⊎ (((s : S) × (r ≡ throws s)) ⊎ (r ≡ no_fuel))
Call-cases (gives x s) = inl (x, s, refl)
Call-cases (throws s) = inr (inl (s, refl))
Call-cases no_fuel = inr (inr refl)

module _ {C Image : Type 0} where
  -- The state keeps its order, its frame rate and the frame that it holds back.
  pub record Keeps (d d' : DecoderVideo C Image) : Type 0 where
    pub timed : IsTimed d'
    pub prev_frame : d'.prev_frame ≡ d.prev_frame
    pub fps : d'.fps ≡ d.fps

  Keeps-twice : (d d1 d2 : DecoderVideo C Image) → Keeps d d1 → Keeps d1 d2 → Keeps d d2
  Keeps-twice d d1 d2 k l = record {
    timed = l.timed;
    prev_frame = l.prev_frame ∙ k.prev_frame;
    fps = l.fps ∙ k.fps;
  }

  abbrev pub Received : DecoderVideo C Image → Call LoopEnd (DecoderVideo C Image) → Type 0
  Received d (gives e d') = Keeps d d'
  Received d (throws d') = Keeps d d'
  Received d no_fuel = ⊥

  Received-from :
      (d d1 : DecoderVideo C Image) (r : Call LoopEnd (DecoderVideo C Image))
      → d1.prev_frame ≡ d.prev_frame
      → d1.fps ≡ d.fps
      → Received d1 r
      → Received d r
  Received-from d d1 (gives e d') p q k = record {
    timed = k.timed;
    prev_frame = k.prev_frame ∙ p;
    fps = k.fps ∙ q;
  }
  Received-from d d1 (throws d') p q k = record {
    timed = k.timed;
    prev_frame = k.prev_frame ∙ p;
    fps = k.fps ∙ q;
  }
  Received-from d d1 no_fuel p q k = k

  with_marks :
      (d : DecoderVideo C Image) (c : C) (reopen reset by_dts : Bool)
      → IsTimed d
      → Keeps d (record d {
        codec = c;
        can_reopen_decoder = reopen;
        clock_reset = reset;
        use_dts = by_dts;
      })
  with_marks d c reopen reset by_dts t = record {
    timed = record { forward = t.forward; climbs = t.climbs; fresh = t.fresh };
    prev_frame = refl;
    fps = refl;
  }

  with_codec : (d : DecoderVideo C Image) (c : C) → IsTimed d → Keeps d (record d { codec = c })
  with_codec d c t = with_marks d c d.can_reopen_decoder d.clock_reset d.use_dts t

  -- The frame in front of the queue has been taken.
  pub record Took (d : DecoderVideo C Image) (f : Frame Image) (d' : DecoderVideo C Image)
      : Type 0 where
    pub forward : pos 0 ≤ℤ d'.prev_duration_clock
    pub climbs : IsClimb (held_times d'.prev_frame (f ∷ d'.queue)) d'.clock
    pub running : d'.first_frame_after_seek ≡ false
    pub prev_frame : d'.prev_frame ≡ d.prev_frame
    pub fps : d'.fps ≡ d.fps

  abbrev pub Got :
      DecoderVideo C Image → Call (Option (Frame Image)) (DecoderVideo C Image) → Type 0
  Got d (gives none d') = Keeps d d'
  Got d (gives (some f) d') = Took d f d'
  Got d (throws d') = IsTimed d'
  Got d no_fuel = ⊥

  next_queued-Got :
      (d d' : DecoderVideo C Image)
      → Keeps d d'
      → Got d (let (f, d2) = get_next_queued_frame d' in gives f d2)
  unfolding get_next_queued_frame
  next_queued-Got d d' k =
      by_list d'.queue (λ (r : Option (Frame Image) × DecoderVideo C Image). Got d (gives r.0 r.1))
        (λ empty. k)
        (λ f fs q.
          let p = pop-Popped d' f fs k.timed q in
          record {
            forward = p.forward;
            climbs = p.climbs;
            running = p.running;
            prev_frame = k.prev_frame;
            fps = k.fps;
          })

module _ {C Raw Image : Type 0} (V : VideoCodec C Raw Image) (held : C → ℕ) (limit : ℕ)
    (shrinks : (c : C) (f : AvFrame Raw) → (V.receive c).0 ≡ some f → held (V.receive c).1 < held c)
    (bounded : (c : C) → held c < limit) where
  receive_all-Received :
      (fuel : ℕ) (d : DecoderVideo C Image)
      → IsTimed d
      → held d.codec < fuel
      → Received d (receive_all V fuel d)
  unfolding receive_all advance_clock note_duration push_frame
  receive_all-Received zero d t less = absurd (omega arith)
  receive_all-Received (suc fuel) d t less = elim (Option-cases (V.receive d.codec).0) [
    | inl gone ↦ rw (receive_all, gone) (with_codec d (V.receive d.codec).1 t)
    | inr (f, got) ↦
        let c = (V.receive d.codec).1 in
        let d1 : DecoderVideo C Image = record d { codec = c } in
        let d2 : DecoderVideo C Image = note_duration V.packet_time f (advance_clock f d1) in
        let timed : IsTimed d2 = advance-IsTimed V.packet_time f d1 (with_codec d c t).timed in
        rw (receive_all, got)
          (by_test (not (has_planes (V.is_yuv420 c) f)) (λ r. Received d r)
            (λ broken. with_codec d c t)
            (λ whole.
              by_test (not d.has_sws) (λ r. Received d r)
                (λ missing. record { timed = timed; prev_frame = refl; fps = refl })
                (λ there. elim (Option-cases (V.scale f.raw c)) [
                  | inl failed ↦ rw failed (record { timed = timed; prev_frame = refl; fps = refl })
                  | inr (image, made) ↦ rw made (
                      Received-from d (push_frame image d2)
                        (receive_all V fuel (push_frame image d2)) refl refl
                        (receive_all-Received fuel (push_frame image d2)
                          (push-IsTimed image d2 timed refl)
                          (omega (arith, shrinks d.codec f got))))
                ])))
  ]

  next_frame-Got : (d d' : DecoderVideo C Image) → Keeps d d' → Got d (next_frame V limit d')
  unfolding next_frame
  next_frame-Got d d' k =
      let r = receive_all-Received limit d' k.timed (bounded d'.codec) in
      elim (Call-cases (receive_all V limit d')) [
        | inl (breaks, d2, e) ↦
            rw (next_frame, e)
              (next_queued-Got d d2 (Keeps-twice d d' d2 k (subst (λ x. Received d' x) e r)))
        | inl (no_image, d2, e) ↦
            rw (next_frame, e) (Keeps-twice d d' d2 k (subst (λ x. Received d' x) e r))
        | inr (inl (d2, e)) ↦
            rw (next_frame, e)
              (let made : Keeps d' d2 = subst (λ x. Received d' x) e r in made.timed)
        | inr (inr e) ↦ absurd (subst (λ x. Received d' x) e r)
      ]

  prepare_times-Keeps :
      (packet : Option DataPacket) (d : DecoderVideo C Image)
      → IsTimed d
      → Keeps d (prepare_times packet (record d { can_reopen_decoder = false })).1
  unfolding prepare_times
  prepare_times-Keeps none d t = with_marks d d.codec false d.clock_reset d.use_dts t
  prepare_times-Keeps (some p) d t =
      by_test (is_key_frame p && d.clock_reset) (λ r. Keeps d r)
        (λ first. with_marks d d.codec false false (p.pts == no_pts && not (p.dts == no_pts)) t)
        (λ later. with_marks d d.codec false d.clock_reset d.use_dts t)

  after_send-Got :
      (code : SendCode) (d d' : DecoderVideo C Image)
      → Keeps d d'
      → Got d (after_send V limit code d')
  unfolding after_send
  after_send-Got again d d' k = k.timed
  after_send-Got refused d d' k = k
  after_send-Got end_of_file d d' k = next_frame-Got d d' k
  after_send-Got taken d d' k = next_frame-Got d d' k

  pub decode_internal-Got :
      (packet : Option DataPacket) (d : DecoderVideo C Image)
      → IsTimed d
      → Got d (decode_internal V limit packet d)
  unfolding decode_internal
  decode_internal-Got packet d t =
      let k = prepare_times-Keeps packet d t in
      let (timed, d1) = prepare_times packet (record d { can_reopen_decoder = false }) in
      let (code, c) = V.send timed d1.codec in
      after_send-Got code d (record d1 { codec = c })
        (Keeps-twice d d1 (record d1 { codec = c }) k (with_codec d1 c k.timed))
