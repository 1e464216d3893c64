-- ===== src/DecoderVideo/Timing.antt =====
-- The times of the frames that the video decoder holds.
use seekira.Common.{
  ◌≡◌, refl, sym, ap, subst, inl, inr, true, false, ◌&&◌, ◌||◌, Option, none, some, List, [], ◌∷◌,
  ◌++◌, arith, ◌==◌, by_test, Bool-cases,
}
use seekira.Common.Int.{ℤ, pos, +ℤ_parts, -ℤ_parts, ◌+ℤ◌, ◌≤ℤ◌, leb_ℤ, ltb_ℤ, int_eq}
use seekira.Packet.{TimestampFf, TimeFf, no_pts}
use seekira.ParserFf.{AvRational}
use seekira.Stream.{Frame}
use seekira.DecoderVideo.{AvFrame, DecoderVideo}
use seekira.DecoderVideo.Decoding.{next_clock, advance_clock, note_duration, push_frame}

-- From `low` the times do not go down, and none is above `high`.
abbrev pub Climbs : ℤ → List ℤ → ℤ → Type 0
Climbs low [] high = low ≤ℤ high
Climbs low (t ∷ ts) high = (low ≤ℤ t) × Climbs t ts high

abbrev pub IsClimb : List ℤ → ℤ → Type 0
IsClimb [] high = Unit
IsClimb (t ∷ ts) high = Climbs t ts high

Climbs-high :
    (low : ℤ) (ts : List ℤ) (high top : ℤ) → Climbs low ts high → high ≤ℤ top → Climbs low ts top
Climbs-high low [] high top c up = omega arith
Climbs-high low (t ∷ ts) high top (c, cs) up = (c, Climbs-high t ts high top cs up)

Climbs-append :
    (low : ℤ) (ts : List ℤ) (high top : ℤ)
    → Climbs low ts high
    → high ≤ℤ top
    → Climbs low (ts ++ top ∷ []) top
Climbs-append low [] high top c up = (omega arith, omega arith)
Climbs-append low (t ∷ ts) high top (c, cs) up = (c, Climbs-append t ts high top cs up)

pub IsClimb-high : (ts : List ℤ) (high top : ℤ) → IsClimb ts high → high ≤ℤ top → IsClimb ts top
IsClimb-high [] high top c up = tt
IsClimb-high (t ∷ ts) high top c up = Climbs-high t ts high top c up

pub IsClimb-append :
    (ts : List ℤ) (high top : ℤ) → IsClimb ts high → high ≤ℤ top → IsClimb (ts ++ top ∷ []) top
IsClimb-append [] high top c up = omega arith
IsClimb-append (t ∷ ts) high top c up = Climbs-append t ts high top c up

-- The frame in the middle left out, or the one in front.
pub IsClimb-skip :
    (p t : ℤ) (ts : List ℤ) (high : ℤ) → IsClimb (p ∷ t ∷ ts) high → IsClimb (p ∷ ts) high
IsClimb-skip p t [] high (c, cs) = omega arith
IsClimb-skip p t (u ∷ ts) high (c, (cs, more)) = (omega arith, more)

module _ {Image : Type 0} where
  unfoldable pub frame_times : List (Frame Image) → List ℤ
  frame_times [] = []
  frame_times (f ∷ fs) = f.ts ∷ frame_times fs

  unfoldable pub held_times : Option (Frame Image) → List (Frame Image) → List ℤ
  unfolding frame_times
  held_times none fs = frame_times fs
  held_times (some p) fs = p.ts ∷ frame_times fs

  pub frame_times-append :
      (fs : List (Frame Image)) (f : Frame Image)
      → frame_times (fs ++ f ∷ []) ≡ frame_times fs ++ f.ts ∷ []
  unfolding frame_times
  frame_times-append [] f = refl
  frame_times-append (g ∷ fs) f = ap (λ (r : List ℤ). g.ts ∷ r) (frame_times-append fs f)

  held_times-cons :
      (p : Option (Frame Image)) (f : Frame Image) (fs : List (Frame Image))
      → held_times p (f ∷ fs) ≡ []
      → ⊥
  unfolding held_times frame_times
  held_times-cons none f fs h = cc
  held_times-cons (some p) f fs h = cc

  held_times-append :
      (p : Option (Frame Image)) (fs : List (Frame Image)) (f : Frame Image)
      → held_times p (fs ++ f ∷ []) ≡ held_times p fs ++ f.ts ∷ []
  unfolding held_times
  held_times-append none fs f = frame_times-append fs f
  held_times-append (some p) fs f = ap (λ (r : List ℤ). p.ts ∷ r) (frame_times-append fs f)

module _ {C Image : Type 0} where
  -- The frame held back and the frames of the queue stand in the order of their times, up to the clock; there are
  -- none before the first frame after a seek.
  pub record IsTimed (d : DecoderVideo C Image) : Type 0 where
    pub forward : pos 0 ≤ℤ d.prev_duration_clock
    pub climbs : IsClimb (held_times d.prev_frame d.queue) d.clock
    pub fresh : d.first_frame_after_seek ≡ true → held_times d.prev_frame d.queue ≡ []

  -- Of the time of a frame and the time by which the clock has moved.
  next_clock-both :
      {Raw : Type 0} (f : AvFrame Raw) (d : DecoderVideo C Image)
      → pos 0 ≤ℤ d.prev_duration_clock
      → (pos 0 ≤ℤ (next_clock f d).1)
        × (d.first_frame_after_seek ≡ false → d.clock ≤ℤ (next_clock f d).0)
  unfolding next_clock
  next_clock-both f d old =
      by_test (f.best_effort_timestamp == no_pts && (d.clock == no_pts && d.first_frame_after_seek))
        P (λ start. (omega arith, λ later. absurd (ground arith)))
        (λ other.
          by_test (leb_ℤ d.clock f.best_effort_timestamp || d.first_frame_after_seek) P
            (λ near. (
              by_test d.first_frame_after_seek (λ r. pos 0 ≤ℤ r) (λ first. omega arith)
                  (λ later. ground (arith, -ℤ_parts f.best_effort_timestamp d.clock)),
              λ later. ground arith,
            ))
            (λ far.
              by_test (f.pts == no_pts && ltb_ℤ (pos 0) d.prev_duration_frame_pkt)
                (λ r. P (d.clock +ℤ r, r))
                (λ longer. (
                  ground arith,
                  λ later. ground (arith, +ℤ_parts d.clock d.prev_duration_frame_pkt),
                ))
                (λ same. (old, λ later. ground (arith, +ℤ_parts d.clock d.prev_duration_clock)))))
    where
      P : TimestampFf × TimeFf → Type 0
      P r = (pos 0 ≤ℤ r.1) × (d.first_frame_after_seek ≡ false → d.clock ≤ℤ r.0)

  -- After a frame of the codec, before its image is made.
  pub advance-IsTimed :
      {Raw : Type 0} (packet_time : AvRational → TimeFf) (f : AvFrame Raw)
      (d : DecoderVideo C Image)
      → IsTimed d
      → IsTimed (note_duration packet_time f (advance_clock f d))
  unfolding advance_clock note_duration
  advance-IsTimed packet_time f d t =
      let (forward, later) = next_clock-both f d t.forward in
      record {
        forward = forward;
        climbs = elim (Bool-cases d.first_frame_after_seek) [
          | inl first ↦ subst (λ ts. IsClimb ts (next_clock f d).0) (sym (t.fresh first)) tt
          | inr running ↦
              IsClimb-high (held_times d.prev_frame d.queue) d.clock (next_clock f d).0 t.climbs
                (later running)
        ];
        fresh = λ e. cc;
      }

  pub push-IsTimed :
      (image : Image) (d : DecoderVideo C Image)
      → IsTimed d
      → d.first_frame_after_seek ≡ false
      → IsTimed (push_frame image d)
  unfolding push_frame
  push-IsTimed image d t running = record {
    forward = t.forward;
    climbs =
        subst (λ ts. IsClimb ts d.clock)
          (sym (
            held_times-append d.prev_frame d.queue
              (record { ts = d.clock; duration = d.prev_duration_frame_pkt; image = image })))
          (IsClimb-append (held_times d.prev_frame d.queue) d.clock d.clock t.climbs (omega arith));
    fresh = λ e. cc;
  }

  -- The first frame of the queue is taken.
  pub record Popped (d : DecoderVideo C Image) (f : Frame Image) (fs : List (Frame Image))
      : Type 0 where
    pub forward : pos 0 ≤ℤ d.prev_duration_clock
    pub climbs : IsClimb (held_times d.prev_frame (f ∷ fs)) d.clock
    pub running : d.first_frame_after_seek ≡ false

  pub pop-Popped :
      (d : DecoderVideo C Image) (f : Frame Image) (fs : List (Frame Image))
      → IsTimed d
      → d.queue ≡ f ∷ fs
      → Popped d f fs
  pop-Popped d f fs t q = record {
    forward = t.forward;
    climbs = subst (λ r. IsClimb (held_times d.prev_frame r) d.clock) q t.climbs;
    running = elim (Bool-cases d.first_frame_after_seek) [
      | inl first ↦ absurd (
          held_times-cons d.prev_frame f fs
            (subst (λ r. held_times d.prev_frame r ≡ []) q (t.fresh first)))
      | inr running ↦ running
    ];
  }
