-- ===== src/DecoderVideo/Runs.antt =====
-- `decode` of several packets, one after the other.
use seekira.Common.{
  ℕ, ◌<◌, ◌≡◌, refl, sym, ap, subst, inl, inr, true, Option, none, some, List, [], ◌∷◌,
}
use seekira.Common.Int.{ℤ, pos, ◌+ℤ◌, ◌<ℤ◌}
use seekira.Packet.{DataPacket}
use seekira.Stream.{Frame}
use seekira.DecoderVideo.{AvFrame, VideoCodec, DecoderVideo, Call, gives, throws, no_fuel}
use seekira.DecoderVideo.Decoding.{has_packet, decode}
use seekira.DecoderVideo.Timing.{IsTimed}
use seekira.DecoderVideo.Receiving.{Call-cases}
use seekira.DecoderVideo.Delivery.{Handed, Answers, decode-Answers}

module _ {Image : Type 0} where
  -- From the time on, the frames are laid end to end, up to the frame held back.
  abbrev pub IsJoined : ℤ → List (Frame Image) → Option (Frame Image) → Type 0
  IsJoined t [] none = ⊥
  IsJoined t [] (some q) = t ≡ q.ts
  IsJoined t (f ∷ fs) after =
      (t ≡ f.ts) × (pos 0 <ℤ f.duration) × IsJoined (f.ts +ℤ f.duration) fs after

  abbrev pub Joins : Option (Frame Image) → List (Frame Image) → Option (Frame Image) → Type 0
  Joins none [] after = Unit
  Joins none (f ∷ fs) after = IsJoined f.ts (f ∷ fs) after
  Joins (some p) fs after = IsJoined p.ts fs after

  Joins-fresh :
      (before : Option (Frame Image)) (fs : List (Frame Image)) (after : Option (Frame Image))
      → Joins before fs after
      → Joins none fs after
  Joins-fresh none fs after j = j
  Joins-fresh (some p) [] after j = tt
  Joins-fresh (some p) (f ∷ fs) after (meets, positive, more) = (refl, positive, more)

  Joins-same : (before : Option (Frame Image)) → Joins before [] before
  Joins-same none = tt
  Joins-same (some p) = refl

  unfoldable pub add_frame : Option (Frame Image) → List (Frame Image) → List (Frame Image)
  add_frame none fs = fs
  add_frame (some f) fs = f ∷ fs

  add_frame-Joins :
      (average : ℤ) (before mid after r : Option (Frame Image)) (fs : List (Frame Image))
      → Handed average true before r mid
      → Joins mid fs after
      → Joins before (add_frame r fs) after
  unfolding add_frame
  add_frame-Joins average before mid after none fs (inl same) j =
      subst (λ b. Joins b fs after) same j
  add_frame-Joins average before mid after none fs (inr fresh) j =
      subst (λ b. Joins b fs after) (sym fresh) (Joins-fresh mid fs after j)
  add_frame-Joins average before none after (some f) fs (drained, lasts, b) j = cc
  add_frame-Joins average none (some q) after (some f) fs (positive, joins, b) j =
      (refl, positive, subst (λ t. IsJoined t fs after) (sym joins) j)
  add_frame-Joins average (some p) (some q) after (some f) fs (positive, joins, b) j = (
    sym (ap (λ (r : Frame Image). r.ts) b),
    positive,
    subst (λ t. IsJoined t fs after) (sym joins) j,
  )

module _ {C Image : Type 0} where
  unfoldable pub add_first :
      Option (Frame Image)
      → Call (List (Frame Image)) (DecoderVideo C Image)
      → Call (List (Frame Image)) (DecoderVideo C Image)
  unfolding add_frame
  add_first r (gives fs d) = gives (add_frame r fs) d
  add_first r (throws d) = throws d
  add_first r no_fuel = no_fuel

  abbrev pub Fed : Option (Frame Image) → Call (List (Frame Image)) (DecoderVideo C Image) → Type 0
  Fed before (gives fs d) = IsTimed d × Joins before fs d.prev_frame
  Fed before (throws d) = IsTimed d
  Fed before no_fuel = ⊥

  add_first-Fed :
      (average : ℤ) (before mid r : Option (Frame Image))
      (c : Call (List (Frame Image)) (DecoderVideo C Image))
      → Handed average true before r mid
      → Fed mid c
      → Fed before (add_first r c)
  unfolding add_first
  add_first-Fed average before mid r (gives fs d) h (t, j) =
      (t, add_frame-Joins average before mid d.prev_frame r fs h j)
  add_first-Fed average before mid r (throws d) h t = t
  add_first-Fed average before mid r no_fuel h t = t

module _ {C Raw Image : Type 0} (V : VideoCodec C Raw Image) where
  -- The frames that come out for the packets.
  unfoldable pub feed :
      ℕ → List DataPacket → DecoderVideo C Image → Call (List (Frame Image)) (DecoderVideo C Image)
  unfolding decode add_first
  feed limit [] d = gives [] d
  feed limit (p ∷ ps) d = elim (decode V limit (some p) d) [
    | gives r d' ↦ add_first r (feed limit ps d')
    | throws d' ↦ throws d'
    | no_fuel ↦ no_fuel
  ]

  -- Under the conditions of `decode-Answers`, the frames that come out for packets given one after the other are
  -- laid end to end: the first begins where the frame held back at the start does, if there was one, each ends
  -- where the next begins, the last where the frame held back at the end begins, and their durations are
  -- positive. If the codec or the scaling throws, the calls end there.
  pub feed-Fed :
      (held : C → ℕ) (limit : ℕ)
      → ((c : C) (f : AvFrame Raw) → (V.receive c).0 ≡ some f → held (V.receive c).1 < held c)
      → ((c : C) → held c < limit)
      → (ps : List DataPacket) (d : DecoderVideo C Image) → IsTimed d
      → Fed d.prev_frame (feed limit ps d)
  unfolding feed has_packet
  feed-Fed held limit shrinks bounded [] d t = (t, Joins-same d.prev_frame)
  feed-Fed held limit shrinks bounded (p ∷ ps) d t =
      let a = decode-Answers V held limit shrinks bounded (some p) d t in
      elim (Call-cases (decode V limit (some p) d)) [
        | inl (r, d', e) ↦
            let (t', h) : IsTimed d'
                × Handed (V.average_time d.fps) true d.prev_frame r d'.prev_frame =
              subst (λ x. Answers V true d x) e a in
            rw (feed, e)
              (add_first-Fed (V.average_time d.fps) d.prev_frame d'.prev_frame r (feed limit ps d')
                h (feed-Fed held limit shrinks bounded ps d' t'))
        | inr (inl (d', e)) ↦
            rw (feed, e) (let made : IsTimed d' = subst (λ x. Answers V true d x) e a in made)
        | inr (inr e) ↦ absurd (subst (λ x. Answers V true d x) e a)
      ]
