-- ===== src/Stream/Places.antt =====
-- Where a stream stands after a seek of its demuxer.
use seekira.Common.{
  ◌↔◌, ℕ, zero, suc, ◌<◌, ◌≡◌, refl, subst, ◌⊎◌, inl, inr, Bool, true, false, ◌||◌, Option, none,
  some, arith, Bool-cases, Option-cases,
}
use seekira.Common.Int.{ℤ, pos, ◌≤ℤ◌, leb_ℤ}
use seekira.Packet.{DataPacket, pts_or_dts, is_key_frame, no_pts}
use seekira.Demuxer.Reading.{Ensures}
use seekira.Demuxer.Seek.{Sought, returned, raised}
use seekira.StreamReader.Terminates.{Sought-cases}
use seekira.Source.{Source}
use seekira.Stream.{DemuxedStream, place, skip_to_key, get_seek_result}

module _ (D : Source) where
  open D use {State}

  -- The packets that a stream takes from the demuxer and skips, from one buffered packet and state to others.
  pub data Skips (stream : ℕ) : Option DataPacket → State → Option DataPacket → State → Type 0 where
    skips_none : (b : Option DataPacket) (d : State) → Skips stream b d b d
    skips_one :
        (b b2 : Option DataPacket) (d d1 d2 : State) (p : DataPacket)
        → D.read stream d ≡ returned (some p) d1
        → is_key_frame p ≡ false
        → Skips stream (some p) d1 b2 d2
        → Skips stream b d b2 d2

  -- The packet that the reading ends with is a key frame, if the time is positive.
  abbrev Skipped :
      ℕ → ℤ → Option DataPacket → State → Sought Unit (Option DataPacket × State) → Type 0
  Skipped stream time b d (raised (b2, d2)) =
      (d1 : State) × Skips stream b d b2 d1 × (D.read stream d1 ≡ raised d2)
  Skipped stream time b d (returned u (none, d2)) =
      (b1 : Option DataPacket) × (d1 : State) × Skips stream b d b1 d1
      × (D.read stream d1 ≡ returned none d2)
  Skipped stream time b d (returned u (some p, d2)) =
      (b1 : Option DataPacket) × (d1 : State) × Skips stream b d b1 d1
      × (D.read stream d1 ≡ returned (some p) d2)
      × ((leb_ℤ time (pos 0) || is_key_frame p) ≡ true)

  Skipped-later :
      (stream : ℕ) (time : ℤ) (b : Option DataPacket) (d d1 : State) (p : DataPacket)
      (r : Option (Sought Unit (Option DataPacket × State)))
      → D.read stream d ≡ returned (some p) d1
      → is_key_frame p ≡ false
      → Ensures (Skipped stream time (some p) d1) r
      → Ensures (Skipped stream time b d) r
  Skipped-later stream time b d d1 p none e off x = elim x [ ]
  Skipped-later stream time b d d1 p (some (raised (b2, d3))) e off (d2, path, at) =
      (d2, skips_one b b2 d d1 d2 p e off path, at)
  Skipped-later stream time b d d1 p (some (returned u (none, d3))) e off (b2, d2, path, at) =
      (b2, d2, skips_one b b2 d d1 d2 p e off path, at)
  Skipped-later stream time b d d1 p (some (returned u (some q, d3))) e off
        (b2, d2, path, at, fits) =
      (b2, d2, skips_one b b2 d d1 d2 p e off path, at, fits)

  skip_to_key-Skipped :
      (fuel stream : ℕ) (time : ℤ) (b : Option DataPacket) (d : State)
      → D.remaining d < fuel
      → Ensures (Skipped stream time b d) (skip_to_key D fuel stream time b d)
  unfolding skip_to_key
  skip_to_key-Skipped zero stream time b d low = absurd (omega arith)
  skip_to_key-Skipped (suc fuel) stream time b d low = elim (Sought-cases (D.read stream d)) [
    | inr (d', f) ↦ simp (skip_to_key, f) (d, skips_none b d, f)
    | inl (none, d', f) ↦ simp (skip_to_key, f) (b, d, skips_none b d, f)
    | inl (some p, d', f) ↦ elim (Bool-cases (leb_ℤ time (pos 0) || is_key_frame p)) [
      | inl stops ↦ simp (skip_to_key, f, stops) (b, d, skips_none b d, f, refl)
      | inr on ↦
          let less = D.read_shrinks stream d d' p f in
          let later = skip_to_key-Skipped fuel stream time (some p) d' (omega (arith, less)) in
          simp (skip_to_key, f, on)
            (Skipped-later stream time b d d' p (skip_to_key D fuel stream time (some p) d') f
              (ground arith) later)
    ]
  ]

  module _ {Image : Type 0} where
    -- After the packets that are skipped, the stream stands at the one that comes, and the answer is whether
    -- that is a key frame at the asked time or before; with none to come the answer is no, and what
    -- `get_last_seek_result` tells is what it told before. An exception of the demuxer leaves the stream with the
    -- last packet that was skipped, if any was.
    abbrev pub Placed :
        DemuxedStream Image → State → Sought Bool (DemuxedStream Image × State) → Type 0
    Placed s d (raised (s', d')) =
        (s' ≡ record s { buffered_packet = s'.buffered_packet })
        × ((d1 : State) × Skips s.stream s.buffered_packet d s'.buffered_packet d1
            × (D.read s.stream d1 ≡ raised d'))
    Placed s d (returned ok (s', d')) =
        (s'.seek_position ≡ s.seek_position)
        × ((b : Option DataPacket) × (d1 : State) × Skips s.stream s.buffered_packet d b d1
            × (((p : DataPacket) × (D.read s.stream d1 ≡ returned (some p) d')
                  × ((leb_ℤ s.seek_position (pos 0) || is_key_frame p) ≡ true)
                  × (s'.buffered_packet ≡ some p)
                  × (s'.position ≡ pts_or_dts p)
                  × ((ok ≡ true) ↔ (pts_or_dts p ≤ℤ s.seek_position) × (is_key_frame p ≡ true))
                  × (s'.last_seek_result ≡ ok))
                ⊎ ((D.read s.stream d1 ≡ returned none d')
                    × (ok ≡ false)
                    × (s'.buffered_packet ≡ none)
                    × (s'.position ≡ no_pts)
                    × (s'.last_seek_result ≡ s.last_seek_result))))

    abbrev skipped : DemuxedStream Image → State → Option (Sought Unit (Option DataPacket × State))
    skipped s d = skip_to_key D (suc (D.remaining d)) s.stream s.seek_position s.buffered_packet d

    get_seek_result-found :
        (s : DemuxedStream Image) (d : State) (r : Sought Unit (Option DataPacket × State))
        → s.has_reader ≡ true
        → skipped s d ≡ some r
        → Skipped s.stream s.seek_position s.buffered_packet d r
        → Ensures (Placed s d) (get_seek_result D s d)
    unfolding get_seek_result place
    get_seek_result-found s d (raised (b, d')) on e (d1, path, at) =
        simp (get_seek_result, on, e) (refl, (d1, path, at))
    get_seek_result-found s d (returned u (none, d')) on e (b1, d1, path, at) =
        simp (get_seek_result, on, e) (refl, (b1, d1, path, inr (at, refl, refl, refl, refl)))
    get_seek_result-found s d (returned u (some p, d')) on e (b1, d1, path, at, fits) =
        simp (get_seek_result, on, e)
          (
            refl,
            (
              b1,
              d1,
              path,
              inl (p, at, fits, refl, refl, ((λ h. ground arith), (λ h. ground arith)), refl),
            ),
          )

    -- A stream that has its reader finds its place after a seek, however the packets come, since each that it
    -- skips is one less to come: it ends at the first key frame, or at the first packet if the time is not positive,
    -- or at the end; the answer is yes if this is a key frame that is not later than the time, and with no
    -- packet left the answer is no while the result that is kept stays the one before. If the demuxer throws, the
    -- stream is as before but for its buffered packet, which is the last one that was skipped.
    pub get_seek_result-Placed :
        (s : DemuxedStream Image) (d : State)
        → s.has_reader ≡ true
        → Ensures (Placed s d) (get_seek_result D s d)
    get_seek_result-Placed s d on =
        let found =
          skip_to_key-Skipped (suc (D.remaining d)) s.stream s.seek_position s.buffered_packet d
            (omega arith) in
        elim (Option-cases (skipped s d)) [
          | inl e ↦ absurd (
              subst (λ o. Ensures (Skipped s.stream s.seek_position s.buffered_packet d) o) e found)
          | inr (r, e) ↦ get_seek_result-found s d r on e (
              subst (λ o. Ensures (Skipped s.stream s.seek_position s.buffered_packet d) o) e found)
        ]
