-- ===== src/Reader/Ends.antt =====
-- The way to a position ends: each frame that is read is one less to come or one more that is invalid.
use seekira.Common.{
  ℕ, zero, suc, ◌+◌, ◌-◌, ◌*◌, ◌<◌, ◌≡◌, ◌≢◌, refl, ◌⊎◌, inl, inr, true, false, ◌||◌, none, some,
  arith, ◌==◌, if◌then◌else◌, Bool-cases, Option-cases,
}
use seekira.Common.Int.{ℤ, ◌+ℤ◌, int_eq}
use seekira.Packet.{no_pts}
use seekira.StreamReader.Terminates.{Sought-cases}
use seekira.VideoStream.{VideoStream}
use seekira.Stream.{Frame}
use seekira.Reader.{
  Ran, ran, threw, null_frame, need_break_reading, need_handle_frame, tell_frame, take_frame,
  read_frame,
}
use seekira.Reader.Position.{Reader, read_up_to, is_target_frame, frames_left}

pub Ran-cases :
    {R : Type 0} (x : Ran R)
    → ((r : R) × (x ≡ ran r)) ⊎ ((r : R) × (x ≡ threw r)) ⊎ ((r : R) × (x ≡ null_frame r))
Ran-cases (ran r) = inl (r, refl)
Ran-cases (threw r) = inr (inl (r, refl))
Ran-cases (null_frame r) = inr (inr (r, refl))

-- What holds of the reader that a call leaves when it returns.
abbrev pub Returns : {R : Type 0} → (R → Type 0) → Ran R → Type 0
Returns Q (ran r) = Q r
Returns Q (threw r) = Unit
Returns Q (null_frame r) = Unit

module _ (V : VideoStream) {A B : Type 0} where
  -- The frames that may still be read before the reader gives up.
  unfoldable left_over : Reader V A B → ℕ
  left_over r = 12 * V.remaining r.stream + (11 - r.invalid_counter)

  abbrev pub Took : V.State → ℕ → Reader V A B → Type 0
  Took s n r = (r.stream ≡ s) × (r.invalid_counter ≡ n)

  pub take_frame-valid :
      (f : Frame V.Image) (r : Reader V A B) → Returns (Took r.stream 0) (take_frame (some f) r)
  unfolding take_frame tell_frame
  take_frame-valid f r = elim (Bool-cases (need_handle_frame r)) [
    | inl on ↦ simp (take_frame, on) (refl, refl)
    | inr off ↦ simp (take_frame, off) (refl, refl)
  ]

  pub take_frame-invalid :
      (r : Reader V A B) → Returns (Took r.stream (suc r.invalid_counter)) (take_frame none r)
  unfolding take_frame
  take_frame-invalid r = elim (Option-cases r.last_valid_frame) [
    | inl e ↦ simp (take_frame, e) tt
    | inr (f, e) ↦ simp (take_frame, e) (refl, refl)
  ]

  Took-less :
      (r : Reader V A B) (s : V.State) (n : ℕ) (x : Ran (Reader V A B))
      → 12 * V.remaining s + (11 - n) < left_over r
      → Returns (Took s n) x
      → Returns (λ r'. left_over r' < left_over r) x
  unfolding left_over
  Took-less r s n (threw r') less h = tt
  Took-less r s n (null_frame r') less h = tt
  Took-less r s n (ran r') less h = rw (h.0, h.1) less

  read_frame-less :
      (r : Reader V A B)
      → need_break_reading r ≡ false
      → Returns (λ r'. left_over r' < left_over r) (read_frame V r)
  unfolding read_frame left_over need_break_reading
  read_frame-less r runs = elim (Sought-cases (V.read_frame r.stream)) [
    | inr (s, e) ↦ simp (read_frame, e) tt
    | inl (none, s, e) ↦
        let less = V.read_keeps r.stream s e in
        let r' = record r { stream = s; is_last_key_frame = V.is_last_key_frame s } in
        simp (read_frame, e)
          (Took-less r s (suc r.invalid_counter) (take_frame none r') (ground (arith, less))
            (take_frame-invalid r'))
    | inl (some f, s, e) ↦
        let less = V.read_shrinks r.stream s f e in
        let r' = record r { stream = s; is_last_key_frame = V.is_last_key_frame s } in
        simp (read_frame, e)
          (Took-less r s 0 (take_frame (some f) r') (ground (arith, less)) (take_frame-valid f r'))
  ]

  read_up_to-ends :
      (fuel : ℕ) (time length : ℤ) (r : Reader V A B)
      → left_over r < fuel
      → read_up_to V fuel time length r ≢ none
  unfolding read_up_to
  read_up_to-ends zero time length r low e = absurd (omega arith)
  read_up_to-ends (suc fuel) time length r low e =
      let next = V.get_position r.stream in
      elim (Bool-cases (need_break_reading r || is_target_frame time next (next +ℤ length))) [
        | inl stops ↦ let out = rw (read_up_to, stops) at e in cc
        | inr on ↦
            let less = read_frame-less r (ground arith) in
            elim (Ran-cases (read_frame V r)) [
              | inr (inl (r', f)) ↦ let out = rw (read_up_to, on, f) at e in cc
              | inr (inr (r', f)) ↦ let out = rw (read_up_to, on, f) at e in cc
              | inl (r', f) ↦
                  let low' : left_over r' < left_over r = rw f at less in
                  let out = rw (read_up_to, on, f) at e in
                  read_up_to-ends fuel time
                    (if V.get_pkt_duration r'.stream == no_pts
                      then length
                      else V.get_pkt_duration r'.stream)
                    r' (omega arith) out
            ]
      ]

  frames_left-enough :
      (r : Reader V A B) → left_over (record r { skip_frame_handle = true }) < frames_left V r
  unfolding frames_left left_over
  frames_left-enough r = ground arith

  pub read_up_to-enough :
      (time length : ℤ) (r : Reader V A B)
      → read_up_to V (frames_left V r) time length (record r { skip_frame_handle = true }) ≢ none
  read_up_to-enough time length r =
      read_up_to-ends (frames_left V r) time length (record r { skip_frame_handle = true })
        (frames_left-enough r)
