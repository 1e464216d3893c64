-- ===== src/StreamReader/Terminates.antt =====
-- What the checkers and one try of `seek` keep, and how a try ends.
use seekira.Common.{
  ℕ, suc, ◌*◌, ◌≤◌, ◌≡◌, ◌≢◌, refl, sym, ◌∙◌, ap, subst, ◌⊎◌, inl, inr, Bool, false, not, ◌&&◌,
  List, [], ◌∷◌, arith, length, ltb, ◌==◌, nat_eq, if◌then◌else◌, Bool-cases,
}
use seekira.Common.Int.{ℤ, pos, negsuc, ltb_ℤ, int_eq}
use seekira.Packet.{av_second}
use seekira.Demuxer.Seek.{Sought, returned, raised}
use seekira.StreamReader.{
  StreamInfo, SeekTry, stop_at, again_from, judge_checks, try_seek, used_pos, max_step, check_all,
  check_streams,
}

pub Sought-cases :
    {A S : Type 0} (r : Sought A S)
    → ((a : A) × (s : S) × (r ≡ returned a s)) ⊎ ((s : S) × (r ≡ raised s))
Sought-cases (returned a s) = inl (a, s, refl)
Sought-cases (raised s) = inr (s, refl)

-- The shift of the next try, when there is one.
abbrev pub doubled : ℕ → ℕ
doubled shift = if ltb shift max_step then (if shift == 0 then av_second else shift * 2) else shift

used_pos-pos : (m p : ℕ) → used_pos (pos m) (pos p) ≡ pos (if ltb m p then m else p)
unfolding used_pos
used_pos-pos m p = ground arith

module _ {W : Type 0} (V : W → Type 0) where
  abbrev pub Keeps : {A : Type 0} → Sought A W → Type 0
  Keeps (returned a w) = V w
  Keeps (raised w) = V w

module _ {C W : Type 0} (V : W → Type 0) where
  abbrev KeepsAll : {A : Type 0} → Sought A (List (StreamInfo C) × W) → Type 0
  KeepsAll (returned a (is, w)) = V w
  KeepsAll (raised (is, w)) = V w

module _ {C W : Type 0} (check : C → W → Sought Bool W) (V : W → Type 0)
    (checks : (c : C) (w : W) → V w → Keeps V (check c w)) where
  check_all-Keeps : (t : ℤ) (cs : List C) (w : W) → V w → Keeps V (check_all check t cs w)
  unfolding check_all
  check_all-Keeps t [] w v = v
  check_all-Keeps t (c ∷ cs) w v = elim (Sought-cases (check c w)) [
    | inr (w', f) ↦ rw (check_all, f) (subst (λ r. Keeps V r) f (checks c w v))
    | inl (ok, w', f) ↦
        let now : V w' = subst (λ r. Keeps V r) f (checks c w v) in
        let later = check_all-Keeps t cs w' now in
        elim (Bool-cases ok) [
          | inl good ↦ rw (check_all, f, good) later
          | inr no_match ↦ elim (Bool-cases (ltb_ℤ (pos 0) t)) [
            | inl back ↦ rw (check_all, f, no_match, back) now
            | inr zero_time ↦ elim (Sought-cases (check_all check t cs w')) [
              | inr (w'', g) ↦ rw (check_all, f, no_match, zero_time, g) (rw g at later)
              | inl (b, w'', g) ↦ rw (check_all, f, no_match, zero_time, g) (rw g at later)
            ]
          ]
        ]
  ]

  check_streams-Keeps :
      (t : ℤ) (is : List (StreamInfo C)) (w : W) → V w → KeepsAll V (check_streams check t is w)
  unfolding check_streams
  check_streams-Keeps t [] w v = v
  check_streams-Keeps t (i ∷ is) w v =
      elim (Sought-cases (check_all check t i.seek_result_checkers w)) [
        | inr (w', f) ↦
            rw (check_streams, f)
              (subst (λ r. Keeps V r) f (check_all-Keeps t i.seek_result_checkers w v))
        | inl (ok, w', f) ↦
            let now : V w' =
              subst (λ r. Keeps V r) f (check_all-Keeps t i.seek_result_checkers w v) in
            let later = check_streams-Keeps t is w' now in
            elim (Bool-cases (not ok && ltb_ℤ (pos 0) t)) [
              | inl back ↦ rw (check_streams, f, back) now
              | inr on ↦ elim (Sought-cases (check_streams check t is w')) [
                | inr ((is', w''), g) ↦ rw (check_streams, f, on, g) (rw g at later)
                | inl (b, (is', w''), g) ↦ rw (check_streams, f, on, g) (rw g at later)
              ]
            ]
      ]

  -- The streams are those that were there; each of them that was visited is marked.
  check_streams-length :
      (t : ℤ) (is : List (StreamInfo C)) (w : W)
      → elim (check_streams check t is w) as (λ _. Type 0) [
        | returned b (is', w') ↦ length is' ≡ length is
        | raised (is', w') ↦ length is' ≡ length is
      ]
  unfolding check_streams
  check_streams-length t [] w = refl
  check_streams-length t (i ∷ is) w =
      elim (Sought-cases (check_all check t i.seek_result_checkers w)) [
        | inr (w', f) ↦ rw (check_streams, f) refl
        | inl (ok, w', f) ↦
            let later = check_streams-length t is w' in
            elim (Bool-cases (not ok && ltb_ℤ (pos 0) t)) [
              | inl back ↦ rw (check_streams, f, back) refl
              | inr on ↦ elim (Sought-cases (check_streams check t is w')) [
                | inr ((is', w''), g) ↦ rw (check_streams, f, on, g) (ap suc (rw g at later))
                | inl (b, (is', w''), g) ↦ rw (check_streams, f, on, g) (ap suc (rw g at later))
              ]
            ]
      ]

module _ {C W : Type 0} (demuxer_seek : ℤ → W → Sought ℤ W) (check : C → W → Sought Bool W)
    (V : W → Type 0) where
  -- What the loop relies on: the demuxer and the checkers keep what V says, and a seek to a time that is
  -- not negative is answered by one that is not negative.
  pub record Lawful : Type 0 where
    pub checks : (c : C) (w : W) → V w → Keeps V (check c w)
    pub seeks : (t : ℕ) (w : W) → V w → Keeps V (demuxer_seek (pos t) w)
    pub at_least : (t n : ℕ) (w w' : W) → V w → demuxer_seek (pos t) w ≡ returned (negsuc n) w' → ⊥

  -- The answer `ok` is that of the checkers at the time `q`.
  abbrev pub Checked : Bool → ℤ → List (StreamInfo C) → W → Type 0
  Checked ok q is w =
      (before : List (StreamInfo C)) × (w0 : W) × (check_streams check q before w0
        ≡ returned ok (is, w))

  abbrev pub Tries : ℕ → Sought SeekTry (List (StreamInfo C) × W) → Type 0
  Tries p (raised (is, w)) = V w
  Tries p (returned (stop_at ok r) (is, w)) =
      V w × ((q : ℕ) × (r ≡ pos q) × (q ≤ p) × (ok ≡ false → q ≡ 0)) × Checked ok r is w
  Tries p (returned (again_from r) (is, w)) = V w × ((q : ℕ) × (r ≡ pos q) × (q ≤ p) × (q ≢ 0))

  judge_checks-Tries :
      Lawful
      → (p q : ℕ) (is : List (StreamInfo C)) (w : W) → V w
      → q ≤ p
      → Tries p (judge_checks check (pos q) is w)
  unfolding judge_checks
  judge_checks-Tries l p q is w v low =
      let kept = check_streams-Keeps check V l.checks (pos q) is w v in
      elim (Sought-cases (check_streams check (pos q) is w)) [
        | inr ((is', w'), f) ↦ rw (judge_checks, f) (subst (λ r. KeepsAll V r) f kept)
        | inl (ok, (is', w'), f) ↦
            let now : V w' = subst (λ r. KeepsAll V r) f kept in
            elim (Bool-cases ok) [
              | inl good ↦
                  rw (judge_checks, f, good)
                    (
                      now,
                      (q, refl, low, (λ x. cc)),
                      (is, w, f ∙ ap (λ b. returned b (is', w')) good),
                    )
              | inr bad ↦ elim (Bool-cases (pos q == pos 0)) [
                | inl z ↦
                    rw (judge_checks, f, bad, z)
                      (
                        now,
                        (q, refl, low, (λ x. ground arith)),
                        (is, w, f ∙ ap (λ b. returned b (is', w')) bad),
                      )
                | inr nz ↦ rw (judge_checks, f, bad, nz) (now, (q, refl, low, (λ x. ground arith)))
              ]
            ]
      ]

  pub try_seek-Tries :
      Lawful
      → (p : ℕ) (is : List (StreamInfo C)) (w : W) → V w
      → Tries p (try_seek demuxer_seek check p is w)
  unfolding try_seek
  try_seek-Tries l p is w v = elim (Sought-cases (demuxer_seek (pos p) w)) [
    | inr (w', f) ↦ rw (try_seek, f) (subst (λ r. Keeps V r) f (l.seeks p w v))
    | inl (negsuc m, w', f) ↦ absurd (l.at_least p m w w' v f)
    | inl (pos m, w', f) ↦
        rw (try_seek, f)
          (subst (λ r. Tries p (judge_checks check r is w')) (sym (used_pos-pos m p))
            (judge_checks-Tries l p (if ltb m p then m else p) is w'
              (subst (λ r. Keeps V r) f (l.seeks p w v)) (ground arith)))
  ]
