-- ===== src/StreamReader/Requests.antt =====
-- What the streams have asked for, and the least of it.
use seekira.Common.{
  ℕ, zero, suc, ◌≡◌, ◌≢◌, refl, sym, subst, ◌⊎◌, inl, inr, true, ◌||◌, some, List, [], ◌∷◌, arith,
  get_elem?, ◌==◌, Bool-cases,
}
use mathlib.Core.Option.{some-injective}
use seekira.Common.Int.{ℤ, ◌≤ℤ◌, ltb_ℤ, int_eq, int_beq_iff}
use seekira.Packet.{no_pts}
use seekira.StreamReader.{StreamInfo, is_stream_enabled, find_seek_pos}

module _ {C : Type 0} where
  -- `p` is asked for by a stream in use, or it is what was found before; it is not later than that, nor
  -- than what any stream in use has asked for.
  pub record Least (found p : ℤ) (is : List (StreamInfo C)) : Type 0 where
    pub asked :
        (p ≡ found)
        ⊎ ((k : ℕ) × (i : StreamInfo C) × (get_elem? is k ≡ some i)
            × (is_stream_enabled i ≡ true)
            × (i.seek_time ≡ p))
    pub before : found ≢ no_pts → p ≤ℤ found
    pub all_ask :
        (k : ℕ) (i : StreamInfo C)
        → get_elem? is k ≡ some i
        → is_stream_enabled i ≡ true
        → (i.seek_time ≢ no_pts) × (p ≤ℤ i.seek_time)

  abbrev Asks : ℤ → StreamInfo C → Type 0
  Asks p i = is_stream_enabled i ≡ true → (i.seek_time ≢ no_pts) × (p ≤ℤ i.seek_time)

  all_cons :
      (p : ℤ) (x : StreamInfo C) (is : List (StreamInfo C))
      → Asks p x
      → ((k : ℕ) (i : StreamInfo C) → get_elem? is k ≡ some i → Asks p i)
      → (k : ℕ) (i : StreamInfo C) → get_elem? (x ∷ is) k ≡ some i
      → Asks p i
  all_cons p x is front rest zero i at = subst (λ j. Asks p j) (some-injective x i at) front
  all_cons p x is front rest (suc k) i at = rest k i at

  Least-cons :
      (found p : ℤ) (x : StreamInfo C) (is : List (StreamInfo C))
      → Asks p x
      → Least found p is
      → Least found p (x ∷ is)
  Least-cons found p x is front r = record {
    asked = elim r.asked [
      | inl same ↦ inl same
      | inr (k, i, at, on, e) ↦ inr (suc k, i, at, on, e)
    ];
    before = r.before;
    all_ask = all_cons p x is front r.all_ask;
  }

  Least-lower :
      (found p : ℤ) (x : StreamInfo C) (is : List (StreamInfo C))
      → is_stream_enabled x ≡ true
      → x.seek_time ≢ no_pts
      → (found ≢ no_pts → x.seek_time ≤ℤ found)
      → Least x.seek_time p is
      → Least found p (x ∷ is)
  Least-lower found p x is on asks low r = record {
    asked = elim r.asked [
      | inl same ↦ inr (0, x, refl, on, sym same)
      | inr (k, i, at, e, f) ↦ inr (suc k, i, at, e, f)
    ];
    before = λ h. omega (arith, r.before asks, low h);
    all_ask = all_cons p x is (λ _. (asks, r.before asks)) r.all_ask;
  }

  -- The loop that looks for the time of a seek finds, among the times that the streams in use have asked
  -- for, one that is least, and each stream in use has asked.
  pub find_seek_pos-Least :
      (found p : ℤ) (is : List (StreamInfo C)) → find_seek_pos found is ≡ some p → Least found p is
  unfolding find_seek_pos
  find_seek_pos-Least found p [] h = record {
    asked = inl (sym (some-injective found p h));
    before = λ _. subst (λ q. q ≤ℤ found) (some-injective found p h) (omega arith);
    all_ask = λ k i at on. cc;
  }
  find_seek_pos-Least found p (x ∷ is) h = elim (Bool-cases (is_stream_enabled x)) [
    | inr off ↦ Least-cons found p x is (λ on. cc) (find_seek_pos-Least found p is (ground arith))
    | inl on ↦ elim (Bool-cases (x.seek_time == no_pts)) [
      | inl nothing ↦ ground arith
      | inr asks ↦
          let asked : x.seek_time ≢ no_pts = λ e. cc ((int_beq_iff x.seek_time no_pts).1 e, asks) in
          elim (Bool-cases (found == no_pts || ltb_ℤ x.seek_time found)) [
            | inl lower ↦
                Least-lower found p x is on asked (λ e. ground (arith, int_beq_iff found no_pts))
                  (find_seek_pos-Least x.seek_time p is (ground arith))
            | inr kept ↦
                let r = find_seek_pos-Least found p is (ground arith) in
                let there : found ≢ no_pts = λ e. ground (arith, int_beq_iff found no_pts) in
                let low : found ≤ℤ x.seek_time = ground arith in
                Least-cons found p x is (λ _. (asked, omega (arith, r.before there, low))) r
          ]
    ]
  ]
