-- ===== src/StreamReader/Streams.antt =====
-- The streams that a reader hands out (`get_stream`, `release_stream`, `get_best_video_stream` of
-- stream_reader.cpp). `enable` is the demuxer's `enable_stream`, which may throw (`none`), and `make` the address
-- of a new stream.
use seekira.Common.{
  ℕ, zero, suc, ◌≡◌, refl, sym, ap, subst, inl, inr, Bool, true, false, not, Option, none, some,
  List, [], ◌∷◌, get_elem?, set, arith, if◌then◌else◌, Bool-cases, Option-cases,
}
use mathlib.Core.Option.{some-injective}
use seekira.StreamReader.{StreamInfo, is_stream_enabled, set_stream, get_active_stream_count}

module _ {C W : Type 0} (enable : ℕ → Bool → W → Option W) where
  unfoldable pub get_stream :
      (ℕ → C) → ℕ → List (StreamInfo C) × W → Option (C × List (StreamInfo C) × W)
  unfolding is_stream_enabled set_stream
  get_stream make id (is, w) = elim (get_elem? is id) [
    | none ↦ none
    | some i ↦ if is_stream_enabled i then none else elim (enable id true w) [
      | none ↦ none
      | some w' ↦ elim (set_stream (some (make id)) i) [
        | none ↦ none
        | some i' ↦ some (make id, set is id i', w')
      ]
    ]
  ]

  -- `none` as the answer is a null pointer: there is no video stream.
  unfoldable pub get_best_video_stream :
      Option ℕ → (ℕ → C) → List (StreamInfo C) × W → Option (Option C × List (StreamInfo C) × W)
  unfolding get_stream
  get_best_video_stream none make (is, w) = some (none, is, w)
  get_best_video_stream (some id) make s = elim (get_stream make id s) [
    | none ↦ none
    | some (c, is', w') ↦ some (some c, is', w')
  ]

  unfoldable pub release_stream : ℕ → List (StreamInfo C) × W → Option (List (StreamInfo C) × W)
  unfolding is_stream_enabled
  release_stream id (is, w) = elim (get_elem? is id) [
    | none ↦ none
    | some i ↦ if not (is_stream_enabled i) then some (is, w) else elim (enable id false w) [
      | none ↦ none
      | some w' ↦ some (set is id (record i { demuxed_stream = none }), w')
    ]
  ]

module _ {C : Type 0} where
  get_elem?-set_there :
      (is : List (StreamInfo C)) (id : ℕ) (i j : StreamInfo C)
      → get_elem? is id ≡ some i
      → get_elem? (set is id j) id ≡ some j
  get_elem?-set_there [] id i j at = cc
  get_elem?-set_there (x ∷ is) zero i j at = refl
  get_elem?-set_there (x ∷ is) (suc id) i j at = get_elem?-set_there is id i j at

  set-set :
      (is : List (StreamInfo C)) (id : ℕ) (i j : StreamInfo C)
      → get_elem? is id ≡ some i
      → set (set is id j) id i ≡ is
  set-set [] id i j at = refl
  set-set (x ∷ is) zero i j at = ap (λ y. y ∷ is) (sym (some-injective x i at))
  set-set (x ∷ is) (suc id) i j at = ap (λ ys. x ∷ ys) (set-set is id i j at)

  get_active_stream_count-set :
      (is : List (StreamInfo C)) (id : ℕ) (i j : StreamInfo C)
      → get_elem? is id ≡ some i
      → is_stream_enabled i ≡ false
      → is_stream_enabled j ≡ true
      → get_active_stream_count (set is id j) ≡ suc (get_active_stream_count is)
  unfolding get_active_stream_count
  get_active_stream_count-set [] id i j at off on = cc
  get_active_stream_count-set (x ∷ is) zero i j at off on = rw (some-injective x i at, off, on) refl
  get_active_stream_count-set (x ∷ is) (suc id) i j at off on =
      let rest = get_active_stream_count-set is id i j at off on in ground (arith, rest)

  stream_off : (i : StreamInfo C) → is_stream_enabled i ≡ false → i.demuxed_stream ≡ none
  unfolding is_stream_enabled
  stream_off i off = elim (Option-cases i.demuxed_stream) [ inl e ↦ e | inr (c, e) ↦ ground arith ]

module _ {C W : Type 0} (enable : ℕ → Bool → W → Option W) (make : ℕ → C) where
  -- A stream that is handed out is one more in use, it cannot be had a second time while it is in use, and
  -- when it is released, and the demuxer does not refuse that, the reader holds what it held before.
  abbrev pub HandedOut : ℕ → List (StreamInfo C) → List (StreamInfo C) → Type 0
  HandedOut id is is' =
      (get_active_stream_count is' ≡ suc (get_active_stream_count is))
      × ((w : W) → get_stream enable make id (is', w) ≡ none)
      × ((w w' : W)
          → enable id false w ≡ some w'
          → release_stream enable id (is', w) ≡ some (is, w'))

  put_stream-HandedOut :
      (id : ℕ) (is : List (StreamInfo C)) (i : StreamInfo C)
      → get_elem? is id ≡ some i
      → is_stream_enabled i ≡ false
      → HandedOut id is (set is id (record i { demuxed_stream = some (make id) }))
  unfolding get_stream release_stream is_stream_enabled
  put_stream-HandedOut id is i at off =
      let j : StreamInfo C = record i { demuxed_stream = some (make id) } in
      let there = get_elem?-set_there is id i j at in
      let back : record i { demuxed_stream = none } ≡ i =
        ap (λ o. record i { demuxed_stream = o }) (sym (stream_off i off)) in
      (
        get_active_stream_count-set is id i j at off refl,
        λ w. rw (get_stream, there) refl,
        λ w w' e.
            rw (release_stream, there, e, back) (ap (λ ys. some (ys, w')) (set-set is id i j at)),
      )

  -- After a stream is handed out, what `HandedOut` says holds.
  pub get_stream-HandedOut :
      (id : ℕ) (is is' : List (StreamInfo C)) (w w' : W) (c : C)
      → get_stream enable make id (is, w) ≡ some (c, is', w')
      → HandedOut id is is'
  unfolding get_stream set_stream is_stream_enabled
  get_stream-HandedOut id is is' w w' c e = elim (Option-cases (get_elem? is id)) [
    | inl gone ↦ let out = rw (get_stream, gone) at e in cc
    | inr (i, at) ↦ elim (Bool-cases (is_stream_enabled i)) [
      | inl on ↦ let out = rw (get_stream, at, on) at e in cc
      | inr off ↦ elim (Option-cases (enable id true w)) [
        | inl refused ↦ let out = rw (get_stream, at, off, refused) at e in cc
        | inr (w1, f) ↦
            let out = rw (get_stream, at, off, f, set_stream, off) at e in
            subst (λ r. HandedOut id is r.1) (some-injective _ _ out)
              (put_stream-HandedOut id is i at off)
      ]
    ]
  ]
