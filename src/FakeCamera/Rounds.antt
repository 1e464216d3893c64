-- ===== src/FakeCamera/Rounds.antt =====
-- The order of the frames of a camera.
use mathlib.Core.List.{append-nil, append_assoc}
use mathlib.Core.Option.{some-injective}
use seekira.Common.{
  ℕ, zero, suc, ◌+◌, ◌*◌, ◌≡◌, refl, sym, ap, subst, true, Option, none, some, List, [], ◌∷◌, ◌++◌,
  map, arith, length,
}
use seekira.PixelFormat.{PixFmt}
use seekira.FakeCamera.{
  open_file, FakeCameraSettings, FakeFrameProvider, Files, took, open_failed, all_read, no_front,
  exhausted, refill, take_path, get_next_frame,
}

-- A list, so many times over.
unfoldable pub repeated {ℓ} : {A : Type ℓ} → ℕ → List A → List A
repeated zero xs = []
repeated (suc n) xs = xs ++ repeated n xs

module _ {FilePath Image : Type 0} (F : Files FilePath Image) where
  -- So many next frames.
  unfoldable pub take_frames :
      ℕ → FakeFrameProvider FilePath → Option (List Image × FakeFrameProvider FilePath)
  take_frames zero p = some ([], p)
  take_frames (suc k) p = elim (get_next_frame F p) [
    | open_failed p' ↦ none
    | all_read ↦ none
    | no_front ↦ none
    | took image p' ↦ elim (take_frames k p') [
      | none ↦ none
      | some (images, p2) ↦ some (image ∷ images, p2)
    ]
  ]

  -- Each of these files opens, with this image.
  abbrev pub AllOpen : (FilePath → Image) → PixFmt → List FilePath → Type 0
  AllOpen image fmt [] = Unit
  AllOpen image fmt (f ∷ fs) = (open_file F f fmt ≡ some (image f)) × AllOpen image fmt fs

  AllOpen-split :
      (image : FilePath → Image) (fmt : PixFmt) (xs ys : List FilePath)
      → AllOpen image fmt (xs ++ ys)
      → AllOpen image fmt xs
  AllOpen-split image fmt [] ys h = tt
  AllOpen-split image fmt (x ∷ xs) ys (h, more) = (h, AllOpen-split image fmt xs ys more)

  module _ (settings : FakeCameraSettings FilePath) (cyclic : settings.is_cyclic ≡ true)
      (image : FilePath → Image) where
    abbrev shown_images : List FilePath → List Image
    shown_images ps = map image ps

    abbrev at_frames : List FilePath → List FilePath → FakeFrameProvider FilePath
    at_frames fs rs = record { frames = fs; retired_frames = rs; settings = settings }

    next-front :
        (f : FilePath) (fs rs : List FilePath)
        → open_file F f settings.pix_fmt ≡ some (image f)
        → get_next_frame F (at_frames (f ∷ fs) rs) ≡ took (image f) (at_frames fs (rs ++ f ∷ []))
    unfolding get_next_frame take_path exhausted open_file
    next-front f fs rs opens = simp (cyclic, opens)

    next-again :
        (q : FilePath) (qs : List FilePath)
        → get_next_frame F (at_frames [] (q ∷ qs)) ≡ get_next_frame F (at_frames (q ∷ qs) [])
    unfolding get_next_frame take_path exhausted refill
    next-again q qs = rw cyclic

    -- One more frame in front of others.
    take-next :
        (f : FilePath) (fs rs : List FilePath) (k : ℕ) (images : List Image)
        (p : FakeFrameProvider FilePath)
        → open_file F f settings.pix_fmt ≡ some (image f)
        → take_frames k (at_frames fs (rs ++ f ∷ [])) ≡ some (images, p)
        → take_frames (suc k) (at_frames (f ∷ fs) rs) ≡ some (image f ∷ images, p)
    unfolding take_frames
    take-next f fs rs k images p opens h = rw (take_frames, next-front f fs rs opens, h)

    -- Frames that are there, and what comes after them.
    take-there :
        (xs ys rs : List FilePath) (k : ℕ) (images : List Image) (p : FakeFrameProvider FilePath)
        → AllOpen image settings.pix_fmt xs
        → take_frames k (at_frames ys (rs ++ xs)) ≡ some (images, p)
        → take_frames (length xs + k) (at_frames (xs ++ ys) rs)
          ≡ some (shown_images xs ++ images, p)
    take-there [] ys rs k images p all_open h =
        subst (λ n. take_frames n (at_frames ys rs) ≡ some (images, p)) (omega arith)
          (subst (λ r. take_frames k (at_frames ys r) ≡ some (images, p)) (append-nil rs) h)
    take-there (x ∷ xs) ys rs k images p (opens, all_open) h =
        let n : suc (length xs + k) ≡ suc (length xs) + k = omega arith in
        subst
          (λ n.
            take_frames n (at_frames (x ∷ xs ++ ys) rs) ≡ some (shown_images (x ∷ xs) ++ images, p))
          n
          (take-next x (xs ++ ys) rs (length xs + k) (shown_images xs ++ images) p opens (
            take-there xs ys (rs ++ x ∷ []) k images p all_open (
              subst (λ r. take_frames k (at_frames ys r) ≡ some (images, p))
                (sym (append_assoc rs (x ∷ []) xs)) h)))

    -- After a round the frames are filled again.
    take-again :
        (q : FilePath) (qs : List FilePath) (k : ℕ) (images : List Image)
        (p : FakeFrameProvider FilePath)
        → take_frames k (at_frames (q ∷ qs) []) ≡ some (images, p)
        → (p2 : FakeFrameProvider FilePath) × (take_frames k (at_frames [] (q ∷ qs))
            ≡ some (images, p2))
    unfolding take_frames
    take-again q qs zero images p h = (
      at_frames [] (q ∷ qs),
      ap (λ (r : List Image × FakeFrameProvider FilePath). some (r.0, at_frames [] (q ∷ qs)))
          (some-injective ([], at_frames (q ∷ qs) []) (images, p) h),
    )
    take-again q qs (suc k) images p h = (p, rw (take_frames, next-again q qs) h)

    -- A cyclic camera that begins with its frames, each of which opens in the camera's pixel format, shows them
    -- again and again, each time in the same order: so many rounds and the frames `xs` at the beginning of the
    -- next one are what so many next frames are.
    pub take_frames-repeated :
        (rounds : ℕ) (q : FilePath) (qs xs ys : List FilePath)
        → AllOpen image settings.pix_fmt (q ∷ qs)
        → q ∷ qs ≡ xs ++ ys
        → (p : FakeFrameProvider FilePath) × (take_frames
              (rounds * length (q ∷ qs) + length xs)
              (at_frames (q ∷ qs) [])
            ≡ some (repeated rounds (shown_images (q ∷ qs)) ++ shown_images xs, p))
    unfolding repeated take_frames
    take_frames-repeated zero q qs xs ys all_open split = (
      at_frames ys xs,
      subst (λ n. take_frames n (at_frames (q ∷ qs) []) ≡ some (shown_images xs, at_frames ys xs))
          (omega arith)
          (subst
            (λ images.
              take_frames (length xs + 0) (at_frames (q ∷ qs) []) ≡ some (images, at_frames ys xs))
            (append-nil (shown_images xs))
            (subst
              (λ fs.
                take_frames (length xs + 0) (at_frames fs [])
                ≡ some (shown_images xs ++ [], at_frames ys xs))
              (sym split)
              (take-there xs ys [] 0 [] (at_frames ys xs)
                (AllOpen-split image settings.pix_fmt xs ys
                  (subst (λ fs. AllOpen image settings.pix_fmt fs) split all_open))
                refl))),
    )
    take_frames-repeated (suc rounds) q qs xs ys all_open split =
        let (p, rest) = take_frames-repeated rounds q qs xs ys all_open split in
        let k = rounds * length (q ∷ qs) + length xs in
        let all = repeated rounds (shown_images (q ∷ qs)) ++ shown_images xs in
        let (p2, again) = take-again q qs k all p rest in
        let n : length (q ∷ qs) + k ≡ suc rounds * length (q ∷ qs) + length xs = omega arith in
        (
          p2,
          subst
              (λ n.
                take_frames n (at_frames (q ∷ qs) [])
                ≡ some (repeated (suc rounds) (shown_images (q ∷ qs)) ++ shown_images xs, p2))
              n
              (subst
                (λ images.
                  take_frames (length (q ∷ qs) + k) (at_frames (q ∷ qs) []) ≡ some (images, p2))
                (sym (
                  append_assoc (shown_images (q ∷ qs)) (repeated rounds (shown_images (q ∷ qs)))
                    (shown_images xs)))
                (subst
                  (λ fs.
                    take_frames (length (q ∷ qs) + k) (at_frames fs [])
                    ≡ some (shown_images (q ∷ qs) ++ all, p2))
                  (append-nil (q ∷ qs)) (take-there (q ∷ qs) [] [] k all p2 all_open again))),
        )
