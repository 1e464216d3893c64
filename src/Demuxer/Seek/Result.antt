-- ===== src/Demuxer/Seek/Result.antt =====
-- What a client of `seek` is promised.
use seekira.Common.{
  ℕ, zero, suc, ◌+◌, ◌*◌, ◌^◌, ◌≡◌, refl, ◌≢◌, ◌⊎◌, inl, inr, true, Option, none, some, List, [],
  ◌∷◌, arith, get_elem?, subst, ◌∙◌,
}
use seekira.Common.Int.{ℤ, pos, negsuc, ◌≤ℤ◌, ◌<ℤ◌, max_ℤ, int_eq, int_beq_iff}
use mathlib.Core.Path.{subst₂}
use mathlib.Core.Option.{some-injective}
use seekira.Packet.{MediaType, no_pts, av_second}
use seekira.Parser.{Parser}
use seekira.Queue.{PacketQueue, is_av, position}
use seekira.Demuxer.{Demuxer}
use seekira.Demuxer.Reading.{Ensures, IsValid}
use seekira.Demuxer.Seek.{Sought, returned, raised, is_at, seek_is_done, seek}
use seekira.Demuxer.Seek.Ends.{SeekOk, seek_loop-SeekOk}

is_at-place :
    (t : ℤ) (type : MediaType) (q : PacketQueue)
    → is_at t type q ≡ true
    → q.enabled ≡ true
    → is_av type ≡ true
    → (position q ≢ no_pts) × (position q ≤ℤ t)
unfolding is_at
is_at-place t type q h on av = ground (arith, int_beq_iff (position q) no_pts)

max_of_pos : (n : ℕ) → max_ℤ (pos 0) (pos n) ≡ pos n
max_of_pos n = ground arith

module _ (P : Parser) where
  open P use {State, stream_type}

  -- Every enabled audio or video stream has a packet with a time stamp, and stands at `t` or before.
  abbrev pub InPlace : ℤ → ℕ → List PacketQueue → Type 0
  InPlace t j qs =
      (i k : ℕ) (q : PacketQueue)
      → j + i ≡ k
      → get_elem? qs i ≡ some q
      → q.enabled ≡ true
      → is_av (stream_type k) ≡ true
      → (position q ≢ no_pts) × (position q ≤ℤ t)

  seek_is_done-InPlace :
      (t : ℤ) (j : ℕ) (qs : List PacketQueue) → seek_is_done P t j qs ≡ true → InPlace t j qs
  unfolding seek_is_done
  seek_is_done-InPlace t j [] h i k q s e on av = ground arith
  seek_is_done-InPlace t j (x ∷ qs) h zero k q s e on av =
      let same : j ≡ k = omega arith in
      let front : is_at t (stream_type j) x ≡ true = ground arith in
      is_at-place t (stream_type k) q
        (subst₂ (λ (m : ℕ) (y : PacketQueue). is_at t (stream_type m) y ≡ true) same
          (some-injective x q e) front)
        on av
  seek_is_done-InPlace t j (x ∷ qs) h (suc i) k q s e on av =
      seek_is_done-InPlace t (j + 1) qs (ground arith) i k q (omega arith) e on av

  abbrev pub Seeks : ℤ → Demuxer State → Sought ℤ (Demuxer State) → Type 0
  Seeks time d (raised d') =
      IsValid P d' × (d'.seek_time ≡ max_ℤ (pos 0) time) × (d'.processed_count ≡ d.processed_count)
  Seeks time d (returned t d') =
      IsValid P d'
      × (d'.seek_time ≡ max_ℤ (pos 0) time)
      × (d'.processed_count ≡ d.processed_count)
      × (((time <ℤ pos 0) × (t ≡ time) × (d'.parser ≡ d.parser) × (d'.queues ≡ d.queues))
          ⊎ ((pos 0 ≤ℤ t) × (t ≤ℤ time) × ((t ≡ pos 0) ⊎ InPlace time 0 d'.queues)))

  Seeks-of :
      (n : ℕ) (d : Demuxer State) (r : Option (Sought ℤ (Demuxer State)))
      → Ensures (SeekOk P n (record d { seek_time = max_ℤ (pos 0) (pos n) })) r
      → Ensures (Seeks (pos n) d) r
  Seeks-of n d none h = h
  Seeks-of n d (some (raised d')) k = (k.valid, k.seek_time, k.processed)
  Seeks-of n d (some (returned t d')) (k, low, high, where_at) = (
    k.valid,
    k.seek_time,
    k.processed,
    inr (
      low,
      high,
      elim where_at [
        | inl z ↦ inl z
        | inr at ↦ inr (
            subst (λ s. InPlace s 0 d'.queues) (k.seek_time ∙ max_of_pos n)
              (seek_is_done-InPlace d'.seek_time 0 d'.queues at))
      ],
    ),
  )

  -- `seek` to a time below 2 ^ 63 always returns or raises, within the tries of its fuel, and keeps the
  -- demuxer valid. A negative time comes back as it is and nothing is moved. Otherwise the answer lies
  -- between 0 and the time; if it is not 0, every enabled audio and video stream has a packet
  -- queued and stands at the requested time or before it.
  pub seek-Seeks :
      (time : ℤ) (d : Demuxer State)
      → time <ℤ pos (2 ^ 63)
      → IsValid P d
      → Ensures (Seeks time d) (seek P time d)
  unfolding seek
  seek-Seeks (negsuc n) d h v = (
    record { shape = v.shape; routed = v.routed },
    refl,
    refl,
    inl (omega arith, refl, refl, refl),
  )
  seek-Seeks (pos n) d h v = Seeks-of n d _ (
      seek_loop-SeekOk P 64 n (av_second * 4) n d' d' (omega arith) (inr (omega arith)) (record {
        valid = record { shape = v.shape; routed = v.routed };
        seek_time = refl;
        processed = refl;
      }))
    where
      d' : Demuxer State
      d' = record d { seek_time = max_ℤ (pos 0) (pos n) }
