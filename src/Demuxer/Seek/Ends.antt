-- ===== src/Demuxer/Seek/Ends.antt =====
-- `seek` returns or raises, keeps the demuxer valid, and at a positive result every stream stands at
-- or before the requested time.
use native.Mathlib.Nat.{pow-suc}
use seekira.Common.{
  ℕ, zero, suc, ◌+◌, ◌-◌, ◌*◌, ◌^◌, ◌≤◌, ◌<◌, ◌≡◌, refl, ◌∙◌, ap, ◌⊎◌, inl, inr, Bool, true, false,
  ◌||◌, Option, none, some, arith, length-map, replicate, ltb, Bool-cases, Option-cases, ◌==◌,
  nat_eq, if◌then◌else◌,
}
use seekira.Common.Int.{ℤ, pos, ◌≤ℤ◌}
use seekira.Packet.{no_pts}
use seekira.Parser.{Parser, SeekResult, moved, failed}
use seekira.Queue.{is_av, reset}
use seekira.Demuxer.{Demuxer, reset_queue, check_streams_position}
use seekira.Demuxer.Route.{Queues-reset}
use seekira.Demuxer.Reading.{Ensures, IsValid}
use seekira.Demuxer.Filling.{Option-view, Fills, FillsFrom, fill_queue-Fills}
use seekira.Demuxer.Seek.{
  SeekScan, Round, done, go_on, Sought, returned, raised, seek_is_better, seek_is_done, judge,
  probe, seek_round, seek_streams, seek_best, finish, seek_internal, seek_loop,
}

SeekResult-cases :
    {S : Type 0} (r : SeekResult S) → ((s : S) × (r ≡ moved s)) ⊎ ((s : S) × (r ≡ failed s))
SeekResult-cases (moved s) = inl (s, refl)
SeekResult-cases (failed s) = inr (s, refl)

module _ (P : Parser) where
  open P use {State, stream_count, stream_type, seek_stream, seek as parser_seek}

  -- `d` comes from `d0` by reading and positioning.
  pub record Kept (d0 d : Demuxer State) : Type 0 where
    pub valid : IsValid P d
    pub seek_time : d.seek_time ≡ d0.seek_time
    pub processed : d.processed_count ≡ d0.processed_count

  abbrev pub IsDone : Demuxer State → Type 0
  IsDone d = seek_is_done P d.seek_time 0 d.queues ≡ true

  abbrev RoundOk : Demuxer State → Round (Demuxer State) → Type 0
  RoundOk d0 (done d) = Kept d0 d × IsDone d
  RoundOk d0 (go_on scan d) = Kept d0 d

  Kept-fill :
      (keys b : Bool) (d0 d d' : Demuxer State) → Kept d0 d → Fills P keys d b d' → Kept d0 d'
  Kept-fill keys b d0 d d' k f = record {
    valid = f.valid;
    seek_time = f.seek_time ∙ k.seek_time;
    processed = f.processed ∙ k.processed;
  }

  Kept-reset :
      (d0 d : Demuxer State) (s : State)
      → Kept d0 d
      → Kept d0 (record (reset_queue P d) { parser = s })
  unfolding reset_queue
  Kept-reset d0 d s k = record {
    valid = record {
      shape = length-map d.queues reset ∙ k.valid.shape;
      routed = Queues-reset 0 d.queues;
    };
    seek_time = k.seek_time;
    processed = k.processed;
  }

  Round-view :
      (d0 : Demuxer State) (r : Option (Round (Demuxer State)))
      → Ensures (RoundOk d0) r
      → ((d : Demuxer State) × (r ≡ some (done d)) × (Kept d0 d × IsDone d))
        ⊎ ((scan : SeekScan) × (d : Demuxer State) × (r ≡ some (go_on scan d)) × Kept d0 d)
  Round-view d0 none h = absurd h
  Round-view d0 (some (done d)) h = inl (d, refl, h)
  Round-view d0 (some (go_on scan d)) h = inr (scan, d, refl, h)

  judge-RoundOk :
      (idx : ℕ) (scan : SeekScan) (d0 d : Demuxer State)
      → Kept d0 d
      → RoundOk d0 (judge P idx scan d)
  unfolding judge
  judge-RoundOk idx scan d0 d k = elim (Bool-cases (seek_is_better scan.seek_positions d.queues)) [
    | inr no_better ↦ simp no_better k
    | inl better ↦ elim (Bool-cases (seek_is_done P d.seek_time 0 d.queues)) [
      | inl at ↦ simp (better, at) (k, refl)
      | inr off ↦ simp (better, off) k
    ]
  ]

  probe-RoundOk :
      (idx : ℕ) (scan : SeekScan) (d0 d : Demuxer State)
      → Kept d0 d
      → Ensures (RoundOk d0) (probe P idx scan d)
  unfolding probe
  probe-RoundOk idx scan d0 d k =
      let ((b, d'), e, f) =
        Option-view (FillsFrom P false d) _ (fill_queue-Fills P false d k.valid) in
      let k' = Kept-fill false b d0 d d' k f in
      rw (e, probe)
        (elim (Bool-cases (check_streams_position d'.seek_time d'.queues)) [
          | inr late ↦ simp late (judge-RoundOk idx scan d0 d' k')
          | inl early ↦
              let ((b', d''), e', f') =
                Option-view (FillsFrom P true d') _ (fill_queue-Fills P true d' f.valid) in
              simp early
                (rw (e', probe) (judge-RoundOk idx scan d0 d'' (Kept-fill true b' d0 d' d'' k' f')))
        ])

  seek_round-RoundOk :
      (time : ℤ) (idx : ℕ) (scan : SeekScan) (d0 d : Demuxer State)
      → Kept d0 d
      → Ensures (RoundOk d0) (seek_round P time idx scan d)
  unfolding seek_round
  seek_round-RoundOk time idx scan d0 d k = elim (Bool-cases (is_av (stream_type idx))) [
    | inr other ↦ rw (other, seek_round) k
    | inl av ↦
        rw (av, seek_round)
          (elim (SeekResult-cases (parser_seek idx time (reset_queue P d).parser)) [
            | inr (s, e) ↦ rw (e, seek_round) (Kept-reset d0 d s k)
            | inl (s, e) ↦ rw (e, seek_round) (probe-RoundOk idx _ d0 _ (Kept-reset d0 d s k))
          ])
  ]

  seek_streams-RoundOk :
      (n : ℕ) (time : ℤ) (idx : ℕ) (scan : SeekScan) (d0 d : Demuxer State)
      → Kept d0 d
      → Ensures (RoundOk d0) (seek_streams P n time idx scan d)
  unfolding seek_streams
  seek_streams-RoundOk zero time idx scan d0 d k = k
  seek_streams-RoundOk (suc n) time idx scan d0 d k =
      elim (Round-view d0 _ (seek_round-RoundOk time idx scan d0 d k)) [
        | inl (d', e, ok) ↦ rw (e, seek_streams) ok
        | inr (scan', d', e, k') ↦
            rw (e, seek_streams) (seek_streams-RoundOk n time (idx + 1) scan' d0 d' k')
      ]

  -- `seek_internal` answers true at a positive time only when the streams are in place.
  abbrev SoughtOk : ℕ → Demuxer State → Sought Bool (Demuxer State) → Type 0
  SoughtOk time d0 (returned b d) =
      Kept d0 d × (b ≡ true → (time ≡ 0) ⊎ IsDone d) × (time ≡ 0 → b ≡ true)
  SoughtOk time d0 (raised d) = Kept d0 d

  seek_best-SoughtOk :
      (time best : ℕ) (d0 d : Demuxer State)
      → time ≡ 0
      → Kept d0 d
      → Ensures (SoughtOk time d0) (seek_best P best (pos time) d)
  unfolding seek_best
  seek_best-SoughtOk time best d0 d z k =
      elim (SeekResult-cases (parser_seek best (pos time) (reset_queue P d).parser)) [
        | inr (s, e) ↦ rw (e, seek_best) (Kept-reset d0 d s k)
        | inl (s, e) ↦
            let k' = Kept-reset d0 d s k in
            let ((b, d'), e', f) =
              Option-view (FillsFrom P true _) _ (fill_queue-Fills P true _ k'.valid) in
            rw (e, seek_best)
              (rw (e', seek_best) (Kept-fill true b d0 _ d' k' f, (λ _. inl z), λ _. refl))
      ]

  finish-SoughtOk :
      (time : ℕ) (d0 : Demuxer State) (r : Round (Demuxer State))
      → RoundOk d0 r
      → Ensures (SoughtOk time d0) (finish P time r)
  unfolding finish
  finish-SoughtOk time d0 (done d) h = (h.0, (λ _. inr h.1), λ _. refl)
  finish-SoughtOk time d0 (go_on scan d) k = elim (Option-cases scan.best_index) [
    | inl e ↦ rw (e, finish) k
    | inr (best, e) ↦ elim (Bool-cases (time == 0)) [
      | inl z ↦
          let zero_time : time ≡ 0 = ground arith in
          rw (e, finish)
            (rw (z, finish)
              (elim (Bool-cases (best == scan.last_index)) [
                | inl same ↦ rw (same, finish) (k, (λ _. inl zero_time), λ _. refl)
                | inr other ↦ rw (other, finish) (seek_best-SoughtOk time best d0 d zero_time k)
              ]))
      | inr later ↦ rw (e, finish) (rw (later, finish) (k, (λ f. cc), λ f. ground arith))
    ]
  ]

  seek_internal-SoughtOk :
      (time : ℕ) (d0 d : Demuxer State)
      → Kept d0 d
      → Ensures (SoughtOk time d0) (seek_internal P time d)
  unfolding seek_internal
  seek_internal-SoughtOk time d0 d k =
      let scan : SeekScan = record {
        seek_positions = replicate stream_count no_pts;
        best_index = none;
        last_index = 0;
      } in
      let first = if ltb 0 time then seek_stream else 0 in
      let count = if ltb 0 time then 1 else stream_count in
      let ends = seek_streams-RoundOk count (pos time) first scan d0 d k in
      let (r, e, ok) = Option-view (RoundOk d0) _ ends in
      rw (e, seek_internal) (finish-SoughtOk time d0 r ok)

  -- How a seek from `time` on may end, with the time that it answers.
  abbrev pub SeekOk : ℕ → Demuxer State → Sought ℤ (Demuxer State) → Type 0
  SeekOk time d0 (returned t d) =
      Kept d0 d × (pos 0 ≤ℤ t) × (t ≤ℤ pos time) × ((t ≡ pos 0) ⊎ IsDone d)
  SeekOk time d0 (raised d) = Kept d0 d

  Sought-view :
      (time : ℕ) (d0 : Demuxer State) (r : Option (Sought Bool (Demuxer State)))
      → Ensures (SoughtOk time d0) r
      → ((b : Bool) × (d : Demuxer State) × (r ≡ some (returned b d))
          × SoughtOk time d0 (returned b d))
        ⊎ ((d : Demuxer State) × (r ≡ some (raised d)) × Kept d0 d)
  Sought-view time d0 none h = absurd h
  Sought-view time d0 (some (returned b d)) h = inl (b, d, refl, h)
  Sought-view time d0 (some (raised d)) h = inr (d, refl, h)

  -- A try is the last one if it was good, or if it was made at the beginning of the file.
  stop-SeekOk :
      (time limit : ℕ) (b : Bool) (d0 d : Demuxer State)
      → time ≤ limit
      → SoughtOk time d0 (returned b d)
      → (b || time == 0) ≡ true
      → SeekOk limit d0 (returned (pos time) d)
  stop-SeekOk time limit b d0 d h ok stop = (
    ok.0,
    omega arith,
    omega arith,
    elim (Bool-cases b) [
      | inl good ↦ elim (ok.1 good) [ inl z ↦ inl (ap pos z) | inr here ↦ inr here ]
      | inr bad ↦ inl (ground arith)
    ],
  )

  -- The next try, after one from `time` that was not the last.
  next_time :
      (fuel time step : ℕ) (b : Bool)
      → (time ≡ 0) ⊎ (time + step < step * 2 ^ suc fuel)
      → (b || time == 0) ≡ false
      → let time' = if ltb time step then 0 else time - step in
        (time' ≡ 0) ⊎ (time' + step * 2 < step * 2 * 2 ^ fuel)
  next_time fuel time step b enough more = elim (Bool-cases (ltb time step)) [
    | inl back ↦ rw back (inl refl)
    | inr far ↦
        let back_by : step ≤ time = ground arith in
        rw far (elim enough [
          | inl z ↦ ground arith
          | inr e ↦ inr (omega (arith, ap (λ (t : ℕ). step * t) (pow-suc 2 fuel)))
        ])
  ]

  pub seek_loop-SeekOk :
      (fuel time step limit : ℕ) (d0 d : Demuxer State)
      → time ≤ limit
      → (time ≡ 0) ⊎ (time + step < step * 2 ^ fuel)
      → Kept d0 d
      → Ensures (SeekOk limit d0) (seek_loop P (suc fuel) time step d)
  unfolding seek_loop
  seek_loop-SeekOk zero time step limit d0 d h enough k =
      elim (Sought-view time d0 _ (seek_internal-SoughtOk time d0 d k)) [
        | inr (d', e, k') ↦ rw (e, seek_loop) k'
        | inl (b, d', e, ok) ↦
            let stop : (b || time == 0) ≡ true = elim enough [
              | inl z ↦ ground arith
              | inr e ↦ absurd (omega arith)
            ] in
            rw (e, seek_loop) (rw (stop, seek_loop) (stop-SeekOk time limit b d0 d' h ok stop))
      ]
  seek_loop-SeekOk (suc fuel) time step limit d0 d h enough k =
      elim (Sought-view time d0 _ (seek_internal-SoughtOk time d0 d k)) [
        | inr (d', e, k') ↦ rw (e, seek_loop) k'
        | inl (b, d', e, ok) ↦
            rw (e, seek_loop)
              (elim (Bool-cases (b || time == 0)) [
                | inl stop ↦ rw (stop, seek_loop) (stop-SeekOk time limit b d0 d' h ok stop)
                | inr more ↦
                    rw (more, seek_loop)
                      (seek_loop-SeekOk fuel _ (step * 2) limit d0 d' (ground arith)
                        (next_time fuel time step b enough more) ok.0)
              ])
      ]
