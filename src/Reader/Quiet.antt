-- ===== src/Reader/Quiet.antt =====
-- What the reader's observers are told on its way to a position.
use seekira.Common.{
  ℕ, zero, suc, ◌≡◌, ◌≢◌, refl, sym, subst, ap, ◌∙◌, ◌⊎◌, inl, inr, Bool, true, false, ◌||◌, Option,
  none, some, arith, ◌==◌, if◌then◌else◌, Bool-cases, Option-cases,
}
use seekira.Common.Int.{ℤ, pos, ◌+ℤ◌, ◌≤ℤ◌, ◌<ℤ◌, int_eq}
use seekira.Packet.{no_pts}
use seekira.Demuxer.Reading.{Ensures}
use seekira.StreamReader.Terminates.{Sought-cases}
use seekira.Demuxer.Seek.{returned}
use seekira.VideoStream.{VideoStream}
use seekira.Stream.{Frame}
use seekira.Reader.{
  Ran, ran, threw, null_frame, need_break_reading, need_handle_frame, take_frame, read_frame,
}
use seekira.Reader.Position.{Reader, read_up_to, is_target_frame}
use seekira.Reader.Ends.{Ran-cases, Returns, Took, take_frame-valid, take_frame-invalid}

-- What holds of the reader that a call leaves, however it ends.
abbrev pub Leaves : {R : Type 0} → (R → Type 0) → Ran R → Type 0
Leaves Q (ran r) = Q r
Leaves Q (threw r) = Q r
Leaves Q (null_frame r) = Q r

-- The frame at `next`, which is taken to last for `length`, shows at the time.
abbrev pub ShowsAt : ℤ → ℤ → ℤ → Type 0
ShowsAt time next length = (next ≤ℤ time) × (time <ℤ next +ℤ length)

stop_or_target :
    (time next length : ℤ) (b : Bool)
    → (b || is_target_frame time next (next +ℤ length)) ≡ true
    → (b ≡ true) ⊎ ShowsAt time next length
unfolding is_target_frame
stop_or_target time next length true h = inl refl
stop_or_target time next length false h = inr (ground arith, ground arith)

module _ (V : VideoStream) where
  -- The frames that are read from one state of the stream to another, and what is taken for the duration of the
  -- next frame: that of the packet that waits, and where none does, what was taken for it before.
  pub data Way : V.State → ℤ → V.State → ℤ → Type 0 where
    stays : (s : V.State) (length : ℤ) → Way s length s length
    reads :
        (s s1 s2 : V.State) (f : Option (Frame V.Image)) (length last : ℤ)
        → V.read_frame s ≡ returned f s1
        → Way s1 (if V.get_pkt_duration s1 == no_pts then length else V.get_pkt_duration s1) s2 last
        → Way s length s2 last

module _ (V : VideoStream) {A B : Type 0} where
  -- Of the reader, only what it has read has changed.
  pub record Kept (r r' : Reader V A B) : Type 0 where
    pub same_frames : r'.frame_observers ≡ r.frame_observers
    pub same_states : r'.reader_observers ≡ r.reader_observers
    pub same_notices : r'.notices ≡ r.notices
    pub same_state : r'.state ≡ r.state
    pub same_stop : r'.need_stop ≡ r.need_stop
    pub same_events : r'.event_queue ≡ r.event_queue
    pub same_skip : r'.skip_frame_handle ≡ r.skip_frame_handle

  pub Kept-trans : (a b c : Reader V A B) → Kept a b → Kept b c → Kept a c
  Kept-trans a b c x y = record {
    same_frames = y.same_frames ∙ x.same_frames;
    same_states = y.same_states ∙ x.same_states;
    same_notices = y.same_notices ∙ x.same_notices;
    same_state = y.same_state ∙ x.same_state;
    same_stop = y.same_stop ∙ x.same_stop;
    same_events = y.same_events ∙ x.same_events;
    same_skip = y.same_skip ∙ x.same_skip;
  }

  -- Whatever is read, the rest is as it was.
  pub reads_keep :
      (r : Reader V A B) (s : V.State) (f : Option (Frame V.Image)) (d : ℤ) (n : ℕ) (k : Bool)
      → Kept r (record r {
        stream = s;
        last_valid_frame = f;
        prev_duration = d;
        invalid_counter = n;
        is_last_key_frame = k;
      })
  reads_keep r s f d n k = record {
    same_frames = refl;
    same_states = refl;
    same_notices = refl;
    same_state = refl;
    same_stop = refl;
    same_events = refl;
    same_skip = refl;
  }

  Leaves-later :
      (a b : Reader V A B) (x : Ran (Reader V A B))
      → Kept a b
      → Leaves (Kept b) x
      → Leaves (Kept a) x
  Leaves-later a b (ran r) k h = Kept-trans a b r k h
  Leaves-later a b (threw r) k h = Kept-trans a b r k h
  Leaves-later a b (null_frame r) k h = Kept-trans a b r k h

  need_handle_frame-skips :
      (r : Reader V A B) → r.skip_frame_handle ≡ true → need_handle_frame r ≡ false
  unfolding need_handle_frame
  need_handle_frame-skips r skips = ground arith

  take_frame-Kept :
      (f : Option (Frame V.Image)) (r : Reader V A B)
      → r.skip_frame_handle ≡ true
      → Leaves (Kept r) (take_frame f r)
  unfolding take_frame
  take_frame-Kept none r skips =
      let keeps =
        reads_keep r r.stream r.last_valid_frame r.prev_duration (suc r.invalid_counter)
          r.is_last_key_frame in
      elim (Option-cases r.last_valid_frame) [
        | inl e ↦ simp (take_frame, e) (simp (e) at keeps)
        | inr (f, e) ↦ simp (take_frame, e) (simp (e) at keeps)
      ]
  take_frame-Kept (some f) r skips =
      simp (take_frame, need_handle_frame-skips r skips)
        (reads_keep r r.stream (some f)
          (elim r.last_valid_frame [ none ↦ pos 0 | some g ↦ g.duration ]) 0 r.is_last_key_frame)

  pub read_frame-Kept :
      (r : Reader V A B) → r.skip_frame_handle ≡ true → Leaves (Kept r) (read_frame V r)
  unfolding read_frame
  read_frame-Kept r skips = elim (Sought-cases (V.read_frame r.stream)) [
    | inr (s, e) ↦
        simp (read_frame, e)
          (reads_keep r s r.last_valid_frame r.prev_duration r.invalid_counter r.is_last_key_frame)
    | inl (f, s, e) ↦
        let r' = record r { stream = s; is_last_key_frame = V.is_last_key_frame s } in
        simp (read_frame, e)
          (Leaves-later r r' (take_frame f r')
            (reads_keep r s r.last_valid_frame r.prev_duration r.invalid_counter
              (V.is_last_key_frame s))
            (take_frame-Kept f r' skips))
  ]

  -- The loop ends at the frame that shows at the time, or since the reader must stop.
  abbrev pub Arrived : ℤ → V.State → ℤ → Reader V A B → Type 0
  Arrived time s length r =
      (last : ℤ) × Way V s length r.stream last
      × ((need_break_reading r ≡ true) ⊎ ShowsAt time (V.get_position r.stream) last)

  abbrev pub Approached : ℤ → ℤ → Reader V A B → Ran (Reader V A B) → Type 0
  Approached time length r (ran r') = Kept r r' × Arrived time r.stream length r'
  Approached time length r (threw r') = Kept r r'
  Approached time length r (null_frame r') = Kept r r'

  Took-reads :
      (s : V.State) (n : ℕ) (f : Option (Frame V.Image)) (s1 : V.State) (x : Ran (Reader V A B))
      → V.read_frame s ≡ returned f s1
      → Returns (Took V s1 n) x
      → Returns (λ r'. (g : Option (Frame V.Image)) × (V.read_frame s ≡ returned g r'.stream)) x
  Took-reads s n f s1 (ran r') e took = (f, e ∙ ap (λ t. returned f t) (sym took.0))
  Took-reads s n f s1 (threw r') e took = tt
  Took-reads s n f s1 (null_frame r') e took = tt

  read_frame-reads :
      (r : Reader V A B)
      → Returns
          (λ r'. (f : Option (Frame V.Image)) × (V.read_frame r.stream ≡ returned f r'.stream))
          (read_frame V r)
  unfolding read_frame
  read_frame-reads r = elim (Sought-cases (V.read_frame r.stream)) [
    | inr (s, e) ↦ simp (read_frame, e) tt
    | inl (none, s, e) ↦
        let r' = record r { stream = s; is_last_key_frame = V.is_last_key_frame s } in
        let reads =
          Took-reads r.stream (suc r.invalid_counter) none s (take_frame none r') e
            (take_frame-invalid V r') in
        simp (read_frame, e) (simp e at reads)
    | inl (some f, s, e) ↦
        let r' = record r { stream = s; is_last_key_frame = V.is_last_key_frame s } in
        let reads =
          Took-reads r.stream 0 (some f) s (take_frame (some f) r') e (take_frame-valid V f r') in
        simp (read_frame, e) (simp e at reads)
  ]

  Approached-later :
      (time length : ℤ) (a b : Reader V A B) (f : Option (Frame V.Image))
      (x : Option (Ran (Reader V A B)))
      → Kept a b
      → V.read_frame a.stream ≡ returned f b.stream
      → Ensures
          (Approached time
            (if V.get_pkt_duration b.stream == no_pts then length else V.get_pkt_duration b.stream)
            b)
          x
      → Ensures (Approached time length a) x
  Approached-later time length a b f none k e h = elim h [ ]
  Approached-later time length a b f (some (ran r)) k e (kept, (last, way, ends)) =
      (Kept-trans a b r k kept, (last, reads a.stream b.stream r.stream f length last e way, ends))
  Approached-later time length a b f (some (threw r)) k e h = Kept-trans a b r k h
  Approached-later time length a b f (some (null_frame r)) k e h = Kept-trans a b r k h

  pub read_up_to-Approached :
      (fuel : ℕ) (time length : ℤ) (r : Reader V A B)
      → r.skip_frame_handle ≡ true
      → read_up_to V fuel time length r ≢ none
      → Ensures (Approached time length r) (read_up_to V fuel time length r)
  unfolding read_up_to
  read_up_to-Approached zero time length r skips ends = absurd (ends refl)
  read_up_to-Approached (suc fuel) time length r skips ends =
      let next = V.get_position r.stream in
      elim (Bool-cases (need_break_reading r || is_target_frame time next (next +ℤ length))) [
        | inl stops ↦
            rw (read_up_to, stops)
              (
                reads_keep r r.stream r.last_valid_frame r.prev_duration r.invalid_counter
                    r.is_last_key_frame,
                (
                  length,
                  stays r.stream length,
                  stop_or_target time next length (need_break_reading r) stops,
                ),
              )
        | inr on ↦
            let kept = read_frame-Kept r skips in
            let found = read_frame-reads r in
            elim (Ran-cases (read_frame V r)) [
              | inr (inl (r', f)) ↦ rw (read_up_to, on, f) (rw f at kept)
              | inr (inr (r', f)) ↦ rw (read_up_to, on, f) (rw f at kept)
              | inl (r', f) ↦
                  let same : Kept r r' = rw f at kept in
                  let (g, at) =
                    subst
                      (λ x.
                        Returns
                          (λ q.
                            (g : Option (Frame V.Image)) × (V.read_frame r.stream
                              ≡ returned g q.stream))
                          x)
                      f found in
                  let length' =
                    if V.get_pkt_duration r'.stream == no_pts
                    then length
                    else V.get_pkt_duration r'.stream in
                  rw (read_up_to, on, f)
                    (Approached-later time length r r' g (read_up_to V fuel time length' r') same at
                      (read_up_to-Approached fuel time length' r' (same.same_skip ∙ skips)
                        (rw (read_up_to, on, f) at ends)))
            ]
      ]
