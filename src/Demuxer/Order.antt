-- ===== src/Demuxer/Order.antt =====
-- What the queues hold: each stream is fed the packets of its own, in the order of the file.
use mathlib.Core.Option.{some-injective}
use mathlib.Core.List.{append-nil, append_assoc}
use seekira.Common.{
  ℕ, zero, suc, ◌≡◌, refl, ◌∙◌, ap, sym, ◌≢◌, ◌⊎◌, inl, inr, Bool, true, false, Option, none, some,
  List, [], ◌∷◌, ◌++◌, arith, length, get_elem?, set, Bool-cases, ◌==◌, nat_eq, if◌then◌else◌,
  length-set, ◌<◌,
}
use seekira.Common.Int.{ℤ, pos, ◌≤ℤ◌, ◌<ℤ◌, int_beq_iff, int_eq}
use seekira.Packet.{DataPacket, no_pts, is_key_frame}
use seekira.Parser.{Parser, packet, finished}
use seekira.Queue.{PacketQueue, push, reset, is_full}
use seekira.Demuxer.{Demuxer, drops_older, store, read_loop, read_packets_from_parser}
use seekira.Demuxer.Reading.{Ensures, ReadResult-cases, get_elem?-total, IsValid}

-- One stream on its own: what a packet of the stream does to its queue.
pub feed : ℤ → PacketQueue → DataPacket → PacketQueue
feed t q p = if q.enabled then store t q p else reset q

pub feed_all : ℤ → PacketQueue → List DataPacket → PacketQueue
feed_all t q [] = q
feed_all t q (p ∷ ps) = feed_all t (feed t q p) ps

pub of_stream : ℕ → List DataPacket → List DataPacket
of_stream i [] = []
of_stream i (p ∷ ps) = if p.stream_index == i then p ∷ of_stream i ps else of_stream i ps

-- A packet that makes those before it useless for a seek to `t`: a key frame with a duration, whose time stamp,
-- or without one its decoding time stamp, is there and is at most `t`.
pub record StartsOver (t : ℤ) (p : DataPacket) : Type 0 where
  pub is_key : is_key_frame p ≡ true
  pub lasts : pos 0 <ℤ p.duration
  pub in_time :
      ((p.pts ≢ no_pts) × (p.pts ≤ℤ t)) ⊎ ((p.pts ≡ no_pts) × (p.dts ≢ no_pts) × (p.dts ≤ℤ t))

abbrev pub NoneStarts : ℤ → List DataPacket → Type 0
NoneStarts t [] = Unit
NoneStarts t (p ∷ ps) = (StartsOver t p → ⊥) × NoneStarts t ps

-- A queue that is fed keeps all that it had and got, or, where packets of those that it got make those before
-- them useless, the last such packet and what it got after it.
pub record KeepsEnd (t : ℤ) (q : PacketQueue) (ps : List DataPacket) (q' : PacketQueue)
    : Type 0 where
  pub on : q'.enabled ≡ true
  pub kept :
      (NoneStarts t ps × (q'.list ≡ q.list ++ ps))
      ⊎ ((before : List DataPacket) × (p : DataPacket) × (after : List DataPacket) × (ps
            ≡ before ++ p ∷ after)
          × StartsOver t p
          × NoneStarts t after
          × (q'.list ≡ p ∷ after))

drops_older-StartsOver : (t : ℤ) (p : DataPacket) → drops_older t p ≡ true → StartsOver t p
unfolding drops_older
drops_older-StartsOver t p old = record {
  is_key = ground arith;
  lasts = ground arith;
  in_time = elim (Bool-cases (p.pts == no_pts)) [
    | inr there ↦ inl (ground (arith, int_beq_iff p.pts no_pts), ground arith)
    | inl missing ↦ inr (
      (int_beq_iff p.pts no_pts).0 missing,
      ground (arith, int_beq_iff p.dts no_pts),
      ground arith,
    )
  ];
}

StartsOver-drops_older : (t : ℤ) (p : DataPacket) → StartsOver t p → drops_older t p ≡ true
unfolding drops_older
StartsOver-drops_older t p s = elim s.in_time [
  | inl (there, before) ↦ ground (arith, int_beq_iff p.pts no_pts, s.is_key, s.lasts)
  | inr (missing, there, before) ↦
      ground (arith, int_beq_iff p.pts no_pts, int_beq_iff p.dts no_pts, s.is_key, s.lasts)
]

feed-list :
    (t : ℤ) (q : PacketQueue) (p : DataPacket)
    → q.enabled ≡ true
    → (feed t q p).list ≡ (if drops_older t p then p ∷ [] else q.list ++ p ∷ [])
unfolding feed store push reset
feed-list t q p on = ground arith

feed-off :
    (t : ℤ) (q : PacketQueue) (p : DataPacket)
    → q.enabled ≡ false
    → ((feed t q p).list ≡ []) × ((feed t q p).enabled ≡ false)
unfolding feed store reset
feed-off t q p off = (ground arith, ground arith)

feed-on :
    (t : ℤ) (q : PacketQueue) (p : DataPacket) → q.enabled ≡ true → (feed t q p).enabled ≡ true
unfolding feed store push reset
feed-on t q p on = ground arith

-- An enabled queue that is fed packets stays enabled. It holds, in order, all that it had and got, unless one of the
-- packets that it got is a key frame with a duration at or before the time of the seek: then it holds the last such
-- key frame and what it got after it.
pub feed_all-KeepsEnd :
    (t : ℤ) (q : PacketQueue) (ps : List DataPacket)
    → q.enabled ≡ true
    → KeepsEnd t q ps (feed_all t q ps)
unfolding feed_all
feed_all-KeepsEnd t q [] on = record { on = on; kept = inl (tt, sym (append-nil q.list)) }
feed_all-KeepsEnd t q (p ∷ ps) on =
    let rest = feed_all-KeepsEnd t (feed t q p) ps (feed-on t q p on) in
    record {
      on = rest.on;
      kept = elim rest.kept [
        | inr (before, p', after, split, starts, none_starts, all) ↦
            inr (p ∷ before, p', after, ap (λ l. p ∷ l) split, starts, none_starts, all)
        | inl (none_starts, all) ↦ elim (Bool-cases (drops_older t p)) [
          | inl old ↦
              let e : (feed t q p).list ≡ p ∷ [] = feed-list t q p on ∙ rw old in
              inr (
                [],
                p,
                ps,
                refl,
                drops_older-StartsOver t p old,
                none_starts,
                all ∙ ap (λ l. l ++ ps) e,
              )
          | inr new ↦
              let e : (feed t q p).list ≡ q.list ++ p ∷ [] = feed-list t q p on ∙ rw new in
              inl (
                ((λ s. cc (StartsOver-drops_older t p s)), none_starts),
                all ∙ ap (λ l. l ++ ps) e ∙ append_assoc q.list (p ∷ []) ps,
              )
        ]
      ];
    }

-- What a queue has become by the packets of its stream: a disabled one holds nothing as soon as there is one.
pub record IsFed (t : ℤ) (q : PacketQueue) (ps : List DataPacket) (q' : PacketQueue) : Type 0 where
  pub when_on : q.enabled ≡ true → KeepsEnd t q ps q'
  pub when_off :
      q.enabled ≡ false → (q'.enabled ≡ false) × (((ps ≡ []) × (q' ≡ q)) ⊎ (q'.list ≡ []))

feed_all-off :
    (t : ℤ) (q : PacketQueue) (ps : List DataPacket)
    → q.enabled ≡ false
    → ((feed_all t q ps).enabled ≡ false)
      × (((ps ≡ []) × (feed_all t q ps ≡ q)) ⊎ ((feed_all t q ps).list ≡ []))
unfolding feed_all
feed_all-off t q [] off = (off, inl (refl, refl))
feed_all-off t q (p ∷ ps) off =
    let (empty, off') = feed-off t q p off in
    let (still, rest) = feed_all-off t (feed t q p) ps off' in
    (
      still,
      inr (elim rest [
        | inl (nil, same) ↦ ap (λ (x : PacketQueue). x.list) same ∙ empty
        | inr none_left ↦ none_left
      ]),
    )

feed_all-IsFed : (t : ℤ) (q : PacketQueue) (ps : List DataPacket) → IsFed t q ps (feed_all t q ps)
feed_all-IsFed t q ps = record {
  when_on = λ on. feed_all-KeepsEnd t q ps on;
  when_off = λ off. feed_all-off t q ps off;
}

get-feed :
    (t : ℤ) (i j : ℕ) (p : DataPacket) (q x : PacketQueue) (qs : List PacketQueue)
    → get_elem? qs j ≡ some q
    → get_elem? qs i ≡ some x
    → get_elem? (set qs j (feed t q p)) i ≡ some (if j == i then feed t x p else x)
get-feed t i j p q x [] e f = cc
get-feed t zero zero p q x (y ∷ qs) e f =
    ap (λ o. some (feed t o p)) (some-injective q x (sym e ∙ f))
get-feed t zero (suc j) p q x (y ∷ qs) e f = ground arith
get-feed t (suc i) zero p q x (y ∷ qs) e f = ground arith
get-feed t (suc i) (suc j) p q x (y ∷ qs) e f = ground (arith, get-feed t i j p q x qs e f)

module _ (P : Parser) where
  open P use {State, stream_count, read as parser_read, remaining, read_shrinks, read_in_range}

  -- The packets that the parser gives from one state to another, the end of the file included.
  pub data Trace : State → List DataPacket → State → Type 0 where
    here : {s : State} → Trace s [] s
    ended : {s s' : State} → parser_read s ≡ finished s' → Trace s [] s'
    next :
        {s s' s'' : State} {p : DataPacket} {ps : List DataPacket}
        → parser_read s ≡ packet p s'
        → Trace s' ps s''
        → Trace s (p ∷ ps) s''

  -- Between `d` and `d'` the parser gave some packets, and each queue has become what those of its stream make it.
  abbrev pub Feeds : Demuxer State → Bool × Demuxer State → Type 0
  Feeds d (b, d') =
      (ps : List DataPacket) × Trace d.parser ps d'.parser
      × ((i : ℕ) (q : PacketQueue)
          → get_elem? d.queues i ≡ some q
          → (q' : PacketQueue) × (get_elem? d'.queues i ≡ some q')
            × IsFed d.seek_time q (of_stream i ps) q')

  -- The same by the steps of the queue.
  abbrev FeedsEach : Demuxer State → Bool × Demuxer State → Type 0
  FeedsEach d (b, d') =
      (ps : List DataPacket) × Trace d.parser ps d'.parser
      × ((i : ℕ) (q : PacketQueue)
          → get_elem? d.queues i ≡ some q
          → get_elem? d'.queues i ≡ some (feed_all d.seek_time q (of_stream i ps)))

  FeedsEach-next :
      (d : Demuxer State) (s : State) (p : DataPacket) (q : PacketQueue)
      (r : Option (Bool × Demuxer State))
      → parser_read d.parser ≡ packet p s
      → get_elem? d.queues p.stream_index ≡ some q
      → Ensures
          (FeedsEach
            (record d { parser = s; queues = set d.queues p.stream_index (feed d.seek_time q p) }))
          r
      → Ensures (FeedsEach d) r
  unfolding feed_all of_stream
  FeedsEach-next d s p q none e f h = h
  FeedsEach-next d s p q (some (b, d')) e f (ps, trace, fed) = (p ∷ ps, next e trace, fed')
    where
      i : ℕ
      i = p.stream_index

      fed' :
          (k : ℕ) (x : PacketQueue)
          → get_elem? d.queues k ≡ some x
          → get_elem? d'.queues k ≡ some (feed_all d.seek_time x (of_stream k (p ∷ ps)))
      fed' k x g = ground (
        arith,
        fed k (if i == k then feed d.seek_time x p else x)
            (get-feed d.seek_time k i p q x d.queues f g),
      )

  read_loop-FeedsEach :
      (fuel n : ℕ) (d : Demuxer State)
      → remaining d.parser < fuel
      → length d.queues ≡ stream_count
      → Ensures (FeedsEach d) (read_loop P fuel n d)
  unfolding read_loop feed feed_all of_stream
  read_loop-FeedsEach fuel zero d h v = ([], here, λ i q e. e)
  read_loop-FeedsEach zero (suc n) d h v = elim h [ ]
  read_loop-FeedsEach (suc fuel) (suc n) d h v = elim (ReadResult-cases (parser_read d.parser)) [
    | inr (s, e) ↦ rw (e, read_loop) ([], ended e, λ i q f. f)
    | inl (p, s, e) ↦
        let less = read_shrinks d.parser s p e in
        let i = p.stream_index in
        let (q, e') = get_elem?-total i d.queues (rw v (read_in_range d.parser s p e)) in
        rw (e, read_loop)
          (rw (e', read_loop)
            (FeedsEach-next d s p q _ e e' (elim (Bool-cases q.enabled) [
              | inr off ↦ simp off (
                  read_loop-FeedsEach fuel (suc n) _ (omega arith)
                    (length-set d.queues i (reset q) ∙ v))
              | inl on ↦
                  let q' = store d.seek_time q p in
                  simp on (elim (Bool-cases (is_full q')) [
                    | inl full ↦ simp full ([], here, λ k x g. g)
                    | inr room ↦
                        simp room (
                          read_loop-FeedsEach fuel n _ (omega arith) (length-set d.queues i q' ∙ v))
                  ])
            ])))
  ]

  FeedsEach-Feeds :
      (d : Demuxer State) (r : Option (Bool × Demuxer State))
      → Ensures (FeedsEach d) r
      → Ensures (Feeds d) r
  FeedsEach-Feeds d none h = h
  FeedsEach-Feeds d (some (b, d')) (ps, trace, fed) = (
    ps,
    trace,
    λ i q e. (
      feed_all d.seek_time q (of_stream i ps),
      fed i q e,
      feed_all-IsFed d.seek_time q (of_stream i ps),
    ),
  )

  -- At a valid demuxer `read_packets_from_parser` returns, and between its states the parser gave some packets. Each
  -- queue is fed those of its stream, all of them and in the order of the file, whatever the other streams hold:
  -- an enabled one holds, in order, what it had and got, but only from the last key frame with a duration at or
  -- before the time of the seek on, where it got one; a disabled one stays disabled, and holds nothing if it got any.
  pub read_packets_from_parser-Feeds :
      (n : ℕ) (d : Demuxer State) → IsValid P d → Ensures (Feeds d) (read_packets_from_parser P n d)
  unfolding read_packets_from_parser feed_all of_stream
  read_packets_from_parser-Feeds n d v = FeedsEach-Feeds d _ (elim (Bool-cases d.eof_is_reached) [
    | inl end_of_file ↦ simp end_of_file ([], here, λ i q e. e)
    | inr more ↦
        simp more (read_loop-FeedsEach (suc (remaining d.parser)) n d (omega arith) v.shape)
  ])
