-- ===== src/Demuxer/Delivery.antt =====
-- `read`, `enable_stream` and `release_internal_data`: what a client of the demuxer is promised.
use seekira.Common.{
  ℕ, ◌+◌, ◌≤◌, ◌<◌, ◌≡◌, refl, ◌∙◌, ap, sym, subst, ◌⊎◌, inl, inr, Bool, true, false, none, some,
  List, [], ◌∷◌, arith, length-set, get_elem?, get_elem?-set_self, set, leb, Bool-cases, List-cases,
  ◌==◌, nat_eq,
}
use seekira.Packet.{DataPacket}
use seekira.Parser.{Parser}
use seekira.Queue.{PacketQueue, pop, size, is_full}
use seekira.Queue.Counters.{pop-IsCounted}
use seekira.Demuxer.{
  Demuxer, Reply, delivered, nothing, raised, any_queue, deliver, read, fill_queue,
}
use seekira.Demuxer.Route.{IsQueueOf, AllOf, Queues-get, Queues-set}
use seekira.Demuxer.Reading.{Ensures, IsValid, get_elem?-total}
use seekira.Demuxer.Filling.{Option-view, AllSupplied, FillsFrom, fill_queue-Fills}

dry_of_supplied :
    (i : ℕ) (qs : List PacketQueue) (q : PacketQueue)
    → get_elem? qs i ≡ some q
    → AllSupplied false qs
    → q.list ≡ []
    → (q.enabled ≡ false) ⊎ (q.can_be_empty ≡ true)
dry_of_supplied i qs q e supplied none_left = elim (Bool-cases q.enabled) [
  | inr off ↦ inl off
  | inl on ↦ elim (Bool-cases q.can_be_empty) [
    | inl may ↦ inr may
    | inr needed ↦ absurd ((supplied i q e on needed).holds none_left)
  ]
]

enabled_of_cons :
    {i : ℕ} (q : PacketQueue) (p : DataPacket) (ps : List DataPacket)
    → IsQueueOf i q
    → q.list ≡ p ∷ ps
    → q.enabled ≡ true
enabled_of_cons q p ps of l = elim (Bool-cases q.enabled) [
  | inl on ↦ on
  | inr off ↦ cc (l, of.counted.idle off)
]

pop-nil : (q : PacketQueue) → q.list ≡ [] → pop q ≡ none
unfolding pop
pop-nil q l = ground arith

size-nil : (q : PacketQueue) → q.list ≡ [] → (size q == 0) ≡ true
unfolding size
size-nil q l = ground arith

size-cons :
    (q : PacketQueue) (p : DataPacket) (ps : List DataPacket)
    → q.list ≡ p ∷ ps
    → (size q == 0) ≡ false
unfolding size
size-cons q p ps l = ground arith

module _ (P : Parser) where
  open P use {State, stream_count}

  -- The demuxer `d'` is `d` but for the first packet of one stream, which is `p`.
  pub record Takes (stream : ℕ) (d : Demuxer State) (p : DataPacket) (d' : Demuxer State)
      : Type 0 where
    pub valid : IsValid P d'
    pub own : p.stream_index ≡ stream
    pub counted : d'.processed_count ≡ d.processed_count + 1
    pub before : PacketQueue
    pub after : PacketQueue
    pub was : get_elem? d.queues stream ≡ some before
    pub is : get_elem? d'.queues stream ≡ some after
    pub front : before.list ≡ p ∷ after.list
    pub parser : d'.parser ≡ d.parser

  deliver-Takes :
      (stream : ℕ) (d : Demuxer State) (q : PacketQueue) (p : DataPacket) (ps : List DataPacket)
      → stream < stream_count
      → IsValid P d
      → get_elem? d.queues stream ≡ some q
      → q.list ≡ p ∷ ps
      → (d' : Demuxer State) × (deliver P stream d ≡ some (delivered p d')) × Takes stream d p d'
  unfolding deliver
  deliver-Takes stream d q p ps h v e l =
      let of = Queues-get stream 0 stream d.queues q (omega arith) v.routed e in
      let mine = subst (AllOf stream) l of.routed in
      let on = enabled_of_cons q p ps of l in
      let (q', popped, rest, _, _, counted) = pop-IsCounted q p ps on of.counted l in
      let of' : IsQueueOf stream q' = record {
        counted = counted;
        routed = subst (AllOf stream) (sym rest) mine.1;
      } in
      (
        record d { queues = set d.queues stream q'; processed_count = d.processed_count + 1 },
        rw (e, deliver) (rw (popped, deliver)),
        record {
          valid = record {
            shape = length-set d.queues stream q' ∙ v.shape;
            routed = Queues-set stream 0 stream d.queues q' (omega arith) v.routed of';
          };
          own = mine.0;
          counted = refl;
          before = q;
          after = q';
          was = e;
          is = get_elem?-set_self d.queues stream q' (rw v.shape h);
          front = l ∙ ap (λ xs. p ∷ xs) (sym rest);
          parser = refl;
        },
      )

  -- Where a packet may come from: from the queues as they are, or, if that of the stream is empty,
  -- from the queues after `fill_queue(false)`.
  abbrev pub IsFilled : ℕ → Demuxer State → Demuxer State → Type 0
  IsFilled stream d d' =
      (d' ≡ d)
      ⊎ ((q : PacketQueue) × (get_elem? d.queues stream ≡ some q)
          × (q.list ≡ [])
          × (b : Bool) × (fill_queue P false d ≡ some (b, d')))

  abbrev pub IsDry : Demuxer State → PacketQueue → Type 0
  IsDry d q =
      (d.eof_is_reached ≡ true)
      ⊎ ((any_queue is_full d.queues ≡ true) ⊎ ((q.enabled ≡ false) ⊎ (q.can_be_empty ≡ true)))

  abbrev pub Answers : ℕ → Demuxer State → Reply (Demuxer State) → Type 0
  Answers stream d raised = stream_count ≤ stream
  Answers stream d (delivered p d') =
      (filled : Demuxer State) × IsFilled stream d filled × Takes stream filled p d'
  Answers stream d (nothing d') =
      IsFilled stream d d'
      × IsValid P d'
      × (q : PacketQueue) × (get_elem? d'.queues stream ≡ some q)
      × (q.list ≡ [])
      × IsDry d' q

  deliver-Answers :
      (stream : ℕ) (d filled : Demuxer State)
      → stream < stream_count
      → IsFilled stream d filled
      → IsValid P filled
      → ((q : PacketQueue) → get_elem? filled.queues stream ≡ some q → q.list ≡ [] → IsDry filled q)
      → Ensures (Answers stream d) (deliver P stream filled)
  unfolding deliver
  deliver-Answers stream d filled h from v dry =
      let (q, e) = get_elem?-total stream filled.queues (rw v.shape h) in
      elim (List-cases q.list) [
        | inl l ↦ rw (e, deliver) (rw (pop-nil q l, deliver) (from, v, q, e, l, dry q e l))
        | inr (p, ps, l) ↦
            let (d', done, takes) = deliver-Takes stream filled q p ps h v e l in
            rw done (filled, from, takes)
      ]

  -- At a valid demuxer `read` always returns. It raises exactly at a stream that is not there. A packet
  -- that it delivers is of that stream and was the first of its queue, which loses nothing else;
  -- the queues are those before the call or, if the queue was empty, those after filling. It delivers
  -- nothing only if the queue is empty after filling, and then the file is at its end, or some queue
  -- is full, or the stream is disabled or is one that may be empty.
  pub read-Answers :
      (stream : ℕ) (d : Demuxer State) → IsValid P d → Ensures (Answers stream d) (read P stream d)
  unfolding read
  read-Answers stream d v = elim (Bool-cases (leb stream_count stream)) [
    | inl out ↦ rw out (ground arith)
    | inr within ↦
        let h : stream < stream_count = ground arith in
        let (q, e) = get_elem?-total stream d.queues (rw v.shape h) in
        rw (within, e, read)
          (elim (List-cases q.list) [
            | inr (p, ps, l) ↦
                rw (size-cons q p ps l)
                  (deliver-Answers stream d d h (inl refl) v (λ q' e' l'. cc (l, l', e, e')))
            | inl l ↦
                let ((b, d'), f, fills) =
                  Option-view (FillsFrom P false d) _ (fill_queue-Fills P false d v) in
                rw (size-nil q l) (
                  rw (f, read)
                    (deliver-Answers stream d d' h (inr (q, e, l, b, f)) fills.valid (λ q' e' l'.
                      elim fills.settled [
                        | inl ended ↦ inl ended
                        | inr (inl full) ↦ inr (inl full)
                        | inr (inr fed) ↦ inr (inr (dry_of_supplied stream d'.queues q' e' fed l'))
                      ])))
          ])
  ]
