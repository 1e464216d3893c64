-- ===== src/Demuxer/Reading.antt =====
-- `read_packets_from_parser`: it returns, it keeps every packet in the queue of its stream, and it
-- stops early only at the end of the file or at a full queue.
use seekira.Common.{
  ℕ, zero, suc, ◌+◌, ◌≤◌, ◌<◌, ◌≡◌, refl, ◌∙◌, ◌⊎◌, inl, inr, Bool, true, false, Option, none, some,
  List, [], ◌∷◌, arith, length, length-set, get_elem?, set, Bool-cases,
}
use seekira.Packet.{DataPacket}
use seekira.Parser.{Parser, ReadResult, packet, finished}
use seekira.Queue.{PacketQueue, reset, is_full}
use seekira.Demuxer.{Demuxer, store, any_queue, read_loop, read_packets_from_parser}
use seekira.Demuxer.Route.{
  IsQueueOf, Queues, Queues-get, Queues-set, reset-IsQueueOf, store-IsQueueOf,
}

abbrev pub Ensures : {A : Type 0} → (A → Type 0) → Option A → Type 0
Ensures Q none = ⊥
Ensures Q (some a) = Q a

pub ReadResult-cases :
    {S : Type 0} (r : ReadResult S)
    → ((p : DataPacket) × (s : S) × (r ≡ packet p s)) ⊎ ((s : S) × (r ≡ finished s))
ReadResult-cases (packet p s) = inl (p, s, refl)
ReadResult-cases (finished s) = inr (s, refl)

pub get_elem?-total :
    {A : Type 0} (i : ℕ) (xs : List A) → i < length xs → (x : A) × (get_elem? xs i ≡ some x)
get_elem?-total i [] h = absurd (omega arith)
get_elem?-total zero (x ∷ xs) h = (x, refl)
get_elem?-total (suc i) (x ∷ xs) h = get_elem?-total i xs (omega arith)

pub any_queue-set :
    (f : PacketQueue → Bool) (i : ℕ) (q x : PacketQueue) (qs : List PacketQueue)
    → get_elem? qs i ≡ some x
    → f q ≡ true
    → any_queue f (set qs i q) ≡ true
unfolding any_queue
any_queue-set f i q x [] e h = ground arith
any_queue-set f zero q x (y ∷ qs) e h = rw h
any_queue-set f (suc i) q x (y ∷ qs) e h = ground (arith, any_queue-set f i q x qs e h)

module _ (P : Parser) where
  open P use {State, stream_count, read as parser_read, remaining, read_shrinks, read_in_range}

  -- One queue for each stream; each holds packets of its stream only, with right counters.
  pub record IsValid (d : Demuxer State) : Type 0 where
    pub shape : length d.queues ≡ stream_count
    pub routed : Queues 0 d.queues

  pub record Reads (n : ℕ) (d : Demuxer State) (b : Bool) (d' : Demuxer State) : Type 0 where
    pub valid : IsValid d'
    pub took :
        b ≡ true
        → (remaining d'.parser + n ≤ remaining d.parser) × (d'.eof_is_reached ≡ d.eof_is_reached)
    pub stopped : b ≡ false → (d'.eof_is_reached ≡ true) ⊎ (any_queue is_full d'.queues ≡ true)
    pub seek_time : d'.seek_time ≡ d.seek_time
    pub processed : d'.processed_count ≡ d.processed_count

  abbrev pub ReadsFrom : ℕ → Demuxer State → Bool × Demuxer State → Type 0
  ReadsFrom n d (b, d') = Reads n d b d'

  Reads-later :
      (m n : ℕ) (d d1 : Demuxer State) (r : Option (Bool × Demuxer State))
      → remaining d1.parser + n ≤ remaining d.parser + m
      → d1.eof_is_reached ≡ d.eof_is_reached
      → d1.seek_time ≡ d.seek_time
      → d1.processed_count ≡ d.processed_count
      → Ensures (ReadsFrom m d1) r
      → Ensures (ReadsFrom n d) r
  Reads-later m n d d1 none h eof seek processed v = v
  Reads-later m n d d1 (some (b, d')) h eof seek processed v = record {
    valid = v.valid;
    took = λ e. (omega (arith, (v.took e).0), (v.took e).1 ∙ eof);
    stopped = v.stopped;
    seek_time = v.seek_time ∙ seek;
    processed = v.processed ∙ processed;
  }

  set-IsValid :
      (d : Demuxer State) (s : State) (i : ℕ) (q : PacketQueue)
      → IsValid d
      → IsQueueOf i q
      → IsValid (record d { parser = s; queues = set d.queues i q })
  set-IsValid d s i q v h = record {
    shape = length-set d.queues i q ∙ v.shape;
    routed = Queues-set i 0 i d.queues q (omega arith) v.routed h;
  }

  read_loop-Reads :
      (fuel n : ℕ) (d : Demuxer State)
      → remaining d.parser < fuel
      → IsValid d
      → Ensures (ReadsFrom n d) (read_loop P fuel n d)
  unfolding read_loop
  read_loop-Reads fuel zero d h v = record {
    valid = v;
    took = λ _. (omega arith, refl);
    stopped = λ e. cc;
    seek_time = refl;
    processed = refl;
  }
  read_loop-Reads zero (suc n) d h v = elim h [ ]
  read_loop-Reads (suc fuel) (suc n) d h v = elim (ReadResult-cases (parser_read d.parser)) [
    | inr (s, e) ↦
        rw (e, read_loop)
          (record {
            valid = record { shape = v.shape; routed = v.routed };
            took = λ f. cc;
            stopped = λ _. inl refl;
            seek_time = refl;
            processed = refl;
          })
    | inl (p, s, e) ↦
        let less = read_shrinks d.parser s p e in
        let i = p.stream_index in
        let (q, e') = get_elem?-total i d.queues (rw v.shape (read_in_range d.parser s p e)) in
        let q_of = Queues-get i 0 i d.queues q (omega arith) v.routed e' in
        rw (e, read_loop)
          (rw (e', read_loop)
            (elim (Bool-cases q.enabled) [
              | inr off ↦
                  rw (off, read_loop)
                    (Reads-later (suc n) (suc n) d
                      (record d { parser = s; queues = set d.queues i (reset q) }) _ (omega arith)
                      refl refl refl
                      (read_loop-Reads fuel (suc n) _ (omega arith)
                        (set-IsValid d s i (reset q) v (reset-IsQueueOf i q))))
              | inl on ↦
                  let q' = store d.seek_time q p in
                  let d' = record d { parser = s; queues = set d.queues i q' } in
                  let ok =
                    set-IsValid d s i q' v (store-IsQueueOf d.seek_time i q p on refl q_of) in
                  rw (on, read_loop)
                    (elim (Bool-cases (is_full q')) [
                      | inl full ↦
                          rw (full, read_loop)
                            (record {
                              valid = ok;
                              took = λ f. cc;
                              stopped = λ _. inr (any_queue-set is_full i q' q d.queues e' full);
                              seek_time = refl;
                              processed = refl;
                            })
                      | inr room ↦
                          rw (room, read_loop)
                            (Reads-later n (suc n) d d' _ (omega arith) refl refl refl
                              (read_loop-Reads fuel n d' (omega arith) ok))
                    ])
            ]))
  ]

  -- At a valid demuxer `read_packets_from_parser` returns and keeps the demuxer valid: every queue
  -- holds packets of its own stream only, with right counters. True means that the parser gave `n`
  -- packets at least; false, that the end of the file is reached or a queue is full.
  pub read_packets_from_parser-Reads :
      (n : ℕ) (d : Demuxer State)
      → IsValid d
      → Ensures (ReadsFrom n d) (read_packets_from_parser P n d)
  unfolding read_packets_from_parser
  read_packets_from_parser-Reads n d v = elim (Bool-cases d.eof_is_reached) [
    | inl ended ↦ simp ended (record {
      valid = v;
      took = λ f. cc;
      stopped = λ _. inl ended;
      seek_time = refl;
      processed = refl;
    })
    | inr open_file ↦
        simp open_file (read_loop-Reads (suc (remaining d.parser)) n d (omega arith) v)
  ]
