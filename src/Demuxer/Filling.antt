-- ===== src/Demuxer/Filling.antt =====
-- `fill_queue`: it returns, and it stops filling only when there is nothing left to do.
use mathlib.Core.Option.{some-injective}
use seekira.Common.{
  ℕ, zero, suc, ◌+◌, ◌<◌, ◌≡◌, refl, ◌∙◌, ◌⊎◌, inl, inr, Bool, true, false, Option, none, some,
  List, [], ◌∷◌, arith, Bool-cases, ◌≤◌, subst, sym, ap, get_elem?, length,
}
use seekira.Parser.{Parser}
use seekira.Packet.{DataPacket}
use seekira.Queue.Counters.{IsCounted, keys}
use seekira.Demuxer.Route.{Queues}
use seekira.Queue.{PacketQueue, is_full, size}
use seekira.Demuxer.{
  Demuxer, any_queue, is_hungry, is_hungry_first, after_round, fill_loop, fill_queue,
}
use seekira.Demuxer.Reading.{Ensures, IsValid, Reads, ReadsFrom, read_packets_from_parser-Reads}

pub Option-view :
    {A : Type 0} (Q : A → Type 0) (o : Option A) → Ensures Q o → (a : A) × (o ≡ some a) × Q a
Option-view Q none h = absurd h
Option-view Q (some a) h = (a, refl, h)

is_hungry-of-first :
    (keys : Bool) (q : PacketQueue) → is_hungry_first keys q ≡ false → is_hungry keys q ≡ false
unfolding is_hungry is_hungry_first
is_hungry-of-first keys q h = ground arith

none_hungry :
    (keys : Bool) (qs : List PacketQueue)
    → any_queue (is_hungry_first keys) qs ≡ false
    → any_queue (is_hungry keys) qs ≡ false
unfolding any_queue
none_hungry keys [] h = refl
none_hungry keys (q ∷ qs) h = ground (arith, is_hungry-of-first keys q, none_hungry keys qs)

-- An enabled queue that must not be empty holds a packet, and two key frames where those are asked for.
pub record IsSupplied (by_keys : Bool) (q : PacketQueue) : Type 0 where
  pub holds : q.list ≡ [] → ⊥
  pub key_frames : by_keys ≡ true → 2 ≤ keys q.list

abbrev pub AllSupplied : Bool → List PacketQueue → Type 0
AllSupplied by_keys qs =
    (i : ℕ) (q : PacketQueue)
    → get_elem? qs i ≡ some q
    → q.enabled ≡ true
    → q.can_be_empty ≡ false
    → IsSupplied by_keys q

no_keys : (q : PacketQueue) → q.list ≡ [] → 2 ≤ keys q.list → ⊥
unfolding keys
no_keys q none_left two =
    let two' : 2 ≤ keys [] = subst (λ ps. 2 ≤ keys ps) none_left two in omega arith

not_hungry :
    (by_keys : Bool) (q : PacketQueue)
    → IsCounted q
    → q.enabled ≡ true
    → q.can_be_empty ≡ false
    → is_hungry by_keys q ≡ false
    → IsSupplied by_keys q
unfolding is_hungry size
not_hungry true q c on needed h =
    let enough : 2 ≤ keys q.list = ground (arith, c.key_frames) in
    record { holds = λ none_left. no_keys q none_left enough; key_frames = λ _. enough }
not_hungry false q c on needed h = record {
  holds = λ none_left. ground (arith, ap (λ (xs : List DataPacket). length xs) none_left);
  key_frames = λ e. cc;
}

all_supplied :
    (by_keys : Bool) (j : ℕ) (qs : List PacketQueue)
    → Queues j qs
    → any_queue (is_hungry by_keys) qs ≡ false
    → AllSupplied by_keys qs
unfolding any_queue
all_supplied by_keys j [] v h i q e on needed = cc
all_supplied by_keys j (x ∷ qs) v h zero q e on needed =
    subst (IsSupplied by_keys) (some-injective x q e) (
      not_hungry by_keys x v.0.counted
        (subst (λ (y : PacketQueue). y.enabled ≡ true) (sym (some-injective x q e)) on)
        (subst (λ (y : PacketQueue). y.can_be_empty ≡ false) (sym (some-injective x q e)) needed)
        (ground arith))
all_supplied by_keys j (x ∷ qs) v h (suc i) q e on needed =
    all_supplied by_keys (j + 1) qs v.1 (ground arith) i q e on needed

module _ (P : Parser) where
  open P use {State, remaining}

  -- Nothing is left to do: the file is at its end, a queue is full, or all queues have what they need.
  abbrev pub IsSettled : Bool → Demuxer State → Type 0
  IsSettled keys d =
      (d.eof_is_reached ≡ true)
      ⊎ ((any_queue is_full d.queues ≡ true) ⊎ (AllSupplied keys d.queues))

  pub record Fills (keys : Bool) (d : Demuxer State) (b : Bool) (d' : Demuxer State) : Type 0 where
    pub valid : IsValid P d'
    pub settled : IsSettled keys d'
    pub refused : b ≡ false → (d'.eof_is_reached ≡ true) ⊎ (any_queue is_full d'.queues ≡ true)
    pub seek_time : d'.seek_time ≡ d.seek_time
    pub processed : d'.processed_count ≡ d.processed_count

  abbrev pub FillsFrom : Bool → Demuxer State → Bool × Demuxer State → Type 0
  FillsFrom keys d (b, d') = Fills keys d b d'

  Fills-later :
      (keys : Bool) (d d1 : Demuxer State) (r : Option (Bool × Demuxer State))
      → d1.seek_time ≡ d.seek_time
      → d1.processed_count ≡ d.processed_count
      → Ensures (FillsFrom keys d1) r
      → Ensures (FillsFrom keys d) r
  Fills-later keys d d1 none e f h = h
  Fills-later keys d d1 (some (b, d')) e f h = record {
    valid = h.valid;
    settled = h.settled;
    refused = h.refused;
    seek_time = h.seek_time ∙ e;
    processed = h.processed ∙ f;
  }

  -- What the loop must keep at each of its tests, with `fuel` rounds left.
  record Ready (fuel : ℕ) (keys need full : Bool) (d : Demuxer State) : Type 0 where
    enough : (remaining d.parser + 1 < fuel) ⊎ ((need ≡ false) × (0 < fuel))
    valid : IsValid P d
    fed : need ≡ false → IsSettled keys d
    stuffed : full ≡ true → any_queue is_full d.queues ≡ true

  after_round-Fills :
      (fuel : ℕ) (keys : Bool) (d : Demuxer State)
      (again : Bool → Bool → Demuxer State → Option (Bool × Demuxer State))
      → ((need full : Bool) (d1 : Demuxer State)
          → Ready fuel keys need full d1
          → Ensures (FillsFrom keys d1) (again need full d1))
      → (b : Bool) (d' : Demuxer State) → remaining d.parser + 1 < suc fuel
      → Reads P 16 d b d'
      → Ensures (FillsFrom keys d) (after_round P again keys (b, d'))
  unfolding after_round
  after_round-Fills fuel keys d again ih true d' h r =
      Fills-later keys d d' _ r.seek_time r.processed (
        ih _ _ d' (record {
          enough = inl (omega (arith, (r.took refl).0));
          valid = r.valid;
          fed = λ e. inr (inr (all_supplied keys 0 d'.queues r.valid.routed e));
          stuffed = λ e. e;
        }))
  after_round-Fills fuel keys d again ih false d' h r = elim (Bool-cases d'.eof_is_reached) [
    | inl ended ↦ simp ended (record {
      valid = r.valid;
      settled = inl ended;
      refused = λ _. inl ended;
      seek_time = r.seek_time;
      processed = r.processed;
    })
    | inr more ↦ simp more (
        Fills-later keys d d' _ r.seek_time r.processed (
          ih false false d' (record {
            enough = inr (refl, omega arith);
            valid = r.valid;
            fed = λ _. elim (r.stopped refl) [ inl e ↦ inl e | inr e ↦ inr (inl e) ];
            stuffed = λ e. cc;
          })))
  ]

  ended_by_test :
      (keys : Bool) (d : Demuxer State) → IsValid P d → IsSettled keys d → Fills keys d true d
  ended_by_test keys d v s = record {
    valid = v;
    settled = s;
    refused = λ e. cc;
    seek_time = refl;
    processed = refl;
  }

  fill_loop-Fills :
      (fuel : ℕ) (keys need full : Bool) (d : Demuxer State)
      → Ready fuel keys need full d
      → Ensures (FillsFrom keys d) (fill_loop P fuel keys need full d)
  unfolding fill_loop
  fill_loop-Fills zero keys need full d h = absurd (omega (arith, h.enough))
  fill_loop-Fills (suc fuel) keys false full d h = ended_by_test keys d h.valid (h.fed refl)
  fill_loop-Fills (suc fuel) keys true true d h =
      ended_by_test keys d h.valid (inr (inl (h.stuffed refl)))
  fill_loop-Fills (suc fuel) keys true false d h =
      let read = read_packets_from_parser-Reads P 16 d h.valid in
      let ((b, d'), e, r) = Option-view (ReadsFrom P 16 d) _ read in
      rw (e, fill_loop)
        (after_round-Fills fuel keys d (fill_loop P fuel keys) (fill_loop-Fills fuel keys) b d'
          (elim h.enough [ inl few ↦ few | inr stop ↦ cc stop.0 ]) r)

  -- At a valid demuxer `fill_queue` returns and keeps the demuxer valid, the time of the seek and the
  -- count of delivered packets. After it the file is at its end, or a queue is full, or every enabled queue
  -- that must not be empty holds a packet, and two key frames if `keys` asks for them; it answers false only
  -- in the first two cases.
  pub fill_queue-Fills :
      (keys : Bool) (d : Demuxer State)
      → IsValid P d
      → Ensures (FillsFrom keys d) (fill_queue P keys d)
  unfolding fill_queue
  fill_queue-Fills keys d v = elim (Bool-cases d.eof_is_reached) [
    | inl ended ↦ simp ended (refusal (inl ended) (inl ended))
    | inr more ↦ elim (Bool-cases (any_queue is_full d.queues)) [
      | inl full ↦ simp (more, full) (refusal (inr (inl full)) (inr full))
      | inr room ↦
          simp (more, room)
            (fill_loop-Fills (suc (suc (remaining d.parser))) keys _ false d (record {
              enough = inl (omega arith);
              valid = v;
              fed = λ e.
                  inr (inr (all_supplied keys 0 d.queues v.routed (none_hungry keys d.queues e)));
              stuffed = λ e. cc;
            }))
    ]
  ]
    where
      refusal :
          IsSettled keys d
          → (d.eof_is_reached ≡ true) ⊎ (any_queue is_full d.queues ≡ true)
          → Fills keys d false d
      refusal s r = record {
        valid = v;
        settled = s;
        refused = λ _. r;
        seek_time = refl;
        processed = refl;
      }
