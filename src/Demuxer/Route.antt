-- ===== src/Demuxer/Route.antt =====
-- Which packets stand in which queue, and that the counters of every queue are right.
use mathlib.Core.Path.{subst₂}
use mathlib.Core.Option.{some-injective}
use seekira.Common.{
  ℕ, zero, suc, ◌+◌, ◌≡◌, subst, Bool, true, false, map, some, List, [], ◌∷◌, ◌++◌, arith,
  get_elem?, set, Bool-cases, inl, inr,
}
use seekira.Common.Int.{ℤ}
use seekira.Packet.{DataPacket, MediaType}
use seekira.Queue.{PacketQueue, push, reset, make_queue, set_enabled}
use seekira.Queue.Counters.{
  IsCounted, push-IsCounted, reset-IsCounted, make_queue-IsCounted, set_enabled-IsCounted,
}
use seekira.Demuxer.{store, drops_older}

-- Every packet of the list is of stream `i`.
abbrev pub AllOf : ℕ → List DataPacket → Type 0
AllOf i [] = Unit {0}
AllOf i (p ∷ ps) = (p.stream_index ≡ i) × AllOf i ps

pub record IsQueueOf (i : ℕ) (q : PacketQueue) : Type 0 where
  pub counted : IsCounted q
  pub routed : AllOf i q.list

-- Queue number `i` of the list is that of stream `j + i`.
abbrev pub Queues : ℕ → List PacketQueue → Type 0
Queues j [] = Unit {0}
Queues j (q ∷ qs) = IsQueueOf j q × Queues (j + 1) qs

pub Queues-get :
    (i j k : ℕ) (qs : List PacketQueue) (q : PacketQueue)
    → j + i ≡ k
    → Queues j qs
    → get_elem? qs i ≡ some q
    → IsQueueOf k q
Queues-get i j k [] q s v e = ground arith
Queues-get zero j k (x ∷ qs) q s v e = subst₂ IsQueueOf (omega arith) (some-injective x q e) v.0
Queues-get (suc i) j k (x ∷ qs) q s v e = Queues-get i (j + 1) k qs q (omega arith) v.1 e

pub Queues-set :
    (i j k : ℕ) (qs : List PacketQueue) (q : PacketQueue)
    → j + i ≡ k
    → Queues j qs
    → IsQueueOf k q
    → Queues j (set qs i q)
Queues-set i j k [] q s v h = tt
Queues-set zero j k (x ∷ qs) q s v h = (subst (λ m. IsQueueOf m q) (omega arith) h, v.1)
Queues-set (suc i) j k (x ∷ qs) q s v h = (v.0, Queues-set i (j + 1) k qs q (omega arith) v.1 h)

AllOf-append :
    (i : ℕ) (ps : List DataPacket) (p : DataPacket)
    → AllOf i ps
    → p.stream_index ≡ i
    → AllOf i (ps ++ p ∷ [])
AllOf-append i [] p h e = (e, tt)
AllOf-append i (x ∷ ps) p h e = (h.0, AllOf-append i ps p h.1 e)

pub reset-IsQueueOf : (i : ℕ) (q : PacketQueue) → IsQueueOf i (reset q)
unfolding reset
reset-IsQueueOf i q = record { counted = reset-IsCounted q; routed = tt }

pub push-IsQueueOf :
    (i : ℕ) (q : PacketQueue) (p : DataPacket)
    → q.enabled ≡ true
    → p.stream_index ≡ i
    → IsQueueOf i q
    → IsQueueOf i (push q p)
unfolding push
push-IsQueueOf i q p on e v = record {
  counted = push-IsCounted q p on v.counted;
  routed = AllOf-append i q.list p v.routed e;
}

pub store-IsQueueOf :
    (t : ℤ) (i : ℕ) (q : PacketQueue) (p : DataPacket)
    → q.enabled ≡ true
    → p.stream_index ≡ i
    → IsQueueOf i q
    → IsQueueOf i (store t q p)
unfolding store
store-IsQueueOf t i q p on e v = elim (Bool-cases (drops_older t p)) [
  | inl old ↦ rw old (push-IsQueueOf i (reset q) p (unfold reset in on) e (reset-IsQueueOf i q))
  | inr new ↦ rw new (push-IsQueueOf i q p on e v)
]

pub set_enabled-IsQueueOf :
    (i : ℕ) (q : PacketQueue) (value : Bool) → IsQueueOf i q → IsQueueOf i (set_enabled q value)
unfolding set_enabled
set_enabled-IsQueueOf i q true v = record {
  counted = set_enabled-IsCounted q true v.counted;
  routed = v.routed;
}
set_enabled-IsQueueOf i q false v = record {
  counted = set_enabled-IsCounted q false v.counted;
  routed = tt;
}

pub Queues-reset : (j : ℕ) (qs : List PacketQueue) → Queues j (map reset qs)
Queues-reset j [] = tt
Queues-reset j (q ∷ qs) = (reset-IsQueueOf j q, Queues-reset (j + 1) qs)

pub make_queue-IsQueueOf : (i : ℕ) (t : MediaType) → IsQueueOf i (make_queue t)
unfolding make_queue
make_queue-IsQueueOf i t = record { counted = make_queue-IsCounted t; routed = tt }
