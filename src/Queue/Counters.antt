-- ===== src/Queue/Counters.antt =====
-- The counters of a packet queue agree with its list.
use seekira.Common.{
  ℕ, ◌+◌, ◌-◌, ◌≡◌, refl, ap, ◌∙◌, Bool, true, false, some, List, [], ◌∷◌, ◌++◌, arith,
}
use seekira.Packet.{DataPacket, MediaType, is_key_frame}
use seekira.Queue.{PacketQueue, to_int, make_queue, push, pop, reset, set_enabled, take_front}

pub total_size : List DataPacket → ℕ
total_size [] = 0
total_size (p ∷ ps) = p.size + total_size ps

unfoldable pub keys : List DataPacket → ℕ
keys [] = 0
keys (p ∷ ps) = to_int (is_key_frame p) + keys ps

-- The counters are those of the list, and a disabled queue holds nothing.
pub record IsCounted (q : PacketQueue) : Type 0 where
  pub sizes : q.current_size ≡ total_size q.list
  pub key_frames : q.key_count ≡ keys q.list
  pub idle : q.enabled ≡ false → q.list ≡ []

pub total_size-append :
    (xs ys : List DataPacket) → total_size (xs ++ ys) ≡ total_size xs + total_size ys
unfolding total_size
total_size-append [] ys = omega arith
total_size-append (x ∷ xs) ys = omega (arith, total_size-append xs ys)

pub keys-append : (xs ys : List DataPacket) → keys (xs ++ ys) ≡ keys xs + keys ys
unfolding keys
keys-append [] ys = omega arith
keys-append (x ∷ xs) ys = omega (arith, keys-append xs ys)

pub make_queue-IsCounted : (t : MediaType) → IsCounted (make_queue t)
unfolding make_queue total_size keys
make_queue-IsCounted t = record { sizes = refl; key_frames = refl; idle = λ _. refl }

pub push-IsCounted :
    (q : PacketQueue) (p : DataPacket) → q.enabled ≡ true → IsCounted q → IsCounted (push q p)
unfolding push total_size keys
push-IsCounted q p on v = record {
  sizes = ground (arith, v.sizes, total_size-append q.list (p ∷ []));
  key_frames = ground (arith, v.key_frames, keys-append q.list (p ∷ []));
  idle = λ off. ground arith;
}

pub reset-IsCounted : (q : PacketQueue) → IsCounted (reset q)
unfolding reset total_size keys
reset-IsCounted q = record { sizes = refl; key_frames = refl; idle = λ _. refl }

pub set_enabled-IsCounted :
    (q : PacketQueue) (value : Bool) → IsCounted q → IsCounted (set_enabled q value)
unfolding set_enabled total_size keys
set_enabled-IsCounted q true v = record {
  sizes = v.sizes;
  key_frames = v.key_frames;
  idle = λ off. ground arith;
}
set_enabled-IsCounted q false v = record { sizes = refl; key_frames = refl; idle = λ _. refl }

-- `pop` takes the first packet, keeps the counters right, and never takes more from a counter than it
-- holds.
pub pop-IsCounted :
    (q : PacketQueue) (p : DataPacket) (ps : List DataPacket)
    → q.enabled ≡ true
    → IsCounted q
    → q.list ≡ p ∷ ps
    → (q' : PacketQueue) × (pop q ≡ some (p, q'))
      × (q'.list ≡ ps)
      × (q'.current_size + p.size ≡ q.current_size)
      × (q'.key_count + to_int (is_key_frame p) ≡ q.key_count)
      × IsCounted q'
unfolding pop take_front total_size keys
pop-IsCounted q p ps on v e = (
  record q {
    list = ps;
    current_size = q.current_size - p.size;
    key_count = q.key_count - to_int (is_key_frame p);
  },
  rw (e, take_front),
  refl,
  omega (arith, sizes),
  omega (arith, key_frames),
  record {
    sizes = omega (arith, sizes);
    key_frames = omega (arith, key_frames);
    idle = λ off. ground arith;
  },
)
  where
    sizes : q.current_size ≡ p.size + total_size ps
    sizes = v.sizes ∙ ap total_size e

    key_frames : q.key_count ≡ to_int (is_key_frame p) + keys ps
    key_frames = v.key_frames ∙ ap keys e
