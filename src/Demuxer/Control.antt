-- ===== src/Demuxer/Control.antt =====
-- The constructor, `enable_stream` and `release_internal_data` of the demuxer.
use seekira.Common.{
  ℕ, zero, suc, ◌+◌, ◌<◌, ◌≡◌, refl, ◌∙◌, Bool, false, some, arith, length, length-set, get_elem?,
  get_elem?-set_self, get_elem?-set_ne, ◌≢◌, set, leb, ap, sym,
}
use mathlib.Core.Option.{some-injective}
use seekira.Queue.{PacketQueue, reset, set_enabled}
use seekira.Parser.{Parser}
use seekira.Demuxer.{Demuxer, make_queues, make_demuxer, enable_stream, release_internal_data}
use seekira.Demuxer.Route.{
  IsQueueOf, Queues, Queues-get, Queues-set, make_queue-IsQueueOf, set_enabled-IsQueueOf,
  reset-IsQueueOf,
}
use seekira.Demuxer.Reading.{Ensures, IsValid, get_elem?-total}

module _ (P : Parser) where
  open P use {State, stream_count}

  make_queues-Queues : (j n : ℕ) → Queues j (make_queues P j n)
  unfolding make_queues
  make_queues-Queues j zero = tt
  make_queues-Queues j (suc n) = (make_queue-IsQueueOf j _, make_queues-Queues (j + 1) n)

  length-make_queues : (j n : ℕ) → length (make_queues P j n) ≡ n
  unfolding make_queues
  length-make_queues j zero = refl
  length-make_queues j (suc n) = ap suc (length-make_queues (j + 1) n)

  pub make_demuxer-IsValid : (s : State) → IsValid P (make_demuxer P s)
  unfolding make_demuxer
  make_demuxer-IsValid s = record {
    shape = length-make_queues 0 stream_count;
    routed = make_queues-Queues 0 stream_count;
  }

  -- Only the queue of one stream has changed: it is `q'`.
  abbrev pub Sets : ℕ → Demuxer State → (PacketQueue → PacketQueue) → Demuxer State → Type 0
  Sets stream d f d' =
      IsValid P d'
      × (d'.parser ≡ d.parser)
      × (d'.eof_is_reached ≡ d.eof_is_reached)
      × ((q : PacketQueue)
          → get_elem? d.queues stream ≡ some q
          → get_elem? d'.queues stream ≡ some (f q))
      × ((i : ℕ) → stream ≢ i → get_elem? d'.queues i ≡ get_elem? d.queues i)

  set-Sets :
      (stream : ℕ) (d : Demuxer State) (f : PacketQueue → PacketQueue) (q : PacketQueue)
      → stream < stream_count
      → IsValid P d
      → get_elem? d.queues stream ≡ some q
      → IsQueueOf stream (f q)
      → Sets stream d f (record d { queues = set d.queues stream (f q) })
  set-Sets stream d f q h v e ok = (
    record {
      shape = length-set d.queues stream (f q) ∙ v.shape;
      routed = Queues-set stream 0 stream d.queues (f q) (omega arith) v.routed ok;
    },
    refl,
    refl,
    (λ x g.
        get_elem?-set_self d.queues stream (f q) (rw v.shape h)
        ∙ ap (λ y. some (f y)) (some-injective q x (sym e ∙ g))),
    λ i ne. get_elem?-set_ne d.queues (f q) ne,
  )

  queue_of :
      (stream : ℕ) (d : Demuxer State)
      → stream < stream_count
      → IsValid P d
      → (q : PacketQueue) × (get_elem? d.queues stream ≡ some q) × IsQueueOf stream q
  queue_of stream d h v =
      let (q, e) = get_elem?-total stream d.queues (rw v.shape h) in
      (q, e, Queues-get stream 0 stream d.queues q (omega arith) v.routed e)

  -- A stream that is there is switched: its queue is emptied if it is disabled, no other queue and
  -- neither the parser nor the end of the file is touched, and the demuxer stays valid.
  pub enable_stream-Sets :
      (stream : ℕ) (value : Bool) (d : Demuxer State)
      → stream < stream_count
      → IsValid P d
      → Ensures (Sets stream d (λ q. set_enabled q value)) (enable_stream P stream value d)
  unfolding enable_stream
  enable_stream-Sets stream value d h v =
      let (q, e, ok) = queue_of stream d h v in
      rw (e, enable_stream)
        (rw (within stream h) (
          set-Sets stream d (λ x. set_enabled x value) q h v e
            (set_enabled-IsQueueOf stream q value ok)))
    where
      within : (i : ℕ) → i < stream_count → leb stream_count i ≡ false
      within i l = ground arith

  -- The packets of one stream are thrown away, and nothing else changes.
  pub release_internal_data-Sets :
      (stream : ℕ) (d : Demuxer State)
      → stream < stream_count
      → IsValid P d
      → Ensures (Sets stream d reset) (release_internal_data P stream d)
  unfolding release_internal_data
  release_internal_data-Sets stream d h v =
      let (q, e, ok) = queue_of stream d h v in
      rw (e, release_internal_data) (set-Sets stream d reset q h v e (reset-IsQueueOf stream q))
