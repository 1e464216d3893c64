-- ===== src/Stream/Seeking.antt =====
-- The seek of a stream (`request_seek`, `do_seek` of stream.cpp), through the reader that it shares with the
-- other streams: its checkers are the streams' places in a list.
use seekira.Common.{
  ℕ, ◌≡◌, Bool, true, not, Option, none, some, List, get_elem?, nat_eq, set, length, if◌then◌else◌,
}
use seekira.Common.Int.{ℤ}
use seekira.Demuxer.Seek.{Sought, returned, raised}
use seekira.StreamReader.{StreamInfo, SeekEnd, request_seek, seek}
use seekira.StreamReader.Seeking.{Outcome}
use seekira.Source.{Source}
use seekira.Stream.{DemuxedStream, prepare_seek, get_seek_result}

module _ (D : Source) (Image : Type 0) where
  open D use {State}

  abbrev Held : Type 0
  Held = List (DemuxedStream Image) × State

  -- What a call of the demuxer or of a stream leaves: `none` is undefined behaviour, after which nothing is said.
  abbrev After : Type 0
  After = Option Held

  -- `get_seek_result` of the stream at a place, and its answer where it stands among the others.
  unfoldable pub put_back :
      List (DemuxedStream Image) → ℕ → Sought Bool (DemuxedStream Image × State) → Sought Bool After
  put_back ss c (raised (s, d)) = raised (some (set ss c s, d))
  put_back ss c (returned b (s, d)) = returned b (some (set ss c s, d))

  unfoldable pub check_stream : ℕ → After → Sought Bool After
  unfolding put_back
  check_stream c none = raised none
  check_stream c (some (ss, d)) = elim (get_elem? ss c) [
    | none ↦ raised (some (ss, d))
    | some s ↦ elim (get_seek_result D s d) [ none ↦ raised none | some r ↦ put_back ss c r ]
  ]

  unfoldable pub seek_source : ℤ → After → Sought ℤ After
  seek_source t none = raised none
  seek_source t (some (ss, d)) = elim (D.seek t d) [
    | raised d' ↦ raised (some (ss, d'))
    | returned at d' ↦ returned at (some (ss, d'))
  ]

  -- The reader's view of its streams, and the streams.
  abbrev Shared : Type 0
  Shared = List (StreamInfo ℕ) × After

  -- Without a checker of its own: the reader is told of the stream. `none` is undefined behaviour: the stream's
  -- decoder, which is flushed, is used even where it is a null pointer.
  unfoldable pub ask_seek : ℤ → ℕ → List (StreamInfo ℕ) → Held → Option (Sought Unit Shared)
  unfolding prepare_seek
  ask_seek time id is (ss, d) = elim (get_elem? ss id) [
    | none ↦ none
    | some s ↦
        if not s.has_reader
        then some (raised (is, some (ss, d)))
        else if not s.has_decoder
        then none
        else elim (get_elem? is id) [
          | none ↦ some (raised (is, some (set ss id (prepare_seek time s), d)))
          | some i ↦ some (
              returned tt
                (set is id (request_seek time id i), some (set ss id (prepare_seek time s), d)))
        ]
  ]

  unfoldable pub drop_data : ℕ → List (DemuxedStream Image) → List (DemuxedStream Image)
  drop_data id ss = elim (get_elem? ss id) [
    | none ↦ ss
    | some s ↦ set ss id (record s { buffered_data = none })
  ]

  unfoldable pub drop_after : ℕ → After → After
  unfolding drop_data
  drop_after id none = none
  drop_after id (some (ss, d)) = some (drop_data id ss, d)

  unfoldable pub do_seek : ℕ → List (StreamInfo ℕ) → Held → Option (Sought SeekEnd Shared)
  unfolding drop_after
  do_seek id is (ss, d) = elim (get_elem? ss id) [
    | none ↦ some (raised (is, some (ss, d)))
    | some s ↦
        if not s.has_reader
        then some (raised (is, some (ss, d)))
        else elim (seek seek_source check_stream id is (some (ss, d))) [
          | none ↦ none
          | some (raised r) ↦ some (raised r)
          | some (returned e (is', w)) ↦ some (returned e (is', drop_after id w))
        ]
  ]

  -- Each stream has its reader.
  abbrev pub AllLinked : List (DemuxedStream Image) → Type 0
  AllLinked ss = (c : ℕ) (s : DemuxedStream Image) → get_elem? ss c ≡ some s → s.has_reader ≡ true

  -- What a seek keeps: there are `n` streams, each with its reader, and nothing undefined has been done.
  abbrev IsLinked : ℕ → After → Type 0
  IsLinked n none = ⊥
  IsLinked n (some (ss, d)) = (length ss ≡ n) × AllLinked ss

  IsOn : Sought Bool (DemuxedStream Image × State) → Type 0
  IsOn (raised (s, d)) = s.has_reader ≡ true
  IsOn (returned b (s, d)) = s.has_reader ≡ true

  abbrev pub SoughtOut : ℕ → List (StreamInfo ℕ) → ℕ → Sought SeekEnd Shared → Type 0
  SoughtOut id is n r = Outcome seek_source check_stream (IsLinked n) id is r

  -- Nothing undefined has been done, and there are as many streams as before, each with its reader. If the seek
  -- returns, then the reader's streams have come to what `Outcome` says, and after that the stream of the call,
  -- which is there, drops its decoded frame.
  abbrev pub Done : ℕ → List (StreamInfo ℕ) → ℕ → Sought SeekEnd Shared → Type 0
  Done id is n (raised (is', none)) = ⊥
  Done id is n (raised (is', some (ss', d'))) = (length ss' ≡ n) × AllLinked ss'
  Done id is n (returned e (is', none)) = ⊥
  Done id is n (returned e (is', some (ss', d'))) =
      (length ss' ≡ n)
      × AllLinked ss'
      × ((s : DemuxedStream Image) × (get_elem? ss' id ≡ some s) × (s.buffered_data ≡ none))
      × ((before : List (DemuxedStream Image)) × (ss' ≡ drop_data id before)
          × SoughtOut id is n (returned e (is', some (before, d'))))
