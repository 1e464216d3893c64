-- ===== src/Demuxer/Seek.antt =====
-- `DemuxerQueue::seek` and `seek_internal` of src/video/ffmpeg/decoding/demuxer_queue.cpp. `none` is a
-- loop out of fuel, as in `Demuxer`; an exception is a result.
pub mod Ends
pub mod Result
use seekira.Common.{
  ℕ, zero, suc, ◌+◌, ◌-◌, ◌*◌, Bool, true, false, not, ◌&&◌, ◌||◌, Option, none, some, List, [],
  ◌∷◌, replicate, ltb, ◌==◌, nat_eq, if◌then◌else◌,
}
use seekira.Common.Int.{ℤ, pos, negsuc, leb_ℤ, ltb_ℤ, max_ℤ, int_eq}
use seekira.Packet.{MediaType, no_pts, av_second}
use seekira.Parser.{Parser, moved, failed}
use seekira.Queue.{PacketQueue, is_av, position}
use seekira.Demuxer.{Demuxer, reset_queue, fill_queue, check_streams_position}

-- The locals of `seek_internal` that live through its loop; `best_index == UINT32_MAX` is `none`.
pub record SeekScan : Type 0 where
  pub seek_positions : List ℤ
  pub best_index : Option ℕ
  pub last_index : ℕ

-- What one stream says about `seek_is_better`.
unfoldable pub is_not_worse : ℤ → PacketQueue → Bool
is_not_worse seen q =
    if q.enabled
    then if not (seen == no_pts)
      then if not (position q == no_pts) then not (ltb_ℤ seen (position q)) else false
      else true
    else true

unfoldable pub seek_is_better : List ℤ → List PacketQueue → Bool
seek_is_better [] qs = true
seek_is_better (seen ∷ ps) [] = true
seek_is_better (seen ∷ ps) (q ∷ qs) = is_not_worse seen q && seek_is_better ps qs

-- The better positions are kept.
unfoldable pub update_positions : List ℤ → List PacketQueue → List ℤ
update_positions [] qs = []
update_positions (seen ∷ ps) [] = seen ∷ ps
update_positions (seen ∷ ps) (q ∷ qs) =
    (if q.enabled then position q else seen) ∷ update_positions ps qs

-- What an enabled stream says about `seek_is_done`.
unfoldable pub is_at : ℤ → MediaType → PacketQueue → Bool
is_at t type q =
    if q.enabled && is_av type
    then if not (position q == no_pts) then leb_ℤ (position q) t else false
    else true

-- What a round of the loop over the streams comes to: the seek is done, or the loop goes on.
pub data Round (S : Type 0) : Type 0 where
  done : S → Round S
  go_on : SeekScan → S → Round S

-- `seek_internal` and `seek` return, or they raise.
pub data Sought (A S : Type 0) : Type 0 where
  returned : A → S → Sought A S
  raised : S → Sought A S

or_index : Option ℕ → ℕ → ℕ
or_index none i = i
or_index (some b) i = b

module _ (P : Parser) where
  open P use {State, stream_count, stream_type, seek_stream, seek as parser_seek}

  unfoldable pub seek_is_done : ℤ → ℕ → List PacketQueue → Bool
  seek_is_done t i [] = true
  seek_is_done t i (q ∷ qs) = is_at t (stream_type i) q && seek_is_done t (i + 1) qs

  -- The end of a round: are the positions better than before, and good enough?
  judge : ℕ → SeekScan → Demuxer State → Round (Demuxer State)
  judge idx scan d =
      if seek_is_better scan.seek_positions d.queues
      then if seek_is_done d.seek_time 0 d.queues
        then done d
        else go_on
            (record scan {
              seek_positions = update_positions scan.seek_positions d.queues;
              best_index = some idx;
            })
            d
      else go_on scan d

  -- After the parser has moved: fill quickly, look at the positions, and if they are good fill until
  -- there are two key frames.
  probe : ℕ → SeekScan → Demuxer State → Option (Round (Demuxer State))
  unfolding judge
  probe idx scan d = elim (fill_queue P false d) [
    | none ↦ none
    | some (_, d') ↦ elim (check_streams_position d'.seek_time d'.queues) [
      | false ↦ some (judge idx scan d')
      | true ↦ elim (fill_queue P true d') [
        | none ↦ none
        | some (_, d'') ↦ some (judge idx scan d'')
      ]
    ]
  ]

  -- One round of the loop over the streams. An exception of the parser goes on with the next stream.
  unfoldable pub seek_round : ℤ → ℕ → SeekScan → Demuxer State → Option (Round (Demuxer State))
  unfolding probe or_index
  seek_round time idx scan d = elim (is_av (stream_type idx)) [
    | false ↦ some (go_on scan d)
    | true ↦
        let d' = reset_queue P d in
        let scan' = record scan {
          last_index = idx;
          best_index = some (or_index scan.best_index idx);
        } in
        elim (parser_seek idx time d'.parser) [
          | failed s ↦ some (go_on scan' (record d' { parser = s }))
          | moved s ↦ probe idx scan' (record d' { parser = s })
        ]
  ]

  -- for (idx = idx_start; idx < idx_stop; idx++): the first argument is `idx_stop - idx`.
  unfoldable pub seek_streams :
      ℕ → ℤ → ℕ → SeekScan → Demuxer State → Option (Round (Demuxer State))
  unfolding seek_round
  seek_streams zero time idx scan d = some (go_on scan d)
  seek_streams (suc n) time idx scan d = elim (seek_round time idx scan d) [
    | none ↦ none
    | some (done d') ↦ some (done d')
    | some (go_on scan' d') ↦ seek_streams n time (idx + 1) scan' d'
  ]

  -- "Making a seek using best index".
  seek_best : ℕ → ℤ → Demuxer State → Option (Sought Bool (Demuxer State))
  seek_best best time d =
      let d' = reset_queue P d in
      elim (parser_seek best time d'.parser) [
        | failed s ↦ some (raised (record d' { parser = s }))
        | moved s ↦ elim (fill_queue P true (record d' { parser = s })) [
          | none ↦ none
          | some (_, d'') ↦ some (returned true d'')
        ]
      ]

  -- After the loop over the streams.
  finish : ℕ → Round (Demuxer State) → Option (Sought Bool (Demuxer State))
  unfolding seek_best
  finish time (done d) = some (returned true d)
  finish time (go_on scan d) = elim scan.best_index [
    | none ↦ some (raised d)
    | some best ↦ elim (time == 0) [
      | false ↦ some (returned false d)
      | true ↦ elim (best == scan.last_index) [
        | true ↦ some (returned true d)
        | false ↦ seek_best best (pos time) d
      ]
    ]
  ]

  -- Called with `time >= 0` only.
  unfoldable pub seek_internal : ℕ → Demuxer State → Option (Sought Bool (Demuxer State))
  unfolding seek_streams finish
  seek_internal time d =
      let scan : SeekScan = record {
        seek_positions = replicate stream_count no_pts;
        best_index = none;
        last_index = 0;
      } in
      let first = if ltb 0 time then seek_stream else 0 in
      let count = if ltb 0 time then 1 else stream_count in
      elim (seek_streams count (pos time) first scan d) [ none ↦ none | some r ↦ finish time r ]

  -- The loop of `seek`: each try goes back further, by twice the step.
  unfoldable pub seek_loop : ℕ → ℕ → ℕ → Demuxer State → Option (Sought ℤ (Demuxer State))
  unfolding seek_internal
  seek_loop zero time step d = none
  seek_loop (suc fuel) time step d = elim (seek_internal time d) [
    | none ↦ none
    | some (raised d') ↦ some (raised d')
    | some (returned res d') ↦ elim (res || time == 0) [
      | true ↦ some (returned (pos time) d')
      | false ↦ seek_loop fuel (if ltb time step then 0 else time - step) (step * 2) d'
    ]
  ]

  seek_from : ℤ → Demuxer State → Option (Sought ℤ (Demuxer State))
  unfolding seek_loop
  seek_from (pos time) d = seek_loop 65 time (av_second * 4) d
  seek_from (negsuc n) d = some (returned (negsuc n) d)

  -- The step doubles, so for a time below 2 ^ 63 no more than 65 tries are made. A negative time is
  -- returned as it is, with the parser where it was.
  unfoldable pub seek : ℤ → Demuxer State → Option (Sought ℤ (Demuxer State))
  unfolding seek_from
  seek time d = seek_from time (record d { seek_time = max_ℤ (pos 0) time })
