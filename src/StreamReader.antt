-- ===== src/StreamReader.antt =====
-- src/video/ffmpeg/decoding/stream_reader.cpp, the part on seeks. A checker is what must find its place
-- after a seek of the demuxer, in practice the stream itself; C is the type of its address. W is the
-- state of the demuxer and of the checkers, which `demuxer_seek` and `check` change. `raised` is an
-- exception, which leaves what was changed before it.
pub mod Terminates
pub mod Seeking
pub mod Requests
pub mod Streams
use seekira.Common.{
  ℕ, zero, suc, ◌+◌, ◌-◌, ◌*◌, Bool, true, false, not, ◌&&◌, ◌||◌, Option, none, some, List, [],
  ◌∷◌, get_elem?, set, map, length, ltb, leb, Eq, ◌==◌, nat_eq, if◌then◌else◌,
}
use seekira.Common.Int.{ℤ, pos, negsuc, pos_part, ltb_ℤ, int_eq}
use seekira.Packet.{no_pts, av_second}
use seekira.Demuxer.Seek.{Sought, returned, raised}

pub record StreamInfo (C : Type 0) : Type 0 where
  pub demuxed_stream : Option C
  pub seek_time : ℤ
  pub seek_already_done : Bool
  pub seek_result_checkers : List C

module _ {C : Type 0} where
  unfoldable pub is_stream_enabled : StreamInfo C → Bool
  is_stream_enabled i = elim i.demuxed_stream [ none ↦ false | some c ↦ true ]

  unfoldable pub reset_state_after_seek : StreamInfo C → StreamInfo C
  reset_state_after_seek i = record i { seek_time = no_pts; seek_result_checkers = [] }

  unfoldable pub reset_state_before_seek : StreamInfo C → StreamInfo C
  unfolding reset_state_after_seek
  reset_state_before_seek i = reset_state_after_seek (record i { seek_already_done = false })

  unfoldable pub make_info : StreamInfo C
  unfolding reset_state_before_seek
  make_info = reset_state_before_seek (record {
    demuxed_stream = none;
    seek_time = no_pts;
    seek_already_done = false;
    seek_result_checkers = [];
  })

  -- `none` is what throws.
  unfoldable pub set_stream : Option C → StreamInfo C → Option (StreamInfo C)
  unfolding is_stream_enabled
  set_stream (some c) i =
      if is_stream_enabled i then none else some (record i { demuxed_stream = some c })
  set_stream none i = if is_stream_enabled i then none else some i

  unfoldable pub get_active_stream_count : List (StreamInfo C) → ℕ
  unfolding is_stream_enabled
  get_active_stream_count [] = 0
  get_active_stream_count (i ∷ is) =
      let rest = get_active_stream_count is in if is_stream_enabled i then suc rest else rest

  -- The least time that the streams in use have asked for, if each of them has asked: the loop of
  -- `seek`, from what it has found so far.
  unfoldable pub find_seek_pos : ℤ → List (StreamInfo C) → Option ℤ
  unfolding is_stream_enabled
  find_seek_pos found [] = some found
  find_seek_pos found (i ∷ is) =
      let lower = find_seek_pos i.seek_time is in
      let same = find_seek_pos found is in
      if not (is_stream_enabled i)
      then same
      else if i.seek_time == no_pts
      then none
      else if found == no_pts || ltb_ℤ i.seek_time found
      then lower
      else same

module _ {C : Type 0} ⦃e : Eq C⦄ where
  unfoldable pub is_checker : C → List C → Bool
  is_checker c [] = false
  is_checker c (x ∷ xs) = if x == c then true else is_checker c xs

  unfoldable pub request_seek : ℤ → C → StreamInfo C → StreamInfo C
  unfolding is_stream_enabled is_checker
  request_seek time checker i = if not (is_stream_enabled i) then i else record i {
    seek_already_done = false;
    seek_result_checkers =
        if is_checker checker i.seek_result_checkers
        then i.seek_result_checkers
        else checker ∷ i.seek_result_checkers;
    seek_time = if ltb_ℤ time i.seek_time || i.seek_time == no_pts then time else i.seek_time;
  }

abbrev pub max_step : ℕ
max_step = 16 * av_second

abbrev pub max_time_shift : ℕ
max_time_shift = 60 * av_second

-- The time of the next try, and the shift after it.
unfoldable pub next_pos : ℕ → ℕ → ℕ → ℕ
next_pos start shift p = if leb shift p && ltb (start - p) max_time_shift then p - shift else 0

unfoldable pub next_shift : ℕ → ℕ → ℕ → ℕ
next_shift start shift p =
    if leb shift p && ltb (start - p) max_time_shift
    then (if ltb shift max_step then (if shift == 0 then av_second else shift * 2) else shift)
    else shift

module _ {C W : Type 0} (check : C → W → Sought Bool W) where
  -- `get_seek_result` of a stream, over its checkers.
  unfoldable pub check_all : ℤ → List C → W → Sought Bool W
  check_all time [] w = returned true w
  check_all time (c ∷ cs) w = elim (check c w) [
    | raised w' ↦ raised w'
    | returned ok w' ↦
        let rest = check_all time cs w' in
        if ok
        then rest
        else if ltb_ℤ (pos 0) time
        then returned false w'
        else elim rest [ raised w'' ↦ raised w'' | returned b w'' ↦ returned false w'' ]
  ]

  -- The loop over the streams. An exception leaves them as they are at that point.
  unfoldable pub check_streams : ℤ → List (StreamInfo C) → W → Sought Bool (List (StreamInfo C) × W)
  unfolding check_all
  check_streams time [] w = returned true ([], w)
  check_streams time (i ∷ is) w =
      let i' = record i { seek_already_done = true } in
      elim (check_all time i.seek_result_checkers w) [
        | raised w' ↦ raised (i' ∷ is, w')
        | returned ok w' ↦
            let rest = check_streams time is w' in
            if not ok && ltb_ℤ (pos 0) time then returned false (i' ∷ is, w') else elim rest [
              | raised (is', w'') ↦ raised (i' ∷ is', w'')
              | returned b (is', w'') ↦ returned (ok && b) (i' ∷ is', w'')
            ]
      ]

-- What `seek` has done when it returns: nothing, since another stream's call did it, or a loop with
-- its last result and position.
pub data SeekEnd : Type 0 where
  was_done : SeekEnd
  ended : Bool → ℤ → SeekEnd

module _ {C : Type 0} where
  -- After the loop: the requests are forgotten, and the stream of the call may seek again.
  unfoldable pub finish_seek : ℕ → List (StreamInfo C) → List (StreamInfo C)
  unfolding reset_state_before_seek reset_state_after_seek
  finish_seek id is =
      let all = map reset_state_after_seek is in
      elim (get_elem? all id) [ none ↦ all | some i ↦ set all id (reset_state_before_seek i) ]

-- The time that the demuxer has used, where it is lower than the one that was asked for.
unfoldable pub used_pos : ℤ → ℤ → ℤ
used_pos at p = if ltb_ℤ at p then at else p

-- After a try: the last result and position, or a position to go on from.
pub data SeekTry : Type 0 where
  stop_at : Bool → ℤ → SeekTry
  again_from : ℤ → SeekTry

module _ {C W : Type 0} (check : C → W → Sought Bool W) where
  unfoldable pub judge_checks :
      ℤ → List (StreamInfo C) → W → Sought SeekTry (List (StreamInfo C) × W)
  unfolding check_streams
  judge_checks p is w = elim (check_streams check p is w) [
    | raised s ↦ raised s
    | returned ok s ↦
        if ok
        then returned (stop_at true p) s
        else if p == pos 0
        then returned (stop_at false p) s
        else returned (again_from p) s
  ]

module _ {C W : Type 0} (demuxer_seek : ℤ → W → Sought ℤ W) (check : C → W → Sought Bool W) where
  unfoldable pub try_seek : ℕ → List (StreamInfo C) → W → Sought SeekTry (List (StreamInfo C) × W)
  unfolding judge_checks used_pos
  try_seek p is w = elim (demuxer_seek (pos p) w) [
    | raised w' ↦ raised (is, w')
    | returned at w' ↦ judge_checks check (used_pos at (pos p)) is w'
  ]

  -- The answer is the last result and the last position. No fuel is `none`.
  unfoldable pub seek_loop :
      ℕ → ℕ → ℕ → ℤ → List (StreamInfo C) × W → Option (Sought (Bool × ℤ) (List (StreamInfo C) × W))
  unfolding next_pos next_shift try_seek
  seek_loop zero start shift p s = none
  seek_loop (suc fuel) start shift (negsuc n) s = some (returned (false, negsuc n) s)
  seek_loop (suc fuel) start shift (pos n) (is, w) = elim (try_seek (next_pos start shift n) is w) [
    | raised s ↦ some (raised s)
    | returned (stop_at ok p) s ↦ some (returned (ok, p) s)
    | returned (again_from p) s ↦ seek_loop fuel start (next_shift start shift n) p s
  ]

  -- `try_lock` of the mutex succeeds, since there is one caller.
  unfoldable pub seek :
      ℕ → List (StreamInfo C) → W → Option (Sought SeekEnd (List (StreamInfo C) × W))
  unfolding is_stream_enabled find_seek_pos seek_loop finish_seek reset_state_before_seek
  seek id is w = elim (get_elem? is id) [
    | none ↦ some (raised (is, w))
    | some i ↦
        if not (is_stream_enabled i)
        then some (raised (is, w))
        else if i.seek_already_done
        then some (returned was_done (set is id (reset_state_before_seek i), w))
        else elim (find_seek_pos no_pts is) [
          | none ↦ some (raised (is, w))
          | some p ↦ elim (seek_loop 9 (pos_part p) 0 p (is, w)) [
            | none ↦ none
            | some (raised s) ↦ some (raised s)
            | some (returned (ok, q) (is', w')) ↦
                some (returned (ended ok q) (finish_seek id is', w'))
          ]
        ]
  ]
