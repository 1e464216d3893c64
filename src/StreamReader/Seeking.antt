-- ===== src/StreamReader/Seeking.antt =====
-- When the loop of `seek` ends, and what `seek` leaves behind.
use seekira.Common.{
  ℕ, ◌+◌, ◌≤◌, ◌<◌, ◌≡◌, ◌⊎◌, Bool, true, false, some, List, [], get_elem?, nat_eq,
}
use seekira.Common.Int.{ℤ, pos, negsuc, pos_part, int_eq}
use seekira.Packet.{no_pts}
use seekira.Demuxer.Reading.{Ensures}
use seekira.Demuxer.Seek.{Sought, returned, raised}
use seekira.StreamReader.{
  StreamInfo, max_time_shift, seek_loop, SeekEnd, was_done, ended, find_seek_pos,
}
use seekira.StreamReader.Terminates.{Checked, doubled}

module _ {C W : Type 0} (demuxer_seek : ℤ → W → Sought ℤ W) (check : C → W → Sought Bool W)
    (V : W → Type 0) where
  -- The loop ends with the result of the last check, at a time between 0 and the start, and at 0 if
  -- this check has failed.
  abbrev pub Ends : ℕ → Sought (Bool × ℤ) (List (StreamInfo C) × W) → Type 0
  Ends start (raised (is, w)) = V w
  Ends start (returned (ok, r) (is, w)) =
      V w
      × ((q : ℕ) × (r ≡ pos q) × (q ≤ start) × (ok ≡ false → q ≡ 0))
      × Checked demuxer_seek check V ok r is w

  abbrev Loop : ℕ → ℕ → ℕ → ℕ → List (StreamInfo C) → W → Type 0
  Loop fuel start shift n is w =
      Ensures (Ends start) (seek_loop demuxer_seek check fuel start shift (pos n) (is, w))

  Next : ℕ → ℕ → ℕ → ℕ → Type 0
  Next fuel start shift n =
      (q : ℕ) (is : List (StreamInfo C)) (w : W)
      → V w
      → start < n + max_time_shift
      → q + shift ≤ n
      → Loop fuel start (doubled shift) q is w

  -- After a seek no stream has a request left.
  abbrev pub IsIdle : StreamInfo C → Type 0
  IsIdle i = (i.seek_time ≡ no_pts) × (i.seek_result_checkers ≡ [])

  abbrev pub AllIdle : List (StreamInfo C) → Type 0
  AllIdle is = (k : ℕ) (i : StreamInfo C) → get_elem? is k ≡ some i → IsIdle i

  abbrev pub Outcome : ℕ → List (StreamInfo C) → Sought SeekEnd (List (StreamInfo C) × W) → Type 0
  Outcome id is (raised (is', w')) = V w'
  Outcome id is (returned was_done (is', w')) =
      V w' × ((i : StreamInfo C) × (get_elem? is id ≡ some i) × (i.seek_already_done ≡ true))
  Outcome id is (returned (ended ok r) (is', w')) =
      V w'
      × AllIdle is'
      × ((p : ℤ) × (find_seek_pos no_pts is ≡ some p)
          × (((p ≡ r) × (ok ≡ false) × ((n : ℕ) × (r ≡ negsuc n)))
              ⊎ ((q : ℕ) × (r ≡ pos q)
                  × (q ≤ pos_part p)
                  × (ok ≡ false → q ≡ 0)
                  × ((after : List (StreamInfo C)) × Checked demuxer_seek check V ok r after w'))))
