-- ===== src/Reader/Shows.antt =====
-- What a change of the position comes to.
use seekira.Common.{◌≡◌, ◌⊎◌, true, false, []}
use seekira.Common.Int.{ℤ}
use seekira.Demuxer.Seek.{returned}
use seekira.VideoStream.{VideoStream}
use seekira.Reader.{error, ran, need_break_reading, read_frame, set_reader_state, seek}
use seekira.Reader.Position.{Reader}
use seekira.Reader.Quiet.{Way, ShowsAt}

module _ (V : VideoStream) {A B : Type 0} where
  -- Nobody has been told anything, and those who were told before are told again from now on.
  pub record Resumed (r q : Reader V A B) : Type 0 where
    pub frames : q.frame_observers.subscribers ≡ r.frame_observers.subscribers
    pub frames_on : q.frame_observers.is_enabled ≡ true
    pub states : q.reader_observers.subscribers ≡ r.reader_observers.subscribers
    pub states_on : q.reader_observers.is_enabled ≡ true
    pub notices : q.notices ≡ r.notices
    pub state : q.state ≡ r.state

  -- The seek has failed: the reader is in error, and nobody hears of this or of what comes later.
  pub record Failed (r r' : Reader V A B) : Type 0 where
    pub state : r'.state ≡ error
    pub notices : r'.notices ≡ r.notices
    pub no_frames : r'.frame_observers.subscribers ≡ []
    pub no_states : r'.reader_observers.subscribers ≡ []

  -- From the state `s` of the stream, in which the seek has left it, frames are read, and then the reader stops or
  -- shows the frame at the time.
  abbrev pub ShownFrom : ℤ → V.State → Reader V A B → Reader V A B → Type 0
  ShownFrom time s r r' =
      (q : Reader V A B) × (last : ℤ) × Resumed r q
      × Way V s (V.get_pkt_duration s) q.stream last
      × (((need_break_reading q ≡ true) × (r' ≡ set_reader_state q.state q))
          ⊎ ((need_break_reading q ≡ false)
              × ShowsAt time (V.get_position q.stream) last
              × ((q' : Reader V A B) × (read_frame V (record q { skip_frame_handle = false })
                    ≡ ran q')
                  × (r' ≡ set_reader_state r.state q'))))

  abbrev pub Shown : ℤ → Reader V A B → Reader V A B → Type 0
  Shown time r r' = (s : V.State) × (V.seek time r.stream ≡ returned tt s) × ShownFrom time s r r'

  -- A change of the position that returns has failed, or has shown the frame.
  abbrev pub Moves : ℤ → Reader V A B → Reader V A B → Type 0
  Moves time r r' = Failed r r' ⊎ Shown time r r'
