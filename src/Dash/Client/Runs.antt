-- ===== src/Dash/Client/Runs.antt =====
-- DashClient over the calls from the event loop, from its connection on.
use dash_dim.Prelude.{
  ℕ, ◌*◌, ◌/◌, ◌≤◌, ◌≡◌, refl, true, false, Option, none, some, List, [], ◌∷◌, if◌then◌else◌,
  Yields, Yields-bind, arith, if-intro, inl, inr,
}
use dash_dim.Prelude.Int.{ℤ}
use dash_dim.Dash.Client.Invariant.{IsVideo, IsPlaying}
use dash_dim.Dash.Client.Playback.{play_back_handle-IsPlaying}
use dash_dim.Dash.Client.Download.{IsChoice, core-IsPlaying, delay_request_handle-IsPlaying}
use dash_dim.Dash.Client.Reading.{
  request_segment-IsPlaying, close-IsPlaying, on_read_event-IsPlaying,
}
use dash_dim.Dash.Player.{
  Player, VideoData, Algorithm, player, unregister_fd, frames_per_second, is_connecting,
  tcp_connected, tcp_connecting, tcp_status_min, tcp_disconnect, TcpConnectionStatus,
}
use dash_dim.Dash.Client.{
  on_read_event, on_error, on_writable, on_event, on_connected, Event, io, player_alarm_event,
  request_alarm_event, is_due,
}

-- The event loop's calls, each with its time.
unfoldable pub run : Algorithm → List (ℕ × Event) → Player → Option Player
run algorithm [] p = some p
run algorithm ((now, event) ∷ events) p = elim (on_event algorithm now event p) [
  | none ↦ none
  | some p' ↦ run algorithm events p'
]

module _ {num frames : ℕ} {v : VideoData} where
  on_error-IsPlaying : (p : Player) → IsPlaying num frames v p → IsPlaying num frames v (on_error p)
  unfolding on_error unregister_fd
  on_error-IsPlaying p s = close-IsPlaying _ (record {
    counts = record {
      video = s.counts.video;
      frames_eq = s.counts.frames_eq;
      counted = s.counts.counted;
      played = s.counts.played;
      ends = s.counts.ends;
      levels = s.counts.levels;
      enough = s.counts.enough;
      session = s.counts.session;
      in_range = s.counts.in_range;
      settled = s.counts.settled;
    };
    playing = inl refl;
    pausing = inl refl;
  })

  on_writable-IsPlaying :
      (algorithm : Algorithm) (now : ℕ) (p : Player)
      → IsPlaying num frames v p
      → Yields (IsPlaying num frames v) (on_writable algorithm now p)
  unfolding on_writable
  on_writable-IsPlaying algorithm now p s = go p.status s.counts.settled
    where
      go :
          (status : TcpConnectionStatus)
          → is_connecting status ≡ false
          → Yields (IsPlaying num frames v) (elim status as (λ x. Option Player) [
            | tcp_connecting ↦ on_connected algorithm now (record p { status = tcp_connected })
            | tcp_status_min ↦ some p
            | tcp_disconnect ↦ some p
            | tcp_connected ↦ some p
          ])
      go tcp_connecting h = absurd (ground arith)
      go tcp_status_min h = s
      go tcp_disconnect h = s
      go tcp_connected h = s

  on_event-IsPlaying :
      (algorithm : Algorithm)
      → IsChoice v algorithm
      → IsVideo num v
      → (now : ℕ) (event : Event) (p : Player) → IsPlaying num frames v p
      → Yields (IsPlaying num frames v) (on_event algorithm now event p)
  unfolding on_event
  on_event-IsPlaying algorithm choice video now (io error readable writable reads) p s =
      Yields-bind (IsPlaying num frames v) (IsPlaying num frames v)
        (if readable then on_read_event algorithm now reads p' else some p')
        (λ p''. if writable then on_writable algorithm now p'' else some p'')
        (if-intro readable (Yields (IsPlaying num frames v))
          (λ _. on_read_event-IsPlaying algorithm choice video now reads p' s') (λ _. s'))
        (λ p'' s''.
          if-intro writable (Yields (IsPlaying num frames v))
            (λ _. on_writable-IsPlaying algorithm now p'' s'') (λ _. s''))
    where
      p' : Player
      p' = if error then on_error p else p

      s' : IsPlaying num frames v p'
      s' = if-intro error (IsPlaying num frames v) (λ _. on_error-IsPlaying p s) (λ _. s)
  on_event-IsPlaying algorithm choice video now player_alarm_event p s =
      if-intro (is_due now p.player_alarm) (Yields (IsPlaying num frames v))
        (λ _. play_back_handle-IsPlaying now _ video (core-IsPlaying p _ refl refl s)) (λ _. s)
  on_event-IsPlaying algorithm choice video now request_alarm_event p s =
      if-intro (is_due now p.request_alarm) (Yields (IsPlaying num frames v))
        (λ _. delay_request_handle-IsPlaying now _ video (core-IsPlaying p _ refl refl s)) (λ _. s)

  run_on-IsPlaying :
      (algorithm : Algorithm)
      → IsChoice v algorithm
      → IsVideo num v
      → (events : List (ℕ × Event)) (p : Player) → IsPlaying num frames v p
      → Yields (IsPlaying num frames v) (run algorithm events p)
  unfolding run
  run_on-IsPlaying algorithm choice video [] p s = s
  run_on-IsPlaying algorithm choice video ((now, event) ∷ events) p s =
      Yields-bind (IsPlaying num frames v) (IsPlaying num frames v) (on_event algorithm now event p)
        (run algorithm events) (on_event-IsPlaying algorithm choice video now event p s)
        (λ p' s'. run_on-IsPlaying algorithm choice video events p' s')

-- The event that finds the connecting socket writable.
abbrev pub connects : Event
connects = io false false true []

pub connects-IsPlaying :
    (algorithm : Algorithm) (v : VideoData) (num : ℕ)
    → IsChoice v algorithm
    → IsVideo num v
    → 40 ≤ v.segment_duration
    → (fd : ℤ) (init_segments now : ℕ)
    → Yields
        (IsPlaying num (v.segment_duration * frames_per_second / 1000) v)
        (on_event algorithm now connects (player fd v init_segments))
unfolding on_event on_writable on_connected player
connects-IsPlaying algorithm v num choice video long fd init_segments now =
    request_segment-IsPlaying algorithm choice now _ video
      (record {
        counts = record {
          video = refl;
          frames_eq = refl;
          counted = refl;
          played = (0, omega arith, omega arith, inr refl);
          ends = refl;
          levels = refl;
          enough = tt;
          session = refl;
          in_range = omega arith;
          settled = refl;
        };
        playing = inl refl;
        pausing = inl refl;
      })
      video.some_segment

-- From the connection on, for a video whose qualities all have the same positive number of
-- segments, of at least 40 ms, with an algorithm that answers qualities of the video, over any
-- sequence of events and alarms: no access is out of bounds and no CHECK fails; the segments
-- that came are those in the buffer and those played, the frames played are those of the
-- played segments and less than a segment more, the logs of ends and of new levels have an
-- entry for each segment, every new buffer level is at least a segment's duration,
-- session_bytes_ is the sum of the bytes received, no more segments are requested than exist,
-- the player plays only with something in the buffer and pauses only on an empty one.
pub run-IsPlaying :
    (algorithm : Algorithm) (v : VideoData) (num : ℕ)
    → IsChoice v algorithm
    → IsVideo num v
    → 40 ≤ v.segment_duration
    → (fd : ℤ) (init_segments now : ℕ) (events : List (ℕ × Event))
    → Yields
        (IsPlaying num (v.segment_duration * frames_per_second / 1000) v)
        (run algorithm ((now, connects) ∷ events) (player fd v init_segments))
unfolding run
run-IsPlaying algorithm v num choice video long fd init_segments now events =
    Yields-bind (IsPlaying num frames v) (IsPlaying num frames v)
      (on_event algorithm now connects (player fd v init_segments)) (run algorithm events)
      (connects-IsPlaying algorithm v num choice video long fd init_segments now)
      (λ p s. run_on-IsPlaying algorithm choice video events p s)
  where
    frames : ℕ
    frames = v.segment_duration * frames_per_second / 1000
