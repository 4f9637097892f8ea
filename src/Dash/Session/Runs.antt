-- ===== src/Dash/Session/Runs.antt =====
-- Whole sessions, from the connection on.
use dash_dim.Prelude.{
  ℕ, ◌>>=◌, Yields-IfSome, ◌-◌, ◌*◌, ◌/◌, ◌≤◌, ◌<◌, ◌≡◌, refl, true, false, none, some, List, [],
  ◌∷◌, length, IfSome, Yields, Yields-bind, if-intro,
}
use dash_dim.Prelude.Int.{ℤ, pos, ltb_ℤ}
use dash_dim.Dash.Player.{VideoData, Algorithm, player, segment_num, frames_per_second}
use dash_dim.Dash.Client.{Event, io, player_alarm_event, request_alarm_event, on_read_event}
use dash_dim.Dash.Client
use dash_dim.Dash.Client.Invariant.{IsVideo, IsPlaying}
use dash_dim.Dash.Client.Download.{IsChoice}
use dash_dim.Dash.Client.Chunks.{concat, reads}
use dash_dim.Dash.Server.{Kernel, IsWrite, endpoint}
use dash_dim.Dash.Session.{
  System, Action, client_io, play_alarm, ask_alarm, server_io, can_read, client_step, step, run,
  start,
}
use dash_dim.Dash.Session.Asking.{IsSized, line, IsAsking}
use dash_dim.Dash.Session.Answering.{IsIdle}
use dash_dim.Dash.Session.Phases.{IsLinked, After, sent_on, asks-Phase}
use dash_dim.Dash.Session.Calls.{io-After, play_alarm-After, ask_alarm-After}
use dash_dim.Dash.Player.{tcp_connected, player_init_buffering}
use dash_dim.Dash.Client.{on_event, on_writable, on_connected}
use dash_dim.Dash.Client.Runs.{connects, connects-IsPlaying}
use dash_dim.Dash.Client.Playback.{segment_num-IsVideo}
use dash_dim.Dash.Session.Asking.{request_segment-IsAsking}
use dash_dim.Dash.Session.Replies.{server_step-IsLinked}

-- The connection is up, and the first segment is asked for.
connects-IsAsking :
    (algorithm : Algorithm) (v : VideoData) (num : ℕ)
    → segment_num v ≡ some num
    → 0 < num
    → IsSized v
    → (fd : ℤ) (init_segments now : ℕ) → ltb_ℤ (pos 0) fd ≡ true
    → IfSome
        (λ c. IsAsking num v [] [] (line c))
        (Client.on_event algorithm now connects (player fd v init_segments))
unfolding on_event on_writable on_connected player
connects-IsAsking algorithm v num num_lem some_segment sized fd init_segments now open_fd =
    request_segment-IsAsking num_lem algorithm now
      (record (player fd v init_segments) {
        status = tcp_connected;
        first_request_time = now;
        player_state = player_init_buffering;
        player_alarm = none;
        request_alarm = none;
      })
      sized
      (record {
        video = refl;
        open_fd = open_fd;
        got = refl;
        wrote = refl;
        quiet = refl;
        place = refl;
        more = some_segment;
      })

endpoint-IsIdle : (fd : ℤ) → ltb_ℤ fd (pos 0) ≡ false → IsIdle [] (endpoint fd)
unfolding endpoint
endpoint-IsIdle fd open_fd = record {
  open_fd = open_fd;
  none_left = refl;
  unsent = refl;
  log_eq = refl;
  total = refl;
}

client_step-IsLinked :
    (num frames : ℕ) (v : VideoData) (algorithm : Algorithm) (now : ℕ) (event : Client.Event)
    (s : System) (arriving : ℕ)
    → Yields (After num frames v s arriving) (Client.on_event algorithm now event s.client)
    → Yields
        (IsLinked num frames v)
        (client_step algorithm now event (record s { arriving = arriving }))
unfolding client_step
client_step-IsLinked num frames v algorithm now event s arriving h =
    Yields-bind (After num frames v s arriving) (IsLinked num frames v)
      (Client.on_event algorithm now event s.client)
      (λ c. some (record s { client = c; requests = sent_on s c; arriving = arriving })) h
      (λ c after. after)

module _ {num frames : ℕ} {v : VideoData} (algorithm : Algorithm) (choice : IsChoice v algorithm)
    (video : IsVideo num v) (sized : IsSized v) (kernel : Kernel) (law : IsWrite kernel) where
  pub step-IsLinked :
      (action : Action) (s : System)
      → IsLinked num frames v s
      → Yields (IsLinked num frames v) (step algorithm kernel action s)
  unfolding step
  step-IsLinked (client_io now writable chunks) s linked =
      if-intro (can_read chunks s.arriving) (Yields (IsLinked num frames v))
        (λ can.
          client_step-IsLinked num frames v algorithm now (io false true writable (reads chunks)) s
            (s.arriving - length (concat chunks))
            (io-After algorithm choice video sized now writable chunks s linked can))
        (λ _. linked)
  step-IsLinked (play_alarm now) s linked =
      client_step-IsLinked num frames v algorithm now player_alarm_event s s.arriving
        (play_alarm-After algorithm video now s linked)
  step-IsLinked (ask_alarm now) s linked =
      client_step-IsLinked num frames v algorithm now request_alarm_event s s.arriving
        (ask_alarm-After algorithm video now s linked)
  step-IsLinked (server_io readable writable) s linked =
      server_step-IsLinked num frames v kernel law readable writable s linked

  run_on-IsLinked :
      (actions : List Action) (s : System)
      → IsLinked num frames v s
      → Yields (IsLinked num frames v) (run algorithm kernel actions s)
  unfolding run
  run_on-IsLinked [] s linked = linked
  run_on-IsLinked (action ∷ actions) s linked =
      Yields-bind (IsLinked num frames v) (IsLinked num frames v) (step algorithm kernel action s)
        (run algorithm kernel actions) (step-IsLinked action s linked)
        (λ s' linked'. run_on-IsLinked actions s' linked')

start-IsLinked :
    (algorithm : Algorithm) (v : VideoData) (num : ℕ)
    → IsChoice v algorithm
    → IsVideo num v
    → IsSized v
    → 40 ≤ v.segment_duration
    → (fd server_fd : ℤ) (init_segments now : ℕ) → ltb_ℤ (pos 0) fd ≡ true
    → ltb_ℤ server_fd (pos 0) ≡ false
    → Yields
        (IsLinked num (v.segment_duration * frames_per_second / 1000) v)
        (start algorithm fd server_fd v init_segments now)
unfolding start
start-IsLinked algorithm v num choice video sized long fd server_fd init_segments now open_fd
      open_server =
    Yields-bind
      (λ c.
        IsPlaying num (v.segment_duration * frames_per_second / 1000) v c
        × IsAsking num v [] [] (line c))
      (IsLinked num (v.segment_duration * frames_per_second / 1000) v)
      (Client.on_event algorithm now connects (player fd v init_segments))
      (λ c.
        some
          (record { client = c; server = endpoint server_fd; requests = c.output; arriving = 0 }))
      (Yields-IfSome (IsPlaying num (v.segment_duration * frames_per_second / 1000) v)
        (λ c. IsAsking num v [] [] (line c))
        (Client.on_event algorithm now connects (player fd v init_segments))
        (connects-IsPlaying algorithm v num choice video long fd init_segments now)
        (connects-IsAsking algorithm v num (segment_num-IsVideo v video) video.some_segment sized fd
          init_segments now open_fd))
      (λ c (playing, asks). (
        playing,
        (
          [],
          asks-Phase [] (line c) (endpoint server_fd) asks (endpoint-IsIdle server_fd open_server),
        ),
      ))

-- A client and a server on open descriptors whose connection loses nothing and cuts no
-- request, from connect() on, for a video whose qualities all have the same positive number of
-- segments, of at least 40 ms and of 1 to 2^31 - 1 bytes each, with an algorithm that answers
-- qualities of the video: over any sequence of events and alarms of the two, whatever a
-- write() that makes progress takes and wherever the bytes are cut, no fault occurs and every
-- loop ends; the player's counts agree; and the next segment waits for an alarm, or exactly
-- its request is on its way, or the server has that one size in its queue or has sent all of
-- it, and the bytes that the client has of it and those on their way are those that the server
-- wrote, or every segment came, the client has closed and nothing is on its way.
pub run-IsLinked :
    (algorithm : Algorithm) (kernel : Kernel) (v : VideoData) (num : ℕ)
    → IsChoice v algorithm
    → IsWrite kernel
    → IsVideo num v
    → IsSized v
    → 40 ≤ v.segment_duration
    → (fd server_fd : ℤ) (init_segments now : ℕ) (actions : List Action) → ltb_ℤ (pos 0) fd ≡ true
    → ltb_ℤ server_fd (pos 0) ≡ false
    → Yields
        (IsLinked num (v.segment_duration * frames_per_second / 1000) v)
        (start algorithm fd server_fd v init_segments now >>= run algorithm kernel actions)
run-IsLinked algorithm kernel v num choice law video sized long fd server_fd init_segments now
      actions open_fd open_server =
    Yields-bind (IsLinked num (v.segment_duration * frames_per_second / 1000) v)
      (IsLinked num (v.segment_duration * frames_per_second / 1000) v)
      (start algorithm fd server_fd v init_segments now) (run algorithm kernel actions)
      (start-IsLinked algorithm v num choice video sized long fd server_fd init_segments now open_fd
        open_server)
      (λ s linked. run_on-IsLinked algorithm choice video sized kernel law actions s linked)
