-- ===== src/Dash/Session.antt =====
-- A DashClient of dash/dash_client.cc with the DashServerEndpoint of dash/dash_server.cc that serves it,
-- and the connection between them. TCP may cut the bytes of the segments anywhere and may join
-- requests, so that a read() of the server takes all that has been sent to it; it does not cut the
-- five bytes of a request. Neither end fails and no connection is reset.
pub mod Asking
mod Receiving
mod Answering
mod Events
pub mod Phases
mod Calls
mod Replies
pub mod Runs
pub mod Progress
pub mod Rounds
pub mod Pieces
pub mod Hearing
pub mod Ending
pub mod Completion
use dash_dim.Prelude.{
  ℕ, ◌+◌, ◌-◌, Bool, true, false, ◌&&◌, Option, none, some, List, [], ◌∷◌, ◌++◌, ltb, leb,
  if◌then◌else◌, length, drop,
}
use dash_dim.Prelude.Int.{ℤ}
use dash_dim.Connection.{Read, bytes}
use dash_dim.Dash.Player.{Player, VideoData, Algorithm, player}
use dash_dim.Dash.Client.{io, player_alarm_event, request_alarm_event}
use dash_dim.Dash.Client
use dash_dim.Dash.Client.Runs.{connects}
use dash_dim.Dash.Client.Chunks.{concat, reads}
use dash_dim.Dash.Server.{Endpoint, Kernel, endpoint}
use dash_dim.Dash.Server

-- `requests` holds the bytes on their way to the server, `arriving` counts those on their way back.
pub record System : Type 0 where
  pub client : Player
  pub server : Endpoint
  pub requests : List ℕ
  pub arriving : ℕ

-- What the two event loops do: the client's reads find these chunks and it may be writable, one of
-- its alarms goes off, or the server has an event with these flags. A number is the client's time.
pub data Action : Type 0 where
  client_io : ℕ → Bool → List (List ℕ) → Action
  play_alarm ask_alarm : ℕ → Action
  server_io : Bool → Bool → Action

abbrev pub all_nonempty : List (List ℕ) → Bool
all_nonempty [] = true
all_nonempty (chunk ∷ chunks) = ltb 0 (length chunk) && all_nonempty chunks

-- The chunks that can be read are not empty and are on their way.
abbrev pub can_read : List (List ℕ) → ℕ → Bool
can_read chunks arriving = all_nonempty chunks && leb (length (concat chunks)) arriving

-- A call of the client; what it writes goes on its way.
unfoldable pub client_step : Algorithm → ℕ → Client.Event → System → Option System
client_step algorithm now event s = elim (Client.on_event algorithm now event s.client) [
  | none ↦ none
  | some c ↦
      some
        (record s { client = c; requests = s.requests ++ drop (length s.client.output) c.output })
]

abbrev pub arrived : List ℕ → List Read
arrived [] = []
arrived (b ∷ bs) = bytes (b ∷ bs) ∷ []

unfoldable pub server_step : Kernel → Bool → Bool → System → Option System
server_step kernel readable writable s =
    let event : Server.Event = record {
      readable = readable;
      writable = writable;
      reads = arrived s.requests;
    } in
    elim (Server.on_event kernel event s.server) [
      | none ↦ none
      | some e ↦ some (record s {
        server = e;
        requests = if readable then [] else s.requests;
        arriving = s.arriving + (e.written - s.server.written);
      })
    ]

-- An action that the connection does not allow does nothing.
unfoldable pub step : Algorithm → Kernel → Action → System → Option System
step algorithm kernel (client_io now writable chunks) s =
    if can_read chunks s.arriving
    then client_step algorithm now (io false true writable (reads chunks))
        (record s { arriving = s.arriving - length (concat chunks) })
    else some s
step algorithm kernel (play_alarm now) s = client_step algorithm now player_alarm_event s
step algorithm kernel (ask_alarm now) s = client_step algorithm now request_alarm_event s
step algorithm kernel (server_io readable writable) s = server_step kernel readable writable s

unfoldable pub run : Algorithm → Kernel → List Action → System → Option System
run algorithm kernel [] s = some s
run algorithm kernel (action ∷ actions) s = elim (step algorithm kernel action s) [
  | none ↦ none
  | some s' ↦ run algorithm kernel actions s'
]

-- The client's connect() has succeeded, and the server has accepted it.
unfoldable pub start : Algorithm → ℤ → ℤ → VideoData → ℕ → ℕ → Option System
start algorithm fd server_fd video init_segments now =
    elim (Client.on_event algorithm now connects (player fd video init_segments)) [
      | none ↦ none
      | some c ↦
          some
            (record { client = c; server = endpoint server_fd; requests = c.output; arriving = 0 })
    ]
