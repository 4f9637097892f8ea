-- ===== src/Tests/Segments.antt =====
-- Concrete runs: a segment server whose socket takes two bytes at a time, and a player of a short
-- video.
use dash_dim.Prelude.{
  ℕ, ◌*◌, ◌/◌, ◌≡◌, refl, true, false, some, List, [], ◌∷◌, ◌++◌, min, arith, Yields, inr,
}
use dash_dim.Prelude.Int.{pos}
use dash_dim.Connection.{bytes}
use dash_dim.Codec.Endian.{host_bytes}
use dash_dim.Codec.Fixed.{wire}
use dash_dim.Dash.Request.{
  send_request, read_request, message, length-message, read_request-message,
  read_request-send_request,
}
use dash_dim.Dash.Server.{Endpoint, Event, Kernel, IsWrite, endpoint, respond}
use dash_dim.Dash.Server.Service.{sum, IsSmall, IsServing}
use dash_dim.Dash.Server.Refinement.{owing, asked_by, requests}
use dash_dim.Dash.Server.Runs.{run, asked, run-owing, respond_answers}
use dash_dim.Dash.Player.{VideoData, Algorithm, Player, player}
use dash_dim.Dash.Client.{player_alarm_event, io, on_read_event}
use dash_dim.Dash.Client
use dash_dim.Dash.Client.Invariant.{IsVideo, IsPlaying}
use dash_dim.Dash.Client.Download.{IsChoice}
use dash_dim.Dash.Client.Chunks.{on_read_event-concat}
use dash_dim.Dash.Client.Runs.{run-IsPlaying, connects}
use dash_dim.Dash.Client.Runs

read_request-send_request_example :
    (m : List ℕ) × (send_request (pos 5) 70000 ≡ some m)
    × (read_request (m ++ (1 ∷ [])) ≡ some 70000)
read_request-send_request_example =
    read_request-send_request (pos 5) 70000 (1 ∷ []) refl (omega arith) (omega arith)

abbrev two_bytes : Kernel
two_bytes call n = some (min n 2)

two_bytes-IsWrite : IsWrite two_bytes
two_bytes-IsWrite call n h = (omega arith, omega arith)

abbrev asks_three : Event
asks_three = record { readable = true; writable = false; reads = bytes (message 3 ++ []) ∷ [] }

asks_three-IsSmall : IsSmall (asked (asks_three ∷ []))
unfolding asked asked_by requests host_bytes wire
asks_three-IsSmall =
    rw (read_request-message 3 [] (omega arith) (omega (arith, length-message 3))) (omega arith, tt)

run-owing_example :
    Yields
      (λ (e : Endpoint).
        (e.request_bytes, e.sent_bytes) ≡ owing (asked (asks_three ∷ [])) e.written)
      (run two_bytes (asks_three ∷ []) (endpoint (pos 5)))
run-owing_example =
    run-owing two_bytes two_bytes-IsWrite (pos 5) (asks_three ∷ []) asks_three-IsSmall

-- Three bytes are owed, of which one has been sent, and then four.
abbrev owes : Endpoint
owes = record {
  fd = pos 5;
  destroyed = false;
  deletes = 0;
  sent_bytes = 1;
  request_bytes = 3 ∷ 4 ∷ [];
  counter = 2;
  epoll_out = true;
  calls = 1;
  answered = [];
  written = 1;
}

owes-IsServing : IsServing (3 ∷ 4 ∷ []) owes
owes-IsServing = record {
  small = (omega arith, (omega arith, tt));
  queue = refl;
  bytes_eq = refl;
  within = omega arith;
  notified = inr refl;
}

respond_answers_example :
    Yields
      (λ (e : Endpoint).
        (e.request_bytes ≡ []) × (e.answered ≡ 3 ∷ 4 ∷ []) × (e.written ≡ sum (3 ∷ 4 ∷ [])))
      (respond two_bytes owes)
respond_answers_example =
    respond_answers two_bytes two_bytes-IsWrite (λ call n e. absurd (cc)) (3 ∷ 4 ∷ []) owes
      owes-IsServing (omega arith)

-- Two segments of 40 milliseconds at two qualities.
abbrev video : VideoData
video = record { representation = (3 ∷ 4 ∷ []) ∷ (7 ∷ 9 ∷ []) ∷ []; segment_duration = 40 }

video-IsVideo : IsVideo 2 video
video-IsVideo = record {
  some_quality = omega arith;
  some_segment = omega arith;
  rectangular = (refl, (refl, tt));
}

abbrev lowest : Algorithm
lowest n = (0, 0)

lowest-IsChoice : IsChoice video lowest
lowest-IsChoice n = omega arith

abbrev first_segment : List (ℕ × Client.Event)
first_segment =
    (20, io false true false (bytes (1 ∷ 2 ∷ 3 ∷ []) ∷ [])) ∷ (30, player_alarm_event) ∷ []

run-IsPlaying_example :
    Yields
      (IsPlaying 2 (40 * 25 / 1000) video)
      (Runs.run lowest ((10, connects) ∷ first_segment) (player (pos 5) video 1))
run-IsPlaying_example =
    run-IsPlaying lowest video 2 lowest-IsChoice video-IsVideo (omega arith) (pos 5) 1 10
      first_segment

-- Its first segment of three bytes is asked for.
abbrev waits : Player
waits = record (player (pos 5) video 1) { segment_bytes = 3 }

on_read_event-concat_example :
    on_read_event lowest 20 (bytes (1 ∷ 2 ∷ []) ∷ (bytes (3 ∷ []) ∷ [])) waits
    ≡ on_read_event lowest 20 (bytes (1 ∷ 2 ∷ 3 ∷ []) ∷ []) waits
unfolding player
on_read_event-concat_example =
    on_read_event-concat lowest 20 (1 ∷ 2 ∷ []) ((3 ∷ []) ∷ []) waits
      (omega arith, (omega arith, tt)) (omega arith)
