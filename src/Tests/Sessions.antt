-- ===== src/Tests/Sessions.antt =====
-- A session of a short video over a socket that takes two bytes at a time.
use dash_dim.Prelude.{
  ◌%◌, ◌*◌, ◌/◌, refl, true, false, List, [], ◌∷◌, min, some, arith, Yields, ◌>>=◌,
}
use dash_dim.Prelude.Int.{pos}
use dash_dim.Dash.Server.{Kernel, IsWrite}
use dash_dim.Dash.Player.{VideoData, Algorithm}
use dash_dim.Dash.Client.Invariant.{IsVideo}
use dash_dim.Dash.Client.Download.{IsChoice}
use dash_dim.Dash.Session.{Action, client_io, play_alarm, ask_alarm, server_io, run, start}
use dash_dim.Dash.Session.Asking.{IsSized}
use dash_dim.Dash.Session.Phases.{IsLinked}
use dash_dim.Dash.Session.Runs.{run-IsLinked}
use dash_dim.Dash.Session.Rounds.{Round, fetches}
use dash_dim.Dash.Session.Progress.{IsPatient}
use dash_dim.Dash.Session.Ending.{IsFinished}
use dash_dim.Dash.Session.Completion.{fetches_finish}

abbrev pairs : Kernel
pairs call n = some (min n 2)

pairs-IsWrite : IsWrite pairs
pairs-IsWrite call n h = (omega arith, omega arith)

pairs-IsPatient : IsPatient pairs
pairs-IsPatient call n e = absurd (cc)

-- Two segments of 40 milliseconds at two qualities.
abbrev clip : VideoData
clip = record { representation = (3 ∷ 4 ∷ []) ∷ (7 ∷ 9 ∷ []) ∷ []; segment_duration = 40 }

clip-IsVideo : IsVideo 2 clip
clip-IsVideo = record {
  some_quality = omega arith;
  some_segment = omega arith;
  rectangular = (refl, (refl, tt));
}

clip-IsSized : IsSized clip
clip-IsSized = omega arith

-- The second segment is asked for after a delay.
abbrev alternating : Algorithm
alternating n = (n % 2, n * 500)

alternating-IsChoice : IsChoice clip alternating
alternating-IsChoice n = omega arith

-- The first segment comes in two chunks.
abbrev first_half : List Action
first_half =
    server_io true true
    ∷ client_io 20 true ((1 ∷ []) ∷ [])
    ∷ client_io 21 false ((2 ∷ 3 ∷ []) ∷ [])
    ∷ play_alarm 30
    ∷ ask_alarm 40
    ∷ []

run-IsLinked_example :
    Yields
      (IsLinked 2 (40 * 25 / 1000) clip)
      (start alternating (pos 5) (pos 6) clip 1 10 >>= run alternating pairs first_half)
run-IsLinked_example =
    run-IsLinked alternating pairs clip 2 alternating-IsChoice pairs-IsWrite clip-IsVideo
      clip-IsSized (omega arith) (pos 5) (pos 6) 1 10 first_half refl refl

-- In the first round the client hears of the segment in two events.
abbrev rounds : List Round
rounds =
    record { now = 600; parts = (610, 1) ∷ []; last = 620 }
    ∷ record { now = 700; parts = []; last = 710 }
    ∷ []

fetches_finish_example : Yields (IsFinished 2) (
    start alternating (pos 5) (pos 6) clip 1 10
    >>= run alternating pairs first_half
    >>= fetches alternating pairs rounds)
fetches_finish_example =
    fetches_finish alternating pairs clip 2 alternating-IsChoice pairs-IsWrite pairs-IsPatient
      clip-IsVideo clip-IsSized (omega arith) (pos 5) (pos 6) 1 10 first_half rounds refl refl
      (omega arith)
