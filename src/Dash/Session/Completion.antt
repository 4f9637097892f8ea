-- ===== src/Dash/Session/Completion.antt =====
-- A session always comes to its end: from wherever it is, as many rounds as there are segments, in
-- each of which everything that is due happens once, bring the rest of the video.
use dash_dim.Prelude.{
  Option, refl, ℕ, ◌+◌, ◌*◌, ◌/◌, ◌≤◌, ◌≡◌, ap, ◌∙◌, true, false, List, [], ◌∷◌, length, Yields,
  Yields-bind, Yields-map, Yields-IfSome, Yields→IfSome, ◌>>=◌, arith, inl, inr,
}
use dash_dim.Prelude.Int.{ℤ, pos, ltb_ℤ}
use dash_dim.Dash.Player.{frames_per_second, Player, VideoData, Algorithm}
use dash_dim.Dash.Client.Invariant.{IsVideo}
use dash_dim.Dash.Client.Download.{IsChoice}
use dash_dim.Dash.Server.{Kernel, IsWrite}
use dash_dim.Dash.Session.{System, Action, client_io, server_io, server_step, step, run, start}
use dash_dim.Dash.Session.Asking.{IsSized}
use dash_dim.Dash.Session.Phases.{IsLinked}
use dash_dim.Dash.Session.Progress.{IsPatient, IsAnswered, server_step-IsAnswered}
use dash_dim.Dash.Session.Runs.{step-IsLinked, run-IsLinked}
use dash_dim.Dash.Session.Rounds.{
  received, alarm_of, everything, part, listens, Round, fetch, fetches, IsQuiet, alarm_of-IsQuiet,
}
use dash_dim.Dash.Session.Hearing.{part-Keeps, Keeps, IsWaiting}
use dash_dim.Dash.Session.Ending.{IsFinished, IsAhead, reads_rest-IsAhead, ended-IsFinished}

module _ {num frames : ℕ} {v : VideoData} (algorithm : Algorithm) (choice : IsChoice v algorithm)
    (video : IsVideo num v) (sized : IsSized v) (kernel : Kernel) (law : IsWrite kernel)
    (patient : IsPatient kernel) where
  listens-Keeps :
      (parts : List (ℕ × ℕ)) (s : System)
      → IsLinked num frames v s
      → IsWaiting s
      → Yields (λ t. IsLinked num frames v t × Keeps s t) (listens algorithm kernel parts s)
  unfolding listens
  listens-Keeps [] s linked waits = (linked, (waits, refl))
  listens-Keeps ((now, cut) ∷ parts) s linked waits =
      Yields-bind (λ s'. IsLinked num frames v s' × Keeps s s')
        (λ t. IsLinked num frames v t × Keeps s t)
        (step algorithm kernel (client_io now false (part cut s.arriving)) s)
        (listens algorithm kernel parts)
        (Yields-IfSome (IsLinked num frames v) (Keeps s)
          (step algorithm kernel (client_io now false (part cut s.arriving)) s)
          (step-IsLinked algorithm choice video sized kernel law
            (client_io now false (part cut s.arriving)) s linked)
          (part-Keeps video sized algorithm kernel now cut s linked waits))
        (λ s' (linked', (waits', kept)).
          Yields-map (λ t. IsLinked num frames v t × Keeps s' t)
            (λ t. IsLinked num frames v t × Keeps s t) (listens algorithm kernel parts s')
            (listens-Keeps parts s' linked' waits')
            (λ t (linked_t, (waits_t, kept_t)). (linked_t, (waits_t, kept_t ∙ kept))))

  -- The client's part of a round.
  hears-IsAhead :
      (parts : List (ℕ × ℕ)) (last : ℕ) (s : System)
      → IsLinked num frames v s
      → IsWaiting s
      → Yields
          (λ t. IsLinked num frames v t × IsAhead s t)
          (listens algorithm kernel parts s
            >>= (λ s'. step algorithm kernel (client_io last false (everything s'.arriving)) s'))
  hears-IsAhead parts last s linked waits =
      Yields-bind (λ s'. IsLinked num frames v s' × Keeps s s')
        (λ t. IsLinked num frames v t × IsAhead s t) (listens algorithm kernel parts s)
        (λ s'. step algorithm kernel (client_io last false (everything s'.arriving)) s')
        (listens-Keeps parts s linked waits)
        (λ s' (linked', ((quiet, nothing, done), kept)).
          Yields-map (λ t. IsLinked num frames v t × IsAhead s' t)
            (λ t. IsLinked num frames v t × IsAhead s t)
            (step algorithm kernel (client_io last false (everything s'.arriving)) s')
            (Yields-IfSome (IsLinked num frames v) (IsAhead s')
              (step algorithm kernel (client_io last false (everything s'.arriving)) s')
              (step-IsLinked algorithm choice video sized kernel law
                (client_io last false (everything s'.arriving)) s' linked')
              (reads_rest-IsAhead video sized algorithm kernel last s' linked' quiet nothing done))
            (λ t (linked_t, ahead). (
              linked_t,
              (elim ahead [
                | inl ended ↦ inl ended
                | inr more ↦ inr (omega (arith, more, ap length kept))
              ]),
            )))

  answers :
      (s : System)
      → IsLinked num frames v s
      → Yields
          (λ s'. IsLinked num frames v s' × IsAnswered s s')
          (step algorithm kernel (server_io true true) s)
  answers s linked =
      Yields-IfSome (IsLinked num frames v) (IsAnswered s)
        (step algorithm kernel (server_io true true) s)
        (step-IsLinked algorithm choice video sized kernel law (server_io true true) s linked)
        (unfold step in
          Yields→IfSome (IsAnswered s) (server_step kernel true true s)
            (server_step-IsAnswered kernel law patient s linked))

  fetch-IsAhead :
      (round : Round) (s : System)
      → IsLinked num frames v s
      → Yields (λ s'. IsLinked num frames v s' × IsAhead s s') (fetch algorithm kernel round s)
  unfolding fetch
  fetch-IsAhead round s linked =
      Yields-bind (λ s'. IsLinked num frames v s' × IsQuiet s.client s'.client)
        (λ s'. IsLinked num frames v s' × IsAhead s s')
        (step algorithm kernel (alarm_of round.now s) s)
        (λ s'. step algorithm kernel (server_io true true) s' >>= hears)
        (Yields-IfSome (IsLinked num frames v) (λ s'. IsQuiet s.client s'.client)
          (step algorithm kernel (alarm_of round.now s) s)
          (step-IsLinked algorithm choice video sized kernel law (alarm_of round.now s) s linked)
          (alarm_of-IsQuiet algorithm kernel round.now s))
        (λ s' (linked', (quiet, same)).
          Yields-bind (λ s''. IsLinked num frames v s'' × IsAnswered s' s'')
            (λ s''. IsLinked num frames v s'' × IsAhead s s'')
            (step algorithm kernel (server_io true true) s') hears (answers s' linked')
            (λ s'' (linked'', (client, nothing, done)).
              Yields-map (λ t. IsLinked num frames v t × IsAhead s'' t)
                (λ t. IsLinked num frames v t × IsAhead s t) (hears s'')
                (hears-IsAhead round.parts round.last s'' linked''
                  (ap (λ (c : Player). c.request_alarm) client ∙ quiet, nothing, done))
                (λ t (linked_t, ahead). (
                  linked_t,
                  (elim ahead [
                    | inl ended ↦ inl ended
                    | inr more ↦ inr (
                        omega (
                          arith,
                          more,
                          ap (λ (c : Player). length c.throughput.bytes_received) client,
                          ap length same,
                        ))
                  ]),
                ))))
    where
      hears : System → Option System
      hears s'' =
          listens algorithm kernel round.parts s''
          >>= (λ t. step algorithm kernel (client_io round.last false (everything t.arriving)) t)

  fetches-IsFinished :
      (rounds : List Round) (s : System)
      → IsLinked num frames v s
      → num ≤ length (received s) + length rounds
      → Yields (IsFinished num) (fetches algorithm kernel rounds s)
  unfolding fetches
  fetches-IsFinished [] s linked enough = ended-IsFinished s linked (inl (omega arith))
  fetches-IsFinished (round ∷ rounds) s linked enough =
      Yields-bind (λ s'. IsLinked num frames v s' × IsAhead s s') (IsFinished num)
        (fetch algorithm kernel round s) (fetches algorithm kernel rounds)
        (fetch-IsAhead round s linked)
        (λ s' (linked', ahead). fetches-IsFinished rounds s' linked' (elim ahead [
          | inl ended ↦ omega (arith, (ended-IsFinished s' linked' (inr ended)).1)
          | inr more ↦ omega (arith, more)
        ]))

-- A client and a server on open descriptors whose connection loses nothing and cuts no
-- request, from connect() on, for a video whose qualities all have the same positive number of
-- segments, of at least 40 ms and of 1 to 2^31 - 1 bytes each, with an algorithm that answers
-- qualities of the video and a write() of the server that always takes a byte at least: after
-- any sequence of events and alarms of the two, as many rounds as there are segments (the
-- request alarm if it is set, one event of the server, any number of events of the client at
-- any times that each find any part of what is on its way but not its end, and one that finds
-- the rest, where a read() takes at most kBufferSize bytes) bring the session to its end. The
-- client has closed after every segment, the server has answered a request for each segment
-- once, in order and in full, and nothing is on its way in either direction.
pub fetches_finish :
    (algorithm : Algorithm) (kernel : Kernel) (v : VideoData) (num : ℕ)
    → IsChoice v algorithm
    → IsWrite kernel
    → IsPatient kernel
    → IsVideo num v
    → IsSized v
    → 40 ≤ v.segment_duration
    → (fd server_fd : ℤ) (init_segments now : ℕ) (actions : List Action) (rounds : List Round)
    → ltb_ℤ (pos 0) fd ≡ true
    → ltb_ℤ server_fd (pos 0) ≡ false
    → num ≤ length rounds
    → Yields (IsFinished num) (
        start algorithm fd server_fd v init_segments now
        >>= run algorithm kernel actions
        >>= fetches algorithm kernel rounds)
fetches_finish algorithm kernel v num choice law patient video sized long fd server_fd init_segments
      now actions rounds open_fd open_server enough =
    Yields-bind (IsLinked num (v.segment_duration * frames_per_second / 1000) v) (IsFinished num)
      (start algorithm fd server_fd v init_segments now >>= run algorithm kernel actions)
      (fetches algorithm kernel rounds)
      (run-IsLinked algorithm kernel v num choice law video sized long fd server_fd init_segments
        now actions open_fd open_server)
      (λ s linked.
        fetches-IsFinished algorithm choice video sized kernel law patient rounds s linked
          (omega arith))
