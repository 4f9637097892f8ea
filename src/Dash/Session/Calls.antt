-- ===== src/Dash/Session/Calls.antt =====
-- Every call of the client keeps the session in its phases.
use mathlib.Core.Path.{subst}
use dash_dim.Prelude.{
  ℕ, ◌+◌, ◌-◌, ◌≤◌, ◌<◌, ◌≡◌, refl, sym, ap, ◌∙◌, Bool, true, false, none, List, [], ◌∷◌, ◌++◌,
  length, drop, Yields, Yields-map, arith, ◌⊎◌, inl, inr,
}
use dash_dim.Dash.Player.{Player, VideoData, Algorithm}
use dash_dim.Dash.Client.{Event, io, player_alarm_event, request_alarm_event, on_read_event}
use dash_dim.Dash.Client
use dash_dim.Dash.Client.Invariant.{IsVideo, IsPlaying}
use dash_dim.Dash.Client.Download.{IsChoice}
use dash_dim.Dash.Client.Playback.{segment_num-IsVideo}
use dash_dim.Dash.Client.Chunks.{concat, reads}
use dash_dim.Dash.Server.{Endpoint}
use dash_dim.Dash.Server.Service.{sum, sum-append}
use dash_dim.Dash.Session.{System, can_read}
use dash_dim.Dash.Session.Asking.{IsSized, Line, line, IsAsking}
use dash_dim.Dash.Session.Answering.{IsIdle, IsAnswering}
use dash_dim.Dash.Session.Receiving.{IsReceiving, IsClosed, IsFurther}
use dash_dim.Dash.Session.Events.{
  io_lem, play_alarm_lem, ask_alarm_lem, ask_alarm_quiet, on_chunks, can_read_lem, nothing_read,
}
use dash_dim.Dash.Session.Phases.{
  delayed, asked, answering, finished, IsLinked, After, sent_on, same-After, asks-After, drop_all,
}

self-IsReceiving :
    {num : ℕ} {v : VideoData} {log out : List ℕ} (l : Line)
    → IsReceiving num v log out l
    → IsReceiving num v log l.output l
self-IsReceiving l r = record {
  video = r.video;
  open_fd = r.open_fd;
  got = r.got;
  wrote = refl;
  quiet = r.quiet;
  place = r.place;
  in_range = r.in_range;
  size = r.size;
}

self-IsClosed :
    {num : ℕ} {log out : List ℕ} (l : Line) → IsClosed num log out l → IsClosed num log l.output l
self-IsClosed l c = record {
  closed = c.closed;
  got = c.got;
  wrote = refl;
  quiet = c.quiet;
  all = c.all;
}

-- A client that writes nothing leaves what is on its way.
unsent : (s : System) (c : Player) → c.output ≡ s.client.output → s.requests ≡ [] → sent_on s c ≡ []
unsent s c same nothing =
    ap (λ (xs : List ℕ). xs ++ drop (length s.client.output) c.output) nothing
    ∙ ap (drop (length s.client.output)) same
    ∙ drop_all s.client.output

-- The bytes that are on their way do not go past the segment, and the last of them come when the
-- server owes nothing.
within :
    (n read arriving : ℕ) (log : List ℕ) (e : Endpoint)
    → IsAnswering n log e
    → sum log + read + arriving ≡ e.written
    → read + arriving ≤ n
within n read arriving log e (inl o) total = omega (arith, o.total, o.incomplete)
within n read arriving log e (inr idle) total = omega (arith, idle.total, sum-append log (n ∷ []))

last :
    (n read arriving : ℕ) (log : List ℕ) (e : Endpoint)
    → IsAnswering n log e
    → sum log + read + arriving ≡ e.written
    → n ≤ read + arriving
    → IsIdle (log ++ (n ∷ [])) e
last n read arriving log e (inl o) total h = absurd (omega (arith, o.total, o.incomplete))
last n read arriving log e (inr idle) total h = idle

module _ {num frames : ℕ} {v : VideoData} where
  further-After :
      (s : System) (c : Player) (log : List ℕ) (t : ℕ)
      → IsPlaying num frames v c
      → t ≤ s.arriving
      → IsAnswering s.client.segment_bytes log s.server
      → s.requests ≡ []
      → sum log + s.client.read_bytes + s.arriving ≡ s.server.written
      → IsFurther num v log s.client.output
          (s.client.read_bytes + t)
          s.client.segment_bytes
          (line c)
      → After num frames v s (s.arriving - t) c
  further-After s c log t playing fits answers nothing total (inl (more, read, size, r)) = (
    playing,
    (
      log,
      answering (self-IsReceiving (line c) r)
          (omega (
            arith,
            more,
            read,
            size,
            within s.client.segment_bytes s.client.read_bytes s.arriving log s.server answers total,
          ))
          (subst (λ (n : ℕ). IsAnswering n log s.server) (sym size) answers)
          (unsent s c r.wrote nothing) (omega (arith, read)),
    ),
  )
  further-After s c log t playing fits answers nothing total (inr (whole, next)) =
      subst (λ (n : ℕ). After num frames v s n c) (omega (arith, most))
        (elim next [
          | inl closed ↦ (
            playing,
            (
              log ++ (s.client.segment_bytes ∷ []),
              finished (self-IsClosed (line c) closed) idle (unsent s c closed.wrote nothing) refl,
            ),
          )
          | inr asks ↦
              asks-After s c (log ++ (s.client.segment_bytes ∷ [])) playing asks idle nothing
        ])
    where
      most : s.client.read_bytes + s.arriving ≤ s.client.segment_bytes
      most = within s.client.segment_bytes s.client.read_bytes s.arriving log s.server answers total

      idle : IsIdle (log ++ (s.client.segment_bytes ∷ [])) s.server
      idle =
          last s.client.segment_bytes s.client.read_bytes s.arriving log s.server answers total
            (omega arith)

  -- A readable or writable client where nothing arrives.
  still_io :
      (algorithm : Algorithm)
      → IsChoice v algorithm
      → IsVideo num v
      → (now : ℕ) (writable : Bool) (chunks : List (List ℕ)) (s : System) → IsLinked num frames v s
      → s.arriving ≡ 0
      → can_read chunks s.arriving ≡ true
      → Yields
          (After num frames v s (s.arriving - length (concat chunks)))
          (Client.on_event algorithm now (io false true writable (reads chunks)) s.client)
  unfolding on_read_event
  still_io algorithm choice video now writable chunks s linked nothing h =
      let none_ : chunks ≡ [] = nothing_read chunks (ap (can_read chunks) (sym nothing) ∙ h) in
      rw none_ (
        Yields-map (λ c. IsPlaying num frames v c × (line s.client ≡ line c))
          (After num frames v s (s.arriving - 0))
          (Client.on_event algorithm now (io false true writable []) s.client)
          (io_lem algorithm choice video now writable [] s.client linked.0
            (λ c. line s.client ≡ line c) refl)
          (λ c (playing, same).
            subst (λ (n : ℕ). After num frames v s n c) (omega arith)
              (same-After s c linked playing same)))

  -- A readable or writable client that waits for a segment.
  reading_io :
      (algorithm : Algorithm)
      → IsChoice v algorithm
      → IsVideo num v
      → IsSized v
      → (now : ℕ) (writable : Bool) (chunks : List (List ℕ)) (s : System) (log : List ℕ)
      → IsPlaying num frames v s.client
      → IsReceiving num v log s.client.output (line s.client)
      → s.client.read_bytes < s.client.segment_bytes
      → IsAnswering s.client.segment_bytes log s.server
      → s.requests ≡ []
      → sum log + s.client.read_bytes + s.arriving ≡ s.server.written
      → can_read chunks s.arriving ≡ true
      → Yields
          (After num frames v s (s.arriving - length (concat chunks)))
          (Client.on_event algorithm now (io false true writable (reads chunks)) s.client)
  reading_io algorithm choice video sized now writable chunks s log playing r open_ answers nothing
        total h =
      let (full, fits) = can_read_lem chunks s.arriving h in
      Yields-map
        (λ c.
          IsPlaying num frames v c
          × IsFurther num v log s.client.output (s.client.read_bytes + length (concat chunks))
              s.client.segment_bytes (line c))
        (After num frames v s (s.arriving - length (concat chunks)))
        (Client.on_event algorithm now (io false true writable (reads chunks)) s.client)
        (io_lem algorithm choice video now writable (reads chunks) s.client playing
          (λ c.
            IsFurther num v log s.client.output (s.client.read_bytes + length (concat chunks))
              s.client.segment_bytes (line c))
          (on_chunks algorithm now chunks s.client (segment_num-IsVideo v video) sized r full open_
            (omega (
              arith,
              within s.client.segment_bytes s.client.read_bytes s.arriving log s.server answers
                  total,
            ))))
        (λ c (playing', further).
          further-After s c log (length (concat chunks)) playing' fits answers nothing total
            further)

  pub io-After :
      (algorithm : Algorithm)
      → IsChoice v algorithm
      → IsVideo num v
      → IsSized v
      → (now : ℕ) (writable : Bool) (chunks : List (List ℕ)) (s : System) → IsLinked num frames v s
      → can_read chunks s.arriving ≡ true
      → Yields
          (After num frames v s (s.arriving - length (concat chunks)))
          (Client.on_event algorithm now (io false true writable (reads chunks)) s.client)
  io-After algorithm choice video sized now writable chunks s linked h = elim linked.1.1 [
    | delayed d idle nothing empty ↦
        still_io algorithm choice video now writable chunks s linked empty h
    | asked r fresh idle sent empty ↦
        still_io algorithm choice video now writable chunks s linked empty h
    | answering r open_ answers nothing total ↦
        reading_io algorithm choice video sized now writable chunks s linked.1.0 linked.0 r open_
          answers nothing total h
    | finished c idle nothing empty ↦
        still_io algorithm choice video now writable chunks s linked empty h
  ]

  pub play_alarm-After :
      (algorithm : Algorithm)
      → IsVideo num v
      → (now : ℕ) (s : System) → IsLinked num frames v s
      → Yields
          (After num frames v s s.arriving)
          (Client.on_event algorithm now player_alarm_event s.client)
  play_alarm-After algorithm video now s linked =
      Yields-map (λ c. IsPlaying num frames v c × (line s.client ≡ line c))
        (After num frames v s s.arriving)
        (Client.on_event algorithm now player_alarm_event s.client)
        (play_alarm_lem algorithm now s.client video linked.0)
        (λ c (playing, same). same-After s c linked playing same)

  -- An alarm that is not set.
  quiet-After :
      (algorithm : Algorithm) (now : ℕ) (s : System)
      → IsLinked num frames v s
      → s.client.request_alarm ≡ none
      → Yields
          (After num frames v s s.arriving)
          (Client.on_event algorithm now request_alarm_event s.client)
  quiet-After algorithm now s linked quiet =
      subst (Yields (After num frames v s s.arriving))
        (sym (ask_alarm_quiet algorithm now s.client quiet))
        (same-After s s.client linked linked.0 refl)

  pub ask_alarm-After :
      (algorithm : Algorithm)
      → IsVideo num v
      → (now : ℕ) (s : System) → IsLinked num frames v s
      → Yields
          (After num frames v s s.arriving)
          (Client.on_event algorithm now request_alarm_event s.client)
  ask_alarm-After algorithm video now s linked = elim linked.1.1 [
    | delayed d idle nothing empty ↦
        Yields-map
          (λ c.
            IsPlaying num frames v c
            × ((line s.client ≡ line c) ⊎ IsAsking num v linked.1.0 s.client.output (line c)))
          (After num frames v s s.arriving)
          (Client.on_event algorithm now request_alarm_event s.client)
          (ask_alarm_lem algorithm now s.client (segment_num-IsVideo v video) video linked.0 d.ready
            d.fresh d.size)
          (λ c (playing', next). elim next [
            | inl same ↦ same-After s c linked playing' same
            | inr asks ↦
                subst (λ (n : ℕ). After num frames v s n c) (sym empty)
                  (asks-After s c linked.1.0 playing' asks idle nothing)
          ])
    | asked r fresh idle sent empty ↦ quiet-After algorithm now s linked r.quiet
    | answering r open_ answers nothing total ↦ quiet-After algorithm now s linked r.quiet
    | finished c idle nothing empty ↦ quiet-After algorithm now s linked c.quiet
  ]
