-- ===== src/Dash/Session/Ending.antt =====
-- The rest of a segment, read in one round, and the end of a session.
use mathlib.Core.Path.{subst}
use dash_dim.Prelude.{
  ℕ, ◌+◌, ◌-◌, ◌≤◌, ◌<◌, ◌≡◌, sym, ap, ◌∙◌, true, false, none, some, List, [], ◌∷◌, ◌++◌,
  length-append, length, drop, IfSome, IfSome-bind, arith, if-intro, ◌⊎◌, inl, inr,
}
use dash_dim.Prelude.Int.{pos, ltb_ℤ}
use dash_dim.Dash.Request.{length-message}
use dash_dim.Dash.Player.{Player, VideoData, Algorithm, segment_num}
use dash_dim.Dash.Client.{io, on_event, on_read_event}
use dash_dim.Dash.Client.Invariant.{IsVideo}
use dash_dim.Dash.Client.Playback.{segment_num-IsVideo}
use dash_dim.Dash.Client.Chunks.{concat, reads}
use dash_dim.Dash.Server.{Kernel}
use dash_dim.Dash.Server.Service.{sum, sum-append}
use dash_dim.Dash.Session.{System, client_io, can_read, all_nonempty, client_step, step}
use dash_dim.Dash.Session.Asking.{IsSized, line}
use dash_dim.Dash.Session.Receiving.{IsReceiving, IsFurther}
use dash_dim.Dash.Session.Events.{on_chunks, can_read_lem}
use dash_dim.Dash.Session.Phases.{IsLinked, delayed, asked, answering, finished}
use dash_dim.Dash.Session.Rounds.{received, everything, pieces}
use dash_dim.Dash.Session.Pieces.{everything_lem, length-everything}

-- The client has closed its end.
abbrev pub IsEnded : System → Type 0
IsEnded s = ltb_ℤ (pos 0) s.client.fd ≡ false

-- All segments came, each answered once and in full, and nothing is under way.
abbrev pub IsFinished : ℕ → System → Type 0
IsFinished num s =
    IsEnded s
    × (length (received s) ≡ num)
    × (s.server.answered ≡ received s)
    × (s.server.written ≡ sum (received s))
    × (s.requests ≡ [])
    × (s.arriving ≡ 0)

-- A segment more than before, or the end.
abbrev pub IsAhead : System → System → Type 0
IsAhead s s' = IsEnded s' ⊎ (length (received s') ≡ length (received s) + 1)

abbrev IsReached : ℕ → Player → Type 0
IsReached n c = (ltb_ℤ (pos 0) c.fd ≡ false) ⊎ (length c.throughput.bytes_received ≡ n + 1)

-- The rest of a segment.
rest-IsReached :
    {num : ℕ} {v : VideoData} (algorithm : Algorithm) (now : ℕ) (chunks : List (List ℕ))
    (p : Player) (log : List ℕ)
    → segment_num v ≡ some num
    → IsSized v
    → IsReceiving num v log p.output (line p)
    → all_nonempty chunks ≡ true
    → p.read_bytes < p.segment_bytes
    → p.read_bytes + length (concat chunks) ≡ p.segment_bytes
    → IfSome
        (IsReached (length p.throughput.bytes_received))
        (on_event algorithm now (io false true false (reads chunks)) p)
unfolding on_event
rest-IsReached {num} {v} algorithm now chunks p log num_lem sized r full open_ whole =
    IfSome-bind
      (λ c.
        IsFurther num v log p.output (p.read_bytes + length (concat chunks)) p.segment_bytes
          (line c))
      (IsReached (length p.throughput.bytes_received))
      (on_read_event algorithm now (reads chunks) p) some
      (on_chunks algorithm now chunks p num_lem sized r full open_ (omega (arith, whole)))
      (λ c further. elim further [
        | inl (more, _, _, _) ↦ absurd (more whole)
        | inr (_, inl closed) ↦ inl closed.closed
        | inr (_, inr asks) ↦ inr (
            ap length asks.got
            ∙ length-append log (p.segment_bytes ∷ [])
            ∙ omega (arith, ap length r.got))
      ])

reads_nothing :
    (algorithm : Algorithm) (now : ℕ) (p : Player)
    → ltb_ℤ (pos 0) p.fd ≡ false
    → IfSome
        (IsReached (length p.throughput.bytes_received))
        (on_event algorithm now (io false true false []) p)
unfolding on_event on_read_event
reads_nothing algorithm now p closed = inl closed

module _ {num frames : ℕ} {v : VideoData} (video : IsVideo num v) (sized : IsSized v) where
  -- The client's part of a round.
  reads_rest :
      (algorithm : Algorithm) (now : ℕ) (s : System)
      → IsLinked num frames v s
      → s.client.request_alarm ≡ none
      → s.requests ≡ []
      → s.server.request_bytes ≡ []
      → IfSome
          (IsReached (length (received s)))
          (on_event algorithm now (io false true false (reads (everything s.arriving))) s.client)
  unfolding pieces
  reads_rest algorithm now s linked quiet nothing done = elim linked.1.1 [
    | delayed d idle _ empty ↦ absurd (let (t, due) = d.due in cc)
    | asked r fresh idle sent empty ↦
        absurd
          (omega (arith, length-message s.client.segment_bytes, ap length (sym sent ∙ nothing)))
    | answering r open_ (inl o) _ total ↦ absurd (omega (arith, ap length (sym o.one_left ∙ done)))
    | answering r open_ (inr idle) _ total ↦
        rest-IsReached algorithm now (everything s.arriving) s.client linked.1.0
          (segment_num-IsVideo v video) sized r
          (can_read_lem (everything s.arriving) s.arriving (everything_lem s.arriving)).0 open_
          (omega (
            arith,
            total,
            idle.total,
            sum-append linked.1.0 (s.client.segment_bytes ∷ []),
            length-everything s.arriving,
          ))
    | finished c idle _ empty ↦
        subst
          (λ (n : ℕ).
            IfSome (IsReached (length (received s)))
              (on_event algorithm now (io false true false (reads (everything n))) s.client))
          (sym empty) (reads_nothing algorithm now s.client c.closed)
  ]

  pub reads_rest-IsAhead :
      (algorithm : Algorithm) (kernel : Kernel) (now : ℕ) (s : System)
      → IsLinked num frames v s
      → s.client.request_alarm ≡ none
      → s.requests ≡ []
      → s.server.request_bytes ≡ []
      → IfSome (IsAhead s) (step algorithm kernel (client_io now false (everything s.arriving)) s)
  unfolding step client_step
  reads_rest-IsAhead algorithm kernel now s linked quiet nothing done =
      if-intro (can_read (everything s.arriving) s.arriving) (IfSome (IsAhead s))
        (λ _.
          IfSome-bind (IsReached (length (received s))) (IsAhead s)
            (on_event algorithm now (io false true false (reads (everything s.arriving))) s.client)
            (λ c. some (record s {
              client = c;
              requests = s.requests ++ drop (length s.client.output) c.output;
              arriving = s.arriving - length (concat (everything s.arriving));
            }))
            (reads_rest algorithm now s linked quiet nothing done) (λ c reached. reached))
        (λ cannot. absurd (ground (arith, everything_lem s.arriving)))

-- An open client waits for more segments.
not_yet :
    {num : ℕ} (s : System) (log : List ℕ)
    → received s ≡ log
    → length log < num
    → ltb_ℤ (pos 0) s.client.fd ≡ true
    → (num ≤ length (received s)) ⊎ IsEnded s
    → ⊥
not_yet s log got less open_ (inl all) = omega (arith, ap length got)
not_yet s log got less open_ (inr closed) = ground (arith, open_)

-- The end has come once every segment has, or the client has closed.
pub ended-IsFinished :
    {num frames : ℕ} {v : VideoData} (s : System)
    → IsLinked num frames v s
    → (num ≤ length (received s)) ⊎ IsEnded s
    → IsFinished num s
ended-IsFinished s linked h = elim linked.1.1 [
  | delayed d idle nothing empty ↦ absurd (
      not_yet s linked.1.0 d.ready.got (omega (arith, d.ready.place, d.ready.more)) d.ready.open_fd
        h)
  | asked r fresh idle sent empty ↦
      absurd (not_yet s linked.1.0 r.got (omega (arith, r.place, r.in_range)) r.open_fd h)
  | answering r open_ answers nothing total ↦
      absurd (not_yet s linked.1.0 r.got (omega (arith, r.place, r.in_range)) r.open_fd h)
  | finished c idle nothing empty ↦ (
    c.closed,
    ap length c.got ∙ c.all,
    idle.log_eq ∙ sym c.got,
    idle.total ∙ ap sum (sym c.got),
    nothing,
    empty,
  )
]
