-- ===== src/Dash/Session/Hearing.antt =====
-- Events of a client that find a part of a segment.
use mathlib.Core.Path.{subst}
use dash_dim.Prelude.{
  append-nil, ℕ, min, ◌+◌, ◌-◌, ◌<◌, ◌≡◌, refl, sym, ap, ◌∙◌, true, false, none, some, List, [],
  ◌∷◌, ◌++◌, length, drop, IfSome, IfSome-bind, arith, if-intro, inl, inr,
}
use dash_dim.Dash.Request.{length-message}
use dash_dim.Dash.Player.{Player, VideoData, Algorithm, segment_num}
use dash_dim.Dash.Client.{io, on_event, on_read_event}
use dash_dim.Dash.Client.Invariant.{IsVideo}
use dash_dim.Dash.Client.Playback.{segment_num-IsVideo}
use dash_dim.Dash.Client.Chunks.{concat, reads}
use dash_dim.Dash.Server.{Kernel}
use dash_dim.Dash.Server.Service.{sum-append}
use dash_dim.Dash.Session.{System, client_io, can_read, all_nonempty, client_step, step}
use dash_dim.Dash.Session.Asking.{IsSized, line}
use dash_dim.Dash.Session.Receiving.{IsReceiving, IsFurther}
use dash_dim.Dash.Session.Events.{on_chunks}
use dash_dim.Dash.Session.Phases.{IsLinked, delayed, asked, answering, finished}
use dash_dim.Dash.Session.Rounds.{received, everything, pieces, part}
use dash_dim.Dash.Session.Pieces.{length-everything, pieces_nonempty}

drop_all : {A : Type 0} (xs : List A) → drop (length xs) xs ≡ []
drop_all [] = refl
drop_all (x ∷ xs) = drop_all xs

part_none : (cut n : ℕ) → n ≡ 0 → part cut n ≡ []
unfolding pieces
part_none cut n h = ap everything (let none_ : min cut (n - 1) ≡ 0 = omega arith in none_)

abbrev Same : Player → Player → Type 0
Same p c =
    (c.request_alarm ≡ none)
    × (c.output ≡ p.output)
    × (c.throughput.bytes_received ≡ p.throughput.bytes_received)

-- The server has answered, and the client has still to read.
abbrev pub IsWaiting : System → Type 0
IsWaiting s = (s.client.request_alarm ≡ none) × (s.requests ≡ []) × (s.server.request_bytes ≡ [])

-- No segment has come meanwhile.
abbrev pub Keeps : System → System → Type 0
Keeps s s' = IsWaiting s' × (received s' ≡ received s)

part_read-Same :
    {num : ℕ} {v : VideoData} (algorithm : Algorithm) (now : ℕ) (chunks : List (List ℕ))
    (p : Player) (log : List ℕ)
    → segment_num v ≡ some num
    → IsSized v
    → IsReceiving num v log p.output (line p)
    → all_nonempty chunks ≡ true
    → p.read_bytes + length (concat chunks) < p.segment_bytes
    → IfSome (Same p) (on_event algorithm now (io false true false (reads chunks)) p)
unfolding on_event
part_read-Same {num} {v} algorithm now chunks p log num_lem sized r full less =
    IfSome-bind
      (λ c.
        IsFurther num v log p.output (p.read_bytes + length (concat chunks)) p.segment_bytes
          (line c))
      (Same p) (on_read_event algorithm now (reads chunks) p) some
      (on_chunks algorithm now chunks p num_lem sized r full (omega arith) (omega arith))
      (λ c further. elim further [
        | inl (_, _, _, r') ↦ (r'.quiet, r'.wrote, r'.got ∙ sym r.got)
        | inr (whole, _) ↦ absurd (omega arith)
      ])

none_read-Same :
    (algorithm : Algorithm) (now : ℕ) (p : Player)
    → p.request_alarm ≡ none
    → IfSome (Same p) (on_event algorithm now (io false true false []) p)
unfolding on_event on_read_event
none_read-Same algorithm now p quiet = (quiet, refl, refl)

module _ {num frames : ℕ} {v : VideoData} (video : IsVideo num v) (sized : IsSized v) where
  part-Same :
      (algorithm : Algorithm) (now cut : ℕ) (s : System)
      → IsLinked num frames v s
      → IsWaiting s
      → IfSome
          (Same s.client)
          (on_event algorithm now (io false true false (reads (part cut s.arriving))) s.client)
  part-Same algorithm now cut s linked (quiet, nothing, done) = elim linked.1.1 [
    | delayed d idle _ empty ↦ absurd (let (t, due) = d.due in cc)
    | asked r fresh idle sent empty ↦
        absurd
          (omega (arith, length-message s.client.segment_bytes, ap length (sym sent ∙ nothing)))
    | answering r open_ (inl o) _ total ↦ absurd (omega (arith, ap length (sym o.one_left ∙ done)))
    | answering r open_ (inr idle) _ total ↦
        part_read-Same algorithm now (part cut s.arriving) s.client linked.1.0
          (segment_num-IsVideo v video) sized r
          (pieces_nonempty (min cut (s.arriving - 1)) (min cut (s.arriving - 1)))
          (omega (
            arith,
            open_,
            total,
            idle.total,
            sum-append linked.1.0 (s.client.segment_bytes ∷ []),
            length-everything (min cut (s.arriving - 1)),
          ))
    | finished c idle _ empty ↦
        subst
          (λ (chunks : List (List ℕ)).
            IfSome (Same s.client)
              (on_event algorithm now (io false true false (reads chunks)) s.client))
          (sym (part_none cut s.arriving empty)) (none_read-Same algorithm now s.client quiet)
  ]

  pub part-Keeps :
      (algorithm : Algorithm) (kernel : Kernel) (now cut : ℕ) (s : System)
      → IsLinked num frames v s
      → IsWaiting s
      → IfSome (Keeps s) (step algorithm kernel (client_io now false (part cut s.arriving)) s)
  unfolding step client_step
  part-Keeps algorithm kernel now cut s linked (quiet, nothing, done) =
      if-intro (can_read (part cut s.arriving) s.arriving) (IfSome (Keeps s))
        (λ _.
          IfSome-bind (Same s.client) (Keeps s)
            (on_event algorithm now (io false true false (reads (part cut s.arriving))) s.client)
            (λ c. some (record s {
              client = c;
              requests = s.requests ++ drop (length s.client.output) c.output;
              arriving = s.arriving - length (concat (part cut s.arriving));
            }))
            (part-Same algorithm now cut s linked (quiet, nothing, done))
            (λ c (q, wrote, got). (
              (
                q,
                ap (λ (out : List ℕ). s.requests ++ drop (length s.client.output) out) wrote
                    ∙ ap (λ (out : List ℕ). s.requests ++ out) (drop_all s.client.output)
                    ∙ append-nil s.requests
                    ∙ nothing,
                done,
              ),
              got,
            )))
        (λ _. ((quiet, nothing, done), refl))
