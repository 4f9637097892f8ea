-- ===== src/Dash/Session/Progress.antt =====
-- How the server of a session completes an answer, where write() always makes progress.
use mathlib.Core.Path.{subst}
use dash_dim.Prelude.{
  ℕ, ◌+◌, ◌-◌, ◌^◌, ◌<◌, ◌≡◌, ◌≢◌, refl, sym, ap, ◌∙◌, true, false, Option, none, some, List, [],
  ◌∷◌, ◌++◌, Yields, Yields-bind, Yields-map, arith, inl, inr,
}
use dash_dim.Prelude.Int.{ℤ, pos, ltb_ℤ, ◌≤ℤ◌}
use dash_dim.Connection.{Read, bytes}
use dash_dim.Dash.Request.{message, read_request}
use dash_dim.Dash.Server.{
  Endpoint, Kernel, IsWrite, front, respond, on_request, on_read_event, on_event,
}
use dash_dim.Dash.Server.Service.{IsServing, IsSmall, sum}
use dash_dim.Dash.Server.Runs.{respond_answers}
use dash_dim.Dash.Session.Answering.{
  IsIdle, IsOwing, IsAnswering, Answers, respond-IsIdle, on_request-Answers, on_event_idle,
  read_request_whole,
}
use dash_dim.Dash.Player.{VideoData}
use dash_dim.Dash.Server
use dash_dim.Dash.Session.{System, arrived, server_step}
use dash_dim.Dash.Session.Asking.{IsSize}
use dash_dim.Dash.Session.Phases.{IsLinked, delayed, asked, answering, finished}
use dash_dim.Dash.Session.Replies.{arrived-message}

IsOwing-IsServing :
    (n : ℕ) (log : List ℕ) (e : Endpoint)
    → n < 2 ^ 31
    → IsOwing n log e
    → IsServing (log ++ (n ∷ [])) e
IsOwing-IsServing n log e small o = record {
  small = subst IsSmall (sym o.one_left) (small, tt);
  queue =
      ap (λ (l : List ℕ). l ++ e.request_bytes) o.log_eq ∙ ap (λ (q : List ℕ). log ++ q) o.one_left;
  bytes_eq = omega (arith, o.total, ap sum o.log_eq);
  within = omega (arith, o.incomplete, ap front o.one_left);
  notified = inr o.notified;
}

not_negative : (a : ℤ) → ltb_ℤ a (pos 0) ≡ false → pos 0 ≤ℤ a
not_negative a h = ground arith

-- A socket that never refuses.
abbrev pub IsPatient : Kernel → Type 0
IsPatient kernel = (call n : ℕ) → kernel call n ≢ none

abbrev pub IsDone : Endpoint → Type 0
IsDone e = e.request_bytes ≡ []

-- What an event of the server with both flags leaves.
abbrev pub IsAnswered : System → System → Type 0
IsAnswered s s' = (s'.client ≡ s.client) × (s'.requests ≡ []) × IsDone s'.server

module _ (kernel : Kernel) (law : IsWrite kernel) (patient : IsPatient kernel) where
  respond-IsDone :
      (n : ℕ) (log : List ℕ) (e : Endpoint)
      → n < 2 ^ 31
      → IsAnswering n log e
      → Yields IsDone (respond kernel e)
  respond-IsDone n log e small (inl o) =
      Yields-map
        (λ e'.
          (e'.request_bytes ≡ [])
          × (e'.answered ≡ log ++ (n ∷ []))
          × (e'.written ≡ sum (log ++ (n ∷ []))))
        IsDone (respond kernel e)
        (respond_answers kernel law patient (log ++ (n ∷ [])) e (IsOwing-IsServing n log e small o)
          (not_negative e.fd o.open_fd))
        (λ e' h. h.0)
  respond-IsDone n log e small (inr idle) =
      rw (respond-IsIdle kernel (log ++ (n ∷ [])) e idle) idle.none_left

  waiting-IsDone :
      (n : ℕ) (log : List ℕ) (e : Endpoint)
      → n < 2 ^ 31
      → IsAnswering n log e
      → Yields IsDone (on_event kernel (record { readable = true; writable = true; reads = [] }) e)
  unfolding on_event on_read_event
  waiting-IsDone n log e small h = respond-IsDone n log e small h

  reading-IsDone :
      (n : ℕ) (log : List ℕ) (e : Endpoint) (chunk : List ℕ)
      → read_request chunk ≡ some n
      → IsSize n
      → IsIdle log e
      → Yields IsDone (
          on_event kernel (record { readable = true; writable = true; reads = bytes chunk ∷ [] }) e)
  unfolding on_event on_read_event
  reading-IsDone n log e chunk asks size idle =
      rw (asks, on_event, on_read_event)
        (Yields-bind (Answers n log e) IsDone
          (elim (on_request kernel n e) as (λ x. Option Endpoint) [
            | none ↦ none
            | some e' ↦ some e'
          ])
          (respond kernel)
          (Yields-bind (Answers n log e) (Answers n log e) (on_request kernel n e) some
            (on_request-Answers kernel law n log e size.0 size.1 idle) (λ e' h. h))
          (λ e' (h, _). respond-IsDone n log e' size.1 h))

  idle-IsDone :
      (log : List ℕ) (e : Endpoint)
      → IsIdle log e
      → Yields IsDone (on_event kernel (record { readable = true; writable = true; reads = [] }) e)
  idle-IsDone log e idle =
      subst (Yields IsDone) (sym (on_event_idle kernel true true log e idle)) idle.none_left

  arrived-IsAnswered :
      (s : System) (rs : List Read)
      → arrived s.requests ≡ rs
      → Yields IsDone (
          Server.on_event kernel (record { readable = true; writable = true; reads = rs }) s.server)
      → Yields (IsAnswered s) (server_step kernel true true s)
  unfolding server_step
  arrived-IsAnswered s rs same h =
      Yields-bind IsDone (IsAnswered s)
        (Server.on_event kernel
          (record { readable = true; writable = true; reads = arrived s.requests }) s.server)
        (λ e. some (record s {
          server = e;
          requests = [];
          arriving = s.arriving + (e.written - s.server.written);
        }))
        (subst
          (λ (reads : List Read). Yields IsDone (
            Server.on_event kernel (record { readable = true; writable = true; reads = reads })
              s.server))
          (sym same) h)
        (λ e done. (refl, refl, done))

  -- An event of the server with both flags set ends the answer.
  pub server_step-IsAnswered :
      {num frames : ℕ} {v : VideoData} (s : System)
      → IsLinked num frames v s
      → Yields (IsAnswered s) (server_step kernel true true s)
  server_step-IsAnswered s linked = elim linked.1.1 [
    | delayed d idle nothing empty ↦
        arrived-IsAnswered s [] (ap arrived nothing) (idle-IsDone linked.1.0 s.server idle)
    | asked r fresh idle sent empty ↦
        arrived-IsAnswered s (bytes (message s.client.segment_bytes) ∷ [])
          (ap arrived sent ∙ arrived-message s.client.segment_bytes)
          (reading-IsDone s.client.segment_bytes linked.1.0 s.server
            (message s.client.segment_bytes) (read_request_whole s.client.segment_bytes r.size)
            r.size idle)
    | answering r open_ answers nothing total ↦
        arrived-IsAnswered s [] (ap arrived nothing)
          (waiting-IsDone s.client.segment_bytes linked.1.0 s.server r.size.1 answers)
    | finished c idle nothing empty ↦
        arrived-IsAnswered s [] (ap arrived nothing) (idle-IsDone linked.1.0 s.server idle)
  ]
