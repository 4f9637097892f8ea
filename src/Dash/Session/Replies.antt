-- ===== src/Dash/Session/Replies.antt =====
-- Every event of the server keeps the session in its phases.
use mathlib.Core.Path.{subst}
use dash_dim.Prelude.{
  ℕ, ◌+◌, ◌-◌, ◌<◌, ◌≡◌, refl, sym, ap, ◌∙◌, Bool, true, false, Option, some, List, [], ◌∷◌,
  if◌then◌else◌, Yields, Yields-bind, arith,
}
use dash_dim.Connection.{Read, bytes}
use dash_dim.Dash.Request.{message}
use dash_dim.Dash.Player.{VideoData}
use dash_dim.Dash.Client.Invariant.{IsPlaying}
use dash_dim.Dash.Server.{Endpoint, Kernel, IsWrite, endpoint}
use dash_dim.Dash.Server
use dash_dim.Dash.Server.Service.{sum}
use dash_dim.Dash.Session.{System, arrived, server_step}
use dash_dim.Dash.Session.Asking.{line}
use dash_dim.Dash.Session.Answering.{
  IsIdle, IsAnswering, Answers, on_event_asked, on_event_waiting, on_event_idle, on_event_unread,
}
use dash_dim.Dash.Session.Receiving.{IsReceiving}
use dash_dim.Dash.Session.Phases.{delayed, asked, answering, finished, IsLinked}
use dash_dim.Codec.Endian.{host_bytes}

-- A message is not empty.
pub arrived-message : (n : ℕ) → arrived (message n) ≡ bytes (message n) ∷ []
unfolding host_bytes
arrived-message n = refl

-- An idle server stays as it is.
abbrev IsSame : List ℕ → System → Endpoint → Type 0
IsSame log s e = IsIdle log e × (e.written ≡ s.server.written)

some-IsSame :
    (log : List ℕ) (s : System) (o : Option Endpoint)
    → o ≡ some s.server
    → IsIdle log s.server
    → Yields (IsSame log s) o
some-IsSame log s o same idle = subst (Yields (IsSame log s)) (sym same) (idle, refl)

still :
    (readable : Bool) (s : System) → s.requests ≡ [] → (if readable then [] else s.requests) ≡ []
still true s nothing = refl
still false s nothing = nothing

module _ (num frames : ℕ) (v : VideoData) where
  -- The session after an event of the server.
  abbrev served : Bool → System → Endpoint → System
  served readable s e = record s {
    server = e;
    requests = if readable then [] else s.requests;
    arriving = s.arriving + (e.written - s.server.written);
  }

  server_bind :
      (kernel : Kernel) (readable writable : Bool) (s : System) (rs : List Read)
      → arrived s.requests ≡ rs
      → (P : Endpoint → Type 0)
      → Yields P (
          Server.on_event kernel
            (record { readable = readable; writable = writable; reads = rs })
            s.server)
      → ((e : Endpoint) → P e → IsLinked num frames v (served readable s e))
      → Yields (IsLinked num frames v) (server_step kernel readable writable s)
  unfolding server_step
  server_bind kernel readable writable s rs same P h next =
      Yields-bind P (IsLinked num frames v)
        (Server.on_event kernel
          (record { readable = readable; writable = writable; reads = arrived s.requests })
          s.server)
        (λ e. some (served readable s e))
        (subst
          (λ (reads : List Read). Yields P (
            Server.on_event kernel
              (record { readable = readable; writable = writable; reads = reads }) s.server))
          (sym same) h)
        next

  -- With nothing on its way to it, and nothing owed.
  idle_server :
      (kernel : Kernel) (readable writable : Bool) (s : System) (log : List ℕ)
      → IsIdle log s.server
      → s.requests ≡ []
      → ((e : Endpoint) → IsSame log s e → IsLinked num frames v (served readable s e))
      → Yields (IsLinked num frames v) (server_step kernel readable writable s)
  idle_server kernel readable writable s log idle nothing next =
      server_bind kernel readable writable s [] (ap arrived nothing) (IsSame log s)
        (some-IsSame log s _ (on_event_idle kernel readable writable log s.server idle) idle) next

  -- With a request on its way.
  asked_server :
      (kernel : Kernel)
      → IsWrite kernel
      → (readable writable : Bool) (s : System) → IsPlaying num frames v s.client
      → (log : List ℕ) → IsReceiving num v log s.client.output (line s.client)
      → s.client.read_bytes ≡ 0
      → IsIdle log s.server
      → s.requests ≡ message s.client.segment_bytes
      → s.arriving ≡ 0
      → Yields (IsLinked num frames v) (server_step kernel readable writable s)
  asked_server kernel law true writable s playing log r fresh idle sent empty =
      server_bind kernel true writable s (bytes (message s.client.segment_bytes) ∷ [])
        (ap arrived sent ∙ arrived-message s.client.segment_bytes)
        (Answers s.client.segment_bytes log s.server)
        (on_event_asked kernel law writable s.client.segment_bytes log s.server r.size.0 r.size.1
          idle)
        (λ e (answers, grows). (
          playing,
          (
            log,
            answering r (omega (arith, fresh, r.size.0)) answers refl
                (omega (arith, fresh, empty, idle.total, grows)),
          ),
        ))
  asked_server kernel law false writable s playing log r fresh idle sent empty =
      server_bind kernel false writable s (arrived s.requests) refl (IsSame log s)
        (some-IsSame log s _
          (on_event_unread kernel writable (arrived s.requests) log s.server idle) idle)
        (λ e (idle', same). (playing, (log, asked r fresh idle' sent (omega (arith, empty, same)))))

  answering_server :
      (kernel : Kernel)
      → IsWrite kernel
      → (readable writable : Bool) (s : System) → IsPlaying num frames v s.client
      → (log : List ℕ) → IsReceiving num v log s.client.output (line s.client)
      → s.client.read_bytes < s.client.segment_bytes
      → IsAnswering s.client.segment_bytes log s.server
      → s.requests ≡ []
      → sum log + s.client.read_bytes + s.arriving ≡ s.server.written
      → Yields (IsLinked num frames v) (server_step kernel readable writable s)
  answering_server kernel law readable writable s playing log r open_ answers nothing total =
      server_bind kernel readable writable s [] (ap arrived nothing)
        (Answers s.client.segment_bytes log s.server)
        (on_event_waiting kernel law readable writable s.client.segment_bytes log s.server r.size.1
          answers)
        (λ e (answers', grows). (
          playing,
          (
            log,
            answering r open_ answers' (still readable s nothing) (omega (arith, total, grows)),
          ),
        ))

  pub server_step-IsLinked :
      (kernel : Kernel)
      → IsWrite kernel
      → (readable writable : Bool) (s : System) → IsLinked num frames v s
      → Yields (IsLinked num frames v) (server_step kernel readable writable s)
  server_step-IsLinked kernel law readable writable s linked = elim linked.1.1 [
    | delayed d idle nothing empty ↦
        idle_server kernel readable writable s linked.1.0 idle nothing (λ e (idle', same). (
          linked.0,
          (linked.1.0, delayed d idle' (still readable s nothing) (omega (arith, empty, same))),
        ))
    | asked r fresh idle sent empty ↦
        asked_server kernel law readable writable s linked.0 linked.1.0 r fresh idle sent empty
    | answering r open_ answers nothing total ↦
        answering_server kernel law readable writable s linked.0 linked.1.0 r open_ answers nothing
          total
    | finished c idle nothing empty ↦
        idle_server kernel readable writable s linked.1.0 idle nothing (λ e (idle', same). (
          linked.0,
          (linked.1.0, finished c idle' (still readable s nothing) (omega (arith, empty, same))),
        ))
  ]
