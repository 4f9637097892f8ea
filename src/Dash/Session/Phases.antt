-- ===== src/Dash/Session/Phases.antt =====
-- A session in its phases: where the next request, or the bytes that answer it, are.
use mathlib.Core.Path.{subst}
use dash_dim.Prelude.{
  ℕ, ◌+◌, ◌<◌, ◌≡◌, refl, sym, ap, ◌∙◌, none, some, List, [], ◌∷◌, ◌++◌, append-nil, length, drop,
  drop-append, inl, inr,
}
use dash_dim.Dash.Request.{message}
use dash_dim.Dash.Player.{Player, VideoData}
use dash_dim.Dash.Client.Invariant.{IsPlaying}
use dash_dim.Dash.Server.{Endpoint}
use dash_dim.Dash.Server.Service.{sum}
use dash_dim.Dash.Session.{System}
use dash_dim.Dash.Session.Asking.{IsSize, Line, line, IsReady, IsAsking}
use dash_dim.Dash.Session.Answering.{IsIdle, IsAnswering}
use dash_dim.Dash.Session.Receiving.{IsReceiving, IsClosed}

-- The next request waits for its alarm.
pub record IsDelayed (num : ℕ) (v : VideoData) (log : List ℕ) (l : Line) : Type 0 where
  pub ready : IsReady num v log l.output (record l { request_alarm = none })
  pub due : (t : ℕ) × (l.request_alarm ≡ some t)
  pub fresh : l.read_bytes ≡ 0
  pub size : IsSize l.segment_bytes

-- `log` holds the sizes of the segments that came. The next one waits for an alarm; it has been
-- asked for, by the one request that is on its way; the server answers it, or the last of its bytes
-- are on their way; or all segments came and the client has closed its end.
pub data Phase (num : ℕ) (v : VideoData) (log : List ℕ) (l : Line) (e : Endpoint)
    (requests : List ℕ) (arriving : ℕ) : Type 0 where
  delayed :
      IsDelayed num v log l
      → IsIdle log e
      → requests ≡ []
      → arriving ≡ 0
      → Phase num v log l e requests arriving
  asked :
      IsReceiving num v log l.output l
      → l.read_bytes ≡ 0
      → IsIdle log e
      → requests ≡ message l.segment_bytes
      → arriving ≡ 0
      → Phase num v log l e requests arriving
  answering :
      IsReceiving num v log l.output l
      → l.read_bytes < l.segment_bytes
      → IsAnswering l.segment_bytes log e
      → requests ≡ []
      → sum log + l.read_bytes + arriving ≡ e.written
      → Phase num v log l e requests arriving
  finished :
      IsClosed num log l.output l
      → IsIdle log e
      → requests ≡ []
      → arriving ≡ 0
      → Phase num v log l e requests arriving

abbrev pub IsLinked : ℕ → ℕ → VideoData → System → Type 0
IsLinked num frames v s =
    IsPlaying num frames v s.client
    × ((log : List ℕ) × Phase num v log (line s.client) s.server s.requests s.arriving)

pub drop_all {ℓ} : {A : Type ℓ} (xs : List A) → drop (length xs) xs ≡ []
drop_all [] = refl
drop_all (x ∷ xs) = drop_all xs

-- What a client that has asked, or will, makes of an idle session.
pub asks-Phase :
    {num : ℕ} {v : VideoData} {log : List ℕ} (out : List ℕ) (l : Line) (e : Endpoint)
    → IsAsking num v log out l
    → IsIdle log e
    → Phase num v log l e (drop (length out) l.output) 0
asks-Phase out l e a idle = elim a.sending [
  | inl (quiet, wrote, place, in_range) ↦
      asked
        (record {
          video = a.video;
          open_fd = a.open_fd;
          got = a.got;
          wrote = refl;
          quiet = quiet;
          place = place;
          in_range = in_range;
          size = a.size;
        })
        a.fresh idle (ap (drop (length out)) wrote ∙ drop-append out (message l.segment_bytes)) refl
  | inr (t, due, wrote, place, more) ↦
      delayed
        (record {
          ready = record {
            video = a.video;
            open_fd = a.open_fd;
            got = a.got;
            wrote = refl;
            quiet = refl;
            place = place;
            more = more;
          };
          due = (t, due);
          fresh = a.fresh;
          size = a.size;
        })
        idle (ap (drop (length out)) wrote ∙ drop_all out) refl
]

-- What is on its way after a call of the client.
abbrev pub sent_on : System → Player → List ℕ
sent_on s c = s.requests ++ drop (length s.client.output) c.output

abbrev pub After : ℕ → ℕ → VideoData → System → ℕ → Player → Type 0
After num frames v s arriving c =
    IsPlaying num frames v c
    × ((log : List ℕ) × Phase num v log (line c) s.server (sent_on s c) arriving)

module _ {num frames : ℕ} {v : VideoData} where
  -- A call that leaves the connection alone.
  pub same-After :
      (s : System) (c : Player)
      → IsLinked num frames v s
      → IsPlaying num frames v c
      → line s.client ≡ line c
      → After num frames v s s.arriving c
  same-After s c (_, (log, phase)) playing same = (
    playing,
    (
      log,
      subst (λ (l : Line). Phase num v log l s.server (sent_on s c) s.arriving) same
          (subst (λ (rs : List ℕ). Phase num v log (line s.client) s.server rs s.arriving)
            (sym (
              ap (λ (l : Line). s.requests ++ drop (length s.client.output) l.output) (sym same)
              ∙ ap (λ (xs : List ℕ). s.requests ++ xs) (drop_all s.client.output)
              ∙ append-nil s.requests))
            phase),
    ),
  )

  -- A call that asks, in an idle session.
  pub asks-After :
      (s : System) (c : Player) (log : List ℕ)
      → IsPlaying num frames v c
      → IsAsking num v log s.client.output (line c)
      → IsIdle log s.server
      → s.requests ≡ []
      → After num frames v s 0 c
  asks-After s c log playing a idle nothing = (
    playing,
    (
      log,
      subst (λ (rs : List ℕ). Phase num v log (line c) s.server rs 0)
          (ap (λ (xs : List ℕ). xs ++ drop (length s.client.output) c.output) (sym nothing))
          (asks-Phase s.client.output (line c) s.server a idle),
    ),
  )
