-- ===== src/Dash/Session/Rounds.antt =====
-- A round of a session, in which everything that is due happens once, and its first step.
use mathlib.Core.Path.{subst}
use dash_dim.Prelude.{
  ℕ, zero, suc, ◌-◌, min, ◌%◌, ◌+◌, ◌^◌, ◌≡◌, refl, sym, ap, ◌∙◌, true, false, Option, none, some,
  List, [], ◌∷◌, ◌++◌, if◌then◌else◌, length, drop, replicate, ltb, ◌==◌, IfSome, IfSome-bind,
  ◌>>=◌, arith, if-intro,
}
use dash_dim.Dash.Request.{buffer_size, message, send_request}
use dash_dim.Dash.Player.{Player, Algorithm, segment_num}
use dash_dim.Dash.Client.{request_alarm_event, is_due, on_event, delay_request_handle}
use dash_dim.Dash.Server.{Kernel}
use dash_dim.Dash.Session.{System, Action, client_io, ask_alarm, server_io, client_step, step}
use dash_dim.Dash.Session.Events.{ask_alarm_quiet}

abbrev pub received : System → List ℕ
received s = s.client.throughput.bytes_received

-- The request alarm once it is due.
unfoldable pub alarm_of : ℕ → System → Action
alarm_of now s = elim s.client.request_alarm [ none ↦ ask_alarm now | some t ↦ ask_alarm (now + t) ]

abbrev pub zeros : ℕ → List ℕ
zeros n = replicate n 0

-- `n` bytes as read() gives them, at most kBufferSize at a time.
unfoldable pub pieces : ℕ → ℕ → List (List ℕ)
pieces zero n = []
pieces (suc fuel) n =
    let rest = pieces fuel (n - buffer_size) in
    if n == 0 then [] else zeros (min buffer_size n) ∷ rest

-- All that is on its way.
abbrev pub everything : ℕ → List (List ℕ)
everything n = pieces n n

-- Some of it: at most `cut` bytes, and not the last one.
abbrev pub part : ℕ → ℕ → List (List ℕ)
part cut n = everything (min cut (n - 1))

-- The times of a round: `parts` are the events of the client that find a part of what is on its
-- way, each with its time and how much, and `last` is the one that finds the rest.
pub record Round : Type 0 where
  pub now : ℕ
  pub parts : List (ℕ × ℕ)
  pub last : ℕ

unfoldable pub listens : Algorithm → Kernel → List (ℕ × ℕ) → System → Option System
listens algorithm kernel [] s = some s
listens algorithm kernel ((now, cut) ∷ parts) s =
    elim (step algorithm kernel (client_io now false (part cut s.arriving)) s) [
      | none ↦ none
      | some s' ↦ listens algorithm kernel parts s'
    ]

-- One round: the alarm goes off if it is set, the server reads and writes, the client reads.
unfoldable pub fetch : Algorithm → Kernel → Round → System → Option System
fetch algorithm kernel round s = do
  s' ← step algorithm kernel (alarm_of round.now s) s
  s'' ← step algorithm kernel (server_io true true) s'
  t ← listens algorithm kernel round.parts s''
  step algorithm kernel (client_io round.last false (everything t.arriving)) t

unfoldable pub fetches : Algorithm → Kernel → List Round → System → Option System
fetches algorithm kernel [] s = some s
fetches algorithm kernel (round ∷ rounds) s = elim (fetch algorithm kernel round s) [
  | none ↦ none
  | some s' ↦ fetches algorithm kernel rounds s'
]

-- No alarm is set, and nothing came.
abbrev pub IsQuiet : Player → Player → Type 0
IsQuiet p c = (c.request_alarm ≡ none) × (c.throughput.bytes_received ≡ p.throughput.bytes_received)

delay_request_handle-IsQuiet :
    (now : ℕ) (p : Player)
    → p.request_alarm ≡ none
    → IfSome (IsQuiet p) (delay_request_handle now p)
unfolding delay_request_handle
delay_request_handle-IsQuiet now p quiet = go (segment_num p.video_data)
  where
    sends :
        (num : ℕ) (o : Option (List ℕ))
        → IfSome (IsQuiet p) (elim o as (λ x. Option Player) [
          | none ↦ none
          | some message ↦ some (record p {
            throughput = record (p.throughput) {
              transmission_requested = p.throughput.transmission_requested ++ (now ∷ []);
            };
            output = p.output ++ message;
            index = p.index + 1;
          })
        ])
    sends num none = tt
    sends num (some message) = (quiet, refl)

    go :
        (o : Option ℕ)
        → IfSome (IsQuiet p) (elim o as (λ x. Option Player) [
          | none ↦ some p
          | some num ↦
              if ltb p.index num
              then elim (send_request p.fd (p.segment_bytes % 2 ^ 32)) as (λ x. Option Player) [
                | none ↦ none
                | some message ↦ some (record p {
                  throughput = record (p.throughput) {
                    transmission_requested = p.throughput.transmission_requested ++ (now ∷ []);
                  };
                  output = p.output ++ message;
                  index = p.index + 1;
                })
              ]
              else some p
        ])
    go none = (quiet, refl)
    go (some num) =
        if-intro (ltb p.index num) (IfSome (IsQuiet p))
          (λ _. sends num (send_request p.fd (p.segment_bytes % 2 ^ 32))) (λ _. (quiet, refl))

ask_now-IsQuiet :
    (algorithm : Algorithm) (now : ℕ) (p : Player)
    → is_due now p.request_alarm ≡ true
    → IfSome (IsQuiet p) (on_event algorithm now request_alarm_event p)
unfolding on_event
ask_now-IsQuiet algorithm now p due =
    rw (due, on_event) (delay_request_handle-IsQuiet now (record p { request_alarm = none }) refl)

pub alarm_of-IsQuiet :
    (algorithm : Algorithm) (kernel : Kernel) (now : ℕ) (s : System)
    → IfSome (λ s'. IsQuiet s.client s'.client) (step algorithm kernel (alarm_of now s) s)
unfolding step client_step alarm_of
alarm_of-IsQuiet algorithm kernel now s = go s.client.request_alarm refl
  where
    called :
        (time : ℕ)
        → IfSome (IsQuiet s.client) (on_event algorithm time request_alarm_event s.client)
        → IfSome
            (λ s'. IsQuiet s.client s'.client)
            (client_step algorithm time request_alarm_event s)
    called time h =
        IfSome-bind (IsQuiet s.client) (λ s'. IsQuiet s.client s'.client)
          (on_event algorithm time request_alarm_event s.client)
          (λ c. some (record s {
            client = c;
            requests = s.requests ++ drop (length s.client.output) c.output;
          }))
          h (λ c quiet. quiet)

    go :
        (o : Option ℕ)
        → s.client.request_alarm ≡ o
        → IfSome
            (λ s'. IsQuiet s.client s'.client)
            (step algorithm kernel
              (elim o as (λ x. Action) [ none ↦ ask_alarm now | some t ↦ ask_alarm (now + t) ])
              s)
    go none e = called now (
        subst (IfSome (IsQuiet s.client)) (sym (ask_alarm_quiet algorithm now s.client e))
          (e, refl))
    go (some t) e =
        called (now + t)
          (ask_now-IsQuiet algorithm (now + t) s.client (ap (is_due (now + t)) e ∙ ground arith))
