-- ===== src/Dash/Session/Answering.antt =====
-- How the server of a session answers one request: DashServerEndpoint, with one size in its queue.
use mathlib.Core.Path.{subst}
use dash_dim.Prelude.{
  ℕ, ◌+◌, ◌^◌, ◌≤◌, ◌<◌, ◌≡◌, refl, sym, ap, ◌∙◌, Bool, true, false, Option, none, some, List, [],
  ◌∷◌, ◌++◌, ◌==◌, if◌then◌else◌, length, length-append, Yields, Yields-bind, Yields-map, arith,
  if-intro, ==→≡, ==→≢, ◌⊎◌, inl, inr, Bool-cases, append-nil,
}
use dash_dim.Prelude.Int.{pos, ltb_ℤ}
use dash_dim.Connection.{Read, bytes}
use dash_dim.Dash.Request.{message, length-message, read_request, read_request-message}
use dash_dim.Dash.Session.Asking.{IsSize}
use dash_dim.Dash.Server.Sending.{Sends, send_loop-Sends}
use dash_dim.Dash.Server.Service.{sum, sum-append}
use dash_dim.Dash.Server.{
  Endpoint, Kernel, IsWrite, progress, send_loop, pop_request, respond_loop, respond, front,
  on_request, on_read_event, on_event,
}

-- Nothing is owed, on an open descriptor: `log` holds the sizes that were answered.
pub record IsIdle (log : List ℕ) (e : Endpoint) : Type 0 where
  pub open_fd : ltb_ℤ e.fd (pos 0) ≡ false
  pub none_left : e.request_bytes ≡ []
  pub unsent : e.sent_bytes ≡ 0
  pub log_eq : e.answered ≡ log
  pub total : e.written ≡ sum log

-- `n` bytes are owed, and some are left; the endpoint waits for EPOLLOUT.
pub record IsOwing (n : ℕ) (log : List ℕ) (e : Endpoint) : Type 0 where
  pub open_fd : ltb_ℤ e.fd (pos 0) ≡ false
  pub one_left : e.request_bytes ≡ n ∷ []
  pub incomplete : e.sent_bytes < n
  pub log_eq : e.answered ≡ log
  pub total : e.written ≡ sum log + e.sent_bytes
  pub notified : e.epoll_out ≡ true

-- The answer of `n` bytes is under way, or done.
abbrev pub IsAnswering : ℕ → List ℕ → Endpoint → Type 0
IsAnswering n log e = IsOwing n log e ⊎ IsIdle (log ++ (n ∷ [])) e

-- One call never takes bytes back.
abbrev pub Answers : ℕ → List ℕ → Endpoint → Endpoint → Type 0
Answers n log e e' = IsAnswering n log e' × (e.written ≤ e'.written)

pop_request-IsIdle :
    (n k c : ℕ) (log : List ℕ) (e : Endpoint)
    → IsOwing n log e
    → e.sent_bytes + k ≡ n
    → IsIdle (log ++ (n ∷ [])) (pop_request 0 (progress k c e))
unfolding pop_request progress
pop_request-IsIdle n k c log e o done =
    rw (o.one_left, pop_request, progress)
      (record {
        open_fd = o.open_fd;
        none_left = refl;
        unsent = refl;
        log_eq = ap (λ (l : List ℕ). l ++ (n ∷ [])) o.log_eq;
        total = omega (arith, o.total, sum-append log (n ∷ []));
      })

progress-IsOwing :
    (n k c : ℕ) (log : List ℕ) (e : Endpoint)
    → IsOwing n log e
    → e.sent_bytes + k < n
    → IsOwing n log (progress k c e)
unfolding progress
progress-IsOwing n k c log e o less = record {
  open_fd = o.open_fd;
  one_left = o.one_left;
  incomplete = less;
  log_eq = o.log_eq;
  total = omega (arith, o.total);
  notified = o.notified;
}

-- Responce on one request.
respond_loop-Answers :
    (kernel : Kernel)
    → IsWrite kernel
    → (n : ℕ) (log : List ℕ) (e : Endpoint) → n < 2 ^ 31
    → IsOwing n log e
    → Yields (Answers n log e) (respond_loop kernel 1 1 e)
unfolding respond_loop progress pop_request
respond_loop-Answers kernel law n log e small o =
    Yields-bind (Sends kernel b e) (Answers n log e) (send_loop kernel b b e) after
      (send_loop-Sends kernel law b b e (omega (arith, first)) (omega (arith, first, o.incomplete))
        (omega arith))
      (λ r (k, c, same, fits, more, why). elim (Bool-cases (e.sent_bytes + k == b)) [
        | inl done ↦
            rw (same, more, done)
              (
                inr (pop_request-IsIdle n k c log e o (==→≡ _ _ done ∙ first)),
                (unfold pop_request progress in omega arith),
              )
        | inr open_ ↦
            rw (same, more, open_)
              (
                inl (progress-IsOwing n k c log e o (omega (arith, ==→≢ _ _ open_, fits, first))),
                (unfold progress in omega arith),
              )
      ])
  where
    b : ℕ
    b = front e.request_bytes

    first : b ≡ n
    first = ap front o.one_left

    after : Bool × Endpoint → Option Endpoint
    after (full, e') =
        let done = e'.sent_bytes == b in
        let left : ℕ = if done then 0 else 1 in
        let next : Endpoint = if done then pop_request 0 e' else e' in
        let more = respond_loop kernel 0 left next in if full then some next else more

respond-Answers :
    (kernel : Kernel)
    → IsWrite kernel
    → (n : ℕ) (log : List ℕ) (e : Endpoint) → n < 2 ^ 31
    → IsOwing n log e
    → Yields (Answers n log e) (respond kernel e)
unfolding respond
respond-Answers kernel law n log e small o =
    subst (λ (k : ℕ). Yields (Answers n log e) (respond_loop kernel k k e))
      (sym (ap length o.one_left)) (respond_loop-Answers kernel law n log e small o)

-- With nothing to do it does nothing.
pub respond-IsIdle :
    (kernel : Kernel) (log : List ℕ) (e : Endpoint) → IsIdle log e → respond kernel e ≡ some e
unfolding respond respond_loop
respond-IsIdle kernel log e idle = rw idle.none_left refl

respond_on :
    (kernel : Kernel)
    → IsWrite kernel
    → (n : ℕ) (log : List ℕ) (e : Endpoint) → n < 2 ^ 31
    → IsAnswering n log e
    → Yields (Answers n log e) (respond kernel e)
respond_on kernel law n log e small (inl o) = respond-Answers kernel law n log e small o
respond_on kernel law n log e small (inr idle) =
    rw (respond-IsIdle kernel (log ++ (n ∷ [])) e idle) (inr idle, omega arith)

-- The request comes.
pub on_request-Answers :
    (kernel : Kernel)
    → IsWrite kernel
    → (n : ℕ) (log : List ℕ) (e : Endpoint) → 0 < n
    → n < 2 ^ 31
    → IsIdle log e
    → Yields (Answers n log e) (on_request kernel n e)
unfolding on_request
on_request-Answers kernel law n log e positive small idle =
    respond-Answers kernel law n log _ small (record {
      open_fd = idle.open_fd;
      one_left = ap (λ (q : List ℕ). q ++ (n ∷ [])) idle.none_left;
      incomplete = omega (arith, idle.unsent);
      log_eq = idle.log_eq;
      total = omega (arith, idle.total, idle.unsent);
      notified = refl;
    })

on_event_reading :
    (kernel : Kernel)
    → IsWrite kernel
    → (writable : Bool) (n : ℕ) (log : List ℕ) (e : Endpoint) (chunk : List ℕ)
    → read_request chunk ≡ some n
    → 0 < n
    → n < 2 ^ 31
    → IsIdle log e
    → Yields (Answers n log e) (
        on_event kernel
          (record { readable = true; writable = writable; reads = bytes chunk ∷ [] })
          e)
unfolding on_event on_read_event
on_event_reading kernel law writable n log e chunk asks positive small idle =
    rw (asks, on_event, on_read_event)
      (Yields-bind (Answers n log e) (Answers n log e)
        (elim (on_request kernel n e) as (λ x. Option Endpoint) [ none ↦ none | some e' ↦ some e' ])
        (λ e'. if writable then respond kernel e' else some e')
        (Yields-bind (Answers n log e) (Answers n log e) (on_request kernel n e) some
          (on_request-Answers kernel law n log e positive small idle) (λ e' h. h))
        (λ e' (h, grows).
          if-intro writable (Yields (Answers n log e))
            (λ _.
              Yields-map (Answers n log e') (Answers n log e) (respond kernel e')
                (respond_on kernel law n log e' small h) (λ e'' (k, more). (k, omega arith)))
            (λ _. (h, grows))))

-- A request in a read() of its own.
pub read_request_whole : (n : ℕ) → IsSize n → read_request (message n) ≡ some n
read_request_whole n size =
    ap read_request (sym (append-nil (message n)))
    ∙ read_request-message n [] (omega (arith, size.1))
        (omega (arith, length-message n, length-append (message n) []))

-- The event that brings a request.
pub on_event_asked :
    (kernel : Kernel)
    → IsWrite kernel
    → (writable : Bool) (n : ℕ) (log : List ℕ) (e : Endpoint) → 0 < n
    → n < 2 ^ 31
    → IsIdle log e
    → Yields (Answers n log e) (
        on_event kernel
          (record { readable = true; writable = writable; reads = bytes (message n) ∷ [] })
          e)
on_event_asked kernel law writable n log e positive small idle =
    on_event_reading kernel law writable n log e (message n)
      (read_request_whole n (positive, small)) positive small idle

-- An event that brings nothing.
pub on_event_waiting :
    (kernel : Kernel)
    → IsWrite kernel
    → (readable writable : Bool) (n : ℕ) (log : List ℕ) (e : Endpoint) → n < 2 ^ 31
    → IsAnswering n log e
    → Yields
        (Answers n log e)
        (on_event kernel (record { readable = readable; writable = writable; reads = [] }) e)
unfolding on_event on_read_event
on_event_waiting kernel law true true n log e small h = respond_on kernel law n log e small h
on_event_waiting kernel law false true n log e small h = respond_on kernel law n log e small h
on_event_waiting kernel law true false n log e small h = (h, omega arith)
on_event_waiting kernel law false false n log e small h = (h, omega arith)

pub on_event_idle :
    (kernel : Kernel) (readable writable : Bool) (log : List ℕ) (e : Endpoint)
    → IsIdle log e
    → on_event kernel (record { readable = readable; writable = writable; reads = [] }) e ≡ some e
unfolding on_event on_read_event
on_event_idle kernel true true log e idle = respond-IsIdle kernel log e idle
on_event_idle kernel false true log e idle = respond-IsIdle kernel log e idle
on_event_idle kernel true false log e idle = refl
on_event_idle kernel false false log e idle = refl

-- An event that does not look for a request.
pub on_event_unread :
    (kernel : Kernel) (writable : Bool) (reads : List Read) (log : List ℕ) (e : Endpoint)
    → IsIdle log e
    → on_event kernel (record { readable = false; writable = writable; reads = reads }) e ≡ some e
unfolding on_event
on_event_unread kernel true reads log e idle = respond-IsIdle kernel log e idle
on_event_unread kernel false reads log e idle = refl
