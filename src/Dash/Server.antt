-- ===== src/Dash/Server.antt =====
-- DashServerEndpoint of dash/dash_server.h and dash/dash_server.cc: the queue of requested sizes and
-- the bytes that answer them. The content of the bytes is never set, so they are counted.
-- `answered` logs the sizes that were taken off the queue, `written` counts the bytes that write()
-- took, and `calls` the calls of it.
pub mod Sending
pub mod Service
pub mod Refinement
pub mod Runs
use dash_dim.Prelude.{
  ℕ, zero, suc, ◌+◌, ◌-◌, ◌%◌, ◌^◌, ◌≤◌, ◌<◌, Bool, true, false, Option, none, some, List, [], ◌∷◌,
  ◌++◌, ltb, ◌==◌, if◌then◌else◌, length, min, IfSome, size_mod,
}
use dash_dim.Prelude.Int.{ℤ, pos, negsuc, ltb_ℤ}
use dash_dim.Connection.{Read, end_of_file, bytes}
use dash_dim.Dash.Request.{read_request, buffer_size}

pub record Endpoint : Type 0 where
  pub fd : ℤ
  pub destroyed : Bool
  pub deletes : ℕ
  pub sent_bytes : ℕ
  pub request_bytes : List ℕ
  pub counter : ℕ
  pub epoll_out : Bool
  pub calls : ℕ
  pub answered : List ℕ
  pub written : ℕ

-- DashServerEndpoint's constructor.
unfoldable pub endpoint : ℤ → Endpoint
endpoint fd = record {
  fd = fd;
  destroyed = false;
  deletes = 0;
  sent_bytes = 0;
  request_bytes = [];
  counter = 0;
  epoll_out = false;
  calls = 0;
  answered = [];
  written = 0;
}

-- What write() answers at its n-th call for so many bytes: the count accepted, or `none` for -1.
abbrev pub Kernel : Type 0
Kernel = ℕ → ℕ → Option ℕ

-- A write() that succeeds on a non-blocking socket takes some of what it is offered.
abbrev pub IsWrite : Kernel → Type 0
IsWrite kernel = (call n : ℕ) → 0 < n → IfSome (λ k. (0 < k) × (k ≤ n)) (kernel call n)

-- `std::min(kBufferSize, (int)(bytes - sent_bytes_))`, as the size_t that write() gets: from 2^31
-- on the cast is negative.
unfoldable pub intend : ℕ → ℕ → ℕ
intend bytes_ sent =
    let rest = (bytes_ + 2 ^ 32 - sent) % 2 ^ 32 in
    if ltb rest (2 ^ 31) then min buffer_size rest else size_mod - (2 ^ 32 - rest)

-- A closed descriptor is refused.
unfoldable pub write : Kernel → ℕ → Endpoint → Option ℕ
write kernel n e = if ltb_ℤ e.fd (pos 0) then none else kernel e.calls n

-- `n` more bytes of the first request, by `c` calls of write().
unfoldable pub progress : ℕ → ℕ → Endpoint → Endpoint
progress n c e = record e {
  sent_bytes = e.sent_bytes + n;
  written = e.written + n;
  calls = e.calls + c;
}

-- The inner loop of Responce: `full`, and the endpoint.
unfoldable pub send_loop : Kernel → ℕ → ℕ → Endpoint → Option (Bool × Endpoint)
unfolding write progress intend
send_loop kernel zero bytes_ e = if ltb e.sent_bytes bytes_ then none else some (false, e)
send_loop kernel (suc fuel) bytes_ e =
    let more : Option (Bool × Endpoint) = elim (write kernel (intend bytes_ e.sent_bytes) e) [
      | none ↦ some (true, progress 0 1 e)
      | some sent ↦ send_loop kernel fuel bytes_ (progress sent 1 e)
    ] in
    if ltb e.sent_bytes bytes_ then more else some (false, e)

abbrev pub front : List ℕ → ℕ
front [] = 0
front (n ∷ ns) = n

abbrev pub pop_front : List ℕ → List ℕ
pop_front [] = []
pop_front (n ∷ ns) = ns

-- The first request is answered; `num` counts those that are left after it.
unfoldable pub pop_request : ℕ → Endpoint → Endpoint
pop_request num e = record e {
  request_bytes = pop_front e.request_bytes;
  answered = e.answered ++ (front e.request_bytes ∷ []);
  sent_bytes = 0;
  epoll_out = if num == 0 then false else e.epoll_out;
}

-- The outer loop: each round answers a request or finds the socket full.
unfoldable pub respond_loop : Kernel → ℕ → ℕ → Endpoint → Option Endpoint
respond_loop kernel fuel zero e = some e
respond_loop kernel zero (suc num) e = none
respond_loop kernel (suc fuel) (suc num) e =
    let bytes_ = front e.request_bytes in
    elim (send_loop kernel bytes_ bytes_ e) [
      | none ↦ none
      | some (full, e') ↦
          let done = e'.sent_bytes == bytes_ in
          let left : ℕ = if done then num else suc num in
          let next : Endpoint = if done then pop_request num e' else e' in
          let more = respond_loop kernel fuel left next in if full then some next else more
    ]

-- Responce.
unfoldable pub respond : Kernel → Endpoint → Option Endpoint
respond kernel e = respond_loop kernel (length e.request_bytes) (length e.request_bytes) e

-- A request that was read.
unfoldable pub on_request : Kernel → ℕ → Endpoint → Option Endpoint
on_request kernel n e = respond kernel (record e {
  counter = e.counter + 1;
  request_bytes = e.request_bytes ++ (n ∷ []);
  epoll_out = true;
})

unfoldable pub close : Endpoint → Endpoint
close e = if ltb_ℤ (pos 0) e.fd then record e { fd = negsuc 0 } else e

-- DeleteSelf posts one deletion.
unfoldable pub delete_self : Endpoint → Endpoint
delete_self e = if e.destroyed then e else record e { destroyed = true; deletes = e.deletes + 1 }

-- OnUnregistration and OnShutdown.
unfoldable pub on_shutdown : Endpoint → Endpoint
on_shutdown e = delete_self (close e)

-- OnReadEvent, where read() answers `reads` and then -1. At the end of the file the descriptor is
-- unregistered, which closes it, and the next read() of it is refused.
unfoldable pub on_read_event : Kernel → List Read → Endpoint → Option Endpoint
on_read_event kernel [] e = some e
on_read_event kernel (end_of_file ∷ reads) e = some (on_shutdown e)
on_read_event kernel (bytes chunk ∷ reads) e = elim (read_request chunk) [
  | none ↦ on_read_event kernel reads e
  | some n ↦ elim (on_request kernel n e) [ none ↦ none | some e' ↦ on_read_event kernel reads e' ]
]

-- The flags of an event, and what read() answers where it is readable.
pub record Event : Type 0 where
  pub readable : Bool
  pub writable : Bool
  pub reads : List Read

unfoldable pub on_event : Kernel → Event → Endpoint → Option Endpoint
on_event kernel event e =
    elim (if event.readable then on_read_event kernel event.reads e else some e) [
      | none ↦ none
      | some e' ↦ if event.writable then respond kernel e' else some e'
    ]
