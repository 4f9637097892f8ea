-- ===== src/Dash/Server/Service.antt =====
-- Responce and the handlers of DashServerEndpoint, as a service that owes what it was asked for.
use mathlib.Core.Path.{subst}
use dash_dim.Prelude.{
  ℕ, zero, suc, ◌+◌, ◌^◌, ◌≤◌, ◌<◌, ◌≡◌, refl, ap, ◌∙◌, Bool, true, false, not, Option, some, List,
  [], ◌∷◌, ◌++◌, ◌==◌, if◌then◌else◌, length, Yields, Yields-bind, arith, All, ==→≡, ==→≢,
  append_assoc, ◌⊎◌, inl, inr, Bool-cases, nil_of,
}
use dash_dim.Prelude.Int.{ℤ}
use dash_dim.Dash.Server.Sending.{IsRefused, Sends, send_loop-Sends}
use dash_dim.Dash.Server.{
  Endpoint, Kernel, IsWrite, progress, send_loop, front, pop_front, pop_request, respond_loop,
  respond,
}

abbrev pub sum : List ℕ → ℕ
sum [] = 0
sum (n ∷ ns) = n + sum ns

pub sum-append : (ms ns : List ℕ) → sum (ms ++ ns) ≡ sum ms + sum ns
sum-append [] ns = omega arith
sum-append (m ∷ ms) ns = omega (arith, sum-append ms ns)

-- Sizes that an int holds.
abbrev pub IsSmall : List ℕ → Type 0
IsSmall ns = All (λ n. n < 2 ^ 31) ns

-- The queue and the counts are those of the requests so far, and EPOLLOUT is asked for while
-- something is owed.
pub record IsServing (requested : List ℕ) (e : Endpoint) : Type 0 where
  pub small : IsSmall e.request_bytes
  pub queue : e.answered ++ e.request_bytes ≡ requested
  pub bytes_eq : e.written ≡ sum e.answered + e.sent_bytes
  pub within : e.sent_bytes ≤ front e.request_bytes
  pub notified : (e.request_bytes ≡ []) ⊎ (e.epoll_out ≡ true)

-- Between two calls the first request is never complete.
pub record IsResting (requested : List ℕ) (e : Endpoint) : Type 0 where
  pub serving : IsServing requested e
  pub incomplete :
      ((e.request_bytes ≡ []) × (e.sent_bytes ≡ 0)) ⊎ (e.sent_bytes < front e.request_bytes)

progress-IsServing :
    (requested : List ℕ) (n c : ℕ) (e : Endpoint)
    → IsServing requested e
    → e.sent_bytes + n ≤ front e.request_bytes
    → IsServing requested (progress n c e)
unfolding progress
progress-IsServing requested n c e s fits = record {
  small = s.small;
  queue = s.queue;
  bytes_eq = omega (arith, s.bytes_eq);
  within = fits;
  notified = s.notified;
}

front-pop_front : (q : List ℕ) (num : ℕ) → length q ≡ suc num → front q ∷ pop_front q ≡ q
front-pop_front [] num h = absurd (omega arith)
front-pop_front (n ∷ ns) num h = refl

length-pop_front : (q : List ℕ) (num : ℕ) → length q ≡ suc num → length (pop_front q) ≡ num
length-pop_front [] num h = absurd (omega arith)
length-pop_front (n ∷ ns) num h = omega arith

pop_front-IsSmall : (q : List ℕ) → IsSmall q → IsSmall (pop_front q)
pop_front-IsSmall [] h = h
pop_front-IsSmall (n ∷ ns) (h, hs) = hs

front_small : (q : List ℕ) → IsSmall q → front q < 2 ^ 31
front_small [] h = omega arith
front_small (n ∷ ns) (h, hs) = h

nil_or :
    (q : List ℕ) (num : ℕ) (b : Bool)
    → length q ≡ num
    → b ≡ true
    → (q ≡ []) ⊎ ((if num == 0 then false else b) ≡ true)
nil_or [] num b size h = inl refl
nil_or (n ∷ ns) zero b size h = absurd (omega arith)
nil_or (n ∷ ns) (suc num) b size h = inr (ground arith)

pop_request-IsServing :
    (requested : List ℕ) (num : ℕ) (e : Endpoint)
    → IsServing requested e
    → length e.request_bytes ≡ suc num
    → e.sent_bytes ≡ front e.request_bytes
    → IsServing requested (pop_request num e)
unfolding pop_request
pop_request-IsServing requested num e s size done = record {
  small = pop_front-IsSmall e.request_bytes s.small;
  queue =
      append_assoc e.answered (front e.request_bytes ∷ []) (pop_front e.request_bytes)
      ∙ ap (λ (q : List ℕ). e.answered ++ q) (front-pop_front e.request_bytes num size)
      ∙ s.queue;
  bytes_eq = omega (arith, s.bytes_eq, sum-append e.answered (front e.request_bytes ∷ []));
  within = omega arith;
  notified = elim s.notified [
    | inl none_ ↦ absurd (omega (arith, ap length none_))
    | inr out ↦
        nil_or (pop_front e.request_bytes) num e.epoll_out
          (length-pop_front e.request_bytes num size) out
  ];
}

-- It ends because nothing is owed, or because write() refuses.
abbrev pub IsServed : Kernel → List ℕ → ℤ → Endpoint → Type 0
IsServed kernel requested fd e =
    IsResting requested e × ((e.request_bytes ≡ []) ⊎ IsRefused kernel e) × (e.fd ≡ fd)

resting_nil :
    (requested : List ℕ) (e : Endpoint)
    → IsServing requested e
    → length e.request_bytes ≡ 0
    → (e.request_bytes ≡ []) × (e.sent_bytes ≡ 0)
resting_nil requested e s size =
    let none_ : e.request_bytes ≡ [] = nil_of e.request_bytes size in
    (none_, omega (arith, s.within, ap front none_))

IsRefused-open :
    (kernel : Kernel) (r : Bool × Endpoint) (e : Endpoint) {done : Bool}
    → r.1 ≡ e
    → r.0 ≡ not done
    → done ≡ false
    → (r.0 ≡ false) ⊎ IsRefused kernel r.1
    → IsRefused kernel e
IsRefused-open kernel r e same more open_ (inl full) = absurd (ground arith)
IsRefused-open kernel r e same more open_ (inr refused) = subst (IsRefused kernel) same refused

-- A round answers a request or stops, so that the size of the queue is enough fuel.
respond_loop-IsServed :
    (kernel : Kernel)
    → IsWrite kernel
    → (requested : List ℕ) (fuel num : ℕ) (e : Endpoint) → IsServing requested e
    → length e.request_bytes ≡ num
    → num ≤ fuel
    → Yields (IsServed kernel requested e.fd) (respond_loop kernel fuel num e)
unfolding respond_loop progress pop_request
respond_loop-IsServed kernel law requested fuel zero e s size enough = (
  record { serving = s; incomplete = inl (resting_nil requested e s size) },
  inl (nil_of e.request_bytes size),
  refl,
)
respond_loop-IsServed kernel law requested zero (suc num) e s size enough = absurd (omega arith)
respond_loop-IsServed kernel law requested (suc fuel) (suc num) e s size enough =
    Yields-bind (Sends kernel b e) (IsServed kernel requested e.fd) (send_loop kernel b b e) after
      (send_loop-Sends kernel law b b e (front_small e.request_bytes s.small) s.within
        (omega arith))
      (λ r (n, c, same, fits, more, why). elim (Bool-cases (e.sent_bytes + n == b)) [
        | inl done ↦
            rw (same, more, done)
              (respond_loop-IsServed kernel law requested fuel num
                (pop_request num (progress n c e))
                (pop_request-IsServing requested num (progress n c e)
                  (progress-IsServing requested n c e s fits) size (==→≡ _ _ done))
                (unfold pop_request in length-pop_front e.request_bytes num size) (omega arith))
        | inr open_ ↦
            rw (same, more, open_)
              (
                (record {
                  serving = progress-IsServing requested n c e s fits;
                  incomplete = inr (omega (arith, ==→≢ _ _ open_, fits));
                }),
                inr (IsRefused-open kernel r (progress n c e) same more open_ why),
                refl,
              )
      ])
  where
    b : ℕ
    b = front e.request_bytes

    after : Bool × Endpoint → Option Endpoint
    after (full, e') =
        let done = e'.sent_bytes == b in
        let left : ℕ = if done then num else suc num in
        let next : Endpoint = if done then pop_request num e' else e' in
        let more = respond_loop kernel fuel left next in if full then some next else more

pub respond-IsServed :
    (kernel : Kernel)
    → IsWrite kernel
    → (requested : List ℕ) (e : Endpoint) → IsServing requested e
    → Yields (IsServed kernel requested e.fd) (respond kernel e)
unfolding respond
respond-IsServed kernel law requested e s =
    respond_loop-IsServed kernel law requested (length e.request_bytes) (length e.request_bytes) e s
      refl (omega arith)
