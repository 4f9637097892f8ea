-- ===== src/Dash/Server/Sending.antt =====
-- The loop of Responce that writes one request.
use dash_dim.Prelude.{
  ℕ, zero, suc, ◌+◌, ◌-◌, ◌^◌, ◌≤◌, ◌<◌, ◌≡◌, refl, ap, ◌∙◌, Bool, true, false, not, Option, none,
  some, ltb, ◌==◌, IfSome, Yields, Yields-map, arith, if-intro, ltb→lt, ◌⊎◌, inl, inr, Bool-cases,
}
use dash_dim.Prelude.Int.{pos, ltb_ℤ}
use dash_dim.Dash.Server.{Endpoint, Kernel, IsWrite, intend, write, progress, send_loop}

intend_lem :
    (bytes_ sent : ℕ)
    → bytes_ < 2 ^ 31
    → sent < bytes_
    → (0 < intend bytes_ sent) × (sent + intend bytes_ sent ≤ bytes_)
unfolding intend
intend_lem bytes_ sent h small = ground arith

-- The descriptor is closed, or write() has just refused.
abbrev pub IsRefused : Kernel → Endpoint → Type 0
IsRefused kernel e = (ltb_ℤ e.fd (pos 0) ≡ true) ⊎ ((n : ℕ) × (kernel (e.calls - 1) n ≡ none))

-- The inner loop has added `n` bytes to the first request, and is full if they did not do.
abbrev pub Sends : Kernel → ℕ → Endpoint → Bool × Endpoint → Type 0
Sends kernel bytes_ e (full, e') =
    (n : ℕ) × (c : ℕ) × (e' ≡ progress n c e)
    × (e.sent_bytes + n ≤ bytes_)
    × (full ≡ not (e.sent_bytes + n == bytes_))
    × ((full ≡ false) ⊎ IsRefused kernel e')

progress_twice :
    (m d k c : ℕ) (e : Endpoint) → progress m d (progress k c e) ≡ progress (k + m) (c + d) e
unfolding progress
progress_twice m d k c e = ground arith

progress-Sends :
    (kernel : Kernel) (bytes_ k : ℕ) (e : Endpoint) (r : Bool × Endpoint)
    → Sends kernel bytes_ (progress k 1 e) r
    → Sends kernel bytes_ e r
unfolding progress
progress-Sends kernel bytes_ k e (full, e') (n, c, same, fits, more, why) = (
  k + n,
  1 + c,
  same ∙ (unfold progress in progress_twice n c k 1 e),
  omega arith,
  more ∙ ap (λ (s : ℕ). not (s == bytes_)) (omega arith),
  why,
)

no_progress : (e : Endpoint) → e ≡ progress 0 0 e
unfolding progress
no_progress e = ground arith

not_less : (s bytes_ : ℕ) → s ≤ bytes_ → ltb s bytes_ ≡ false → false ≡ not (s + 0 == bytes_)
not_less s bytes_ small h = ground arith

less_ : (s bytes_ : ℕ) → s < bytes_ → true ≡ not (s + 0 == bytes_)
less_ s bytes_ h = ground arith

write-IsRefused :
    (kernel : Kernel) (n : ℕ) (e : Endpoint)
    → write kernel n e ≡ none
    → IsRefused kernel (progress 0 1 e)
unfolding write progress
write-IsRefused kernel n e eq = elim (Bool-cases (ltb_ℤ e.fd (pos 0))) [
  | inl closed ↦ inl closed
  | inr open_fd ↦ inr (n, ap (λ (c : ℕ). kernel c n) (omega arith) ∙ (rw open_fd at eq))
]

module _ (kernel : Kernel) (law : IsWrite kernel) where
  write_lem : (n : ℕ) (e : Endpoint) → 0 < n → IfSome (λ k. (0 < k) × (k ≤ n)) (write kernel n e)
  unfolding write
  write_lem n e h =
      if-intro (ltb_ℤ e.fd (pos 0)) (IfSome (λ k. (0 < k) × (k ≤ n))) (λ _. tt)
        (λ _. law e.calls n h)

  -- A call takes a byte at least, so that the size of the request is enough fuel.
  pub send_loop-Sends :
      (fuel bytes_ : ℕ) (e : Endpoint)
      → bytes_ < 2 ^ 31
      → e.sent_bytes ≤ bytes_
      → bytes_ ≤ fuel + e.sent_bytes
      → Yields (Sends kernel bytes_ e) (send_loop kernel fuel bytes_ e)
  unfolding send_loop
  send_loop-Sends zero bytes_ e h small enough =
      if-intro (ltb e.sent_bytes bytes_) (Yields (Sends kernel bytes_ e))
        (λ b. absurd (omega (arith, ltb→lt _ _ b)))
        (λ b. (0, 0, no_progress e, omega arith, not_less e.sent_bytes bytes_ small b, inl refl))
  send_loop-Sends (suc fuel) bytes_ e h small enough =
      if-intro (ltb e.sent_bytes bytes_) (Yields (Sends kernel bytes_ e))
        (λ b.
          let (offered, fits) = intend_lem bytes_ e.sent_bytes h (ltb→lt _ _ b) in
          one (ltb→lt _ _ b) fits (write kernel (intend bytes_ e.sent_bytes) e) refl
            (write_lem (intend bytes_ e.sent_bytes) e offered)
            (λ sent taken most.
              send_loop-Sends fuel bytes_ (progress sent 1 e) h (unfold progress in omega arith)
                (unfold progress in omega arith)))
        (λ b. (0, 0, no_progress e, omega arith, not_less e.sent_bytes bytes_ small b, inl refl))
    where
      one :
          e.sent_bytes < bytes_
          → e.sent_bytes + intend bytes_ e.sent_bytes ≤ bytes_
          → (o : Option ℕ) → write kernel (intend bytes_ e.sent_bytes) e ≡ o
          → IfSome (λ k. (0 < k) × (k ≤ intend bytes_ e.sent_bytes)) o
          → ((sent : ℕ)
              → 0 < sent
              → sent ≤ intend bytes_ e.sent_bytes
              → Yields
                  (Sends kernel bytes_ (progress sent 1 e))
                  (send_loop kernel fuel bytes_ (progress sent 1 e)))
          → Yields (Sends kernel bytes_ e) (elim o as (λ x. Option (Bool × Endpoint)) [
            | none ↦ some (true, progress 0 1 e)
            | some sent ↦ send_loop kernel fuel bytes_ (progress sent 1 e)
          ])
      one less fits none eq k rest = (
        0,
        1,
        refl,
        omega arith,
        less_ e.sent_bytes bytes_ less,
        inr (write-IsRefused kernel _ e eq),
      )
      one less fits (some sent) eq (taken, most) rest =
          Yields-map (Sends kernel bytes_ (progress sent 1 e)) (Sends kernel bytes_ e)
            (send_loop kernel fuel bytes_ (progress sent 1 e)) (rest sent taken most)
            (progress-Sends kernel bytes_ sent e)
