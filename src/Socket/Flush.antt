-- ===== src/Socket/Flush.antt =====
-- FlushBuffer and WriteDataToFd: the bytes on their way through the write buffer.
use dash_dim.Prelude.{
  ℕ, zero, suc, ◌+◌, ◌-◌, ◌%◌, ◌^◌, ◌≤◌, ◌≡◌, refl, sym, ap, ◌∙◌, true, false, List, [], ◌++◌, ltb,
  ◌==◌, length, take, drop, min, take-append-drop, length-drop, length-append, arith, if-intro,
  append_assoc, append-nil, ltb→lt, ==→≡, ==→≢, nil_of, inl, inr, ◌⊎◌,
}
use dash_dim.Prelude.Int.{pos, ltb_ℤ, ◌≤ℤ◌}
use dash_dim.Frame.{buffer_size}
use dash_dim.Socket.{
  Socket, Pacer, Kernel, IsSend, send, after_packet, flush_loop, flush_buffer, write_data_to_fd,
}

sent-split : {A : Type 0} (n : ℕ) (xs sent : List A) → (sent ++ take n xs) ++ drop n xs ≡ sent ++ xs
sent-split n xs sent =
    append_assoc sent (take n xs) (drop n xs) ∙ ap (λ r. sent ++ r) (take-append-drop n xs)

ltb_zero : (n : ℕ) → ltb 0 n ≡ false → n ≡ 0
ltb_zero n h = ground arith

-- The same int.
abbrev pub SameCount : ℕ → ℕ → Type 0
SameCount m n = m % 2 ^ 32 ≡ n % 2 ^ 32

module _ (p : Pacer) (kernel : Kernel) where
  open p use {State, can_send}

  abbrev Flushes : List ℕ → Socket State → List ℕ × Socket State → Type 0
  Flushes data_ s (rest, s') =
      (s'.sent ++ rest ≡ s.sent ++ data_)
      × SameCount (s'.send_bytes + length rest) (s.send_bytes + length data_)
      × (s'.fd ≡ s.fd)

  -- The socket after a round that put `n` bytes of `data_` on the wire.
  abbrev sent_round : ℕ → List ℕ → Socket State → Socket State
  sent_round n data_ s =
      after_packet p kernel n (record s { calls = s.calls + 1; sent = s.sent ++ take n data_ })

  round-Flushes :
      (n : ℕ) (data_ : List ℕ) (s : Socket State) (r : List ℕ × Socket State)
      → n ≤ length data_
      → Flushes (drop n data_) (sent_round n data_ s) r
      → Flushes data_ s r
  unfolding after_packet
  round-Flushes n data_ s (rest, s') small (a, b, c) =
      ((a ∙ sent-split n data_ s.sent), omega (arith, length-drop n data_), c)

  take_zero : (n : ℕ) (data_ : List ℕ) → (n == 0) ≡ true → take n data_ ≡ []
  take_zero zero data_ e = refl
  take_zero (suc n) data_ e = absurd (omega (arith, ==→≡ (suc n) 0 e))

  flush_loop-Flushes :
      IsSend kernel
      → (fuel : ℕ) (data_ : List ℕ) (s : Socket State)
      → Flushes data_ s (flush_loop p kernel fuel data_ s)
  unfolding flush_loop send
  flush_loop-Flushes law zero data_ s = (refl, refl, refl)
  flush_loop-Flushes law (suc fuel) data_ s =
      if-intro (length data_ == 0) (Flushes data_ s) (λ _. (refl, refl, refl))
        (λ _.
          if-intro (can_send s.pacer intend) (Flushes data_ s)
            (λ _.
              if-intro (n == 0) (Flushes data_ s)
                (λ e. ((rw (take_zero n data_ e, append-nil s.sent) refl), refl, refl))
                (λ _.
                  round-Flushes n data_ s (flush_loop p kernel fuel (drop n data_) next) small
                    (flush_loop-Flushes law fuel (drop n data_) next)))
            (λ _. (refl, refl, refl)))
    where
      intend : ℕ
      intend = min buffer_size (length data_)

      n : ℕ
      n = kernel s.calls intend

      next : Socket State
      next = sent_round n data_ s

      small : n ≤ length data_
      small = omega (arith, law s.calls intend)

  -- Why the loop ends: nothing is left, the pacer says no, or send() has just taken nothing.
  abbrev pub Stops : List ℕ × Socket State → Type 0
  Stops (rest, s') =
      (rest ≡ [])
      ⊎ (can_send s'.pacer (min buffer_size (length rest)) ≡ false)
      ⊎ (kernel (s'.calls - 1) (min buffer_size (length rest)) ≡ 0)

  -- A round takes a byte at least, so the length of the data is enough fuel.
  flush_loop-Stops :
      (fuel : ℕ) (data_ : List ℕ) (s : Socket State)
      → length data_ ≤ fuel
      → Stops (flush_loop p kernel fuel data_ s)
  unfolding flush_loop send
  flush_loop-Stops zero data_ s h = inl (nil_of data_ (omega arith))
  flush_loop-Stops (suc fuel) data_ s h =
      if-intro (length data_ == 0) Stops (λ e. inl (nil_of data_ (==→≡ (length data_) 0 e)))
        (λ _.
          if-intro (can_send s.pacer intend) Stops
            (λ _.
              if-intro (n == 0) Stops
                (λ e. inr (inr (ap (λ (c : ℕ). kernel c intend) (omega arith) ∙ ==→≡ n 0 e)))
                (λ e. flush_loop-Stops fuel (drop n data_) next (small e)))
            (λ e. inr (inl e)))
    where
      intend : ℕ
      intend = min buffer_size (length data_)

      n : ℕ
      n = kernel s.calls intend

      next : Socket State
      next = sent_round n data_ s

      small : (n == 0) ≡ false → length (drop n data_) ≤ fuel
      small e = omega (arith, ==→≢ n 0 e, length-drop n data_)

  abbrev pub Flushed : List ℕ → Socket State → Socket State → Type 0
  Flushed pv s s' =
      (s'.sent ++ s'.fd_write_buffer ≡ s.sent ++ (s.fd_write_buffer ++ pv))
      × SameCount (s'.send_bytes + length s'.fd_write_buffer)
          (s.send_bytes + length s.fd_write_buffer + length pv)

  -- FlushBuffer on an open descriptor, whatever send() accepts: what the peer reads followed
  -- by what stays in the write buffer is what it was before, in the same order, send_bytes_
  -- counts what left modulo 2^32, the descriptor stays, and the loop has ended because the
  -- buffer is empty, the pacer refuses, or send() took nothing.
  pub flush_buffer_lem :
      IsSend kernel
      → (s : Socket State) → pos 0 ≤ℤ s.fd
      → Flushed [] s (flush_buffer p kernel s)
        × (Stops ((flush_buffer p kernel s).fd_write_buffer, flush_buffer p kernel s))
        × ((flush_buffer p kernel s).fd ≡ s.fd)
  unfolding flush_buffer
  flush_buffer_lem law s open_fd =
      if-intro (ltb_ℤ s.fd (pos 0))
        (λ s'. Flushed [] s s' × Stops (s'.fd_write_buffer, s') × (s'.fd ≡ s.fd))
        (λ e. absurd (omega (arith, ltb→lt _ _ e)))
        (λ _. (
          (
            (kept.0 ∙ ap (λ r. s.sent ++ r) (sym (append-nil s.fd_write_buffer))),
            omega (arith, kept.1),
          ),
          flush_loop-Stops (length s.fd_write_buffer) s.fd_write_buffer s (omega arith),
          kept.2,
        ))
    where
      kept :
          Flushes s.fd_write_buffer s
            (flush_loop p kernel (length s.fd_write_buffer) s.fd_write_buffer s)
      kept = flush_loop-Flushes law (length s.fd_write_buffer) s.fd_write_buffer s

  -- WriteDataToFd on an open descriptor, whatever send() accepts: what the peer reads followed
  -- by what stays in the write buffer is what it was before followed by the new bytes, in
  -- order, and send_bytes_ counts what left modulo 2^32.
  pub write_data_to_fd_lem :
      IsSend kernel
      → (pv : List ℕ) (s : Socket State) → pos 0 ≤ℤ s.fd
      → Flushed pv s (write_data_to_fd p kernel pv s)
  unfolding write_data_to_fd send
  write_data_to_fd_lem law pv s open_fd =
      if-intro (ltb_ℤ s.fd (pos 0)) (Flushed pv s) (λ e. absurd (omega (arith, ltb→lt _ _ e)))
        (λ _.
          if-intro (ltb 0 (length f.fd_write_buffer)) (Flushed pv s)
            (λ _. (both, omega (arith, kept.1, length-append f.fd_write_buffer pv)))
            (λ e. (
              (offered (empty e)),
              omega (
                arith,
                kept.1,
                law f.calls (length pv),
                length-drop n pv,
                length-append f.fd_write_buffer (drop n pv),
              ),
            )))
    where
      f : Socket State
      f = flush_buffer p kernel s

      kept : Flushed [] s f
      kept = (flush_buffer_lem law s open_fd).0

      n : ℕ
      n = kernel f.calls (length pv)

      both : f.sent ++ (f.fd_write_buffer ++ pv) ≡ s.sent ++ (s.fd_write_buffer ++ pv)
      both =
          sym (append_assoc f.sent f.fd_write_buffer pv)
          ∙ ap (λ r. r ++ pv) (kept.0 ∙ ap (λ r. s.sent ++ r) (append-nil s.fd_write_buffer))
          ∙ append_assoc s.sent s.fd_write_buffer pv

      empty : ltb 0 (length f.fd_write_buffer) ≡ false → f.fd_write_buffer ≡ []
      empty e = nil_of f.fd_write_buffer (ltb_zero (length f.fd_write_buffer) e)

      offered :
          f.fd_write_buffer ≡ []
          → (f.sent ++ take n pv) ++ (f.fd_write_buffer ++ drop n pv)
            ≡ s.sent ++ (s.fd_write_buffer ++ pv)
      offered e =
          ap (λ r. (f.sent ++ take n pv) ++ (r ++ drop n pv)) e
          ∙ sent-split n pv f.sent
          ∙ ap (λ r. f.sent ++ (r ++ pv)) (sym e)
          ∙ both
