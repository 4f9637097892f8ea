-- ===== src/Connection/Rate.antt =====
-- The pacing of a connection: what it sends, against what its timer grants.
use dash_dim.Prelude.{
  ℕ, zero, suc, ◌+◌, ◌-◌, ◌*◌, ◌/◌, ◌≤◌, ◌≡◌, true, List, [], ◌∷◌, ◌++◌, ltb, ◌==◌, if◌then◌else◌,
  length, length-append, length-take, ==→≡, take, drop, min, arith, if-intro,
}
use dash_dim.Prelude.Int.{pos, pos_part, neg_part, ltb_ℤ, ◌≤ℤ◌, ◌-ℤ◌}
use dash_dim.Budget.{IntervalBudget, set_target_rate_kbps, increase_budget, use_budget, remaining}
use dash_dim.Frame.{buffer_size}
use dash_dim.Socket.{
  Socket, Kernel, IsSend, send, after_packet, flush_loop, flush_buffer, check_close_fd, close_fd,
  check_to_delete_self, delete_self,
}
use dash_dim.Connection.{
  Connection, paced, can_send, on_packet_sent, on_budget_alarm, on_write_event,
  goodput_with_minimum, min_goodput,
}

-- The budget of a started connection, whose window holds a segment: it is in debt for less than
-- a segment.
pub record IsPaced (b : IntervalBudget) : Type 0 where
  pub started : b.started ≡ true
  pub window : pos 1500 ≤ℤ b.max_bytes_in_budget
  pub low : neg_part b.bytes_remaining ≤ 1499

packet-IsPaced :
    (n intend : ℕ) (b : IntervalBudget)
    → n ≤ 1500
    → IsPaced b
    → can_send b intend ≡ true
    → IsPaced (on_packet_sent b n)
unfolding can_send on_packet_sent use_budget remaining ◌-ℤ◌
packet-IsPaced n intend b small v h = ground arith

packet-Spends :
    (n intend : ℕ) (b : IntervalBudget)
    → n ≤ 1500
    → IsPaced b
    → can_send b intend ≡ true
    → let b' = on_packet_sent b n in
      n + pos_part b'.bytes_remaining + neg_part b.bytes_remaining
      ≤ pos_part b.bytes_remaining + neg_part b'.bytes_remaining
unfolding can_send on_packet_sent use_budget remaining ◌-ℤ◌
packet-Spends n intend b small v h = ground arith

-- A refill at a rate of 24 kbps or more.
refill-IsPaced :
    (kbps ms : ℕ) (b : IntervalBudget)
    → 24 ≤ kbps
    → IsPaced b
    → IsPaced (increase_budget (pos ms) (set_target_rate_kbps (pos kbps) b))
unfolding increase_budget set_target_rate_kbps
refill-IsPaced kbps ms b fast v = ground arith

refill-Grants :
    (kbps ms : ℕ) (b : IntervalBudget)
    → 24 ≤ kbps
    → IsPaced b
    → let b' = increase_budget (pos ms) (set_target_rate_kbps (pos kbps) b) in
      pos_part b'.bytes_remaining + neg_part b.bytes_remaining
      ≤ pos_part b.bytes_remaining + neg_part b'.bytes_remaining + kbps * ms / 8
unfolding increase_budget set_target_rate_kbps
refill-Grants kbps ms b fast v = ground arith

-- What a step sent, within the credit that it used up and was granted.
abbrev Spends : ℕ → Socket IntervalBudget → Socket IntervalBudget → Type 0
Spends grant s s' =
    (length s'.sent + pos_part s'.pacer.bytes_remaining + neg_part s.pacer.bytes_remaining
      ≤ length s.sent
        + pos_part s.pacer.bytes_remaining
        + neg_part s'.pacer.bytes_remaining
        + grant)
    × IsPaced s'.pacer

Spends-trans :
    (g h : ℕ) (a b c : Socket IntervalBudget) → Spends g a b → Spends h b c → Spends (g + h) a c
Spends-trans g h a b c (x, _) (y, v) = (omega arith, v)

flush_loop-Spends :
    (kernel : Kernel)
    → IsSend kernel
    → (fuel : ℕ) (data_ : List ℕ) (s : Socket IntervalBudget) → IsPaced s.pacer
    → Spends 0 s (flush_loop paced kernel fuel data_ s).1
unfolding flush_loop send after_packet
flush_loop-Spends kernel law zero data_ s v = (omega arith, v)
flush_loop-Spends kernel law (suc fuel) data_ s v =
    if-intro (length data_ == 0) Rest (λ _. stays)
      (λ _.
        if-intro (can_send s.pacer intend) Rest
          (λ may.
            if-intro (n == 0) Rest
              (λ e. (
                omega (arith, ==→≡ n 0 e, length-append s.sent (take n data_), length-take n data_),
                v,
              ))
              (λ _.
                Spends-trans 0 0 s next (flush_loop paced kernel fuel (drop n data_) next).1
                  (round may)
                  (flush_loop-Spends kernel law fuel (drop n data_) next (round may).1)))
          (λ _. stays))
  where
    Rest : List ℕ × Socket IntervalBudget → Type 0
    Rest r = Spends 0 s r.1

    stays : Spends 0 s s
    stays = (omega arith, v)

    intend : ℕ
    intend = min buffer_size (length data_)

    n : ℕ
    n = kernel s.calls intend

    next : Socket IntervalBudget
    next =
        after_packet paced kernel n
          (record s { calls = s.calls + 1; sent = s.sent ++ take n data_ })

    small : n ≤ 1500
    small = omega (arith, law s.calls intend)

    round : can_send s.pacer intend ≡ true → Spends 0 s next
    round may = (
      omega (
        arith,
        packet-Spends n intend s.pacer small v may,
        length-append s.sent (take n data_),
        length-take n data_,
      ),
      packet-IsPaced n intend s.pacer small v may,
    )

flush_buffer-Spends :
    (kernel : Kernel)
    → IsSend kernel
    → (s : Socket IntervalBudget) → IsPaced s.pacer
    → Spends 0 s (flush_buffer paced kernel s)
unfolding flush_buffer
flush_buffer-Spends kernel law s v =
    if-intro (ltb_ℤ s.fd (pos 0)) (Spends 0 s) (λ _. (omega arith, v))
      (λ _. flush_loop-Spends kernel law (length s.fd_write_buffer) s.fd_write_buffer s v)

check_close_fd-Spends : (s t : Socket IntervalBudget) → Spends 0 s t → Spends 0 s (check_close_fd t)
unfolding check_close_fd close_fd check_to_delete_self delete_self
check_close_fd-Spends s t h = ground (arith, h.0, h.1)

goodput_with_minimum-ge : (best : ℕ) → min_goodput ≤ goodput_with_minimum best
unfolding goodput_with_minimum
goodput_with_minimum-ge best = ground arith

-- What happens to a connection: its timer, with the goodput it reads, or bytes to write.
pub data Event : Type 0 where
  alarm : ℕ → ℕ → Event
  write : List ℕ → Event

module _ (gain : ℕ → ℕ) (kernel : Kernel) where
  abbrev pub queued : List ℕ → Connection → Connection
  queued pv c = record c {
    socket = record (c.socket) { fd_write_buffer = c.socket.fd_write_buffer ++ pv };
  }

  unfoldable pub after : Event → Connection → Connection
  after (alarm best now) c = (on_budget_alarm gain best now c).1
  after (write pv) c = (on_write_event kernel (queued pv c)).1

  unfoldable pub after_all : List Event → Connection → Connection
  after_all [] c = c
  after_all (e ∷ es) c = after_all es (after e c)

  -- The bytes of the target rate over the time since the last alarm.
  unfoldable pub grant : Event → Connection → ℕ
  grant (alarm best now) c =
      gain (goodput_with_minimum best) / 1000 * ((now - c.last_budget_time) / 1000) / 8
  grant (write pv) c = 0

  unfoldable pub granted : List Event → Connection → ℕ
  granted [] c = 0
  granted (e ∷ es) c = grant e c + granted es (after e c)

  after-Spends :
      IsSend kernel
      → ((b : ℕ) → b ≤ gain b)
      → (e : Event) (c : Connection) → IsPaced c.socket.pacer
      → Spends (grant e c) c.socket (after e c).socket
  unfolding after grant on_budget_alarm on_write_event
  after-Spends law up (alarm best now) c v = (omega (arith, both.0), both.1)
    where
      b : IntervalBudget
      b = c.socket.pacer

      kbps : ℕ
      kbps = gain (goodput_with_minimum best) / 1000

      ms : ℕ
      ms = (now - c.last_budget_time) / 1000

      Refilled : IntervalBudget → Type 0
      Refilled b' =
          (pos_part b'.bytes_remaining + neg_part b.bytes_remaining
            ≤ pos_part b.bytes_remaining + neg_part b'.bytes_remaining + kbps * ms / 8)
          × IsPaced b'

      refilled : IntervalBudget
      refilled = increase_budget (pos ms) (set_target_rate_kbps (pos kbps) b)

      fast : 24 ≤ kbps
      fast = omega (arith, up (goodput_with_minimum best), goodput_with_minimum-ge best)

      both : Refilled (if ltb c.last_budget_time now then refilled else b)
      both =
          if-intro (ltb c.last_budget_time now) Refilled
            (λ _. (refill-Grants kbps ms b fast v, refill-IsPaced kbps ms b fast v))
            (λ _. (omega arith, v))
  after-Spends law up (write pv) c v =
      check_close_fd-Spends (queued pv c).socket (flush_buffer paced kernel (queued pv c).socket)
        (flush_buffer-Spends kernel law (queued pv c).socket v)

  after_all-Spends :
      IsSend kernel
      → ((b : ℕ) → b ≤ gain b)
      → (es : List Event) (c : Connection) → IsPaced c.socket.pacer
      → Spends (granted es c) c.socket (after_all es c).socket
  unfolding after_all granted
  after_all-Spends law up [] c v = (omega arith, v)
  after_all-Spends law up (e ∷ es) c v =
      Spends-trans (grant e c) (granted es (after e c)) c.socket (after e c).socket
        (after_all es (after e c)).socket (after-Spends law up e c v)
        (after_all-Spends law up es (after e c) (after-Spends law up e c v).1)

  -- The pace of a connection: over any sequence of timer events and writes, whatever send()
  -- accepts, the bytes sent are at most those sent before, plus the credit at the start, plus
  -- for each alarm the target rate times the time since the last one, plus 1499. It starts
  -- from a started budget in debt for less than a segment whose window holds a segment, and
  -- the gain does not lower a bandwidth.
  pub send_bytes_le :
      IsSend kernel
      → ((b : ℕ) → b ≤ gain b)
      → (es : List Event) (c : Connection) → IsPaced c.socket.pacer
      → length (after_all es c).socket.sent
        ≤ length c.socket.sent + pos_part c.socket.pacer.bytes_remaining + granted es c + 1499
  send_bytes_le law up es c v =
      omega (arith, (after_all-Spends law up es c v).0, (after_all-Spends law up es c v).1.low)
