-- ===== src/Connection/Alive.antt =====
-- What each operation of a connection keeps: its descriptor, its close flags and its deletion agree.
use dash_dim.Prelude.{
  ℕ, zero, suc, ◌+◌, ◌≤◌, ◌≡◌, refl, Bool, true, false, ◌&&◌, none, some, List, [], ◌∷◌, ◌++◌, ltb,
  ◌==◌, if◌then◌else◌, length, take, drop, min, arith, if-intro, ==→≡, IfSome, IfSome-bind,
}
use dash_dim.Prelude.Int.{pos, pos_part, neg_part, ltb_ℤ}
use dash_dim.Budget.{IntervalBudget}
use dash_dim.Frame.{Call, recv_data, parse_message, perform, deliver, buffer_size}
use dash_dim.Socket.{
  Socket, Kernel, send, after_packet, flush_loop, flush_buffer, close_fd, check_close_fd,
  check_to_delete_self, delete_self, notify_close,
}
use dash_dim.Connection.{
  Connection, Read, end_of_file, bytes, paced, can_send, close_entity, check_close_entity,
  after_read, deliver_frames, read_loop, on_read_event, Outcome, ignored, joined, refused,
  origin_failed, Parse, take_outcome, close_both, act, has_server, keep_rest, check_read,
}

-- It deletes itself at most once, and has done so where both ends are closed; an open descriptor is
-- a positive number, and a closed one a negative number; and before it has deleted itself a closed
-- descriptor has left nothing in the write buffer.
pub record IsAlive (s : Socket IntervalBudget) : Type 0 where
  pub gone : s.io_status.fd_closed && s.io_status.entity_closed ≡ true → s.destroyed ≡ true
  pub drained : s.io_status.fd_closed ≡ true → s.destroyed ≡ false → length s.fd_write_buffer ≡ 0
  pub once : s.deletes ≡ (if s.destroyed then 1 else 0)
  pub opened : s.io_status.fd_closed ≡ false → 1 ≤ pos_part s.fd
  pub closed : s.io_status.fd_closed ≡ true → pos_part s.fd ≡ 0
  pub negative : s.io_status.fd_closed ≡ true → 1 ≤ neg_part s.fd

pub close_fd-IsAlive :
    (s : Socket IntervalBudget) → IsAlive s → length s.fd_write_buffer ≡ 0 → IsAlive (close_fd s)
unfolding close_fd check_to_delete_self delete_self
close_fd-IsAlive s v h = ground arith

pub check_close_fd-IsAlive : (s : Socket IntervalBudget) → IsAlive s → IsAlive (check_close_fd s)
unfolding check_close_fd
check_close_fd-IsAlive s v =
    if-intro (s.io_status.fd_wait_close && (length s.fd_write_buffer == 0)) IsAlive
      (λ e. close_fd-IsAlive s v (ground arith)) (λ _. v)

pub notify_close-IsAlive : (s : Socket IntervalBudget) → IsAlive s → IsAlive (notify_close s)
unfolding notify_close check_close_fd close_fd check_to_delete_self delete_self
notify_close-IsAlive s v = ground arith

-- What a flush leaves alone.
abbrev Keeps : Socket IntervalBudget → Socket IntervalBudget → Type 0
Keeps s s' =
    (s'.fd ≡ s.fd)
    × (s'.io_status ≡ s.io_status)
    × (s'.destroyed ≡ s.destroyed)
    × (s'.deletes ≡ s.deletes)

flush_loop-Keeps :
    (kernel : Kernel) (fuel : ℕ) (data_ : List ℕ) (s : Socket IntervalBudget)
    → Keeps s (flush_loop paced kernel fuel data_ s).1
unfolding flush_loop send after_packet
flush_loop-Keeps kernel zero data_ s = (refl, refl, refl, refl)
flush_loop-Keeps kernel (suc fuel) data_ s =
    if-intro (length data_ == 0) Rest (λ _. (refl, refl, refl, refl))
      (λ _.
        if-intro (can_send s.pacer intend) Rest
          (λ _.
            if-intro (n == 0) Rest (λ _. (refl, refl, refl, refl))
              (λ _. flush_loop-Keeps kernel fuel (drop n data_) next))
          (λ _. (refl, refl, refl, refl)))
  where
    Rest : List ℕ × Socket IntervalBudget → Type 0
    Rest r = Keeps s r.1

    intend : ℕ
    intend = min buffer_size (length data_)

    n : ℕ
    n = kernel s.calls intend

    next : Socket IntervalBudget
    next =
        after_packet paced kernel n
          (record s { calls = s.calls + 1; sent = s.sent ++ take n data_ })

pub flush_buffer-IsAlive :
    (kernel : Kernel) (s : Socket IntervalBudget)
    → IsAlive s
    → IsAlive (flush_buffer paced kernel s)
unfolding flush_buffer
flush_buffer-IsAlive kernel s v =
    if-intro (ltb_ℤ s.fd (pos 0)) IsAlive (λ _. v)
      (λ e.
        flushed-IsAlive s (flush_loop paced kernel (length s.fd_write_buffer) s.fd_write_buffer s) v
          e (flush_loop-Keeps kernel (length s.fd_write_buffer) s.fd_write_buffer s))
  where
    flushed-IsAlive :
        (s : Socket IntervalBudget) (r : List ℕ × Socket IntervalBudget)
        → IsAlive s
        → ltb_ℤ s.fd (pos 0) ≡ false
        → Keeps s r.1
        → IsAlive (record (r.1) { fd_write_buffer = r.0 })
    flushed-IsAlive s (rest, s') v e (a, b, d, f) = ground arith

pub close_entity-IsAlive : (c : Connection) → IsAlive c.socket → IsAlive (close_entity c).socket
unfolding close_entity check_to_delete_self delete_self
close_entity-IsAlive c v = ground arith

abbrev pub Lives : Connection → Type 0
Lives c = IsAlive c.socket

-- The same behind an answer.
abbrev pub AnswerLives {ℓ} : {A : Type ℓ} → A × Connection → Type 0
AnswerLives (a, c) = Lives c

pub check_close_entity-IsAlive :
    (c : Connection) → IsAlive c.socket → IsAlive (check_close_entity c).socket
unfolding check_close_entity
check_close_entity-IsAlive c v =
    if-intro (c.socket.io_status.entity_wait_close && (length c.socket.fd_read_buffer == 0)) Lives
      (λ _. close_entity-IsAlive c v) (λ _. v)

-- With both ends closed at once bytes may be left.
pub close_both-IsAlive : (c : Connection) → Lives c → Lives (close_both c)
unfolding close_both close_entity close_fd check_to_delete_self delete_self
close_both-IsAlive c v = ground arith

close_fd-empty :
    (s : Socket IntervalBudget)
    → length (close_fd s).fd_write_buffer ≡ 0
    → length s.fd_write_buffer ≡ 0
unfolding close_fd check_to_delete_self delete_self
close_fd-empty s h = ground arith

take_outcome-IsAlive :
    (outcome : Outcome) (c : Connection) → Lives c → Lives (take_outcome outcome c)
unfolding take_outcome
take_outcome-IsAlive ignored c v = v
take_outcome-IsAlive (joined server) c v = v
take_outcome-IsAlive (refused server) c v = close_both-IsAlive (record c { server = some server }) v
take_outcome-IsAlive origin_failed c v = close_both-IsAlive c v

perform-IsAlive :
    (parse : Parse) (calls : List Call) (c : Connection)
    → Lives c
    → IfSome Lives (perform has_server (act parse) calls c)
unfolding perform act
perform-IsAlive parse [] c v = v
perform-IsAlive parse (recv_data offset pv ∷ calls) c v =
    if-intro (has_server c) (IfSome Lives) (λ _. perform-IsAlive parse calls c v) (λ _. tt)
perform-IsAlive parse (parse_message offset pv ∷ calls) c v =
    perform-IsAlive parse calls (take_outcome (parse offset pv c) c)
      (take_outcome-IsAlive (parse offset pv c) c v)

keep_rest-IsAlive :
    (size : ℕ) (rest : List ℕ) (c : Connection) → Lives c → Lives (keep_rest size rest c)
unfolding keep_rest
keep_rest-IsAlive size rest c v =
    if-intro (ltb (length rest) size && (length rest == 0)) Lives
      (λ _. check_close_entity-IsAlive c' kept) (λ _. kept)
  where
    c' : Connection
    c' = record c { socket = record (c.socket) { fd_read_buffer = rest } }

    kept : Lives c'
    kept = ground arith

pub deliver_frames-IsAlive :
    (parse : Parse) (c : Connection) → Lives c → IfSome AnswerLives (deliver_frames parse c)
unfolding deliver_frames
deliver_frames-IsAlive parse c v =
    IfSome-bind Lives AnswerLives
      (perform has_server (act parse) (deliver c.socket.fd_read_buffer).0 c)
      (λ c'. some (
        (deliver c.socket.fd_read_buffer).0,
        keep_rest (length c.socket.fd_read_buffer) (deliver c.socket.fd_read_buffer).1 c',
      ))
      (perform-IsAlive parse (deliver c.socket.fd_read_buffer).0 c v)
      (λ c' v'.
        keep_rest-IsAlive (length c.socket.fd_read_buffer) (deliver c.socket.fd_read_buffer).1 c'
          v')

read_loop-IsAlive :
    (reads : List Read) (c : Connection) → IsAlive c.socket → IfSome AnswerLives (read_loop reads c)
unfolding read_loop
read_loop-IsAlive [] c v = v
read_loop-IsAlive (end_of_file ∷ reads) c v =
    if-intro (length (close_fd c.socket).fd_write_buffer == 0) (IfSome AnswerLives)
      (λ e.
        read_loop-IsAlive reads (record c { socket = close_fd c.socket })
          (close_fd-IsAlive c.socket v
            (close_fd-empty c.socket (==→≡ (length (close_fd c.socket).fd_write_buffer) 0 e))))
      (λ _. tt)
read_loop-IsAlive (bytes nbytes ∷ reads) c v =
    elim (read_loop reads next)
        as (λ o.
          IfSome AnswerLives o
          → IfSome AnswerLives (elim o [ none ↦ none | some (update, c') ↦ some (true, c') ])) [
            | none ↦ λ h. tt
            | some (update, c') ↦ λ h. h
          ]
      (read_loop-IsAlive reads next v')
  where
    next : Connection
    next = record c {
      socket = record (c.socket) { fd_read_buffer = c.socket.fd_read_buffer ++ nbytes };
    }

    v' : IsAlive next.socket
    v' = ground arith

check_read-IsAlive :
    (r : List Call × Connection) → AnswerLives r → IfSome AnswerLives (check_read r)
unfolding check_read
check_read-IsAlive (calls, c) v =
    if-intro (c.socket.io_status.fd_closed && ltb 0 (length c.socket.fd_read_buffer))
      (IfSome AnswerLives) (λ _. tt) (λ _. v)

after_read-IsAlive :
    (parse : Parse) (r : Bool × Connection)
    → AnswerLives r
    → IfSome AnswerLives (after_read parse r)
unfolding after_read
after_read-IsAlive parse (true, c) v =
    IfSome-bind AnswerLives AnswerLives (deliver_frames parse c) check_read
      (deliver_frames-IsAlive parse c v) check_read-IsAlive
after_read-IsAlive parse (false, c) v = check_read-IsAlive ([], c) v

pub on_read_event-IsAlive :
    (parse : Parse) (reads : List Read) (c : Connection)
    → Lives c
    → IfSome AnswerLives (on_read_event parse reads c)
unfolding on_read_event
on_read_event-IsAlive parse reads c v =
    IfSome-bind AnswerLives AnswerLives (read_loop reads c) (after_read parse)
      (read_loop-IsAlive reads c v) (after_read-IsAlive parse)
