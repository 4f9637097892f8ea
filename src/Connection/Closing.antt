-- ===== src/Connection/Closing.antt =====
-- The life of a connection: which of its two ends are closed, and when it deletes itself.
use mathlib.Core.Path.{subst}
use dash_dim.Prelude.{
  ℕ, ◌≤◌, ◌≡◌, refl, Bool, true, false, ◌&&◌, ◌||◌, not, some, List, ◌==◌, length, arith, IfSome,
}
use dash_dim.Prelude.Int.{pos, pos_part, ltb_ℤ}
use dash_dim.Budget.{IntervalBudget}
use dash_dim.Frame.{Call, send_data, write_message}
use dash_dim.Socket.{Socket, Kernel, flush_buffer, close_fd, check_to_delete_self, delete_self}
use dash_dim.Connection.{
  Parse, close_both, check_close_entity, deliver_frames, Connection, Read, paced, on_budget_alarm,
  on_write_event, notify, on_read_event,
}
use dash_dim.Connection.Alive.{
  close_both-IsAlive, check_close_entity-IsAlive, deliver_frames-IsAlive, AnswerLives, IsAlive,
  Lives, check_close_fd-IsAlive, close_fd-IsAlive, flush_buffer-IsAlive, notify_close-IsAlive,
  on_read_event-IsAlive,
}

-- A connection as it is made.
pub record IsFresh (c : Connection) : Type 0 where
  pub descriptor : 1 ≤ pos_part c.socket.fd
  pub fd_open : c.socket.io_status.fd_closed ≡ false
  pub entity_open : c.socket.io_status.entity_closed ≡ false
  pub alive : c.socket.destroyed ≡ false
  pub none_yet : c.socket.deletes ≡ 0

-- It has deleted itself at most once, and once where both ends are closed.
abbrev pub EndsWell : Socket IntervalBudget → Type 0
EndsWell s =
    (s.deletes ≤ 1)
    × ((not (s.io_status.fd_closed && s.io_status.entity_closed) || (s.deletes == 1)) ≡ true)

summary : (s : Socket IntervalBudget) → IsAlive s → EndsWell s
summary s v = ground arith

send_data-open :
    (fd_open : Bool) (offset : ℕ) (pv old wb : List ℕ)
    → send_data fd_open offset pv old ≡ some wb
    → fd_open ≡ true
unfolding send_data
send_data-open true offset pv old wb h = refl
send_data-open false offset pv old wb h = ground arith

queued-IsAlive :
    (wb : List ℕ) (s : Socket IntervalBudget)
    → IsAlive s
    → ltb_ℤ (pos 0) s.fd ≡ true
    → IsAlive (record s { fd_write_buffer = wb })
queued-IsAlive wb s v h = ground arith

-- OnShutdown: CloseFd and DeleteSelf.
unfoldable pub shut_down : Connection → Connection
shut_down c = record c { socket = delete_self (close_fd c.socket) }

shut_down-IsAlive : (c : Connection) → Lives c → Lives (shut_down c)
unfolding shut_down close_fd check_to_delete_self delete_self
shut_down-IsAlive c v = ground arith

module _ (gain : ℕ → ℕ) (kernel : Kernel) where
  -- One thing that happens to a connection of either subclass, where no CHECK aborts: a writable
  -- or readable descriptor, SendData, a message composed by WriteMessage, the timer, a notice of
  -- the other end, a hang-up, or a shutdown, which deletes it with its entity open, as a failure
  -- of AsynConnect does.
  pub data Step : Connection → Connection → Type 0 where
    writable : (c : Connection) → Step c (on_write_event kernel c).1
    sends :
        (offset : ℕ) (pv wb : List ℕ) (c : Connection)
        → send_data (ltb_ℤ (pos 0) c.socket.fd) offset pv c.socket.fd_write_buffer ≡ some wb
        → Step c
            (on_write_event kernel
              (record c { socket = record (c.socket) { fd_write_buffer = wb } })).1
    composes :
        (type : ℕ) (body wb : List ℕ) (c : Connection)
        → ltb_ℤ (pos 0) c.socket.fd ≡ true
        → write_message type body c.socket.fd_write_buffer ≡ some wb
        → Step c (record c { socket = record (c.socket) { fd_write_buffer = wb } })
    reads :
        (parse : Parse) (answers : List Read) (calls : List Call) (c c' : Connection)
        → on_read_event parse answers c ≡ some (calls, c')
        → Step c c'
    ticks : (best now : ℕ) (c : Connection) → Step c (on_budget_alarm gain best now c).1
    notified : (c : Connection) → Step c (notify c)
    right_hangs_up :
        (c : Connection) → length (close_both c).socket.fd_write_buffer ≡ 0 → Step c (close_both c)
    left_hangs_up :
        (parse : Parse) (calls : List Call) (c c' : Connection)
        → deliver_frames parse c ≡ some (calls, c')
        → length c'.socket.fd_write_buffer ≡ 0
        → Step c (check_close_entity (record c' { socket = close_fd c'.socket }))
    shuts_down : (c : Connection) → Step c (shut_down c)

  -- What a sequence of steps reaches.
  pub data Reaches : Connection → Connection → Type 0 where
    here : (c : Connection) → Reaches c c
    then_step : (a b c : Connection) → Reaches a b → Step b c → Reaches a c

  Step-IsAlive : (a b : Connection) → Step a b → Lives a → Lives b
  unfolding on_write_event on_budget_alarm notify
  Step-IsAlive a b (writable c) v =
      check_close_fd-IsAlive (flush_buffer paced kernel a.socket)
        (flush_buffer-IsAlive kernel a.socket v)
  Step-IsAlive a b (sends offset pv wb c e) v = check_close_fd-IsAlive _ (
      flush_buffer-IsAlive kernel (record (a.socket) { fd_write_buffer = wb })
        (queued-IsAlive wb a.socket v (send_data-open _ offset pv a.socket.fd_write_buffer wb e)))
  Step-IsAlive a b (composes type body wb c open_fd e) v = queued-IsAlive wb a.socket v open_fd
  Step-IsAlive a b (reads parse answers calls c c' e) v =
      subst (IfSome AnswerLives) e (on_read_event-IsAlive parse answers c v)
  Step-IsAlive a b (ticks best now c) v = ground arith
  Step-IsAlive a b (right_hangs_up c e) v = close_both-IsAlive a v
  Step-IsAlive a b (left_hangs_up parse calls c c' e empty) v =
      check_close_entity-IsAlive (record c' { socket = close_fd c'.socket })
        (close_fd-IsAlive c'.socket
          (subst (IfSome AnswerLives) e (deliver_frames-IsAlive parse c v)) empty)
  Step-IsAlive a b (shuts_down c) v = shut_down-IsAlive c v
  Step-IsAlive a b (notified c) v = notify_close-IsAlive c.socket v

  Reaches-IsAlive : (a b : Connection) → Reaches a b → Lives a → Lives b
  Reaches-IsAlive a b (here c) v = v
  Reaches-IsAlive a c (then_step _ b _ r s) v = Step-IsAlive b c s (Reaches-IsAlive a b r v)

  -- A connection that starts with an open descriptor, no close flag and no deletion: after any
  -- sequence of steps in which messages are composed only while its descriptor is open,
  -- whatever ParseMessage makes of what is read, it has deleted itself at most once, and has
  -- done so if its descriptor and its entity are both closed.
  pub deletes-once : (a b : Connection) → IsFresh a → Reaches a b → EndsWell b.socket
  deletes-once a b fresh r = summary b.socket (Reaches-IsAlive a b r (ground arith))
