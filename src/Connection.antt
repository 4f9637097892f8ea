-- ===== src/Connection.antt =====
-- TcpConnectionBase of tpproxy/mpproxy_types.cc: a SocketBase paced by an IntervalBudget, which a
-- timer refills at 1.25 times the measured goodput. Times are microseconds, bandwidths bits per
-- second. The goodput filter and the product by the gain are code of other projects: the best
-- goodput is an argument of the alarm, and `gain` is a parameter.
pub mod Rate
pub mod Alive
pub mod Closing
use dash_dim.Prelude.{
  ℕ, ◌+◌, ◌-◌, ◌*◌, ◌/◌, ◌≤◌, Bool, true, false, ◌&&◌, Option, none, some, List, [], ◌∷◌, ◌++◌, ltb,
  ◌==◌, if◌then◌else◌, length,
}
use dash_dim.Prelude.Int.{ℤ, pos, ltb_ℤ}
use dash_dim.Budget.{IntervalBudget, set_target_rate_kbps, increase_budget, use_budget, remaining}
use dash_dim.Frame.{Call, recv_data, parse_message, perform, deliver}
use dash_dim.Socket.{
  Socket, Pacer, Kernel, IoStatus, flush_buffer, check_to_delete_self, close_fd, check_close_fd,
  notify_close,
}

abbrev pub min_goodput : ℕ
min_goodput = 500000

abbrev pub budget_interval : ℕ
budget_interval = 10000

abbrev pub write_buffer_threshold : ℕ
write_buffer_threshold = 1500 * 10

unfoldable pub goodput_with_minimum : ℕ → ℕ
goodput_with_minimum best = if ltb best min_goodput then min_goodput else best

-- CanSend and OnPacketSent, over `packet_budget_`.
unfoldable pub can_send : IntervalBudget → ℕ → Bool
unfolding remaining
can_send b bytes = if b.started then ltb_ℤ (pos 0) (remaining b) else true

unfoldable pub on_packet_sent : IntervalBudget → ℕ → IntervalBudget
on_packet_sent b bytes = if b.started then use_budget (pos bytes) b else b

abbrev pub paced : Pacer
paced = record { State = IntervalBudget; can_send = can_send; on_packet_sent = on_packet_sent }

-- `server` is the number of the server behind `server_`, and `notices` the servers that were told
-- of the close.
pub record Connection : Type 0 where
  pub socket : Socket IntervalBudget
  pub server : Option ℕ
  pub last_budget_time : ℕ
  pub budget_alarm : ℕ
  pub notices : List ℕ

unfoldable pub is_buffer_above_threshold : Connection → Bool
is_buffer_above_threshold c = ltb write_buffer_threshold (length c.socket.fd_write_buffer)

-- OnBudgetAlarm, and whether it calls OnCanSend.
unfoldable pub on_budget_alarm : (ℕ → ℕ) → ℕ → ℕ → Connection → Bool × Connection
on_budget_alarm gain best now c =
    let kbps = gain (goodput_with_minimum best) / 1000 in
    let delta_time_ms = (now - c.last_budget_time) / 1000 in
    let old = c.socket.pacer in
    let budget =
      (if ltb c.last_budget_time now
        then increase_budget (pos delta_time_ms) (set_target_rate_kbps (pos kbps) old)
        else old) in
    (
      ltb_ℤ (pos 0) (remaining budget) && (length c.socket.fd_write_buffer == 0),
      record c {
        socket = record (c.socket) { pacer = budget };
        last_budget_time = now;
        budget_alarm = now + budget_interval;
      },
    )

-- OnWriteEvent. The first component says whether EPOLLOUT stays requested.
unfoldable pub on_write_event : Kernel → Connection → Bool × Connection
on_write_event kernel c =
    let flushed = flush_buffer paced kernel c.socket in
    (ltb 0 (length flushed.fd_write_buffer), record c { socket = check_close_fd flushed })

-- The connection's own CloseEntity, which also tells its server.
unfoldable pub close_entity : Connection → Connection
close_entity c = record c {
  socket =
      check_to_delete_self
        (record (c.socket) { io_status = record (c.socket.io_status) { entity_closed = true } });
  server = none;
  notices = elim c.server [ none ↦ c.notices | some server ↦ c.notices ++ (server ∷ []) ];
}

unfoldable pub check_close_entity : Connection → Connection
check_close_entity c =
    if c.socket.io_status.entity_wait_close && (length c.socket.fd_read_buffer == 0)
    then close_entity c
    else c

-- What ParseMessage of a subclass makes of a message: nothing that concerns the connection, a
-- server found or made, one made whose connect() failed, or the news that the other end's
-- connect() failed.
pub data Outcome : Type 0 where
  ignored : Outcome
  joined : ℕ → Outcome
  refused : ℕ → Outcome
  origin_failed : Outcome

abbrev pub Parse : Type 0
Parse = ℕ → List ℕ → Connection → Outcome

-- CloseFd and CloseEntity.
unfoldable pub close_both : Connection → Connection
close_both c = close_entity (record c { socket = close_fd c.socket })

unfoldable pub take_outcome : Outcome → Connection → Connection
take_outcome ignored c = c
take_outcome (joined server) c = record c { server = some server }
take_outcome (refused server) c = close_both (record c { server = some server })
take_outcome origin_failed c = close_both c

-- What a call of Deliver does to the connection; RecvData feeds the sequencer of the server alone.
unfoldable pub act : Parse → Call → Connection → Connection
act parse (recv_data offset pv) c = c
act parse (parse_message offset pv) c = take_outcome (parse offset pv c) c

abbrev pub has_server : Connection → Bool
has_server c = elim c.server [ none ↦ false | some server ↦ true ]

-- The end of Deliver. The entity's close is looked at where a frame was cut out and nothing is left.
unfoldable pub keep_rest : ℕ → List ℕ → Connection → Connection
keep_rest size rest c =
    let c' = record c { socket = record (c.socket) { fd_read_buffer = rest } } in
    if ltb (length rest) size && (length rest == 0) then check_close_entity c' else c'

-- Deliver; `none` where a CHECK aborts.
unfoldable pub deliver_frames : Parse → Connection → Option (List Call × Connection)
deliver_frames parse c =
    let (calls, rest) = deliver c.socket.fd_read_buffer in
    elim (perform has_server (act parse) calls c) [
      | none ↦ none
      | some c' ↦ some (calls, keep_rest (length c.socket.fd_read_buffer) rest c')
    ]

-- What the calls of read() answer until one says -1.
pub data Read : Type 0 where
  end_of_file : Read
  bytes : List ℕ → Read

-- The loop of OnReadEvent; `none` where a CHECK aborts. It says whether bytes came.
unfoldable pub read_loop : List Read → Connection → Option (Bool × Connection)
read_loop [] c = some (false, c)
read_loop (end_of_file ∷ reads) c =
    let closed = record c { socket = close_fd c.socket } in
    let more = read_loop reads closed in
    if length closed.socket.fd_write_buffer == 0 then more else none
read_loop (bytes nbytes ∷ reads) c =
    elim (read_loop reads (record c {
      socket = record (c.socket) { fd_read_buffer = c.socket.fd_read_buffer ++ nbytes };
    })) [ none ↦ none | some (update, c') ↦ some (true, c') ]

-- The CHECK at the end of OnReadEvent.
unfoldable pub check_read : List Call × Connection → Option (List Call × Connection)
check_read (calls, c) =
    if c.socket.io_status.fd_closed && ltb 0 (length c.socket.fd_read_buffer)
    then none
    else some (calls, c)

-- OnReadEvent after its loop.
unfoldable pub after_read : Parse → Bool × Connection → Option (List Call × Connection)
after_read parse (update, c) = elim (if update then deliver_frames parse c else some ([], c)) [
  | none ↦ none
  | some r ↦ check_read r
]

unfoldable pub on_read_event : Parse → List Read → Connection → Option (List Call × Connection)
on_read_event parse reads c = elim (read_loop reads c) [ none ↦ none | some r ↦ after_read parse r ]

-- Notify(PROXY_CLOSE) of both subclasses.
unfoldable pub notify : Connection → Connection
notify c = record c { socket = notify_close c.socket; server = none }
