-- ===== src/Socket.antt =====
-- SocketBase of tpproxy/mpproxy_types.h and tpproxy/mpproxy_types.cc: the write buffer in front of a
-- non-blocking socket, and the closing protocol of its two ends.
-- The kernel is a parameter: what send() accepts at each call. `calls` counts the calls of send()
-- and `sent` is what the peer will read.
pub mod Flush
use dash_dim.Prelude.{
  ℕ, zero, suc, ◌+◌, ◌%◌, ◌^◌, ◌≤◌, Bool, true, false, ◌&&◌, ◌||◌, not, List, [], ◌∷◌, ◌++◌, ltb,
  ◌==◌, if◌then◌else◌, length, take, drop, min,
}
use dash_dim.Prelude.Int.{ℤ, pos, negsuc, ltb_ℤ}
use dash_dim.Frame.{buffer_size}

-- The flags of `io_status_`.
pub record IoStatus : Type 0 where
  pub fd_closed : Bool
  pub fd_wait_close : Bool
  pub entity_closed : Bool
  pub entity_wait_close : Bool

-- The virtual CanSend and OnPacketSent of a subclass, over its own state.
pub record Pacer : Type 1 where
  pub State : Type 0
  pub can_send : State → ℕ → Bool
  pub on_packet_sent : State → ℕ → State

-- SocketBase itself: it always may send, and counts nothing.
abbrev pub unpaced : Pacer
unpaced = record { State = Unit {0}; can_send = λ s n. true; on_packet_sent = λ s n. s }

-- `send_bytes_` is an int, kept as its 32 bits; an addition that overflows wraps around, as the
-- compiled code does.
abbrev pub count : ℕ → ℕ → ℕ
count send_bytes n = (send_bytes + n) % 2 ^ 32

pub record Socket (P : Type 0) : Type 0 where
  pub pacer : P
  pub fd : ℤ
  pub io_status : IoStatus
  pub fd_write_buffer : List ℕ
  pub fd_read_buffer : List ℕ
  pub destroyed : Bool
  pub deletes : ℕ
  pub send_bytes : ℕ
  pub calls : ℕ
  pub sent : List ℕ

-- What send() answers at its n-th call for so many bytes: the count accepted, or 0 for an error.
abbrev pub Kernel : Type 0
Kernel = ℕ → ℕ → ℕ

-- send() accepts at most what it is offered.
abbrev pub IsSend : Kernel → Type 0
IsSend kernel = (call n : ℕ) → kernel call n ≤ n

module _ (p : Pacer) (kernel : Kernel) where
  open p use {State, can_send, on_packet_sent}

  -- One call of send(), for the first `intend` bytes of `data_`.
  unfoldable pub send : ℕ → List ℕ → Socket State → ℕ × Socket State
  send intend data_ s =
      let n = kernel s.calls intend in
      (n, record s { calls = s.calls + 1; sent = s.sent ++ take n data_ })

  unfoldable pub after_packet : ℕ → Socket State → Socket State
  after_packet n s = record s {
    send_bytes = count s.send_bytes n;
    pacer = on_packet_sent s.pacer n;
  }

  -- The loop of FlushBuffer: what is left unsent, and the socket.
  unfoldable pub flush_loop : ℕ → List ℕ → Socket State → List ℕ × Socket State
  flush_loop zero data_ s = (data_, s)
  flush_loop (suc fuel) data_ s =
      let intend = min buffer_size (length data_) in
      let (n, s') = send intend data_ s in
      let more = flush_loop fuel (drop n data_) (after_packet n s') in
      if length data_ == 0
      then (data_, s)
      else if can_send s.pacer intend
      then (if n == 0 then (data_, s') else more)
      else (data_, s)

  -- Each round takes a byte at least. Where nothing was flushed the buffer is its own rest.
  unfoldable pub flush_buffer : Socket State → Socket State
  flush_buffer s =
      let (rest, s') = flush_loop (length s.fd_write_buffer) s.fd_write_buffer s in
      if ltb_ℤ s.fd (pos 0) then s else record s' { fd_write_buffer = rest }

  -- WriteDataToFd of TpServerBase; the new size of the write buffer decides on EPOLLOUT.
  unfoldable pub write_data_to_fd : List ℕ → Socket State → Socket State
  write_data_to_fd pv s =
      let flushed = flush_buffer s in
      let (n, tried) = send (length pv) pv flushed in
      if ltb_ℤ s.fd (pos 0)
      then s
      else if ltb 0 (length flushed.fd_write_buffer)
      then record flushed { fd_write_buffer = flushed.fd_write_buffer ++ pv }
      else record tried {
        send_bytes = count tried.send_bytes n;
        fd_write_buffer = flushed.fd_write_buffer ++ drop n pv;
      }

-- The bits of ENTITY_WAIT_CLOSE_IF_FD_CLOSED and FD_WAIT_CLOSE_IF_ENTITY_CLOSED.
abbrev pub fd_is_closed : IoStatus → IoStatus
fd_is_closed io = record io { entity_wait_close = true; fd_closed = true }

abbrev pub entity_is_closed : IoStatus → IoStatus
entity_is_closed io = record io { fd_wait_close = true; entity_closed = true }

module _ {P : Type 0} where
  -- DeleteSelf posts one deletion.
  unfoldable pub delete_self : Socket P → Socket P
  delete_self s = if s.destroyed then s else record s { destroyed = true; deletes = s.deletes + 1 }

  unfoldable pub check_to_delete_self : Socket P → Socket P
  check_to_delete_self s =
      if s.io_status.fd_closed && s.io_status.entity_closed then delete_self s else s

  unfoldable pub close_fd : Socket P → Socket P
  close_fd s = check_to_delete_self (
      if ltb_ℤ (pos 0) s.fd
      then record s { io_status = fd_is_closed s.io_status; fd = negsuc 0 }
      else s)

  unfoldable pub check_close_fd : Socket P → Socket P
  check_close_fd s =
      if s.io_status.fd_wait_close && (length s.fd_write_buffer == 0) then close_fd s else s

  -- CloseEntity without the notice to the other end, which the caller sends.
  unfoldable pub close_entity : Socket P → Socket P
  close_entity s =
      check_to_delete_self (record s { io_status = record (s.io_status) { entity_closed = true } })

  unfoldable pub check_close_entity : Socket P → Socket P
  check_close_entity s =
      if s.io_status.entity_wait_close && (length s.fd_read_buffer == 0) then close_entity s else s

  -- Notify(PROXY_CLOSE) of a connection: its entity is gone, and its descriptor follows when the
  -- write buffer is empty.
  unfoldable pub notify_close : Socket P → Socket P
  notify_close s = check_close_fd (record s { io_status = entity_is_closed s.io_status })
