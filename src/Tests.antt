-- ===== src/Tests.antt =====
-- Concrete runs: a small stream, connection, server and relay.
mod Relays
mod Segments
mod Sessions
mod Adaptation
mod Choices
mod Paths
use dash_dim.Prelude.{
  ℕ, ◌+◌, ◌-◌, ◌*◌, ◌^◌, ◌≤◌, ◌<◌, ◌≡◌, refl, ap, ◌∙◌, ◌≢◌, ◌↔◌, ◌⊎◌, inl, inr, Bool, true, false,
  ◌&&◌, ◌||◌, Option, none, some, List, [], ◌∷◌, ◌++◌, length, replicate, min, arith, size_mod,
  IfSome, All, ◌/◌,
}
use dash_dim.Prelude.Int.{◌*ℤ◌, ℤ, pos, pos_part, ◌≤ℤ◌}
use dash_dim.Codec.Endian.{IsByte, network_byte_order, host_bytes}
use dash_dim.Codec.Reader.{
  debug_read_var_int62, read_var_int62, read_var_int, read_uint8, read_uint16, read_uint32,
  read_uint64, read_bytes_to_uint64,
}
use dash_dim.Codec.Writer.{
  debug_write_var_int62, Writer, get_var_int62_len, get_var_int_len, write_var_int62, write_var_int,
  write_uint8, write_uint16, write_uint32, write_uint64, write_bytes_to_uint64,
}
use dash_dim.Codec.Append.{IsValid, writer-IsValid}
use dash_dim.Codec.VarInt62.{encoding62}
use dash_dim.Codec.RoundTrip.{
  reader_at, RoundTrips, read_var_int62-write_var_int62, read_var_int-write_var_int,
  read_uint-write_uint, read_bytes_to_uint64-write_bytes_to_uint64,
}
use dash_dim.Frame.{perform, Call, recv_data, deliver, send_data, write_message}
use dash_dim.Frame.Segments.{deliver-append}
use dash_dim.Frame.Send.{frame, send_data-frame, write_message-frame}
use dash_dim.Frame.Stream.{deliver-send_all, send_all, calls}
use dash_dim.Budget.{window_ms, IntervalBudget, interval_budget}
use dash_dim.Budget.Bounds.{run-IsValid, IsInt64, NeverOverflows, Op, spend, increase, set_rate}
use dash_dim.Budget.Bounds
use dash_dim.Socket.{Socket, IoStatus, Kernel, IsSend, flush_buffer, write_data_to_fd}
use dash_dim.Socket.Flush.{flush_buffer_lem, write_data_to_fd_lem, Flushed, Stops}
use dash_dim.Connection.{Parse, ignored, has_server, act, Connection, paced, notify, can_send}
use dash_dim.Connection.Rate.{IsPaced, Event, alarm, write, after_all, granted, send_bytes_le}
use dash_dim.Connection.Closing

-- A kernel that takes at most two bytes a call.
abbrev pub slow : Kernel
slow call n = min n 2

pub slow-IsSend : IsSend slow
slow-IsSend call n = omega arith

abbrev pub open_status : IoStatus
open_status = record {
  fd_closed = false;
  fd_wait_close = false;
  entity_closed = false;
  entity_wait_close = false;
}

-- 8000 kbps: a window of 500000 bytes, of which 10000 are granted.
abbrev pub budget : IntervalBudget
budget = record {
  started = true;
  target_rate_kbps = pos 8000;
  max_bytes_in_budget = pos 500000;
  bytes_remaining = pos 10000;
  can_build_up_underuse = false;
}

abbrev socket : Socket IntervalBudget
socket = record {
  pacer = budget;
  fd = pos 5;
  io_status = open_status;
  fd_write_buffer = 1 ∷ 2 ∷ 3 ∷ [];
  fd_read_buffer = [];
  destroyed = false;
  deletes = 0;
  send_bytes = 0;
  calls = 0;
  sent = [];
}

abbrev pub connection : Connection
connection = record {
  socket = socket;
  server = some 1;
  last_budget_time = 0;
  budget_alarm = 0;
  notices = [];
}

-- A ParseMessage that makes nothing of what it reads.
abbrev parse : Parse
parse offset pv c = ignored

abbrev two_frames : List (ℕ × List ℕ)
two_frames = (1, 7 ∷ 8 ∷ []) ∷ (3, 9 ∷ []) ∷ []

-- Their bytes: offset, length and payload.
abbrev wire_bytes : List ℕ
wire_bytes = 1 ∷ 2 ∷ 7 ∷ 8 ∷ 3 ∷ 1 ∷ 9 ∷ []

wire-IsByte : All IsByte wire_bytes
wire-IsByte = ground arith

two_frames-sent : send_all two_frames [] ≡ some wire_bytes
unfolding send_all encoding62 host_bytes
two_frames-sent =
    ap
      (λ (o : Option (List ℕ)). elim o as (λ x. Option (List ℕ)) [
        | none ↦ none
        | some wb ↦ send_all ((3, 9 ∷ []) ∷ []) wb
      ])
      (send_data-frame 1 (7 ∷ 8 ∷ []) [] (omega arith) (omega arith))
    ∙ ap
        (λ (o : Option (List ℕ)). elim o as (λ x. Option (List ℕ)) [
          | none ↦ none
          | some wb ↦ some wb
        ])
        (send_data-frame 3 (9 ∷ []) (1 ∷ 2 ∷ 7 ∷ 8 ∷ []) (omega arith) (omega arith))

deliver-send_all_example :
    ((deliver (1 ∷ 2 ∷ 7 ∷ [])).0
        ++ (deliver ((deliver (1 ∷ 2 ∷ 7 ∷ [])).1 ++ (8 ∷ 3 ∷ 1 ∷ 9 ∷ []))).0
      ≡ calls two_frames)
    × ((deliver ((deliver (1 ∷ 2 ∷ 7 ∷ [])).1 ++ (8 ∷ 3 ∷ 1 ∷ 9 ∷ []))).1 ≡ [])
    × (perform has_server
          (act parse)
          ((deliver (1 ∷ 2 ∷ 7 ∷ [])).0
            ++ (deliver ((deliver (1 ∷ 2 ∷ 7 ∷ [])).1 ++ (8 ∷ 3 ∷ 1 ∷ 9 ∷ []))).0)
          connection
        ≡ some connection)
unfolding act
deliver-send_all_example =
    deliver-send_all has_server (act parse) connection two_frames wire_bytes (1 ∷ 2 ∷ 7 ∷ [])
      (8 ∷ 3 ∷ 1 ∷ 9 ∷ []) (λ o pv t. refl) (ground arith) two_frames-sent refl (omega arith)

deliver-append_example : deliver wire_bytes ≡ (
  (deliver (1 ∷ 2 ∷ 7 ∷ [])).0
      ++ (deliver ((deliver (1 ∷ 2 ∷ 7 ∷ [])).1 ++ (8 ∷ 3 ∷ 1 ∷ 9 ∷ []))).0,
  (deliver ((deliver (1 ∷ 2 ∷ 7 ∷ [])).1 ++ (8 ∷ 3 ∷ 1 ∷ 9 ∷ []))).1,
)
deliver-append_example =
    deliver-append (1 ∷ 2 ∷ 7 ∷ []) (8 ∷ 3 ∷ 1 ∷ 9 ∷ []) wire-IsByte (ground arith) (omega arith)

abbrev blank : Writer
blank = record {
  buffer = replicate 32 0;
  capacity = 32;
  length = 0;
  endianness = network_byte_order;
}

blank-IsValid : IsValid blank
blank-IsValid = ground arith

read_var_int62-write_var_int62_example :
    RoundTrips blank blank-IsValid (5 ∷ []) (write_var_int62 300) read_var_int62 300
    × (debug_write_var_int62 300 blank ≡ some (write_var_int62 300 blank))
    × (debug_read_var_int62 (reader_at blank (write_var_int62 300 blank).0 (5 ∷ []))
        ≡ some (read_var_int62 (reader_at blank (write_var_int62 300 blank).0 (5 ∷ []))))
read_var_int62-write_var_int62_example =
    read_var_int62-write_var_int62 blank blank-IsValid (5 ∷ []) 300 refl (omega arith)
      (unfold get_var_int62_len in omega arith) (omega arith)

read_var_int-write_var_int_example :
    RoundTrips blank blank-IsValid (5 ∷ []) (write_var_int 300) read_var_int 300
read_var_int-write_var_int_example =
    read_var_int-write_var_int blank blank-IsValid (5 ∷ []) 300 (omega arith)
      (unfold get_var_int_len in omega arith) (omega arith)

read_uint-write_uint_example :
    RoundTrips blank blank-IsValid [] (write_uint8 200) read_uint8 200
    × RoundTrips blank blank-IsValid [] (write_uint16 60000) read_uint16 60000
    × RoundTrips blank blank-IsValid [] (write_uint32 70000) read_uint32 70000
    × RoundTrips blank blank-IsValid [] (write_uint64 5000000000) read_uint64 5000000000
read_uint-write_uint_example =
    read_uint-write_uint blank blank-IsValid [] 200 60000 70000 5000000000 (omega arith)
      (omega arith) (omega arith) (omega arith) (omega arith) (omega arith)

read_bytes_to_uint64-write_bytes_to_uint64_example :
    RoundTrips blank blank-IsValid [] (write_bytes_to_uint64 3 70000) (read_bytes_to_uint64 3) 70000
read_bytes_to_uint64-write_bytes_to_uint64_example =
    read_bytes_to_uint64-write_bytes_to_uint64 blank blank-IsValid [] 3 70000 (omega arith)
      (omega arith) (omega arith) (omega arith)

abbrev ops : List Op
ops = spend 700 ∷ increase 10 ∷ set_rate 500 ∷ []

run-IsValid_example :
    Bounds.IsValid (Bounds.run ops (interval_budget (pos 800) false))
    × IsInt64 (window_ms *ℤ pos 800)
    × NeverOverflows ops (interval_budget (pos 800) false)
run-IsValid_example =
    run-IsValid 800 false ops (omega arith) (omega arith, (omega arith, (omega arith, tt)))

flush_buffer_lem_example :
    Flushed paced slow [] socket (flush_buffer paced slow socket)
    × Stops paced slow
        ((flush_buffer paced slow socket).fd_write_buffer, flush_buffer paced slow socket)
    × ((flush_buffer paced slow socket).fd ≡ pos 5)
flush_buffer_lem_example = flush_buffer_lem paced slow slow-IsSend socket (omega arith)

write_data_to_fd_lem_example :
    Flushed paced slow (4 ∷ 5 ∷ []) socket (write_data_to_fd paced slow (4 ∷ 5 ∷ []) socket)
write_data_to_fd_lem_example =
    write_data_to_fd_lem paced slow slow-IsSend (4 ∷ 5 ∷ []) socket (omega arith)

-- A gain of 5/4.
abbrev pub gain : ℕ → ℕ
gain b = b + b / 4

budget-IsPaced : IsPaced budget
budget-IsPaced = ground arith

abbrev events : List Event
events = write (4 ∷ 5 ∷ []) ∷ alarm 600000 10000 ∷ write (6 ∷ []) ∷ []

send_bytes_le_example :
    length (after_all gain slow events connection).socket.sent
    ≤ 0 + 10000 + granted gain slow events connection + 1499
send_bytes_le_example =
    send_bytes_le gain slow slow-IsSend (λ b. omega arith) events connection budget-IsPaced

connection-IsFresh : Closing.IsFresh connection
connection-IsFresh = ground arith

abbrev notified_connection : Connection
notified_connection = notify connection

deletes-once_example : Closing.EndsWell notified_connection.socket
deletes-once_example =
    Closing.deletes-once gain slow connection notified_connection connection-IsFresh (
      Closing.then_step connection connection notified_connection (Closing.here connection)
        (Closing.notified connection))
