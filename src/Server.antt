-- ===== src/Server.antt =====
-- TpServerBase of tpproxy/mpproxy_types.cc: the end of the proxy at one application's socket. It
-- cuts what the application writes into segments and deals them out over the ready connections,
-- in proportion to their goodput. The product by a ratio of doubles is a parameter, `share`, as
-- is the gain of a bandwidth.
pub mod Segments
pub mod Tiling
pub mod Stream
use dash_dim.Prelude.{
  ℕ, zero, suc, ◌+◌, ◌-◌, ◌*◌, ◌/◌, ◌%◌, ◌^◌, ◌≤◌, Bool, true, false, ◌&&◌, not, Option, none, some,
  List, [], ◌∷◌, ◌++◌, ltb, leb, ◌==◌, if◌then◌else◌, length, take, drop, min, max,
}
use dash_dim.Prelude.Int.{ℤ, pos, pos_part, ltb_ℤ}
use dash_dim.Budget.{IntervalBudget, set_target_rate_kbps, increase_budget, use_budget, remaining}
use dash_dim.Frame.{packet_length_max, reserve_offset}
use dash_dim.Socket.{Socket, check_to_delete_self, close_fd}
use dash_dim.Connection.{
  Connection, Read, end_of_file, bytes, goodput_with_minimum, min_goodput,
  is_buffer_above_threshold,
}

abbrev pub min_payload_size : ℕ
min_payload_size = 1500

abbrev pub schedule_interval_ms : ℕ
schedule_interval_ms = 10

-- A connection of the ready list, with its number and its best goodput.
pub record ReadyPath : Type 0 where
  pub number : ℕ
  pub connection : Connection
  pub best : ℕ

-- A call of SendData: on which connection, at which offset, and the bytes.
pub record Segment : Type 0 where
  pub number : ℕ
  pub offset : ℕ
  pub payload : List ℕ

-- `received` is all that read() gave, `emitted` the calls of SendData so far, and `notified` the
-- connections that were told of the close.
pub record Server : Type 0 where
  pub socket : Socket (Unit {0})
  pub packet_budget : IntervalBudget
  pub write_offset : ℕ
  pub ready_list : List ReadyPath
  pub last_budget_time : ℕ
  pub received : List ℕ
  pub emitted : List Segment
  pub notified : List ℕ

-- The loop of SendDataWithLimit: a round takes a byte at least.
unfoldable pub limit_loop : ℕ → ℕ → ℕ → List ℕ → List Segment
limit_loop zero number offset pv = []
limit_loop (suc fuel) number offset pv =
    let sent = min (length pv) packet_length_max in
    let more = limit_loop fuel number (offset + sent) (drop sent pv) in
    if length pv == 0
    then []
    else record { number = number; offset = offset; payload = take sent pv } ∷ more

unfoldable pub send_data_with_limit : ℕ → ℕ → List ℕ → List Segment
send_data_with_limit number offset pv = limit_loop (length pv) number offset pv

unfoldable pub goodput_kbps : ReadyPath → ℕ
goodput_kbps p = goodput_with_minimum p.best / 1000

-- The connections below their threshold.
unfoldable pub available : List ReadyPath → List ReadyPath
available [] = []
available (p ∷ ps) =
    let rest = available ps in if is_buffer_above_threshold p.connection then rest else p ∷ rest

unfoldable pub total_goodput : List ReadyPath → ℕ
total_goodput [] = 0
total_goodput (p ∷ ps) = goodput_with_minimum p.best + total_goodput ps

module _ (share : ℕ → ℕ → ℕ → ℕ) where
  -- Schedule's loop and its last connection, which takes what is left.
  unfoldable pub deal : ℕ → List ReadyPath → ℕ → List ℕ → List Segment
  deal total [] offset data_ = []
  deal total (p ∷ []) offset data_ =
      if ltb 0 (length data_) then send_data_with_limit p.number offset data_ else []
  deal total (p ∷ q ∷ ps) offset data_ =
      let target = max (share (goodput_kbps p) (total / 1000) (length data_)) min_payload_size in
      let sent = min target (length data_) in
      let more = deal total (q ∷ ps) (offset + sent) (drop sent data_) in
      if length data_ == 0
      then []
      else send_data_with_limit p.number offset (take sent data_) ++ more

  unfoldable pub schedule : Server → Server
  schedule s =
      let connections = available s.ready_list in
      let data_ = s.socket.fd_read_buffer in
      if length connections == 0 then s else record s {
        socket = record (s.socket) { fd_read_buffer = [] };
        write_offset = s.write_offset + length data_;
        emitted = s.emitted ++ deal (total_goodput connections) connections s.write_offset data_;
      }

unfoldable pub remove_from_ready_list : ℕ → List ReadyPath → Bool × List ReadyPath
remove_from_ready_list number [] = (false, [])
remove_from_ready_list number (p ∷ ps) =
    let (removed, rest) = remove_from_ready_list number ps in
    if p.number == number then (true, ps) else (removed, p ∷ rest)

abbrev pub numbers : List ReadyPath → List ℕ
numbers [] = []
numbers (p ∷ ps) = p.number ∷ numbers ps

unfoldable pub close_entity : Server → Server
close_entity s = record s {
  socket =
      check_to_delete_self
        (record (s.socket) { io_status = record (s.socket.io_status) { entity_closed = true } });
  ready_list = [];
  notified = s.notified ++ numbers s.ready_list;
}

unfoldable pub check_close_entity : Server → Server
check_close_entity s =
    if s.socket.io_status.entity_wait_close && (length s.socket.fd_read_buffer == 0)
    then close_entity s
    else s

-- OnDataFromFd.
unfoldable pub on_data_from_fd : List ℕ → Server → Server
on_data_from_fd pv s = record s {
  socket = record (s.socket) { fd_read_buffer = s.socket.fd_read_buffer ++ pv };
  received = s.received ++ pv;
}

-- The loop of OnReadEvent, with the bytes read so far; the list ends where read() says -1.
unfoldable pub read_loop : List Read → ℕ → ℕ → Server → ℕ × Server
read_loop [] target read_bytes s = (read_bytes, s)
read_loop (end_of_file ∷ reads) target read_bytes s =
    read_loop reads target read_bytes (record s { socket = close_fd s.socket })
read_loop (bytes pv ∷ reads) target read_bytes s =
    let got = read_bytes + length pv in
    let s' = on_data_from_fd pv s in
    let more = read_loop reads target got s' in if leb target got then (got, s') else more

unfoldable pub on_read_event : List Read → Server → Server
on_read_event reads s =
    let (read_bytes, s') = read_loop reads (pos_part (remaining s.packet_budget)) 0 s in
    check_close_entity (
      if ltb 0 read_bytes
      then record s' { packet_budget = use_budget (pos read_bytes) s'.packet_budget }
      else s')

module _ (gain : ℕ → ℕ) where
  -- UpdateReadBudgetRate: the goodput of the connections below their threshold, with the gain.
  unfoldable pub sum_rate : List ReadyPath → ℕ
  sum_rate [] = 0
  sum_rate (p ∷ ps) = gain (goodput_with_minimum p.best) + sum_rate ps

  unfoldable pub update_read_budget_rate : Server → Server
  update_read_budget_rate s =
      let b = sum_rate (available s.ready_list) in
      record s {
        packet_budget =
            set_target_rate_kbps (pos ((if ltb b min_goodput then min_goodput else b) / 1000))
              s.packet_budget;
      }

  -- The time since the last alarm, or one interval where there is none.
  unfoldable pub elapsed_ms : ℕ → ℕ → ℕ
  elapsed_ms last now =
      if last == 0
      then schedule_interval_ms
      else if ltb last now
      then (now - last) / 1000
      else schedule_interval_ms

  unfoldable pub on_budget_alarm : (ℕ → ℕ → ℕ → ℕ) → List Read → ℕ → Server → Server
  on_budget_alarm share reads now s =
      let rated = update_read_budget_rate s in
      let s1 = record rated {
        packet_budget =
            increase_budget (pos (elapsed_ms s.last_budget_time now)) rated.packet_budget;
        last_budget_time = now;
      } in
      let buffer_full = length (available s1.ready_list) == 0 in
      let s2 =
        (if ltb_ℤ (pos 0) s1.socket.fd && not buffer_full then on_read_event reads s1 else s1) in
      let s3 = (if ltb 0 (length s2.socket.fd_read_buffer) then schedule share s2 else s2) in
      if s3.socket.io_status.fd_closed then check_close_entity s3 else s3

-- What RecvData hands the sequencer: a stream offset, and the bytes, whose count is cut to 16 bits.
unfoldable pub recv_data : ℕ → List ℕ → Option (ℕ × List ℕ)
recv_data offset pv =
    if leb reserve_offset offset
    then some (offset - reserve_offset, take (length pv % 2 ^ 16) pv)
    else none
