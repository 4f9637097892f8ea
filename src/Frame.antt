-- ===== src/Frame.antt =====
-- The framing of tpproxy/mpproxy_types.cc: offset, length and bytes, written by SendData and
-- WriteMessage and cut out of the read buffer by IsDeliverable and Deliver.
pub mod Header
pub mod Segments
pub mod Send
pub mod Receive
pub mod Stream
use dash_dim.Prelude.{
  ℕ, zero, suc, ◌+◌, ◌-◌, ◌%◌, ◌^◌, ◌<◌, Bool, true, false, ◌&&◌, Option, none, some, List, [], ◌∷◌,
  ◌++◌, ltb, leb, ◌==◌, if◌then◌else◌, length, take, drop, replicate, size_mod,
}
use dash_dim.Codec.Reader.{Reader, reader, read_var_int62, ◌>>=◌, return}
use dash_dim.Codec.Writer.{
  Writer, Write, writer, ◌then_write◌, payload, write_var_int62, write_bytes, write_uint8,
  get_var_int62_len,
}

abbrev pub reserve_offset : ℕ
reserve_offset = 1

abbrev pub buffer_size : ℕ
buffer_size = 1500

-- `std::numeric_limits<QuicPacketLength>::max()`.
abbrev pub packet_length_max : ℕ
packet_length_max = 2 ^ 16 - 1

-- The out parameters of IsDeliverable.
pub record FrameHeader : Type 0 where
  pub offset : ℕ
  pub offset_bytes : ℕ
  pub len : ℕ
  pub len_bytes : ℕ

-- The two reads at the start of a frame.
unfoldable pub read_header : List ℕ → Option (ℕ × ℕ)
unfolding reader
read_header data_ =
    ((do offset ← read_var_int62; len ← read_var_int62; return (offset, len))
      (reader data_ (length data_))).0

abbrev pub header : ℕ → ℕ → FrameHeader
header o l = record {
  offset = o;
  offset_bytes = get_var_int62_len o;
  len = l;
  len_bytes = get_var_int62_len l;
}

abbrev pub frame_size : FrameHeader → ℕ
frame_size h = (h.offset_bytes + h.len_bytes + h.len) % size_mod

-- `none` stands for false, where the out parameters are zeroed.
unfoldable pub is_deliverable : List ℕ → Option FrameHeader
is_deliverable data_ = if length data_ == 0 then none else elim (read_header data_) [
  | none ↦ none
  | some (o, l) ↦ if leb (frame_size (header o l)) (length data_) then some (header o l) else none
]

-- What a frame makes the connection do, carried out by `perform`; the call of RecvData includes the
-- CHECK(server_) before it.
pub data Call : Type 0 where
  recv_data : ℕ → List ℕ → Call
  parse_message : ℕ → List ℕ → Call

unfoldable pub calls_of : FrameHeader → List ℕ → List Call
calls_of h data_ =
    let pv = take h.len (drop (h.offset_bytes + h.len_bytes) data_) in
    if leb reserve_offset h.offset
    then recv_data h.offset pv ∷ []
    else if ltb 0 h.len
    then parse_message h.offset pv ∷ []
    else []

-- The calls in turn, where `has_server` says whether `server_` is set and `act` is what a call does:
-- `none` is the CHECK(server_) before RecvData.
unfoldable pub perform : {S : Type 0} → (S → Bool) → (Call → S → S) → List Call → S → Option S
perform has_server act [] s = some s
perform has_server act (recv_data offset pv ∷ calls) s =
    let rest = perform has_server act calls (act (recv_data offset pv) s) in
    if has_server s then rest else none
perform has_server act (parse_message offset pv ∷ calls) s =
    perform has_server act calls (act (parse_message offset pv) s)

-- The loop of Deliver: the calls in order, and what stays in the read buffer.
unfoldable pub deliver_loop : ℕ → List ℕ → List Call × List ℕ
deliver_loop zero data_ = ([], data_)
deliver_loop (suc fuel) data_ = elim (is_deliverable data_) [
  | none ↦ ([], data_)
  | some h ↦
      (let (calls, rest) = deliver_loop fuel (drop (frame_size h) data_) in
        (calls_of h data_ ++ calls, rest))
]

-- A frame takes two bytes at least, so the length of the buffer is fuel enough.
unfoldable pub deliver : List ℕ → List Call × List ℕ
deliver fd_read_buffer = deliver_loop (length fd_read_buffer) fd_read_buffer

-- The writes of SendData into the grown part of the write buffer, and whether they succeeded.
unfoldable pub send_data_writer : ℕ → List ℕ → Writer × Bool
unfolding writer
send_data_writer offset pv =
    let size = get_var_int62_len offset + get_var_int62_len (length pv) + length pv in
    (write_var_int62 offset then_write (write_var_int62 (length pv) then_write write_bytes pv))
      (writer (replicate size 0) size)

-- The write buffer after SendData; `none` where a CHECK aborts.
unfoldable pub send_data : Bool → ℕ → List ℕ → List ℕ → Option (List ℕ)
unfolding send_data_writer
send_data fd_open offset pv fd_write_buffer =
    if fd_open && leb (length pv) packet_length_max
    then (let (w, success) = send_data_writer offset pv in
        if success then some (fd_write_buffer ++ w.buffer) else none)
    else none

-- WriteMessage composes the message in a local buffer of kBufferSize bytes, with offset 0.
unfoldable pub write_message_writer : ℕ → List ℕ → Writer × Bool
unfolding writer
write_message_writer type body =
    (write_var_int62 0
        then_write (write_var_int62 (1 + length body)
            then_write (write_uint8 type then_write write_bytes body)))
      (writer (replicate buffer_size 0) buffer_size)

unfoldable pub write_message : ℕ → List ℕ → List ℕ → Option (List ℕ)
unfolding write_message_writer
write_message type body fd_write_buffer =
    let (w, success) = write_message_writer type body in
    if success then some (fd_write_buffer ++ payload w) else none
