-- ===== src/Dash/Request.antt =====
-- The one message of the two ends: DashClient::SendRequest of dash/dash_client.cc, and what
-- DashServerEndpoint::OnReadEvent of dash/dash_server.cc reads in a chunk.
use dash_dim.Prelude.{
  ℕ, ◌^◌, ◌<◌, ◌≡◌, refl, ap, ◌∙◌, Option, none, some, true, List, [], ◌++◌, ◌==◌, if◌then◌else◌,
  length, arith, length-append, append_assoc, size_mod,
}
use dash_dim.Prelude.Int.{ℤ, pos, ltb_ℤ}
use dash_dim.Codec.Endian.{host_bytes, network_byte_order, length-host_bytes}
use dash_dim.Codec.Reader.{Reader, Read, reader, ◌>>=◌, fail, read_uint8, read_uint32, advance_pos}
use dash_dim.Codec.Writer.{Writer, Write, ◌then_write◌, payload, write_uint8, write_uint32}
use dash_dim.Codec.Chain.{
  fresh, fresh-Appends, then_write-Appends, write_uint8-Appends, write_uint32-Appends,
}
use dash_dim.Codec.Advance.{IsAhead, >>=-some, advance_pos-IsAhead}
use dash_dim.Codec.Fixed.{wire, length-wire, read_uint8-wire, read_uint32-wire}

abbrev pub dash_req : ℕ
dash_req = 0

abbrev pub buffer_size : ℕ
buffer_size = 1500

-- `bytes` is the uint32_t that WriteUInt32 makes of the int.
unfoldable pub request_writer : ℕ → Write
request_writer bytes = write_uint8 dash_req then_write write_uint32 bytes

-- SendRequest: the bytes that one write() is offered; `none` where the CHECK aborts.
unfoldable pub send_request : ℤ → ℕ → Option (List ℕ)
unfolding request_writer fresh
send_request fd bytes =
    let (w, success) = request_writer bytes (fresh buffer_size) in
    if success then some (if ltb_ℤ (pos 0) fd then payload w else []) else none

-- The size that the first bytes of a chunk ask for, where they are a request.
abbrev pub request : Read ℕ
request = read_uint8 >>= λ type. if type == dash_req then read_uint32 else fail

unfoldable pub read_request : List ℕ → Option ℕ
read_request chunk = (request (reader chunk (length chunk))).0

-- The bytes of a request.
abbrev pub message : ℕ → List ℕ
message bytes = host_bytes 1 dash_req ++ wire network_byte_order 4 bytes

pub length-message : (bytes : ℕ) → length (message bytes) ≡ 5
length-message bytes = omega (
  arith,
  length-append (host_bytes 1 dash_req) (wire network_byte_order 4 bytes),
  length-host_bytes 1 dash_req,
  length-wire network_byte_order 4 bytes,
)

request_payload :
    (bytes : ℕ)
    → (w : Writer) × ((write_uint8 dash_req then_write write_uint32 bytes) (fresh buffer_size)
        ≡ (w, true))
      × (payload w ≡ message bytes)
request_payload bytes =
    fresh-Appends buffer_size (write_uint8 dash_req then_write write_uint32 bytes) (message bytes)
      (omega arith) (omega (arith, length-message bytes))
      (then_write-Appends (write_uint8 dash_req) (write_uint32 bytes) (host_bytes 1 dash_req)
        (wire network_byte_order 4 bytes) (write_uint8-Appends dash_req)
        (write_uint32-Appends bytes))

-- Its CHECK never fails.
pub send_request_succeeds : (fd : ℤ) (bytes : ℕ) → (m : List ℕ) × (send_request fd bytes ≡ some m)
unfolding send_request request_writer
send_request_succeeds fd bytes =
    let (w, e, p) = request_payload bytes in (if ltb_ℤ (pos 0) fd then payload w else [], rw e refl)

pub send_request-message :
    (fd : ℤ) (bytes : ℕ) → ltb_ℤ (pos 0) fd ≡ true → send_request fd bytes ≡ some (message bytes)
unfolding send_request request_writer
send_request-message fd bytes open_fd =
    let (w, e, p) = request_payload bytes in rw (e, open_fd, p) refl

-- A request at the start of a chunk is read, and what follows it in the chunk is not looked at.
pub read_request-message :
    (bytes : ℕ) (tail : List ℕ)
    → bytes < 2 ^ 32
    → length (message bytes ++ tail) < size_mod
    → read_request (message bytes ++ tail) ≡ some bytes
unfolding read_request reader advance_pos
read_request-message bytes tail small whole =
    ap (λ (p : Option ℕ × Reader). p.0)
      (>>=-some read_uint8 (λ type. if type == dash_req then read_uint32 else fail) start
          (read_uint8-wire dash_req (size ++ tail) start (omega arith) ahead)
        ∙ read_uint32-wire bytes tail (advance_pos 1 start) small next)
  where
    chunk : List ℕ
    chunk = message bytes ++ tail

    size : List ℕ
    size = wire network_byte_order 4 bytes

    start : Reader
    start = reader chunk (length chunk)

    ahead : IsAhead (host_bytes 1 dash_req) (size ++ tail) start
    ahead = record {
      ahead = append_assoc (host_bytes 1 dash_req) size tail;
      owned = omega (
        arith,
        length-message bytes,
        length-append (message bytes) tail,
        length-host_bytes 1 dash_req,
      );
      addressable = whole;
    }

    next : IsAhead size tail (advance_pos 1 start)
    next = rw (length-host_bytes 1 dash_req) at (
        advance_pos-IsAhead (host_bytes 1 dash_req) size tail start ahead (
          omega (
            arith,
            length-message bytes,
            length-append (message bytes) tail,
            length-append (host_bytes 1 dash_req) size,
          )))

-- SendRequest on an open descriptor, for a size below 2^32, offers one message, and a read()
-- of the other end that starts with it and goes on for less than 1500 bytes finds that size;
-- what follows it in the chunk is not looked at.
pub read_request-send_request :
    (fd : ℤ) (bytes : ℕ) (tail : List ℕ)
    → ltb_ℤ (pos 0) fd ≡ true
    → bytes < 2 ^ 32
    → length tail < buffer_size
    → (m : List ℕ) × (send_request fd bytes ≡ some m) × (read_request (m ++ tail) ≡ some bytes)
read_request-send_request fd bytes tail open_fd small short = (
  message bytes,
  send_request-message fd bytes open_fd,
  read_request-message bytes tail small
      (omega (arith, length-append (message bytes) tail, length-message bytes)),
)
