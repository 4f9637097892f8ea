-- ===== src/Proxy/Meta.antt =====
-- The first message of each path: WriteMetaData of tpproxy/mpproxy_client.cc, and ParseMessage of
-- tpproxy/mpproxy_server.cc, which looks up the session's server or makes one.
use mathlib.Core.Path.{subst}
use dash_dim.Prelude.{
  ℕ, ◌+◌, ◌^◌, ◌≤◌, ◌<◌, ◌≡◌, refl, sym, ap, ◌∙◌, Bool, Option, none, some, List, [], ◌∷◌, ◌++◌,
  ◌==◌, if◌then◌else◌, length, arith, length-append, append-nil,
}
use dash_dim.Codec.Endian.{host_bytes, network_byte_order, length-host_bytes}
use dash_dim.Codec.Reader.{
  Reader, reader, read_uint8, read_uint16, read_uint32, read_var_int62, advance_pos,
}
use dash_dim.Codec.Writer.{
  Write, ◌then_write◌, payload, write_var_int62, write_uint16, write_uint32,
}
use dash_dim.Codec.Chain.{
  fresh, fresh-Appends, then_write-Appends, write_var_int62-Appends, write_uint16-Appends,
  write_uint32-Appends,
}
use dash_dim.Codec.Advance.{IsAhead, advance_pos-IsAhead}
use dash_dim.Codec.Fixed.{wire, length-wire, read_uint8-wire, read_uint16-wire, read_uint32-wire}
use dash_dim.Codec.VarInt62.{encoding62, length-encoding62, read_var_int62-encoding62}
use dash_dim.Frame.{write_message, buffer_size}
use dash_dim.Frame.Send.{frame, write_message-frame}
use dash_dim.Proxy.Registry.{Table, find_server, register_sink, unregister_sink}

abbrev pub proxy_message_meta : ℕ
proxy_message_meta = 1

-- The client and session, and the address that the proxied connection was for. `ip` is not set where
-- its read fails.
pub record Meta : Type 0 where
  pub uuid : ℕ
  pub sid : ℕ
  pub ip : Option ℕ
  pub port : ℕ

abbrev pub meta : ℕ → ℕ → Option ℕ → ℕ → Meta
meta uuid sid ip port = record { uuid = uuid; sid = sid; ip = ip; port = port }

unfoldable pub meta_writer : ℕ → ℕ → ℕ → ℕ → Write
meta_writer uuid sid ip port =
    write_var_int62 uuid
    then_write (write_var_int62 sid then_write (write_uint32 ip then_write write_uint16 port))

-- WriteMetaData on the write buffer; `none` where a CHECK aborts.
unfoldable pub write_meta_data : ℕ → ℕ → ℕ → ℕ → List ℕ → Option (List ℕ)
unfolding meta_writer fresh
write_meta_data uuid sid ip port wb =
    let (w, success) = meta_writer uuid sid ip port (fresh buffer_size) in
    let written = write_message proxy_message_meta (payload w) wb in
    if success then written else none

-- The reads of ParseMessage, each after one that succeeded.
unfoldable pub read_port : ℕ → ℕ → ℕ → Option ℕ × Reader → Meta
read_port uuid sid ip (none, r) = meta uuid sid (some ip) 0
read_port uuid sid ip (some port, r) = meta uuid sid (some ip) port

unfoldable pub read_ip : ℕ → ℕ → Option ℕ × Reader → Meta
read_ip uuid sid (none, r) = meta uuid sid none 0
read_ip uuid sid (some ip, r) = read_port uuid sid ip (read_uint16 r)

unfoldable pub read_sid : ℕ → Option ℕ × Reader → Meta
read_sid uuid (none, r) = meta uuid 0 none 0
read_sid uuid (some sid, r) = read_ip uuid sid (read_uint32 r)

unfoldable pub read_uuid : Option ℕ × Reader → Meta
read_uuid (none, r) = meta 0 0 none 0
read_uuid (some uuid, r) = read_sid uuid (read_var_int62 r)

-- ParseMessage up to its look at the backend; `none` where it is no such message.
abbrev pub of_type : Option ℕ × Reader → Option Meta
of_type (none, r) = none
of_type (some type, r) =
    if type == proxy_message_meta then some (read_uuid (read_var_int62 r)) else none

unfoldable pub parse_meta : List ℕ → Option Meta
parse_meta data_ = of_type (read_uint8 (reader data_ (length data_)))

-- The rest of ParseMessage on a connection that has no client yet: the server that it gets, and the
-- table. `opened` and `connects` are what socket() and AsynConnect answer, and `right` is the new
-- server; a server that cannot connect deletes itself, which unregisters it.
unfoldable pub attach : Bool → Bool → ℕ → Meta → Table → Option (Option ℕ × Table)
attach opened connects right m t = elim (find_server m.uuid m.sid t) [
  | some server ↦ some (some server, t)
  | none ↦
      if opened
      then (if connects
          then (elim (register_sink right m.uuid m.sid t) [
            | none ↦ none
            | some t' ↦ some (some right, t')
          ])
          else (elim (unregister_sink m.uuid m.sid t) [
            | none ↦ none
            | some t' ↦ some (some right, t')
          ]))
      else some (none, t)
]

-- The body of the message.
abbrev pub body : ℕ → ℕ → ℕ → ℕ → List ℕ
body uuid sid ip port =
    encoding62 uuid
    ++ (encoding62 sid ++ (wire network_byte_order 4 ip ++ wire network_byte_order 2 port))

pub length-body :
    (uuid sid ip port : ℕ)
    → length (body uuid sid ip port) ≡ length (encoding62 uuid) + length (encoding62 sid) + 6
length-body uuid sid ip port = omega (
  arith,
  length-append (encoding62 uuid)
      (encoding62 sid ++ (wire network_byte_order 4 ip ++ wire network_byte_order 2 port)),
  length-append (encoding62 sid) (wire network_byte_order 4 ip ++ wire network_byte_order 2 port),
  length-append (wire network_byte_order 4 ip) (wire network_byte_order 2 port),
  length-wire network_byte_order 4 ip,
  length-wire network_byte_order 2 port,
)

pub write_meta_data-frame :
    (uuid sid ip port : ℕ) (wb : List ℕ)
    → uuid < 2 ^ 62
    → sid < 2 ^ 62
    → write_meta_data uuid sid ip port wb
      ≡ some (wb ++ frame 0 (proxy_message_meta ∷ body uuid sid ip port))
unfolding write_meta_data meta_writer
write_meta_data-frame uuid sid ip port wb hu hs =
    let (w, e, p) =
      fresh-Appends buffer_size
        (write_var_int62 uuid
          then_write (write_var_int62 sid
              then_write (write_uint32 ip then_write write_uint16 port)))
        (body uuid sid ip port) (omega arith) (omega (arith, size))
        (then_write-Appends (write_var_int62 uuid)
          (write_var_int62 sid then_write (write_uint32 ip then_write write_uint16 port))
          (encoding62 uuid) _ (write_var_int62-Appends uuid hu)
          (then_write-Appends (write_var_int62 sid) (write_uint32 ip then_write write_uint16 port)
            (encoding62 sid) _ (write_var_int62-Appends sid hs)
            (then_write-Appends (write_uint32 ip) (write_uint16 port) (wire network_byte_order 4 ip)
              (wire network_byte_order 2 port) (write_uint32-Appends ip)
              (write_uint16-Appends port)))) in
    rw (e, p)
      (write_message-frame proxy_message_meta (body uuid sid ip port) wb (omega arith)
        (omega (arith, size)))
  where
    size : length (body uuid sid ip port) ≤ 22
    size =
        omega (arith, length-body uuid sid ip port, length-encoding62 uuid, length-encoding62 sid)

pub parse_meta-body :
    (uuid sid ip port : ℕ)
    → uuid < 2 ^ 62
    → sid < 2 ^ 62
    → ip < 2 ^ 32
    → port < 2 ^ 16
    → parse_meta (proxy_message_meta ∷ body uuid sid ip port) ≡ some (meta uuid sid (some ip) port)
unfolding parse_meta read_uuid read_sid read_ip read_port reader advance_pos
parse_meta-body uuid sid ip port hu hs hi hp =
    ap of_type (read_uint8-wire proxy_message_meta (eu ++ (es ++ (ei ++ ep))) r0 (omega arith) a0)
    ∙ ap (λ q. some (read_uuid q)) (read_var_int62-encoding62 uuid (es ++ (ei ++ ep)) r1 hu a1)
    ∙ ap (λ q. some (read_sid uuid q)) (read_var_int62-encoding62 sid (ei ++ ep) r2 hs a2)
    ∙ ap (λ q. some (read_ip uuid sid q)) (read_uint32-wire ip ep r3 hi a3)
    ∙ ap (λ q. some (read_port uuid sid ip q)) (read_uint16-wire port [] r4 hp a4)
  where
    eu : List ℕ
    eu = encoding62 uuid

    es : List ℕ
    es = encoding62 sid

    ei : List ℕ
    ei = wire network_byte_order 4 ip

    ep : List ℕ
    ep = wire network_byte_order 2 port

    data_ : List ℕ
    data_ = proxy_message_meta ∷ body uuid sid ip port

    total : length data_ ≡ 1 + (length eu + length es + 6)
    total = omega (arith, length-body uuid sid ip port)

    r0 : Reader
    r0 = reader data_ (length data_)

    r1 : Reader
    r1 = advance_pos 1 r0

    r2 : Reader
    r2 = advance_pos (length eu) r1

    r3 : Reader
    r3 = advance_pos (length es) r2

    r4 : Reader
    r4 = advance_pos 4 r3

    a0 : IsAhead (host_bytes 1 proxy_message_meta) (eu ++ (es ++ (ei ++ ep))) r0
    a0 = record {
      ahead = unfold host_bytes in refl;
      owned = omega (arith, length-host_bytes 1 proxy_message_meta);
      addressable = omega (arith, total, length-encoding62 uuid, length-encoding62 sid);
    }

    a1 : IsAhead eu (es ++ (ei ++ ep)) r1
    a1 = rw (length-host_bytes 1 proxy_message_meta) at (
        advance_pos-IsAhead (host_bytes 1 proxy_message_meta) eu (es ++ (ei ++ ep)) r0 a0
          (omega (arith, total, length-host_bytes 1 proxy_message_meta)))

    a2 : IsAhead es (ei ++ ep) r2
    a2 = advance_pos-IsAhead eu es (ei ++ ep) r1 a1 (omega (arith, total))

    a3 : IsAhead ei ep r3
    a3 =
        advance_pos-IsAhead es ei ep r2 a2
          (omega (arith, total, length-wire network_byte_order 4 ip))

    a4 : IsAhead ep [] r4
    a4 = rw (length-wire network_byte_order 4 ip) at (
        advance_pos-IsAhead ei ep [] r3
          (subst (λ (l : List ℕ). IsAhead ei l r3) (sym (append-nil ep)) a3)
          (omega (
            arith,
            total,
            length-wire network_byte_order 4 ip,
            length-wire network_byte_order 2 port,
          )))
