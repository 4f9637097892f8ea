-- ===== src/Octopus/Relay/Meta.antt =====
-- OctopusHand::WriteMeta of octopus/octopus_base.cc, and what CalleeParseMeta of the other end makes
-- of its message.
use dash_dim.Prelude.{
  ℕ, ◌+◌, ◌^◌, ◌<◌, ◌≡◌, refl, ap, ◌∙◌, Bool, true, false, Option, none, some, List, [], ◌++◌,
  if◌then◌else◌, length, length-append, ltb, ◌==◌, arith, size_mod,
}
use dash_dim.Prelude.Int.{ℤ}
use dash_dim.Codec.Endian.{host_bytes, network_byte_order, length-host_bytes}
use dash_dim.Codec.Reader.{
  Reader, Read, ◌>>=◌, return, reader, read_uint8, read_uint16, read_uint32, bytes_remaining,
  advance_pos,
}
use dash_dim.Codec.Writer.{
  Writer, Write, ◌then_write◌, payload, write_uint8, write_uint16, write_uint32,
}
use dash_dim.Codec.Fixed.{wire, length-wire}
use dash_dim.Codec.Chain.{
  fresh, fresh-Appends, then_write-Appends, write_uint8-Appends, write_uint16-Appends,
  write_uint32-Appends,
}
use dash_dim.Codec.Consuming.{
  Consumes, last-Consumes, >>=-Consumes, read_uint8-Consumes, read_uint16-Consumes,
  read_uint32-Consumes,
}
use dash_dim.Octopus.Keys.{SessionKey, key}
use dash_dim.Octopus.Signals.{Hand, Link}
use dash_dim.Octopus.Relay.{dialing, new_dispatcher, parse_meta, callee_parse_meta, dial}

-- OCTOPUS_MSG_META, and `kBufferSize`.
abbrev msg_meta : ℕ
msg_meta = 1

abbrev buffer_size : ℕ
buffer_size = 1500

abbrev flag : Bool → ℕ
flag sp = if sp then 1 else 0

unfoldable pub meta_writer : SessionKey → Bool → Write
meta_writer uuid sp =
    write_uint8 msg_meta
    then_write (write_uint8 (flag sp)
        then_write (write_uint32 uuid.from
            then_write (write_uint32 uuid.to
                then_write (write_uint16 uuid.src_port then_write write_uint16 uuid.dst_port))))

-- WriteMeta, with the role of the hand; whether the writer succeeds is not looked at.
unfoldable pub write_meta : Bool → SessionKey → Bool → Hand → Hand
unfolding fresh
write_meta client uuid sp h =
    let (w, success) = meta_writer uuid sp (fresh buffer_size) in
    if client
    then (if h.meta then h else record h {
      sp_flag = sp;
      base = record (h.base) { wb = h.base.wb ++ payload w };
      meta = true;
    })
    else h

abbrev pub message : SessionKey → Bool → List ℕ
message uuid sp =
    host_bytes 1 msg_meta
    ++ (host_bytes 1 (flag sp)
        ++ (wire network_byte_order 4 uuid.from
            ++ (wire network_byte_order 4 uuid.to
                ++ (wire network_byte_order 2 uuid.src_port
                    ++ wire network_byte_order 2 uuid.dst_port))))

length-message : (uuid : SessionKey) (sp : Bool) → length (message uuid sp) ≡ 14
length-message uuid sp = omega (
  arith,
  length-append (host_bytes 1 msg_meta) (
      host_bytes 1 (flag sp)
      ++ (wire network_byte_order 4 uuid.from
          ++ (wire network_byte_order 4 uuid.to
              ++ (wire network_byte_order 2 uuid.src_port
                  ++ wire network_byte_order 2 uuid.dst_port)))),
  length-append (host_bytes 1 (flag sp)) (
      wire network_byte_order 4 uuid.from
      ++ (wire network_byte_order 4 uuid.to
          ++ (wire network_byte_order 2 uuid.src_port ++ wire network_byte_order 2 uuid.dst_port))),
  length-append (wire network_byte_order 4 uuid.from) (
      wire network_byte_order 4 uuid.to
      ++ (wire network_byte_order 2 uuid.src_port ++ wire network_byte_order 2 uuid.dst_port)),
  length-append (wire network_byte_order 4 uuid.to)
      (wire network_byte_order 2 uuid.src_port ++ wire network_byte_order 2 uuid.dst_port),
  length-append (wire network_byte_order 2 uuid.src_port) (wire network_byte_order 2 uuid.dst_port),
  length-host_bytes 1 msg_meta,
  length-host_bytes 1 (flag sp),
  length-wire network_byte_order 4 uuid.from,
  length-wire network_byte_order 4 uuid.to,
  length-wire network_byte_order 2 uuid.src_port,
  length-wire network_byte_order 2 uuid.dst_port,
)

meta_writer-message :
    (uuid : SessionKey) (sp : Bool)
    → (w : Writer) × (meta_writer uuid sp (fresh buffer_size) ≡ (w, true))
      × (payload w ≡ message uuid sp)
unfolding meta_writer
meta_writer-message uuid sp =
    fresh-Appends buffer_size (meta_writer uuid sp) (message uuid sp) (omega arith)
      (omega (arith, length-message uuid sp))
      (then_write-Appends (write_uint8 msg_meta) _ _ _ (write_uint8-Appends msg_meta) (
        then_write-Appends (write_uint8 (flag sp)) _ _ _ (write_uint8-Appends (flag sp)) (
          then_write-Appends (write_uint32 uuid.from) _ _ _ (write_uint32-Appends uuid.from) (
            then_write-Appends (write_uint32 uuid.to) _ _ _ (write_uint32-Appends uuid.to) (
              then_write-Appends (write_uint16 uuid.src_port) (write_uint16 uuid.dst_port) _ _
                (write_uint16-Appends uuid.src_port) (write_uint16-Appends uuid.dst_port))))))

-- The fields are of their widths.
abbrev pub Fits : SessionKey → Type 0
Fits uuid =
    (uuid.from < 2 ^ 32) × (uuid.to < 2 ^ 32) × (uuid.src_port < 2 ^ 16) × (uuid.dst_port < 2 ^ 16)

flag-small : (sp : Bool) → flag sp < 2 ^ 8
flag-small sp = ground arith

ltb-flag : (sp : Bool) → ltb 0 (flag sp) ≡ sp
ltb-flag false = refl
ltb-flag true = refl

-- The chain of CalleeParseMeta from each read on.
abbrev from_dst_port : Bool → ℕ → ℕ → ℕ → Read (Bool × SessionKey)
from_dst_port sp from to src_port =
    read_uint16 >>= (λ dst_port. return (sp, key from to src_port dst_port))

abbrev from_src_port : Bool → ℕ → ℕ → Read (Bool × SessionKey)
from_src_port sp from to = read_uint16 >>= from_dst_port sp from to

abbrev from_to : Bool → ℕ → Read (Bool × SessionKey)
from_to sp from = read_uint32 >>= from_src_port sp from

abbrev from_from : ℕ → Read (Bool × SessionKey)
from_from sp = read_uint32 >>= from_to (ltb 0 sp)

abbrev reading : Read (Bool × SessionKey)
reading = read_uint8 >>= (λ type. read_uint8 >>= from_from)

reading-Consumes :
    (uuid : SessionKey) (sp : Bool)
    → Fits uuid
    → Consumes reading (ltb 0 (flag sp), uuid) (message uuid sp)
reading-Consumes uuid sp (hf, ht, hs, hd) =
    let f : Bool = ltb 0 (flag sp) in
    >>=-Consumes read_uint8 (λ type. read_uint8 >>= from_from) msg_meta _ _ _
      (read_uint8-Consumes msg_meta (omega arith))
      (>>=-Consumes read_uint8 from_from (flag sp) _ _ _
        (read_uint8-Consumes (flag sp) (flag-small sp))
        (>>=-Consumes read_uint32 (from_to f) uuid.from _ _ _ (read_uint32-Consumes uuid.from hf) (
          >>=-Consumes read_uint32 (from_src_port f uuid.from) uuid.to _ _ _
            (read_uint32-Consumes uuid.to ht)
            (>>=-Consumes read_uint16 (from_dst_port f uuid.from uuid.to) uuid.src_port _ _ _
              (read_uint16-Consumes uuid.src_port hs)
              (last-Consumes read_uint16 (λ d. (f, key uuid.from uuid.to uuid.src_port d))
                uuid.dst_port _ (read_uint16-Consumes uuid.dst_port hd))))))

-- What is left of the bytes after the message.
left_over :
    (uuid : SessionKey) (sp : Bool) (tail : List ℕ)
    → 14 + length tail < size_mod
    → (let all = message uuid sp ++ tail in
        bytes_remaining (advance_pos (length (message uuid sp)) (reader all (length all)))
        ≡ length tail)
unfolding bytes_remaining advance_pos reader
left_over uuid sp tail short =
    ground (arith, short, length-append (message uuid sp) tail, length-message uuid sp)

parse_meta-message :
    (uuid : SessionKey) (sp : Bool) (tail : List ℕ)
    → Fits uuid
    → 14 + length tail < size_mod
    → parse_meta (message uuid sp ++ tail) ≡ some ((sp, uuid), length tail)
unfolding parse_meta reader
parse_meta-message uuid sp tail fits short =
    ap
      (λ (p : Option (Bool × SessionKey) × Reader). elim p.0 [
        | none ↦ none
        | some a ↦ some (a, bytes_remaining p.1)
      ])
      read
    ∙ ap
        (λ f. some (
          (f, uuid),
          bytes_remaining (advance_pos (length (message uuid sp)) (reader all (length all))),
        ))
        (ltb-flag sp)
    ∙ ap (λ n. some ((sp, uuid), n)) (left_over uuid sp tail short)
  where
    all : List ℕ
    all = message uuid sp ++ tail

    read : reading (reader all (length all)) ≡ (
      some (ltb 0 (flag sp), uuid),
      advance_pos (length (message uuid sp)) (reader all (length all)),
    )
    read = reading-Consumes uuid sp fits tail (reader all (length all)) refl (record {
      ahead = refl;
      owned = omega (arith, length-append (message uuid sp) tail);
      addressable =
          omega (arith, short, length-append (message uuid sp) tail, length-message uuid sp);
    })

write_meta-message :
    (uuid : SessionKey) (sp : Bool) (h : Hand)
    → h.meta ≡ false
    → (write_meta true uuid sp h).base.wb ≡ h.base.wb ++ message uuid sp
unfolding write_meta
write_meta-message uuid sp h first =
    let (w, e, p) = meta_writer-message uuid sp in simp (first, e, p)

-- WriteMeta of a caller's hand with an empty write buffer that sent no such message yet, for a
-- key whose fields fit their widths, and CalleeParseMeta of the other end once those bytes and
-- a tail have arrived: the same key and sp flag are read and the tail is left; where connect()
-- to the destination is under way, the hand has that dispatcher, which waits with it, and an
-- empty read buffer, unless the tail is not empty, where a CHECK aborts.
pub callee_parse_meta-write_meta :
    (uuid : SessionKey) (sp : Bool) (h : Hand) (l : Link) (fd : ℤ) (tail : List ℕ)
    → Fits uuid
    → 14 + length tail < size_mod
    → h.meta ≡ false
    → h.base.wb ≡ []
    → l.hand.meta ≡ false
    → l.hand.rb ≡ (write_meta true uuid sp h).base.wb ++ tail
    → (parse_meta l.hand.rb ≡ some ((sp, uuid), length tail))
      × (callee_parse_meta (dialing fd) l ≡ (
          if length tail == 0
          then some (record l {
            hand = record (l.hand) { meta = true; sp_flag = sp; dispatcher = true; rb = [] };
            dispatcher = record (new_dispatcher fd) { wait = true };
          })
          else none))
unfolding callee_parse_meta dial
callee_parse_meta-write_meta uuid sp h l fd tail fits short first empty unread bytes =
    (parsed, simp (unread, parsed, callee_parse_meta))
  where
    parsed : parse_meta l.hand.rb ≡ some ((sp, uuid), length tail)
    parsed =
        ap parse_meta (
          bytes
          ∙ ap (λ (bs : List ℕ). bs ++ tail)
              (write_meta-message uuid sp h first
                ∙ ap (λ (bs : List ℕ). bs ++ message uuid sp) empty))
        ∙ parse_meta-message uuid sp tail fits short
