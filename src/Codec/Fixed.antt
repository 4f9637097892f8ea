-- ===== src/Codec/Fixed.antt =====
-- Integers of fixed width: WriteUInt8 to WriteUInt64 and ReadUInt8 to ReadUInt64, in both byte
-- orders, and the reads and writes of up to eight bytes.
use dash_dim.Prelude.{ℕ, ◌^◌, ◌<◌, ◌≡◌, refl, ap, ◌∙◌, some, List, length, All}
use dash_dim.Codec.Endian.{
  Endianness, network_byte_order, host_byte_order, IsByte, host_bytes, from_host, byte_swap,
  length-host_bytes, host_bytes-IsByte, from_host-host_bytes, byte_swap_twice, byte_swap-lt,
}
use dash_dim.Codec.Reader.{
  Reader, ◌>>=◌, return, to_host, read_bytes, read_uint8, read_uint16, read_uint32, read_uint64,
  advance_pos,
}
use dash_dim.Codec.Writer.{
  Writer, to_net, write_bytes, write_uint8, write_uint16, write_uint32, write_uint64,
}
use dash_dim.Codec.Advance.{IsAhead, read_bytes-ahead, >>=-some}

-- The bytes of an `n`-byte integer on the wire.
unfoldable pub wire : Endianness → ℕ → ℕ → List ℕ
wire e n v = host_bytes n (to_net e n v)

pub length-wire : (e : Endianness) (n v : ℕ) → length (wire e n v) ≡ n
unfolding wire
length-wire e n v = length-host_bytes n (to_net e n v)

pub wire-IsByte : (e : Endianness) (n v : ℕ) → All IsByte (wire e n v)
unfolding wire
wire-IsByte e n v = host_bytes-IsByte n (to_net e n v)

to_host-to_net : (e : Endianness) (n v : ℕ) → v < 256 ^ n → to_host e n (from_host (wire e n v)) ≡ v
unfolding wire
to_host-to_net network_byte_order n v h =
    ap (byte_swap n) (from_host-host_bytes n (byte_swap n v) (byte_swap-lt n v))
    ∙ byte_swap_twice n v h
to_host-to_net host_byte_order n v h = from_host-host_bytes n v h

-- A reader of any width: the four reads are instances.
read_wire :
    (n v : ℕ) (tail : List ℕ) (r : Reader)
    → v < 256 ^ n
    → IsAhead (wire r.endianness n v) tail r
    → (read_bytes n >>= λ bs. return (to_host r.endianness n (from_host bs))) r
      ≡ (some v, advance_pos n r)
read_wire n v tail r h a =
    let bs : List ℕ = wire r.endianness n v in
    let e : read_bytes n r ≡ (some bs, advance_pos n r) =
      rw (length-wire r.endianness n v) at (read_bytes-ahead bs tail r a) in
    >>=-some (read_bytes n) (λ bs. return (to_host r.endianness n (from_host bs))) r e
    ∙ ap (λ (k : ℕ). (some k, advance_pos n r)) (to_host-to_net r.endianness n v h)

pub read_uint8-wire :
    (v : ℕ) (tail : List ℕ) (r : Reader)
    → v < 2 ^ 8
    → IsAhead (host_bytes 1 v) tail r
    → read_uint8 r ≡ (some v, advance_pos 1 r)
unfolding read_uint8
read_uint8-wire v tail r h a =
    let e : read_bytes 1 r ≡ (some (host_bytes 1 v), advance_pos 1 r) =
      rw (length-host_bytes 1 v) at (read_bytes-ahead (host_bytes 1 v) tail r a) in
    >>=-some (read_bytes 1) (λ bs. return (from_host bs)) r e
    ∙ ap (λ (k : ℕ). (some k, advance_pos 1 r)) (from_host-host_bytes 1 v h)

pub read_uint16-wire :
    (v : ℕ) (tail : List ℕ) (r : Reader)
    → v < 2 ^ 16
    → IsAhead (wire r.endianness 2 v) tail r
    → read_uint16 r ≡ (some v, advance_pos 2 r)
unfolding read_uint16
read_uint16-wire v tail r h a = read_wire 2 v tail r h a

pub read_uint32-wire :
    (v : ℕ) (tail : List ℕ) (r : Reader)
    → v < 2 ^ 32
    → IsAhead (wire r.endianness 4 v) tail r
    → read_uint32 r ≡ (some v, advance_pos 4 r)
unfolding read_uint32
read_uint32-wire v tail r h a = read_wire 4 v tail r h a

pub read_uint64-wire :
    (v : ℕ) (tail : List ℕ) (r : Reader)
    → v < 2 ^ 64
    → IsAhead (wire r.endianness 8 v) tail r
    → read_uint64 r ≡ (some v, advance_pos 8 r)
unfolding read_uint64
read_uint64-wire v tail r h a = read_wire 8 v tail r h a

pub write_uint8-wire : (v : ℕ) (w : Writer) → write_uint8 v w ≡ write_bytes (host_bytes 1 v) w
unfolding write_uint8
write_uint8-wire v w = refl

pub write_uint16-wire :
    (v : ℕ) (w : Writer) → write_uint16 v w ≡ write_bytes (wire w.endianness 2 v) w
unfolding write_uint16 wire
write_uint16-wire v w = refl

pub write_uint32-wire :
    (v : ℕ) (w : Writer) → write_uint32 v w ≡ write_bytes (wire w.endianness 4 v) w
unfolding write_uint32 wire
write_uint32-wire v w = refl

pub write_uint64-wire :
    (v : ℕ) (w : Writer) → write_uint64 v w ≡ write_bytes (wire w.endianness 8 v) w
unfolding write_uint64 wire
write_uint64-wire v w = refl
