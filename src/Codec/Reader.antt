-- ===== src/Codec/Reader.antt =====
-- DataReader of base/byte_codec.h and base/byte_codec.cc. A read returns `none` where the source
-- returns false, and the reader as it is left.
use dash_dim.Prelude.{
  ℕ, zero, suc, ◌+◌, ◌-◌, ◌*◌, ◌%◌, ◌^◌, Bool, true, false, ◌&&◌, Option, none, some, List, [], ◌∷◌,
  ◌++◌, bit_and, ltb, leb, ◌==◌, if◌then◌else◌, length, take, drop, get_or, replicate, size_mod,
  size_sub,
}
use dash_dim.Codec.Endian.{
  is_network_order, Endianness, network_byte_order, host_byte_order, from_host, byte_swap,
}

-- `data` is the memory from `data_` on, of which the first `len` bytes belong to the reader.
pub record Reader : Type 0 where
  pub memory : List ℕ
  pub len : ℕ
  pub pos : ℕ
  pub endianness : Endianness

-- The constructor with the default byte order.
unfoldable pub reader : List ℕ → ℕ → Reader
reader data_ len = record { memory = data_; len = len; pos = 0; endianness = network_byte_order }

-- A call on the reader; `>>=` goes on only after a read that succeeded, as `&&` does.
abbrev pub Read : Type 0 → Type 0
Read A = Reader → Option A × Reader

infixl 5 ◌>>=◌
abbrev pub ◌>>=◌ : {A B : Type 0} → Read A → (A → Read B) → Read B
◌>>=◌ m f r = let (a, r') = m r in elim a [ none ↦ (none, r') | some x ↦ f x r' ]

abbrev pub return : {A : Type 0} → A → Read A
return a r = (some a, r)

abbrev pub fail : {A : Type 0} → Read A
fail r = (none, r)

unfoldable pub bytes_remaining : Reader → ℕ
bytes_remaining r = size_sub r.len r.pos

unfoldable pub can_read : Reader → ℕ → Bool
can_read r bytes = leb bytes (size_sub r.len r.pos)

-- After a failure all further reads fail at once.
unfoldable pub on_failure : Reader → Reader
on_failure r = record r { pos = r.len }

unfoldable pub advance_pos : ℕ → Reader → Reader
advance_pos amount r = record r { pos = r.pos + amount }

unfoldable pub is_done_reading : Reader → Bool
is_done_reading r = r.len == r.pos

-- The memory at `data() + pos()`, and its byte `i`.
abbrev pub next : Reader → List ℕ
next r = drop r.pos r.memory

abbrev pub byte_at : Reader → ℕ → ℕ
byte_at r i = get_or (next r) i 0

unfoldable pub peek_byte : Reader → ℕ
peek_byte r = if leb r.len r.pos then 0 else byte_at r 0

unfoldable pub seek : ℕ → Reader → Bool × Reader
unfolding can_read on_failure advance_pos
seek size r = if can_read r size then (true, advance_pos size r) else (false, on_failure r)

unfoldable pub truncate_remaining : ℕ → Reader → Bool × Reader
unfolding bytes_remaining
truncate_remaining truncation_length r =
    if ltb (bytes_remaining r) truncation_length
    then (false, r)
    else (true, record r { len = r.pos + truncation_length })

-- The bytes that `memcpy` puts at the result.
unfoldable pub read_bytes : ℕ → Read (List ℕ)
unfolding can_read on_failure advance_pos
read_bytes size r =
    if can_read r size
    then (some (take size (next r)), advance_pos size r)
    else (none, on_failure r)

-- An integer whose bytes were copied from the wire.
abbrev pub to_host : Endianness → ℕ → ℕ → ℕ
to_host network_byte_order n v = byte_swap n v
to_host host_byte_order n v = v

unfoldable pub read_uint8 : Read ℕ
unfolding read_bytes
read_uint8 = do bs ← read_bytes 1; return (from_host bs)

unfoldable pub read_uint16 : Read ℕ
unfolding read_bytes
read_uint16 r = (do bs ← read_bytes 2; return (to_host r.endianness 2 (from_host bs))) r

unfoldable pub read_uint32 : Read ℕ
unfolding read_bytes
read_uint32 r = (do bs ← read_bytes 4; return (to_host r.endianness 4 (from_host bs))) r

unfoldable pub read_uint64 : Read ℕ
unfolding read_bytes
read_uint64 r = (do bs ← read_bytes 8; return (to_host r.endianness 8 (from_host bs))) r

-- In network order the bytes go to the end of the zeroed result, in host order to its start.
abbrev pub place : Endianness → ℕ → List ℕ → ℕ
place host_byte_order num_bytes bs = from_host bs
place network_byte_order num_bytes bs = byte_swap 8 (from_host (replicate (8 - num_bytes) 0 ++ bs))

unfoldable pub read_bytes_to_uint64 : ℕ → Read ℕ
unfolding read_bytes
read_bytes_to_uint64 num_bytes r =
    if ltb 8 num_bytes
    then (none, r)
    else (do bs ← read_bytes num_bytes; return (place r.endianness num_bytes bs)) r

-- Big-endian value of the bytes after `first`.
abbrev pub eight_bytes : Reader → ℕ
eight_bytes r =
    bit_and (byte_at r 0) 0x3f * 2 ^ 56
    + byte_at r 1 * 2 ^ 48
    + byte_at r 2 * 2 ^ 40
    + byte_at r 3 * 2 ^ 32
    + byte_at r 4 * 2 ^ 24
    + byte_at r 5 * 2 ^ 16
    + byte_at r 6 * 2 ^ 8
    + byte_at r 7

abbrev pub four_bytes : Reader → ℕ
four_bytes r =
    bit_and (byte_at r 0) 0x3f * 2 ^ 24 + byte_at r 1 * 2 ^ 16 + byte_at r 2 * 2 ^ 8 + byte_at r 3

-- One case of the switch: enough bytes are left, or the read fails and moves nothing.
abbrev pub take_case : ℕ → ℕ → Read ℕ
take_case width value r =
    if leb width (size_sub r.len r.pos)
    then (some value, record r { pos = r.pos + width })
    else (none, r)

-- After its DCHECK of the byte order.
unfoldable pub read_var_int62 : Read ℕ
unfolding bytes_remaining
read_var_int62 r =
    let prefix = bit_and (byte_at r 0) 0xc0 in
    if bytes_remaining r == 0
    then (none, r)
    else if prefix == 0xc0
    then take_case 8 (eight_bytes r) r
    else if prefix == 0x80
    then take_case 4 (four_bytes r) r
    else if prefix == 0x40
    then take_case 2 (bit_and (byte_at r 0) 0x3f * 2 ^ 8 + byte_at r 1) r
    else if prefix == 0x00
    then take_case 1 (bit_and (byte_at r 0) 0x3f) r
    else (none, r)

-- ReadVarInt62 of a debug build; `none` where the DCHECK aborts.
unfoldable pub debug_read_var_int62 : Reader → Option (Option ℕ × Reader)
debug_read_var_int62 r = if is_network_order r.endianness then some (read_var_int62 r) else none

-- The first loop of `ReadVarInt`, over the remaining bytes: the length so far, and whether a last
-- byte was met.
unfoldable pub scan : List ℕ → ℕ → ℕ × Bool
scan [] length = (length, false)
scan (b ∷ bs) length =
    let rest = scan bs (length + 1) in
    if bit_and b 128 == 0
    then (length + 1, true)
    else if ltb 8 (length + 1)
    then (length + 1, false)
    else rest

-- Its second loop, over the first `length` bytes.
unfoldable pub sum_groups : ℕ → List ℕ → ℕ → ℕ → ℕ
sum_groups zero bs remain remain_multi = remain
sum_groups (suc n) bs remain remain_multi =
    sum_groups n (drop 1 bs) ((remain + bit_and (get_or bs 0 0) 127 * remain_multi) % size_mod)
      (remain_multi * 128 % size_mod)

unfoldable pub read_var_int : Read ℕ
unfolding bytes_remaining scan sum_groups advance_pos
read_var_int r =
    let (length, decodable) = scan (take (bytes_remaining r) (next r)) 0 in
    if ltb 0 length && leb length 8 && decodable
    then (some (sum_groups length (next r) 0 1), advance_pos length r)
    else (none, r)
