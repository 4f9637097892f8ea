-- ===== src/Codec/Writer.antt =====
-- DataWriter of base/byte_codec.h and base/byte_codec.cc. A write returns the writer as it is left
-- and the source's Boolean.
use dash_dim.Prelude.{
  Option, none, some, ℕ, zero, suc, ◌+◌, ◌-◌, ◌*◌, ◌/◌, ◌%◌, ◌^◌, Bool, true, false, not, ◌&&◌,
  ◌||◌, List, [], ◌∷◌, ◌++◌, bit_and, bit_or, ltb, leb, ◌==◌, if◌then◌else◌, take, drop, size_sub,
}
use dash_dim.Prelude
use dash_dim.Codec.Endian.{
  is_network_order, Endianness, network_byte_order, host_byte_order, host_bytes, byte_swap,
}

-- `buffer` is the memory at `buffer_`; the first `length` bytes are the payload.
pub record Writer : Type 0 where
  pub buffer : List ℕ
  pub capacity : ℕ
  pub length : ℕ
  pub endianness : Endianness

unfoldable pub writer : List ℕ → ℕ → Writer
writer buffer size = record {
  buffer = buffer;
  capacity = size;
  length = 0;
  endianness = network_byte_order;
}

abbrev pub Write : Type 0
Write = Writer → Writer × Bool

-- `a && b`: the second write is made only if the first succeeded.
infixr 4 ◌then_write◌
abbrev pub ◌then_write◌ : Write → Write → Write
(f then_write g) w = let (w', success) = f w in if success then g w' else (w', false)

-- The payload, `data()` up to `length()`.
abbrev pub payload : Writer → List ℕ
payload w = take w.length w.buffer

unfoldable pub remaining : Writer → ℕ
remaining w = size_sub w.capacity w.length

abbrev pub var_int62_error_mask : ℕ
var_int62_error_mask = 0xc000_0000_0000_0000

abbrev pub var_int62_mask8_bytes : ℕ
var_int62_mask8_bytes = 0x3fff_ffff_c000_0000

abbrev pub var_int62_mask4_bytes : ℕ
var_int62_mask4_bytes = 0x3fff_c000

abbrev pub var_int62_mask2_bytes : ℕ
var_int62_mask2_bytes = 0x3fc0

abbrev pub masked : ℕ → ℕ → Bool
masked value mask = not (bit_and value mask == 0)

unfoldable pub get_var_int62_len : ℕ → ℕ
get_var_int62_len value =
    if masked value var_int62_error_mask
    then 0
    else if masked value var_int62_mask8_bytes
    then 8
    else if masked value var_int62_mask4_bytes
    then 4
    else if masked value var_int62_mask2_bytes
    then 2
    else 1

unfoldable pub get_var_int_len : ℕ → ℕ
get_var_int_len number =
    if leb number 0x7f
    then 1
    else if leb number 0x3fff
    then 2
    else if leb number 0x1f_ffff
    then 3
    else if leb number 0xfff_ffff
    then 4
    else if leb number 0x7_ffff_ffff
    then 5
    else if leb number 0x3ff_ffff_ffff
    then 6
    else if leb number 0x1_ffff_ffff_ffff
    then 7
    else if leb number 0xff_ffff_ffff_ffff
    then 8
    else 0

-- Whether `BeginWrite` returns a pointer: the room left is enough.
unfoldable pub begin_write : Writer → ℕ → Bool
begin_write w length =
    if ltb w.capacity w.length
    then false
    else if ltb (w.capacity - w.length) length
    then false
    else true

unfoldable pub increase_length : ℕ → Writer → Writer
increase_length delta w = record w { length = w.length + delta }

-- Stores into the memory at `buffer() + length()`.
abbrev pub store : List ℕ → Writer → Writer
store bytes w = record w {
  buffer = take w.length w.buffer ++ (bytes ++ drop (w.length + Prelude.length bytes) w.buffer);
}

unfoldable pub write_bytes : List ℕ → Write
unfolding begin_write increase_length
write_bytes bytes w =
    if begin_write w (Prelude.length bytes)
    then (increase_length (Prelude.length bytes) (store bytes w), true)
    else (w, false)

unfoldable pub seek : ℕ → Write
unfolding begin_write increase_length
seek length w = if begin_write w length then (increase_length length w, true) else (w, false)

-- An integer in the byte order of the wire.
abbrev pub to_net : Endianness → ℕ → ℕ → ℕ
to_net network_byte_order n v = byte_swap n v
to_net host_byte_order n v = v

unfoldable pub write_uint8 : ℕ → Write
unfolding write_bytes
write_uint8 value w = write_bytes (host_bytes 1 value) w

unfoldable pub write_uint16 : ℕ → Write
unfolding write_bytes
write_uint16 value w = write_bytes (host_bytes 2 (to_net w.endianness 2 value)) w

unfoldable pub write_uint32 : ℕ → Write
unfolding write_bytes
write_uint32 value w = write_bytes (host_bytes 4 (to_net w.endianness 4 value)) w

unfoldable pub write_uint64 : ℕ → Write
unfolding write_bytes
write_uint64 value w = write_bytes (host_bytes 8 (to_net w.endianness 8 value)) w

-- The `num_bytes` bytes of the value that are copied: its start in host order, the end of the
-- swapped value in network order.
abbrev pub cut : Endianness → ℕ → ℕ → List ℕ
cut host_byte_order num_bytes value = take num_bytes (host_bytes 8 value)
cut network_byte_order num_bytes value = drop (8 - num_bytes) (host_bytes 8 (byte_swap 8 value))

unfoldable pub write_bytes_to_uint64 : ℕ → ℕ → Write
unfolding write_bytes
write_bytes_to_uint64 num_bytes value w =
    if ltb 8 num_bytes then (w, false) else write_bytes (cut w.endianness num_bytes value) w

-- One case of `WriteVarInt62`: the stores are made if enough bytes remain.
unfoldable pub put_case : List ℕ → Write
unfolding remaining increase_length
put_case bytes w =
    if leb (Prelude.length bytes) (remaining w)
    then (increase_length (Prelude.length bytes) (store bytes w), true)
    else (w, false)

abbrev pub eight_bytes : ℕ → List ℕ
eight_bytes value =
    (bit_and (value / 2 ^ 56) 0x3f + 0xc0)
    ∷ bit_and (value / 2 ^ 48) 0xff
    ∷ bit_and (value / 2 ^ 40) 0xff
    ∷ bit_and (value / 2 ^ 32) 0xff
    ∷ bit_and (value / 2 ^ 24) 0xff
    ∷ bit_and (value / 2 ^ 16) 0xff
    ∷ bit_and (value / 2 ^ 8) 0xff
    ∷ bit_and value 0xff
    ∷ []

abbrev pub four_bytes : ℕ → List ℕ
four_bytes value =
    (bit_and (value / 2 ^ 24) 0x3f + 0x80)
    ∷ bit_and (value / 2 ^ 16) 0xff
    ∷ bit_and (value / 2 ^ 8) 0xff
    ∷ bit_and value 0xff
    ∷ []

abbrev pub two_bytes : ℕ → List ℕ
two_bytes value = (bit_and (value / 2 ^ 8) 0x3f + 0x40) ∷ bit_and value 0xff ∷ []

-- After its DCHECK of the byte order.
unfoldable pub write_var_int62 : ℕ → Write
write_var_int62 value w =
    if masked value var_int62_error_mask
    then (w, false)
    else if masked value var_int62_mask8_bytes
    then put_case (eight_bytes value) w
    else if masked value var_int62_mask4_bytes
    then put_case (four_bytes value) w
    else if masked value var_int62_mask2_bytes
    then put_case (two_bytes value) w
    else put_case (bit_and value 0x3f ∷ []) w

-- WriteVarInt62 of a debug build; `none` where the DCHECK aborts.
unfoldable pub debug_write_var_int62 : ℕ → Writer → Option (Writer × Bool)
debug_write_var_int62 value w =
    if is_network_order w.endianness then some (write_var_int62 value w) else none

-- The do-while loop of `WriteVarInt`. A number of 64 bits has at most ten groups of seven bits.
unfoldable pub write_groups : ℕ → ℕ → Writer → Writer
unfolding write_uint8
write_groups zero next w = w
write_groups (suc fuel) next w =
    let first = next % 128 in
    let byte = if ltb 0 (next / 128) then bit_or first 128 else first in
    let rest = write_groups fuel (next / 128) (write_uint8 byte w).0 in
    if ltb 0 (next / 128) then rest else (write_uint8 byte w).0

unfoldable pub write_var_int : ℕ → Write
unfolding remaining get_var_int_len write_groups
write_var_int value w =
    let need = get_var_int_len value in
    if (need == 0) || ltb (remaining w) need then (w, false) else (write_groups 10 value w, true)
