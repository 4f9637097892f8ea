-- ===== src/Codec/Chain.antt =====
-- Chains of writes with `&&`, as what a chain that succeeds appends.
use dash_dim.Prelude.{
  ℕ, ◌+◌, ◌^◌, ◌≤◌, ◌<◌, ◌≡◌, ◌∙◌, true, List, ◌++◌, length, arith, replicate, refl, size_mod, ap,
  length-append,
}
use dash_dim.Codec.Endian.{Endianness, network_byte_order, host_bytes}
use dash_dim.Codec.Writer.{
  Writer, Write, writer, payload, ◌then_write◌, write_var_int62, write_bytes, write_uint8,
  write_uint16, write_uint32,
}
use dash_dim.Codec.Append.{
  IsValid, Appended, written, written-Appended, write_bytes-written, Appended-trans,
  then_write-true, writer-IsValid,
}
use dash_dim.Codec.Fixed.{wire, write_uint8-wire, write_uint16-wire, write_uint32-wire}
use dash_dim.Codec.VarInt62.{encoding62, write_var_int62-encoding62}

-- A run of writes: it succeeds, and leaves a writer with `bytes` appended.
abbrev pub Writes : Write → List ℕ → Writer → Type 0
Writes f bytes w = (w' : Writer) × (f w ≡ (w', true)) × Appended bytes w w'

pub write_bytes-Writes :
    (bytes : List ℕ) (w : Writer)
    → IsValid w
    → w.length + length bytes ≤ w.capacity
    → Writes (write_bytes bytes) bytes w
write_bytes-Writes bytes w v fits =
    (written bytes w, write_bytes-written w bytes fits, written-Appended w bytes v fits)

pub write_var_int62-Writes :
    (n : ℕ) (w : Writer)
    → n < 2 ^ 62
    → IsValid w
    → w.length + length (encoding62 n) ≤ w.capacity
    → Writes (write_var_int62 n) (encoding62 n) w
write_var_int62-Writes n w h v fits =
    let (w', e, a) = write_bytes-Writes (encoding62 n) w v fits in
    (w', write_var_int62-encoding62 n w h v ∙ e, a)

pub then_write-Writes :
    (f g : Write) (xs ys : List ℕ) (w : Writer)
    → Writes f xs w
    → ((w' : Writer) → Appended xs w w' → Writes g ys w')
    → Writes (f then_write g) (xs ++ ys) w
then_write-Writes f g xs ys w (w', e, a) more =
    let (w'', e', a') = more w' a in
    (w'', then_write-true f g w e ∙ e', Appended-trans xs ys w w' w'' a a')

-- A writer over a fresh buffer of `n` bytes.
unfoldable pub fresh : (n : ℕ) → Writer
unfolding writer
fresh n = writer (replicate n 0) n

-- A run of writes that succeeds on every valid writer in network order with room for `bytes`.
abbrev pub Appends : Write → List ℕ → Type 0
Appends f bytes =
    (w : Writer)
    → IsValid w
    → w.endianness ≡ network_byte_order
    → w.length + length bytes ≤ w.capacity
    → Writes f bytes w

pub then_write-Appends :
    (f g : Write) (xs ys : List ℕ)
    → Appends f xs
    → Appends g ys
    → Appends (f then_write g) (xs ++ ys)
then_write-Appends f g xs ys first second w v order room =
    then_write-Writes f g xs ys w (first w v order (omega (arith, length-append xs ys))) (λ w' a.
      second w' a.valid (a.endianness_eq ∙ order)
        (omega (arith, a.length_eq, a.capacity_eq, length-append xs ys)))

pub write_var_int62-Appends : (n : ℕ) → n < 2 ^ 62 → Appends (write_var_int62 n) (encoding62 n)
write_var_int62-Appends n h w v order room = write_var_int62-Writes n w h v room

-- An integer of fixed width, in network order.
same_write :
    (f : Write) (bytes : List ℕ) (w : Writer)
    → f w ≡ write_bytes bytes w
    → Writes (write_bytes bytes) bytes w
    → Writes f bytes w
same_write f bytes w same (w', e, a) = (w', same ∙ e, a)

pub write_uint8-Appends : (v : ℕ) → Appends (write_uint8 v) (host_bytes 1 v)
write_uint8-Appends v w valid order room =
    same_write (write_uint8 v) (host_bytes 1 v) w (write_uint8-wire v w)
      (write_bytes-Writes (host_bytes 1 v) w valid room)

wire_in_order :
    (n v : ℕ) (w : Writer)
    → w.endianness ≡ network_byte_order
    → write_bytes (wire w.endianness n v) w ≡ write_bytes (wire network_byte_order n v) w
wire_in_order n v w order = ap (λ (e : Endianness). write_bytes (wire e n v) w) order

pub write_uint16-Appends : (v : ℕ) → Appends (write_uint16 v) (wire network_byte_order 2 v)
write_uint16-Appends v w valid order room =
    same_write (write_uint16 v) (wire network_byte_order 2 v) w
      (write_uint16-wire v w ∙ wire_in_order 2 v w order)
      (write_bytes-Writes (wire network_byte_order 2 v) w valid room)

pub write_uint32-Appends : (v : ℕ) → Appends (write_uint32 v) (wire network_byte_order 4 v)
write_uint32-Appends v w valid order room =
    same_write (write_uint32 v) (wire network_byte_order 4 v) w
      (write_uint32-wire v w ∙ wire_in_order 4 v w order)
      (write_bytes-Writes (wire network_byte_order 4 v) w valid room)

-- On a fresh buffer the payload is the bytes.
pub fresh-Appends :
    (n : ℕ) (f : Write) (bytes : List ℕ)
    → n < size_mod
    → length bytes ≤ n
    → Appends f bytes
    → (w : Writer) × (f (fresh n) ≡ (w, true)) × (payload w ≡ bytes)
unfolding fresh writer
fresh-Appends n f bytes h room appends =
    let (w, e, a) = appends (fresh n) (writer-IsValid n h) refl (omega arith) in
    (w, e, a.payload_eq)
