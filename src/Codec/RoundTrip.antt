-- ===== src/Codec/RoundTrip.antt =====
-- DataWriter and DataReader together: writes, and reads of what was written.
use dash_dim.Prelude.{
  none, if◌then◌else◌, ℕ, ◌+◌, ◌^◌, ◌≤◌, ◌<◌, ◌≡◌, refl, sym, ap, ◌∙◌, Bool, true, Option, some,
  List, ◌++◌, length, arith, drop, size_mod, append_assoc, drop-append, length-append,
}
use dash_dim.Codec.Endian.{
  Endianness, network_byte_order, is_network_order, host_bytes, length-host_bytes,
}
use dash_dim.Codec.Reader.{
  Reader, read_uint8, read_uint16, read_uint32, read_uint64, read_var_int62, read_var_int,
  read_bytes_to_uint64, advance_pos, debug_read_var_int62,
}
use dash_dim.Codec.Writer.{
  Writer, payload, write_bytes, write_uint8, write_uint16, write_uint32, write_uint64,
  write_var_int62, write_var_int, get_var_int62_len, get_var_int_len, write_bytes_to_uint64,
  debug_write_var_int62,
}
use dash_dim.Codec.Append.{IsValid, Appended, written-Appended, write_bytes-written, length-payload}
use dash_dim.Codec.Advance.{IsAhead}
use dash_dim.Codec.VarInt62.{
  encoding62, write_var_int62-encoding62, read_var_int62-encoding62, get_var_int62_len-encoding62,
}
use dash_dim.Codec.Groups.{groups, write_var_int-Appended, get_var_int_len-groups}
use dash_dim.Codec.VarInt.{read_var_int-groups}
use dash_dim.Codec.Fixed.{
  wire, length-wire, read_uint8-wire, read_uint16-wire, read_uint32-wire, read_uint64-wire,
  write_uint8-wire, write_uint16-wire, write_uint32-wire, write_uint64-wire,
}
use dash_dim.Codec.Partial.{
  partial_wire, length-partial_wire, write_bytes_to_uint64-partial_wire,
  read_bytes_to_uint64-partial_wire,
}

-- A reader over the payload of `w'` and `tail`, placed where the payload of `w` ends.
abbrev pub reader_at : Writer → Writer → List ℕ → Reader
reader_at w w' tail = record {
  memory = payload w' ++ tail;
  len = length (payload w' ++ tail);
  pos = w.length;
  endianness = w.endianness;
}

-- A read of such a reader returns `v` and stops where the payload of `w'` ends.
abbrev pub ReadsBack : (Reader → Option ℕ × Reader) → ℕ → Writer → Writer → List ℕ → Type 0
ReadsBack read v w w' tail =
    read (reader_at w w' tail) ≡ (some v, record (reader_at w w' tail) { pos = w'.length })

IsAhead-of_written :
    (bytes tail : List ℕ) (w w' : Writer)
    → IsValid w
    → Appended bytes w w'
    → length (payload w' ++ tail) < size_mod
    → IsAhead bytes tail (reader_at w w' tail)
IsAhead-of_written bytes tail w w' v a small =
    let split : payload w' ++ tail ≡ payload w ++ (bytes ++ tail) =
      ap (λ (l : List ℕ). l ++ tail) a.payload_eq ∙ append_assoc (payload w) bytes tail in
    record {
      ahead =
          ap (drop w.length) split
          ∙ ap (λ (n : ℕ). drop n (payload w ++ (bytes ++ tail))) (sym (length-payload w v))
          ∙ drop-append (payload w) (bytes ++ tail);
      owned = omega (
        arith,
        ap length split,
        length-append (payload w) (bytes ++ tail),
        length-append bytes tail,
        length-payload w v,
      );
      addressable = small;
    }

-- A read that takes the bytes ahead reads back what was appended.
reads_back :
    (read : Reader → Option ℕ × Reader) (v n : ℕ) (bytes tail : List ℕ) (w w' : Writer)
    → length bytes ≡ n
    → IsValid w
    → Appended bytes w w'
    → length (payload w' ++ tail) < size_mod
    → ((r : Reader)
        → r.endianness ≡ w.endianness
        → IsAhead bytes tail r
        → read r ≡ (some v, advance_pos n r))
    → ReadsBack read v w w' tail
unfolding advance_pos
reads_back read v n bytes tail w w' size valid a small reads =
    reads (reader_at w w' tail) refl (IsAhead-of_written bytes tail w w' valid a small)
    ∙ ap (λ (p : ℕ). (some v, record (reader_at w w' tail) { pos = p }))
        (omega (arith, a.length_eq, size))

-- Of a write that appends known bytes: it succeeds, and the read gives the number back.
module _ (w : Writer) (valid : IsValid w) (tail : List ℕ) where
  abbrev pub RoundTrips : (Writer → Writer × Bool) → (Reader → Option ℕ × Reader) → ℕ → Type 0
  RoundTrips write read v =
      ((write w).1 ≡ true) × IsValid (write w).0 × ReadsBack read v w (write w).0 tail

  small_enough :
      {bytes : List ℕ} {w' : Writer}
      → Appended bytes w w'
      → w.length + length bytes ≤ w.capacity
      → w.capacity + length tail < size_mod
      → length (payload w' ++ tail) < size_mod
  small_enough {w' = w'} a room small =
      omega (arith, length-append (payload w') tail, length-payload w' a.valid, a.length_eq)

  round_trips :
      (write : Writer → Writer × Bool) (read : Reader → Option ℕ × Reader) (v n : ℕ)
      (bytes : List ℕ) (w' : Writer)
      → length bytes ≡ n
      → write w ≡ (w', true)
      → Appended bytes w w'
      → length (payload (write w).0 ++ tail) < size_mod
      → ((r : Reader)
          → r.endianness ≡ w.endianness
          → IsAhead bytes tail r
          → read r ≡ (some v, advance_pos n r))
      → RoundTrips write read v
  round_trips write read v n bytes w' size e a small reads = rw e (
    refl,
    a.valid,
    reads_back read v n bytes tail w w' size valid a
        (let fits : length (payload (write w).0 ++ tail) < size_mod = small in rw e at fits) reads,
  )

  -- A write of known bytes by `write_bytes`.
  RoundTrips-bytes :
      (write : Writer → Writer × Bool) (read : Reader → Option ℕ × Reader) (v n : ℕ)
      (bytes : List ℕ)
      → length bytes ≡ n
      → write w ≡ write_bytes bytes w
      → w.length + n ≤ w.capacity
      → w.capacity + length tail < size_mod
      → ((r : Reader)
          → r.endianness ≡ w.endianness
          → IsAhead bytes tail r
          → read r ≡ (some v, advance_pos n r))
      → RoundTrips write read v
  RoundTrips-bytes write read v n bytes size e fits small reads =
      let room : w.length + length bytes ≤ w.capacity = omega arith in
      let whole = e ∙ write_bytes-written w bytes room in
      let a = written-Appended w bytes valid room in
      round_trips write read v n bytes _ size whole a (rw whole (small_enough a room small)) reads

  -- WriteVarInt62 then ReadVarInt62: into a valid writer in network order with room for the
  -- length that GetVarInt62Len announces, a number below 2^62 is written and the writer stays
  -- valid, and a reader at its place, with anything behind it in less than 2^64 bytes
  -- together, reads the number and stops where the writer stopped, and the DCHECKs of a debug
  -- build do not abort.
  pub read_var_int62-write_var_int62 :
      (v : ℕ)
      → w.endianness ≡ network_byte_order
      → v < 2 ^ 62
      → w.length + get_var_int62_len v ≤ w.capacity
      → w.capacity + length tail < size_mod
      → RoundTrips (write_var_int62 v) read_var_int62 v
        × (debug_write_var_int62 v w ≡ some (write_var_int62 v w))
        × (debug_read_var_int62 (reader_at w (write_var_int62 v w).0 tail)
            ≡ some (read_var_int62 (reader_at w (write_var_int62 v w).0 tail)))
  unfolding debug_write_var_int62 debug_read_var_int62
  read_var_int62-write_var_int62 v order h fits small =
      let room : w.length + length (encoding62 v) ≤ w.capacity =
        omega (arith, get_var_int62_len-encoding62 v h) in
      (
        RoundTrips-bytes (write_var_int62 v) read_var_int62 v (length (encoding62 v)) (encoding62 v)
            refl (write_var_int62-encoding62 v w h valid) room small
            (λ r _ a. read_var_int62-encoding62 v tail r h a),
        ap (λ (e : Endianness). if is_network_order e then some (write_var_int62 v w) else none)
            order,
        ap
            (λ (e : Endianness).
              if is_network_order e
              then some (read_var_int62 (reader_at w (write_var_int62 v w).0 tail))
              else none)
            order,
      )

  -- WriteVarInt then ReadVarInt: into a valid writer with room for the length that
  -- GetVarIntLen announces, a number below 2^56 is written and the writer stays valid, and a
  -- reader at its place, with anything behind it in less than 2^64 bytes together, reads the
  -- number and stops where the writer stopped.
  pub read_var_int-write_var_int :
      (v : ℕ)
      → v < 2 ^ 56
      → w.length + get_var_int_len v ≤ w.capacity
      → w.capacity + length tail < size_mod
      → RoundTrips (write_var_int v) read_var_int v
  read_var_int-write_var_int v h fits small =
      let room : w.length + length (groups 7 v) ≤ w.capacity =
        omega (arith, get_var_int_len-groups v h) in
      let (e, a) = write_var_int-Appended v w h valid room in
      round_trips (write_var_int v) read_var_int v _ (groups 7 v) _ refl e a
        (rw e (small_enough a room small)) (λ r _ b. read_var_int-groups v tail r h b)

  -- WriteUInt8 to WriteUInt64 then the matching read, in either byte order: into a valid
  -- writer with eight bytes of room, each number of that width is written and the writer stays
  -- valid, and a reader at its place, with anything behind it in less than 2^64 bytes
  -- together, reads the number and stops where the writer stopped.
  pub read_uint-write_uint :
      (v8 v16 v32 v64 : ℕ)
      → v8 < 2 ^ 8
      → v16 < 2 ^ 16
      → v32 < 2 ^ 32
      → v64 < 2 ^ 64
      → w.length + 8 ≤ w.capacity
      → w.capacity + length tail < size_mod
      → RoundTrips (write_uint8 v8) read_uint8 v8
        × RoundTrips (write_uint16 v16) read_uint16 v16
        × RoundTrips (write_uint32 v32) read_uint32 v32
        × RoundTrips (write_uint64 v64) read_uint64 v64
  read_uint-write_uint v8 v16 v32 v64 h8 h16 h32 h64 fits small = (
    RoundTrips-bytes (write_uint8 v8) read_uint8 v8 1 (host_bytes 1 v8) (length-host_bytes 1 v8)
        (write_uint8-wire v8 w) (omega arith) small (λ r e a. read_uint8-wire v8 tail r h8 a),
    RoundTrips-bytes (write_uint16 v16) read_uint16 v16 2 (wire w.endianness 2 v16)
        (length-wire w.endianness 2 v16) (write_uint16-wire v16 w) (omega arith) small
        (λ r e a. read_uint16-wire v16 tail r h16 (rw (← e) at a)),
    RoundTrips-bytes (write_uint32 v32) read_uint32 v32 4 (wire w.endianness 4 v32)
        (length-wire w.endianness 4 v32) (write_uint32-wire v32 w) (omega arith) small
        (λ r e a. read_uint32-wire v32 tail r h32 (rw (← e) at a)),
    RoundTrips-bytes (write_uint64 v64) read_uint64 v64 8 (wire w.endianness 8 v64)
        (length-wire w.endianness 8 v64) (write_uint64-wire v64 w) (omega arith) small
        (λ r e a. read_uint64-wire v64 tail r h64 (rw (← e) at a)),
  )

  -- WriteBytesToUInt64 then ReadBytesToUInt64 of up to eight bytes, in either byte order: into
  -- a valid writer with room, a number of that many bytes (v < 256^n) is written and the
  -- writer stays valid, and a reader at its place, with anything behind it in less than 2^64
  -- bytes together, reads the number and stops where the writer stopped.
  pub read_bytes_to_uint64-write_bytes_to_uint64 :
      (n v : ℕ)
      → n ≤ 8
      → v < 256 ^ n
      → w.length + n ≤ w.capacity
      → w.capacity + length tail < size_mod
      → RoundTrips (write_bytes_to_uint64 n v) (read_bytes_to_uint64 n) v
  read_bytes_to_uint64-write_bytes_to_uint64 n v h fit fits small =
      RoundTrips-bytes (write_bytes_to_uint64 n v) (read_bytes_to_uint64 n) v n
        (partial_wire w.endianness n v) (length-partial_wire w.endianness n v)
        (write_bytes_to_uint64-partial_wire n v w h fit) fits small
        (λ r e a. read_bytes_to_uint64-partial_wire n v tail r h fit (rw (← e) at a))
