-- ===== src/Codec/Partial.antt =====
-- WriteBytesToUInt64 and ReadBytesToUInt64: integers of up to eight bytes.
use mathlib.Core.List.{reverse, reverse-cons, reverse-reverse, reverse-append}
use native.Mathlib.Nat.{suc-add, zero-add}
use dash_dim.Prelude.{
  All-append, ℕ, zero, suc, ◌+◌, ◌-◌, ◌*◌, ◌/◌, ◌%◌, ◌^◌, ◌≤◌, ◌<◌, ◌≡◌, refl, sym, ap, ◌∙◌, some,
  List, [], ◌∷◌, ◌++◌, length, All, arith, take, drop, replicate, length-replicate, length-append,
  drop-append, take-append,
}
use dash_dim.Codec.Endian.{
  Endianness, network_byte_order, host_byte_order, IsByte, host_bytes, from_host, byte_swap,
  length-host_bytes, host_bytes-IsByte, from_host-host_bytes, host_bytes-byte_swap,
  host_bytes-from_host, length-reverse, All-reverse,
}
use dash_dim.Codec.Reader.{
  Reader, ◌>>=◌, return, read_bytes, advance_pos, place, read_bytes_to_uint64,
}
use dash_dim.Codec.Writer.{Writer, cut, write_bytes, write_bytes_to_uint64}
use dash_dim.Codec.Advance.{IsAhead, read_bytes-ahead, >>=-some}

abbrev zeros : ℕ → List ℕ
zeros k = replicate k 0

host_bytes-zeros : (k : ℕ) → host_bytes k 0 ≡ zeros k
unfolding host_bytes
host_bytes-zeros zero = refl
host_bytes-zeros (suc k) = ap (◌∷◌ 0) (host_bytes-zeros k)

-- A number of `n` bytes in a wider integer: zeros above it.
host_bytes-wider : (n m v : ℕ) → v < 256 ^ n → host_bytes (n + m) v ≡ host_bytes n v ++ zeros m
unfolding host_bytes
host_bytes-wider zero m v h = let z : v ≡ 0 = omega arith in rw (z, zero-add m) (host_bytes-zeros m)
host_bytes-wider (suc n) m v h =
    rw (suc-add n m) (ap (◌∷◌ (v % 256)) (host_bytes-wider n m (v / 256) (omega arith)))

from_host-zeros : (bs : List ℕ) (m : ℕ) → from_host (bs ++ zeros m) ≡ from_host bs
unfolding from_host
from_host-zeros [] zero = refl
from_host-zeros [] (suc m) = omega (arith, from_host-zeros [] m)
from_host-zeros (b ∷ bs) m = ap (λ (k : ℕ). b + 256 * k) (from_host-zeros bs m)

replicate_snoc : (m : ℕ) → zeros m ++ 0 ∷ [] ≡ 0 ∷ zeros m
replicate_snoc zero = refl
replicate_snoc (suc m) = ap (◌∷◌ 0) (replicate_snoc m)

reverse-replicate : (m : ℕ) → reverse (zeros m) ≡ zeros m
reverse-replicate zero = refl
reverse-replicate (suc m) =
    reverse-cons 0 (zeros m)
    ∙ ap (λ (l : List ℕ). l ++ 0 ∷ []) (reverse-replicate m)
    ∙ replicate_snoc m

replicate-IsByte : (m : ℕ) → All IsByte (zeros m)
replicate-IsByte zero = tt
replicate-IsByte (suc m) = (omega arith, replicate-IsByte m)

-- The bytes of a number on the wire: the highest first in network order.
unfoldable pub partial_wire : Endianness → ℕ → ℕ → List ℕ
partial_wire network_byte_order n v = reverse (host_bytes n v)
partial_wire host_byte_order n v = host_bytes n v

pub length-partial_wire : (e : Endianness) (n v : ℕ) → length (partial_wire e n v) ≡ n
unfolding partial_wire
length-partial_wire network_byte_order n v = length-reverse (host_bytes n v) ∙ length-host_bytes n v
length-partial_wire host_byte_order n v = length-host_bytes n v

cut-partial_wire :
    (e : Endianness) (n m v : ℕ)
    → n + m ≡ 8
    → 8 - n ≡ m
    → v < 256 ^ n
    → cut e n v ≡ partial_wire e n v
unfolding partial_wire
cut-partial_wire network_byte_order n m v h k fits =
    let high : List ℕ = reverse (zeros m) in
    let low : List ℕ = reverse (host_bytes n v) in
    let size : length high ≡ m = length-reverse (zeros m) ∙ length-replicate m 0 in
    rw
      (
        k,
        host_bytes-byte_swap 8 v,
        ← h,
        host_bytes-wider n m v fits,
        reverse-append (host_bytes n v) (zeros m),
      )
      (ap (λ (j : ℕ). drop j (high ++ low)) (sym size) ∙ drop-append high low)
cut-partial_wire host_byte_order n m v h k fits =
    let bs : List ℕ = host_bytes n v in
    rw (← h, host_bytes-wider n m v fits)
      (ap (λ (j : ℕ). take j (bs ++ zeros m)) (sym (length-host_bytes n v))
        ∙ take-append bs (zeros m))

place-partial_wire :
    (e : Endianness) (n m v : ℕ)
    → n + m ≡ 8
    → 8 - n ≡ m
    → v < 256 ^ n
    → place e n (partial_wire e n v) ≡ v
unfolding partial_wire
place-partial_wire network_byte_order n m v h k fits =
    ap (λ (j : ℕ). byte_swap 8 (from_host (zeros j ++ reverse (host_bytes n v)))) k
    ∙ unfold byte_swap in
      (ap (λ (l : List ℕ). from_host (reverse l)) same
        ∙ ap from_host turned
        ∙ from_host-zeros (host_bytes n v) m
        ∙ from_host-host_bytes n v fits)
  where
    placed : List ℕ
    placed = zeros m ++ reverse (host_bytes n v)

    size : length placed ≡ 8
    size = omega (
      arith,
      length-append (zeros m) (reverse (host_bytes n v)),
      length-replicate {A = ℕ} m 0,
      length-reverse (host_bytes n v),
      length-host_bytes n v,
      h,
    )

    same : host_bytes 8 (from_host placed) ≡ placed
    same =
        ap (λ (j : ℕ). host_bytes j (from_host placed)) (sym size)
        ∙ host_bytes-from_host placed (
            All-append IsByte (zeros m) _ (replicate-IsByte m)
              (All-reverse _ (host_bytes-IsByte n v)))

    turned : reverse placed ≡ host_bytes n v ++ zeros m
    turned =
        reverse-append (zeros m) (reverse (host_bytes n v))
        ∙ ap (λ (l : List ℕ). l ++ reverse (zeros m)) (reverse-reverse (host_bytes n v))
        ∙ ap (λ (l : List ℕ). host_bytes n v ++ l) (reverse-replicate m)
place-partial_wire host_byte_order n m v h k fits = from_host-host_bytes n v fits

-- Up to eight bytes are written, as the low bytes of the number.
pub write_bytes_to_uint64-partial_wire :
    (n v : ℕ) (w : Writer)
    → n ≤ 8
    → v < 256 ^ n
    → write_bytes_to_uint64 n v w ≡ write_bytes (partial_wire w.endianness n v) w
unfolding write_bytes_to_uint64
write_bytes_to_uint64-partial_wire n v w h fits =
    ground (arith, cut-partial_wire w.endianness n (8 - n) v (omega arith) refl fits)

pub read_bytes_to_uint64-partial_wire :
    (n v : ℕ) (tail : List ℕ) (r : Reader)
    → n ≤ 8
    → v < 256 ^ n
    → IsAhead (partial_wire r.endianness n v) tail r
    → read_bytes_to_uint64 n r ≡ (some v, advance_pos n r)
read_bytes_to_uint64-partial_wire n v tail r h fits a =
    small
    ∙ >>=-some (read_bytes n) (λ bs. return (place r.endianness n bs)) r taken
    ∙ ap (λ (k : ℕ). (some k, advance_pos n r))
        (place-partial_wire r.endianness n (8 - n) v (omega arith) refl fits)
  where
    taken : read_bytes n r ≡ (some (partial_wire r.endianness n v), advance_pos n r)
    taken = rw (length-partial_wire r.endianness n v) at (read_bytes-ahead _ tail r a)

    small : read_bytes_to_uint64 n r ≡ (read_bytes n >>= λ bs. return (place r.endianness n bs)) r
    small = unfold read_bytes_to_uint64 in ground arith
