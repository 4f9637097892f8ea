-- ===== src/Codec/Endian.antt =====
-- base/net_endian.h: byte order of the integers, and memory as the host lays it out.
use dash_dim.Prelude.{
  Bool, true, false, ℕ, zero, suc, ◌+◌, ◌*◌, ◌/◌, ◌%◌, ◌^◌, ◌<◌, ◌≡◌, refl, ap, sym, ◌∙◌, List, [],
  ◌∷◌, arith, length, All, length-append, All-append,
}
use native.Mathlib.Nat.{pow-suc}
use mathlib.Core.List.{reverse, reverse-cons, reverse-reverse}

pub data Endianness : Type 0 where
  network_byte_order host_byte_order : Endianness

abbrev pub is_network_order : Endianness → Bool
is_network_order network_byte_order = true
is_network_order host_byte_order = false

abbrev pub IsByte : ℕ → Type 0
IsByte b = b < 256

-- The `n` bytes in which a little-endian host keeps `v`, and the number that such bytes make.
unfoldable pub host_bytes : ℕ → ℕ → List ℕ
host_bytes zero v = []
host_bytes (suc n) v = (v % 256) ∷ host_bytes n (v / 256)

unfoldable pub from_host : List ℕ → ℕ
from_host [] = 0
from_host (b ∷ bs) = b + 256 * from_host bs

-- `PortableByteSwap` on an integer of `n` bytes: HostToNet16, 32, 64 and their inverses.
unfoldable pub byte_swap : ℕ → ℕ → ℕ
byte_swap n x = from_host (reverse (host_bytes n x))

pub length-host_bytes : (n v : ℕ) → length (host_bytes n v) ≡ n
unfolding host_bytes
length-host_bytes zero v = refl
length-host_bytes (suc n) v = ap suc (length-host_bytes n (v / 256))

pub host_bytes-IsByte : (n v : ℕ) → All IsByte (host_bytes n v)
unfolding host_bytes
host_bytes-IsByte zero v = tt
host_bytes-IsByte (suc n) v = (omega arith, host_bytes-IsByte n (v / 256))

pub from_host-host_bytes : (n v : ℕ) → v < 256 ^ n → from_host (host_bytes n v) ≡ v
unfolding from_host host_bytes
from_host-host_bytes zero v h = omega arith
from_host-host_bytes (suc n) v h = omega (arith, from_host-host_bytes n (v / 256) (omega arith))

pub host_bytes-from_host :
    (bs : List ℕ) → All IsByte bs → host_bytes (length bs) (from_host bs) ≡ bs
unfolding from_host host_bytes
host_bytes-from_host [] h = refl
host_bytes-from_host (b ∷ bs) (hb, hs) =
    let low : (b + 256 * from_host bs) % 256 ≡ b = omega arith in
    let high : (b + 256 * from_host bs) / 256 ≡ from_host bs = omega arith in
    rw (low, high, host_bytes-from_host bs hs) refl

pub All-reverse : (xs : List ℕ) → All IsByte xs → All IsByte (reverse xs)
All-reverse [] h = tt
All-reverse (x ∷ xs) h =
    rw (reverse-cons x xs) (All-append IsByte (reverse xs) (x ∷ []) (All-reverse xs h.1) (h.0, tt))

pub length-reverse : (xs : List ℕ) → length (reverse xs) ≡ length xs
length-reverse [] = refl
length-reverse (x ∷ xs) =
    omega
      (arith, ap length (reverse-cons x xs), length-append (reverse xs) (x ∷ []), length-reverse xs)

-- What memory holds after the swap: the same bytes in the opposite order.
pub host_bytes-byte_swap : (n v : ℕ) → host_bytes n (byte_swap n v) ≡ reverse (host_bytes n v)
unfolding byte_swap
host_bytes-byte_swap n v =
    ap (λ k. host_bytes k (from_host (reverse (host_bytes n v)))) (sym count)
    ∙ host_bytes-from_host (reverse (host_bytes n v)) (All-reverse _ (host_bytes-IsByte n v))
  where
    count : length (reverse (host_bytes n v)) ≡ n
    count = length-reverse (host_bytes n v) ∙ length-host_bytes n v

-- Swapping twice gives the integer back.
pub byte_swap_twice : (n v : ℕ) → v < 256 ^ n → byte_swap n (byte_swap n v) ≡ v
byte_swap_twice n v h =
    unfold byte_swap in
    ap from_host (ap reverse (host_bytes-byte_swap n v) ∙ reverse-reverse (host_bytes n v))
    ∙ from_host-host_bytes n v h

from_host-lt : (bs : List ℕ) → All IsByte bs → from_host bs < 256 ^ length bs
unfolding from_host
from_host-lt [] h = omega arith
from_host-lt (b ∷ bs) h = omega (arith, from_host-lt bs h.1, h.0, pow-suc 256 (length bs))

-- The swapped integer has as many bytes.
pub byte_swap-lt : (n v : ℕ) → byte_swap n v < 256 ^ n
unfolding byte_swap
byte_swap-lt n v =
    let h : from_host (reverse (host_bytes n v)) < 256 ^ length (reverse (host_bytes n v)) =
      from_host-lt (reverse (host_bytes n v)) (All-reverse _ (host_bytes-IsByte n v)) in
    rw (length-reverse (host_bytes n v), length-host_bytes n v) at h
