-- ===== src/Codec/Range.antt =====
-- The range of the numbers that ReadVarInt62 returns.
use dash_dim.Prelude.{
  ℕ, zero, suc, ◌^◌, ◌<◌, ◌≡◌, some, List, [], ◌∷◌, get_or, All, All-drop, arith,
}
use dash_dim.Prelude.Bits.{low_six_bits}
use dash_dim.Codec.Endian.{IsByte}
use dash_dim.Codec.Reader.{Reader, next, byte_at, read_var_int62}

get_or-IsByte : (xs : List ℕ) (i : ℕ) → All IsByte xs → get_or xs i 0 < 256
get_or-IsByte [] i h = omega arith
get_or-IsByte (x ∷ xs) zero h = h.0
get_or-IsByte (x ∷ xs) (suc i) h = get_or-IsByte xs i h.1

byte_at-lt : (r : Reader) (i : ℕ) → All IsByte r.memory → byte_at r i < 256
byte_at-lt r i h = get_or-IsByte (next r) i (All-drop IsByte r.pos r.memory h)

pub read_var_int62-lt :
    (r : Reader) {v : ℕ} {r' : Reader}
    → All IsByte r.memory
    → read_var_int62 r ≡ (some v, r')
    → v < 2 ^ 62
unfolding read_var_int62
read_var_int62-lt r h e = ground (
  arith,
  low_six_bits (byte_at r 0),
  byte_at-lt r 0 h,
  byte_at-lt r 1 h,
  byte_at-lt r 2 h,
  byte_at-lt r 3 h,
  byte_at-lt r 4 h,
  byte_at-lt r 5 h,
  byte_at-lt r 6 h,
  byte_at-lt r 7 h,
)
