-- ===== src/Codec/Cases.antt =====
-- The four cases of the switch of ReadVarInt62, on the bytes ahead.
use dash_dim.Prelude.{ℕ, ◌+◌, ◌*◌, ◌^◌, ◌<◌, ◌≡◌, ap, some, List, [], ◌∷◌, ◌++◌, arith, get_or}
use dash_dim.Prelude.Bits.{low_six_bits, top_two_bits}
use dash_dim.Codec.Reader.{Reader, next, read_var_int62, advance_pos}
use dash_dim.Codec.Advance.{IsAhead}

-- Byte `i` ahead.
ahead_at :
    (i : ℕ) (bs tail : List ℕ) (r : Reader)
    → IsAhead bs tail r
    → get_or (next r) i 0 ≡ get_or (bs ++ tail) i 0
ahead_at i bs tail r a = ap (λ (m : List ℕ). get_or m i 0) a.ahead

pub read_one :
    (b : ℕ) (tail : List ℕ) (r : Reader)
    → b < 64
    → IsAhead (b ∷ []) tail r
    → read_var_int62 r ≡ (some b, advance_pos 1 r)
unfolding read_var_int62 advance_pos
read_one b tail r h a =
    ground (arith, ahead_at 0 _ _ r a, top_two_bits b, low_six_bits b, a.owned, a.addressable)

pub read_two :
    (b c : ℕ) (tail : List ℕ) (r : Reader)
    → b < 64
    → IsAhead ((b + 0x40) ∷ c ∷ []) tail r
    → read_var_int62 r ≡ (some (b * 2 ^ 8 + c), advance_pos 2 r)
unfolding read_var_int62 advance_pos
read_two b c tail r h a = ground (
  arith,
  ahead_at 0 _ _ r a,
  ahead_at 1 _ _ r a,
  top_two_bits (b + 0x40),
  low_six_bits (b + 0x40),
  a.owned,
  a.addressable,
)

pub read_four :
    (b c d e : ℕ) (tail : List ℕ) (r : Reader)
    → b < 64
    → IsAhead ((b + 0x80) ∷ c ∷ d ∷ e ∷ []) tail r
    → read_var_int62 r ≡ (some (b * 2 ^ 24 + c * 2 ^ 16 + d * 2 ^ 8 + e), advance_pos 4 r)
unfolding read_var_int62 advance_pos
read_four b c d e tail r h a = ground (
  arith,
  ahead_at 0 _ _ r a,
  ahead_at 1 _ _ r a,
  ahead_at 2 _ _ r a,
  ahead_at 3 _ _ r a,
  top_two_bits (b + 0x80),
  low_six_bits (b + 0x80),
  a.owned,
  a.addressable,
)

pub read_eight :
    (b c d e f g i j : ℕ) (tail : List ℕ) (r : Reader)
    → b < 64
    → IsAhead ((b + 0xc0) ∷ c ∷ d ∷ e ∷ f ∷ g ∷ i ∷ j ∷ []) tail r
    → read_var_int62 r ≡ (
      some (
          b * 2 ^ 56
          + c * 2 ^ 48
          + d * 2 ^ 40
          + e * 2 ^ 32
          + f * 2 ^ 24
          + g * 2 ^ 16
          + i * 2 ^ 8
          + j),
      advance_pos 8 r,
    )
unfolding read_var_int62 advance_pos
read_eight b c d e f g i j tail r h a = ground (
  arith,
  ahead_at 0 _ _ r a,
  ahead_at 1 _ _ r a,
  ahead_at 2 _ _ r a,
  ahead_at 3 _ _ r a,
  ahead_at 4 _ _ r a,
  ahead_at 5 _ _ r a,
  ahead_at 6 _ _ r a,
  ahead_at 7 _ _ r a,
  top_two_bits (b + 0xc0),
  low_six_bits (b + 0xc0),
  a.owned,
  a.addressable,
)
