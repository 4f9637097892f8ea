-- ===== src/Prelude/Bits.antt =====
-- Bit masks as arithmetic, at every width: a mask of low ones is a remainder, and a mask whose low
-- digits are zero works on the quotient.
use Prim.Native.Nat.{
  ℕ, zero, suc, ◌+◌, ◌*◌, ◌/◌, ◌%◌, ◌^◌, ◌≤◌, ◌<◌, min, bit_and, bit_or, digits, bit_and-bitwise,
}
use mathlib.Core.Path.{◌≡◌, refl, sym, ap, ◌∙◌}
use mathlib.Core.Bool.{Bool, true, false}
use mathlib.Core.Logic.{ite, ◌⊎◌, ◌↔◌, inl, inr}
use native.Mathlib.Decide.{ℕ_discrete}
use native.Mathlib.Omega.{arith}

module _ (f g : ℕ → ℕ) where
  agree_below : ℕ → Bool
  unfolding ℕ_discrete
  agree_below zero = true
  agree_below (suc n) = ite (ℕ_discrete (f n) (g n)) (agree_below n) false

  agree_below→eq : (n : ℕ) → agree_below n ≡ true → (i : ℕ) → i < n → f i ≡ g i
  unfolding agree_below
  agree_below→eq zero e i h = absurd (omega arith)
  agree_below→eq (suc n) e i h = ground (arith, agree_below→eq n (ground arith) i)

-- The masks that the codec applies to one byte.
pub top_two_bits : (b : ℕ) → b < 256 → bit_and b 0xc0 ≡ b / 64 * 64
unfolding agree_below
top_two_bits = agree_below→eq _ _ 256 refl

pub low_six_bits : (b : ℕ) → b < 256 → bit_and b 0x3f ≡ b % 64
unfolding agree_below
low_six_bits = agree_below→eq _ _ 256 refl

pub low_seven_bits : (b : ℕ) → b < 256 → bit_and b 127 ≡ b % 128
unfolding agree_below
low_seven_bits = agree_below→eq _ _ 256 refl

pub top_bit : (b : ℕ) → b < 256 → bit_and b 128 ≡ b / 128 * 128
unfolding agree_below
top_bit = agree_below→eq _ _ 256 refl

pub set_top_bit : (b : ℕ) → b < 128 → bit_or b 128 ≡ b + 128
unfolding agree_below
set_top_bit = agree_below→eq _ _ 128 refl

-- The native conjunction runs on fuel; any fuel that covers the first number gives the same.
abbrev conjoin : ℕ → ℕ → ℕ → ℕ
conjoin fuel x y = digits (λ y'. 0) min fuel x y

conjoin-zero : (fuel y : ℕ) → conjoin fuel 0 y ≡ 0
conjoin-zero zero y = refl
conjoin-zero (suc fuel) y = refl

conjoin-more : (fuel more x y : ℕ) → x ≤ more → x ≤ fuel → conjoin fuel x y ≡ conjoin more x y
conjoin-more fuel more zero y h k = conjoin-zero fuel y ∙ sym (conjoin-zero more y)
conjoin-more zero more (suc x) y h k = absurd (omega arith)
conjoin-more (suc fuel) zero (suc x) y h k = absurd (omega arith)
conjoin-more (suc fuel) (suc more) (suc x) y h k =
    let half : suc x / 2 ≤ fuel = omega arith in
    let more_half : suc x / 2 ≤ more = omega arith in
    ap (λ (r : ℕ). r * 2 + min (suc x % 2) (y % 2))
      (conjoin-more fuel more (suc x / 2) (y / 2) more_half half)

-- The lowest binary digit and the others.
bit_and_step : (x y : ℕ) → bit_and x y ≡ bit_and (x / 2) (y / 2) * 2 + min (x % 2) (y % 2)
bit_and_step x y =
    bit_and-bitwise x y
    ∙ peel x
    ∙ ap (λ (r : ℕ). r * 2 + min (x % 2) (y % 2)) (sym (bit_and-bitwise (x / 2) (y / 2)))
  where
    peel : (x : ℕ) → conjoin x x y ≡ conjoin (x / 2) (x / 2) (y / 2) * 2 + min (x % 2) (y % 2)
    peel zero = omega arith
    peel (suc x) =
        ap (λ (r : ℕ). r * 2 + min (suc x % 2) (y % 2))
          (conjoin-more x (suc x / 2) (suc x / 2) (y / 2) (omega arith) (omega arith))

bit_and-zero_fuel : (fuel x : ℕ) → x ≤ fuel → bit_and x 0 ≡ 0
bit_and-zero_fuel zero zero h = refl
bit_and-zero_fuel zero (suc x) h = absurd (omega arith)
bit_and-zero_fuel (suc fuel) x h =
    omega (arith, bit_and_step x 0, bit_and-zero_fuel fuel (x / 2) (omega arith))

bit_and_digit : (a m d : ℕ) → d < 2 → bit_and a (m * 2 + d) ≡ bit_and (a / 2) m * 2 + min (a % 2) d
bit_and_digit a m d h =
    let half : (m * 2 + d) / 2 ≡ m = omega arith in
    let low : (m * 2 + d) % 2 ≡ d = omega arith in rw (bit_and_step a (m * 2 + d), half, low) refl

-- The mask of `k` ones.
abbrev pub ones : ℕ → ℕ
ones zero = 0
ones (suc k) = ones k * 2 + 1

-- The low `k` digits, read off digit by digit.
abbrev pub low_digits : ℕ → ℕ → ℕ
low_digits zero a = 0
low_digits (suc k) a = low_digits k (a / 2) * 2 + a % 2

bit_and-ones : (k a : ℕ) → bit_and a (ones k) ≡ low_digits k a
bit_and-ones zero a = bit_and-zero_fuel a a (omega arith)
bit_and-ones (suc k) a =
    omega (arith, bit_and_digit a (ones k) 1 (omega arith), bit_and-ones k (a / 2))

-- `shifted j m` is `m << j`, and `halved j a` is `a >> j`.
abbrev pub shifted : ℕ → ℕ → ℕ
shifted zero m = m
shifted (suc j) m = shifted j m * 2

abbrev pub halved : ℕ → ℕ → ℕ
halved zero a = a
halved (suc j) a = halved j (a / 2)

doubled : (n : ℕ) → n * 2 ≡ n * 2 + 0
doubled n = omega arith

bit_and-shifted : (j a m : ℕ) → bit_and a (shifted j m) ≡ shifted j (bit_and (halved j a) m)
bit_and-shifted zero a m = refl
bit_and-shifted (suc j) a m = omega (
  arith,
  bit_and_digit a (shifted j m) 0 (omega arith),
  ap (λ (n : ℕ). bit_and a n) (doubled (shifted j m)),
  bit_and-shifted j (a / 2) m,
)

-- A mask of `k` ones above `j` zeros.
bit_and_field : (j k a : ℕ) → bit_and a (shifted j (ones k)) ≡ shifted j (low_digits k (halved j a))
bit_and_field j k a = rw (bit_and-shifted j a (ones k), bit_and-ones k (halved j a)) refl

shifted-zero : (j : ℕ) → shifted j 0 ≡ 0
shifted-zero zero = refl
shifted-zero (suc j) = omega (arith, shifted-zero j)

shifted-pos : (j m : ℕ) → 0 < m → 0 < shifted j m
shifted-pos zero m h = h
shifted-pos (suc j) m h = omega (arith, shifted-pos j m h)

low_digits_small : (k a : ℕ) → a < 2 ^ k → low_digits k a ≡ a
low_digits_small zero a h = omega arith
low_digits_small (suc k) a h = omega (arith, low_digits_small k (a / 2) (omega arith))

zero_or_pos : (n : ℕ) → (n ≡ 0) ⊎ (0 < n)
zero_or_pos zero = inl refl
zero_or_pos (suc n) = inr (omega arith)

one_le_pow : (k : ℕ) → 0 < 2 ^ k
one_le_pow zero = omega arith
one_le_pow (suc k) = omega (arith, one_le_pow k)

-- A masked test is an order: the field from bit `j`, of width `k`, is zero exactly below `2 ^ j`.
field_zero : (j k a : ℕ) → halved j a < 2 ^ k → bit_and a (shifted j (ones k)) ≡ 0 → halved j a ≡ 0
field_zero j k a h e = elim (zero_or_pos (halved j a)) [
  | inl z ↦ z
  | inr p ↦ absurd (
      omega (
        arith,
        bit_and_field j k a,
        ap (shifted j) (low_digits_small k (halved j a) h),
        shifted-pos j (halved j a) p,
      ))
]

zero_field : (j k a : ℕ) → halved j a ≡ 0 → bit_and a (shifted j (ones k)) ≡ 0
zero_field j k a e =
    bit_and_field j k a
    ∙ ap (shifted j) (ap (low_digits k) e ∙ low_digits_small k 0 (one_le_pow k))
    ∙ shifted-zero j

halved_small : (j a : ℕ) → a < 2 ^ j → halved j a ≡ 0
halved_small zero a h = omega arith
halved_small (suc j) a h = halved_small j (a / 2) (omega arith)

small_of_halved : (j a : ℕ) → halved j a ≡ 0 → a < 2 ^ j
small_of_halved zero a e = omega arith
small_of_halved (suc j) a e = omega (arith, small_of_halved j (a / 2) e)

halved-lt : (j k a : ℕ) → a < shifted j (2 ^ k) → halved j a < 2 ^ k
halved-lt zero k a h = omega arith
halved-lt (suc j) k a h = halved-lt j k (a / 2) (omega arith)

-- Below `2 ^ (j + k)` such a field is zero exactly for the numbers below `2 ^ j`.
pub field_zero_iff :
    (j k a : ℕ) → a < shifted j (2 ^ k) → (bit_and a (shifted j (ones k)) ≡ 0) ↔ (a < 2 ^ j)
field_zero_iff j k a h = (
  λ e. small_of_halved j a (field_zero j k a (halved-lt j k a h) e),
  λ s. zero_field j k a (halved_small j a s),
)

pub low_byte : (a : ℕ) → bit_and a 0xff ≡ a % 256
low_byte a = omega (arith, bit_and-ones 8 a)

pub low_six : (a : ℕ) → bit_and a 0x3f ≡ a % 64
low_six a = omega (arith, bit_and-ones 6 a)
