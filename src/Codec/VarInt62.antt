-- ===== src/Codec/VarInt62.antt =====
-- WriteVarInt62, ReadVarInt62 and GetVarInt62Len against the encoding in plain arithmetic.
use dash_dim.Prelude.{
  ℕ, ◌+◌, ◌*◌, ◌/◌, ◌%◌, ◌^◌, ◌≤◌, ◌<◌, ◌≡◌, refl, ◌∙◌, false, some, List, [], ◌∷◌, bit_and, ltb,
  if◌then◌else◌, length, All, arith, inl, inr, Bool-cases, ltb→lt,
}
use dash_dim.Prelude.Bits.{low_byte, low_six}
use dash_dim.Codec.Endian.{IsByte}
use dash_dim.Codec.Reader.{Reader, read_var_int62, advance_pos}
use dash_dim.Codec.Writer.{
  Writer, write_bytes, put_case, write_var_int62, get_var_int62_len, eight_bytes, four_bytes,
  two_bytes,
}
use dash_dim.Codec.Append.{
  IsValid, put_case-write_bytes, masked_error, masked_8, masked_4, masked_2,
}
use dash_dim.Codec.Advance.{IsAhead}
use dash_dim.Codec.Cases.{read_eight, read_four, read_one, read_two}

-- The encoding: two bits for the width, then the number, highest byte first.
unfoldable pub encoding62 : ℕ → List ℕ
encoding62 v =
    if ltb v (2 ^ 6)
    then v ∷ []
    else if ltb v (2 ^ 14)
    then (v / 2 ^ 8 + 0x40) ∷ (v % 256) ∷ []
    else if ltb v (2 ^ 30)
    then (v / 2 ^ 24 + 0x80) ∷ (v / 2 ^ 16 % 256) ∷ (v / 2 ^ 8 % 256) ∷ (v % 256) ∷ []
    else (v / 2 ^ 56 + 0xc0)
      ∷ (v / 2 ^ 48 % 256)
      ∷ (v / 2 ^ 40 % 256)
      ∷ (v / 2 ^ 32 % 256)
      ∷ (v / 2 ^ 24 % 256)
      ∷ (v / 2 ^ 16 % 256)
      ∷ (v / 2 ^ 8 % 256)
      ∷ (v % 256)
      ∷ []

pub encoding62-IsByte : (v : ℕ) → v < 2 ^ 62 → All IsByte (encoding62 v)
unfolding encoding62
encoding62-IsByte v h = ground arith

pub length-encoding62 : (v : ℕ) → (1 ≤ length (encoding62 v)) × (length (encoding62 v) ≤ 8)
unfolding encoding62
length-encoding62 v = ground arith

-- The length that is announced is that of the encoding.
pub get_var_int62_len-encoding62 :
    (v : ℕ) → v < 2 ^ 62 → get_var_int62_len v ≡ length (encoding62 v)
unfolding get_var_int62_len encoding62
get_var_int62_len-encoding62 v h =
    ground (arith, masked_error v, masked_8 v, masked_4 v, masked_2 v)

-- The stores of each width.
stored_eight :
    (v : ℕ)
    → v < 2 ^ 62
    → eight_bytes v
      ≡ (v / 2 ^ 56 + 0xc0)
        ∷ (v / 2 ^ 48 % 256)
        ∷ (v / 2 ^ 40 % 256)
        ∷ (v / 2 ^ 32 % 256)
        ∷ (v / 2 ^ 24 % 256)
        ∷ (v / 2 ^ 16 % 256)
        ∷ (v / 2 ^ 8 % 256)
        ∷ (v % 256)
        ∷ []
stored_eight v h =
    let top : v / 2 ^ 56 % 64 ≡ v / 2 ^ 56 = omega arith in simp (low_byte, low_six, top) refl

stored_four :
    (v : ℕ)
    → v < 2 ^ 30
    → four_bytes v ≡ (v / 2 ^ 24 + 0x80) ∷ (v / 2 ^ 16 % 256) ∷ (v / 2 ^ 8 % 256) ∷ (v % 256) ∷ []
stored_four v h =
    let top : v / 2 ^ 24 % 64 ≡ v / 2 ^ 24 = omega arith in simp (low_byte, low_six, top) refl

stored_two : (v : ℕ) → v < 2 ^ 14 → two_bytes v ≡ (v / 2 ^ 8 + 0x40) ∷ (v % 256) ∷ []
stored_two v h =
    let top : v / 2 ^ 8 % 64 ≡ v / 2 ^ 8 = omega arith in simp (low_byte, low_six, top) refl

stored_one : (v : ℕ) → v < 2 ^ 6 → bit_and v 0x3f ≡ v
stored_one v h = omega (arith, low_six v)

-- On a number that fits the write appends its encoding.
pub write_var_int62-encoding62 :
    (v : ℕ) (w : Writer)
    → v < 2 ^ 62
    → IsValid w
    → write_var_int62 v w ≡ write_bytes (encoding62 v) w
write_var_int62-encoding62 v w h valid = chosen ∙ put_case-write_bytes w (encoding62 v) valid
  where
    chosen : write_var_int62 v w ≡ put_case (encoding62 v) w
    chosen =
        unfold write_var_int62 encoding62 in
        ground (
          arith,
          masked_error v,
          masked_8 v,
          masked_4 v,
          masked_2 v,
          stored_eight v,
          stored_four v,
          stored_two v,
          stored_one v,
        )

-- Any other number is refused.
write_var_int62_refused :
    (v : ℕ) (w : Writer) → 2 ^ 62 ≤ v → v < 2 ^ 64 → write_var_int62 v w ≡ (w, false)
unfolding write_var_int62
write_var_int62_refused v w low high = ground (arith, masked_error v)

-- The four shapes of an encoding.
data Shape (v : ℕ) (bs : List ℕ) : Type 0 where
  one : v < 64 → bs ≡ v ∷ [] → Shape v bs
  two : (b c : ℕ) → b < 64 → v ≡ b * 2 ^ 8 + c → bs ≡ (b + 0x40) ∷ c ∷ [] → Shape v bs
  four :
      (b c d e : ℕ)
      → b < 64
      → v ≡ b * 2 ^ 24 + c * 2 ^ 16 + d * 2 ^ 8 + e
      → bs ≡ (b + 0x80) ∷ c ∷ d ∷ e ∷ []
      → Shape v bs
  eight :
      (b c d e f g i j : ℕ)
      → b < 64
      → v
        ≡ b * 2 ^ 56
          + c * 2 ^ 48
          + d * 2 ^ 40
          + e * 2 ^ 32
          + f * 2 ^ 24
          + g * 2 ^ 16
          + i * 2 ^ 8
          + j
      → bs ≡ (b + 0xc0) ∷ c ∷ d ∷ e ∷ f ∷ g ∷ i ∷ j ∷ []
      → Shape v bs

encoding62-Shape : (v : ℕ) → v < 2 ^ 62 → Shape v (encoding62 v)
encoding62-Shape v h = elim (Bool-cases (ltb v (2 ^ 6))) [
  | inl s ↦ one (ltb→lt v _ s) (unfold encoding62 in rw s refl)
  | inr s ↦ elim (Bool-cases (ltb v (2 ^ 14))) [
    | inl t ↦
        two (v / 2 ^ 8) (v % 256) (omega (arith, ltb→lt v _ t)) (omega arith)
          (unfold encoding62 in rw (s, t) refl)
    | inr t ↦ elim (Bool-cases (ltb v (2 ^ 30))) [
      | inl u ↦
          four (v / 2 ^ 24) (v / 2 ^ 16 % 256) (v / 2 ^ 8 % 256) (v % 256)
            (omega (arith, ltb→lt v _ u)) (omega arith) (unfold encoding62 in rw (s, t, u) refl)
      | inr u ↦
          eight (v / 2 ^ 56) (v / 2 ^ 48 % 256) (v / 2 ^ 40 % 256) (v / 2 ^ 32 % 256)
            (v / 2 ^ 24 % 256) (v / 2 ^ 16 % 256) (v / 2 ^ 8 % 256) (v % 256) (omega arith)
            (omega arith) (unfold encoding62 in rw (s, t, u) refl)
    ]
  ]
]

read-Shape :
    (v : ℕ) (bs tail : List ℕ) (r : Reader)
    → Shape v bs
    → IsAhead bs tail r
    → read_var_int62 r ≡ (some v, advance_pos (length bs) r)
read-Shape v bs tail r (one h p) a = rw p (read_one v tail r h (rw p at a))
read-Shape v bs tail r (two b c h q p) a = rw (p, q) (read_two b c tail r h (rw p at a))
read-Shape v bs tail r (four b c d e h q p) a = rw (p, q) (read_four b c d e tail r h (rw p at a))
read-Shape v bs tail r (eight b c d e f g i j h q p) a =
    rw (p, q) (read_eight b c d e f g i j tail r h (rw p at a))

-- A reader with the encoding ahead reads the number and stops behind it.
pub read_var_int62-encoding62 :
    (v : ℕ) (tail : List ℕ) (r : Reader)
    → v < 2 ^ 62
    → IsAhead (encoding62 v) tail r
    → read_var_int62 r ≡ (some v, advance_pos (length (encoding62 v)) r)
read_var_int62-encoding62 v tail r h a = read-Shape v (encoding62 v) tail r (encoding62-Shape v h) a
