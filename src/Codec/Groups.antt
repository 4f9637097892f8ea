-- ===== src/Codec/Groups.antt =====
-- WriteVarInt and GetVarIntLen: seven bits to a byte, lowest first.
use dash_dim.Prelude.{
  ℕ, zero, suc, ◌+◌, ◌/◌, ◌%◌, ◌^◌, ◌≤◌, ◌<◌, ◌≡◌, refl, ap, Bool, true, false, ◌||◌, List, [], ◌∷◌,
  ltb, ◌==◌, if◌then◌else◌, length, arith, inl, inr, ◌⊎◌, Bool-cases, ltb→lt,
}
use dash_dim.Prelude.Bits.{set_top_bit}
use dash_dim.Codec.Endian.{host_bytes}
use dash_dim.Codec.Writer.{
  Writer, write_uint8, write_groups, write_var_int, get_var_int_len, remaining,
}
use dash_dim.Codec.Append.{IsValid, Appended, written-Appended, write_bytes-written, Appended-trans}

-- The groups of seven bits; all but the last have the top bit set.
unfoldable pub groups : ℕ → ℕ → List ℕ
groups zero v = v ∷ []
groups (suc k) v =
    let rest = groups k (v / 128) in if ltb v 128 then v ∷ [] else (v % 128 + 128) ∷ rest

pub length-groups : (k v : ℕ) → (1 ≤ length (groups k v)) × (length (groups k v) ≤ k + 1)
unfolding groups
length-groups zero v = omega arith
length-groups (suc k) v = ground (arith, length-groups k (v / 128))

pub get_var_int_len-groups : (v : ℕ) → v < 2 ^ 56 → get_var_int_len v ≡ length (groups 7 v)
unfolding get_var_int_len groups
get_var_int_len-groups v h = ground arith

write_uint8-Appended :
    (b : ℕ) (w : Writer)
    → b < 256
    → IsValid w
    → w.length + 1 ≤ w.capacity
    → Appended (b ∷ []) w (write_uint8 b w).0
unfolding write_uint8 host_bytes
write_uint8-Appended b w h v fits =
    let same : b % 256 ≡ b = omega arith in
    rw (same, write_bytes-written w (b ∷ []) fits) (written-Appended w (b ∷ []) v fits)

write_last : (fuel v : ℕ) (w : Writer) → v < 128 → write_groups (suc fuel) v w ≡ (write_uint8 v w).0
unfolding write_groups
write_last fuel v w h =
    let done : ltb 0 (v / 128) ≡ false = ground arith in
    let whole : v % 128 ≡ v = omega arith in rw (done, whole) refl

write_more :
    (fuel v : ℕ) (w : Writer)
    → 128 ≤ v
    → write_groups (suc fuel) v w ≡ write_groups fuel (v / 128) (write_uint8 (v % 128 + 128) w).0
unfolding write_groups
write_more fuel v w h =
    let more : ltb 0 (v / 128) ≡ true = ground arith in
    rw (more, set_top_bit (v % 128) (omega arith)) refl

pub groups_last : (k v : ℕ) → v < 128 → groups k v ≡ v ∷ []
unfolding groups
groups_last zero v h = refl
groups_last (suc k) v h = ground arith

pub groups_more : (k v : ℕ) → 128 ≤ v → groups (suc k) v ≡ (v % 128 + 128) ∷ groups k (v / 128)
unfolding groups
groups_more k v h = ground arith

-- The loop needs one round for each group.
write_groups-Appended :
    (k fuel v : ℕ) (w : Writer)
    → v < 128 ^ suc k
    → k < fuel
    → IsValid w
    → w.length + length (groups k v) ≤ w.capacity
    → Appended (groups k v) w (write_groups fuel v w)
write_groups-Appended k zero v w h f valid fits = absurd (omega arith)
write_groups-Appended zero (suc fuel) v w h f valid fits =
    let last : v < 128 = omega arith in
    rw (groups_last zero v last, write_last fuel v w last)
      (write_uint8-Appended v w (omega arith) valid
        (omega (arith, ap length (groups_last zero v last))))
write_groups-Appended (suc k) (suc fuel) v w h f valid fits = elim (Bool-cases (ltb v 128)) [
  | inl t ↦
      let last : v < 128 = ltb→lt v _ t in
      rw (groups_last (suc k) v last, write_last fuel v w last)
        (write_uint8-Appended v w (omega arith) valid
          (omega (arith, ap length (groups_last (suc k) v last))))
  | inr t ↦
      let more : 128 ≤ v = ground arith in
      let shape = groups_more k v more in
      let size : length (groups (suc k) v) ≡ suc (length (groups k (v / 128))) = ap length shape in
      let first = write_uint8-Appended (v % 128 + 128) w (omega arith) valid (omega arith) in
      rw (shape, write_more fuel v w more)
        (Appended-trans _ _ _ _ _ first (
          write_groups-Appended k fuel (v / 128) _ (omega arith) (omega arith) first.valid
            (omega (arith, first.length_eq, first.capacity_eq))))
]

abbrev is_refused : ℕ → Writer → Bool
is_refused need w = (need == 0) || ltb (remaining w) need

room_left :
    (need : ℕ) (w : Writer)
    → IsValid w
    → 1 ≤ need
    → w.length + need ≤ w.capacity
    → is_refused need w ≡ false
unfolding remaining
room_left need w valid pos fits = ground arith

no_room :
    (need : ℕ) (w : Writer) → IsValid w → w.capacity < w.length + need → is_refused need w ≡ true
unfolding remaining
no_room need w valid full = ground arith

write_var_int_test :
    (v : ℕ) (w : Writer) {b : Bool}
    → is_refused (get_var_int_len v) w ≡ b
    → write_var_int v w ≡ (if b then (w, false) else (write_groups 10 v w, true))
unfolding write_var_int
write_var_int_test v w e = ap (λ t. if t then (w, false) else (write_groups 10 v w, true)) e

get_var_int_len_wide : (v : ℕ) → 2 ^ 56 ≤ v → get_var_int_len v ≡ 0
unfolding get_var_int_len
get_var_int_len_wide v h = ground arith

-- A number below 2 ^ 56 is appended, if it fits; the source announces its length before.
pub write_var_int-Appended :
    (v : ℕ) (w : Writer)
    → v < 2 ^ 56
    → IsValid w
    → w.length + length (groups 7 v) ≤ w.capacity
    → (write_var_int v w ≡ (write_groups 10 v w, true))
      × Appended (groups 7 v) w (write_groups 10 v w)
write_var_int-Appended v w h valid fits = (
  write_var_int_test v w {b = false} (
      rw (get_var_int_len-groups v h)
        (room_left (length (groups 7 v)) w valid (length-groups 7 v).0 fits)),
  write_groups-Appended 7 10 v w (omega arith) (omega arith) valid fits,
)

-- A number that does not fit the eight groups, or the room, is refused.
write_var_int_refused :
    (v : ℕ) (w : Writer)
    → IsValid w
    → (2 ^ 56 ≤ v) ⊎ ((v < 2 ^ 56) × (w.capacity < w.length + length (groups 7 v)))
    → write_var_int v w ≡ (w, false)
write_var_int_refused v w valid (inl big) =
    write_var_int_test v w {b = true} (rw (get_var_int_len_wide v big) refl)
write_var_int_refused v w valid (inr (h, full)) =
    write_var_int_test v w {b = true}
      (rw (get_var_int_len-groups v h) (no_room (length (groups 7 v)) w valid full))
