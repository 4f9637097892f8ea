-- ===== src/Codec/VarInt.antt =====
-- ReadVarInt on the groups of seven bits of Codec/Groups.
use native.Mathlib.Nat.{div-add-mod}
use dash_dim.Prelude.{
  ℕ, zero, suc, ◌+◌, ◌-◌, ◌*◌, ◌/◌, ◌%◌, ◌^◌, ◌≤◌, ◌<◌, ◌≡◌, refl, ap, ◌∙◌, Bool, true, ◌&&◌,
  Option, none, some, List, ◌∷◌, ◌++◌, ltb, leb, if◌then◌else◌, length, arith, take, size_mod, inl,
  inr, Bool-cases, ltb→lt, take-append_le,
}
use dash_dim.Prelude.Bits.{top_bit, low_seven_bits}
use dash_dim.Codec.Reader.{
  Reader, next, read_var_int, scan, sum_groups, advance_pos, bytes_remaining,
}
use dash_dim.Codec.Advance.{IsAhead}
use dash_dim.Codec.Groups.{groups, groups_last, groups_more, length-groups}

scan_last : (v l : ℕ) (tail : List ℕ) → v < 128 → scan (v ∷ tail) l ≡ (l + 1, true)
unfolding scan
scan_last v l tail h = ground (arith, top_bit v)

scan_more : (g l : ℕ) (bs : List ℕ) → g < 128 → l < 8 → scan ((g + 128) ∷ bs) l ≡ scan bs (l + 1)
unfolding scan
scan_more g l bs h f = ground (arith, top_bit (g + 128))

-- The first loop stops at the last group.
scan-groups :
    (k v l : ℕ) (tail : List ℕ)
    → v < 128 ^ suc k
    → l + k < 8
    → scan (groups k v ++ tail) l ≡ (l + length (groups k v), true)
scan-groups zero v l tail h f =
    let last : v < 128 = omega arith in rw (groups_last zero v last) (scan_last v l tail last)
scan-groups (suc k) v l tail h f = elim (Bool-cases (ltb v 128)) [
  | inl t ↦
      let last : v < 128 = ltb→lt v _ t in rw (groups_last (suc k) v last) (scan_last v l tail last)
  | inr t ↦
      let ih = scan-groups k (v / 128) (l + 1) tail (omega arith) (omega arith) in
      rw (groups_more k v (ground arith)) (
        scan_more (v % 128) l _ (omega arith) (omega arith)
        ∙ ih
        ∙ ap (λ (n : ℕ). (n, true)) (omega arith))
]

sum_last :
    (v acc multi : ℕ) (tail : List ℕ)
    → v < 128
    → acc + v * multi < size_mod
    → sum_groups 1 (v ∷ tail) acc multi ≡ acc + v * multi
unfolding sum_groups
sum_last v acc multi tail h fits =
    let low : v % 128 ≡ v = omega arith in rw (low_seven_bits v (omega arith), low) (omega arith)

sum_more :
    (n g acc multi : ℕ) (bs : List ℕ)
    → g < 128
    → acc + g * multi < size_mod
    → multi * 128 < size_mod
    → sum_groups (suc n) ((g + 128) ∷ bs) acc multi
      ≡ sum_groups n bs (acc + g * multi) (multi * 128)
unfolding sum_groups
sum_more n g acc multi bs h fits room =
    let low : (g + 128) % 128 ≡ g = omega arith in
    let kept : (acc + g * multi) % size_mod ≡ acc + g * multi = omega arith in
    let shifted : multi * 128 % size_mod ≡ multi * 128 = omega arith in
    rw (low_seven_bits (g + 128) (omega arith), low, kept, shifted) refl

split_value : (v acc multi : ℕ) → acc + v % 128 * multi + v / 128 * (multi * 128) ≡ acc + v * multi
split_value v acc multi = omega (arith, ap (λ (t : ℕ). t * multi) (div-add-mod v 128))

-- The second loop adds them up.
sum_groups-groups :
    (k v acc multi : ℕ) (tail : List ℕ)
    → v < 128 ^ suc k
    → acc + v * multi < size_mod
    → sum_groups (length (groups k v)) (groups k v ++ tail) acc multi ≡ acc + v * multi
sum_groups-groups zero v acc multi tail h fits =
    let last : v < 128 = omega arith in
    rw (groups_last zero v last) (sum_last v acc multi tail last fits)
sum_groups-groups (suc k) v acc multi tail h fits = elim (Bool-cases (ltb v 128)) [
  | inl t ↦
      let last : v < 128 = ltb→lt v _ t in
      rw (groups_last (suc k) v last) (sum_last v acc multi tail last fits)
  | inr t ↦
      let more : 128 ≤ v = ground arith in
      let whole = split_value v acc multi in
      let room : multi * 128 < size_mod = grind arith in
      let ih =
        sum_groups-groups k (v / 128) (acc + v % 128 * multi) (multi * 128) tail (omega arith)
          (omega arith) in
      rw (groups_more k v more)
        (sum_more _ (v % 128) acc multi _ (omega arith) (omega arith) room ∙ ih ∙ whole)
]

abbrev after_scan : Reader → ℕ × Bool → Option ℕ × Reader
after_scan r p =
    if ltb 0 p.0 && leb p.0 8 && p.1
    then (some (sum_groups p.0 (next r) 0 1), advance_pos p.0 r)
    else (none, r)

read_var_int-scan :
    (r : Reader) {p : ℕ × Bool}
    → scan (take (bytes_remaining r) (next r)) 0 ≡ p
    → read_var_int r ≡ after_scan r p
unfolding read_var_int
read_var_int-scan r e = ap (after_scan r) e

read_var_int_scanned :
    (r : Reader) (n : ℕ)
    → scan (take (bytes_remaining r) (next r)) 0 ≡ (n, true)
    → 1 ≤ n
    → n ≤ 8
    → read_var_int r ≡ (some (sum_groups n (next r) 0 1), advance_pos n r)
read_var_int_scanned r n e low high = read_var_int-scan r e ∙ ground arith

-- A reader with the groups of a number ahead reads it and stops behind them.
pub read_var_int-groups :
    (v : ℕ) (tail : List ℕ) (r : Reader)
    → v < 2 ^ 56
    → IsAhead (groups 7 v) tail r
    → read_var_int r ≡ (some v, advance_pos (length (groups 7 v)) r)
read_var_int-groups v tail r h a =
    read_var_int_scanned r (length (groups 7 v)) scanned (length-groups 7 v).0 (length-groups 7 v).1
    ∙ ap (λ (k : ℕ). (some k, advance_pos (length (groups 7 v)) r)) summed
  where
    left : bytes_remaining r ≡ r.len - r.pos
    left = unfold bytes_remaining in omega (arith, a.owned, a.addressable)

    scanned : scan (take (bytes_remaining r) (next r)) 0 ≡ (length (groups 7 v), true)
    scanned =
        rw
          (left, a.ahead, take-append_le (r.len - r.pos) (groups 7 v) tail (omega (arith, a.owned)))
          (scan-groups 7 v 0 _ (omega arith) (omega arith)
            ∙ ap (λ (n : ℕ). (n, true)) (omega arith))

    summed : sum_groups (length (groups 7 v)) (next r) 0 1 ≡ v
    summed = rw a.ahead (sum_groups-groups 7 v 0 1 tail (omega arith) (omega arith) ∙ omega arith)
