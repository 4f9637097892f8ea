-- ===== src/Budget/Bounds.antt =====
-- The bounds of the budget under its operations.
use dash_dim.Prelude.{ℕ, ◌*◌, ◌/◌, ◌^◌, ◌<◌, ◌≤◌, ◌≡◌, List, [], ◌∷◌, Bool, All, arith}
use dash_dim.Prelude.Int.{ℤ, pos, pos_part, neg_part, ◌≤ℤ◌, neg, ◌*ℤ◌, ◌+ℤ◌, ◌-ℤ◌, div_8}
use dash_dim.Budget.{
  IntervalBudget, window_ms, interval_budget, set_target_rate_kbps, increase_budget, use_budget,
}

-- The maximum is the bytes that the rate sends in half a second.
pub record IsValid (b : IntervalBudget) : Type 0 where
  pub rate : pos 0 ≤ℤ b.target_rate_kbps
  pub int : pos_part b.target_rate_kbps < 2 ^ 31
  pub window : b.max_bytes_in_budget ≡ pos (500 * pos_part b.target_rate_kbps / 8)
  pub low : neg b.max_bytes_in_budget ≤ℤ b.bytes_remaining
  pub high : b.bytes_remaining ≤ℤ b.max_bytes_in_budget

set_target_rate_kbps-IsValid :
    (rate : ℕ) (b : IntervalBudget) → rate < 2 ^ 31 → IsValid (set_target_rate_kbps (pos rate) b)
unfolding set_target_rate_kbps
set_target_rate_kbps-IsValid rate b h = ground arith

interval_budget-IsValid :
    (rate : ℕ) (build_up : Bool) → rate < 2 ^ 31 → IsValid (interval_budget (pos rate) build_up)
unfolding interval_budget
interval_budget-IsValid rate build_up h = ground arith

use_budget-IsValid :
    (bytes : ℕ) (b : IntervalBudget) → IsValid b → IsValid (use_budget (pos bytes) b)
unfolding use_budget
use_budget-IsValid bytes b v = ground arith

increase_budget-IsValid :
    (ms : ℕ) (b : IntervalBudget) → IsValid b → IsValid (increase_budget (pos ms) b)
unfolding increase_budget
increase_budget-IsValid ms b v = ground arith

-- The calls of the public operations.
pub data Op : Type 0 where
  set_rate : ℕ → Op
  increase : ℕ → Op
  spend : ℕ → Op

-- An int64_t.
abbrev pub IsInt64 : ℤ → Type 0
IsInt64 z = (pos_part z < 2 ^ 63) × (neg_part z ≤ 2 ^ 63)

-- An int rate, less than 2^32 milliseconds and less than 2^62 bytes.
abbrev pub Fits : Op → Type 0
Fits (set_rate rate) = rate < 2 ^ 31
Fits (increase ms) = ms < 2 ^ 32
Fits (spend bytes) = bytes < 2 ^ 62

-- The products, sums and differences that the source computes.
abbrev pub NoOverflow : Op → IntervalBudget → Type 0
NoOverflow (set_rate rate) b = IsInt64 (window_ms *ℤ pos rate)
NoOverflow (increase ms) b =
    IsInt64 (b.target_rate_kbps *ℤ pos ms)
    × IsInt64 (b.bytes_remaining +ℤ div_8 (b.target_rate_kbps *ℤ pos ms))
NoOverflow (spend bytes) b =
    IsInt64 (b.bytes_remaining -ℤ pos bytes) × IsInt64 (neg b.max_bytes_in_budget)

unfoldable pub apply_op : Op → IntervalBudget → IntervalBudget
apply_op (set_rate rate) b = set_target_rate_kbps (pos rate) b
apply_op (increase ms) b = increase_budget (pos ms) b
apply_op (spend bytes) b = use_budget (pos bytes) b

-- In order.
unfoldable pub run : List Op → IntervalBudget → IntervalBudget
run [] b = b
run (op ∷ ops) b = run ops (apply_op op b)

-- No operation of the list overflows.
abbrev pub NeverOverflows : List Op → IntervalBudget → Type 0
NeverOverflows [] b = Unit {0}
NeverOverflows (op ∷ ops) b = NoOverflow op b × NeverOverflows ops (apply_op op b)

apply_op-IsValid : (op : Op) (b : IntervalBudget) → Fits op → IsValid b → IsValid (apply_op op b)
unfolding apply_op
apply_op-IsValid (set_rate rate) b fits v = set_target_rate_kbps-IsValid rate b fits
apply_op-IsValid (increase ms) b fits v = increase_budget-IsValid ms b v
apply_op-IsValid (spend bytes) b fits v = use_budget-IsValid bytes b v

product_lt : (rate ms : ℕ) → rate < 2 ^ 31 → ms < 2 ^ 32 → rate * ms < 2 ^ 63
product_lt rate ms h g = grind arith

apply_op-NoOverflow : (op : Op) (b : IntervalBudget) → Fits op → IsValid b → NoOverflow op b
unfolding ◌*ℤ◌ ◌+ℤ◌ ◌-ℤ◌
apply_op-NoOverflow (set_rate rate) b fits v = ground arith
apply_op-NoOverflow (increase ms) b fits v =
    ground (arith, product_lt (pos_part b.target_rate_kbps) ms v.int fits)
apply_op-NoOverflow (spend bytes) b fits v = ground arith

run_valid :
    (ops : List Op) (b : IntervalBudget)
    → All Fits ops
    → IsValid b
    → IsValid (run ops b) × NeverOverflows ops b
unfolding run
run_valid [] b fits v = (v, tt)
run_valid (op ∷ ops) b fits v =
    let (valid, never) = run_valid ops (apply_op op b) fits.1 (apply_op-IsValid op b fits.0 v) in
    (valid, (apply_op-NoOverflow op b fits.0 v, never))

-- From the constructor on, over any sequence of operations with rates from 0 to 2^31 - 1,
-- times from 0 to 2^32 - 1 ms and counts from 0 to 2^62 - 1 bytes: no product, sum or
-- difference that the source computes leaves the range of an int64_t, the maximum is the bytes
-- that the rate sends in half a second, and the remaining bytes stay within the maximum on
-- either side of zero.
pub run-IsValid :
    (rate : ℕ) (build_up : Bool) (ops : List Op)
    → rate < 2 ^ 31
    → All Fits ops
    → IsValid (run ops (interval_budget (pos rate) build_up))
      × IsInt64 (window_ms *ℤ pos rate)
      × NeverOverflows ops (interval_budget (pos rate) build_up)
run-IsValid rate build_up ops h fits =
    let valid = interval_budget-IsValid rate build_up h in
    let (whole, never) = run_valid ops _ fits valid in
    (
      whole,
      apply_op-NoOverflow (set_rate rate) (interval_budget (pos rate) build_up) h valid,
      never,
    )
