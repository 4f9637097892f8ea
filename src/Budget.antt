-- ===== src/Budget.antt =====
-- IntervalBudget of tpproxy/interval_budget.h and tpproxy/interval_budget.cc. int64_t values are
-- integers: Budget/Bounds is about arguments for which none overflows.
pub mod Bounds
use dash_dim.Prelude.{ℕ, Bool, true, false, ◌||◌, if◌then◌else◌}
use dash_dim.Prelude.Int.{ℤ, pos, ◌+ℤ◌, ◌-ℤ◌, ◌*ℤ◌, ltb_ℤ, min_ℤ, max_ℤ, neg, div_8}

abbrev pub window_ms : ℤ
window_ms = pos 500

pub record IntervalBudget : Type 0 where
  pub started : Bool
  pub target_rate_kbps : ℤ
  pub max_bytes_in_budget : ℤ
  pub bytes_remaining : ℤ
  pub can_build_up_underuse : Bool

unfoldable pub set_target_rate_kbps : ℤ → IntervalBudget → IntervalBudget
unfolding ◌*ℤ◌
set_target_rate_kbps target_rate_kbps b =
    let max_bytes = div_8 (window_ms *ℤ target_rate_kbps) in
    record b {
      started = true;
      target_rate_kbps = target_rate_kbps;
      max_bytes_in_budget = max_bytes;
      bytes_remaining = min_ℤ (max_ℤ (neg max_bytes) b.bytes_remaining) max_bytes;
    }

-- The constructor.
unfoldable pub interval_budget : ℤ → Bool → IntervalBudget
unfolding set_target_rate_kbps
interval_budget initial_target_rate_kbps can_build_up_underuse =
    set_target_rate_kbps initial_target_rate_kbps (record {
      started = false;
      target_rate_kbps = pos 0;
      max_bytes_in_budget = pos 0;
      bytes_remaining = pos 0;
      can_build_up_underuse = can_build_up_underuse;
    })

unfoldable pub increase_budget : ℤ → IntervalBudget → IntervalBudget
unfolding ◌*ℤ◌ ◌+ℤ◌
increase_budget delta_time_ms b =
    let bytes = div_8 (b.target_rate_kbps *ℤ delta_time_ms) in
    if ltb_ℤ b.bytes_remaining (pos 0) || b.can_build_up_underuse
    then record b { bytes_remaining = min_ℤ (b.bytes_remaining +ℤ bytes) b.max_bytes_in_budget }
    else record b { bytes_remaining = min_ℤ bytes b.max_bytes_in_budget }

unfoldable pub use_budget : ℤ → IntervalBudget → IntervalBudget
unfolding ◌-ℤ◌
use_budget bytes b = record b {
  bytes_remaining = max_ℤ (b.bytes_remaining -ℤ bytes) (neg b.max_bytes_in_budget);
}

-- The public bytes_remaining().
unfoldable pub remaining : IntervalBudget → ℤ
remaining b = max_ℤ (pos 0) b.bytes_remaining
