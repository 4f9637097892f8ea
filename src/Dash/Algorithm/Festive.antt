-- ===== src/Dash/Algorithm/Festive.antt =====
-- FestiveAlgorithm of dash/dash_algorithm.cc. `random` is what Random::nextInt answers.
pub mod Gradual
use dash_dim.Prelude.{
  ◌>>=◌, ℕ, zero, suc, ◌+◌, ◌-◌, ◌≤◌, ◌<◌, ◌≡◌, refl, true, Option, none, some, List, [], ◌∷◌, ltb,
  ◌==◌, if◌then◌else◌, length, drop, get_elem?, get_elem?-Yields, Yields, Yields-bind, Yields-map,
  ◌⊎◌, inl, inr, arith, if-intro, min, ltb→lt, lt→ltb, ==→≡, ==→≢, Bool-cases,
}
use dash_dim.Prelude.Int.{ℤ, pos, ltb_ℤ, ◌-ℤ◌, ◌+ℤ◌, ◌*ℤ◌}
use dash_dim.Dash.Algorithm.{
  Double, View, AlgorithmReply, reply, predict, min_num, IsTimed, predict-Yields,
}

-- The arguments of the constructor.
pub record Target : Type 0 where
  pub target_buffer : ℤ
  pub horizon : ℕ
  pub delta : ℤ

-- kSwitchUpThreshold, which has ten entries.
unfoldable pub switch_up_threshold : ℕ → Option ℕ
switch_up_threshold quality = if ltb quality 10 then some quality else none

-- Neighbours that differ.
unfoldable pub changes : List ℕ → ℕ
changes [] = 0
changes (q ∷ []) = 0
changes (q ∷ (r ∷ qs)) = (if q == r then 0 else 1) + changes (r ∷ qs)

-- The reference quality and `switch_up_count_`.
unfoldable pub reference : ℕ → ℕ → ℕ → Option (ℕ × ℕ)
reference b_target b_cur count =
    if ltb b_cur b_target
    then (do
      threshold ← switch_up_threshold b_cur
      some (if ltb threshold (count + 1) then b_cur + 1 else b_cur, count + 1))
    else if ltb b_target b_cur
    then some (b_cur - 1, 0)
    else some (b_cur, 0)

-- Milliseconds, as microseconds, by which the buffer is above its randomised target.
unfoldable pub wait_for : Target → ℤ → ℤ → ℤ
wait_for target random buffer_level_ms =
    let rand_buf = target.target_buffer -ℤ target.delta +ℤ random in
    if ltb_ℤ rand_buf buffer_level_ms then (buffer_level_ms -ℤ rand_buf) *ℤ pos 1000 else pos 0

module _ (d : Double) where
  open d use {Num, plus, minus, times, over, at_most, less, of_int, decimal, pow, abs}

  -- The loop for `b_target`, from index `i` down.
  unfoldable pub find_target : List Num → Num → ℕ → Option ℕ
  find_target rates bitrate zero = do rate ← get_elem? rates 0; some 0
  find_target rates bitrate (suc i) =
      let lower = find_target rates bitrate i in
      do rate ← get_elem? rates (suc i); (if at_most rate bitrate then some (suc i) else lower)

  -- CalculateStabilityScore.
  unfoldable pub stability_score : ℕ → ℕ → ℕ → List ℕ → Num
  stability_score horizon b b_cur history_quality =
      let n = changes (drop (length history_quality - horizon) history_quality) in
      pow (of_int (pos 2)) (of_int (pos (if b == b_cur then n else n + 1)))

  -- CalculateEfficiencyScore.
  unfoldable pub efficiency_score : ℕ → ℕ → Num → List Num → Option Num
  efficiency_score b b_ref predict_bandwidth rates = do
    rate_ref ← get_elem? rates b_ref
    rate ← get_elem? rates b
    some (abs (minus (over rate (min_num d predict_bandwidth rate_ref)) (of_int (pos 1))))

  -- CalculateCombineScore.
  unfoldable pub combine_score : ℕ → ℕ → ℕ → ℕ → Num → List ℕ → List Num → Option Num
  combine_score horizon b b_ref b_cur predict_bandwidth history_quality rates = do
    efficiency ← efficiency_score b b_ref predict_bandwidth rates
    some (plus (stability_score horizon b b_cur history_quality) (times (decimal 12 0) efficiency))

  -- The next quality, and `switch_up_count_`.
  unfoldable pub next_of : ℕ → View Num → Num → ℕ → ℕ → ℕ → Option (ℕ × ℕ)
  next_of horizon v bandwidth b_ref b_cur count =
      if b_ref == b_cur then some (b_cur, count) else (do
        score_cur ←
            combine_score horizon b_cur b_ref b_cur bandwidth v.history_quality v.average_bitrate
        score_ref ←
            combine_score horizon b_ref b_ref b_cur bandwidth v.history_quality v.average_bitrate
        some (
            if at_most score_cur score_ref
            then (b_cur, count)
            else (b_ref, if ltb b_cur b_ref then 0 else count)))

  -- GetNextQuality, with `switch_up_count_` before and after.
  unfoldable pub get_next_quality : Target → ℤ → View Num → ℕ → ℕ → ℕ → Option (AlgorithmReply × ℕ)
  get_next_quality target random v pre_quality segment_count count =
      if segment_count == 0 then some (reply, count) else (do
        bandwidth ← predict d v 5
        b_target ←
            find_target v.average_bitrate (times (decimal 8 1) bandwidth)
              (length v.average_bitrate - 1)
        (b_ref, count') ← reference b_target pre_quality count
        (next, count'') ←
            next_of target.horizon v bandwidth (min b_ref (length v.average_bitrate - 1))
              pre_quality count'
        some (
          record {
            next_quality = next;
            next_download_delay = wait_for target random v.buffer_level_ms;
          },
          count'',
        ))
