-- ===== src/Dash/Algorithm/Panda.antt =====
-- PandaAlgorithm of dash/dash_algorithm.cc.
pub mod Low
use mathlib.Core.Path.{subst}
use dash_dim.Prelude.{
  sym, back-Yields, Yields, Yields-bind, get_elem?-Yields, ◌>>=◌, back, ℕ, ◌+◌, ◌<◌, ◌≡◌, refl,
  ◌&&◌, Option, some, List, [], ◌∷◌, ◌==◌, if◌then◌else◌, length, get_elem?, arith, if-intro, ◌⊎◌,
  inl, inr,
}
use dash_dim.Prelude.Int.{ℤ, pos, ltb_ℤ, ◌-ℤ◌, ◌*ℤ◌, div_ℤ}
use dash_dim.Dash.Algorithm.{Double, View, AlgorithmReply, reply, max_num}

-- The fields of PandaAlgorithm that change; the interval is in microseconds.
pub record Panda (Num : Type 0) : Type 0 where
  pub last_buffer : Num
  pub last_target_interrequest_time : ℤ
  pub last_bandwidth_share : Num
  pub last_smooth_bandwidth_share : Num
  pub last_video_index : ℕ

-- The lowest quality, or one below the highest.
abbrev pub IsBelowTop : ℕ → ℕ → Type 0
IsBelowTop size n = (n ≡ 0) ⊎ (n + 1 < size)

module _ (d : Double) where
  open d use {Num, plus, minus, times, over, less, at_most, of_int, to_int, decimal}

  -- The loop of FindLargest over the rates from index `i` on, up to but not including the last.
  unfoldable pub find_loop : Num → Num → ℕ → ℕ → List Num → ℕ
  find_loop smooth_bw delta i largest [] = largest
  find_loop smooth_bw delta i largest (rate ∷ []) = largest
  find_loop smooth_bw delta i largest (rate ∷ (above ∷ rates)) =
      let fits = at_most (over rate (decimal 1000000 0)) (minus smooth_bw delta) in
      find_loop smooth_bw delta (i + 1) (if fits then i else largest) (above ∷ rates)

  unfoldable pub find_largest : View Num → Num → Num → ℕ
  find_largest v smooth_bw delta = find_loop smooth_bw delta 0 0 v.average_bitrate

  -- What the measured throughput makes of the two shares, over a time between requests.
  unfoldable pub bandwidth_share : Num → Num → Num → Num
  bandwidth_share last measured interval =
      let excess = max_num d (decimal 0 0) (plus (minus last measured) (decimal 3 1)) in
      let share = plus (times (times (decimal 28 2) (minus (decimal 3 1) excess)) interval) last in
      if less share (decimal 0 0) then decimal 0 0 else share

  unfoldable pub smooth_share : Num → Num → Num → Num
  smooth_share last share interval =
      plus (times (times (minus (decimal 0 0) (decimal 2 1)) (minus last share)) interval) last

  -- The quality between the bounds for going up and going down.
  unfoldable pub video_index : List Num → ℕ → ℕ → ℕ → Option ℕ
  video_index rates last r_up r_down = do
    last_rate ← get_elem? rates last
    up_rate ← get_elem? rates r_up
    down_rate ← get_elem? rates r_down
    some (
        if less last_rate up_rate
        then r_up
        else if at_most up_rate last_rate && at_most last_rate down_rate
        then last
        else r_down)

  -- `m_omega + m_epsilon * smoothBandwidthShare`.
  abbrev delta_up : Num → Num
  delta_up smooth = plus (decimal 3 1) (times (decimal 15 2) smooth)

  abbrev seconds : ℤ → Num
  seconds microseconds =
      over (times (decimal 1 0) (of_int (div_ℤ microseconds 1000))) (decimal 1000 0)

  -- The time to the next request, in milliseconds.
  unfoldable pub target_time : View Num → Num → Num → Num → ℤ
  target_time v rate smooth last_buffer =
      let playing =
        over
          (times (over rate (decimal 1000000 0))
            (over (times (decimal 1 0) (of_int (pos v.segment_duration))) (decimal 1000 0)))
          smooth in
      to_int (
        times
          (max_num d (decimal 0 0)
            (plus playing (times (decimal 2 1) (minus last_buffer (of_int (pos 26))))))
          (decimal 1000 0))

  -- The first segment.
  unfoldable pub first_quality : View Num → Panda Num → AlgorithmReply × Panda Num
  first_quality v p = (
    reply,
    record p {
      last_video_index = 0;
      last_buffer = over (times (of_int (pos v.segment_duration)) (decimal 1 0)) (decimal 1000 0);
      last_target_interrequest_time = pos 0;
    },
  )

  -- The rest of GetNextQuality, from the measured throughput on.
  unfoldable pub adapt :
      View Num → ℕ → ℕ → ℕ → Num → Panda Num → Option (AlgorithmReply × Panda Num)
  adapt v now end requested measured p =
      let elapsed = pos now -ℤ pos requested in
      let last_target = p.last_target_interrequest_time in
      let interval = seconds (if ltb_ℤ last_target elapsed then elapsed else last_target) in
      let share = bandwidth_share p.last_bandwidth_share measured interval in
      let smooth = smooth_share p.last_smooth_bandwidth_share share interval in
      do
        index ←
            video_index v.average_bitrate p.last_video_index
              (find_largest v smooth (delta_up smooth)) (find_largest v smooth (decimal 3 1))
        rate ← get_elem? v.average_bitrate index
        let taken = pos end -ℤ pos requested in
            some (
              record {
                next_quality = index;
                next_download_delay =
                    if ltb_ℤ taken last_target then last_target -ℤ taken else pos 0;
              },
              record {
                last_buffer =
                    over (times (of_int v.buffer_level_ms) (decimal 1 0)) (decimal 1000 0);
                last_target_interrequest_time = target_time v rate smooth p.last_buffer *ℤ pos 1000;
                last_bandwidth_share = share;
                last_smooth_bandwidth_share = smooth;
                last_video_index = index;
              },
            )

  -- The throughput of the last segment, in megabits per second.
  unfoldable pub throughput : View Num → Num → ℕ → ℕ → Num
  throughput v rate start end =
      over
        (over (times (times (decimal 1 0) rate) (of_int (pos v.segment_duration)))
          (of_int (div_ℤ (pos end -ℤ pos start) 1000)))
        (decimal 1000000 0)

  unfoldable pub get_next_quality :
      View Num → ℕ → ℕ → Panda Num → Option (AlgorithmReply × Panda Num)
  get_next_quality v now segment_count p =
      if segment_count == 0 then some (first_quality v p) else (do
        start ← back v.transmission_start
        end ← back v.transmission_end
        rate ← get_elem? v.average_bitrate p.last_video_index
        requested ← back v.transmission_requested
        let measured = throughput v rate start end in
            adapt v now end requested measured (
              if segment_count == 1
              then record p {
                last_bandwidth_share = measured;
                last_smooth_bandwidth_share = measured;
              }
              else p))
