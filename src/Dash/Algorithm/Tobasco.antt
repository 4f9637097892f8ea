-- ===== src/Dash/Algorithm/Tobasco.antt =====
-- TobascoAlgorithm of dash/dash_algorithm.cc.
use dash_dim.Prelude.{
  ◌>>=◌, ℕ, ◌+◌, ◌-◌, ◌*◌, ◌≤◌, ◌<◌, ◌≡◌, Bool, true, false, ◌&&◌, not, Option, some, List, [], ◌∷◌,
  ltb, leb, ◌==◌, if◌then◌else◌, length, get_elem?, get_elem?-Yields, Yields, Yields-bind, ◌⊎◌, inr,
  refl, arith, if-intro,
}
use dash_dim.Prelude.Int.{ℤ, pos, ltb_ℤ, ◌-ℤ◌, ◌*ℤ◌, max_ℤ}
use dash_dim.Dash.Algorithm.{Double, View, AlgorithmReply, reply, predict, IsTimed, predict-Yields}

-- The levels of the buffer, in microseconds.
abbrev b_min : ℤ
b_min = pos 10000000

abbrev b_low : ℤ
b_low = pos 20000000

abbrev b_high : ℤ
b_high = pos 40000000

abbrev b_opt : ℤ
b_opt = pos 30000000

-- BufferInc: no level is below the one before it.
unfoldable pub increasing_from : ℤ → List ℤ → Bool
increasing_from last [] = true
increasing_from last (buffer_level ∷ levels) =
    let more = increasing_from buffer_level levels in
    if ltb_ℤ buffer_level last then false else more

unfoldable pub buffer_inc : List ℤ → Bool
buffer_inc levels = increasing_from (pos 0) levels

abbrev pub answer : ℕ → ℤ → AlgorithmReply
answer next_quality delay = record { next_quality = next_quality; next_download_delay = delay }

-- The qualities next to the current one.
abbrev pub up_index : ℕ → ℕ → ℕ
up_index rates_size cur = if ltb (cur + 1) rates_size then cur + 1 else cur

abbrev pub down_index : ℕ → ℕ
down_index cur = if leb 1 cur then cur - 1 else cur

-- A reply keeps the range and, unless it falls to the lowest quality, moves by one at most.
abbrev pub IsNear : ℕ → ℕ → ℕ → Type 0
IsNear size cur next = (next < size) × (next ≤ cur + 1) × ((cur ≤ next + 1) ⊎ (next ≡ 0))

abbrev pub IsStep : ℕ → ℕ → AlgorithmReply → Type 0
IsStep size cur r = IsNear size cur r.next_quality

module _ (d : Double) where
  open d use {Num, times, at_most, decimal}

  -- The branch of the fast start. `affords` compares the rate above with a share of the estimate.
  unfoldable pub fast_start : Num → Num → ℤ → ℤ → ℕ → ℕ → AlgorithmReply
  fast_start bitrate_est rate_up b_t taf cur up =
      if ltb_ℤ b_t b_min
      then answer (if at_most rate_up (times (decimal 33 2) bitrate_est) then up else cur) (pos 0)
      else if ltb_ℤ b_t b_low
      then answer (if at_most rate_up (times (decimal 5 1) bitrate_est) then up else cur) (pos 0)
      else answer (if at_most rate_up (times (decimal 75 2) bitrate_est) then up else cur)
          (if ltb_ℤ b_high b_t then b_high -ℤ taf else pos 0)

  -- The branch after it. `a >= b` is `b <= a`.
  unfoldable pub steady : Num → Num → Num → ℤ → ℤ → ℕ → ℕ → ℕ → AlgorithmReply
  steady bitrate_est curr_rate rate_up b_t taf rates_size cur up =
      let too_fast = at_most (times (decimal 9 1) bitrate_est) rate_up in
      let waits = (if cur + 1 == rates_size then true else too_fast) in
      if ltb_ℤ b_t b_min
      then answer 0 (pos 0)
      else if ltb_ℤ b_t b_low
      then answer (if not (cur == 0) && at_most bitrate_est curr_rate then down_index cur else cur)
          (pos 0)
      else if ltb_ℤ b_t b_high
      then answer cur (if waits then max_ℤ (b_t -ℤ taf) b_opt else pos 0)
      else if waits
      then answer cur (max_ℤ (b_t -ℤ taf) b_opt)
      else answer up (pos 0)

  -- The test of the fast start.
  abbrev starts_fast : View Num → Num → Num → ℕ → Bool → Bool
  starts_fast v bitrate_est curr_rate cur running =
      running
      && not (cur + 1 == length v.average_bitrate)
      && buffer_inc v.buffer_level_new
      && at_most curr_rate (times (decimal 75 2) bitrate_est)

  -- GetNextQuality, with `m_running_fast_start` before and after.
  unfoldable pub get_next_quality : View Num → ℕ → ℕ → Bool → Option (AlgorithmReply × Bool)
  get_next_quality v pre_quality segment_count running =
      if segment_count == 0 then some (reply, running) else (do
        bitrate_est ← predict d v 5
        curr_rate ← get_elem? v.average_bitrate pre_quality
        rate_up ← get_elem? v.average_bitrate (up_index (length v.average_bitrate) pre_quality)
        let b_t = v.buffer_level_ms *ℤ pos 1000 in
            let taf = pos (v.segment_duration * 1000) in
            let up = up_index (length v.average_bitrate) pre_quality in
            if starts_fast v bitrate_est curr_rate pre_quality running
            then some (fast_start bitrate_est rate_up b_t taf pre_quality up, true)
            else some (
              steady bitrate_est curr_rate rate_up b_t taf (length v.average_bitrate) pre_quality
                  up,
              false,
            ))

  fast_start-IsStep :
      (est rate_up : Num) (b_t taf : ℤ) (cur size : ℕ)
      → cur < size
      → IsStep size cur (fast_start est rate_up b_t taf cur (up_index size cur))
  unfolding fast_start
  fast_start-IsStep est rate_up b_t taf cur size h =
      if-intro (ltb_ℤ b_t b_min) (IsStep size cur) (λ _. stays_or_up _)
        (λ _.
          if-intro (ltb_ℤ b_t b_low) (IsStep size cur) (λ _. stays_or_up _) (λ _. stays_or_up _))
    where
      stays_or_up : (b : Bool) → IsNear size cur (if b then up_index size cur else cur)
      stays_or_up b = ground arith

  steady-IsStep :
      (est curr_rate rate_up : Num) (b_t taf : ℤ) (cur size : ℕ)
      → cur < size
      → IsStep size cur (steady est curr_rate rate_up b_t taf size cur (up_index size cur))
  unfolding steady
  steady-IsStep est curr_rate rate_up b_t taf cur size h =
      if-intro (ltb_ℤ b_t b_min) (IsStep size cur) (λ _. ground arith)
        (λ _.
          if-intro (ltb_ℤ b_t b_low) (IsStep size cur) (λ _. down _)
            (λ _.
              if-intro (ltb_ℤ b_t b_high) (IsStep size cur) (λ _. ground arith)
                (λ _.
                  if-intro
                    (if cur + 1 == size then true else at_most (times (decimal 9 1) est) rate_up)
                    (IsStep size cur) (λ _. ground arith) (λ _. ground arith))))
    where
      down : (b : Bool) → IsNear size cur (if b then down_index cur else cur)
      down b = ground arith

  -- Tobasco, where the current quality exists and each logged segment ended after it started,
  -- for any floating point: it answers a quality of the video that is one step up at most, and
  -- one step down at most or the lowest.
  pub tobasco-IsStep :
      (v : View Num) (pre_quality segment_count : ℕ) (running : Bool)
      → pre_quality < length v.average_bitrate
      → IsTimed v.transmission_start v.transmission_end v.bytes_received
      → Yields
          (λ r. IsStep (length v.average_bitrate) pre_quality r.0)
          (get_next_quality v pre_quality segment_count running)
  unfolding get_next_quality reply
  tobasco-IsStep v pre_quality segment_count running h timed =
      if-intro (segment_count == 0) (Yields Step) (λ _. (h', omega arith, inr refl))
        (λ _.
          Yields-bind (λ (est : Num). Unit {0}) Step (predict d v 5) _ (predict-Yields d v 5 timed)
            (λ est _.
              Yields-bind (λ (rate : Num). Unit {0}) Step (get_elem? v.average_bitrate pre_quality)
                _ (get_elem?-Yields v.average_bitrate pre_quality h)
                (λ curr_rate _.
                  Yields-bind (λ (rate : Num). Unit {0}) Step
                    (get_elem? v.average_bitrate (up_index size pre_quality)) _
                    (get_elem?-Yields v.average_bitrate (up_index size pre_quality) up)
                    (λ rate_up _.
                      if-intro (starts_fast v est curr_rate pre_quality running) (Yields Step)
                        (λ _. fast_start-IsStep est rate_up _ _ pre_quality size h)
                        (λ _. steady-IsStep est curr_rate rate_up _ _ pre_quality size h)))))
    where
      size : ℕ
      size = length v.average_bitrate

      Step : AlgorithmReply × Bool → Type 0
      Step r = IsStep size pre_quality r.0

      h' : 0 < size
      h' = omega arith

      up : up_index size pre_quality < size
      up = ground arith
