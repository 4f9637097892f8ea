-- ===== src/Dash/Algorithm/Fdash.antt =====
-- FdashAlgorithm of dash/dash_algorithm.cc: fuzzy rules on the level of the buffer and on its trend.
use dash_dim.Prelude.{
  ◌>>=◌, ℕ, ◌+◌, ◌≤◌, ◌<◌, Option, some, List, [], ◌∷◌, ◌==◌, if◌then◌else◌, length, get_elem?,
  get_elem?-Yields, Yields, Yields-bind, arith, if-intro,
}
use dash_dim.Prelude.Int.{ℤ, pos, negsuc, ◌*ℤ◌}
use dash_dim.Dash.Algorithm.{
  Double, View, AlgorithmReply, reply, predict, min_num, IsTimed, predict-Yields,
}

-- How far three of the fuzzy sets hold: slow, ok and fast, or falling, steady and rising.
pub record Degrees (Num : Type 0) : Type 0 where
  pub low : Num
  pub middle : Num
  pub high : Num

module _ (d : Double) where
  open d use {Num, plus, minus, times, over, less, of_int, to_int, decimal, pow, sqrt}

  abbrev num : ℕ → Num
  num n = of_int (pos n)

  -- `1 / span * offset`.
  abbrev slope : Num → Num → Num
  slope span offset = times (over (num 1) span) offset

  abbrev two_thirds : Num → Num
  two_thirds t = over (times (num 2) t) (num 3)

  -- slow, ok and fast.
  unfoldable pub closeness : Num → Num → Degrees Num
  closeness t curr_dt =
      let near = slope (over t (num 3)) (minus curr_dt (two_thirds t)) in
      let far = slope (times (num 3) t) (minus curr_dt t) in
      if less curr_dt (two_thirds t)
      then record { low = num 1; middle = num 0; high = num 0 }
      else if less curr_dt t
      then record { low = minus (num 1) near; middle = near; high = num 0 }
      else if less curr_dt (times (num 4) t)
      then record { low = num 0; middle = minus (num 1) far; high = far }
      else record { low = num 0; middle = num 0; high = num 1 }

  -- falling, steady and rising.
  unfoldable pub trend : Num → Num → Degrees Num
  trend t diff =
      let recovers = slope (two_thirds t) (plus diff (two_thirds t)) in
      let grows = slope (times (num 4) t) diff in
      if less diff (over (times (of_int (negsuc 1)) t) (num 3))
      then record { low = num 1; middle = num 0; high = num 0 }
      else if less diff (num 0)
      then record { low = minus (num 1) recovers; middle = recovers; high = num 0 }
      else if less diff (times (num 4) t)
      then record { low = num 0; middle = minus (num 1) grows; high = grows }
      else record { low = num 0; middle = num 0; high = num 1 }

  abbrev square : Num → Num
  square a = pow a (num 2)

  -- The nine rules r1 to r9 and their weighted sum.
  unfoldable pub output : Degrees Num → Degrees Num → Num
  output level change =
      let r1 = min_num d level.low change.low in
      let r2 = min_num d level.middle change.low in
      let r3 = min_num d level.high change.low in
      let r4 = min_num d level.low change.middle in
      let r5 = min_num d level.middle change.middle in
      let r6 = min_num d level.high change.middle in
      let r7 = min_num d level.low change.high in
      let r8 = min_num d level.middle change.high in
      let r9 = min_num d level.high change.high in
      let p2 = sqrt (square r9) in
      let p1 = sqrt (plus (square r6) (square r8)) in
      let z = sqrt (plus (plus (square r3) (square r5)) (square r7)) in
      let n1 = sqrt (plus (square r2) (square r4)) in
      let n2 = sqrt (square r1) in
      over
        (plus
          (plus (plus (plus (times n2 (decimal 25 2)) (times n1 (decimal 5 1))) (times z (num 1)))
            (times p1 (num 2)))
          (times p2 (num 4)))
        (plus (plus (plus (plus n2 n1) z) p1) p2)

  -- The last quality whose rate is below `result`, from index `i` on.
  unfoldable pub choose_loop : Num → ℕ → ℕ → List Num → ℕ
  choose_loop result i next [] = next
  choose_loop result i next (rate ∷ rates) =
      choose_loop result (i + 1) (if less rate result then i else next) rates

  -- The level that the buffer is to have in a minute, and the quality that this allows.
  unfoldable pub t_60 : Num → Num → Num → Num
  t_60 curr_dt bitrate_est rate =
      plus curr_dt (times (minus (over bitrate_est rate) (num 1)) (num 60))

  unfoldable pub hold : Num → Num → Num → ℕ → ℕ → Num → Num → ℕ
  hold t curr_dt bitrate_est next_quality pre_quality next_rate rate =
      if less rate next_rate
      then if less (t_60 curr_dt bitrate_est next_rate) t then pre_quality else next_quality
      else if less next_rate rate
      then if less t (t_60 curr_dt bitrate_est next_rate) then pre_quality else next_quality
      else next_quality

  -- The pause at the highest quality, in microseconds.
  unfoldable pub pause : View Num → Num → Num → Num → Num → ℤ
  pause v t curr_dt bitrate_est rate =
      let time_to_download =
        over (over (times rate (num v.segment_duration)) (decimal 1000 0)) bitrate_est in
      let sleep_time = minus (minus curr_dt t) time_to_download in
      if less (num 0) sleep_time then to_int (times sleep_time (num 1000)) *ℤ pos 1000 else pos 0

  -- GetNextQuality.
  unfoldable pub get_next_quality : ℤ → View Num → ℕ → ℕ → Option AlgorithmReply
  get_next_quality target_buffer v pre_quality segment_count =
      if segment_count == 0 then some reply else (do
        bitrate_est ← predict d v 5
        let t = over (of_int target_buffer) (num 1000) in
            let curr_dt = over (of_int v.buffer_level_ms) (num 1000) in
            let diff = over (of_int v.buffer_diff_ms) (num 1000) in
            let result = times (output (closeness t curr_dt) (trend t diff)) bitrate_est in
            let chosen = choose_loop result 0 pre_quality v.average_bitrate in
            do
              chosen_rate ← get_elem? v.average_bitrate chosen
              rate ← get_elem? v.average_bitrate pre_quality
              let next = hold t curr_dt bitrate_est chosen pre_quality chosen_rate rate in
                  do
                    next_rate ← get_elem? v.average_bitrate next
                    some (record {
                      next_quality = next;
                      next_download_delay =
                          if next + 1 == length v.average_bitrate
                          then pause v t curr_dt bitrate_est next_rate
                          else pos 0;
                    }))

  choose_loop-lt :
      (result : Num) (i next size : ℕ) (rates : List Num)
      → next < size
      → i + length rates ≤ size
      → choose_loop result i next rates < size
  unfolding choose_loop
  choose_loop-lt result i next size [] h k = h
  choose_loop-lt result i next size (rate ∷ rates) h k =
      choose_loop-lt result (i + 1) _ size rates
        (if-intro (less rate result) (λ (n : ℕ). n < size) (λ _. omega arith) (λ _. h))
        (omega arith)

  hold-lt :
      (t curr_dt est : Num) (next pre size : ℕ) (next_rate rate : Num)
      → next < size
      → pre < size
      → hold t curr_dt est next pre next_rate rate < size
  unfolding hold
  hold-lt t curr_dt est next pre size next_rate rate h k =
      if-intro (less rate next_rate) (λ (n : ℕ). n < size)
        (λ _.
          if-intro (less (t_60 curr_dt est next_rate) t) (λ (n : ℕ). n < size) (λ _. k) (λ _. h))
        (λ _.
          if-intro (less next_rate rate) (λ (n : ℕ). n < size)
            (λ _.
              if-intro (less t (t_60 curr_dt est next_rate)) (λ (n : ℕ). n < size) (λ _. k)
                (λ _. h))
            (λ _. h))

  pub fdash-Yields :
      (target_buffer : ℤ) (v : View Num) (pre_quality segment_count : ℕ)
      → pre_quality < length v.average_bitrate
      → IsTimed v.transmission_start v.transmission_end v.bytes_received
      → Yields
          (λ r. r.next_quality < length v.average_bitrate)
          (get_next_quality target_buffer v pre_quality segment_count)
  unfolding get_next_quality reply
  fdash-Yields target_buffer v pre_quality segment_count h timed =
      if-intro (segment_count == 0) (Yields InRange) (λ _. omega arith)
        (λ _.
          Yields-bind (λ (x : Num). Unit {0}) InRange (predict d v 5) _ (predict-Yields d v 5 timed)
            (λ est _.
              Yields-bind (λ (x : Num). Unit {0}) InRange (get_elem? v.average_bitrate _) _
                (get_elem?-Yields v.average_bitrate _ (chosen_lt _))
                (λ chosen_rate _.
                  Yields-bind (λ (x : Num). Unit {0}) InRange
                    (get_elem? v.average_bitrate pre_quality) _
                    (get_elem?-Yields v.average_bitrate pre_quality h)
                    (λ rate _.
                      Yields-bind (λ (x : Num). Unit {0}) InRange (get_elem? v.average_bitrate _) _
                        (get_elem?-Yields v.average_bitrate _
                          (hold-lt _ _ est _ pre_quality size chosen_rate rate (chosen_lt _) h))
                        (λ next_rate _.
                          hold-lt _ _ est _ pre_quality size chosen_rate rate (chosen_lt _) h)))))
    where
      size : ℕ
      size = length v.average_bitrate

      InRange : AlgorithmReply → Type 0
      InRange r = r.next_quality < size

      chosen_lt : (result : Num) → choose_loop result 0 pre_quality v.average_bitrate < size
      chosen_lt result = choose_loop-lt result 0 pre_quality size v.average_bitrate h (omega arith)
