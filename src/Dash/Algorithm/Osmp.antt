-- ===== src/Dash/Algorithm/Osmp.antt =====
-- OsmpAlgorithm of dash/dash_algorithm.cc.
use dash_dim.Prelude.{
  ◌>>=◌, back, back-Yields, ℕ, zero, suc, ◌+◌, ◌-◌, ◌≤◌, ◌<◌, Bool, true, Option, none, some, List,
  ltb, ◌==◌, if◌then◌else◌, length, get_elem?, get_elem?-Yields, Yields, Yields-bind, arith,
  if-intro, ltb→lt, ==→≢,
}
use dash_dim.Prelude.Int.{pos, ◌-ℤ◌, div_ℤ}
use dash_dim.Dash.Algorithm.{Double, View, AlgorithmReply, reply}

module _ (d : Double) where
  open d use {Num, times, over, less, of_int, decimal}

  -- `(1.0*a)/b`.
  abbrev ratio : Num → Num → Num
  ratio a b = over (times (decimal 1 0) a) b

  -- The last segment took less time to play than to come.
  unfoldable pub step_down : Num → List Num → ℕ → Option ℕ
  step_down r_download rates l_cur =
      if ltb 0 l_cur
      then (do
        below ← get_elem? rates (l_cur - 1)
        current ← get_elem? rates l_cur
        some (if less r_download (ratio below current) then 0 else l_cur - 1))
      else some 0

  -- The do-while loop from `l_nxt` on; `fuel` bounds its rounds.
  unfoldable pub climb : ℕ → Num → Num → List Num → ℕ → Option ℕ
  climb zero r_download current rates l_nxt = none
  climb (suc fuel) r_download current rates l_nxt =
      let more = climb fuel r_download current rates (l_nxt + 1) in
      if l_nxt + 1 + 1 == length rates then some (l_nxt + 1) else (do
        above ← get_elem? rates (l_nxt + 1 + 1)
        (if less r_download (ratio above current) then some (l_nxt + 1) else more))

  -- The test before the loop.
  unfoldable pub may_climb : Num → Num → List Num → ℕ → Option Bool
  may_climb r_download current rates l_cur =
      if l_cur == 0
      then some true
      else (do below ← get_elem? rates (l_cur - 1); some (less (ratio below current) r_download))

  unfoldable pub step_up : Num → List Num → ℕ → Option ℕ
  step_up r_download rates l_cur =
      if ltb (l_cur + 1) (length rates)
      then (do
        current ← get_elem? rates l_cur
        climbs ← may_climb r_download current rates l_cur
        (if climbs then climb (length rates) r_download current rates 0 else some 0))
      else some 0

  abbrev milliseconds : ℕ → ℕ → Num
  milliseconds start end = times (decimal 1 0) (of_int (div_ℤ (pos end -ℤ pos start) 1000))

  -- How many seconds of the video came in a second.
  abbrev pub download_ratio : View Num → ℕ → ℕ → Num
  download_ratio v start end =
      over (times (decimal 1 0) (of_int (pos v.segment_duration))) (milliseconds start end)

  unfoldable pub get_next_quality : View Num → ℕ → ℕ → Option AlgorithmReply
  get_next_quality v pre_quality segment_count =
      if segment_count == 0
      then some reply
      else if ltb 0 (length v.transmission_end)
      then (do
        start ← back v.transmission_start
        end ← back v.transmission_end
        next ←
            (if less (download_ratio v start end) (decimal 1 0)
              then step_down (download_ratio v start end) v.average_bitrate pre_quality
              else step_up (download_ratio v start end) v.average_bitrate pre_quality)
        some (record reply { next_quality = next }))
      else some reply

  step_down-Yields :
      (r : Num) (rates : List Num) (l_cur : ℕ)
      → l_cur < length rates
      → Yields (λ n. n < length rates) (step_down r rates l_cur)
  unfolding step_down
  step_down-Yields r rates l_cur h =
      if-intro (ltb 0 l_cur) (Yields (λ n. n < length rates))
        (λ _.
          Yields-bind (λ (x : Num). Unit {0}) (λ n. n < length rates) (get_elem? rates (l_cur - 1))
            _ (get_elem?-Yields rates (l_cur - 1) (omega arith))
            (λ below _.
              Yields-bind (λ (x : Num). Unit {0}) (λ n. n < length rates) (get_elem? rates l_cur) _
                (get_elem?-Yields rates l_cur h)
                (λ current _.
                  if-intro (less r (ratio below current)) (λ n. n < length rates) (λ _. omega arith)
                    (λ _. omega arith))))
        (λ _. omega arith)

  -- A round goes up by one, so that the number of qualities is enough fuel.
  climb-Yields :
      (fuel : ℕ) (r current : Num) (rates : List Num) (l_nxt : ℕ)
      → l_nxt + 1 < length rates
      → length rates ≤ fuel + l_nxt + 1
      → Yields (λ n. n < length rates) (climb fuel r current rates l_nxt)
  unfolding climb
  climb-Yields zero r current rates l_nxt h enough = absurd (omega arith)
  climb-Yields (suc fuel) r current rates l_nxt h enough =
      if-intro (l_nxt + 1 + 1 == length rates) (Yields (λ n. n < length rates)) (λ _. h)
        (λ e.
          let room : l_nxt + 1 + 1 < length rates = omega (arith, ==→≢ _ _ e) in
          Yields-bind (λ (x : Num). Unit {0}) (λ n. n < length rates)
            (get_elem? rates (l_nxt + 1 + 1)) _ (get_elem?-Yields rates (l_nxt + 1 + 1) room)
            (λ above _.
              if-intro (less r (ratio above current)) (Yields (λ n. n < length rates)) (λ _. h)
                (λ _. climb-Yields fuel r current rates (l_nxt + 1) room (omega arith))))

  step_up-Yields :
      (r : Num) (rates : List Num) (l_cur : ℕ)
      → l_cur < length rates
      → Yields (λ n. n < length rates) (step_up r rates l_cur)
  unfolding step_up may_climb
  step_up-Yields r rates l_cur h =
      if-intro (ltb (l_cur + 1) (length rates)) (Yields (λ n. n < length rates))
        (λ e.
          Yields-bind (λ (x : Num). Unit {0}) (λ n. n < length rates) (get_elem? rates l_cur) _
            (get_elem?-Yields rates l_cur h)
            (λ current _.
              Yields-bind (λ (b : Bool). Unit {0}) (λ n. n < length rates)
                (may_climb r current rates l_cur) _
                (if-intro (l_cur == 0) (Yields (λ (b : Bool). Unit {0})) (λ _. tt)
                  (λ _.
                    Yields-bind (λ (x : Num). Unit {0}) (λ (b : Bool). Unit {0})
                      (get_elem? rates (l_cur - 1)) _
                      (get_elem?-Yields rates (l_cur - 1) (omega arith)) (λ x _. tt)))
                (λ climbs _.
                  if-intro climbs (Yields (λ n. n < length rates))
                    (λ _.
                      climb-Yields (length rates) r current rates 0 (omega (arith, ltb→lt _ _ e))
                        (omega arith))
                    (λ _. omega arith))))
        (λ _. omega arith)

  -- Osmp, where the current quality exists and every end of a segment has its start, for any
  -- floating point: its do-while loop ends before it reads out of bounds, and the answer is a
  -- quality of the video.
  pub osmp-Yields :
      (v : View Num) (pre_quality segment_count : ℕ)
      → pre_quality < length v.average_bitrate
      → length v.transmission_end ≤ length v.transmission_start
      → Yields
          (λ r. r.next_quality < length v.average_bitrate)
          (get_next_quality v pre_quality segment_count)
  unfolding get_next_quality reply
  osmp-Yields v pre_quality segment_count h logs =
      if-intro (segment_count == 0) (Yields Chosen) (λ _. omega arith)
        (λ _.
          if-intro (ltb 0 (length v.transmission_end)) (Yields Chosen)
            (λ e.
              Yields-bind (λ (x : ℕ). Unit {0}) Chosen (back v.transmission_start) _
                (back-Yields v.transmission_start (omega (arith, ltb→lt _ _ e)))
                (λ start _.
                  Yields-bind (λ (x : ℕ). Unit {0}) Chosen (back v.transmission_end) _
                    (back-Yields v.transmission_end (ltb→lt _ _ e))
                    (λ end _.
                      Yields-bind (λ n. n < length v.average_bitrate) Chosen _ _
                        (if-intro (less (download_ratio v start end) (decimal 1 0))
                          (Yields (λ n. n < length v.average_bitrate))
                          (λ _. step_down-Yields _ v.average_bitrate pre_quality h)
                          (λ _. step_up-Yields _ v.average_bitrate pre_quality h))
                        (λ n less_. less_))))
            (λ _. omega arith))
    where
      Chosen : AlgorithmReply → Type 0
      Chosen r = r.next_quality < length v.average_bitrate
