-- ===== src/Dash/Algorithm/Svaa.antt =====
-- SvaaAlgorithm of dash/dash_algorithm.cc.
use dash_dim.Prelude.{
  ◌>>=◌, ℕ, zero, suc, ◌+◌, ◌-◌, ◌/◌, ◌≤◌, ◌<◌, Bool, Option, some, List, ltb, ◌==◌, if◌then◌else◌,
  length, get_elem?, get_elem?-Yields, Yields, Yields-bind, Yields-map, arith, if-intro,
}
use dash_dim.Prelude.Int.{ℤ, pos, div_ℤ}
use dash_dim.Dash.Algorithm.{Double, View, AlgorithmReply, reply, predict, IsTimed, predict-Yields}

-- `m_m_k_1`, `m_m_k_2` and `m_counter`.
pub record Svaa : Type 0 where
  pub m_k_1 : ℕ
  pub m_k_2 : ℕ
  pub counter : ℕ

-- SvaaAlgorithm's constructor.
unfoldable pub svaa : Svaa
svaa = record { m_k_1 = 0; m_k_2 = 0; counter = 0 }

abbrev answer : ℕ → Svaa → AlgorithmReply × Svaa
answer next s = (record { next_quality = next; next_download_delay = pos 0 }, s)

module _ (d : Double) where
  open d use {Num, plus, minus, times, over, less, at_most, exp, of_int, decimal}

  -- The two `while` loops for a rate that is not above `bandwidth`, from index `i` down.
  unfoldable pub affordable : List Num → Num → ℕ → Option ℕ
  affordable rates bandwidth zero = do rate ← get_elem? rates 0; some 0
  affordable rates bandwidth (suc i) =
      let lower = affordable rates bandwidth i in
      do rate ← get_elem? rates (suc i); (if less bandwidth rate then lower else some (suc i))

  abbrev seconds : ℤ → Num
  seconds ms = over (times (decimal 1 0) (of_int ms)) (of_int (pos 1000))

  -- The adjustment factor, f_q * f_t * f_u.
  unfoldable pub factor : Num → Num → Num → Num → Num
  factor q_tk q_ref diff delta =
      let e = exp (times (decimal 1 0) (minus q_tk q_ref)) in
      let f_q = over (times (of_int (pos 2)) e) (plus (of_int (pos 1)) e) in
      let f_t = over delta (minus delta diff) in times (times f_q f_t) (of_int (pos 1))

  -- How long to wait before a switch up: `m_k`.
  unfoldable pub patience : Num → Num → ℕ
  patience diff delta =
      if at_most (times (decimal 4 1) delta) diff
      then 1
      else if at_most (times (decimal 2 1) delta) diff
      then 5
      else if at_most (of_int (pos 0)) diff
      then 15
      else 20

  -- The branches on the buffer and on the rate `u_k` that it suggests.
  unfoldable pub decide :
      List Num → ℕ → ℕ → Bool → Num → Num → Num → Svaa → Option (AlgorithmReply × Svaa)
  decide rates pre_quality m is_low t_k u_k curr_rate s =
      let best = affordable rates t_k (length rates - 1) in
      if is_low
      then (do next ← best; some (answer next s))
      else if less curr_rate u_k
      then (if ltb m (s.counter + 1)
          then (do next ← best; some (answer next (record s { counter = 0 })))
          else some (answer pre_quality (record s { counter = s.counter + 1 })))
      else if less u_k curr_rate
      then some (answer pre_quality (record s { counter = 0 }))
      else some (answer pre_quality s)

  -- GetNextQuality.
  unfoldable pub get_next_quality : ℤ → View Num → ℕ → ℕ → Svaa → Option (AlgorithmReply × Svaa)
  get_next_quality target_buffer v pre_quality segment_count s =
      if segment_count == 0 then some (reply, s) else (do
        t_k ← predict d v 5
        curr_rate ← get_elem? v.average_bitrate pre_quality
        let diff = seconds v.buffer_diff_ms in
            let q_tk = seconds v.buffer_level_ms in
            let q_ref = of_int (div_ℤ target_buffer 1000) in
            let delta = seconds (pos v.segment_duration) in
            let m_k = patience diff delta in
            decide v.average_bitrate pre_quality ((m_k + s.m_k_1 + s.m_k_2) / 3)
              (less q_tk (over q_ref (of_int (pos 2)))) t_k
              (times (factor q_tk q_ref diff delta) t_k) curr_rate
              (record s { m_k_2 = s.m_k_1; m_k_1 = m_k }))

  affordable-Yields :
      (rates : List Num) (bandwidth : Num) (i : ℕ)
      → i < length rates
      → Yields (λ n. n ≤ i) (affordable rates bandwidth i)
  unfolding affordable
  affordable-Yields rates bandwidth zero h =
      Yields-bind (λ (x : Num). Unit {0}) (λ n. n ≤ 0) (get_elem? rates 0) _
        (get_elem?-Yields rates 0 h) (λ rate _. omega arith)
  affordable-Yields rates bandwidth (suc i) h =
      Yields-bind (λ (x : Num). Unit {0}) (λ n. n ≤ suc i) (get_elem? rates (suc i)) _
        (get_elem?-Yields rates (suc i) h)
        (λ rate _.
          if-intro (less bandwidth rate) (Yields (λ n. n ≤ suc i))
            (λ _.
              Yields-map (λ n. n ≤ i) (λ n. n ≤ suc i) (affordable rates bandwidth i)
                (affordable-Yields rates bandwidth i (omega arith)) (λ n small. omega arith))
            (λ _. omega arith))

  abbrev pub InRange : ℕ → AlgorithmReply × Svaa → Type 0
  InRange size r = r.0.next_quality < size

  decide-Yields :
      (rates : List Num) (pre_quality m : ℕ) (is_low : Bool) (t_k u_k curr_rate : Num) (s : Svaa)
      → pre_quality < length rates
      → Yields (InRange (length rates)) (decide rates pre_quality m is_low t_k u_k curr_rate s)
  unfolding decide
  decide-Yields rates pre_quality m is_low t_k u_k curr_rate s h =
      if-intro is_low (Yields (InRange (length rates))) (λ _. best s)
        (λ _.
          if-intro (less curr_rate u_k) (Yields (InRange (length rates)))
            (λ _.
              if-intro (ltb m (s.counter + 1)) (Yields (InRange (length rates)))
                (λ _. best (record s { counter = 0 })) (λ _. h))
            (λ _.
              if-intro (less u_k curr_rate) (Yields (InRange (length rates))) (λ _. h) (λ _. h)))
    where
      best :
          (s' : Svaa)
          → Yields
              (InRange (length rates))
              (affordable rates t_k (length rates - 1) >>= λ next. some (answer next s'))
      best s' =
          Yields-bind (λ n. n ≤ length rates - 1) (InRange (length rates))
            (affordable rates t_k (length rates - 1)) (λ next. some (answer next s'))
            (affordable-Yields rates t_k (length rates - 1) (omega arith)) (λ n small. omega arith)

  pub svaa-Yields :
      (target_buffer : ℤ) (v : View Num) (pre_quality segment_count : ℕ) (s : Svaa)
      → pre_quality < length v.average_bitrate
      → IsTimed v.transmission_start v.transmission_end v.bytes_received
      → Yields
          (InRange (length v.average_bitrate))
          (get_next_quality target_buffer v pre_quality segment_count s)
  unfolding get_next_quality reply
  svaa-Yields target_buffer v pre_quality segment_count s h timed =
      if-intro (segment_count == 0) (Yields (InRange (length v.average_bitrate))) (λ _. omega arith)
        (λ _.
          Yields-bind (λ (x : Num). Unit {0}) (InRange (length v.average_bitrate)) (predict d v 5) _
            (predict-Yields d v 5 timed)
            (λ t_k _.
              Yields-bind (λ (x : Num). Unit {0}) (InRange (length v.average_bitrate))
                (get_elem? v.average_bitrate pre_quality) _
                (get_elem?-Yields v.average_bitrate pre_quality h)
                (λ curr_rate _.
                  decide-Yields v.average_bitrate pre_quality _ _ t_k _ curr_rate _ h)))
