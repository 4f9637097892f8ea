-- ===== src/Dash/Algorithm/Raahs.antt =====
-- RaahsAlgorithm of dash/dash_algorithm.cc. The loop that looks for a lower quality counts down with a
-- uint32_t, whose test `i>=0` never fails.
use dash_dim.Prelude.{
  ◌>>=◌, back, back_nonempty, ℕ, zero, suc, ◌+◌, ◌≤◌, ◌<◌, ◌≡◌, Bool, true, false, Option, none,
  some, List, [], ◌∷◌, ltb, ◌==◌, if◌then◌else◌, length, get_elem?, get_elem?-Yields, Yields,
  Yields-bind, Yields-map, ◌⊎◌, inl, inr, arith, if-intro, ==→≡,
}
use dash_dim.Prelude.Int.{ℤ, pos, ltb_ℤ, ◌-ℤ◌, ◌*ℤ◌, div_ℤ}
use dash_dim.Dash.Algorithm.{Double, View, AlgorithmReply, reply, max_num}

-- In range, and one step up at most.
abbrev pub IsNext : ℕ → ℕ → ℕ → Type 0
IsNext size cur next = (next < size) × (next ≤ cur + 1)

module _ (d : Double) where
  open d use {Num, plus, minus, times, over, less, of_int, to_int, decimal}

  -- The greatest relative step between two rates that follow each other.
  unfoldable pub epsilon_loop : Num → List Num → Num
  epsilon_loop epsilon [] = epsilon
  epsilon_loop epsilon (rate ∷ []) = epsilon
  epsilon_loop epsilon (rate ∷ (above ∷ rates)) =
      epsilon_loop (max_num d epsilon (over (minus above rate) rate)) (above ∷ rates)

  -- The search from quality `i - 1` down. Below 0 the index is 2^32 - 1.
  unfoldable pub lower_quality : Num → List Num → ℕ → Option ℕ
  lower_quality bound rates zero = none
  lower_quality bound rates (suc i) =
      let more = lower_quality bound rates i in
      do rate ← get_elem? rates i; (if less rate bound then some i else more)

  -- The branches on the ratio `mi`.
  unfoldable pub switch : Num → List Num → ℕ → Num → Option ℕ
  switch mi rates pre_quality rate =
      let down = lower_quality (times mi rate) rates pre_quality in
      if less (plus (decimal 1 0) (epsilon_loop (decimal 0 0) rates)) mi
      then some (if ltb (pre_quality + 1) (length rates) then pre_quality + 1 else pre_quality)
      else if less mi (decimal 67 2)
      then down
      else some pre_quality

  -- Milliseconds to wait until the buffer is down to what a segment at the rate `rate` takes.
  unfoldable pub idle : View Num → Num → Num → ℤ
  idle v rate lowest =
      let temp = over (times rate (of_int (pos v.segment_duration))) lowest in
      v.buffer_level_ms -ℤ pos 9000 -ℤ to_int temp

  abbrev pub ratio : View Num → ℕ → ℕ → Num
  ratio v start end =
      over (times (decimal 1 0) (of_int (pos v.segment_duration)))
        (times (decimal 1 0) (of_int (div_ℤ (pos end -ℤ pos start) 1000)))

  unfoldable pub get_next_quality : View Num → ℕ → ℕ → Option AlgorithmReply
  get_next_quality v pre_quality segment_count =
      if segment_count == 0
      then some reply
      else if ltb 0 (length v.transmission_end)
      then (do
        start ← back v.transmission_start
        end ← back v.transmission_end
        rate ← get_elem? v.average_bitrate pre_quality
        lowest ← get_elem? v.average_bitrate 0
        next ← switch (ratio v start end) v.average_bitrate pre_quality rate
        let delay = idle v rate lowest in
            some (record {
              next_quality = next;
              next_download_delay = if ltb_ℤ (pos 0) delay then delay *ℤ pos 1000 else pos 0;
            }))
      else some reply

  -- The search ends above 0 if the lowest rate is below the bound.
  lower_quality-Yields :
      (bound lowest : Num) (rates : List Num) (i : ℕ)
      → get_elem? rates 0 ≡ some lowest
      → less lowest bound ≡ true
      → 0 < i
      → i ≤ length rates
      → Yields (λ n. n < i) (lower_quality bound rates i)
  unfolding lower_quality
  lower_quality-Yields bound lowest rates zero e low h small = absurd (omega arith)
  lower_quality-Yields bound lowest rates (suc zero) e low h small = rw (e, low) (omega arith)
  lower_quality-Yields bound lowest rates (suc (suc i)) e low h small =
      Yields-bind (λ (x : Num). Unit {0}) (λ n. n < suc (suc i)) (get_elem? rates (suc i)) _
        (get_elem?-Yields rates (suc i) (omega arith))
        (λ rate _.
          if-intro (less rate bound) (Yields (λ n. n < suc (suc i))) (λ _. omega arith)
            (λ _.
              Yields-map (λ n. n < suc i) (λ n. n < suc (suc i)) (lower_quality bound rates (suc i))
                (lower_quality-Yields bound lowest rates (suc i) e low (omega arith) (omega arith))
                (λ n less_. omega arith)))

  -- The rate does not fall, or there is a lower one that is low enough.
  abbrev pub HasLower : Num → Num → Num → ℕ → Type 0
  HasLower mi rate lowest pre_quality =
      (less mi (decimal 67 2) ≡ false) ⊎ ((0 < pre_quality) × (less lowest (times mi rate) ≡ true))

  switch-IsNext :
      (mi rate lowest : Num) (rates : List Num) (pre_quality : ℕ)
      → pre_quality < length rates
      → get_elem? rates 0 ≡ some lowest
      → HasLower mi rate lowest pre_quality
      → Yields (IsNext (length rates) pre_quality) (switch mi rates pre_quality rate)
  unfolding switch
  switch-IsNext mi rate lowest rates pre_quality h e lower =
      if-intro (less (plus (decimal 1 0) (epsilon_loop (decimal 0 0) rates)) mi)
        (Yields (IsNext (length rates) pre_quality)) (λ _. ground arith)
        (λ _.
          if-intro (less mi (decimal 67 2)) (Yields (IsNext (length rates) pre_quality))
            (λ slow. elim lower [
              | inl fast ↦ absurd (Bool-clash slow fast)
              | inr (above, low) ↦
                  Yields-map (λ n. n < pre_quality) (IsNext (length rates) pre_quality)
                    (lower_quality (times mi rate) rates pre_quality)
                    (lower_quality-Yields (times mi rate) lowest rates pre_quality e low above
                      (omega arith))
                    (λ n less_. (omega arith, omega arith))
            ])
            (λ _. (h, omega arith)))
    where
      Bool-clash : {b : Bool} → b ≡ true → b ≡ false → ⊥
      Bool-clash yes_ no_ = ground arith

  known_lt :
      (rates : List Num) (i : ℕ) {rate : Num} → get_elem? rates i ≡ some rate → i < length rates
  known_lt [] i e = absurd (ground arith)
  known_lt (r ∷ rates) zero e = omega arith
  known_lt (r ∷ rates) (suc i) e = omega (arith, known_lt rates i e)

  ended :
      (v : View Num) {end : ℕ}
      → back v.transmission_end ≡ some end
      → ltb 0 (length v.transmission_end) ≡ false
      → ⊥
  ended v e none_ =
      let some_ : 0 < length v.transmission_end = back_nonempty v.transmission_end e in ground arith

  -- Raahs after the first segment, with a last segment in the logs and a current quality that
  -- exists, for any floating point: if the last segment came fast enough not to switch down,
  -- or the lowest rate is below the bound that the search looks for and the current quality is
  -- not the lowest, it answers a quality of the video that is one step up at most.
  pub raahs-IsNext :
      (v : View Num) (pre_quality segment_count start end : ℕ) (rate lowest : Num)
      → 0 < segment_count
      → back v.transmission_start ≡ some start
      → back v.transmission_end ≡ some end
      → get_elem? v.average_bitrate pre_quality ≡ some rate
      → get_elem? v.average_bitrate 0 ≡ some lowest
      → HasLower (ratio v start end) rate lowest pre_quality
      → Yields
          (λ r. IsNext (length v.average_bitrate) pre_quality r.next_quality)
          (get_next_quality v pre_quality segment_count)
  unfolding get_next_quality
  raahs-IsNext v pre_quality segment_count start end rate lowest n s e r low lower =
      if-intro (segment_count == 0) (Yields Chosen)
        (λ zero_. absurd (omega (arith, ==→≡ _ _ zero_)))
        (λ _.
          if-intro (ltb 0 (length v.transmission_end)) (Yields Chosen)
            (λ _.
              rw (s, e, r, low)
                (Yields-bind (IsNext (length v.average_bitrate) pre_quality) Chosen
                  (switch (ratio v start end) v.average_bitrate pre_quality rate) _
                  (switch-IsNext (ratio v start end) rate lowest v.average_bitrate pre_quality
                    (known_lt v.average_bitrate pre_quality r) low lower)
                  (λ next near. near)))
            (λ none_. absurd (ended v e none_)))
    where
      Chosen : AlgorithmReply → Type 0
      Chosen reply_ = IsNext (length v.average_bitrate) pre_quality reply_.next_quality
