-- ===== src/Dash/Algorithm/Festive/Gradual.antt =====
-- How far FestiveAlgorithm moves from one segment to the next.
use dash_dim.Prelude.{
  ℕ, zero, suc, ◌+◌, ◌-◌, ◌≤◌, ◌<◌, ◌≡◌, refl, true, some, List, ltb, ◌==◌, if◌then◌else◌, length,
  get_elem?, get_elem?-Yields, Yields, Yields-bind, Yields-map, ◌⊎◌, inl, inr, arith, if-intro, min,
  ltb→lt, lt→ltb, ==→≡, ==→≢, Bool-cases,
}
use dash_dim.Prelude.Int.{ℤ}
use dash_dim.Dash.Algorithm.{Double, View, AlgorithmReply, reply, predict, IsTimed, predict-Yields}
use dash_dim.Dash.Algorithm.Festive.{
  Target, combine_score, efficiency_score, find_target, get_next_quality, next_of, reference,
  switch_up_threshold, wait_for,
}

-- The quality, or one next to it; above it only if the rate asked for more `cur` times before.
abbrev IsReference : ℕ → ℕ → ℕ → ℕ → Type 0
IsReference size cur count b_ref =
    (b_ref ≡ cur) ⊎ (b_ref + 1 ≡ cur) ⊎ ((b_ref ≡ cur + 1) × (cur + 1 < size) × (cur ≤ count))

-- A step of one at most; a step up is earned, and the count starts again.
abbrev pub IsGradual : ℕ → ℕ → ℕ → ℕ × ℕ → Type 0
IsGradual size cur count (next, count') =
    (next < size)
    × (next ≤ cur + 1)
    × (cur ≤ next + 1)
    × ((next ≤ cur) ⊎ ((cur ≤ count) × (count' ≡ 0)))

reference-IsReference :
    (size b_target cur count : ℕ)
    → b_target < size
    → cur < size
    → size ≤ 11
    → Yields (λ r. IsReference size cur count r.0) (reference b_target cur count)
unfolding reference switch_up_threshold
reference-IsReference size b_target cur count h k few =
    if-intro (ltb cur b_target) (Yields (λ r. IsReference size cur count r.0))
      (λ more.
        let in_range : ltb cur 10 ≡ true = ground arith in
        rw (in_range, switch_up_threshold)
          (if-intro (ltb cur (count + 1)) (λ (b : ℕ). IsReference size cur count b)
            (λ earned.
              inr (inr (refl, omega (arith, ltb→lt _ _ more), omega (arith, ltb→lt _ _ earned))))
            (λ _. inl refl)))
      (λ _.
        if-intro (ltb b_target cur) (Yields (λ r. IsReference size cur count r.0))
          (λ less_. inr (inl (omega (arith, ltb→lt _ _ less_)))) (λ _. inl refl))

module _ (d : Double) where
  open d use {Num, times, at_most, decimal}

  find_target-Yields :
      (rates : List Num) (bitrate : Num) (i : ℕ)
      → i < length rates
      → Yields (λ n. n ≤ i) (find_target d rates bitrate i)
  unfolding find_target
  find_target-Yields rates bitrate zero h =
      Yields-bind (λ (x : Num). Unit {0}) (λ n. n ≤ 0) (get_elem? rates 0) _
        (get_elem?-Yields rates 0 h) (λ rate _. omega arith)
  find_target-Yields rates bitrate (suc i) h =
      Yields-bind (λ (x : Num). Unit {0}) (λ n. n ≤ suc i) (get_elem? rates (suc i)) _
        (get_elem?-Yields rates (suc i) h)
        (λ rate _.
          if-intro (at_most rate bitrate) (Yields (λ n. n ≤ suc i)) (λ _. omega arith)
            (λ _.
              Yields-map (λ n. n ≤ i) (λ n. n ≤ suc i) (find_target d rates bitrate i)
                (find_target-Yields rates bitrate i (omega arith)) (λ n small. omega arith)))

  combine_score-Yields :
      (horizon b b_ref b_cur : ℕ) (bandwidth : Num) (history : List ℕ) (rates : List Num)
      → b < length rates
      → b_ref < length rates
      → Yields
          (λ (x : Num). Unit {0})
          (combine_score d horizon b b_ref b_cur bandwidth history rates)
  unfolding combine_score efficiency_score
  combine_score-Yields horizon b b_ref b_cur bandwidth history rates h k =
      Yields-bind (λ (x : Num). Unit {0}) (λ (x : Num). Unit {0})
        (efficiency_score d b b_ref bandwidth rates) _
        (Yields-bind (λ (x : Num). Unit {0}) (λ (x : Num). Unit {0}) (get_elem? rates b_ref) _
          (get_elem?-Yields rates b_ref k)
          (λ rate_ref _.
            Yields-bind (λ (x : Num). Unit {0}) (λ (x : Num). Unit {0}) (get_elem? rates b) _
              (get_elem?-Yields rates b h) (λ rate _. tt)))
        (λ efficiency _. tt)

  next_of-IsGradual :
      (horizon : ℕ) (v : View Num) (bandwidth : Num) (b_ref cur count count' : ℕ)
      → cur < length v.average_bitrate
      → IsReference (length v.average_bitrate) cur count b_ref
      → Yields
          (IsGradual (length v.average_bitrate) cur count)
          (next_of d horizon v bandwidth (min b_ref (length v.average_bitrate - 1)) cur count')
  unfolding next_of
  next_of-IsGradual horizon v bandwidth b_ref cur count count' h near =
      if-intro (b == cur) (Yields (IsGradual size cur count)) (λ _. stays count')
        (λ other.
          Yields-bind (λ (x : Num). Unit {0}) (IsGradual size cur count) _ _
            (combine_score-Yields horizon cur b cur bandwidth v.history_quality v.average_bitrate h
              in_range)
            (λ score_cur _.
              Yields-bind (λ (x : Num). Unit {0}) (IsGradual size cur count) _ _
                (combine_score-Yields horizon b b cur bandwidth v.history_quality v.average_bitrate
                  in_range in_range)
                (λ score_ref _.
                  if-intro (at_most score_cur score_ref) (IsGradual size cur count)
                    (λ _. stays count') (λ _. moves near))))
    where
      size : ℕ
      size = length v.average_bitrate

      b : ℕ
      b = min b_ref (size - 1)

      in_range : b < size
      in_range = omega arith

      stays : (c : ℕ) → IsGradual size cur count (cur, c)
      stays c = (h, omega arith, omega arith, inl (omega arith))

      moves :
          IsReference size cur count b_ref
          → IsGradual size cur count (b, if ltb cur b then 0 else count')
      moves (inl same) = (in_range, omega arith, omega arith, inl (omega arith))
      moves (inr (inl below)) = (in_range, omega arith, omega arith, inl (omega arith))
      moves (inr (inr (above, fits, earned))) =
          let up : ltb cur b ≡ true = lt→ltb _ _ (omega arith) in
          (in_range, omega arith, omega arith, inr (earned, rw up refl))

  -- Festive after the first segment, with at most 11 qualities, where the current quality
  -- exists and each logged segment ended after it started, for any floating point and any
  -- random number: it answers a quality of the video at most one step away; a step up is taken
  -- only if switch_up_count_ was at least the current quality, and sets it to 0.
  pub festive-IsGradual :
      (target : Target) (random : ℤ) (v : View Num) (pre_quality segment_count count : ℕ)
      → 0 < segment_count
      → pre_quality < length v.average_bitrate
      → length v.average_bitrate ≤ 11
      → IsTimed v.transmission_start v.transmission_end v.bytes_received
      → Yields
          (λ r. IsGradual (length v.average_bitrate) pre_quality count (r.0.next_quality, r.1))
          (get_next_quality d target random v pre_quality segment_count count)
  unfolding get_next_quality
  festive-IsGradual target random v pre_quality segment_count count later h few timed =
      if-intro (segment_count == 0) (Yields Step) (λ none_. absurd (omega (arith, ==→≡ _ _ none_)))
        (λ _.
          Yields-bind (λ (x : Num). Unit {0}) Step (predict d v 5) _ (predict-Yields d v 5 timed)
            (λ bandwidth _.
              Yields-bind (λ n. n ≤ size - 1) Step
                (find_target d v.average_bitrate (times (decimal 8 1) bandwidth) (size - 1)) _
                (find_target-Yields v.average_bitrate _ (size - 1) (omega arith))
                (λ b_target small.
                  Yields-bind (λ r. IsReference size pre_quality count r.0) Step
                    (reference b_target pre_quality count) _
                    (reference-IsReference size b_target pre_quality count (omega arith) h few)
                    (λ r near.
                      Yields-bind (IsGradual size pre_quality count) Step
                        (next_of d target.horizon v bandwidth (min r.0 (size - 1)) pre_quality r.1)
                        (λ n. some (
                          (record {
                            next_quality = n.0;
                            next_download_delay = wait_for target random v.buffer_level_ms;
                          }),
                          n.1,
                        ))
                        (next_of-IsGradual target.horizon v bandwidth r.0 pre_quality count r.1 h
                          near)
                        (λ n gradual. gradual)))))
    where
      size : ℕ
      size = length v.average_bitrate

      Step : AlgorithmReply × ℕ → Type 0
      Step r = IsGradual size pre_quality count (r.0.next_quality, r.1)

  pub festive-lt :
      (target : Target) (random : ℤ) (v : View Num) (pre_quality segment_count count : ℕ)
      → pre_quality < length v.average_bitrate
      → length v.average_bitrate ≤ 11
      → IsTimed v.transmission_start v.transmission_end v.bytes_received
      → Yields
          (λ r. r.0.next_quality < length v.average_bitrate)
          (get_next_quality d target random v pre_quality segment_count count)
  unfolding get_next_quality reply
  festive-lt target random v pre_quality segment_count count h few timed =
      elim (Bool-cases (segment_count == 0)) [
        | inl first ↦ rw (first, get_next_quality, reply) (omega arith)
        | inr later ↦
            Yields-map
              (λ r. IsGradual (length v.average_bitrate) pre_quality count (r.0.next_quality, r.1))
              (λ r. r.0.next_quality < length v.average_bitrate)
              (get_next_quality d target random v pre_quality segment_count count)
              (festive-IsGradual target random v pre_quality segment_count count
                (omega (arith, ==→≢ _ _ later)) h few timed)
              (λ r gradual. gradual.0)
      ]
