-- ===== src/Dash/Algorithm/Sftm.antt =====
-- SftmAlgorithm of dash/dash_algorithm.cc.
use dash_dim.Prelude.{
  ◌>>=◌, back, back-Yields, ℕ, ◌+◌, ◌-◌, ◌*◌, ◌/◌, ◌≤◌, ◌<◌, ◌≡◌, ◌&&◌, not, Bool, true, false,
  Option, some, List, [], ◌∷◌, ltb, ◌==◌, if◌then◌else◌, length, take, length-take, get_elem?,
  get_elem?-Yields, Yields, Yields-bind, arith, if-intro, ltb→lt,
}
use dash_dim.Prelude.Int.{ℤ, pos, ◌-ℤ◌, ◌*ℤ◌, div_ℤ}
use dash_dim.Dash.Algorithm.{Double, View, AlgorithmReply, reply, min_num, max_num}
use dash_dim.Dash.Algorithm.Raahs.{epsilon_loop}

module _ (d : Double) where
  open d use {Num, plus, minus, times, over, less, at_most, of_int, to_int, decimal, largest}

  -- The least relative step down between two rates that follow each other.
  unfoldable pub least_step : Num → List Num → Num
  least_step emin_d [] = emin_d
  least_step emin_d (rate ∷ []) = emin_d
  least_step emin_d (rate ∷ (above ∷ rates)) =
      least_step (min_num d emin_d (over (minus above rate) above)) (above ∷ rates)

  -- The remaining time to fetch a segment, and `rsft_exceeded_`.
  unfoldable pub remaining : ℤ → View Num → ℕ → Bool → Num × Bool
  remaining target_buffer v segment_count exceeded =
      let msd = of_int (pos v.segment_duration) in
      let ts_ns = times (of_int (pos segment_count)) msd in
      let ts_o = of_int (pos (v.played_frames * 1000 / 25)) in
      let rsft = minus (minus ts_ns ts_o) (of_int target_buffer) in
      let rsft_s = times (decimal 75 2) msd in
      if less rsft rsft_s && not exceeded then (rsft_s, exceeded) else (rsft, true)

  -- `e_u` and `e_d`, from the rate, the one above it and the one below it.
  unfoldable pub up_factor : List Num → Bool → Num → Num → Num
  up_factor rates is_top rate above =
      let ec_u = (if is_top then largest else over (minus above rate) rate) in
      min_num d (epsilon_loop d (of_int (pos 0)) rates) (times (of_int (pos 2)) ec_u)

  unfoldable pub down_factor : List Num → Bool → Num → Num → Num
  down_factor rates is_bottom rate below =
      let ec_d = (if is_bottom then decimal 1 0 else over (minus rate below) rate) in
      max_num d (times (of_int (pos 2)) (least_step largest rates)) ec_d

  -- The loop of the switch down, over the rates below the current one.
  unfoldable pub down_loop : Num → ℕ → ℕ → List Num → ℕ
  down_loop bound i next [] = next
  down_loop bound i next (rate ∷ rates) =
      let lower = down_loop bound (i + 1) i rates in if at_most bound rate then next else lower

  -- The branches on the ratio `sftm`.
  unfoldable pub switch : Num → Num → Num → List Num → ℕ → Num → ℕ
  switch sftm e_u e_d rates pre_quality rate =
      if less (plus (of_int (pos 1)) e_u) sftm && ltb (pre_quality + 1) (length rates)
      then pre_quality + 1
      else if less sftm (minus (of_int (pos 1)) e_d) && not (pre_quality == 0)
      then down_loop (times sftm rate) 0 pre_quality (take pre_quality rates)
      else pre_quality

  abbrev above_index : ℕ → ℕ → ℕ
  above_index size cur = if ltb (cur + 1) size then cur + 1 else cur

  -- GetNextQuality, with `rsft_exceeded_` before and after.
  unfoldable pub get_next_quality : ℤ → View Num → ℕ → ℕ → Bool → Option (AlgorithmReply × Bool)
  get_next_quality target_buffer v pre_quality segment_count exceeded =
      if segment_count == 0 then some (reply, exceeded) else (do
        end ← back v.transmission_end
        start ← back v.transmission_start
        rate ← get_elem? v.average_bitrate pre_quality
        above ← get_elem? v.average_bitrate (above_index (length v.average_bitrate) pre_quality)
        below ← get_elem? v.average_bitrate (pre_quality - 1)
        b_max ← get_elem? v.average_bitrate (length v.average_bitrate - 1)
        b_min ← get_elem? v.average_bitrate 0
        let (rsft, exceeded') = remaining target_buffer v segment_count exceeded in
            let msd = of_int (pos v.segment_duration) in
            let sft = of_int (div_ℤ (pos end -ℤ pos start) 1000) in
            let sftm = over (min_num d msd rsft) sft in
            let e_u =
              up_factor v.average_bitrate (not (ltb (pre_quality + 1) (length v.average_bitrate)))
                rate above in
            let e_d = down_factor v.average_bitrate (pre_quality == 0) rate below in
            let t_id = minus (of_int v.buffer_level_ms) (over (times msd b_max) b_min) in
            some (
              record {
                next_quality = switch sftm e_u e_d v.average_bitrate pre_quality rate;
                next_download_delay =
                    if less (of_int (pos 0)) t_id then to_int t_id *ℤ pos 1000 else pos 0;
              },
              exceeded',
            ))

  down_loop-lt :
      (bound : Num) (i next size : ℕ) (rates : List Num)
      → next < size
      → i + length rates ≤ size
      → down_loop bound i next rates < size
  unfolding down_loop
  down_loop-lt bound i next size [] h k = h
  down_loop-lt bound i next size (rate ∷ rates) h k =
      if-intro (at_most bound rate) (λ (n : ℕ). n < size) (λ _. h)
        (λ _. down_loop-lt bound (i + 1) i size rates (omega arith) (omega arith))

  -- One step up, any step down.
  abbrev pub IsLimited : ℕ → ℕ → ℕ → Type 0
  IsLimited size cur next = (next < size) × (next ≤ cur + 1)

  switch-IsLimited :
      (sftm e_u e_d : Num) (rates : List Num) (pre_quality : ℕ) (rate : Num)
      → pre_quality < length rates
      → IsLimited (length rates) pre_quality (switch sftm e_u e_d rates pre_quality rate)
  unfolding switch
  switch-IsLimited sftm e_u e_d rates pre_quality rate h =
      if-intro (less (plus (of_int (pos 1)) e_u) sftm && ltb (pre_quality + 1) (length rates))
        (IsLimited (length rates) pre_quality)
        (λ up. (room (less (plus (of_int (pos 1)) e_u) sftm) up, omega arith))
        (λ _.
          if-intro (less sftm (minus (of_int (pos 1)) e_d) && not (pre_quality == 0))
            (IsLimited (length rates) pre_quality)
            (λ _.
              let lower : down_loop (times sftm rate) 0 pre_quality (take pre_quality rates)
                  < pre_quality + 1 =
                down_loop-lt (times sftm rate) 0 pre_quality (pre_quality + 1)
                  (take pre_quality rates) (omega arith)
                  (omega (arith, length-take pre_quality rates)) in
              omega arith)
            (λ _. omega arith))
    where
      room :
          (b : Bool)
          → (b && ltb (pre_quality + 1) (length rates)) ≡ true
          → pre_quality + 1 < length rates
      room true e = ltb→lt _ _ e
      room false e = cc

  pub sftm-IsLimited :
      (target_buffer : ℤ) (v : View Num) (pre_quality segment_count : ℕ) (exceeded : Bool)
      → pre_quality < length v.average_bitrate
      → 0 < length v.transmission_start
      → 0 < length v.transmission_end
      → Yields
          (λ r. IsLimited (length v.average_bitrate) pre_quality r.0.next_quality)
          (get_next_quality target_buffer v pre_quality segment_count exceeded)
  unfolding get_next_quality reply
  sftm-IsLimited target_buffer v pre_quality segment_count exceeded h started ended =
      if-intro (segment_count == 0) (Yields Step) (λ _. omega arith)
        (λ _.
          Yields-bind (λ (x : ℕ). Unit {0}) Step (back v.transmission_end) _
            (back-Yields v.transmission_end ended)
            (λ end _.
              Yields-bind (λ (x : ℕ). Unit {0}) Step (back v.transmission_start) _
                (back-Yields v.transmission_start started)
                (λ start _. known pre_quality h _ (λ rate.
                  known (above_index size pre_quality) (ground arith) _ (λ above.
                    known (pre_quality - 1) (omega arith) _ (λ below.
                      known (size - 1) (omega arith) _ (λ b_max. known 0 (omega arith) _ (λ b_min.
                        switch-IsLimited _ _ _ v.average_bitrate pre_quality rate h))))))))
    where
      size : ℕ
      size = length v.average_bitrate

      Step : AlgorithmReply × Bool → Type 0
      Step r = IsLimited size pre_quality r.0.next_quality

      known :
          (i : ℕ)
          → i < size
          → (f : Num → Option (AlgorithmReply × Bool)) → ((rate : Num) → Yields Step (f rate))
          → Yields Step (get_elem? v.average_bitrate i >>= f)
      known i less_ f next =
          Yields-bind (λ (x : Num). Unit {0}) Step (get_elem? v.average_bitrate i) f
            (get_elem?-Yields v.average_bitrate i less_) (λ rate _. next rate)

  pub sftm_first :
      (target_buffer : ℤ) (v : View Num) (pre_quality segment_count : ℕ) (exceeded : Bool)
      → pre_quality < length v.average_bitrate
      → segment_count ≡ 0
      → Yields
          (λ r. IsLimited (length v.average_bitrate) pre_quality r.0.next_quality)
          (get_next_quality target_buffer v pre_quality segment_count exceeded)
  unfolding get_next_quality reply
  sftm_first target_buffer v pre_quality segment_count exceeded h first =
      rw (first, get_next_quality) (omega arith)
