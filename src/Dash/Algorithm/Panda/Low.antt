-- ===== src/Dash/Algorithm/Panda/Low.antt =====
-- The qualities that PandaAlgorithm never leaves.
use mathlib.Core.Path.{subst}
use dash_dim.Prelude.{
  sym, back-Yields, Yields, Yields-bind, get_elem?-Yields, back, ℕ, ◌+◌, ◌<◌, ◌≡◌, refl, ◌&&◌, List,
  [], ◌∷◌, ◌==◌, if◌then◌else◌, length, get_elem?, arith, if-intro, inl, inr,
}
use dash_dim.Dash.Algorithm.{Double, View, AlgorithmReply, reply}
use dash_dim.Dash.Algorithm.Panda.{
  IsBelowTop, Panda, adapt, find_largest, find_loop, first_quality, get_next_quality, video_index,
}

module _ (d : Double) where
  open d use {Num, plus, minus, times, over, less, at_most, of_int, to_int, decimal}

  -- The loop never takes the last rate.
  find_loop-IsBelowTop :
      (smooth_bw delta : Num) (i largest : ℕ) (rates : List Num)
      → IsBelowTop (i + length rates) largest
      → IsBelowTop (i + length rates) (find_loop d smooth_bw delta i largest rates)
  unfolding find_loop
  find_loop-IsBelowTop smooth_bw delta i largest [] h = h
  find_loop-IsBelowTop smooth_bw delta i largest (rate ∷ []) h = h
  find_loop-IsBelowTop smooth_bw delta i largest (rate ∷ (above ∷ rates)) h =
      subst
        (λ (n : ℕ). IsBelowTop n (
          find_loop d smooth_bw delta (i + 1)
            (if at_most (over rate (decimal 1000000 0)) (minus smooth_bw delta) then i else largest)
            (above ∷ rates)))
        shift
        (find_loop-IsBelowTop smooth_bw delta (i + 1) _ (above ∷ rates) (
          if-intro (at_most (over rate (decimal 1000000 0)) (minus smooth_bw delta))
            (IsBelowTop (i + 1 + length (above ∷ rates))) (λ _. inr (omega arith))
            (λ _. subst (λ (n : ℕ). IsBelowTop n largest) (sym shift) h)))
    where
      shift : i + 1 + length (above ∷ rates) ≡ i + length (rate ∷ (above ∷ rates))
      shift = omega arith

  find_largest-IsBelowTop :
      (v : View Num) (smooth_bw delta : Num)
      → IsBelowTop (length v.average_bitrate) (find_largest d v smooth_bw delta)
  unfolding find_largest
  find_largest-IsBelowTop v smooth_bw delta =
      subst (λ (n : ℕ). IsBelowTop n (find_loop d smooth_bw delta 0 0 v.average_bitrate))
        (omega arith) (find_loop-IsBelowTop smooth_bw delta 0 0 v.average_bitrate (inl refl))

  pub IsBelowTop-lt : (size n : ℕ) → 0 < size → IsBelowTop size n → n < size
  IsBelowTop-lt size n h below = elim below [ inl e ↦ omega arith | inr less_ ↦ omega arith ]

  video_index-IsBelowTop :
      (rates : List Num) (last r_up r_down : ℕ)
      → 0 < length rates
      → IsBelowTop (length rates) last
      → IsBelowTop (length rates) r_up
      → IsBelowTop (length rates) r_down
      → Yields (IsBelowTop (length rates)) (video_index d rates last r_up r_down)
  unfolding video_index
  video_index-IsBelowTop rates last r_up r_down h below up down =
      Yields-bind Known (IsBelowTop (length rates)) (get_elem? rates last) _ (known last below)
        (λ last_rate _.
          Yields-bind Known (IsBelowTop (length rates)) (get_elem? rates r_up) _ (known r_up up)
            (λ up_rate _.
              Yields-bind Known (IsBelowTop (length rates)) (get_elem? rates r_down) _
                (known r_down down)
                (λ down_rate _.
                  if-intro (less last_rate up_rate) (IsBelowTop (length rates)) (λ _. up)
                    (λ _.
                      if-intro (at_most up_rate last_rate && at_most last_rate down_rate)
                        (IsBelowTop (length rates)) (λ _. below) (λ _. down)))))
    where
      Known : Num → Type 0
      Known x = Unit {0}

      known : (n : ℕ) → IsBelowTop (length rates) n → Yields Known (get_elem? rates n)
      known n b = get_elem?-Yields rates n (IsBelowTop-lt (length rates) n h b)

  -- The answer and the index that is kept.
  abbrev pub IsLow : ℕ → AlgorithmReply × Panda Num → Type 0
  IsLow size (r, p) = IsBelowTop size r.next_quality × IsBelowTop size p.last_video_index

  adapt-IsLow :
      (v : View Num) (now end requested : ℕ) (measured : Num) (p : Panda Num)
      → 0 < length v.average_bitrate
      → IsBelowTop (length v.average_bitrate) p.last_video_index
      → Yields (IsLow (length v.average_bitrate)) (adapt d v now end requested measured p)
  unfolding adapt
  adapt-IsLow v now end requested measured p h below =
      Yields-bind (IsBelowTop (length v.average_bitrate)) (IsLow (length v.average_bitrate)) _ _
        (video_index-IsBelowTop v.average_bitrate p.last_video_index _ _ h below
          (find_largest-IsBelowTop v _ _) (find_largest-IsBelowTop v _ _))
        (λ index low.
          Yields-bind (λ (x : Num). Unit {0}) (IsLow (length v.average_bitrate))
            (get_elem? v.average_bitrate index) _
            (get_elem?-Yields v.average_bitrate index (IsBelowTop-lt _ index h low))
            (λ rate _. (low, low)))

  -- Panda, with a last segment in the logs and a last quality that is the lowest or below the
  -- highest, for any floating point: it answers, and the answer and the quality that it keeps
  -- are again the lowest or below the highest, so that the highest of two or more is never
  -- chosen.
  pub panda-IsLow :
      (v : View Num) (now segment_count : ℕ) (p : Panda Num)
      → 0 < length v.average_bitrate
      → 0 < length v.transmission_start
      → 0 < length v.transmission_end
      → 0 < length v.transmission_requested
      → IsBelowTop (length v.average_bitrate) p.last_video_index
      → Yields (IsLow (length v.average_bitrate)) (get_next_quality d v now segment_count p)
  unfolding get_next_quality first_quality reply
  panda-IsLow v now segment_count p h starts ends requests below =
      if-intro (segment_count == 0) (Yields Low) (λ _. (inl refl, inl refl))
        (λ _.
          Yields-bind (λ (x : ℕ). Unit {0}) Low (back v.transmission_start) _
            (back-Yields v.transmission_start starts)
            (λ start _.
              Yields-bind (λ (x : ℕ). Unit {0}) Low (back v.transmission_end) _
                (back-Yields v.transmission_end ends)
                (λ end _.
                  Yields-bind (λ (x : Num). Unit {0}) Low
                    (get_elem? v.average_bitrate p.last_video_index) _
                    (get_elem?-Yields v.average_bitrate p.last_video_index
                      (IsBelowTop-lt _ _ h below))
                    (λ rate _.
                      Yields-bind (λ (x : ℕ). Unit {0}) Low (back v.transmission_requested) _
                        (back-Yields v.transmission_requested requests)
                        (λ requested _. adapt-IsLow v now end requested _ _ h (
                          if-intro (segment_count == 1)
                            (λ (q : Panda Num).
                              IsBelowTop (length v.average_bitrate) q.last_video_index)
                            (λ _. below) (λ _. below)))))))
    where
      Low : AlgorithmReply × Panda Num → Type 0
      Low r = IsLow (length v.average_bitrate) r

  -- The first call sets the last quality.
  pub panda_first :
      (v : View Num) (now segment_count : ℕ) (p : Panda Num)
      → segment_count ≡ 0
      → Yields (IsLow (length v.average_bitrate)) (get_next_quality d v now segment_count p)
  unfolding get_next_quality first_quality reply
  panda_first v now segment_count p first = rw first (inl refl, inl refl)
