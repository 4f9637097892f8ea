-- ===== src/Dash/Adaptation/Answers.antt =====
-- Which qualities the algorithms answer, and where Predict aborts.
use dash_dim.Prelude.{
  ℕ, suc, ◌+◌, ◌≤◌, ◌<◌, ◌≡◌, refl, ap, Bool, List, [], ◌∷◌, length, Yields, Yields-bind, ◌⊎◌, inl,
  inr, arith,
}
use dash_dim.Prelude.Int.{ℤ}
use dash_dim.Dash.Algorithm.{Double, View, AlgorithmReply, IsTimed}
use dash_dim.Dash.Algorithm.Tobasco.{tobasco-IsStep, IsStep}
use dash_dim.Dash.Algorithm.Osmp.{osmp-Yields}
use dash_dim.Dash.Algorithm.Panda
use dash_dim.Dash.Algorithm.Panda.Low.{IsBelowTop-lt, IsLow, panda-IsLow, panda_first}
use dash_dim.Dash.Algorithm.Panda.{Panda, IsBelowTop}
use dash_dim.Dash.Algorithm.Festive.Gradual.{festive-lt}
use dash_dim.Dash.Algorithm.Fdash.{fdash-Yields}
use dash_dim.Dash.Algorithm.Sftm
use dash_dim.Dash.Algorithm.Sftm.{IsLimited, sftm-IsLimited, sftm_first}
use dash_dim.Dash.Algorithm.Svaa.{InRange, svaa-Yields}
use dash_dim.Dash.Adaptation.{
  AdaptationAlgorithm, festive, panda, tobasco, osmp, raahs, fdash, sftm, svaa_with,
  get_next_quality,
}

-- The state of an algorithm before the call for segment `segment_count` of a video of `size`
-- qualities: Festive's table has ten entries, Panda's last quality is set by its first call, and
-- Raahs may read out of bounds.
abbrev pub IsSafe : {Num : Type 0} → ℕ → ℕ → AdaptationAlgorithm Num → Type 0
IsSafe size segment_count (festive target count) = size ≤ 11
IsSafe size segment_count (panda p) = (segment_count ≡ 0) ⊎ IsBelowTop size p.last_video_index
IsSafe size segment_count (tobasco running) = Unit {0}
IsSafe size segment_count osmp = Unit {0}
IsSafe size segment_count raahs = ⊥
IsSafe size segment_count (fdash target_buffer) = Unit {0}
IsSafe size segment_count (sftm target_buffer exceeded) = Unit {0}
IsSafe size segment_count (svaa_with target_buffer s) = Unit {0}

-- The logs have a segment, unless none has been asked for.
abbrev pub IsLogged : ℕ → {Num : Type 0} → View Num → Type 0
IsLogged segment_count v =
    IsTimed v.transmission_start v.transmission_end v.bytes_received
    × ((segment_count ≡ 0)
        ⊎ ((0 < length v.transmission_start) × (0 < length v.transmission_requested)))

IsTimed-length :
    (starts ends received : List ℕ) → IsTimed starts ends received → length ends ≡ length starts
IsTimed-length [] [] [] h = refl
IsTimed-length [] [] (b ∷ received) h = elim h [ ]
IsTimed-length [] (e ∷ ends) received h = elim h [ ]
IsTimed-length (s ∷ starts) [] received h = elim h [ ]
IsTimed-length (s ∷ starts) (e ∷ ends) [] h = elim h [ ]
IsTimed-length (s ∷ starts) (e ∷ ends) (b ∷ received) h =
    ap suc (IsTimed-length starts ends received h.1)

module _ (d : Double) where
  open d use {Num}

  abbrev IsAnswer : ℕ → ℕ → AlgorithmReply × AdaptationAlgorithm Num → Type 0
  IsAnswer size segment_count r = (r.0.next_quality < size) × IsSafe size (segment_count + 1) r.1

  panda-IsAnswer :
      (v : View Num) (now pre_quality segment_count : ℕ) (p : Panda Num)
      → pre_quality < length v.average_bitrate
      → IsLogged segment_count v
      → (segment_count ≡ 0) ⊎ IsBelowTop (length v.average_bitrate) p.last_video_index
      → Yields (IsLow d (length v.average_bitrate)) (Panda.get_next_quality d v now segment_count p)
  panda-IsAnswer v now pre_quality segment_count p h (timed, inl first) safe =
      panda_first d v now segment_count p first
  panda-IsAnswer v now pre_quality segment_count p h (timed, inr (started, asked)) (inl first) =
      panda_first d v now segment_count p first
  panda-IsAnswer v now pre_quality segment_count p h (timed, inr (started, asked)) (inr below) =
      panda-IsLow d v now segment_count p (omega arith) started
        (omega (arith, IsTimed-length _ _ _ timed)) asked below

  sftm-IsAnswer :
      (target_buffer : ℤ) (v : View Num) (pre_quality segment_count : ℕ) (exceeded : Bool)
      → pre_quality < length v.average_bitrate
      → IsLogged segment_count v
      → Yields
          (λ r. IsLimited d (length v.average_bitrate) pre_quality r.0.next_quality)
          (Sftm.get_next_quality d target_buffer v pre_quality segment_count exceeded)
  sftm-IsAnswer target_buffer v pre_quality segment_count exceeded h (timed, inl first) =
      sftm_first d target_buffer v pre_quality segment_count exceeded h first
  sftm-IsAnswer target_buffer v pre_quality segment_count exceeded h (timed, inr (started, asked)) =
      sftm-IsLimited d target_buffer v pre_quality segment_count exceeded h started
        (omega (arith, IsTimed-length _ _ _ timed))

  -- GetNextQuality of Festive (with at most 11 qualities, which its table allows), Panda,
  -- Tobasco, Osmp, Fdash, Sftm and Svaa, for any floating point, where the current quality
  -- exists, each logged segment ended after it started, and the logs have a segment unless
  -- none was asked for: it reads nothing out of bounds and every loop ends, the answer is a
  -- quality of the video, and the algorithm is ready for the next call; Panda's first call may
  -- find any last quality, and later ones the lowest or one below the highest.
  pub get_next_quality-IsSafe :
      (random : ℤ) (now : ℕ) (v : View Num) (pre_quality segment_count : ℕ)
      (a : AdaptationAlgorithm Num)
      → pre_quality < length v.average_bitrate
      → IsLogged segment_count v
      → IsSafe (length v.average_bitrate) segment_count a
      → Yields
          (λ r.
            (r.0.next_quality < length v.average_bitrate)
            × IsSafe (length v.average_bitrate) (segment_count + 1) r.1)
          (get_next_quality d random now v pre_quality segment_count a)
  unfolding get_next_quality
  get_next_quality-IsSafe random now v pre_quality segment_count (festive target count) h logs
        safe =
      Yields-bind (λ r. r.0.next_quality < length v.average_bitrate)
        (IsAnswer (length v.average_bitrate) segment_count) _ _
        (festive-lt d target random v pre_quality segment_count count h safe logs.0)
        (λ r fits. (fits, safe))
  get_next_quality-IsSafe random now v pre_quality segment_count (panda p) h logs safe =
      Yields-bind (IsLow d (length v.average_bitrate))
        (IsAnswer (length v.average_bitrate) segment_count) _ _
        (panda-IsAnswer v now pre_quality segment_count p h logs safe)
        (λ r low. (IsBelowTop-lt d _ _ (omega arith) low.0, inr low.1))
  get_next_quality-IsSafe random now v pre_quality segment_count (tobasco running) h logs safe =
      Yields-bind (λ r. IsStep (length v.average_bitrate) pre_quality r.0)
        (IsAnswer (length v.average_bitrate) segment_count) _ _
        (tobasco-IsStep d v pre_quality segment_count running h logs.0) (λ r near. (near.0, tt))
  get_next_quality-IsSafe random now v pre_quality segment_count osmp h logs safe =
      Yields-bind (λ r. r.next_quality < length v.average_bitrate)
        (IsAnswer (length v.average_bitrate) segment_count) _ _
        (osmp-Yields d v pre_quality segment_count h (omega (arith, IsTimed-length _ _ _ logs.0)))
        (λ r fits. (fits, tt))
  get_next_quality-IsSafe random now v pre_quality segment_count raahs h logs safe = absurd safe
  get_next_quality-IsSafe random now v pre_quality segment_count (fdash target_buffer) h logs safe =
      Yields-bind (λ r. r.next_quality < length v.average_bitrate)
        (IsAnswer (length v.average_bitrate) segment_count) _ _
        (fdash-Yields d target_buffer v pre_quality segment_count h logs.0) (λ r fits. (fits, tt))
  get_next_quality-IsSafe random now v pre_quality segment_count (sftm target_buffer exceeded) h
        logs safe =
      Yields-bind (λ r. IsLimited d (length v.average_bitrate) pre_quality r.0.next_quality)
        (IsAnswer (length v.average_bitrate) segment_count) _ _
        (sftm-IsAnswer target_buffer v pre_quality segment_count exceeded h logs)
        (λ r limited. (limited.0, tt))
  get_next_quality-IsSafe random now v pre_quality segment_count (svaa_with target_buffer s) h logs
        safe =
      Yields-bind (InRange d (length v.average_bitrate))
        (IsAnswer (length v.average_bitrate) segment_count) _ _
        (svaa-Yields d target_buffer v pre_quality segment_count s h logs.0) (λ r fits. (fits, tt))
