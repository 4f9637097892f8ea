-- ===== src/Dash/Algorithm.antt =====
-- The rate adaptation of dash/dash_algorithm.h and dash/dash_algorithm.cc. Its arithmetic is the
-- machine's floating point, a parameter with its operations and no law: what is proved holds for any
-- rounding. A function is `none` where the code reads out of bounds or a CHECK aborts.
pub mod Tobasco
pub mod Osmp
pub mod Raahs
pub mod Panda
pub mod Festive
pub mod Svaa
pub mod Sftm
pub mod Fdash
use dash_dim.Prelude.{
  ◌>>=◌, back, ℕ, zero, suc, ◌+◌, ◌-◌, ◌*◌, ◌/◌, Bool, Option, none, some, List, [], ◌∷◌, ltb,
  if◌then◌else◌, length, drop, Yields, if-intro, arith, ◌<◌, ◌≤◌, ◌≡◌, refl, ◌++◌, drop-append_le,
  length-append, length-drop, ap,
}
use dash_dim.Prelude.Int.{ℤ, pos}

-- The type double: sums, quotients, comparisons, the functions of <cmath>, numeric_limits' max(), the
-- conversions of integers, and the literals, `decimal 75 2` for 0.75.
pub record Double : Type 1 where
  pub Num : Type 0
  pub plus : Num → Num → Num
  pub minus : Num → Num → Num
  pub times : Num → Num → Num
  pub over : Num → Num → Num
  pub less : Num → Num → Bool
  pub at_most : Num → Num → Bool
  pub exp : Num → Num
  pub pow : Num → Num → Num
  pub sqrt : Num → Num
  pub abs : Num → Num
  pub largest : Num
  pub of_int : ℤ → Num
  pub to_int : Num → ℤ
  pub decimal : ℕ → ℕ → Num

-- What an algorithm reads of the client.
pub record View (Num : Type 0) : Type 0 where
  pub average_bitrate : List Num
  pub segment_duration : ℕ
  pub buffer_level_ms : ℤ
  pub buffer_diff_ms : ℤ
  pub buffer_level_new : List ℤ
  pub history_quality : List ℕ
  pub played_frames : ℕ
  pub transmission_requested : List ℕ
  pub transmission_start : List ℕ
  pub transmission_end : List ℕ
  pub bytes_received : List ℕ

-- The delay is in microseconds.
pub record AlgorithmReply : Type 0 where
  pub next_quality : ℕ
  pub next_download_delay : ℤ

-- AlgorithmReply's constructor.
unfoldable pub reply : AlgorithmReply
reply = record { next_quality = 0; next_download_delay = pos 0 }

module _ (d : Double) where
  open d use {Num, plus, times, over, less, of_int, decimal}

  -- `std::max`.
  unfoldable pub max_num : Num → Num → Num
  max_num a b = if less a b then b else a

  -- `std::min`.
  unfoldable pub min_num : Num → Num → Num
  min_num a b = if less b a then b else a

  -- The loop of Predict, over what is left of the three logs; `at` throws where one is shorter.
  unfoldable pub predict_loop : List ℕ → List ℕ → List ℕ → ℕ → Num → Option Num
  predict_loop [] ends received sum_download_time temp_sum =
      some (over (times (decimal 1000 0) (of_int (pos sum_download_time))) temp_sum)
  predict_loop (start ∷ starts) [] received sum_download_time temp_sum = none
  predict_loop (start ∷ starts) (end ∷ ends) [] sum_download_time temp_sum = none
  predict_loop (start ∷ starts) (end ∷ ends) (bytes ∷ received) sum_download_time temp_sum =
      let download_time = (end - start) / 1000 in
      let squared =
        times (times (decimal 1 0) (of_int (pos download_time))) (of_int (pos download_time)) in
      let more =
        predict_loop starts ends received (sum_download_time + download_time)
          (plus temp_sum (over squared (of_int (pos (8 * bytes))))) in
      if ltb start end then more else none

  -- BandwidthPredicator::Predict.
  unfoldable pub predict : View Num → ℕ → Option Num
  predict v horizon =
      let index = length v.transmission_start - horizon in
      let throughput =
        predict_loop (drop index v.transmission_start) (drop index v.transmission_end)
          (drop index v.bytes_received) 0 (decimal 0 0) in
      if ltb 0 (length v.transmission_start) then throughput else some (decimal 0 0)

-- Each segment ended after it started, and all three logs have its entry.
abbrev pub IsTimed : List ℕ → List ℕ → List ℕ → Type 0
IsTimed [] [] [] = Unit {0}
IsTimed (start ∷ starts) (end ∷ ends) (bytes ∷ received) =
    (start < end) × IsTimed starts ends received
IsTimed _ _ _ = ⊥

drop-IsTimed :
    (n : ℕ) (starts ends received : List ℕ)
    → IsTimed starts ends received
    → IsTimed (drop n starts) (drop n ends) (drop n received)
drop-IsTimed zero starts ends received h = h
drop-IsTimed (suc n) [] [] [] h = h
drop-IsTimed (suc n) [] [] (b ∷ received) h = elim h [ ]
drop-IsTimed (suc n) [] (e ∷ ends) received h = elim h [ ]
drop-IsTimed (suc n) (s ∷ starts) [] received h = elim h [ ]
drop-IsTimed (suc n) (s ∷ starts) (e ∷ ends) [] h = elim h [ ]
drop-IsTimed (suc n) (s ∷ starts) (e ∷ ends) (b ∷ received) h =
    drop-IsTimed n starts ends received h.1

predict_loop-Yields :
    (d : Double) (starts ends received : List ℕ) (sum_ : ℕ) (temp : d.Num)
    → IsTimed starts ends received
    → Yields (λ (x : d.Num). Unit {0}) (predict_loop d starts ends received sum_ temp)
unfolding predict_loop
predict_loop-Yields d [] [] [] sum_ temp h = tt
predict_loop-Yields d [] [] (b ∷ received) sum_ temp h = elim h [ ]
predict_loop-Yields d [] (e ∷ ends) received sum_ temp h = elim h [ ]
predict_loop-Yields d (s ∷ starts) [] received sum_ temp h = elim h [ ]
predict_loop-Yields d (s ∷ starts) (e ∷ ends) [] sum_ temp h = elim h [ ]
predict_loop-Yields d (s ∷ starts) (e ∷ ends) (b ∷ received) sum_ temp (less, h) =
    if-intro (ltb s e) (Yields (λ (x : d.Num). Unit {0}))
      (λ _. predict_loop-Yields d starts ends received _ _ h) (λ n. absurd (ground arith))

pub predict-Yields :
    (d : Double) (v : View d.Num) (horizon : ℕ)
    → IsTimed v.transmission_start v.transmission_end v.bytes_received
    → Yields (λ (x : d.Num). Unit {0}) (predict d v horizon)
unfolding predict
predict-Yields d v horizon h =
    if-intro (ltb 0 (length v.transmission_start)) (Yields (λ (x : d.Num). Unit {0}))
      (λ _.
        predict_loop-Yields d _ _ _ _ _
          (drop-IsTimed (length v.transmission_start - horizon) _ _ _ h))
      (λ _. tt)

predict_loop-none :
    (d : Double) (starts ends received : List ℕ) (t b sum_ : ℕ) (temp : d.Num)
    → length ends ≡ length starts
    → length received ≡ length starts
    → predict_loop d (starts ++ (t ∷ [])) (ends ++ (t ∷ [])) (received ++ (b ∷ [])) sum_ temp ≡ none
unfolding predict_loop
predict_loop-none d [] [] [] t b sum_ temp h k =
    if-intro (ltb t t) (λ (o : Option d.Num). o ≡ none) (λ less_. absurd (ground arith)) (λ _. refl)
predict_loop-none d [] [] (c ∷ received) t b sum_ temp h k = absurd (omega arith)
predict_loop-none d [] (e ∷ ends) received t b sum_ temp h k = absurd (omega arith)
predict_loop-none d (s ∷ starts) [] received t b sum_ temp h k = absurd (omega arith)
predict_loop-none d (s ∷ starts) (e ∷ ends) [] t b sum_ temp h k = absurd (omega arith)
predict_loop-none d (s ∷ starts) (e ∷ ends) (c ∷ received) t b sum_ temp h k =
    if-intro (ltb s e) (λ (o : Option d.Num). o ≡ none)
      (λ _. predict_loop-none d starts ends received t b _ _ (omega arith) (omega arith))
      (λ _. refl)

-- A last segment that ended when it started fails the CHECK of Predict.
pub predict-none :
    (d : Double) (v : View d.Num) (horizon : ℕ) (starts ends received : List ℕ) (t b : ℕ)
    → 0 < horizon
    → length ends ≡ length starts
    → length received ≡ length starts
    → v.transmission_start ≡ starts ++ (t ∷ [])
    → v.transmission_end ≡ ends ++ (t ∷ [])
    → v.bytes_received ≡ received ++ (b ∷ [])
    → predict d v horizon ≡ none
unfolding predict
predict-none d v horizon starts ends received t b some_ h k start_eq end_eq received_eq =
    if-intro (ltb 0 (length v.transmission_start)) (λ (o : Option d.Num). o ≡ none)
      (λ _.
        rw
          (
            start_eq,
            end_eq,
            received_eq,
            drop-append_le index starts (t ∷ []) inside,
            drop-append_le index ends (t ∷ []) (omega (arith, inside)),
            drop-append_le index received (b ∷ []) (omega (arith, inside)),
          )
          (predict_loop-none d (drop index starts) (drop index ends) (drop index received) t b 0
            (d.decimal 0 0) (omega (arith, h, length-drop index starts, length-drop index ends))
            (omega (arith, k, length-drop index starts, length-drop index received))))
      (λ empty. absurd (ground (arith, ap length start_eq, length-append starts (t ∷ []))))
  where
    index : ℕ
    index = length (starts ++ (t ∷ [])) - horizon

    inside : index ≤ length starts
    inside = omega (arith, length-append starts (t ∷ []))
