-- ===== src/Tests/Adaptation.antt =====
-- Concrete runs of the rate adaptation, with thousandths for the floating point.
use dash_dim.Prelude.{◌*◌, ◌/◌, ◌^◌, refl, Bool, true, [], ◌∷◌, arith, Yields, inr}
use dash_dim.Prelude.Int.{ℤ, pos, pos_part, ltb_ℤ, leb_ℤ, ◌+ℤ◌, ◌-ℤ◌, ◌*ℤ◌, div_ℤ}
use dash_dim.Dash.Algorithm.{Double, View, AlgorithmReply}
use dash_dim.Dash.Algorithm.Tobasco.{IsStep, tobasco-IsStep}
use dash_dim.Dash.Algorithm.Tobasco
use dash_dim.Dash.Algorithm.Raahs.{epsilon_loop, IsNext, HasLower, raahs-IsNext}
use dash_dim.Dash.Algorithm.Raahs
use dash_dim.Dash.Algorithm.Panda.Low.{IsLow, panda-IsLow}
use dash_dim.Dash.Algorithm.Panda.{Panda}
use dash_dim.Dash.Algorithm.Panda

abbrev pub thousandths : Double
thousandths = record {
  Num = ℤ;
  plus = λ a b. a +ℤ b;
  minus = λ a b. a -ℤ b;
  times = λ a b. div_ℤ (a *ℤ b) 1000;
  over = λ a b. div_ℤ (a *ℤ pos 1000) (pos_part b);
  less = ltb_ℤ;
  at_most = leb_ℤ;
  exp = λ a. a;
  pow = λ a b. a;
  sqrt = λ a. a;
  abs = λ a. a;
  largest = pos 1000000000;
  of_int = λ n. n *ℤ pos 1000;
  to_int = λ a. div_ℤ a 1000;
  decimal = λ n places. pos (n * 1000 / 10 ^ places);
}

-- Three rates, and one segment of 40 milliseconds that took 100 to come.
abbrev pub view : View ℤ
view = record {
  average_bitrate = pos 1000 ∷ pos 2000 ∷ pos 3000 ∷ [];
  segment_duration = 40;
  buffer_level_ms = pos 40;
  buffer_diff_ms = pos 0;
  buffer_level_new = pos 40 ∷ [];
  history_quality = 0 ∷ 1 ∷ [];
  played_frames = 0;
  transmission_requested = 500 ∷ [];
  transmission_start = 1000 ∷ [];
  transmission_end = 101000 ∷ [];
  bytes_received = 5 ∷ [];
}

tobasco-IsStep_example :
    Yields
      (λ (r : AlgorithmReply × Bool). IsStep 3 1 r.0)
      (Tobasco.get_next_quality thousandths view 1 2 true)
tobasco-IsStep_example = tobasco-IsStep thousandths view 1 2 true (omega arith) (omega arith, tt)

low : HasLower thousandths (Raahs.ratio thousandths view 1000 101000) (pos 3000) (pos 1000) 2
unfolding ◌+ℤ◌ ◌-ℤ◌ ◌*ℤ◌
low = inr (omega arith, refl)

raahs-IsNext_example :
    Yields
      (λ (r : AlgorithmReply). IsNext 3 2 r.next_quality)
      (Raahs.get_next_quality thousandths view 2 2)
raahs-IsNext_example =
    raahs-IsNext thousandths view 2 2 1000 101000 (pos 3000) (pos 1000) (omega arith) refl refl refl
      refl low

abbrev state : Panda ℤ
state = record {
  last_buffer = pos 40;
  last_target_interrequest_time = pos 0;
  last_bandwidth_share = pos 1;
  last_smooth_bandwidth_share = pos 1;
  last_video_index = 1;
}

panda-IsLow_example :
    Yields
      (λ (r : AlgorithmReply × Panda ℤ). IsLow thousandths 3 r)
      (Panda.get_next_quality thousandths view 200000 2 state)
panda-IsLow_example =
    panda-IsLow thousandths view 200000 2 state (omega arith) (omega arith) (omega arith)
      (omega arith) (inr (omega arith))
