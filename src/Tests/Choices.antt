-- ===== src/Tests/Choices.antt =====
-- Concrete answers of the algorithms, with thousandths for the floating point.
use dash_dim.Prelude.{ℕ, ◌<◌, ◌≡◌, refl, none, [], ◌∷◌, arith, Yields, inr}
use dash_dim.Prelude.Int.{ℤ, pos}
use dash_dim.Dash.Algorithm.{AlgorithmReply}
use dash_dim.Dash.Algorithm.Festive.Gradual.{IsGradual, festive-IsGradual}
use dash_dim.Dash.Algorithm.Festive.{Target}
use dash_dim.Dash.Algorithm.Festive
use dash_dim.Dash.Player.{Player, player}
use dash_dim.Dash.Adaptation.{AdaptationAlgorithm, festive, get_next_quality, view_of}
use dash_dim.Dash.Adaptation.Answers.{IsSafe, get_next_quality-IsSafe}
use dash_dim.Dash.Adaptation.Instant.{after_whole, get_next_quality-none}
use dash_dim.Tests.Adaptation.{thousandths, view}

abbrev target : Target
target = record { target_buffer = pos 20000; horizon = 5; delta = pos 40 }

festive-IsGradual_example :
    Yields
      (λ (r : AlgorithmReply × ℕ). IsGradual 3 1 2 (r.0.next_quality, r.1))
      (Festive.get_next_quality thousandths target (pos 7) view 1 1 2)
festive-IsGradual_example =
    festive-IsGradual thousandths target (pos 7) view 1 1 2 (omega arith) (omega arith)
      (omega arith) (omega arith, tt)

get_next_quality-IsSafe_example :
    Yields
      (λ (r : AlgorithmReply × AdaptationAlgorithm ℤ). (r.0.next_quality < 3) × IsSafe 3 2 r.1)
      (get_next_quality thousandths (pos 7) 200000 view 1 1 (festive target 0))
get_next_quality-IsSafe_example =
    get_next_quality-IsSafe thousandths (pos 7) 200000 view 1 1 (festive target 0) (omega arith)
      ((omega arith, tt), inr (omega arith, omega arith)) (omega arith)

-- A player of one quality that has asked for its first segment.
abbrev first_asked : Player
first_asked =
    player (pos 5) (record { representation = (3 ∷ 4 ∷ []) ∷ []; segment_duration = 40 }) 1

get_next_quality-none_example :
    get_next_quality thousandths
      (pos 7)
      20
      (view_of (pos 600 ∷ []) (after_whole 20 0 3 first_asked))
      0
      1
      (festive target 0)
    ≡ none
unfolding player
get_next_quality-none_example =
    get_next_quality-none thousandths (pos 600 ∷ []) (pos 7) 20 20 0 3 first_asked 0 1
      (festive target 0) tt refl (record { ends = refl; sizes = refl }) (omega arith)
