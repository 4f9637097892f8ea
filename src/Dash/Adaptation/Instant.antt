-- ===== src/Dash/Adaptation/Instant.antt =====
-- A segment that comes whole in one call from the event loop. ApproximateNow is the time at which the
-- event loop woke up, so that the segment ends when it starts, which a CHECK of Predict refuses.
use dash_dim.Prelude.{
  ℕ, ◌+◌, ◌<◌, ◌≡◌, refl, ap, ◌∙◌, false, ◌&&◌, none, List, ltb, leb, ◌==◌, length, if-intro, arith,
}
use dash_dim.Prelude.Int.{ℤ}
use dash_dim.Dash.Player.{Player, ThroughputData, is_init_buffering, is_paused}
use dash_dim.Dash.Client.{
  add_bytes, add_segment, start_playback, resume_playback, check_buffer_status,
}
use dash_dim.Dash.Algorithm.{Double, View, predict, predict-none}
use dash_dim.Dash.Algorithm.Tobasco
use dash_dim.Dash.Algorithm.Festive
use dash_dim.Dash.Algorithm.Fdash
use dash_dim.Dash.Algorithm.Svaa
use dash_dim.Dash.Adaptation.{
  AdaptationAlgorithm, festive, panda, tobasco, osmp, raahs, fdash, sftm, svaa_with, view_of,
  get_next_quality,
}

start_throughput : (now : ℕ) (p : Player) → (start_playback now p).throughput ≡ p.throughput
unfolding start_playback
start_throughput now p =
    if-intro (is_init_buffering p.player_state && leb p.init_segments p.segments_in_buffer)
      (λ (q : Player). q.throughput ≡ p.throughput) (λ _. refl) (λ _. refl)

check_throughput : (now : ℕ) (p : Player) → (check_buffer_status now p).throughput ≡ p.throughput
unfolding check_buffer_status resume_playback
check_throughput now p =
    if-intro
      (is_paused (start_playback now p).player_state
        && ltb 0 (start_playback now p).segments_in_buffer)
      (λ (q : Player). q.throughput ≡ p.throughput) (λ _. start_throughput now p)
      (λ _. start_throughput now p)

-- The player when it asks for the next quality.
abbrev pub after_whole : ℕ → ℕ → ℕ → Player → Player
after_whole now old n p = check_buffer_status now (add_segment now old (add_bytes now n p))

-- The algorithms that call Predict.
abbrev pub IsPredictive : {Num : Type 0} → AdaptationAlgorithm Num → Type 0
IsPredictive (festive target count) = Unit {0}
IsPredictive (panda p) = ⊥
IsPredictive (tobasco running) = Unit {0}
IsPredictive osmp = ⊥
IsPredictive raahs = ⊥
IsPredictive (fdash target_buffer) = Unit {0}
IsPredictive (sftm target_buffer exceeded) = ⊥
IsPredictive (svaa_with target_buffer s) = Unit {0}

-- Its logs, where they had an end and a size for each start before.
pub record IsEven (t : ThroughputData) : Type 0 where
  pub ends : length t.transmission_end ≡ length t.transmission_start
  pub sizes : length t.bytes_received ≡ length t.transmission_start

predict-after_whole :
    (d : Double) (rates : List d.Num) (now old n : ℕ) (p : Player)
    → p.read_bytes ≡ 0
    → IsEven p.throughput
    → predict d (view_of rates (after_whole now old n p)) 5 ≡ none
unfolding view_of add_segment add_bytes
predict-after_whole d rates now old n p fresh even =
    predict-none d (view_of rates (after_whole now old n p)) 5 p.throughput.transmission_start
      p.throughput.transmission_end p.throughput.bytes_received now (p.read_bytes + n) (omega arith)
      even.ends even.sizes
      (ap (λ (t : ThroughputData). t.transmission_start) logs ∙ (rw fresh refl))
      (ap (λ (t : ThroughputData). t.transmission_end) logs)
      (ap (λ (t : ThroughputData). t.bytes_received) logs)
  where
    logs :
        (after_whole now old n p).throughput ≡ (add_segment now old (add_bytes now n p)).throughput
    logs = check_throughput now (add_segment now old (add_bytes now n p))

-- A player with none of a segment's bytes, whose logs have as many ends and sizes as starts:
-- if the whole segment comes in one call from the event loop, then the next GetNextQuality of
-- Festive, Tobasco, Fdash or Svaa, after the first segment was asked for, aborts in the CHECK
-- of Predict, whatever the floating point.
pub get_next_quality-none :
    (d : Double) (rates : List d.Num) (random : ℤ) (time now old n : ℕ) (p : Player)
    (pre_quality segment_count : ℕ) (a : AdaptationAlgorithm d.Num)
    → IsPredictive a
    → p.read_bytes ≡ 0
    → IsEven p.throughput
    → 0 < segment_count
    → get_next_quality d random time
        (view_of rates (after_whole now old n p))
        pre_quality
        segment_count
        a
      ≡ none
unfolding get_next_quality Festive.get_next_quality Tobasco.get_next_quality Fdash.get_next_quality
    Svaa.get_next_quality
get_next_quality-none d rates random time now old n p pre_quality segment_count a calls fresh even
      later =
    go a calls
  where
    v : View d.Num
    v = view_of rates (after_whole now old n p)

    fails : predict d v 5 ≡ none
    fails = predict-after_whole d rates now old n p fresh even

    some_ : (segment_count == 0) ≡ false
    some_ = ground arith

    go :
        (b : AdaptationAlgorithm d.Num)
        → IsPredictive b
        → get_next_quality d random time v pre_quality segment_count b ≡ none
    go (festive target count) c = rw (some_, fails, Festive.get_next_quality) refl
    go (panda q) c = absurd c
    go (tobasco running) c = rw (some_, fails, Tobasco.get_next_quality) refl
    go osmp c = absurd c
    go raahs c = absurd c
    go (fdash target_buffer) c = rw (some_, fails, Fdash.get_next_quality) refl
    go (sftm target_buffer exceeded) c = absurd c
    go (svaa_with target_buffer s) c = rw (some_, fails, Svaa.get_next_quality) refl
