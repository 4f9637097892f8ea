-- ===== src/Dash/Adaptation.antt =====
-- What DashClient asks an AdaptationAlgorithm: the getters of dash/dash_client.h and
-- dash/dash_client.cc, SetAdaptationAlgorithm, and GetNextQuality of the algorithm that is set.
pub mod Answers
pub mod Instant
use Prim.Native.String.{String}
use text.Mathlib.Text.{◌==◌ as str_eq}
use dash_dim.Prelude.{
  ◌>>=◌, ℕ, Bool, true, false, Option, none, some, List, [], ◌∷◌, if◌then◌else◌, map,
}
use dash_dim.Prelude.Int.{ℤ, pos, ◌-ℤ◌}
use dash_dim.Dash.Player.{Player}
use dash_dim.Dash.Algorithm.{Double, View, AlgorithmReply}
use dash_dim.Dash.Algorithm.Tobasco
use dash_dim.Dash.Algorithm.Osmp
use dash_dim.Dash.Algorithm.Raahs
use dash_dim.Dash.Algorithm.Panda
use dash_dim.Dash.Algorithm.Panda.{Panda}
use dash_dim.Dash.Algorithm.Festive
use dash_dim.Dash.Algorithm.Festive.{Target}
use dash_dim.Dash.Algorithm.Fdash
use dash_dim.Dash.Algorithm.Sftm
use dash_dim.Dash.Algorithm.Svaa
use dash_dim.Dash.Algorithm.Svaa.{Svaa, svaa}

-- The last level of the buffer.
unfoldable pub get_buffer_level_ms : List ℕ → ℤ
get_buffer_level_ms [] = pos 0
get_buffer_level_ms (ms ∷ []) = pos ms
get_buffer_level_ms (ms ∷ (next ∷ levels)) = get_buffer_level_ms (next ∷ levels)

-- By how much the last level is above the one before it.
unfoldable pub get_buffer_diff_ms : List ℕ → ℤ
get_buffer_diff_ms [] = pos 0
get_buffer_diff_ms (ms ∷ []) = pos 0
get_buffer_diff_ms (old ∷ (now ∷ [])) = pos now -ℤ pos old
get_buffer_diff_ms (ms ∷ (old ∷ (now ∷ levels))) = get_buffer_diff_ms (old ∷ (now ∷ levels))

-- What the getters show of a player whose files gave these rates.
unfoldable pub view_of : {Num : Type 0} → List Num → Player → View Num
view_of rates p = record {
  average_bitrate = rates;
  segment_duration = p.video_data.segment_duration;
  buffer_level_ms = get_buffer_level_ms p.buffer_data.buffer_level_new;
  buffer_diff_ms = get_buffer_diff_ms p.buffer_data.buffer_level_new;
  buffer_level_new = map pos p.buffer_data.buffer_level_new;
  history_quality = p.history_quality;
  played_frames = p.played_frames;
  transmission_requested = p.throughput.transmission_requested;
  transmission_start = p.throughput.transmission_start;
  transmission_end = p.throughput.transmission_end;
  bytes_received = p.throughput.bytes_received;
}

-- The subclasses, with the fields that change.
pub data AdaptationAlgorithm (Num : Type 0) : Type 0 where
  festive : Target → ℕ → AdaptationAlgorithm Num
  panda : Panda Num → AdaptationAlgorithm Num
  tobasco : Bool → AdaptationAlgorithm Num
  osmp raahs : AdaptationAlgorithm Num
  fdash : ℤ → AdaptationAlgorithm Num
  sftm : ℤ → Bool → AdaptationAlgorithm Num
  svaa_with : ℤ → Svaa → AdaptationAlgorithm Num

-- The algorithm of DashClient's constructor.
unfoldable pub default_algorithm : {Num : Type 0} → ℕ → AdaptationAlgorithm Num
default_algorithm segment_ms =
    festive (record { target_buffer = pos 20000; horizon = 5; delta = pos segment_ms }) 0

-- SetAdaptationAlgorithm; PandaAlgorithm's constructor leaves its fields as they are in memory.
unfoldable pub set_adaptation_algorithm :
    {Num : Type 0} → Panda Num → String → AdaptationAlgorithm Num → AdaptationAlgorithm Num
set_adaptation_algorithm memory algo current =
    if str_eq algo "panda"
    then panda memory
    else if str_eq algo "tobasco"
    then tobasco true
    else if str_eq algo "osmp"
    then osmp
    else if str_eq algo "raahs"
    then raahs
    else if str_eq algo "fdash"
    then fdash (pos 20000)
    else if str_eq algo "sftm"
    then sftm (pos 20000) false
    else if str_eq algo "svaa"
    then svaa_with (pos 20000) svaa
    else current

-- The virtual GetNextQuality. `random` is what Random::nextInt answers Festive.
unfoldable pub get_next_quality :
    (d : Double) (random : ℤ) (now : ℕ)
    → View d.Num
    → ℕ
    → ℕ
    → AdaptationAlgorithm d.Num
    → Option (AlgorithmReply × AdaptationAlgorithm d.Num)
get_next_quality d random now v pre_quality segment_count (festive target count) = do
  r ← Festive.get_next_quality d target random v pre_quality segment_count count
  some (r.0, festive target r.1)
get_next_quality d random now v pre_quality segment_count (panda p) = do
  r ← Panda.get_next_quality d v now segment_count p
  some (r.0, panda r.1)
get_next_quality d random now v pre_quality segment_count (tobasco running) = do
  r ← Tobasco.get_next_quality d v pre_quality segment_count running
  some (r.0, tobasco r.1)
get_next_quality d random now v pre_quality segment_count osmp = do
  r ← Osmp.get_next_quality d v pre_quality segment_count
  some (r, osmp)
get_next_quality d random now v pre_quality segment_count raahs = do
  r ← Raahs.get_next_quality d v pre_quality segment_count
  some (r, raahs)
get_next_quality d random now v pre_quality segment_count (fdash target_buffer) = do
  r ← Fdash.get_next_quality d target_buffer v pre_quality segment_count
  some (r, fdash target_buffer)
get_next_quality d random now v pre_quality segment_count (sftm target_buffer exceeded) = do
  r ← Sftm.get_next_quality d target_buffer v pre_quality segment_count exceeded
  some (r.0, sftm target_buffer r.1)
get_next_quality d random now v pre_quality segment_count (svaa_with target_buffer s) = do
  r ← Svaa.get_next_quality d target_buffer v pre_quality segment_count s
  some (r.0, svaa_with target_buffer r.1)
