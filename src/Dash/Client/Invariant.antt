-- ===== src/Dash/Client/Invariant.antt =====
-- What holds of the player between two calls from the event loop.
use native.Mathlib.Nat.{mul-add-mod_self_right, mod-eq_of_lt, mod_self, add-mul}
use mathlib.Core.Path.{subst}
use dash_dim.Prelude.{
  ℕ, ◌+◌, ◌-◌, ◌*◌, ◌%◌, ◌≤◌, ◌<◌, ◌≡◌, refl, sym, ap, ◌∙◌, false, List, ◌==◌, length, Yields,
  arith, All, ◌⊎◌, inl, inr, Bool-cases, ==→≡, ==→≢,
}
use dash_dim.Dash.Server.Service.{sum}
use dash_dim.Dash.Player.{Player, VideoData, TcpConnectionStatus, is_connecting, is_play, is_paused}
use dash_dim.Dash.Client.{play_frame}

-- Every quality has `num` segments.
pub record IsVideo (num : ℕ) (v : VideoData) : Type 0 where
  pub some_quality : 0 < length v.representation
  pub some_segment : 0 < num
  pub rectangular : All (λ sizes. length sizes ≡ num) v.representation

-- The frames that were played are those of the played segments and `r` frames of the next one.
abbrev pub IsPlayed : ℕ → Player → Type 0
IsPlayed frames p =
    (r : ℕ) × (p.played_frames ≡ p.playback_index * frames + r)
    × (r < frames)
    × ((0 < p.segments_in_buffer) ⊎ (r ≡ 0))

-- The counts of the player agree: each segment that came is in the buffer or has been played, and
-- has left its entries in the logs.
pub record IsCounted (num frames : ℕ) (v : VideoData) (p : Player) : Type 0 where
  pub video : p.video_data ≡ v
  pub frames_eq : p.frames_in_segment ≡ frames
  pub counted : p.segment_counter ≡ p.segments_in_buffer + p.playback_index
  pub played : IsPlayed frames p
  pub ends : length p.throughput.transmission_end ≡ p.segment_counter
  pub levels : length p.buffer_data.buffer_level_new ≡ p.segment_counter
  pub enough : All (λ ms. v.segment_duration ≤ ms) p.buffer_data.buffer_level_new
  pub session : p.session_bytes ≡ sum p.throughput.bytes_received
  pub in_range : p.index ≤ num
  pub settled : is_connecting p.status ≡ false

-- It plays only while something is in the buffer, and pauses only on an empty one.
pub record IsPlaying (num frames : ℕ) (v : VideoData) (p : Player) : Type 0 where
  pub counts : IsCounted num frames v p
  pub playing : (is_play p.player_state ≡ false) ⊎ (0 < p.segments_in_buffer)
  pub pausing : (is_paused p.player_state ≡ false) ⊎ (p.segments_in_buffer ≡ 0)

-- The frame after `r` frames of a segment.
next_frame : (q f r : ℕ) → (q * f + r + 1) % f ≡ (r + 1) % f
next_frame q f r = ap (λ (n : ℕ). n % f) (omega arith) ∙ mul-add-mod_self_right q f (r + 1)

-- It is the last of its segment, or not.
frame-cases :
    (f r : ℕ) → r < f → ((r + 1 ≡ f) × ((r + 1) % f ≡ 0)) ⊎ ((r + 1 < f) × ((r + 1) % f ≡ r + 1))
frame-cases f r h = elim (Bool-cases (r + 1 == f)) [
  | inl last ↦
      let same : r + 1 ≡ f = ==→≡ _ _ last in inl (same, ap (λ (n : ℕ). n % f) same ∙ mod_self f)
  | inr more ↦ let less : r + 1 < f = omega (arith, ==→≢ _ _ more) in inr (less, mod-eq_of_lt less)
]

module _ {num frames : ℕ} {v : VideoData} where
  -- The segment is over.
  last_frame-IsCounted :
      (p : Player) (r : ℕ)
      → IsCounted num frames v p
      → 0 < p.segments_in_buffer
      → p.played_frames ≡ p.playback_index * frames + r
      → r + 1 ≡ frames
      → IsCounted num frames v (record p {
        played_frames = p.played_frames + 1;
        segments_in_buffer = p.segments_in_buffer - 1;
        playback_index = p.playback_index + 1;
      })
  last_frame-IsCounted p r c some_ same last = record {
    video = c.video;
    frames_eq = c.frames_eq;
    counted = omega (arith, c.counted);
    played =
        let next : p.played_frames + 1 ≡ (p.playback_index + 1) * frames =
          omega (arith, add-mul p.playback_index 1 frames) in
        (0, omega arith, omega arith, inr refl);
    ends = c.ends;
    levels = c.levels;
    enough = c.enough;
    session = c.session;
    in_range = c.in_range;
    settled = c.settled;
  }

  frame-IsCounted :
      (p : Player) (r : ℕ)
      → IsCounted num frames v p
      → 0 < p.segments_in_buffer
      → p.played_frames ≡ p.playback_index * frames + r
      → r + 1 < frames
      → IsCounted num frames v (record p { played_frames = p.played_frames + 1 })
  frame-IsCounted p r c some_ same more = record {
    video = c.video;
    frames_eq = c.frames_eq;
    counted = c.counted;
    played = (r + 1, omega arith, more, inl some_);
    ends = c.ends;
    levels = c.levels;
    enough = c.enough;
    session = c.session;
    in_range = c.in_range;
    settled = c.settled;
  }

  pub play_frame-IsCounted :
      (p : Player)
      → IsCounted num frames v p
      → 0 < p.segments_in_buffer
      → Yields (λ p'. IsCounted num frames v p' × (p'.player_state ≡ p.player_state)) (play_frame p)
  unfolding play_frame
  play_frame-IsCounted p c some_ =
      let (r, same, less, _) = c.played in
      let step : (p.played_frames + 1) % p.frames_in_segment ≡ (r + 1) % frames =
        rw (same, c.frames_eq) (next_frame p.playback_index frames r) in
      let nonzero : (p.frames_in_segment == 0) ≡ false = ground (arith, c.frames_eq) in
      elim (frame-cases frames r less) [
        | inl (last, zero_) ↦
            rw (nonzero, step, zero_) (last_frame-IsCounted p r c some_ same last, refl)
        | inr (more, same_) ↦
            let test : (r + 1 == 0) ≡ false = ground arith in
            rw (nonzero, step, same_, test) (frame-IsCounted p r c some_ same more, refl)
      ]

-- The fields that the counts are about.
abbrev pub Core : Type 0
Core = VideoData × ℕ × ℕ × ℕ × ℕ × ℕ × List ℕ × List ℕ × List ℕ × ℕ × ℕ × TcpConnectionStatus

abbrev pub core : Player → Core
core p = (
  p.video_data, p.frames_in_segment, p.segment_counter, p.segments_in_buffer, p.playback_index,
  p.played_frames, p.throughput.transmission_end, p.buffer_data.buffer_level_new,
  p.throughput.bytes_received, p.session_bytes, p.index, p.status,
)

-- A step that leaves them alone keeps the counts.
pub core-IsCounted :
    (num frames : ℕ) (v : VideoData) (p p' : Player)
    → core p ≡ core p'
    → IsCounted num frames v p
    → IsCounted num frames v p'
core-IsCounted num frames v p p' same c =
    let counter = ap (λ (k : Core). k.2) same in
    let segments = ap (λ (k : Core). k.3) same in
    let playback = ap (λ (k : Core). k.4) same in
    let ends = ap (λ (k : Core). k.6) same in
    let levels = ap (λ (k : Core). k.7) same in
    record {
      video = sym (ap (λ (k : Core). k.0) same) ∙ c.video;
      frames_eq = sym (ap (λ (k : Core). k.1) same) ∙ c.frames_eq;
      counted = sym counter ∙ c.counted ∙ omega (arith, segments, playback);
      played =
          let (r, played, less, left) = c.played in
          (
            r,
            sym (ap (λ (k : Core). k.5) same) ∙ played ∙ ap (λ (n : ℕ). n * frames + r) playback,
            less,
            subst (λ (n : ℕ). (0 < n) ⊎ (r ≡ 0)) segments left,
          );
      ends = ap length (sym ends) ∙ c.ends ∙ counter;
      levels = ap length (sym levels) ∙ c.levels ∙ counter;
      enough = subst (All (λ ms. v.segment_duration ≤ ms)) levels c.enough;
      session =
          sym (ap (λ (k : Core). k.9) same) ∙ c.session ∙ ap sum (ap (λ (k : Core). k.8) same);
      in_range = subst (λ (n : ℕ). n ≤ num) (ap (λ (k : Core). k.10) same) c.in_range;
      settled = ap is_connecting (sym (ap (λ (k : Core). k.11) same)) ∙ c.settled;
    }
