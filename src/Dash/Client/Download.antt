-- ===== src/Dash/Client/Download.antt =====
-- The requests and the segments that come keep the invariant of the player.
use mathlib.Core.Path.{subst}
use dash_dim.Prelude.{
  back, back-Yields, ℕ, ◌+◌, ◌%◌, ◌^◌, ◌≤◌, ◌<◌, ◌≡◌, ap, ◌∙◌, false, some, List, [], ◌∷◌, ltb,
  length, Yields, Yields-eq, arith, All-append, length-append, if-intro, ◌⊎◌, inl, ltb→lt,
}
use dash_dim.Dash.Request.{send_request_succeeds}
use dash_dim.Dash.Server.Service.{sum-append}
use dash_dim.Dash.Client.Invariant.{IsVideo, IsCounted, IsPlaying, Core, core, core-IsCounted}
use dash_dim.Dash.Client.Playback.{segment_num-IsVideo}
use dash_dim.Dash.Player.{
  Player, VideoData, Algorithm, is_play, is_paused, is_init_buffering, segment_num, PlayerState,
}
use dash_dim.Dash.Client.{delay_request_handle, level_before, add_segment}

-- Every answer is a quality of the video.
abbrev pub IsChoice : VideoData → Algorithm → Type 0
IsChoice v algorithm = (n : ℕ) → (algorithm n).0 < length v.representation

module _ {num frames : ℕ} {v : VideoData} where
  pub core-IsPlaying :
      (p p' : Player)
      → core p ≡ core p'
      → p.player_state ≡ p'.player_state
      → IsPlaying num frames v p
      → IsPlaying num frames v p'
  core-IsPlaying p p' same state s = record {
    counts = core-IsCounted num frames v p p' same s.counts;
    playing =
        subst (λ (k : PlayerState). (is_play k ≡ false) ⊎ (0 < p'.segments_in_buffer)) state
          (subst (λ (n : ℕ). (is_play p.player_state ≡ false) ⊎ (0 < n))
            (ap (λ (k : Core). k.3) same) s.playing);
    pausing =
        subst (λ (k : PlayerState). (is_paused k ≡ false) ⊎ (p'.segments_in_buffer ≡ 0)) state
          (subst (λ (n : ℕ). (is_paused p.player_state ≡ false) ⊎ (n ≡ 0))
            (ap (λ (k : Core). k.3) same) s.pausing);
  }

  pub level_before-some :
      (now : ℕ) (p : Player)
      → IsCounted num frames v p
      → Yields (λ (ms : ℕ). Unit {0}) (level_before now p)
  unfolding level_before
  level_before-some now p c =
      if-intro (ltb 0 p.segment_counter) (Yields (λ (ms : ℕ). Unit {0}))
        (λ e.
          let (ms, some_level) =
            known p.buffer_data.buffer_level_new (omega (arith, c.levels, ltb→lt _ _ e)) in
          let (end, some_end) =
            known p.throughput.transmission_end (omega (arith, c.ends, ltb→lt _ _ e)) in
          rw (some_level, some_end)
            (if-intro (is_init_buffering p.player_state) (Yields (λ (ms : ℕ). Unit {0})) (λ _. tt)
              (λ _. tt)))
        (λ _. tt)
    where
      known : (xs : List ℕ) → 0 < length xs → (x : ℕ) × (back xs ≡ some x)
      known xs h =
          let (x, e, _) = Yields-eq (λ (x : ℕ). Unit {0}) (back xs) (back-Yields xs h) in (x, e)

  pub add_segment-IsCounted :
      (now old : ℕ) (p : Player)
      → IsCounted num frames v p
      → p.read_bytes ≡ p.segment_bytes
      → IsCounted num frames v (add_segment now old p)
  unfolding add_segment
  add_segment-IsCounted now old p c same = record {
    video = c.video;
    frames_eq = c.frames_eq;
    counted = omega (arith, c.counted);
    played = let (r, played, less, _) = c.played in (r, played, less, inl (omega arith));
    ends = omega (arith, c.ends, length-append p.throughput.transmission_end (now ∷ []));
    levels = length-append p.buffer_data.buffer_level_new _ ∙ ap (λ (n : ℕ). n + 1) c.levels;
    enough =
        All-append (λ ms. v.segment_duration ≤ ms) p.buffer_data.buffer_level_new _ c.enough
          (omega (arith, ap (λ (w : VideoData). w.segment_duration) c.video), tt);
    session = omega (arith, c.session, sum-append p.throughput.bytes_received (p.read_bytes ∷ []));
    in_range = c.in_range;
    settled = c.settled;
  }

  pub delay_request_handle-IsPlaying :
      (now : ℕ) (p : Player)
      → IsVideo num v
      → IsPlaying num frames v p
      → Yields (IsPlaying num frames v) (delay_request_handle now p)
  unfolding delay_request_handle
  delay_request_handle-IsPlaying now p video s =
      let (m, sent) = send_request_succeeds p.fd (p.segment_bytes % 2 ^ 32) in
      let size : segment_num p.video_data ≡ some num =
        ap segment_num s.counts.video ∙ segment_num-IsVideo v video in
      rw (size, sent, delay_request_handle)
        (if-intro (ltb p.index num) (Yields (IsPlaying num frames v))
          (λ e. record {
            counts = record {
              video = s.counts.video;
              frames_eq = s.counts.frames_eq;
              counted = s.counts.counted;
              played = s.counts.played;
              ends = s.counts.ends;
              levels = s.counts.levels;
              enough = s.counts.enough;
              session = s.counts.session;
              in_range = omega (arith, ltb→lt _ _ e);
              settled = s.counts.settled;
            };
            playing = s.playing;
            pausing = s.pausing;
          })
          (λ _. s))
