-- ===== src/Dash/Client/Playback.antt =====
-- PlayBackHandle and CheckBufferStatus keep the invariant of the player.
use mathlib.Core.Path.{subst}
use dash_dim.Prelude.{
  ℕ, ◌<◌, ◌≡◌, refl, ap, ◌∙◌, Bool, false, ◌&&◌, Option, none, some, List, [], ◌∷◌, ltb, leb, ◌==◌,
  if◌then◌else◌, length, get_elem?, Yields, Yields-bind, Yields-map, arith, All, if-intro, ◌⊎◌, inl,
  inr, ltb→lt, ==→≡, ==→≢,
}
use dash_dim.Dash.Client.Invariant.{
  IsVideo, IsCounted, IsPlaying, Core, core, core-IsCounted, play_frame-IsCounted,
}
use dash_dim.Dash.Player.{Player, VideoData, is_paused, is_init_buffering, segment_num}
use dash_dim.Dash.Client.{
  play_frame, after_frame, check_buffer_status, start_playback, resume_playback, play_back_handle,
}

pub segment_num-IsVideo : {num : ℕ} (v : VideoData) → IsVideo num v → segment_num v ≡ some num
segment_num-IsVideo {num} v video = go v.representation video.some_quality video.rectangular
  where
    go :
        (rep : List (List ℕ))
        → 0 < length rep
        → All (λ sizes. length sizes ≡ num) rep
        → elim (get_elem? rep 0) as (λ x. Option ℕ) [
          | none ↦ none
          | some sizes ↦ some (length sizes)
        ]
          ≡ some num
    go [] h k = absurd (omega arith)
    go (sizes ∷ rep) h (k, ks) = ap some k

start_core : (now : ℕ) (p : Player) → core p ≡ core (start_playback now p)
unfolding start_playback
start_core now p =
    if-intro (is_init_buffering p.player_state && leb p.init_segments p.segments_in_buffer)
      (λ p'. core p ≡ core p') (λ _. refl) (λ _. refl)

resume_core : (now : ℕ) (p : Player) → core p ≡ core (resume_playback now p)
unfolding resume_playback
resume_core now p =
    if-intro (is_paused p.player_state && ltb 0 p.segments_in_buffer) (λ p'. core p ≡ core p')
      (λ _. refl) (λ _. refl)

status_core : (now : ℕ) (p : Player) → core p ≡ core (check_buffer_status now p)
unfolding check_buffer_status
status_core now p = start_core now p ∙ resume_core now (start_playback now p)

-- With something in the buffer the player does not stay paused.
resume_pausing :
    (now : ℕ) (p : Player)
    → 0 < p.segments_in_buffer
    → is_paused (resume_playback now p).player_state ≡ false
unfolding resume_playback
resume_pausing now p full =
    if-intro (is_paused p.player_state && ltb 0 p.segments_in_buffer)
      (λ (p' : Player). is_paused p'.player_state ≡ false) (λ _. refl)
      (λ e. still (is_paused p.player_state) e)
  where
    still : (b : Bool) → (b && ltb 0 p.segments_in_buffer) ≡ false → b ≡ false
    still b e = ground arith

module _ {num frames : ℕ} {v : VideoData} where
  after_frame-IsPlaying :
      (now : ℕ) (p : Player)
      → IsVideo num v
      → IsCounted num frames v p
      → (is_paused p.player_state ≡ false) ⊎ (p.segments_in_buffer ≡ 0)
      → Yields (IsPlaying num frames v) (after_frame now p)
  unfolding after_frame
  after_frame-IsPlaying now p video c pausing =
      if-intro (p.segments_in_buffer == 0) (Yields (IsPlaying num frames v))
        (λ e.
          let size : segment_num p.video_data ≡ some num =
            ap segment_num c.video ∙ segment_num-IsVideo v video in
          rw size (
            if-intro (leb num p.playback_index) (Yields (IsPlaying num frames v))
              (λ _. record {
                counts = core-IsCounted num frames v p _ refl c;
                playing = inl refl;
                pausing = inl refl;
              })
              (λ _. record {
                counts = core-IsCounted num frames v p _ refl c;
                playing = inl refl;
                pausing = inr (==→≡ _ _ e);
              })))
        (λ e. record {
          counts = core-IsCounted num frames v p _ refl c;
          playing = inr (omega (arith, ==→≢ _ _ e));
          pausing = pausing;
        })

  pub play_back_handle-IsPlaying :
      (now : ℕ) (p : Player)
      → IsVideo num v
      → IsPlaying num frames v p
      → Yields (IsPlaying num frames v) (play_back_handle now p)
  unfolding play_back_handle
  play_back_handle-IsPlaying now p video s =
      Yields-bind
        (λ p'.
          IsCounted num frames v p'
          × ((is_paused p'.player_state ≡ false) ⊎ (p'.segments_in_buffer ≡ 0)))
        (IsPlaying num frames v) (if ltb 0 p.segments_in_buffer then play_frame p else some p)
        (after_frame now)
        (if-intro (ltb 0 p.segments_in_buffer)
          (Yields (λ p'.
            IsCounted num frames v p'
            × ((is_paused p'.player_state ≡ false) ⊎ (p'.segments_in_buffer ≡ 0))))
          (λ e.
            Yields-map (λ p'. IsCounted num frames v p' × (p'.player_state ≡ p.player_state))
              (λ p'.
                IsCounted num frames v p'
                × ((is_paused p'.player_state ≡ false) ⊎ (p'.segments_in_buffer ≡ 0)))
              (play_frame p) (play_frame-IsCounted p s.counts (ltb→lt _ _ e))
              (λ p' (c, same). (
                c,
                inl (elim s.pausing [
                  | inl awake ↦ ap is_paused same ∙ awake
                  | inr empty ↦ absurd (omega (arith, ltb→lt _ _ e))
                ]),
              )))
          (λ e. (s.counts, s.pausing)))
        (λ p' (c, pausing). after_frame-IsPlaying now p' video c pausing)

  pub check_buffer_status-IsPlaying :
      (now : ℕ) (p : Player)
      → IsCounted num frames v p
      → 0 < p.segments_in_buffer
      → IsPlaying num frames v (check_buffer_status now p)
  unfolding check_buffer_status
  check_buffer_status-IsPlaying now p c some_ = record {
    counts = core-IsCounted num frames v p (check_buffer_status now p) (status_core now p) c;
    playing = inr (subst (λ (n : ℕ). 0 < n) (ap (λ (k : Core). k.3) (status_core now p)) some_);
    pausing = inl (
        unfold check_buffer_status in
        (resume_pausing now (start_playback now p)
          (subst (λ (n : ℕ). 0 < n) (ap (λ (k : Core). k.3) (start_core now p)) some_)));
  }
