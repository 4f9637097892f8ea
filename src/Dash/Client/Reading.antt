-- ===== src/Dash/Client/Reading.antt =====
-- OnReadEvent of DashClient, and the requests it makes, keep the invariant of the player.
use mathlib.Core.Path.{subst}
use dash_dim.Prelude.{
  ℕ, ◌<◌, ◌≡◌, refl, sym, ap, ◌∙◌, false, some, List, [], ◌∷◌, ◌==◌, if◌then◌else◌, length,
  get_elem?, get_elem?-All, get_elem?-Yields, Yields, Yields-bind, arith, if-intro, ==→≡, ==→≢,
}
use dash_dim.Prelude.Int.{pos, ltb_ℤ}
use dash_dim.Connection.{Read, end_of_file, bytes}
use dash_dim.Dash.Client.Invariant.{IsVideo, IsCounted, IsPlaying}
use dash_dim.Dash.Client.Playback.{segment_num-IsVideo, check_buffer_status-IsPlaying}
use dash_dim.Dash.Client.Download.{
  IsChoice, core-IsPlaying, level_before-some, add_segment-IsCounted,
  delay_request_handle-IsPlaying,
}
use dash_dim.Dash.Player.{Player, VideoData, Algorithm, segment_num, close, unregister_fd}
use dash_dim.Dash.Client.{
  check_buffer_status, request_segment, next_size, ask, level_before, add_segment, on_segment,
  all_requested, after_segment, add_bytes, on_read_event,
}

module _ {num frames : ℕ} {v : VideoData} where
  next_size-Yields :
      (algorithm : Algorithm)
      → IsChoice v algorithm
      → (p : Player) → IsVideo num v
      → IsCounted num frames v p
      → p.index < num
      → Yields (λ (n : ℕ). Unit {0}) (next_size algorithm p)
  unfolding next_size
  next_size-Yields algorithm choice p video c less =
      Yields-bind (λ sizes. length sizes ≡ num) (λ (n : ℕ). Unit {0})
        (get_elem? p.video_data.representation next) (λ sizes. get_elem? sizes p.index)
        (subst
          (λ (w : VideoData).
            Yields (λ sizes. length sizes ≡ num) (get_elem? w.representation next))
          (sym c.video)
          (get_elem?-All (λ sizes. length sizes ≡ num) v.representation next video.rectangular
            (choice (length p.history_quality))))
        (λ sizes size. get_elem?-Yields sizes p.index (omega (arith, size)))
    where
      next : ℕ
      next = (algorithm (length p.history_quality)).0

  ask-IsPlaying :
      (reply : ℕ × ℕ) (n now : ℕ) (p : Player)
      → IsVideo num v
      → IsPlaying num frames v p
      → Yields (IsPlaying num frames v) (ask reply n now p)
  unfolding ask
  ask-IsPlaying (next_quality, delay) n now p video s =
      if-intro (delay == 0) (Yields (IsPlaying num frames v))
        (λ _. delay_request_handle-IsPlaying now _ video (core-IsPlaying p _ refl refl s))
        (λ _. core-IsPlaying p _ refl refl s)

  pub request_segment-IsPlaying :
      (algorithm : Algorithm)
      → IsChoice v algorithm
      → (now : ℕ) (p : Player) → IsVideo num v
      → IsPlaying num frames v p
      → p.index < num
      → Yields (IsPlaying num frames v) (request_segment algorithm now p)
  unfolding request_segment
  request_segment-IsPlaying algorithm choice now p video s less =
      Yields-bind (λ (n : ℕ). Unit {0}) (IsPlaying num frames v) (next_size algorithm p)
        (λ n. ask (algorithm (length p.history_quality)) n now p)
        (next_size-Yields algorithm choice p video s.counts less)
        (λ n _. ask-IsPlaying (algorithm (length p.history_quality)) n now p video s)

  pub close-IsPlaying : (p : Player) → IsPlaying num frames v p → IsPlaying num frames v (close p)
  unfolding close
  close-IsPlaying p s =
      if-intro (ltb_ℤ (pos 0) p.fd) (IsPlaying num frames v)
        (λ _. record {
          counts = record {
            video = s.counts.video;
            frames_eq = s.counts.frames_eq;
            counted = s.counts.counted;
            played = s.counts.played;
            ends = s.counts.ends;
            levels = s.counts.levels;
            enough = s.counts.enough;
            session = s.counts.session;
            in_range = s.counts.in_range;
            settled = refl;
          };
          playing = s.playing;
          pausing = s.pausing;
        })
        (λ _. s)

  after_segment-IsPlaying :
      (algorithm : Algorithm)
      → IsChoice v algorithm
      → (now : ℕ) (p : Player) → IsVideo num v
      → IsPlaying num frames v p
      → Yields (λ r. IsPlaying num frames v r.1) (after_segment algorithm now p)
  unfolding after_segment all_requested unregister_fd
  after_segment-IsPlaying algorithm choice now p video s =
      let size : segment_num p.video_data ≡ some num =
        ap segment_num s.counts.video ∙ segment_num-IsVideo v video in
      rw (size, after_segment, all_requested)
        (if-intro (p.index == num) (Yields (λ r. IsPlaying num frames v r.1))
          (λ _. close-IsPlaying _ (core-IsPlaying p _ refl refl s))
          (λ e.
            Yields-bind (IsPlaying num frames v) (λ r. IsPlaying num frames v r.1)
              (request_segment algorithm now p) (λ asked. some (false, asked))
              (request_segment-IsPlaying algorithm choice now p video s
                (omega (arith, ==→≢ _ _ e, s.counts.in_range)))
              (λ asked s'. s')))

  on_segment-IsPlaying :
      (algorithm : Algorithm)
      → IsChoice v algorithm
      → (now : ℕ) (p : Player) → IsVideo num v
      → IsPlaying num frames v p
      → p.read_bytes ≡ p.segment_bytes
      → Yields (λ r. IsPlaying num frames v r.1) (on_segment algorithm now p)
  unfolding on_segment
  on_segment-IsPlaying algorithm choice now p video s whole =
      Yields-bind (λ (ms : ℕ). Unit {0}) (λ r. IsPlaying num frames v r.1) (level_before now p)
        (λ old. after_segment algorithm now (check_buffer_status now (add_segment now old p)))
        (level_before-some now p s.counts)
        (λ old _. after_segment-IsPlaying algorithm choice now _ video (
          check_buffer_status-IsPlaying now (add_segment now old p)
            (add_segment-IsCounted now old p s.counts whole) (unfold add_segment in omega arith)))

  pub on_read_event-IsPlaying :
      (algorithm : Algorithm)
      → IsChoice v algorithm
      → IsVideo num v
      → (now : ℕ) (reads : List Read) (p : Player) → IsPlaying num frames v p
      → Yields (IsPlaying num frames v) (on_read_event algorithm now reads p)
  unfolding on_read_event unregister_fd add_bytes
  on_read_event-IsPlaying algorithm choice video now [] p s = s
  on_read_event-IsPlaying algorithm choice video now (end_of_file ∷ reads) p s =
      on_read_event-IsPlaying algorithm choice video now reads _ (core-IsPlaying p _ refl refl s)
  on_read_event-IsPlaying algorithm choice video now (bytes chunk ∷ reads) p s =
      if-intro (p'.read_bytes == p'.segment_bytes) (Yields (IsPlaying num frames v))
        (λ e.
          Yields-bind (λ r. IsPlaying num frames v r.1) (IsPlaying num frames v)
            (on_segment algorithm now p')
            (λ r. if r.0 then some r.1 else on_read_event algorithm now reads r.1)
            (on_segment-IsPlaying algorithm choice now p' video s' (==→≡ _ _ e))
            (λ r kept.
              if-intro r.0 (Yields (IsPlaying num frames v)) (λ _. kept)
                (λ _. on_read_event-IsPlaying algorithm choice video now reads r.1 kept)))
        (λ _. on_read_event-IsPlaying algorithm choice video now reads p' s')
    where
      p' : Player
      p' = add_bytes now (length chunk) p

      s' : IsPlaying num frames v p'
      s' = core-IsPlaying p p' refl refl s
