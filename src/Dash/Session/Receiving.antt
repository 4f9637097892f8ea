-- ===== src/Dash/Session/Receiving.antt =====
-- How the segments come to a client: OnReadEvent and the alarms, apart from the playback.
use mathlib.Core.Path.{subst}
use dash_dim.Prelude.{
  ℕ, ◌+◌, ◌%◌, ◌≤◌, ◌≡◌, refl, sym, ap, ◌∙◌, Bool, true, false, ◌&&◌, Option, none, some, List, [],
  ◌∷◌, ◌++◌, ltb, leb, ◌==◌, if◌then◌else◌, length, length-append, IfSome, IfSome-bind, arith,
  if-intro, ==→≡, ==→≢, ◌≢◌, ◌⊎◌, inl, inr,
}
use dash_dim.Prelude.Int.{pos, ltb_ℤ}
use dash_dim.Connection.{bytes}
use dash_dim.Dash.Player.{
  Player, VideoData, Algorithm, is_paused, is_init_buffering, segment_num, close, unregister_fd,
}
use dash_dim.Dash.Client.{
  start_playback, resume_playback, check_buffer_status, level_before, add_segment, all_requested,
  after_segment, on_segment, request_segment, play_frame, after_frame, play_back_handle, add_bytes,
  on_read_event,
}
use dash_dim.Dash.Session.Asking.{IsSize, IsSized, Line, line, IsAsking, request_segment-IsAsking}

start_line : (now : ℕ) (p : Player) → line p ≡ line (start_playback now p)
unfolding start_playback
start_line now p =
    if-intro (is_init_buffering p.player_state && leb p.init_segments p.segments_in_buffer)
      (λ p'. line p ≡ line p') (λ _. refl) (λ _. refl)

resume_line : (now : ℕ) (p : Player) → line p ≡ line (resume_playback now p)
unfolding resume_playback
resume_line now p =
    if-intro (is_paused p.player_state && ltb 0 p.segments_in_buffer) (λ p'. line p ≡ line p')
      (λ _. refl) (λ _. refl)

check_line : (now : ℕ) (p : Player) → line p ≡ line (check_buffer_status now p)
unfolding check_buffer_status
check_line now p = start_line now p ∙ resume_line now (start_playback now p)

frame_line : (p : Player) → IfSome (λ p'. line p ≡ line p') (play_frame p)
unfolding play_frame
frame_line p =
    if-intro (p.frames_in_segment == 0) (IfSome (λ p'. line p ≡ line p')) (λ _. tt)
      (λ _.
        if-intro ((p.played_frames + 1) % p.frames_in_segment == 0)
          (IfSome (λ p'. line p ≡ line p')) (λ _. refl) (λ _. refl))

after_frame-line : (now : ℕ) (p : Player) → IfSome (λ p'. line p ≡ line p') (after_frame now p)
unfolding after_frame
after_frame-line now p =
    if-intro (p.segments_in_buffer == 0) (IfSome (λ p'. line p ≡ line p'))
      (λ _.
        IfSome-bind (λ (n : ℕ). Unit {0}) (λ p'. line p ≡ line p') (segment_num p.video_data) _
          (some_num (segment_num p.video_data))
          (λ num _.
            if-intro (leb num p.playback_index) (IfSome (λ p'. line p ≡ line p')) (λ _. refl)
              (λ _. refl)))
      (λ _. refl)
  where
    some_num : (o : Option ℕ) → IfSome (λ (n : ℕ). Unit {0}) o
    some_num none = tt
    some_num (some n) = tt

-- The playback does not touch the connection.
pub play_back_handle-line :
    (now : ℕ) (p : Player) → IfSome (λ p'. line p ≡ line p') (play_back_handle now p)
unfolding play_back_handle
play_back_handle-line now p =
    IfSome-bind (λ p'. line p ≡ line p') (λ p'. line p ≡ line p')
      (if ltb 0 p.segments_in_buffer then play_frame p else some p) (after_frame now)
      (if-intro (ltb 0 p.segments_in_buffer) (IfSome (λ p'. line p ≡ line p')) (λ _. frame_line p)
        (λ _. refl))
      (λ p' same.
        subst (λ (l : Line). IfSome (λ p''. l ≡ line p'') (after_frame now p')) (sym same)
          (after_frame-line now p'))

-- A segment is on its way: it has been asked for, and is not complete.
pub record IsReceiving (num : ℕ) (v : VideoData) (log out : List ℕ) (l : Line) : Type 0 where
  pub video : l.video_data ≡ v
  pub open_fd : ltb_ℤ (pos 0) l.fd ≡ true
  pub got : l.bytes_received ≡ log
  pub wrote : l.output ≡ out
  pub quiet : l.request_alarm ≡ none
  pub place : l.index ≡ length log + 1
  pub in_range : l.index ≤ num
  pub size : IsSize l.segment_bytes

-- It has come.
pub record IsComplete (num : ℕ) (v : VideoData) (log out : List ℕ) (l : Line) : Type 0 where
  pub video : l.video_data ≡ v
  pub open_fd : ltb_ℤ (pos 0) l.fd ≡ true
  pub got : l.bytes_received ≡ log
  pub wrote : l.output ≡ out
  pub quiet : l.request_alarm ≡ none
  pub place : l.index ≡ length log
  pub in_range : l.index ≤ num

-- Every segment came, and the client has closed its end.
pub record IsClosed (num : ℕ) (log out : List ℕ) (l : Line) : Type 0 where
  pub closed : ltb_ℤ (pos 0) l.fd ≡ false
  pub got : l.bytes_received ≡ log
  pub wrote : l.output ≡ out
  pub quiet : l.request_alarm ≡ none
  pub all : length log ≡ num

-- After a segment: the next one is asked for, or all have come.
abbrev pub IsNext : ℕ → VideoData → List ℕ → List ℕ → Bool × Player → Type 0
IsNext num v log out r =
    ((r.0 ≡ true) × IsClosed num log out (line r.1))
    ⊎ ((r.0 ≡ false) × IsAsking num v log out (line r.1))

-- After `read` of the `size` bytes of a segment.
abbrev pub IsFurther : ℕ → VideoData → List ℕ → List ℕ → ℕ → ℕ → Line → Type 0
IsFurther num v log out read size l =
    ((read ≢ size) × (l.read_bytes ≡ read) × (l.segment_bytes ≡ size) × IsReceiving num v log out l)
    ⊎ ((read ≡ size)
        × (IsClosed num (log ++ (size ∷ [])) out l ⊎ IsAsking num v (log ++ (size ∷ [])) out l))

module _ {num : ℕ} {v : VideoData} (num_lem : segment_num v ≡ some num) {log out : List ℕ} where
  close-IsClosed :
      (p : Player)
      → IsComplete num v log out (line p)
      → length log ≡ num
      → IsClosed num log out (line (close p))
  unfolding close
  close-IsClosed p c all =
      rw (c.open_fd, close)
        (record { closed = refl; got = c.got; wrote = c.wrote; quiet = c.quiet; all = all })

  after_segment-IsNext :
      (algorithm : Algorithm) (now : ℕ) (p : Player)
      → IsSized v
      → IsComplete num v log out (line p)
      → IfSome (IsNext num v log out) (after_segment algorithm now p)
  unfolding after_segment all_requested unregister_fd
  after_segment-IsNext algorithm now p sized c =
      let known : segment_num p.video_data ≡ some num = ap segment_num c.video ∙ num_lem in
      rw (known, after_segment, all_requested)
        (if-intro (p.index == num) (IfSome (IsNext num v log out))
          (λ e. inl (
            refl,
            close-IsClosed _
                (record {
                  video = c.video;
                  open_fd = c.open_fd;
                  got = c.got;
                  wrote = c.wrote;
                  quiet = c.quiet;
                  place = c.place;
                  in_range = c.in_range;
                })
                (omega (arith, c.place, ==→≡ _ _ e)),
          ))
          (λ e.
            IfSome-bind (λ p'. IsAsking num v log out (line p')) (IsNext num v log out)
              (request_segment algorithm now p) (λ asked. some (false, asked))
              (request_segment-IsAsking num_lem algorithm now p sized (record {
                video = c.video;
                open_fd = c.open_fd;
                got = c.got;
                wrote = c.wrote;
                quiet = c.quiet;
                place = c.place;
                more = omega (arith, c.in_range, ==→≢ _ _ e);
              }))
              (λ asked h. inr (refl, h))))

module _ {num : ℕ} {v : VideoData} {log out : List ℕ} where
  -- The bookkeeping of a segment, and the playback that it starts.
  add_segment-IsComplete :
      (now old : ℕ) (p : Player)
      → IsReceiving num v log out (line p)
      → p.read_bytes ≡ p.segment_bytes
      → IsComplete num v
          (log ++ (p.segment_bytes ∷ []))
          out
          (line (check_buffer_status now (add_segment now old p)))
  unfolding add_segment
  add_segment-IsComplete now old p r whole =
      subst (IsComplete num v (log ++ (p.segment_bytes ∷ [])) out)
        (check_line now (add_segment now old p))
        (record {
          video = r.video;
          open_fd = r.open_fd;
          got =
              ap (λ (n : ℕ). p.throughput.bytes_received ++ (n ∷ [])) whole
              ∙ ap (λ (l : List ℕ). l ++ (p.segment_bytes ∷ [])) r.got;
          wrote = r.wrote;
          quiet = r.quiet;
          place = r.place ∙ sym (length-append log (p.segment_bytes ∷ []));
          in_range = r.in_range;
        })

-- A result, whatever it is.
any_result : (o : Option ℕ) → IfSome (λ (n : ℕ). Unit {0}) o
any_result none = tt
any_result (some n) = tt

module _ {num : ℕ} {v : VideoData} (num_lem : segment_num v ≡ some num) {log out : List ℕ} where
  on_segment-IsNext :
      (algorithm : Algorithm) (now : ℕ) (p : Player)
      → IsSized v
      → IsReceiving num v log out (line p)
      → p.read_bytes ≡ p.segment_bytes
      → IfSome (IsNext num v (log ++ (p.segment_bytes ∷ [])) out) (on_segment algorithm now p)
  unfolding on_segment
  on_segment-IsNext algorithm now p sized r whole =
      IfSome-bind (λ (ms : ℕ). Unit {0}) (IsNext num v (log ++ (p.segment_bytes ∷ [])) out)
        (level_before now p)
        (λ old. after_segment algorithm now (check_buffer_status now (add_segment now old p)))
        (any_result (level_before now p))
        (λ old _.
          after_segment-IsNext num_lem algorithm now _ sized
            (add_segment-IsComplete now old p r whole))

  -- Bytes of a segment: it goes on, or the next one is asked for, or all have come.
  pub on_chunk :
      (algorithm : Algorithm) (now : ℕ) (chunk : List ℕ) (p : Player)
      → IsSized v
      → IsReceiving num v log out (line p)
      → IfSome
          (λ p'. IsFurther num v log out (p.read_bytes + length chunk) p.segment_bytes (line p'))
          (on_read_event algorithm now (bytes chunk ∷ []) p)
  unfolding on_read_event add_bytes
  on_chunk algorithm now chunk p sized r =
      if-intro (p.read_bytes + length chunk == p.segment_bytes) (IfSome After)
        (λ e.
          IfSome-bind (IsNext num v (log ++ (p.segment_bytes ∷ [])) out) After
            (on_segment algorithm now p')
            (λ r. if r.0 then some r.1 else on_read_event algorithm now [] r.1)
            (on_segment-IsNext algorithm now p' sized r' (==→≡ _ _ e))
            (λ q next.
              if-intro q.0 (IfSome After)
                (λ done. elim next [
                  | inl (_, c) ↦ inr (==→≡ _ _ e, inl c)
                  | inr (open_, a) ↦ absurd (ground arith)
                ])
                (λ open_. elim next [
                  | inl (done, c) ↦ absurd (ground arith)
                  | inr (_, a) ↦ inr (==→≡ _ _ e, inr a)
                ])))
        (λ e. inl (==→≢ _ _ e, refl, refl, r'))
    where
      p' : Player
      p' = add_bytes now (length chunk) p

      r' : IsReceiving num v log out (line p')
      r' = record {
        video = r.video;
        open_fd = r.open_fd;
        got = r.got;
        wrote = r.wrote;
        quiet = r.quiet;
        place = r.place;
        in_range = r.in_range;
        size = r.size;
      }

      After : Player → Type 0
      After p'' = IsFurther num v log out (p.read_bytes + length chunk) p.segment_bytes (line p'')
