-- ===== src/Dash/Session/Events.antt =====
-- The calls from the client's event loop, as far as the connection goes.
use dash_dim.Prelude.{
  ℕ, ◌+◌, ◌≤◌, ◌<◌, ◌≡◌, refl, Bool, true, false, ◌&&◌, Option, none, some, List, [], ◌∷◌, ltb, leb,
  if◌then◌else◌, length, IfSome, Yields, Yields-bind, Yields-map, Yields-IfSome, arith, All,
  if-intro, ltb→lt, leb→le, length-append, ◌⊎◌, inl, inr,
}
use dash_dim.Connection.{Read}
use dash_dim.Dash.Player.{
  Player, VideoData, Algorithm, TcpConnectionStatus, is_connecting, segment_num, tcp_connecting,
  tcp_status_min, tcp_disconnect, tcp_connected,
}
use dash_dim.Dash.Client.{
  on_connected, on_writable, on_read_event, on_event, io, player_alarm_event, request_alarm_event,
  is_due, play_back_handle, delay_request_handle,
}
use dash_dim.Dash.Client.Invariant.{IsVideo, IsPlaying}
use dash_dim.Dash.Client.Download.{IsChoice, core-IsPlaying, delay_request_handle-IsPlaying}
use dash_dim.Dash.Client.Reading.{on_read_event-IsPlaying}
use dash_dim.Dash.Client.Playback.{play_back_handle-IsPlaying}
use dash_dim.Dash.Client.Chunks.{concat, reads, on_read_event-concat}
use dash_dim.Dash.Session.{all_nonempty, can_read}
use dash_dim.Dash.Session.Asking.{
  IsSize, IsSized, line, IsReady, IsAsking, delay_request_handle-IsAsking,
}
use dash_dim.Dash.Session.Receiving.{IsReceiving, IsFurther, on_chunk, play_back_handle-line}

both : (a b : Bool) → (a && b) ≡ true → (a ≡ true) × (b ≡ true)
both true b e = (refl, e)
both false b e = (e, cc)

all_nonempty-All :
    (chunks : List (List ℕ)) → all_nonempty chunks ≡ true → All (λ c. 0 < length c) chunks
all_nonempty-All [] h = tt
all_nonempty-All (chunk ∷ chunks) h =
    let (one, more) = both (ltb 0 (length chunk)) (all_nonempty chunks) h in
    (ltb→lt _ _ one, all_nonempty-All chunks more)

pub can_read_lem :
    (chunks : List (List ℕ)) (arriving : ℕ)
    → can_read chunks arriving ≡ true
    → (all_nonempty chunks ≡ true) × (length (concat chunks) ≤ arriving)
can_read_lem chunks arriving h =
    let (full, fits) = both (all_nonempty chunks) (leb (length (concat chunks)) arriving) h in
    (full, leb→le _ _ fits)

module _ {num frames : ℕ} {v : VideoData} where
  -- A client that is connected does nothing more when it is writable.
  on_writable_connected :
      (algorithm : Algorithm) (now : ℕ) (p : Player)
      → IsPlaying num frames v p
      → on_writable algorithm now p ≡ some p
  unfolding on_writable
  on_writable_connected algorithm now p s = go p.status s.counts.settled
    where
      go :
          (status : TcpConnectionStatus)
          → is_connecting status ≡ false
          → elim status as (λ x. Option Player) [
            | tcp_connecting ↦ on_connected algorithm now (record p { status = tcp_connected })
            | tcp_status_min ↦ some p
            | tcp_disconnect ↦ some p
            | tcp_connected ↦ some p
          ]
            ≡ some p
      go tcp_connecting h = absurd (ground arith)
      go tcp_status_min h = refl
      go tcp_disconnect h = refl
      go tcp_connected h = refl

  pub io_lem :
      (algorithm : Algorithm)
      → IsChoice v algorithm
      → IsVideo num v
      → (now : ℕ) (writable : Bool) (rs : List Read) (p : Player) → IsPlaying num frames v p
      → (P : Player → Type 0) → IfSome P (on_read_event algorithm now rs p)
      → Yields
          (λ c. IsPlaying num frames v c × P c)
          (on_event algorithm now (io false true writable rs) p)
  unfolding on_event
  io_lem algorithm choice video now writable rs p s P h =
      Yields-bind (λ c. IsPlaying num frames v c × P c) (λ c. IsPlaying num frames v c × P c)
        (on_read_event algorithm now rs p)
        (λ c. if writable then on_writable algorithm now c else some c)
        (Yields-IfSome (IsPlaying num frames v) P (on_read_event algorithm now rs p)
          (on_read_event-IsPlaying algorithm choice video now rs p s) h)
        (λ c (s', h').
          if-intro writable (Yields (λ c. IsPlaying num frames v c × P c))
            (λ _. rw (on_writable_connected algorithm now c s') (s', h')) (λ _. (s', h')))

  -- The playback.
  pub play_alarm_lem :
      (algorithm : Algorithm) (now : ℕ) (p : Player)
      → IsVideo num v
      → IsPlaying num frames v p
      → Yields
          (λ c. IsPlaying num frames v c × (line p ≡ line c))
          (on_event algorithm now player_alarm_event p)
  unfolding on_event
  play_alarm_lem algorithm now p video s =
      if-intro (is_due now p.player_alarm)
        (Yields (λ c. IsPlaying num frames v c × (line p ≡ line c)))
        (λ _.
          Yields-IfSome (IsPlaying num frames v) (λ c. line p ≡ line c)
            (play_back_handle now (record p { player_alarm = none }))
            (play_back_handle-IsPlaying now _ video (core-IsPlaying p _ refl refl s))
            (play_back_handle-line now (record p { player_alarm = none })))
        (λ _. (s, refl))

-- The chunks of a segment.
pub on_chunks :
    {num : ℕ} {v : VideoData} {log out : List ℕ} (algorithm : Algorithm) (now : ℕ)
    (chunks : List (List ℕ)) (p : Player)
    → segment_num v ≡ some num
    → IsSized v
    → IsReceiving num v log out (line p)
    → all_nonempty chunks ≡ true
    → p.read_bytes < p.segment_bytes
    → p.read_bytes + length (concat chunks) ≤ p.segment_bytes
    → IfSome
        (λ c.
          IsFurther num v log out (p.read_bytes + length (concat chunks)) p.segment_bytes (line c))
        (on_read_event algorithm now (reads chunks) p)
unfolding on_read_event
on_chunks algorithm now [] p num_lem sized r full open_ fits =
    inl (omega arith, omega arith, refl, r)
on_chunks algorithm now (chunk ∷ chunks) p num_lem sized r full open_ fits =
    rw
      (on_read_event-concat algorithm now chunk chunks p (all_nonempty-All (chunk ∷ chunks) full)
        fits)
      (on_chunk num_lem algorithm now (concat (chunk ∷ chunks)) p sized r)

-- Where nothing arrives, nothing is read.
pub nothing_read : (chunks : List (List ℕ)) → can_read chunks 0 ≡ true → chunks ≡ []
nothing_read [] h = refl
nothing_read (chunk ∷ chunks) h =
    let (full, fits) = can_read_lem (chunk ∷ chunks) 0 h in
    absurd (
      omega
        (arith, (all_nonempty-All (chunk ∷ chunks) full).0, length-append chunk (concat chunks)))

-- The request alarm, if it is not set.
pub ask_alarm_quiet :
    (algorithm : Algorithm) (now : ℕ) (p : Player)
    → p.request_alarm ≡ none
    → on_event algorithm now request_alarm_event p ≡ some p
unfolding on_event
ask_alarm_quiet algorithm now p quiet = rw (quiet, on_event) refl

-- And if it is.
pub ask_alarm_lem :
    {num frames : ℕ} {v : VideoData} {log out : List ℕ} (algorithm : Algorithm) (now : ℕ)
    (p : Player)
    → segment_num v ≡ some num
    → IsVideo num v
    → IsPlaying num frames v p
    → IsReady num v log out (record (line p) { request_alarm = none })
    → p.read_bytes ≡ 0
    → IsSize p.segment_bytes
    → Yields
        (λ c. IsPlaying num frames v c × ((line p ≡ line c) ⊎ IsAsking num v log out (line c)))
        (on_event algorithm now request_alarm_event p)
unfolding on_event
ask_alarm_lem {num} {frames} {v} {log} {out} algorithm now p num_lem video s ready fresh size =
    if-intro (is_due now p.request_alarm)
      (Yields
        (λ c. IsPlaying num frames v c × ((line p ≡ line c) ⊎ IsAsking num v log out (line c))))
      (λ _.
        Yields-map (λ c. IsPlaying num frames v c × IsAsking num v log out (line c))
          (λ c. IsPlaying num frames v c × ((line p ≡ line c) ⊎ IsAsking num v log out (line c)))
          (delay_request_handle now p')
          (Yields-IfSome (IsPlaying num frames v) (λ c. IsAsking num v log out (line c))
            (delay_request_handle now p')
            (delay_request_handle-IsPlaying now p' video (core-IsPlaying p p' refl refl s))
            (delay_request_handle-IsAsking num_lem now p' ready fresh size))
          (λ c (s', a). (s', inr a)))
      (λ _. (s, inl refl))
  where
    p' : Player
    p' = record p { request_alarm = none }
