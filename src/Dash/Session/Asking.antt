-- ===== src/Dash/Session/Asking.antt =====
-- What a client asks for and when: the line of DashClient, apart from its playback.
use dash_dim.Prelude.{
  ℕ, ◌+◌, ◌%◌, ◌^◌, ◌≤◌, ◌<◌, ◌≡◌, refl, ap, ◌∙◌, true, Option, none, some, List, ◌++◌, ◌==◌,
  length, get_elem?, get_elem?-IfSome, IfSome, IfSome-bind, arith, All, if-intro, lt→ltb, ◌⊎◌, inl,
  inr,
}
use dash_dim.Prelude.Int.{ℤ, pos, ltb_ℤ}
use dash_dim.Dash.Request.{message, send_request-message}
use dash_dim.Dash.Player.{Player, VideoData, Algorithm, segment_num}
use dash_dim.Dash.Client.{delay_request_handle, next_size, ask, request_segment}

-- A segment is not empty, and an int holds its size.
abbrev pub IsSize : ℕ → Type 0
IsSize n = (0 < n) × (n < 2 ^ 31)

abbrev pub IsSized : VideoData → Type 0
IsSized v = All (All IsSize) v.representation

-- The part of a player that its connection depends on.
pub record Line : Type 0 where
  pub video_data : VideoData
  pub fd : ℤ
  pub index : ℕ
  pub segment_bytes : ℕ
  pub read_bytes : ℕ
  pub bytes_received : List ℕ
  pub request_alarm : Option ℕ
  pub output : List ℕ

abbrev pub line : Player → Line
line p = record {
  video_data = p.video_data;
  fd = p.fd;
  index = p.index;
  segment_bytes = p.segment_bytes;
  read_bytes = p.read_bytes;
  bytes_received = p.throughput.bytes_received;
  request_alarm = p.request_alarm;
  output = p.output;
}

-- The next segment is to be asked for: `log` holds the sizes of those that came, and `out` what the
-- client has written.
pub record IsReady (num : ℕ) (v : VideoData) (log out : List ℕ) (l : Line) : Type 0 where
  pub video : l.video_data ≡ v
  pub open_fd : ltb_ℤ (pos 0) l.fd ≡ true
  pub got : l.bytes_received ≡ log
  pub wrote : l.output ≡ out
  pub quiet : l.request_alarm ≡ none
  pub place : l.index ≡ length log
  pub more : l.index < num

-- It has been asked for, by a message, or an alarm will ask.
abbrev pub IsSending : ℕ → List ℕ → List ℕ → Line → Type 0
IsSending num log out l =
    ((l.request_alarm ≡ none)
      × (l.output ≡ out ++ message l.segment_bytes)
      × (l.index ≡ length log + 1)
      × (l.index ≤ num))
    ⊎ ((t : ℕ) × (l.request_alarm ≡ some t)
        × (l.output ≡ out)
        × (l.index ≡ length log)
        × (l.index < num))

pub record IsAsking (num : ℕ) (v : VideoData) (log out : List ℕ) (l : Line) : Type 0 where
  pub video : l.video_data ≡ v
  pub open_fd : ltb_ℤ (pos 0) l.fd ≡ true
  pub got : l.bytes_received ≡ log
  pub fresh : l.read_bytes ≡ 0
  pub size : IsSize l.segment_bytes
  pub sending : IsSending num log out l

next_size-IsSize :
    (v : VideoData) (algorithm : Algorithm) (p : Player)
    → p.video_data ≡ v
    → IsSized v
    → IfSome IsSize (next_size algorithm p)
unfolding next_size
next_size-IsSize v algorithm p video sized =
    IfSome-bind (All IsSize) IsSize
      (get_elem? p.video_data.representation (algorithm (length p.history_quality)).0)
      (λ sizes. get_elem? sizes p.index)
      (get_elem?-IfSome (All IsSize) p.video_data.representation _ (rw video sized))
      (λ sizes h. get_elem?-IfSome IsSize sizes p.index h)

module _ {num : ℕ} {v : VideoData} (num_lem : segment_num v ≡ some num) {log out : List ℕ} where
  pub delay_request_handle-IsAsking :
      (now : ℕ) (p : Player)
      → IsReady num v log out (line p)
      → p.read_bytes ≡ 0
      → IsSize p.segment_bytes
      → IfSome (λ p'. IsAsking num v log out (line p')) (delay_request_handle now p)
  unfolding delay_request_handle
  delay_request_handle-IsAsking now p r fresh size =
      let known : segment_num p.video_data ≡ some num = ap segment_num r.video ∙ num_lem in
      let same : p.segment_bytes % 2 ^ 32 ≡ p.segment_bytes = omega (arith, size.1) in
      rw
        (
          known,
          same,
          lt→ltb p.index num r.more,
          send_request-message p.fd p.segment_bytes r.open_fd,
          delay_request_handle,
        )
        (record {
          video = r.video;
          open_fd = r.open_fd;
          got = r.got;
          fresh = fresh;
          size = size;
          sending = inl (
            r.quiet,
            ap (λ (o : List ℕ). o ++ message p.segment_bytes) r.wrote,
            omega (arith, r.place),
            omega (arith, r.more),
          );
        })

  ask-IsAsking :
      (reply : ℕ × ℕ) (n now : ℕ) (p : Player)
      → IsReady num v log out (line p)
      → IsSize n
      → IfSome (λ p'. IsAsking num v log out (line p')) (ask reply n now p)
  unfolding ask
  ask-IsAsking (next_quality, delay) n now p r size =
      if-intro (delay == 0) (IfSome (λ p'. IsAsking num v log out (line p')))
        (λ _.
          delay_request_handle-IsAsking now _
            (record {
              video = r.video;
              open_fd = r.open_fd;
              got = r.got;
              wrote = r.wrote;
              quiet = r.quiet;
              place = r.place;
              more = r.more;
            })
            refl size)
        (λ _. record {
          video = r.video;
          open_fd = r.open_fd;
          got = r.got;
          fresh = refl;
          size = size;
          sending = inr (now + delay, refl, r.wrote, r.place, r.more);
        })

  pub request_segment-IsAsking :
      (algorithm : Algorithm) (now : ℕ) (p : Player)
      → IsSized v
      → IsReady num v log out (line p)
      → IfSome (λ p'. IsAsking num v log out (line p')) (request_segment algorithm now p)
  unfolding request_segment
  request_segment-IsAsking algorithm now p sized r =
      IfSome-bind IsSize (λ p'. IsAsking num v log out (line p')) (next_size algorithm p)
        (λ n. ask (algorithm (length p.history_quality)) n now p)
        (next_size-IsSize v algorithm p r.video sized)
        (λ n size. ask-IsAsking (algorithm (length p.history_quality)) n now p r size)
