-- ===== src/Dash/Player.antt =====
-- The state of DashClient of dash/dash_client.h, its constructor, and what its handlers ask of it.
use dash_dim.Prelude.{
  ◌>>=◌, ℕ, ◌*◌, ◌/◌, Bool, true, false, Option, none, some, List, [], if◌then◌else◌, length,
  get_elem?,
}
use dash_dim.Prelude.Int.{ℤ, pos, negsuc, ltb_ℤ}

pub data PlayerState : Type 0 where
  player_not_started player_init_buffering player_play player_paused player_done : PlayerState

pub data TcpConnectionStatus : Type 0 where
  tcp_status_min tcp_connecting tcp_connected tcp_disconnect : TcpConnectionStatus

pub record ThroughputData : Type 0 where
  pub transmission_requested : List ℕ
  pub transmission_start : List ℕ
  pub transmission_end : List ℕ
  pub bytes_received : List ℕ

-- The levels are milliseconds.
pub record BufferData : Type 0 where
  pub time_now : List ℕ
  pub buffer_level_old : List ℕ
  pub buffer_level_new : List ℕ

-- The sizes of the segments at each quality, and the milliseconds that a segment plays.
pub record VideoData : Type 0 where
  pub representation : List (List ℕ)
  pub segment_duration : ℕ

-- `alarms` holds the deadlines of `player_alarm_` and `request_alarm_`. `registered` says whether the
-- event loop has the descriptor, and `output` logs the bytes given to write().
pub record Player : Type 0 where
  pub video_data : VideoData
  pub history_quality : List ℕ
  pub fd : ℤ
  pub quality : ℕ
  pub index : ℕ
  pub playback_index : ℕ
  pub played_frames : ℕ
  pub frames_in_segment : ℕ
  pub segments_in_buffer : ℕ
  pub segment_bytes : ℕ
  pub read_bytes : ℕ
  pub session_bytes : ℕ
  pub first_request_time : ℕ
  pub pause_start : ℕ
  pub pause_time : ℤ
  pub startup_time : ℤ
  pub status : TcpConnectionStatus
  pub player_state : PlayerState
  pub throughput : ThroughputData
  pub buffer_data : BufferData
  pub init_segments : ℕ
  pub segment_counter : ℕ
  pub player_alarm : Option ℕ
  pub request_alarm : Option ℕ
  pub registered : Bool
  pub output : List ℕ

abbrev pub frames_per_second : ℕ
frames_per_second = 25

-- DashClient's constructor, and AsynConnect on a socket that is being connected. The files of the
-- segments are read by ReadSegmentFromFile into `video`.
unfoldable pub player : ℤ → VideoData → ℕ → Player
player fd video init_segments = record {
  video_data = video;
  history_quality = [];
  fd = fd;
  quality = 0;
  index = 0;
  playback_index = 0;
  played_frames = 0;
  frames_in_segment = video.segment_duration * frames_per_second / 1000;
  segments_in_buffer = 0;
  segment_bytes = 0;
  read_bytes = 0;
  session_bytes = 0;
  first_request_time = 0;
  pause_start = 0;
  pause_time = pos 0;
  startup_time = pos 0;
  status = tcp_connecting;
  player_state = player_not_started;
  throughput = record {
    transmission_requested = [];
    transmission_start = [];
    transmission_end = [];
    bytes_received = [];
  };
  buffer_data = record { time_now = []; buffer_level_old = []; buffer_level_new = [] };
  init_segments = init_segments;
  segment_counter = 0;
  player_alarm = none;
  request_alarm = none;
  registered = true;
  output = [];
}

-- What GetNextQuality answers at its n-th call: `nextQuality`, and `nextDownloadDelay`.
abbrev pub Algorithm : Type 0
Algorithm = ℕ → ℕ × ℕ

abbrev pub is_play : PlayerState → Bool
is_play player_play = true
is_play _ = false

abbrev pub is_init_buffering : PlayerState → Bool
is_init_buffering player_init_buffering = true
is_init_buffering _ = false

abbrev pub is_paused : PlayerState → Bool
is_paused player_paused = true
is_paused _ = false

abbrev pub is_connecting : TcpConnectionStatus → Bool
is_connecting tcp_connecting = true
is_connecting _ = false

-- `representation[0].size()`.
abbrev pub segment_num : VideoData → Option ℕ
segment_num video = get_elem? video.representation 0 >>= λ sizes. some (length sizes)

unfoldable pub close : Player → Player
close p = if ltb_ℤ (pos 0) p.fd then record p { status = tcp_disconnect; fd = negsuc 0 } else p

-- OnUnregistration does nothing.
unfoldable pub unregister_fd : Player → Player
unregister_fd p = record p { registered = false }
