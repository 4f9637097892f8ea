-- ===== src/Dash/Client.antt =====
-- DashClient of dash/dash_client.h and dash/dash_client.cc: a player that asks for the segments of a
-- video one by one, keeps the level of its buffer, and plays it frame by frame.
-- Times are microseconds; `now` is what the clock says during one call from the event loop. The
-- adaptation algorithm is a parameter: what it answers at its n-th call. A function is `none` where
-- the code reads out of bounds, divides by zero, or a CHECK aborts. The trace file is left out.
pub mod Invariant
pub mod Playback
pub mod Download
pub mod Reading
pub mod Runs
pub mod Chunks
use dash_dim.Prelude.{
  ◌>>=◌, back, ℕ, zero, suc, ◌+◌, ◌-◌, ◌*◌, ◌/◌, ◌%◌, ◌^◌, ◌≤◌, ◌<◌, Bool, true, false, ◌&&◌,
  Option, none, some, List, [], ◌∷◌, ◌++◌, ltb, leb, ◌==◌, if◌then◌else◌, length, get_elem?,
}
use dash_dim.Prelude.Int.{ℤ, pos, negsuc, pos_part, ltb_ℤ, ◌-ℤ◌, ◌+ℤ◌, div_ℤ}
use dash_dim.Connection.{Read, end_of_file, bytes}
use dash_dim.Dash.Request.{send_request}
use dash_dim.Dash.Player.{
  Algorithm, Player, close, frames_per_second, is_init_buffering, is_paused, player_done,
  player_init_buffering, player_paused, player_play, segment_num, tcp_connected, tcp_connecting,
  tcp_disconnect, tcp_status_min, unregister_fd,
}

-- `segment_bytes_` goes to an int, and from there to the uint32_t of the message.
unfoldable pub delay_request_handle : ℕ → Player → Option Player
delay_request_handle now p = elim (segment_num p.video_data) [
  | none ↦ some p
  | some num ↦
      if ltb p.index num
      then (do
        message ← send_request p.fd (p.segment_bytes % 2 ^ 32)
        some (record p {
          throughput = record (p.throughput) {
            transmission_requested = p.throughput.transmission_requested ++ (now ∷ []);
          };
          output = p.output ++ message;
          index = p.index + 1;
        }))
      else some p
]

-- `representation[quality_][index_]`, for the quality that the algorithm answers.
unfoldable pub next_size : Algorithm → Player → Option ℕ
next_size algorithm p = do
  sizes ← get_elem? p.video_data.representation (algorithm (length p.history_quality)).0
  get_elem? sizes p.index

-- RequestSegment once it has the answer and the size.
unfoldable pub ask : ℕ × ℕ → ℕ → ℕ → Player → Option Player
ask (next_quality, delay) segment_bytes now p =
    let p' = record p {
      quality = next_quality;
      history_quality = p.history_quality ++ (next_quality ∷ []);
      read_bytes = 0;
      segment_bytes = segment_bytes;
    } in
    if delay == 0
    then delay_request_handle now p'
    else some (record p' { request_alarm = some (now + delay) })

unfoldable pub request_segment : Algorithm → ℕ → Player → Option Player
request_segment algorithm now p = do
  segment_bytes ← next_size algorithm p
  ask (algorithm (length p.history_quality)) segment_bytes now p

-- OnConnected, where the event loop finds a connecting socket writable.
unfoldable pub on_connected : Algorithm → ℕ → Player → Option Player
on_connected algorithm now p = request_segment algorithm now (record p {
  first_request_time = now;
  player_state = player_init_buffering;
  player_alarm = none;
  request_alarm = none;
})

-- The two tests of CheckBufferStatus: enough segments came to start, or one came after a pause.
unfoldable pub start_playback : ℕ → Player → Player
start_playback now p =
    if is_init_buffering p.player_state && leb p.init_segments p.segments_in_buffer
    then record p {
      player_state = player_play;
      startup_time = pos now -ℤ pos p.first_request_time;
      player_alarm = some now;
    }
    else p

unfoldable pub resume_playback : ℕ → Player → Player
resume_playback now p =
    if is_paused p.player_state && ltb 0 p.segments_in_buffer
    then record p {
      player_state = player_play;
      pause_time =
          if ltb 0 p.pause_start
          then p.pause_time +ℤ (pos now -ℤ pos p.pause_start)
          else p.pause_time;
      pause_start = 0;
      player_alarm = some now;
    }
    else p

unfoldable pub check_buffer_status : ℕ → Player → Player
check_buffer_status now p = resume_playback now (start_playback now p)

-- The milliseconds that are left in the buffer when a segment has come.
unfoldable pub level_before : ℕ → Player → Option ℕ
level_before now p =
    if ltb 0 p.segment_counter
    then (do
      ms ← back p.buffer_data.buffer_level_new
      (if is_init_buffering p.player_state then some ms else (do
        end ← back p.throughput.transmission_end
        some (pos_part (pos ms -ℤ div_ℤ (pos now -ℤ pos end) 1000)))))
    else some 0

-- A segment is complete: the bookkeeping of OnReadEvent, up to its call of CheckBufferStatus.
unfoldable pub add_segment : ℕ → ℕ → Player → Player
add_segment now old p = record p {
  session_bytes = p.session_bytes + p.segment_bytes;
  buffer_data = record {
    time_now = p.buffer_data.time_now ++ (now ∷ []);
    buffer_level_old = p.buffer_data.buffer_level_old ++ (old ∷ []);
    buffer_level_new =
        p.buffer_data.buffer_level_new ++ ((old + p.video_data.segment_duration) ∷ []);
  };
  throughput = record (p.throughput) {
    transmission_end = p.throughput.transmission_end ++ (now ∷ []);
    bytes_received = p.throughput.bytes_received ++ (p.read_bytes ∷ []);
  };
  segment_counter = p.segment_counter + 1;
  segments_in_buffer = p.segments_in_buffer + 1;
}

-- `index_==segment_num`.
unfoldable pub all_requested : Player → Bool
all_requested p = elim (segment_num p.video_data) [ none ↦ false | some num ↦ p.index == num ]

-- What follows CheckBufferStatus; the Boolean says whether OnReadEvent returns.
unfoldable pub after_segment : Algorithm → ℕ → Player → Option (Bool × Player)
after_segment algorithm now p =
    if all_requested p
    then some (true, close (unregister_fd p))
    else (do asked ← request_segment algorithm now p; some (false, asked))

-- All of a complete segment.
unfoldable pub on_segment : Algorithm → ℕ → Player → Option (Bool × Player)
on_segment algorithm now p = do
  old ← level_before now p
  after_segment algorithm now (check_buffer_status now (add_segment now old p))

-- The bytes of one read().
unfoldable pub add_bytes : ℕ → ℕ → Player → Player
add_bytes now nbytes p = record p {
  throughput = record (p.throughput) {
    transmission_start =
        if p.read_bytes == 0
        then p.throughput.transmission_start ++ (now ∷ [])
        else p.throughput.transmission_start;
  };
  read_bytes = p.read_bytes + nbytes;
}

-- OnReadEvent, where read() answers `reads` and then -1. After the end of the file the descriptor
-- stays open, so that read() may say the same again.
unfoldable pub on_read_event : Algorithm → ℕ → List Read → Player → Option Player
on_read_event algorithm now [] p = some p
on_read_event algorithm now (end_of_file ∷ reads) p =
    on_read_event algorithm now reads (unregister_fd p)
on_read_event algorithm now (bytes chunk ∷ reads) p =
    let p' = add_bytes now (length chunk) p in
    let more = on_read_event algorithm now reads p' in
    if p'.read_bytes == p'.segment_bytes
    then elim (on_segment algorithm now p') [
      | none ↦ none
      | some (done, p'') ↦ if done then some p'' else on_read_event algorithm now reads p''
    ]
    else more

-- One frame.
unfoldable pub play_frame : Player → Option Player
play_frame p =
    let frames = p.played_frames + 1 in
    if p.frames_in_segment == 0
    then none
    else if frames % p.frames_in_segment == 0
    then some (record p {
      played_frames = frames;
      segments_in_buffer = p.segments_in_buffer - 1;
      playback_index = p.playback_index + 1;
    })
    else some (record p { played_frames = frames })

-- PlayBackHandle after the frame.
unfoldable pub after_frame : ℕ → Player → Option Player
after_frame now p =
    if p.segments_in_buffer == 0
    then (do
      num ← segment_num p.video_data
      (if leb num p.playback_index
          then some (record p { player_state = player_done })
          else some (record p { player_state = player_paused; pause_start = now })))
    else some (record p { player_alarm = some (now + 1000 / frames_per_second * 1000) })

unfoldable pub play_back_handle : ℕ → Player → Option Player
play_back_handle now p = do
  played ← (if ltb 0 p.segments_in_buffer then play_frame p else some p)
  after_frame now played

-- What the event loop calls: OnEvent with its flags, and the two alarms, each of which goes off when
-- its deadline has come.
pub data Event : Type 0 where
  io : Bool → Bool → Bool → List Read → Event
  player_alarm_event request_alarm_event : Event

abbrev pub is_due : ℕ → Option ℕ → Bool
is_due now none = false
is_due now (some deadline) = leb deadline now

-- The three parts of OnEvent.
unfoldable pub on_error : Player → Player
on_error p = close (unregister_fd (record p { player_state = player_done }))

unfoldable pub on_writable : Algorithm → ℕ → Player → Option Player
on_writable algorithm now p = elim p.status [
  | tcp_connecting ↦ on_connected algorithm now (record p { status = tcp_connected })
  | tcp_status_min ↦ some p
  | tcp_disconnect ↦ some p
  | tcp_connected ↦ some p
]

unfoldable pub on_event : Algorithm → ℕ → Event → Player → Option Player
on_event algorithm now (io error readable writable reads) p = do
  let p' = (if error then on_error p else p) in
      do
        p'' ← (if readable then on_read_event algorithm now reads p' else some p')
        if writable then on_writable algorithm now p'' else some p''
on_event algorithm now player_alarm_event p =
    if is_due now p.player_alarm
    then play_back_handle now (record p { player_alarm = none })
    else some p
on_event algorithm now request_alarm_event p =
    if is_due now p.request_alarm
    then delay_request_handle now (record p { request_alarm = none })
    else some p
