-- ===== src/Tests/Relays.antt =====
-- Concrete runs of a server of the proxy and of the relay.
use dash_dim.Prelude.{ℕ, ◌≤◌, ◌≡◌, refl, inl, true, false, some, List, [], ◌∷◌, ◌++◌, arith, IfSome}
use dash_dim.Prelude.Int.{pos}
use dash_dim.Connection.{end_of_file, bytes}
use dash_dim.Server.{Server, ReadyPath, deal}
use dash_dim.Server.Segments.{Tiles, payloads, Covers, deal-Covers}
use dash_dim.Server.Stream.{Event, budget_alarm, ready, run, Pieces, handed, run-Pieces}
use dash_dim.Server.Stream
use dash_dim.Tests.{connection, gain, slow, slow-IsSend, open_status, budget}
use dash_dim.Octopus.{Base, sink}
use dash_dim.Octopus.Transfer.{Carries, sink-Carries}
use dash_dim.Octopus.Keys.{SessionKey, key, less, less_both}
use dash_dim.Octopus.Signals.{
  Link, Hand, Dispatcher, connecting, connected, conn_failed, conn_close, got,
}
use dash_dim.Octopus.Relay.{
  on_caller_event, on_event, handle_socket_alarm, parse_meta, callee_parse_meta, dialing,
  new_dispatcher,
}
use dash_dim.Octopus.Relay.Meta.{write_meta, callee_parse_meta-write_meta}
use dash_dim.Octopus.Relay.Pointers.{IsLinked}
use dash_dim.Octopus.Relay.Events.{Reaches, Reaches-IsLinked, on_event-IsLinked}
use dash_dim.Octopus.Relay.Events
use dash_dim.Octopus.Relay.Leaks.{handle_socket_alarm-IsIdle, IsIdle}

abbrev paths : List ReadyPath
paths =
    record { number = 1; connection = connection; best = 800000 }
    ∷ record { number = 2; connection = connection; best = 0 }
    ∷ []

abbrev server : Server
server = record {
  socket = record {
    pacer = tt;
    fd = pos 6;
    io_status = open_status;
    fd_write_buffer = [];
    fd_read_buffer = [];
    destroyed = false;
    deletes = 0;
    send_bytes = 0;
    calls = 0;
    sent = [];
  };
  packet_budget = budget;
  write_offset = 1;
  ready_list = paths;
  last_budget_time = 0;
  received = [];
  emitted = [];
  notified = [];
}

abbrev half : ℕ → ℕ → ℕ → ℕ
half kbps total remain = 2

abbrev alarms : List Event
alarms =
    budget_alarm
      (record { share = half; reads = bytes (7 ∷ 8 ∷ 9 ∷ []) ∷ end_of_file ∷ []; now = 10000 })
    ∷ ready []
    ∷ []

server-IsFresh : Stream.IsFresh server
server-IsFresh = record { unread = refl; unsent = refl; nothing = refl; offset = refl }

run-Pieces_example :
    (payloads (run gain alarms server).emitted ++ (run gain alarms server).socket.fd_read_buffer
      ≡ (run gain alarms server).received)
    × Tiles 1 (run gain alarms server).emitted (run gain alarms server).write_offset
    × Pieces 0 (handed (run gain alarms server).emitted) (payloads (run gain alarms server).emitted)
run-Pieces_example = run-Pieces gain alarms server server-IsFresh

deal-Covers_example :
    Covers (λ n. n ≤ 2) 1 (7 ∷ 8 ∷ 9 ∷ []) (deal half 1300000 paths 1 (7 ∷ 8 ∷ 9 ∷ []))
deal-Covers_example =
    deal-Covers half (λ n. n ≤ 2) 1300000
      (record { number = 1; connection = connection; best = 800000 })
      (record { number = 2; connection = connection; best = 0 } ∷ []) 1 (7 ∷ 8 ∷ 9 ∷ [])
      (ground arith)

abbrev base : Base
base = record { fd = pos 7; wb = 1 ∷ 2 ∷ 3 ∷ []; send_bytes = 0; calls = 0; sent = [] }

sink-Carries_example :
    (b' : Base) × (sink slow (4 ∷ 5 ∷ []) base ≡ some b') × Carries (4 ∷ 5 ∷ []) base b'
sink-Carries_example = sink-Carries slow slow-IsSend (4 ∷ 5 ∷ []) base (inl (omega arith))

abbrev here_key : SessionKey
here_key = key 1 2 80 443

abbrev there_key : SessionKey
there_key = key 2 1 80 443

less_both_example : (less here_key there_key ≡ true) × (less there_key here_key ≡ true)
less_both_example = less_both here_key there_key (omega arith) (omega arith)

abbrev hand : Hand
hand = record {
  base = base;
  status = connecting;
  meta = true;
  meta_ack = false;
  sp_flag = true;
  wait_close = false;
  dispatcher = true;
  destroyed = false;
  deletes = 0;
  rb = [];
  acks = [];
}

abbrev dispatcher : Dispatcher
dispatcher = record {
  base = record { fd = pos 8; wb = []; send_bytes = 0; calls = 0; sent = [] };
  status = connecting;
  wait = true;
  ready = false;
  wait_close = false;
  socket_alarm = false;
  destroyed = false;
  deletes = 0;
}

abbrev link : Link
link = record { client = true; hand = hand; dispatcher = dispatcher }

link-IsLinked : IsLinked link
link-IsLinked = ground arith

abbrev served : Link
served = record link { client = false }

served-IsLinked : IsLinked served
served-IsLinked = ground arith

link_fails : Reaches slow slow-IsSend link (conn_close conn_failed link)
link_fails = Events.then_step link link (conn_close conn_failed link) (Events.here link) (
    Events.hand_event true false false [] link (conn_close conn_failed link)
      (unfold on_caller_event in refl))

Reaches-IsLinked_example : IsLinked (conn_close conn_failed link)
Reaches-IsLinked_example =
    Reaches-IsLinked slow slow-IsSend link (conn_close conn_failed link) link_fails link-IsLinked

on_event-IsLinked_example : IfSome IsLinked (on_event true false served)
on_event-IsLinked_example = on_event-IsLinked true false served refl served-IsLinked

abbrev idle : Link
idle = record link {
  hand = record hand { destroyed = true; dispatcher = false };
  dispatcher = record dispatcher {
    base = base;
    wait = false;
    wait_close = true;
    status = connected;
  };
}

handle_socket_alarm-IsIdle_example :
    IfSome IsIdle (handle_socket_alarm slow 3000 (got 1 [] ∷ []) idle)
handle_socket_alarm-IsIdle_example =
    handle_socket_alarm-IsIdle slow 3000 (got 1 [] ∷ []) idle (ground arith)

-- The caller's hand before its first message, and the callee's after it has read that message.
abbrev caller : Hand
caller = record hand { meta = false; base = record base { wb = [] } }

abbrev accepted : Link
accepted = record served {
  hand = record hand { meta = false; rb = (write_meta true here_key true caller).base.wb ++ [] };
}

callee_parse_meta-write_meta_example :
    (parse_meta accepted.hand.rb ≡ some ((true, here_key), 0))
    × (callee_parse_meta (dialing (pos 9)) accepted
        ≡ some (record accepted {
          hand = record (accepted.hand) { meta = true; sp_flag = true; dispatcher = true; rb = [] };
          dispatcher = record (new_dispatcher (pos 9)) { wait = true };
        }))
callee_parse_meta-write_meta_example =
    callee_parse_meta-write_meta here_key true caller accepted (pos 9) []
      (omega arith, omega arith, omega arith, omega arith) (omega arith) refl refl refl refl
