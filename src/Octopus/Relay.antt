-- ===== src/Octopus/Relay.antt =====
-- The events and alarms of a hand and its dispatcher in octopus/octopus_base.cc, on the single path that the program runs:
-- each relay pairs one hand with one dispatcher, so the sets `wait_hands_` and `ready_hands_` hold
-- that hand or nothing. Each `none` is a CHECK that aborts. The alarm's write budget, the
-- answers of read() and the outcome of bind() and connect() are arguments.
pub mod Pointers
pub mod Alarms
pub mod Events
pub mod Leaks
pub mod Meta
use dash_dim.Prelude.{
  ℕ, zero, suc, ◌+◌, ◌-◌, Bool, true, false, ◌&&◌, ◌||◌, not, Option, none, some, List, [], ◌∷◌,
  ◌++◌, ltb, ◌==◌, if◌then◌else◌, length,
}
use dash_dim.Prelude.Int.{ℤ, pos, negsuc, ltb_ℤ}
use dash_dim.Socket.{Kernel}
use dash_dim.Codec.Reader.{
  reader, read_uint8, read_uint16, read_uint32, ◌>>=◌, return, bytes_remaining,
}
use dash_dim.Octopus.{Base, flush_buffer, sink, close_fd}
use dash_dim.Octopus.Keys.{SessionKey, key}
use dash_dim.Octopus.Signals.{
  Dispatcher, Link, Read, close_dispatcher, conn_close, conn_disconn, conn_failed, connected,
  connecting, delete_dispatcher, disconn, dst_connected, dst_failed, end_of_file, error, got,
  send_meta_ack, signal_dispatcher, signal_hand,
}

-- The part of WriteMeta's message that CalleeParseMeta reads; `none` where bytes are missing.
unfoldable pub parse_meta : List ℕ → Option ((Bool × SessionKey) × ℕ)
unfolding reader
parse_meta rb =
    let (answer, r) =
      (do
        type ← read_uint8
        sp ← read_uint8
        from ← read_uint32
        to ← read_uint32
        src_port ← read_uint16
        dst_port ← read_uint16
        return (ltb 0 sp, key from to src_port dst_port))
        (reader rb (length rb)) in
    elim answer [ none ↦ none | some a ↦ some (a, bytes_remaining r) ]

-- What became of bind() and connect() to the destination, with the descriptor.
pub data Dial : Type 0 where
  no_socket : Dial
  refused : Dial
  dialing : ℤ → Dial

abbrev pub new_base : ℤ → Base
new_base fd = record { fd = fd; wb = []; send_bytes = 0; calls = 0; sent = [] }

abbrev pub new_dispatcher : ℤ → Dispatcher
new_dispatcher fd = record {
  base = new_base fd;
  status = connecting;
  wait = false;
  ready = false;
  wait_close = false;
  socket_alarm = false;
  destroyed = false;
  deletes = 0;
}

-- AsynConnect's dispatcher where connect() was refused: closed and deleted.
abbrev pub dead_dispatcher : Dispatcher
dead_dispatcher = delete_dispatcher (new_dispatcher (negsuc 0))

unfoldable pub dial : Dial → Link → Link
dial no_socket l = conn_close dst_failed (record l { hand = send_meta_ack dst_failed l.hand })
dial refused l = conn_close dst_failed (record l {
  hand = send_meta_ack dst_failed (record (l.hand) { dispatcher = true });
  dispatcher = dead_dispatcher;
})
dial (dialing fd) l = record l {
  hand = record (l.hand) { dispatcher = true };
  dispatcher = record (new_dispatcher fd) { wait = true };
}

-- CalleeParseMeta, for a key that no dispatcher is registered under.
unfoldable pub callee_parse_meta : Dial → Link → Option Link
callee_parse_meta outcome l = elim (if l.hand.meta then none else parse_meta l.hand.rb) [
  | none ↦ some l
  | some ((sp, uuid), left) ↦
      (let l' = dial outcome (record l { hand = record (l.hand) { meta = true; sp_flag = sp } }) in
        if left == 0 then some (record l' { hand = record (l'.hand) { rb = [] } }) else none)
]

-- The dispatcher's OnEvent, once connect() has an answer.
unfoldable pub on_event : Bool → Bool → Link → Option Link
on_event err writable l =
    let l1 =
      (if err
        then elim l.dispatcher.status [ connecting ↦ close_dispatcher dst_failed l | s ↦ l ]
        else l) in
    let ready = record l1 {
      hand = (if l1.dispatcher.wait then signal_hand l1.client dst_connected l1.hand else l1.hand);
      dispatcher = record (l1.dispatcher) {
        status = connected;
        ready = l1.dispatcher.wait;
        wait = false;
        socket_alarm = true;
      };
    } in
    if ltb_ℤ (pos 0) l1.dispatcher.base.fd && writable
    then elim l1.dispatcher.status [
      | connecting ↦ if l1.dispatcher.ready then none else some ready
      | s ↦ some l1
    ]
    else some l1

module _ (kernel : Kernel) where
  unfoldable pub sink_dispatcher : List ℕ → Link → Option Link
  sink_dispatcher pv l = elim (sink kernel pv l.dispatcher.base) [
    | none ↦ none
    | some b ↦ some (record l { dispatcher = record (l.dispatcher) { base = b } })
  ]

  unfoldable pub sink_hand : List ℕ → Link → Option Link
  sink_hand pv l = elim (sink kernel pv l.hand.base) [
    | none ↦ none
    | some b ↦ some (record l { hand = record (l.hand) { base = b } })
  ]

  unfoldable pub flush_hand : Link → Option Link
  flush_hand l = elim (flush_buffer kernel l.hand.base) [
    | none ↦ none
    | some b ↦ some (record l { hand = record (l.hand) { base = b } })
  ]

  unfoldable pub flush_dispatcher : Link → Option Link
  flush_dispatcher l = elim (flush_buffer kernel l.dispatcher.base) [
    | none ↦ none
    | some b ↦ some (record l { dispatcher = record (l.dispatcher) { base = b } })
  ]

  -- The first byte that a client's hand reads is the answer to its message.
  unfoldable pub caller_first : ℕ → List ℕ → Link → Option Link
  caller_first type rest l =
      let l' = record l { hand = record (l.hand) { meta_ack = true } } in
      let told = signal_dispatcher dst_connected l' in
      let sunk = sink_dispatcher rest told in
      if (type == 2) && l'.hand.dispatcher
      then (if ltb 0 (length rest) then sunk else some told)
      else some l'

  unfoldable pub caller_read : List Read → Link → Option Link
  caller_read [] l = some l
  caller_read (error ∷ reads) l = some (conn_close conn_disconn l)
  caller_read (end_of_file ∷ reads) l = some (conn_close conn_disconn l)
  caller_read (got type rest ∷ reads) l =
      if not l.hand.meta_ack
      then (if type == 3
          then some
              (conn_close dst_failed (record l { hand = record (l.hand) { meta_ack = true } }))
          else elim (caller_first type rest l) [ none ↦ none | some l' ↦ caller_read reads l' ])
      else if l.hand.dispatcher
      then elim (sink_dispatcher (type ∷ rest) l) [ none ↦ none | some l' ↦ caller_read reads l' ]
      else none

  -- EPOLLOUT of a client's hand.
  unfoldable pub caller_writable : Link → Option Link
  caller_writable l = elim l.hand.status [
    | connecting ↦ flush_hand (record l { hand = record (l.hand) { status = connected } })
    | connected ↦ flush_hand l
    | disconn ↦ some l
  ]

  unfoldable pub on_caller_event : Bool → Bool → Bool → List Read → Link → Option Link
  on_caller_event err readable writable reads l =
      let after_in =
        (if ltb_ℤ (pos 0) l.hand.base.fd && readable && l.hand.sp_flag
          then caller_read reads l
          else some l) in
      let failed : Link = elim l.hand.status [
        | connecting ↦ conn_close conn_failed l
        | s ↦ conn_close conn_disconn l
      ] in
      if err then some failed else elim after_in [
        | none ↦ none
        | some l' ↦
            if ltb_ℤ (pos 0) l'.hand.base.fd && writable then caller_writable l' else some l'
      ]

  unfoldable pub callee_read : Dial → List Read → Link → Option Link
  callee_read outcome [] l = some l
  callee_read outcome (error ∷ reads) l = some (conn_close conn_disconn l)
  callee_read outcome (end_of_file ∷ reads) l = some (conn_close conn_disconn l)
  callee_read outcome (got first rest ∷ reads) l =
      if not l.hand.meta
      then elim (callee_parse_meta outcome
          (record l { hand = record (l.hand) { rb = l.hand.rb ++ (first ∷ rest) } })) [
            | none ↦ none
            | some l' ↦ callee_read outcome reads l'
          ]
      else if (length l.hand.rb == 0) && l.hand.dispatcher
      then elim (sink_dispatcher (first ∷ rest) l) [
        | none ↦ none
        | some l' ↦ callee_read outcome reads l'
      ]
      else none

  unfoldable pub on_callee_event : Bool → Bool → Dial → List Read → Link → Option Link
  on_callee_event err readable outcome reads l =
      let l' = (if err then conn_close conn_disconn l else l) in
      if ltb_ℤ (pos 0) l'.hand.base.fd && readable then callee_read outcome reads l' else some l'

  -- OutBandwidthAlarm, after its measurement.
  unfoldable pub out_bandwidth_alarm : Link → Option Link
  out_bandwidth_alarm l = elim (if ltb 0 (length l.hand.base.wb) then flush_hand l else some l) [
    | none ↦ none
    | some l' ↦ some (
        if l'.hand.wait_close && (length l'.hand.base.wb == 0)
        then conn_close conn_disconn l'
        else l')
  ]

  -- The reads of HandleSocketAlarm while the budget lasts, and whether the end was seen.
  unfoldable pub alarm_read : ℕ → List Read → Link → Option (Bool × Link)
  alarm_read budget [] l = some (false, l)
  alarm_read budget (error ∷ reads) l = some (ltb 0 budget, l)
  alarm_read budget (end_of_file ∷ reads) l = some (ltb 0 budget, l)
  alarm_read budget (got first rest ∷ reads) l =
      if budget == 0 then some (false, l) else elim (sink_hand (first ∷ rest) l) [
        | none ↦ none
        | some l' ↦ alarm_read (budget - (1 + length rest)) reads l'
      ]

  unfoldable pub handle_socket_alarm : ℕ → List Read → Link → Option Link
  handle_socket_alarm budget reads l =
      if ltb_ℤ (pos 0) l.dispatcher.base.fd
      then elim (flush_dispatcher l) [
        | none ↦ none
        | some l1 ↦
            elim (if l1.dispatcher.ready then alarm_read budget reads l1 else some (false, l1)) [
              | none ↦ none
              | some (closed, l2) ↦ some (if closed then close_dispatcher conn_disconn l2 else l2)
            ]
      ]
      else some l
