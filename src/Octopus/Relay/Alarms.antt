-- ===== src/Octopus/Relay/Alarms.antt =====
-- The writes and the timers of a relay, and its pointers.
use dash_dim.Prelude.{
  ℕ, ◌≡◌, ap, ◌∙◌, ◌+◌, ◌-◌, Bool, false, ◌&&◌, some, List, [], ◌∷◌, length, ltb, ◌==◌,
  if◌then◌else◌, if-intro, IfSome, IfSome-bind,
}
use dash_dim.Prelude.Int.{pos, pos_part, ltb_ℤ}
use dash_dim.Socket.{Kernel, IsSend}
use dash_dim.Octopus.{Base, sink, flush_buffer}
use dash_dim.Octopus.Transfer.{flush_buffer-fd, sink-fd}
use dash_dim.Octopus.Signals.{Link, conn_disconn, Read, got, end_of_file, error}
use dash_dim.Octopus.Relay.{
  sink_dispatcher, sink_hand, flush_hand, flush_dispatcher, out_bandwidth_alarm, alarm_read,
  handle_socket_alarm,
}
use dash_dim.Octopus.Relay.Pointers.{IsLinked, conn_close-IsLinked, close_dispatcher-IsLinked}

module _ (kernel : Kernel) (law : IsSend kernel) where
  hand_base-IsLinked :
      (l : Link) (b : Base)
      → b.fd ≡ l.hand.base.fd
      → IsLinked l
      → IsLinked (record l { hand = record (l.hand) { base = b } })
  hand_base-IsLinked l b e v = record {
    member = v.member;
    live = v.live;
    own = v.own;
    once_hand = v.once_hand;
    once_dispatcher = v.once_dispatcher;
    hand_fd = λ h. ap pos_part e ∙ v.hand_fd h;
    dispatcher_fd = v.dispatcher_fd;
    empty = v.empty;
  }

  dispatcher_base-IsLinked :
      (l : Link) (b : Base)
      → b.fd ≡ l.dispatcher.base.fd
      → IsLinked l
      → IsLinked (record l { dispatcher = record (l.dispatcher) { base = b } })
  dispatcher_base-IsLinked l b e v = record {
    member = v.member;
    live = v.live;
    own = v.own;
    once_hand = v.once_hand;
    once_dispatcher = v.once_dispatcher;
    hand_fd = v.hand_fd;
    dispatcher_fd = λ h. ap pos_part e ∙ v.dispatcher_fd h;
    empty = v.empty;
  }

  sink_hand-IsLinked :
      (pv : List ℕ) (l : Link) → IsLinked l → IfSome IsLinked (sink_hand kernel pv l)
  unfolding sink_hand
  sink_hand-IsLinked pv l v =
      IfSome-bind (λ (b : Base). b.fd ≡ l.hand.base.fd) IsLinked (sink kernel pv l.hand.base) _
        (sink-fd kernel law pv l.hand.base) (λ b e. hand_base-IsLinked l b e v)

  pub flush_hand-IsLinked : (l : Link) → IsLinked l → IfSome IsLinked (flush_hand kernel l)
  unfolding flush_hand
  flush_hand-IsLinked l v =
      IfSome-bind (λ (b : Base). b.fd ≡ l.hand.base.fd) IsLinked (flush_buffer kernel l.hand.base) _
        (flush_buffer-fd kernel law l.hand.base) (λ b e. hand_base-IsLinked l b e v)

  pub sink_dispatcher-IsLinked :
      (pv : List ℕ) (l : Link) → IsLinked l → IfSome IsLinked (sink_dispatcher kernel pv l)
  unfolding sink_dispatcher
  sink_dispatcher-IsLinked pv l v =
      IfSome-bind (λ (b : Base). b.fd ≡ l.dispatcher.base.fd) IsLinked
        (sink kernel pv l.dispatcher.base) _ (sink-fd kernel law pv l.dispatcher.base)
        (λ b e. dispatcher_base-IsLinked l b e v)

  flush_dispatcher-IsLinked : (l : Link) → IsLinked l → IfSome IsLinked (flush_dispatcher kernel l)
  unfolding flush_dispatcher
  flush_dispatcher-IsLinked l v =
      IfSome-bind (λ (b : Base). b.fd ≡ l.dispatcher.base.fd) IsLinked
        (flush_buffer kernel l.dispatcher.base) _ (flush_buffer-fd kernel law l.dispatcher.base)
        (λ b e. dispatcher_base-IsLinked l b e v)

  -- The timer of a hand.
  pub out_bandwidth_alarm-IsLinked :
      (l : Link) → IsLinked l → IfSome IsLinked (out_bandwidth_alarm kernel l)
  unfolding out_bandwidth_alarm
  out_bandwidth_alarm-IsLinked l v =
      IfSome-bind IsLinked IsLinked
        (if ltb 0 (length l.hand.base.wb) then flush_hand kernel l else some l) _
        (if-intro (ltb 0 (length l.hand.base.wb)) (IfSome IsLinked) (λ _. flush_hand-IsLinked l v)
          (λ _. v))
        (λ l' v'.
          if-intro (l'.hand.wait_close && (length l'.hand.base.wb == 0)) IsLinked
            (λ _. conn_close-IsLinked conn_disconn l' v') (λ _. v'))

  alarm_read-IsLinked :
      (budget : ℕ) (reads : List Read) (l : Link)
      → IsLinked l
      → IfSome (λ (r : Bool × Link). IsLinked r.1) (alarm_read kernel budget reads l)
  unfolding alarm_read
  alarm_read-IsLinked budget [] l v = v
  alarm_read-IsLinked budget (error ∷ reads) l v = v
  alarm_read-IsLinked budget (end_of_file ∷ reads) l v = v
  alarm_read-IsLinked budget (got first rest ∷ reads) l v =
      if-intro (budget == 0) (IfSome (λ (r : Bool × Link). IsLinked r.1)) (λ _. v)
        (λ _.
          IfSome-bind IsLinked (λ (r : Bool × Link). IsLinked r.1)
            (sink_hand kernel (first ∷ rest) l) _ (sink_hand-IsLinked (first ∷ rest) l v)
            (λ l' v'. alarm_read-IsLinked (budget - (1 + length rest)) reads l' v'))

  -- The timer of a dispatcher.
  pub handle_socket_alarm-IsLinked :
      (budget : ℕ) (reads : List Read) (l : Link)
      → IsLinked l
      → IfSome IsLinked (handle_socket_alarm kernel budget reads l)
  unfolding handle_socket_alarm
  handle_socket_alarm-IsLinked budget reads l v =
      if-intro (ltb_ℤ (pos 0) l.dispatcher.base.fd) (IfSome IsLinked)
        (λ _.
          IfSome-bind IsLinked IsLinked (flush_dispatcher kernel l) _
            (flush_dispatcher-IsLinked l v)
            (λ l1 v1.
              IfSome-bind (λ (r : Bool × Link). IsLinked r.1) IsLinked
                (if l1.dispatcher.ready
                  then alarm_read kernel budget reads l1
                  else some (false, l1))
                _
                (if-intro l1.dispatcher.ready (IfSome (λ (r : Bool × Link). IsLinked r.1))
                  (λ _. alarm_read-IsLinked budget reads l1 v1) (λ _. v1))
                (λ r w. if-intro r.0 IsLinked (λ _. close_dispatcher-IsLinked r.1 w) (λ _. w))))
        (λ _. v)
