-- ===== src/Octopus/Relay/Events.antt =====
-- The events of a client's relay, connect()'s answer on a server, and the pointers.
use mathlib.Core.Path.{subst}
use dash_dim.Prelude.{
  ℕ, ◌≡◌, Bool, true, false, ◌&&◌, not, some, List, [], ◌∷◌, length, ltb, ◌==◌, if◌then◌else◌,
  if-intro, arith, IfSome, IfSome-bind,
}
use dash_dim.Prelude.Int.{pos, ltb_ℤ}
use dash_dim.Socket.{Kernel, IsSend}
use dash_dim.Octopus.Signals.{
  Link, conn_failed, conn_disconn, dst_connected, dst_failed, connecting, connected, disconn, Read,
  got, end_of_file, error, signal_hand, send_meta_ack, close_dispatcher, signal_dispatcher,
  conn_close, close_hand,
}
use dash_dim.Octopus.Relay.{
  sink_dispatcher, flush_hand, caller_first, caller_read, caller_writable, on_caller_event,
  out_bandwidth_alarm, on_event, handle_socket_alarm,
}
use dash_dim.Octopus.Relay.Pointers.{IsLinked, conn_close-IsLinked}
use dash_dim.Octopus.Relay.Alarms.{
  sink_dispatcher-IsLinked, flush_hand-IsLinked, out_bandwidth_alarm-IsLinked,
  handle_socket_alarm-IsLinked,
}

-- The hand is told that the destination is connected.
connected-IsLinked :
    (l : Link)
    → l.hand.dispatcher ≡ true
    → IsLinked l
    → IsLinked (signal_dispatcher dst_connected l)
unfolding signal_dispatcher
connected-IsLinked l h v = ground arith

-- From a state whose pointers are in order, the answer of a server dispatcher's connect(), an
-- error or success, keeps the pointers of the hand and the dispatcher in order, where no CHECK
-- aborts.
pub on_event-IsLinked :
    (err writable : Bool) (l : Link)
    → l.client ≡ false
    → IsLinked l
    → IfSome IsLinked (on_event err writable l)
unfolding on_event signal_hand send_meta_ack close_dispatcher close_hand
on_event-IsLinked err writable l server v = ground arith

second : (a b : Bool) → (a && b) ≡ true → b ≡ true
second a b h = ground arith

module _ (kernel : Kernel) (law : IsSend kernel) where
  caller_first-IsLinked :
      (type : ℕ) (rest : List ℕ) (l : Link)
      → IsLinked l
      → IfSome IsLinked (caller_first kernel type rest l)
  unfolding caller_first
  caller_first-IsLinked type rest l v =
      if-intro ((type == 2) && l.hand.dispatcher) (IfSome IsLinked)
        (λ e.
          if-intro (ltb 0 (length rest)) (IfSome IsLinked)
            (λ _.
              sink_dispatcher-IsLinked kernel law rest (signal_dispatcher dst_connected l')
                (told e))
            (λ _. told e))
        (λ _. kept)
    where
      l' : Link
      l' = record l { hand = record (l.hand) { meta_ack = true } }

      kept : IsLinked l'
      kept = ground arith

      told :
          ((type == 2) && l.hand.dispatcher) ≡ true → IsLinked (signal_dispatcher dst_connected l')
      told e = connected-IsLinked l' (second (type == 2) l.hand.dispatcher e) kept

  caller_read-IsLinked :
      (reads : List Read) (l : Link) → IsLinked l → IfSome IsLinked (caller_read kernel reads l)
  unfolding caller_read
  caller_read-IsLinked [] l v = v
  caller_read-IsLinked (error ∷ reads) l v = conn_close-IsLinked conn_disconn l v
  caller_read-IsLinked (end_of_file ∷ reads) l v = conn_close-IsLinked conn_disconn l v
  caller_read-IsLinked (got type rest ∷ reads) l v =
      if-intro (not l.hand.meta_ack) (IfSome IsLinked)
        (λ _.
          if-intro (type == 3) (IfSome IsLinked) (λ _. conn_close-IsLinked dst_failed l' kept)
            (λ _.
              IfSome-bind IsLinked IsLinked (caller_first kernel type rest l) _
                (caller_first-IsLinked type rest l v) (λ l' v'. caller_read-IsLinked reads l' v')))
        (λ _.
          if-intro l.hand.dispatcher (IfSome IsLinked)
            (λ _.
              IfSome-bind IsLinked IsLinked (sink_dispatcher kernel (type ∷ rest) l) _
                (sink_dispatcher-IsLinked kernel law (type ∷ rest) l v)
                (λ l' v'. caller_read-IsLinked reads l' v'))
            (λ _. tt))
    where
      l' : Link
      l' = record l { hand = record (l.hand) { meta_ack = true } }

      kept : IsLinked l'
      kept = ground arith

  caller_writable-IsLinked : (l : Link) → IsLinked l → IfSome IsLinked (caller_writable kernel l)
  unfolding caller_writable
  caller_writable-IsLinked l v =
      elim l.hand.status
        as (λ s. IfSome IsLinked (elim s [
          | connecting ↦
              flush_hand kernel (record l { hand = record (l.hand) { status = connected } })
          | connected ↦ flush_hand kernel l
          | disconn ↦ some l
        ])) [
          | connecting ↦ flush_hand-IsLinked kernel law l' kept
          | connected ↦ flush_hand-IsLinked kernel law l v
          | disconn ↦ v
        ]
    where
      l' : Link
      l' = record l { hand = record (l.hand) { status = connected } }

      kept : IsLinked l'
      kept = ground arith

  on_caller_event-IsLinked :
      (err readable writable : Bool) (reads : List Read) (l : Link)
      → IsLinked l
      → IfSome IsLinked (on_caller_event kernel err readable writable reads l)
  unfolding on_caller_event
  on_caller_event-IsLinked err readable writable reads l v =
      if-intro err (IfSome IsLinked)
        (λ _.
          elim l.hand.status
            as (λ s.
              IsLinked (elim s [
                | connecting ↦ conn_close conn_failed l
                | s' ↦ conn_close conn_disconn l
              ])) [
                | connecting ↦ conn_close-IsLinked conn_failed l v
                | connected ↦ conn_close-IsLinked conn_disconn l v
                | disconn ↦ conn_close-IsLinked conn_disconn l v
              ])
        (λ _.
          IfSome-bind IsLinked IsLinked
            (if ltb_ℤ (pos 0) l.hand.base.fd && readable && l.hand.sp_flag
              then caller_read kernel reads l
              else some l)
            _
            (if-intro (ltb_ℤ (pos 0) l.hand.base.fd && readable && l.hand.sp_flag) (IfSome IsLinked)
              (λ _. caller_read-IsLinked reads l v) (λ _. v))
            (λ l' v'.
              if-intro (ltb_ℤ (pos 0) l'.hand.base.fd && writable) (IfSome IsLinked)
                (λ _. caller_writable-IsLinked l' v') (λ _. v')))

  -- One event of a client's relay, where no CHECK aborts.
  pub data Step : Link → Link → Type 0 where
    hand_event :
        (err readable writable : Bool) (reads : List Read) (a b : Link)
        → on_caller_event kernel err readable writable reads a ≡ some b
        → Step a b
    hand_alarm : (a b : Link) → out_bandwidth_alarm kernel a ≡ some b → Step a b
    socket_alarm :
        (budget : ℕ) (reads : List Read) (a b : Link)
        → handle_socket_alarm kernel budget reads a ≡ some b
        → Step a b

  pub data Reaches : Link → Link → Type 0 where
    here : (a : Link) → Reaches a a
    then_step : (a b c : Link) → Reaches a b → Step b c → Reaches a c

  Step-IsLinked : (a b : Link) → Step a b → IsLinked a → IsLinked b
  Step-IsLinked a b (hand_event err readable writable reads _ _ e) v =
      subst (IfSome IsLinked) e (on_caller_event-IsLinked err readable writable reads a v)
  Step-IsLinked a b (hand_alarm _ _ e) v =
      subst (IfSome IsLinked) e (out_bandwidth_alarm-IsLinked kernel law a v)
  Step-IsLinked a b (socket_alarm budget reads _ _ e) v =
      subst (IfSome IsLinked) e (handle_socket_alarm-IsLinked kernel law budget reads a v)

  -- Over any sequence of events of a client's relay, from a state whose pointers are in order:
  -- a hand with a dispatcher is in one of its sets and the dispatcher is not deleted, a
  -- deleted hand has no dispatcher, a deleted dispatcher has no hand, each of the two is
  -- deleted at most once, and a deleted one has no open descriptor.
  pub Reaches-IsLinked : (a b : Link) → Reaches a b → IsLinked a → IsLinked b
  Reaches-IsLinked a b (here _) v = v
  Reaches-IsLinked a c (then_step _ b _ r s) v = Step-IsLinked b c s (Reaches-IsLinked a b r v)
