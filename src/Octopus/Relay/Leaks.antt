-- ===== src/Octopus/Relay/Leaks.antt =====
-- A dispatcher after its last hand has left.
use mathlib.Core.Path.{subst}
use dash_dim.Prelude.{
  ℕ, ◌≡◌, sym, true, false, Option, none, some, List, if◌then◌else◌, if-intro, IfSome, IfSome-bind,
}
use dash_dim.Prelude.Int.{pos, ltb_ℤ}
use dash_dim.Socket.{Kernel}
use dash_dim.Octopus.{Base, flush_buffer}
use dash_dim.Octopus.Signals.{Link, Read, conn_disconn, close_dispatcher}
use dash_dim.Octopus.Relay.{flush_dispatcher, alarm_read, handle_socket_alarm}

-- A dispatcher that nobody will use again and that waits to close.
pub record IsIdle (l : Link) : Type 0 where
  pub waits : l.dispatcher.wait_close ≡ true
  pub unready : l.dispatcher.ready ≡ false
  pub undeleted : l.dispatcher.destroyed ≡ false

anything : {A : Type 0} (o : Option A) → IfSome (λ a. Unit {0}) o
anything none = tt
anything (some a) = tt

flush_dispatcher-IsIdle :
    (kernel : Kernel) (l : Link) → IsIdle l → IfSome IsIdle (flush_dispatcher kernel l)
unfolding flush_dispatcher
flush_dispatcher-IsIdle kernel l v =
    IfSome-bind (λ (b : Base). Unit {0}) IsIdle (flush_buffer kernel l.dispatcher.base) _
      (anything (flush_buffer kernel l.dispatcher.base))
      (λ b u. record { waits = v.waits; unready = v.unready; undeleted = v.undeleted })

-- A dispatcher that waits to close because its buffer was full when its last hand left is not
-- closed by its timer, whatever send() accepts and read() answers, even once the buffer is
-- empty: where no CHECK aborts it still waits, has no ready hand and is not deleted.
pub handle_socket_alarm-IsIdle :
    (kernel : Kernel) (budget : ℕ) (reads : List Read) (l : Link)
    → IsIdle l
    → IfSome IsIdle (handle_socket_alarm kernel budget reads l)
unfolding handle_socket_alarm
handle_socket_alarm-IsIdle kernel budget reads l v =
    if-intro (ltb_ℤ (pos 0) l.dispatcher.base.fd) (IfSome IsIdle)
      (λ _.
        IfSome-bind IsIdle IsIdle (flush_dispatcher kernel l) _ (flush_dispatcher-IsIdle kernel l v)
          (λ l1 v1. after l1 v1))
      (λ _. v)
  where
    after :
        (l1 : Link)
        → IsIdle l1
        → IfSome IsIdle
            (elim (if l1.dispatcher.ready
                then alarm_read kernel budget reads l1
                else some (false, l1))
              as (λ x. Option Link) [
                | none ↦ none
                | some (closed, l2) ↦ some (if closed then close_dispatcher conn_disconn l2 else l2)
              ])
    after l1 v1 =
        subst
          (λ r.
            IfSome IsIdle
              (elim (if r then alarm_read kernel budget reads l1 else some (false, l1))
                as (λ x. Option Link) [
                  | none ↦ none
                  | some (closed, l2) ↦
                      some (if closed then close_dispatcher conn_disconn l2 else l2)
                ]))
          (sym v1.unready) v1
