-- ===== src/Octopus/Relay/Pointers.antt =====
-- The pointers between a hand and its dispatcher, as the signals and the closes leave them.
use dash_dim.Prelude.{◌≡◌, true, false, ◌||◌, if◌then◌else◌, arith}
use dash_dim.Prelude.Int.{pos_part}
use dash_dim.Octopus.Signals.{
  Link, SignalCode, conn_failed, conn_disconn, dst_connected, dst_failed, close_hand, signal_hand,
  send_meta_ack, close_dispatcher, lose_hand, signal_dispatcher, conn_close,
}

-- A hand that has a dispatcher is in one of its sets, and neither of them is deleted; each deletes
-- itself at most once; and a deleted one has closed its descriptor.
pub record IsLinked (l : Link) : Type 0 where
  pub member : l.hand.dispatcher ≡ true → (l.dispatcher.wait || l.dispatcher.ready) ≡ true
  pub live : l.hand.dispatcher ≡ true → l.dispatcher.destroyed ≡ false
  pub own : l.hand.destroyed ≡ true → l.hand.dispatcher ≡ false
  pub once_hand : l.hand.deletes ≡ (if l.hand.destroyed then 1 else 0)
  pub once_dispatcher : l.dispatcher.deletes ≡ (if l.dispatcher.destroyed then 1 else 0)
  pub hand_fd : l.hand.destroyed ≡ true → pos_part l.hand.base.fd ≡ 0
  pub dispatcher_fd : l.dispatcher.destroyed ≡ true → pos_part l.dispatcher.base.fd ≡ 0
  pub empty : l.dispatcher.destroyed ≡ true → (l.dispatcher.wait || l.dispatcher.ready) ≡ false

-- A hand's ConnClose, whatever the signal.
pub conn_close-IsLinked : (code : SignalCode) (l : Link) → IsLinked l → IsLinked (conn_close code l)
unfolding conn_close signal_dispatcher lose_hand close_dispatcher signal_hand close_hand
    send_meta_ack
conn_close-IsLinked conn_failed l v = ground arith
conn_close-IsLinked conn_disconn l v = ground arith
conn_close-IsLinked dst_connected l v = ground arith
conn_close-IsLinked dst_failed l v = ground arith

-- A dispatcher's ConnClose with any code but a failed connection to a client's hand.
pub close_dispatcher-IsLinked : (l : Link) → IsLinked l → IsLinked (close_dispatcher conn_disconn l)
unfolding close_dispatcher signal_hand close_hand
close_dispatcher-IsLinked l v = ground arith
