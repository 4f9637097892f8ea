-- ===== src/Octopus/Signals.antt =====
-- The state of one hand with its dispatcher in octopus/octopus_base.cc, and the signals that the two
-- send each other when one of them closes or connects. Each relay pairs one hand with one
-- dispatcher, as the program does.
use dash_dim.Prelude.{
  ℕ, ◌+◌, Bool, true, false, ◌&&◌, not, List, [], ◌∷◌, ◌++◌, ◌==◌, if◌then◌else◌, length,
}
use dash_dim.Prelude.Int.{pos, ltb_ℤ}
use dash_dim.Octopus.{Base, close_fd}

pub data ConnStatus : Type 0 where
  connecting : ConnStatus
  connected : ConnStatus
  disconn : ConnStatus

pub data SignalCode : Type 0 where
  conn_failed : SignalCode
  conn_disconn : SignalCode
  dst_connected : SignalCode
  dst_failed : SignalCode

-- What read() answers; the list of answers ends where it says EAGAIN.
pub data Read : Type 0 where
  got : ℕ → List ℕ → Read
  end_of_file : Read
  error : Read

-- `dispatcher` says that `dispatcher_` is set, `meta` and `meta_ack` are the bits of `msg_flag_`,
-- and `acks` the bytes that SendMetaAck sent.
pub record Hand : Type 0 where
  pub base : Base
  pub status : ConnStatus
  pub meta : Bool
  pub meta_ack : Bool
  pub sp_flag : Bool
  pub wait_close : Bool
  pub dispatcher : Bool
  pub destroyed : Bool
  pub deletes : ℕ
  pub rb : List ℕ
  pub acks : List ℕ

-- `wait` and `ready` say that the hand is in that set.
pub record Dispatcher : Type 0 where
  pub base : Base
  pub status : ConnStatus
  pub wait : Bool
  pub ready : Bool
  pub wait_close : Bool
  pub socket_alarm : Bool
  pub destroyed : Bool
  pub deletes : ℕ

-- `client` is the role of both.
pub record Link : Type 0 where
  pub client : Bool
  pub hand : Hand
  pub dispatcher : Dispatcher

abbrev pub delete_hand : Hand → Hand
delete_hand h = if h.destroyed then h else record h { destroyed = true; deletes = h.deletes + 1 }

abbrev pub delete_dispatcher : Dispatcher → Dispatcher
delete_dispatcher d =
    if d.destroyed then d else record d { destroyed = true; deletes = d.deletes + 1 }

-- The callers pass one of the two codes of a destination.
abbrev pub ack_type : SignalCode → ℕ
ack_type dst_connected = 2
ack_type dst_failed = 3
ack_type c = 0

unfoldable pub send_meta_ack : SignalCode → Hand → Hand
send_meta_ack code h =
    if ltb_ℤ (pos 0) h.base.fd && not h.meta_ack
    then record h {
      meta_ack = true;
      acks = h.acks ++ (ack_type code ∷ []);
      base = record (h.base) { send_bytes = h.base.send_bytes + 1 };
    }
    else h

-- A hand's ConnClose once its dispatcher has been told.
unfoldable pub close_hand : Hand → Hand
close_hand h =
    delete_hand (record h { dispatcher = false; status = disconn; base = close_fd h.base })

-- OctopusHand::SignalFrom. It forgets the dispatcher before it closes.
unfoldable pub signal_hand : Bool → SignalCode → Hand → Hand
signal_hand client conn_disconn h =
    let h' = record h { dispatcher = false; wait_close = true } in
    if length h.base.wb == 0 then close_hand h' else h'
signal_hand false dst_failed h =
    close_hand (record (send_meta_ack dst_failed h) { dispatcher = false })
signal_hand false dst_connected h = send_meta_ack dst_connected h
signal_hand client code h = h

-- OctopusDispatcher::ConnClose.
unfoldable pub close_dispatcher : SignalCode → Link → Link
close_dispatcher code l =
    let waiting = (if l.dispatcher.wait then signal_hand l.client code l.hand else l.hand) in
    let hand = (if l.dispatcher.ready then signal_hand l.client code waiting else waiting) in
    record l {
      hand = hand;
      dispatcher = delete_dispatcher (record (l.dispatcher) {
        wait = false;
        ready = false;
        status = disconn;
        base = close_fd l.dispatcher.base;
      });
    }

-- The hand has gone, from whichever set: an idle dispatcher closes once its buffer is empty.
unfoldable pub lose_hand : Link → Link
lose_hand l =
    let l' = record l {
      dispatcher = record (l.dispatcher) { wait = false; ready = false; wait_close = true };
    } in
    if length l.dispatcher.base.wb == 0 then close_dispatcher conn_disconn l' else l'

-- OctopusDispatcher::SignalFrom.
unfoldable pub signal_dispatcher : SignalCode → Link → Link
signal_dispatcher conn_failed l = lose_hand l
signal_dispatcher conn_disconn l = lose_hand l
signal_dispatcher dst_connected l =
    if l.client
    then record l {
      dispatcher = record (l.dispatcher) { wait = false; ready = true; socket_alarm = true };
    }
    else l
signal_dispatcher dst_failed l = l

-- OctopusHand::ConnClose.
unfoldable pub conn_close : SignalCode → Link → Link
conn_close code l =
    let told = (if l.hand.dispatcher then signal_dispatcher code l else l) in
    record told { hand = close_hand told.hand }
