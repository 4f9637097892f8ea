-- ===== src/Octopus.antt =====
-- The relay of octopus/octopus_base.h and octopus/octopus_base.cc. A hand is the connection
-- between the two relays, a dispatcher the connection to an endpoint; each buffers what it cannot
-- send at once. The kernel is a parameter: what send() accepts at each call.
pub mod Keys
pub mod Signals
pub mod Relay
pub mod Transfer
use dash_dim.Prelude.{
  ℕ, zero, suc, ◌+◌, ◌≤◌, Bool, true, false, ◌&&◌, not, Option, none, some, List, [], ◌∷◌, ◌++◌,
  ltb, ◌==◌, if◌then◌else◌, length, take, drop, min,
}
use dash_dim.Prelude.Int.{ℤ, pos, negsuc, ltb_ℤ}
use dash_dim.Socket.{Kernel}

abbrev pub segment_size : ℕ
segment_size = 1500

-- The part of OctopusBase that moves bytes. `calls` counts the calls of send() and `sent` is what the
-- peer will read.
pub record Base : Type 0 where
  pub fd : ℤ
  pub wb : List ℕ
  pub send_bytes : ℕ
  pub calls : ℕ
  pub sent : List ℕ

module _ (kernel : Kernel) where
  -- One call of send() for the first `target` bytes, and the count that it accepted.
  unfoldable pub send : ℕ → List ℕ → Base → ℕ × Base
  send target data_ b =
      let n = kernel b.calls target in
      (
        n,
        record b {
          calls = b.calls + 1;
          sent = b.sent ++ take n data_;
          send_bytes = b.send_bytes + n;
        },
      )

  -- The loop that FlushBuffer and both Sink share: what is left unsent, and the base.
  unfoldable pub send_loop : ℕ → List ℕ → Base → List ℕ × Base
  send_loop zero data_ b = (data_, b)
  send_loop (suc fuel) data_ b =
      let (n, b') = send (min segment_size (length data_)) data_ b in
      let more = send_loop fuel (drop n data_) b' in
      if length data_ == 0 then (data_, b) else if n == 0 then (data_, b') else more

  -- `none` where the CHECK of a closed descriptor aborts.
  unfoldable pub flush_buffer : Base → Option Base
  flush_buffer b =
      let (rest, b') = send_loop (length b.wb) b.wb b in
      if ltb_ℤ b.fd (pos 0)
      then (if length b.wb == 0 then some b else none)
      else some (record b' { wb = rest })

  -- What Sink does after the flush.
  unfoldable pub sink_rest : List ℕ → Base → Base
  sink_rest pv b =
      let (rest, b') = send_loop (length pv) pv b in
      if (length b.wb == 0) && ltb_ℤ (pos 0) b.fd
      then record b' { wb = b'.wb ++ rest }
      else record b { wb = b.wb ++ pv }

  unfoldable pub sink : List ℕ → Base → Option Base
  sink pv b = elim (flush_buffer b) [ none ↦ none | some b' ↦ some (sink_rest pv b') ]

abbrev pub close_fd : Base → Base
close_fd b = record b { fd = negsuc 0 }
