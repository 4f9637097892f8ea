-- ===== src/Server/Tiling.antt =====
-- What each operation of a server keeps of its stream: the segments, the offset and the read buffer.
use dash_dim.Prelude.{
  ℕ, suc, ◌+◌, ◌≡◌, sym, ap, ◌∙◌, Bool, ◌&&◌, not, List, [], ◌∷◌, ◌++◌, ltb, leb, ◌==◌,
  if◌then◌else◌, length, arith, if-intro, All, append_assoc, append-nil,
}
use dash_dim.Prelude.Int.{ltb_ℤ, pos, pos_part}
use dash_dim.Budget.{remaining, increase_budget}
use dash_dim.Socket.{close_fd, check_to_delete_self, delete_self}
use dash_dim.Connection.{Read, end_of_file, bytes}
use dash_dim.Server.{
  ReadyPath, Segment, Server, available, deal, schedule, total_goodput, read_loop, on_read_event,
  on_data_from_fd, close_entity, check_close_entity, update_read_budget_rate, elapsed_ms,
  on_budget_alarm,
}
use dash_dim.Server.Segments.{Tiles, Tiles-append, payloads, payloads-append, Covers, deal-Covers}

-- The segments tile the stream from offset 1, and with the read buffer they are all that was read.
pub record Streams (s : Server) : Type 0 where
  pub bytes_kept : payloads s.emitted ++ s.socket.fd_read_buffer ≡ s.received
  pub tiled : Tiles 1 s.emitted s.write_offset

emit-Streams :
    (s : Server) (ss : List Segment)
    → Covers (λ n. Unit {0}) s.write_offset s.socket.fd_read_buffer ss
    → Streams s
    → Streams (record s {
      socket = record (s.socket) { fd_read_buffer = [] };
      write_offset = s.write_offset + length s.socket.fd_read_buffer;
      emitted = s.emitted ++ ss;
    })
emit-Streams s ss (a, b, _) v = record {
  bytes_kept =
      append-nil (payloads (s.emitted ++ ss))
      ∙ payloads-append s.emitted ss
      ∙ ap (λ r. payloads s.emitted ++ r) a
      ∙ v.bytes_kept;
  tiled =
      Tiles-append 1 s.write_offset (s.write_offset + length s.socket.fd_read_buffer) s.emitted ss
        v.tiled b;
}

any : (ps : List ReadyPath) → All (λ (q : ReadyPath). Unit {0}) ps
any [] = tt
any (p ∷ ps) = (tt, any ps)

schedule-Streams : (share : ℕ → ℕ → ℕ → ℕ) (s : Server) → Streams s → Streams (schedule share s)
unfolding schedule
schedule-Streams share s v =
    elim (available s.ready_list)
      as (λ ps. Streams (
        if length ps == 0 then s else record s {
          socket = record (s.socket) { fd_read_buffer = [] };
          write_offset = s.write_offset + length s.socket.fd_read_buffer;
          emitted =
              s.emitted ++ deal share (total_goodput ps) ps s.write_offset s.socket.fd_read_buffer;
        })) [
          | [] ↦ v
          | p ∷ ps ↦
              if-intro (suc (length ps) == 0) Streams (λ _. v)
                (λ _.
                  emit-Streams s
                    (deal share (total_goodput (p ∷ ps)) (p ∷ ps) s.write_offset
                      s.socket.fd_read_buffer)
                    (deal-Covers share (λ n. Unit {0}) (total_goodput (p ∷ ps)) p ps s.write_offset
                      s.socket.fd_read_buffer (any (p ∷ ps)))
                    v)
        ]

close_entity-Streams : (s : Server) → Streams s → Streams (close_entity s)
unfolding close_entity check_to_delete_self delete_self
close_entity-Streams s v = ground (arith, v.bytes_kept, v.tiled)

check_close_entity-Streams : (s : Server) → Streams s → Streams (check_close_entity s)
unfolding check_close_entity
check_close_entity-Streams s v =
    if-intro (s.socket.io_status.entity_wait_close && (length s.socket.fd_read_buffer == 0)) Streams
      (λ _. close_entity-Streams s v) (λ _. v)

close_fd-Streams : (s : Server) → Streams s → Streams (record s { socket = close_fd s.socket })
unfolding close_fd check_to_delete_self delete_self
close_fd-Streams s v = ground (arith, v.bytes_kept, v.tiled)

data-Streams : (pv : List ℕ) (s : Server) → Streams s → Streams (on_data_from_fd pv s)
unfolding on_data_from_fd
data-Streams pv s v = record {
  bytes_kept =
      sym (append_assoc (payloads s.emitted) s.socket.fd_read_buffer pv)
      ∙ ap (λ r. r ++ pv) v.bytes_kept;
  tiled = v.tiled;
}

read_loop-Streams :
    (reads : List Read) (target got : ℕ) (s : Server)
    → Streams s
    → Streams (read_loop reads target got s).1
unfolding read_loop
read_loop-Streams [] target got s v = v
read_loop-Streams (end_of_file ∷ reads) target got s v =
    read_loop-Streams reads target got (record s { socket = close_fd s.socket })
      (close_fd-Streams s v)
read_loop-Streams (bytes pv ∷ reads) target got s v =
    if-intro (leb target (got + length pv)) (λ (r : ℕ × Server). Streams r.1)
      (λ _. data-Streams pv s v)
      (λ _.
        read_loop-Streams reads target (got + length pv) (on_data_from_fd pv s)
          (data-Streams pv s v))

on_read_event-Streams :
    (reads : List Read) (s : Server) → Streams s → Streams (on_read_event reads s)
unfolding on_read_event
on_read_event-Streams reads s v = check_close_entity-Streams _ (
    if-intro (ltb 0 r.0) Streams (λ _. record { bytes_kept = kept.bytes_kept; tiled = kept.tiled })
      (λ _. kept))
  where
    r : ℕ × Server
    r = read_loop reads (pos_part (remaining s.packet_budget)) 0 s

    kept : Streams r.1
    kept = read_loop-Streams reads (pos_part (remaining s.packet_budget)) 0 s v

pub on_budget_alarm-Streams :
    (gain : ℕ → ℕ) (share : ℕ → ℕ → ℕ → ℕ) (reads : List Read) (now : ℕ) (s : Server)
    → Streams s
    → Streams (on_budget_alarm gain share reads now s)
unfolding on_budget_alarm update_read_budget_rate
on_budget_alarm-Streams gain share reads now s v =
    if-intro s3.socket.io_status.fd_closed Streams (λ _. check_close_entity-Streams s3 v3) (λ _. v3)
  where
    s1 : Server
    s1 = record s {
      packet_budget =
          increase_budget (pos (elapsed_ms gain s.last_budget_time now))
            (update_read_budget_rate gain s).packet_budget;
      last_budget_time = now;
    }

    open_now : Bool
    open_now = ltb_ℤ (pos 0) s1.socket.fd && not (length (available s1.ready_list) == 0)

    s2 : Server
    s2 = if open_now then on_read_event reads s1 else s1

    v1 : Streams s1
    v1 = record { bytes_kept = v.bytes_kept; tiled = v.tiled }

    v2 : Streams s2
    v2 = if-intro open_now Streams (λ _. on_read_event-Streams reads s1 v1) (λ _. v1)

    s3 : Server
    s3 = if ltb 0 (length s2.socket.fd_read_buffer) then schedule share s2 else s2

    v3 : Streams s3
    v3 =
        if-intro (ltb 0 (length s2.socket.fd_read_buffer)) Streams
          (λ _. schedule-Streams share s2 v2) (λ _. v2)
