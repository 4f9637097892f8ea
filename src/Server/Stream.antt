-- ===== src/Server/Stream.antt =====
-- The stream from an application's socket to the connections, over any number of alarms.
use mathlib.Core.Path.{subst}
use dash_dim.Prelude.{
  ℕ, ◌+◌, ◌-◌, ◌%◌, ◌≤◌, ◌≡◌, refl, sym, ap, ◌∙◌, false, Option, none, some, List, [], ◌∷◌, ◌++◌,
  leb, if◌then◌else◌, length, take, arith, if-intro, take_all,
}
use dash_dim.Frame.{packet_length_max}
use dash_dim.Connection.{Read}
use dash_dim.Server.{ReadyPath, Segment, Server, on_budget_alarm, recv_data}
use dash_dim.Server.Segments.{Tiles, payloads}
use dash_dim.Server.Tiling.{Streams, on_budget_alarm-Streams}

-- One alarm: the shares in force, what read() answers, and the time.
pub record Alarm : Type 0 where
  pub share : ℕ → ℕ → ℕ → ℕ
  pub reads : List Read
  pub now : ℕ

-- Between alarms connections come, go, and fill or drain their buffers.
pub data Event : Type 0 where
  budget_alarm : Alarm → Event
  ready : List ReadyPath → Event

unfoldable pub run : (ℕ → ℕ) → List Event → Server → Server
run gain [] s = s
run gain (budget_alarm a ∷ es) s = run gain es (on_budget_alarm gain a.share a.reads a.now s)
run gain (ready ps ∷ es) s = run gain es (record s { ready_list = ps })

run-Streams : (gain : ℕ → ℕ) (es : List Event) (s : Server) → Streams s → Streams (run gain es s)
unfolding run
run-Streams gain [] s v = v
run-Streams gain (budget_alarm a ∷ es) s v =
    run-Streams gain es (on_budget_alarm gain a.share a.reads a.now s)
      (on_budget_alarm-Streams gain a.share a.reads a.now s v)
run-Streams gain (ready ps ∷ es) s v =
    run-Streams gain es (record s { ready_list = ps })
      (record { bytes_kept = v.bytes_kept; tiled = v.tiled })

-- What the other proxy's RecvData gives its sequencer for each segment, in the order sent.
abbrev pub handed : List Segment → List (Option (ℕ × List ℕ))
handed [] = []
handed (s ∷ ss) = recv_data s.offset s.payload ∷ handed ss

-- Stream pieces that begin at an offset, follow one another, and hold these bytes.
abbrev pub Pieces : ℕ → List (Option (ℕ × List ℕ)) → List ℕ → Type 0
Pieces start [] data_ = data_ ≡ []
Pieces start (none ∷ ps) data_ = ⊥
Pieces start (some (o, pv) ∷ ps) data_ =
    (o ≡ start) × ((rest : List ℕ) × (data_ ≡ pv ++ rest) × Pieces (start + length pv) ps rest)

abbrev pair : ℕ → List ℕ → Option (ℕ × List ℕ)
pair o pv = some (o, pv)

-- RecvData, with the cut at `n`.
abbrev cut_at : ℕ → ℕ → List ℕ → Option (ℕ × List ℕ)
cut_at n o pv = if leb 1 o then some (o - 1, take n pv) else none

ge_one : (o start : ℕ) → o ≡ start + 1 → leb 1 o ≡ false → ⊥
ge_one o start e h = ground arith

recv_data-cut :
    (o start n : ℕ) (pv : List ℕ)
    → o ≡ start + 1
    → take n pv ≡ pv
    → cut_at n o pv ≡ some (start, pv)
recv_data-cut o start n pv e_o e =
    if-intro (leb 1 o) (λ r. r ≡ some (start, pv))
      (λ _. ap (λ (x : ℕ). pair x (take n pv)) (omega arith) ∙ ap (pair start) e)
      (λ no_. absurd (ge_one o start e_o no_))

recv_data-exact :
    (o start : ℕ) (pv : List ℕ)
    → o ≡ start + 1
    → length pv ≤ packet_length_max
    → recv_data o pv ≡ some (start, pv)
unfolding recv_data
recv_data-exact o start pv e h =
    recv_data-cut o start (length pv % 65536) pv e (take_all (length pv % 65536) pv (omega arith))

handed-Pieces :
    (start at end : ℕ) (ss : List Segment)
    → at ≡ start + 1
    → Tiles at ss end
    → Pieces start (handed ss) (payloads ss)
handed-Pieces start at end [] e h = refl
handed-Pieces start at end (s ∷ ss) e (o, _, u, h) =
    subst (λ r. Pieces start (r ∷ handed ss) (payloads (s ∷ ss)))
      (sym (recv_data-exact s.offset start s.payload (o ∙ e) u))
      (
        refl,
        (
          payloads ss,
          refl,
          handed-Pieces (start + length s.payload) (at + length s.payload) end ss (omega arith) h,
        ),
      )

-- A server that has read and sent nothing yet.
pub record IsFresh (s : Server) : Type 0 where
  pub unread : s.socket.fd_read_buffer ≡ []
  pub unsent : s.emitted ≡ []
  pub nothing : s.received ≡ []
  pub offset : s.write_offset ≡ 1

-- From a fresh server, over any sequence of budget alarms, whatever read() answers, whichever
-- connections are ready and whatever shares they get: the payloads of the calls of SendData
-- followed by what is still in the read buffer are exactly the bytes read from the
-- application, in order. The calls tile the stream from offset 1 to write_offset_, each of 1
-- to 65535 bytes, and RecvData of the other proxy gives its sequencer, for each of them, its
-- bytes at its place in a stream from 0.
pub run-Pieces :
    (gain : ℕ → ℕ) (es : List Event) (s : Server)
    → IsFresh s
    → let t = run gain es s in
      (payloads t.emitted ++ t.socket.fd_read_buffer ≡ t.received)
      × Tiles 1 t.emitted t.write_offset
      × Pieces 0 (handed t.emitted) (payloads t.emitted)
run-Pieces gain es s fresh = (
  v.bytes_kept,
  v.tiled,
  handed-Pieces 0 1 (run gain es s).write_offset (run gain es s).emitted refl v.tiled,
)
  where
    started :
        (rb : List ℕ) (ss : List Segment) (got : List ℕ)
        → rb ≡ []
        → ss ≡ []
        → got ≡ []
        → payloads ss ++ rb ≡ got
    started rb ss got a b c = ap (λ r. payloads ss ++ r) a ∙ ap (λ r. payloads r ++ []) b ∙ sym c

    v : Streams (run gain es s)
    v = run-Streams gain es s (record {
      bytes_kept =
          started s.socket.fd_read_buffer s.emitted s.received fresh.unread fresh.unsent
            fresh.nothing;
      tiled = subst (λ ss. Tiles 1 ss s.write_offset) (sym fresh.unsent) (sym fresh.offset);
    })
