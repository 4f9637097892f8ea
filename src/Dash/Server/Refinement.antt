-- ===== src/Dash/Server/Refinement.antt =====
-- DashServerEndpoint over its events, against what it owes: the queue and the position in it are a
-- function of what was asked for and of the number of bytes written.
use dash_dim.Prelude.{
  ℕ, ◌+◌, ◌-◌, ◌^◌, ◌≤◌, ◌<◌, ◌≡◌, refl, sym, ap, ◌∙◌, Bool, true, false, Option, none, some, List,
  [], ◌∷◌, ◌++◌, ltb, if◌then◌else◌, length, Yields, Yields-bind, Yields-map, arith, All-append,
  if-intro, append_assoc, append-nil, ◌⊎◌, inl, inr,
}
use dash_dim.Prelude.Int.{pos, ltb_ℤ}
use dash_dim.Connection.{Read, end_of_file, bytes}
use dash_dim.Dash.Request.{read_request}
use dash_dim.Dash.Server.Service.{sum, IsSmall, IsResting, IsServed, respond-IsServed}
use dash_dim.Dash.Server.{
  Endpoint, Kernel, IsWrite, front, respond, on_request, close, delete_self, on_shutdown,
  on_read_event, on_event, Event,
}

-- What is still owed of the requests once `written` bytes have been sent: the requests that are
-- not complete, and the bytes of the first that are.
unfoldable pub owing : List ℕ → ℕ → List ℕ × ℕ
owing [] written = ([], 0)
owing (n ∷ ns) written =
    let rest = owing ns (written - n) in if ltb written n then (n ∷ ns, written) else rest

owing_lem :
    (answered queue : List ℕ) (sent : ℕ)
    → ((queue ≡ []) × (sent ≡ 0)) ⊎ (sent < front queue)
    → owing (answered ++ queue) (sum answered + sent) ≡ (queue, sent)
unfolding owing
owing_lem [] [] sent (inl (none_, zero_)) = ground arith
owing_lem [] [] sent (inr less) = absurd (omega arith)
owing_lem [] (n ∷ ns) sent (inl (none_, zero_)) = absurd (omega (arith, ap length none_))
owing_lem [] (n ∷ ns) sent (inr less) = ground arith
owing_lem (a ∷ answered) queue sent h =
    if-intro (ltb (a + sum answered + sent) a) (λ r. r ≡ (queue, sent)) (λ e. absurd (ground arith))
      (λ _.
        ap (λ (w : ℕ). owing (answered ++ queue) w) (omega arith) ∙ owing_lem answered queue sent h)

pub IsResting-owing :
    (requested : List ℕ) (e : Endpoint)
    → IsResting requested e
    → (e.request_bytes, e.sent_bytes) ≡ owing requested e.written
IsResting-owing requested e r = sym (
    rw (← r.serving.queue, r.serving.bytes_eq)
      (owing_lem e.answered e.request_bytes e.sent_bytes r.incomplete))

le-front : (q : List ℕ) (n sent : ℕ) → sent ≤ front q → sent ≤ front (q ++ (n ∷ []))
le-front [] n sent h = omega arith
le-front (m ∷ q) n sent h = h

on_request-IsResting :
    (kernel : Kernel)
    → IsWrite kernel
    → (n : ℕ) (requested : List ℕ) (e : Endpoint) → IsResting requested e
    → n < 2 ^ 31
    → Yields (IsResting (requested ++ (n ∷ []))) (on_request kernel n e)
unfolding on_request
on_request-IsResting kernel law n requested e r h =
    Yields-map (IsServed kernel (requested ++ (n ∷ [])) e.fd) (IsResting (requested ++ (n ∷ [])))
      (respond kernel asked)
      (respond-IsServed kernel law (requested ++ (n ∷ [])) asked (record {
        small = All-append (λ m. m < 2 ^ 31) e.request_bytes (n ∷ []) r.serving.small (h, tt);
        queue =
            sym (append_assoc e.answered e.request_bytes (n ∷ []))
            ∙ ap (λ (l : List ℕ). l ++ (n ∷ [])) r.serving.queue;
        bytes_eq = r.serving.bytes_eq;
        within = le-front e.request_bytes n e.sent_bytes r.serving.within;
        notified = inr refl;
      }))
      (λ e' served. served.0)
  where
    asked : Endpoint
    asked = record e {
      counter = e.counter + 1;
      request_bytes = e.request_bytes ++ (n ∷ []);
      epoll_out = true;
    }

on_shutdown-IsResting :
    (requested : List ℕ) (e : Endpoint)
    → IsResting requested e
    → IsResting requested (on_shutdown e)
unfolding on_shutdown close delete_self
on_shutdown-IsResting requested e r =
    if-intro (close e).destroyed (IsResting requested) (λ _. closed)
      (λ _. record {
        serving = record {
          small = closed.serving.small;
          queue = closed.serving.queue;
          bytes_eq = closed.serving.bytes_eq;
          within = closed.serving.within;
          notified = closed.serving.notified;
        };
        incomplete = closed.incomplete;
      })
  where
    closed : IsResting requested (close e)
    closed =
        if-intro (ltb_ℤ (pos 0) e.fd) (IsResting requested)
          (λ _. record {
            serving = record {
              small = r.serving.small;
              queue = r.serving.queue;
              bytes_eq = r.serving.bytes_eq;
              within = r.serving.within;
              notified = r.serving.notified;
            };
            incomplete = r.incomplete;
          })
          (λ _. r)

abbrev asks : Option ℕ → List ℕ → List ℕ
asks none rest = rest
asks (some n) rest = n ∷ rest

-- The sizes that the answers of read() ask for, up to the end of the file.
unfoldable pub requests : List Read → List ℕ
requests [] = []
requests (end_of_file ∷ reads) = []
requests (bytes chunk ∷ reads) = asks (read_request chunk) (requests reads)

on_read_event-IsResting :
    (kernel : Kernel)
    → IsWrite kernel
    → (reads : List Read) (requested : List ℕ) (e : Endpoint) → IsResting requested e
    → IsSmall (requests reads)
    → Yields (IsResting (requested ++ requests reads)) (on_read_event kernel reads e)
unfolding on_read_event requests
on_read_event-IsResting kernel law [] requested e r h = rw append-nil r
on_read_event-IsResting kernel law (end_of_file ∷ reads) requested e r h =
    rw append-nil (on_shutdown-IsResting requested e r)
on_read_event-IsResting kernel law (bytes chunk ∷ reads) requested e r h =
    one (read_request chunk) h
      (λ e' requested' r' h'. on_read_event-IsResting kernel law reads requested' e' r' h')
  where
    one :
        (o : Option ℕ)
        → IsSmall (asks o (requests reads))
        → ((e' : Endpoint) (requested' : List ℕ)
            → IsResting requested' e'
            → IsSmall (requests reads)
            → Yields (IsResting (requested' ++ requests reads)) (on_read_event kernel reads e'))
        → Yields
            (IsResting (requested ++ asks o (requests reads)))
            (elim o as (λ x. Option Endpoint) [
              | none ↦ on_read_event kernel reads e
              | some n ↦ elim (on_request kernel n e) as (λ x. Option Endpoint) [
                | none ↦ none
                | some e' ↦ on_read_event kernel reads e'
              ]
            ])
    one none h more = more e requested r h
    one (some n) (h, hs) more = rw (← append_assoc requested (n ∷ []) (requests reads)) (
        Yields-bind (IsResting (requested ++ (n ∷ [])))
          (IsResting ((requested ++ (n ∷ [])) ++ requests reads)) (on_request kernel n e)
          (on_read_event kernel reads) (on_request-IsResting kernel law n requested e r h)
          (λ e' r'. more e' (requested ++ (n ∷ [])) r' hs))

-- The sizes that an event asks for.
unfoldable pub asked_by : Event → List ℕ
asked_by event = if event.readable then requests event.reads else []

pub on_event-IsResting :
    (kernel : Kernel)
    → IsWrite kernel
    → (event : Event) (requested : List ℕ) (e : Endpoint) → IsResting requested e
    → IsSmall (asked_by event)
    → Yields (IsResting (requested ++ asked_by event)) (on_event kernel event e)
unfolding on_event asked_by
on_event-IsResting kernel law event requested e r h =
    Yields-bind (IsResting after) (IsResting after)
      (if event.readable then on_read_event kernel event.reads e else some e)
      (λ e'. if event.writable then respond kernel e' else some e') (read event.readable h)
      (λ e' r'.
        if-intro event.writable (Yields (IsResting after))
          (λ _.
            Yields-map (IsServed kernel after e'.fd) (IsResting after) (respond kernel e')
              (respond-IsServed kernel law after e' r'.serving) (λ e'' served. served.0))
          (λ _. r'))
  where
    after : List ℕ
    after = requested ++ asked_by event

    read :
        (b : Bool)
        → IsSmall (if b then requests event.reads else [])
        → Yields
            (IsResting (requested ++ (if b then requests event.reads else [])))
            (if b then on_read_event kernel event.reads e else some e)
    read true h = on_read_event-IsResting kernel law event.reads requested e r h
    read false h = rw append-nil r
