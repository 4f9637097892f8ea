-- ===== src/Dash/Server/Runs.antt =====
-- Runs of DashServerEndpoint from its construction.
use dash_dim.Prelude.{
  All-left, All-right, ℕ, ◌^◌, ◌<◌, ◌≡◌, ◌≢◌, refl, ap, ◌∙◌, Option, none, some, List, [], ◌∷◌,
  ◌++◌, ltb→lt, sym, Yields, Yields-bind, Yields-map, arith, append_assoc, append-nil, inl, inr,
}
use dash_dim.Prelude.Int.{ℤ, pos, pos_part, neg_part, ◌≤ℤ◌}
use dash_dim.Dash.Server.Sending.{IsRefused}
use dash_dim.Dash.Server.Service.{sum, IsSmall, IsServing, IsResting, IsServed, respond-IsServed}
use dash_dim.Dash.Server.Refinement.{owing, IsResting-owing, asked_by, on_event-IsResting}
use dash_dim.Dash.Server.{Endpoint, endpoint, Kernel, IsWrite, front, respond, on_event, Event}

unfoldable pub run : Kernel → List Event → Endpoint → Option Endpoint
run kernel [] e = some e
run kernel (event ∷ events) e = elim (on_event kernel event e) [
  | none ↦ none
  | some e' ↦ run kernel events e'
]

-- Everything that the events ask for.
unfoldable pub asked : List Event → List ℕ
asked [] = []
asked (event ∷ events) = asked_by event ++ asked events

run-IsResting :
    (kernel : Kernel)
    → IsWrite kernel
    → (events : List Event) (requested : List ℕ) (e : Endpoint) → IsResting requested e
    → IsSmall (asked events)
    → Yields (IsResting (requested ++ asked events)) (run kernel events e)
unfolding run asked
run-IsResting kernel law [] requested e r h = rw append-nil r
run-IsResting kernel law (event ∷ events) requested e r h =
    rw (← append_assoc requested (asked_by event) (asked events)) (
      Yields-bind (IsResting (requested ++ asked_by event))
        (IsResting ((requested ++ asked_by event) ++ asked events)) (on_event kernel event e)
        (run kernel events)
        (on_event-IsResting kernel law event requested e r
          (All-left (λ m. m < 2 ^ 31) (asked_by event) (asked events) h))
        (λ e' r'.
          run-IsResting kernel law events (requested ++ asked_by event) e' r'
            (All-right (λ m. m < 2 ^ 31) (asked_by event) (asked events) h)))

-- A new endpoint owes nothing.
endpoint-IsResting : (fd : ℤ) → IsResting [] (endpoint fd)
unfolding endpoint
endpoint-IsResting fd = record {
  serving = record {
    small = tt;
    queue = refl;
    bytes_eq = refl;
    within = omega arith;
    notified = inl refl;
  };
  incomplete = inl (refl, refl);
}

-- From a new endpoint, over any sequence of events, whatever read() answers and whatever a
-- write() that makes progress takes, with every requested size below 2^31: no loop fails to
-- end, and the queue and the bytes sent of its first request are exactly what is owed after
-- the bytes written so far, if the requested sizes are served in the order in which they were
-- asked for.
pub run-owing :
    (kernel : Kernel)
    → IsWrite kernel
    → (fd : ℤ) (events : List Event) → IsSmall (asked events)
    → Yields
        (λ e. (e.request_bytes, e.sent_bytes) ≡ owing (asked events) e.written)
        (run kernel events (endpoint fd))
run-owing kernel law fd events h =
    Yields-map (IsResting (asked events))
      (λ e. (e.request_bytes, e.sent_bytes) ≡ owing (asked events) e.written)
      (run kernel events (endpoint fd))
      (run-IsResting kernel law events [] (endpoint fd) (endpoint-IsResting fd) h)
      (λ e r. IsResting-owing (asked events) e r)

abbrev Answered : List ℕ → Endpoint → Type 0
Answered requested e =
    (e.request_bytes ≡ []) × (e.answered ≡ requested) × (e.written ≡ sum requested)

-- Responce, on an open descriptor whose write() always takes at least a byte, from an endpoint
-- whose queue and counts agree with the sizes requested (each size in the queue below 2^31):
-- it ends with the queue empty, every request answered in order, and as many bytes written as
-- were requested in all.
pub respond_answers :
    (kernel : Kernel)
    → IsWrite kernel
    → ((call n : ℕ) → kernel call n ≢ none)
    → (requested : List ℕ) (e : Endpoint) → IsServing requested e
    → pos 0 ≤ℤ e.fd
    → Yields
        (λ e'. (e'.request_bytes ≡ []) × (e'.answered ≡ requested) × (e'.written ≡ sum requested))
        (respond kernel e)
respond_answers kernel law accepts requested e s open_fd =
    Yields-map (IsServed kernel requested e.fd) (Answered requested) (respond kernel e)
      (respond-IsServed kernel law requested e s)
      (λ e' (r, why, same).
        answered_all e' r
          (elim why [ inl none_ ↦ none_ | inr refused ↦ absurd (never e' same refused) ]))
  where
    never : (e' : Endpoint) → e'.fd ≡ e.fd → IsRefused kernel e' → ⊥
    never e' same (inl closed) =
        absurd (omega (arith, ltb→lt _ _ closed, ap pos_part same, ap neg_part same))
    never e' same (inr (n, refuses)) = accepts _ n refuses

    answered_all :
        (e' : Endpoint) → IsResting requested e' → e'.request_bytes ≡ [] → (Answered requested) e'
    answered_all e' r none_ =
        let all : e'.answered ≡ requested =
          sym (append-nil e'.answered)
          ∙ ap (λ (q : List ℕ). e'.answered ++ q) (sym none_)
          ∙ r.serving.queue in
        (
          none_,
          all,
          omega (arith, r.serving.bytes_eq, r.serving.within, ap front none_, ap sum all),
        )
