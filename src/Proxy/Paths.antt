-- ===== src/Proxy/Paths.antt =====
-- The paths of a session, from the message that opens one to the server that they share.
use mathlib.Core.Path.{subst}
use dash_dim.Prelude.{
  ℕ, ◌^◌, ◌≤◌, ◌<◌, ◌≡◌, refl, sym, ap, ◌∙◌, Bool, true, false, Option, none, some, List, [], ◌∷◌,
  ◌==◌, length, arith, append-nil, size_mod, All, All-append, Yields, Yields-map,
}
use dash_dim.Codec.Endian.{IsByte, network_byte_order}
use dash_dim.Codec.Fixed.{wire, wire-IsByte}
use dash_dim.Codec.VarInt62.{encoding62, encoding62-IsByte, length-encoding62}
use dash_dim.Frame.{parse_message, deliver, is_deliverable}
use dash_dim.Frame.Send.{frame, length-frame}
use dash_dim.Frame.Receive.{call_of, deliver-frame}
use dash_dim.Frame.Segments.{deliver-none}
use dash_dim.Proxy.Registry.{Table, find_server, register_sink, unregister_sink}
use dash_dim.Proxy.Registry.View.{
  IsTable, Refines, view, spec_register, spec_unregister, register_sink-Refines, spec_step,
}
use dash_dim.Proxy.Registry.Refinement.{unregister_sink-Refines}
use dash_dim.Proxy.Meta.{
  Meta, meta, body, length-body, proxy_message_meta, write_meta_data, parse_meta, attach,
  write_meta_data-frame, parse_meta-body,
}

body-IsByte :
    (uuid sid ip port : ℕ) → uuid < 2 ^ 62 → sid < 2 ^ 62 → All IsByte (body uuid sid ip port)
body-IsByte uuid sid ip port hu hs =
    All-append IsByte (encoding62 uuid) _ (encoding62-IsByte uuid hu) (
      All-append IsByte (encoding62 sid) _ (encoding62-IsByte sid hs) (
        All-append IsByte (wire network_byte_order 4 ip) (wire network_byte_order 2 port)
          (wire-IsByte network_byte_order 4 ip) (wire-IsByte network_byte_order 2 port)))

-- WriteMetaData of a client and a session below 2^62, an address below 2^32 and a port below
-- 2^16, on an empty write buffer: the bytes come out of the other end's Deliver as one message
-- with nothing left over, and its ParseMessage reads the same four numbers.
pub parse_meta-write_meta_data :
    (uuid sid ip port : ℕ)
    → uuid < 2 ^ 62
    → sid < 2 ^ 62
    → ip < 2 ^ 32
    → port < 2 ^ 16
    → (bytes message : List ℕ) × (write_meta_data uuid sid ip port [] ≡ some bytes)
      × (deliver bytes ≡ (parse_message 0 message ∷ [], []))
      × (parse_meta message ≡ some (meta uuid sid (some ip) port))
parse_meta-write_meta_data uuid sid ip port hu hs hi hp = (
  frame 0 message,
  message,
  write_meta_data-frame uuid sid ip port [] hu hs,
  delivered,
  parse_meta-body uuid sid ip port hu hs hi hp,
)
  where
    message : List ℕ
    message = proxy_message_meta ∷ body uuid sid ip port

    size : length message ≤ 23
    size =
        omega (arith, length-body uuid sid ip port, length-encoding62 uuid, length-encoding62 sid)

    whole : All IsByte (frame 0 message)
    whole = All-append IsByte (encoding62 0) _ (encoding62-IsByte 0 (omega arith)) (
        All-append IsByte (encoding62 (length message)) message
          (encoding62-IsByte (length message) (omega (arith, size)))
          (omega arith, body-IsByte uuid sid ip port hu hs))

    small : length (frame 0 message) < size_mod
    small = omega (
      arith,
      size,
      length-frame 0 message,
      length-encoding62 0,
      length-encoding62 (length message),
    )

    one : call_of 0 message ≡ parse_message 0 message ∷ []
    one = unfold call_of in ground arith

    delivered : deliver (frame 0 message) ≡ (parse_message 0 message ∷ [], [])
    delivered =
        ap deliver (sym (append-nil (frame 0 message)))
        ∙ deliver-frame 0 message [] (omega arith) (omega (arith, size)) (rw append-nil whole)
            (rw append-nil (omega (arith, small)))
        ∙ rw (deliver-none [] (unfold is_deliverable in refl), one) refl

==_refl : (n : ℕ) → (n == n) ≡ true
==_refl n = ground arith

-- The first path of a session makes its server, and every later one gets the same.
attach_any :
    (t : Table) (m : Meta) (right : ℕ)
    → IsTable t
    → Yields
        (λ r. (opened connects : Bool) (other : ℕ) → attach opened connects other m r.1 ≡ some r)
        (attach true true right m t)
unfolding attach
attach_any t m right h = look (find_server m.uuid m.sid t) refl
  where
    again :
        (t' : Table) (server : ℕ)
        → find_server m.uuid m.sid t' ≡ some server
        → (opened connects : Bool) (other : ℕ)
        → attach opened connects other m t' ≡ some (some server, t')
    again t' server e opened connects other = unfold attach in rw (e, attach) refl

    made :
        (o : Option Table)
        → Refines o (spec_register right m.uuid m.sid (view t) none)
        → Yields
            (λ r.
              (opened connects : Bool) (other : ℕ) → attach opened connects other m r.1 ≡ some r)
            (elim o as (λ x. Option (Option ℕ × Table)) [
              | none ↦ none
              | some t' ↦ some (some right, t')
            ])
    made none r = absurd r
    made (some t') (h', same) =
        again t' right (same m.uuid m.sid ∙ rw (==_refl m.uuid, ==_refl m.sid) refl)

    look :
        (o : Option ℕ)
        → find_server m.uuid m.sid t ≡ o
        → Yields
            (λ r.
              (opened connects : Bool) (other : ℕ) → attach opened connects other m r.1 ≡ some r)
            (elim o as (λ x. Option (Option ℕ × Table)) [
              | none ↦
                  elim (register_sink right m.uuid m.sid t) as (λ x. Option (Option ℕ × Table)) [
                    | none ↦ none
                    | some t' ↦ some (some right, t')
                  ]
              | some server ↦ some (some server, t)
            ])
    look none e = made (register_sink right m.uuid m.sid t) (
        subst
          (λ (o : Option ℕ).
            Refines (register_sink right m.uuid m.sid t)
              (spec_register right m.uuid m.sid (view t) o))
          e (unfold spec_step in register_sink-Refines right m.uuid m.sid t h))
    look (some server) e = again t server e

-- On a registry with each client and session once and no client without a session, where a
-- socket opens and connects: the first path of a session gets a server, and any later path of
-- the session gets the same one and leaves the registry alone, whatever its own socket would
-- answer.
pub attach_twice :
    (t : Table) (m : Meta) (right : ℕ) (opened connects : Bool) (other : ℕ)
    → IsTable t
    → Yields (λ r. attach opened connects other m r.1 ≡ some r) (attach true true right m t)
attach_twice t m right opened connects other h =
    Yields-map
      (λ r. (opened connects : Bool) (other : ℕ) → attach opened connects other m r.1 ≡ some r)
      (λ r. attach opened connects other m r.1 ≡ some r) (attach true true right m t)
      (attach_any t m right h) (λ r same. same opened connects other)

-- On a registry with each client and session once and no client without a session, where the
-- session has no server yet: if the new server's AsynConnect fails at once, its deletion
-- unregisters a session that was never registered, and the CHECK aborts.
pub attach-none :
    (t : Table) (m : Meta) (right : ℕ)
    → IsTable t
    → find_server m.uuid m.sid t ≡ none
    → attach true false right m t ≡ none
unfolding attach
attach-none t m right h away = rw (away, gone (unregister_sink m.uuid m.sid t) refused, attach) refl
  where
    refused : Refines (unregister_sink m.uuid m.sid t) none
    refused =
        subst
          (λ (o : Option ℕ).
            Refines (unregister_sink m.uuid m.sid t) (spec_unregister m.uuid m.sid (view t) o))
          away (unfold spec_step in unregister_sink-Refines m.uuid m.sid t h)

    gone : (o : Option Table) → Refines o none → o ≡ none
    gone none r = refl
    gone (some t') r = absurd r
