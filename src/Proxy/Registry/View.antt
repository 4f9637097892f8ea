-- ===== src/Proxy/Registry/View.antt =====
-- The registry as a partial function of client and session, and what registering does to it.
use dash_dim.Prelude.{
  ℕ, ◌<◌, ◌≡◌, refl, sym, ap, ◌∙◌, Bool, true, false, Option, none, some, List, [], ◌∷◌, ◌==◌,
  if◌then◌else◌, length, arith, ==→≡, Bool-cases, inl, inr, All,
}
use dash_dim.Proxy.Registry.{
  Map, in_sessions, find, Table, find_server, register_sink, register_session, register_client,
  Call, registers, unregisters,
}
use dash_dim.Proxy.Registry.Maps.{
  IsDistinct, find-replace, find-cons, replace-IsDistinct, All-find, All-replace,
}

-- What a registry is for: at most one server for a session of a client.
abbrev pub Servers : Type 0
Servers = ℕ → ℕ → Option ℕ

abbrev pub view : Table → Servers
view t uuid sid = find_server uuid sid t

abbrev pub at_key : ℕ → ℕ → ℕ → ℕ → Bool
at_key uuid sid u s = if uuid == u then sid == s else false

-- Registering where a server is, and unregistering where none is, is an error.
abbrev pub spec_register : ℕ → ℕ → ℕ → Servers → Option ℕ → Option Servers
spec_register server uuid sid f none =
    some (λ u s. if at_key uuid sid u s then some server else f u s)
spec_register server uuid sid f (some other) = none

abbrev pub spec_unregister : ℕ → ℕ → Servers → Option ℕ → Option Servers
spec_unregister uuid sid f none = none
spec_unregister uuid sid f (some server) = some (λ u s. if at_key uuid sid u s then none else f u s)

unfoldable pub spec_step : Call → Servers → Option Servers
spec_step (registers server uuid sid) f = spec_register server uuid sid f (f uuid sid)
spec_step (unregisters uuid sid) f = spec_unregister uuid sid f (f uuid sid)

unfoldable pub spec_run : List Call → Servers → Option Servers
spec_run [] f = some f
spec_run (call ∷ calls) f = elim (spec_step call f) [ none ↦ none | some g ↦ spec_run calls g ]

-- Each client and each of its sessions once, and no client without a session.
abbrev pub IsSession : Map ℕ → Type 0
IsSession sessions = IsDistinct sessions × (0 < length sessions)

abbrev pub IsTable : Table → Type 0
IsTable t = IsDistinct t × All (λ (kv : ℕ × Map ℕ). IsSession kv.1) t

-- Both fail, or the table is again one and its view is the new function.
abbrev pub Refines : Option Table → Option Servers → Type 0
Refines none none = Unit {0}
Refines none (some f) = ⊥
Refines (some t) none = ⊥
Refines (some t) (some f) = IsTable t × ((u s : ℕ) → find_server u s t ≡ f u s)

in_sessions_if :
    (b : Bool) (new : Map ℕ) (o : Option (Map ℕ)) (s : ℕ)
    → in_sessions (if b then some new else o) s ≡ (if b then find s new else in_sessions o s)
in_sessions_if true new o s = refl
in_sessions_if false new o s = refl

-- A change of one session of one client.
one_session :
    (uuid u sid s : ℕ) (new inner outer : Option ℕ)
    → (uuid ≡ u → inner ≡ outer)
    → (if uuid == u then (if sid == s then new else inner) else outer)
      ≡ (if at_key uuid sid u s then new else outer)
one_session uuid u sid s new inner outer same = elim (Bool-cases (uuid == u)) [
  | inl here ↦ rw here (ap (λ o. if sid == s then new else o) (same (==→≡ _ _ here)))
  | inr there ↦ rw there refl
]

-- The sessions of a client, from the table.
known_session :
    (uuid u s : ℕ) (t : Table) (o : Option (Map ℕ))
    → find uuid t ≡ o
    → uuid ≡ u
    → in_sessions o s ≡ find_server u s t
unfolding find_server
known_session uuid u s t o e same =
    ap (λ o. in_sessions o s) (sym e) ∙ ap (λ (k : ℕ). in_sessions (find k t) s) same

new_client :
    (server uuid sid u s : ℕ) (t : Table)
    → find uuid t ≡ none
    → find_server u s ((uuid, (sid, server) ∷ []) ∷ t)
      ≡ (if at_key uuid sid u s then some server else find_server u s t)
unfolding find_server find
new_client server uuid sid u s t away =
    ap (λ o. in_sessions o s) (find-cons u uuid ((sid, server) ∷ []) t)
    ∙ in_sessions_if (uuid == u) ((sid, server) ∷ []) (find u t) s
    ∙ ap (λ o. if uuid == u then o else in_sessions (find u t) s) (find-cons s sid server [])
    ∙ one_session uuid u sid s (some server) none (in_sessions (find u t) s)
        (λ same. known_session uuid u s t none away same)

-- The sessions of a client change in one place.
pub new_sessions :
    (uuid u sid s : ℕ) (t : Table) {session : Map ℕ} (changed : Map ℕ) (new : Option ℕ)
    → find uuid t ≡ some session
    → find s changed ≡ (if sid == s then new else find s session)
    → in_sessions (if uuid == u then some changed else find u t) s
      ≡ (if at_key uuid sid u s then new else find_server u s t)
unfolding find_server
new_sessions uuid u sid s t {session} changed new e one =
    in_sessions_if (uuid == u) changed (find u t) s
    ∙ ap (λ o. if uuid == u then o else in_sessions (find u t) s) one
    ∙ one_session uuid u sid s new (find s session) (in_sessions (find u t) s)
        (λ same. known_session uuid u s t (some session) e same)

pub register_sink-Refines :
    (server uuid sid : ℕ) (t : Table)
    → IsTable t
    → Refines (register_sink server uuid sid t) (spec_step (registers server uuid sid) (view t))
unfolding register_sink spec_step find_server
register_sink-Refines server uuid sid t (distinct, all) = client (find uuid t) refl
  where
    session_ :
        (session : Map ℕ)
        → find uuid t ≡ some session
        → (o : Option ℕ) → find sid session ≡ o
        → Refines
            (register_session server uuid sid t session o)
            (spec_register server uuid sid (view t) o)
    session_ session e none free = (
      (
        replace-IsDistinct uuid ((sid, server) ∷ session) t distinct,
        All-replace IsSession uuid ((sid, server) ∷ session) t
            ((free, (All-find IsSession uuid t all e).0), omega arith) all,
      ),
      λ u s.
          ap (λ o. in_sessions o s) (find-replace uuid u ((sid, server) ∷ session) t e)
          ∙ new_sessions uuid u sid s t ((sid, server) ∷ session) (some server) e
              (find-cons s sid server session),
    )
    session_ session e (some other) taken = tt

    client :
        (o : Option (Map ℕ))
        → find uuid t ≡ o
        → Refines
            (register_client server uuid sid t o)
            (spec_register server uuid sid (view t) (in_sessions o sid))
    client none away = (
      ((away, distinct), ((((unfold find in refl), tt), omega arith), all)),
      λ u s. new_client server uuid sid u s t away,
    )
    client (some session) e = session_ session e (find sid session) refl
