-- ===== src/Proxy/Registry.antt =====
-- TpServerBackend of tpproxy/mpproxy_server.cc: the servers by client and session. A std::map is the
-- list of its pairs; `uuid_sessions_` maps a uuid to the sessions of that client. A server is a
-- number. A CHECK that aborts is `none`.
pub mod Maps
pub mod View
pub mod Refinement
use dash_dim.Prelude.{
  ℕ, zero, ◌+◌, Bool, Option, none, some, List, [], ◌∷◌, ◌==◌, if◌then◌else◌, length,
}

abbrev pub Map {ℓ} : Type ℓ → Type ℓ
Map V = List (ℕ × V)

module _ {V : Type 0} where
  unfoldable pub find : ℕ → Map V → Option V
  find key [] = none
  find key ((k, v) ∷ rest) = let others = find key rest in if k == key then some v else others

  unfoldable pub erase : ℕ → Map V → Map V
  erase key [] = []
  erase key ((k, v) ∷ rest) =
      let others = erase key rest in if k == key then rest else (k, v) ∷ others

  -- The value of a key that is there, after a change behind its pointer.
  unfoldable pub replace : ℕ → V → Map V → Map V
  replace key new [] = []
  replace key new ((k, v) ∷ rest) =
      let others = replace key new rest in if k == key then (k, new) ∷ rest else (k, v) ∷ others

abbrev pub Table : Type 0
Table = Map (Map ℕ)

abbrev pub in_sessions : Option (Map ℕ) → ℕ → Option ℕ
in_sessions none sid = none
in_sessions (some sessions) sid = find sid sessions

-- Find.
unfoldable pub find_server : ℕ → ℕ → Table → Option ℕ
find_server uuid sid t = in_sessions (find uuid t) sid

-- RegsiterSink, where the lookups found the sessions of the client, and the server of the session.
abbrev pub register_session : ℕ → ℕ → ℕ → Table → Map ℕ → Option ℕ → Option Table
register_session server uuid sid t session none = some (replace uuid ((sid, server) ∷ session) t)
register_session server uuid sid t session (some other) = none

abbrev pub register_client : ℕ → ℕ → ℕ → Table → Option (Map ℕ) → Option Table
register_client server uuid sid t none = some ((uuid, (sid, server) ∷ []) ∷ t)
register_client server uuid sid t (some session) =
    register_session server uuid sid t session (find sid session)

unfoldable pub register_sink : ℕ → ℕ → ℕ → Table → Option Table
register_sink server uuid sid t = register_client server uuid sid t (find uuid t)

-- UnRegsiterSink likewise: the last session of a client takes its map along.
abbrev pub unregister_session : ℕ → ℕ → Table → Map ℕ → Option ℕ → Option Table
unregister_session uuid sid t session none = none
unregister_session uuid sid t session (some server) =
    let rest = erase sid session in
    some (if length rest == 0 then erase uuid t else replace uuid rest t)

abbrev pub unregister_client : ℕ → ℕ → Table → Option (Map ℕ) → Option Table
unregister_client uuid sid t none = none
unregister_client uuid sid t (some session) =
    unregister_session uuid sid t session (find sid session)

unfoldable pub unregister_sink : ℕ → ℕ → Table → Option Table
unregister_sink uuid sid t = unregister_client uuid sid t (find uuid t)

-- The calls that change the table.
pub data Call : Type 0 where
  registers : ℕ → ℕ → ℕ → Call
  unregisters : ℕ → ℕ → Call

unfoldable pub step : Call → Table → Option Table
step (registers server uuid sid) t = register_sink server uuid sid t
step (unregisters uuid sid) t = unregister_sink uuid sid t

unfoldable pub run : List Call → Table → Option Table
run [] t = some t
run (call ∷ calls) t = elim (step call t) [ none ↦ none | some t' ↦ run calls t' ]
