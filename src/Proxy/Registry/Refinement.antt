-- ===== src/Proxy/Registry/Refinement.antt =====
-- The registry as a partial function of client and session.
use mathlib.Core.Path.{subst, fun_ext}
use dash_dim.Prelude.{
  some_injective, ℕ, ◌≡◌, refl, sym, ap, ◌∙◌, Bool, true, false, Option, none, some, List, [], ◌∷◌,
  ◌==◌, if◌then◌else◌, length, arith, if-intro, ==→≡, ==→≢, nil_of,
}
use dash_dim.Proxy.Registry.{
  Map, in_sessions, find, erase, Table, find_server, unregister_sink, unregister_session,
  unregister_client, Call, registers, unregisters, step, run,
}
use dash_dim.Proxy.Registry.Maps.{
  find-erase, find-replace, erase-IsDistinct, replace-IsDistinct, All-find, All-erase, All-replace,
}
use dash_dim.Proxy.Registry.View.{
  IsSession, IsTable, Refines, Servers, at_key, new_sessions, register_sink-Refines, spec_run,
  spec_step, spec_unregister, view,
}

no_sessions :
    (b : Bool) (o : Option (Map ℕ)) (s : ℕ)
    → in_sessions (if b then none else o) s ≡ in_sessions (if b then some [] else o) s
unfolding find
no_sessions true o s = refl
no_sessions false o s = refl

pub unregister_sink-Refines :
    (uuid sid : ℕ) (t : Table)
    → IsTable t
    → Refines (unregister_sink uuid sid t) (spec_step (unregisters uuid sid) (view t))
unfolding unregister_sink spec_step find_server
unregister_sink-Refines uuid sid t (distinct, all) = client (find uuid t) refl
  where
    Unregistered : Table → Type 0
    Unregistered t' =
        IsTable t'
        × ((u s : ℕ)
            → find_server u s t' ≡ (if at_key uuid sid u s then none else find_server u s t))

    session_ :
        (session : Map ℕ)
        → find uuid t ≡ some session
        → (o : Option ℕ) → find sid session ≡ o
        → Refines (unregister_session uuid sid t session o) (spec_unregister uuid sid (view t) o)
    session_ session e none free = tt
    session_ session e (some server) here =
        if-intro (length (erase sid session) == 0) Unregistered
          (λ b. (
            (erase-IsDistinct uuid t distinct, All-erase IsSession uuid t all),
            λ u s.
                ap (λ o. in_sessions o s) (find-erase uuid u t distinct)
                ∙ no_sessions (uuid == u) (find u t) s
                ∙ new_sessions uuid u sid s t [] none e (
                    ap (find s) (sym (nil_of (erase sid session) (==→≡ _ _ b)))
                    ∙ find-erase sid s session known.0),
          ))
          (λ b. (
            (
              replace-IsDistinct uuid (erase sid session) t distinct,
              All-replace IsSession uuid (erase sid session) t
                  (erase-IsDistinct sid session known.0, omega (arith, ==→≢ _ _ b)) all,
            ),
            λ u s.
                ap (λ o. in_sessions o s) (find-replace uuid u (erase sid session) t e)
                ∙ new_sessions uuid u sid s t (erase sid session) none e
                    (find-erase sid s session known.0),
          ))
      where
        known : IsSession session
        known = All-find IsSession uuid t all e

    client :
        (o : Option (Map ℕ))
        → find uuid t ≡ o
        → Refines
            (unregister_client uuid sid t o)
            (spec_unregister uuid sid (view t) (in_sessions o sid))
    client none away = tt
    client (some session) e = session_ session e (find sid session) refl

step-Refines :
    (call : Call) (t : Table) → IsTable t → Refines (step call t) (spec_step call (view t))
unfolding step
step-Refines (registers server uuid sid) t h = register_sink-Refines server uuid sid t h
step-Refines (unregisters uuid sid) t h = unregister_sink-Refines uuid sid t h

run_on-Refines :
    (calls : List Call) (t : Table) → IsTable t → Refines (run calls t) (spec_run calls (view t))
unfolding run spec_run
run_on-Refines [] t h = (h, λ u s. refl)
run_on-Refines (call ∷ calls) t h =
    go (step call t) (spec_step call (view t)) (step-Refines call t h)
      (λ t' h'. run_on-Refines calls t' h')
  where
    go :
        (o : Option Table) (p : Option Servers)
        → Refines o p
        → ((t' : Table) → IsTable t' → Refines (run calls t') (spec_run calls (view t')))
        → Refines
            (elim o as (λ x. Option Table) [ none ↦ none | some t' ↦ run calls t' ])
            (elim p as (λ x. Option Servers) [ none ↦ none | some g ↦ spec_run calls g ])
    go none none r more = tt
    go none (some g) r more = absurd r
    go (some t') none r more = absurd r
    go (some t') (some g) (h', same) more =
        subst (λ (g : Servers). Refines (run calls t') (spec_run calls g))
          (fun_ext (λ u. fun_ext (λ s. same u s))) (more t' h')

-- Any sequence of RegsiterSink and UnRegsiterSink from the empty registry does what a partial
-- function of client and session does: both fail at a session that is registered twice or
-- unregistered while absent, or the registry has each client and each of its sessions once, no
-- client without a session, and Find answers as the function.
pub run-Refines : (calls : List Call) → Refines (run calls []) (spec_run calls (λ u s. none))
unfolding find_server find
run-Refines calls = run_on-Refines calls [] (tt, tt)

-- The destructor's CHECK.
none_left : (t : Table) → IsTable t → ((u s : ℕ) → find_server u s t ≡ none) → t ≡ []
unfolding find_server find
none_left [] h none_ = refl
none_left ((uuid, []) ∷ rest) (distinct, ((h, some_), all)) none_ = absurd (omega arith)
none_left ((uuid, (sid, server) ∷ sessions) ∷ rest) (distinct, all) none_ =
    absurd (found (none_ uuid sid))
  where
    here : (k : ℕ) → (k == k) ≡ true
    here k = ground arith

    found :
        in_sessions (if uuid == uuid then some ((sid, server) ∷ sessions) else find uuid rest) sid
          ≡ none
        → ⊥
    found e = absurd (ground (arith, here uuid, here sid))

-- When Find finds no server after a sequence of RegsiterSink and UnRegsiterSink that did not
-- fail, the registry is empty, as the destructor of TpServerBackend checks.
run-nil :
    (calls : List Call) (t : Table)
    → run calls [] ≡ some t
    → ((u s : ℕ) → find_server u s t ≡ none)
    → t ≡ []
run-nil calls t e none_ = none_left t (table (run calls []) _ e (run-Refines calls)) none_
  where
    table : (o : Option Table) (p : Option Servers) → o ≡ some t → Refines o p → IsTable t
    table none p e r = absurd (ground arith)
    table (some t') none e r = absurd r
    table (some t') (some f) e (h, same) = subst IsTable (some_injective e) h
