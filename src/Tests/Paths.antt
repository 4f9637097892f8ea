-- ===== src/Tests/Paths.antt =====
-- Concrete runs of the registry, and of the message that opens a path.
use dash_dim.Prelude.{ℕ, ◌≡◌, refl, true, false, Option, none, some, List, [], ◌∷◌, arith, Yields}
use dash_dim.Frame.{parse_message, deliver}
use dash_dim.Proxy.Registry.{Table, Call, registers, run, find, find_server}
use dash_dim.Proxy.Registry.View.{Refines, spec_run}
use dash_dim.Proxy.Registry.Refinement.{run-Refines}
use dash_dim.Proxy.Meta.{Meta, meta, write_meta_data, parse_meta, attach}
use dash_dim.Proxy.Paths.{parse_meta-write_meta_data, attach_twice, attach-none}

parse_meta-write_meta_data_example :
    (bytes message : List ℕ) × (write_meta_data 70000 2 16777343 80 [] ≡ some bytes)
    × (deliver bytes ≡ (parse_message 0 message ∷ [], []))
    × (parse_meta message ≡ some (meta 70000 2 (some 16777343) 80))
parse_meta-write_meta_data_example =
    parse_meta-write_meta_data 70000 2 16777343 80 (omega arith) (omega arith) (omega arith)
      (omega arith)

-- A server for session 2 of client 7, once and again.
abbrev twice : List Call
twice = registers 5 7 2 ∷ registers 6 7 2 ∷ []

run-Refines_example : Refines (run twice []) (spec_run twice (λ u s. none))
run-Refines_example = run-Refines twice

abbrev opening : Meta
opening = meta 7 2 (some 16777343) 80

attach_twice_example :
    Yields
      (λ (r : Option ℕ × Table). attach false false 6 opening r.1 ≡ some r)
      (attach true true 5 opening [])
attach_twice_example = attach_twice [] opening 5 false false 6 (tt, tt)

nothing : (u s : ℕ) → find_server u s [] ≡ none
unfolding find_server find
nothing u s = refl

attach-none_example : attach true false 5 opening [] ≡ none
attach-none_example = attach-none [] opening 5 (tt, tt) (nothing 7 2)
