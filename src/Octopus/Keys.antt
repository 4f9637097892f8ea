-- ===== src/Octopus/Keys.antt =====
-- OctopusSessionKey of octopus/octopus_base.h, the key of the dispatchers' map, and its order.
use dash_dim.Prelude.{ℕ, ◌<◌, ◌≡◌, Bool, true, ◌||◌, ltb, arith}

pub record SessionKey : Type 0 where
  pub from : ℕ
  pub to : ℕ
  pub src_port : ℕ
  pub dst_port : ℕ

-- `operator<`.
unfoldable pub less : SessionKey → SessionKey → Bool
less k o =
    ltb k.from o.from || ltb k.to o.to || ltb k.src_port o.src_port || ltb k.dst_port o.dst_port

abbrev pub key : ℕ → ℕ → ℕ → ℕ → SessionKey
key from to src_port dst_port = record {
  from = from;
  to = to;
  src_port = src_port;
  dst_port = dst_port;
}

-- operator< is not a strict order: keys whose source and destination addresses differ in
-- opposite directions are each less than the other.
pub less_both :
    (k o : SessionKey) → k.from < o.from → o.to < k.to → (less k o ≡ true) × (less o k ≡ true)
unfolding less
less_both k o h g = ground arith
