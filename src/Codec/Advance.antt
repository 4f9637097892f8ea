-- ===== src/Codec/Advance.antt =====
-- The reads of DataReader, as what they take of the bytes ahead.
use dash_dim.Prelude.{
  ℕ, ◌+◌, ◌≤◌, ◌<◌, ◌≡◌, refl, ap, ◌∙◌, Option, none, some, List, ◌++◌, length, take, drop, arith,
  take-append, drop-append, drop-drop, size_mod,
}
use dash_dim.Codec.Reader.{Reader, Read, ◌>>=◌, next, read_bytes, advance_pos}

-- The bytes `bs`, then `tail`, are the memory ahead, and the reader owns `bs`.
pub record IsAhead (bs tail : List ℕ) (r : Reader) : Type 0 where
  pub ahead : next r ≡ bs ++ tail
  pub owned : r.pos + length bs ≤ r.len
  pub addressable : r.len < size_mod

next-advance_pos : (n : ℕ) (r : Reader) → next (advance_pos n r) ≡ drop n (next r)
unfolding advance_pos
next-advance_pos n r = drop-drop r.pos n r.memory

pub read_bytes-ahead :
    (bs tail : List ℕ) (r : Reader)
    → IsAhead bs tail r
    → read_bytes (length bs) r ≡ (some bs, advance_pos (length bs) r)
unfolding read_bytes
read_bytes-ahead bs tail r a =
    let bytes : take (length bs) (next r) ≡ bs =
      ap (take (length bs)) a.ahead ∙ take-append bs tail in
    ground (arith, a.owned, a.addressable, bytes)

-- After the read the tail is ahead.
pub advance_pos-IsAhead :
    (bs cs tail : List ℕ) (r : Reader)
    → IsAhead bs (cs ++ tail) r
    → r.pos + length bs + length cs ≤ r.len
    → IsAhead cs tail (advance_pos (length bs) r)
advance_pos-IsAhead bs cs tail r a room = record {
  ahead =
      next-advance_pos (length bs) r ∙ ap (drop (length bs)) a.ahead ∙ drop-append bs (cs ++ tail);
  owned = unfold advance_pos in room;
  addressable = unfold advance_pos in a.addressable;
}

-- A chain of reads goes on after one that succeeded.
pub >>=-some :
    {A B : Type 0} (m : Read A) (f : A → Read B) (r : Reader) {a : A} {r' : Reader}
    → m r ≡ (some a, r')
    → (m >>= f) r ≡ f a r'
>>=-some m f r e = ap (λ p. elim p.0 [ none ↦ (none, p.1) | some x ↦ f x p.1 ]) e

-- And a chain that returned a value has gone through each read.
pub >>=-eq-some :
    {A B : Type 0} (m : Read A) (f : A → Read B) (r : Reader) {b : B}
    → ((m >>= f) r).0 ≡ some b
    → (a : A) × (r' : Reader) × (m r ≡ (some a, r')) × ((f a r').0 ≡ some b)
>>=-eq-some {A} {B} m f r {b} = split (m r) refl
  where
    split :
        (p : Option A × Reader)
        → m r ≡ p
        → (let q : Option B × Reader = elim p.0 [ none ↦ (none, p.1) | some x ↦ f x p.1 ] in q.0)
          ≡ some b
        → (a : A) × (r' : Reader) × (m r ≡ (some a, r')) × ((f a r').0 ≡ some b)
    split (none, r') e h = cc
    split (some a, r') e h = (a, r', e, h)
