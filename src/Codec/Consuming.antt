-- ===== src/Codec/Consuming.antt =====
-- Chains of reads, against the bytes that they consume.
use dash_dim.Prelude.{
  ℕ, ◌+◌, ◌^◌, ◌<◌, ◌≡◌, sym, ap, ◌∙◌, some, List, [], ◌++◌, length, length-append, append_assoc,
  append-nil, arith,
}
use mathlib.Core.Path.{subst}
use dash_dim.Codec.Endian.{host_bytes, network_byte_order, length-host_bytes}
use dash_dim.Codec.Reader.{
  Reader, Read, ◌>>=◌, return, advance_pos, read_uint8, read_uint16, read_uint32,
}
use dash_dim.Codec.Advance.{IsAhead, >>=-some, advance_pos-IsAhead}
use dash_dim.Codec.Fixed.{wire, length-wire, read_uint8-wire, read_uint16-wire, read_uint32-wire}

-- In network order, the read finds the value in the bytes and steps over them.
abbrev pub Consumes : {A : Type 0} → Read A → A → List ℕ → Type 0
Consumes m a bs =
    (tail : List ℕ) (r : Reader)
    → r.endianness ≡ network_byte_order
    → IsAhead bs tail r
    → m r ≡ (some a, advance_pos (length bs) r)

advance_twice : (m n : ℕ) (r : Reader) → advance_pos n (advance_pos m r) ≡ advance_pos (m + n) r
unfolding advance_pos
advance_twice m n r = ap (λ (k : ℕ). record r { pos = k }) (omega arith)

return-Consumes : {A : Type 0} (a : A) → Consumes (return a) a []
unfolding advance_pos
return-Consumes a tail r order h = ap (λ (k : ℕ). (some a, (record r { pos = k }))) (omega arith)

pub >>=-Consumes :
    {A B : Type 0} (m : Read A) (f : A → Read B) (a : A) (b : B) (bs cs : List ℕ)
    → Consumes m a bs
    → Consumes (f a) b cs
    → Consumes (m >>= f) b (bs ++ cs)
>>=-Consumes m f a b bs cs first then_ tail r order h =
    >>=-some m f r (first (cs ++ tail) r order ahead)
    ∙ then_ tail (advance_pos (length bs) r) (unfold advance_pos in order)
        (advance_pos-IsAhead bs cs tail r ahead (omega (arith, h.owned, length-append bs cs)))
    ∙ ap (λ (q : Reader). (some b, q))
        (advance_twice (length bs) (length cs) r
          ∙ ap (λ (n : ℕ). advance_pos n r) (sym (length-append bs cs)))
  where
    ahead : IsAhead bs (cs ++ tail) r
    ahead = record {
      ahead = h.ahead ∙ append_assoc bs cs tail;
      owned = omega (arith, h.owned, length-append bs cs);
      addressable = h.addressable;
    }

-- The last read of a chain, whose value is then returned.
pub last-Consumes :
    {A B : Type 0} (m : Read A) (f : A → B) (a : A) (bs : List ℕ)
    → Consumes m a bs
    → Consumes (m >>= (λ x. return (f x))) (f a) bs
last-Consumes m f a bs last =
    subst (λ cs. Consumes (m >>= (λ x. return (f x))) (f a) cs) (append-nil bs)
      (>>=-Consumes m (λ x. return (f x)) a (f a) bs [] last (return-Consumes (f a)))

pub read_uint8-Consumes : (v : ℕ) → v < 2 ^ 8 → Consumes read_uint8 v (host_bytes 1 v)
read_uint8-Consumes v small tail r order h =
    read_uint8-wire v tail r small h
    ∙ ap (λ (n : ℕ). (some v, advance_pos n r)) (sym (length-host_bytes 1 v))

-- The wire of a reader in network order.
in_order :
    (n v : ℕ) (tail : List ℕ) (r : Reader)
    → r.endianness ≡ network_byte_order
    → IsAhead (wire network_byte_order n v) tail r
    → IsAhead (wire r.endianness n v) tail r
in_order n v tail r order h = subst (λ e. IsAhead (wire e n v) tail r) (sym order) h

pub read_uint16-Consumes :
    (v : ℕ) → v < 2 ^ 16 → Consumes read_uint16 v (wire network_byte_order 2 v)
read_uint16-Consumes v small tail r order h =
    read_uint16-wire v tail r small (in_order 2 v tail r order h)
    ∙ ap (λ (n : ℕ). (some v, advance_pos n r)) (sym (length-wire network_byte_order 2 v))

pub read_uint32-Consumes :
    (v : ℕ) → v < 2 ^ 32 → Consumes read_uint32 v (wire network_byte_order 4 v)
read_uint32-Consumes v small tail r order h =
    read_uint32-wire v tail r small (in_order 4 v tail r order h)
    ∙ ap (λ (n : ℕ). (some v, advance_pos n r)) (sym (length-wire network_byte_order 4 v))
