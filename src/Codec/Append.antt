-- ===== src/Codec/Append.antt =====
-- The writes of DataWriter, as what they append to the payload.
use dash_dim.Prelude.{
  ℕ, zero, suc, ◌+◌, ◌-◌, ◌*◌, ◌/◌, ◌%◌, ◌^◌, ◌≤◌, ◌<◌, ◌≡◌, refl, sym, ap, ◌∙◌, Bool, true, false,
  not, List, [], ◌∷◌, ◌++◌, bit_and, ltb, leb, ◌==◌, if◌then◌else◌, take, drop, arith,
  length-append, length-take, length-drop, take-append, append_assoc, size_mod, min, ◌↔◌, inl, inr,
  Bool-cases, append-nil, replicate, length-replicate,
}
use dash_dim.Prelude
use dash_dim.Prelude.Bits.{field_zero_iff}
use dash_dim.Codec.Writer.{
  Writer, Write, writer, ◌then_write◌, payload, masked, store, increase_length, write_bytes,
  put_case, var_int62_error_mask, var_int62_mask8_bytes, var_int62_mask4_bytes,
  var_int62_mask2_bytes,
}

pub record IsValid (w : Writer) : Type 0 where
  pub within : w.length ≤ w.capacity
  pub owned : w.capacity ≡ Prelude.length w.buffer
  pub addressable : w.capacity < size_mod

pub length-payload : (w : Writer) → IsValid w → Prelude.length (payload w) ≡ w.length
length-payload w v = omega (arith, length-take w.length w.buffer)

-- The stores put the bytes behind the payload.
payload-store :
    (w : Writer) (bytes : List ℕ)
    → IsValid w
    → take (w.length + Prelude.length bytes) (store bytes w).buffer ≡ payload w ++ bytes
payload-store w bytes v =
    let whole : List ℕ = payload w ++ bytes in
    let size : Prelude.length whole ≡ w.length + Prelude.length bytes =
      omega (arith, length-append (payload w) bytes, length-payload w v) in
    rw (← size, ← append_assoc) (take-append whole (drop (Prelude.length whole) w.buffer))

-- A write that fits.
pub written : List ℕ → Writer → Writer
unfolding increase_length
written bytes w = increase_length (Prelude.length bytes) (store bytes w)

payload-written :
    (w : Writer) (bytes : List ℕ) → IsValid w → payload (written bytes w) ≡ payload w ++ bytes
unfolding written
payload-written w bytes v = payload-store w bytes v

written-IsValid :
    (w : Writer) (bytes : List ℕ)
    → IsValid w
    → w.length + Prelude.length bytes ≤ w.capacity
    → IsValid (written bytes w)
unfolding written
written-IsValid w bytes v fits = record {
  within = fits;
  owned = omega (
    arith,
    length-append (payload w) (bytes ++ drop (w.length + Prelude.length bytes) w.buffer),
    length-append bytes (drop (w.length + Prelude.length bytes) w.buffer),
    length-drop (w.length + Prelude.length bytes) w.buffer,
    length-payload w v,
    v.owned,
  );
  addressable = v.addressable;
}

pub write_bytes-written :
    (w : Writer) (bytes : List ℕ)
    → w.length + Prelude.length bytes ≤ w.capacity
    → write_bytes bytes w ≡ (written bytes w, true)
unfolding write_bytes written
write_bytes-written w bytes fits = ground arith

write_bytes_refused :
    (w : Writer) (bytes : List ℕ)
    → w.capacity < w.length + Prelude.length bytes
    → write_bytes bytes w ≡ (w, false)
unfolding write_bytes
write_bytes_refused w bytes full = ground arith

pub put_case-write_bytes :
    (w : Writer) (bytes : List ℕ) → IsValid w → put_case bytes w ≡ write_bytes bytes w
unfolding put_case write_bytes
put_case-write_bytes w bytes v = ground arith

-- The masked tests are comparisons.
masked-ltb : (v m b : ℕ) → (bit_and v m ≡ 0) ↔ (v < b) → masked v m ≡ not (ltb v b)
masked-ltb v m b (p, q) = ground (arith, p, q)

pub masked_error : (v : ℕ) → v < 2 ^ 64 → masked v var_int62_error_mask ≡ not (ltb v (2 ^ 62))
masked_error v h = masked-ltb v _ _ (field_zero_iff 62 2 v h)

pub masked_8 : (v : ℕ) → v < 2 ^ 62 → masked v var_int62_mask8_bytes ≡ not (ltb v (2 ^ 30))
masked_8 v h = masked-ltb v _ _ (field_zero_iff 30 32 v h)

pub masked_4 : (v : ℕ) → v < 2 ^ 30 → masked v var_int62_mask4_bytes ≡ not (ltb v (2 ^ 14))
masked_4 v h = masked-ltb v _ _ (field_zero_iff 14 16 v h)

pub masked_2 : (v : ℕ) → v < 2 ^ 14 → masked v var_int62_mask2_bytes ≡ not (ltb v (2 ^ 6))
masked_2 v h = masked-ltb v _ _ (field_zero_iff 6 8 v h)

-- What a successful write leaves: the payload with `bytes` behind it.
pub record Appended (bytes : List ℕ) (w w' : Writer) : Type 0 where
  pub payload_eq : payload w' ≡ payload w ++ bytes
  pub valid : IsValid w'
  pub length_eq : w'.length ≡ w.length + Prelude.length bytes
  pub capacity_eq : w'.capacity ≡ w.capacity
  pub endianness_eq : w'.endianness ≡ w.endianness

pub written-Appended :
    (w : Writer) (bytes : List ℕ)
    → IsValid w
    → w.length + Prelude.length bytes ≤ w.capacity
    → Appended bytes w (written bytes w)
written-Appended w bytes v fits = record {
  payload_eq = payload-written w bytes v;
  valid = written-IsValid w bytes v fits;
  length_eq = unfold written in refl;
  capacity_eq = unfold written in refl;
  endianness_eq = unfold written in refl;
}

Appended-none : (w : Writer) → IsValid w → Appended [] w w
Appended-none w v = record {
  payload_eq = sym (append-nil (payload w));
  valid = v;
  length_eq = omega arith;
  capacity_eq = refl;
  endianness_eq = refl;
}

pub Appended-trans :
    (xs ys : List ℕ) (u v w : Writer) → Appended xs u v → Appended ys v w → Appended (xs ++ ys) u w
Appended-trans xs ys u v w a b = record {
  payload_eq =
      b.payload_eq ∙ ap (λ (l : List ℕ). l ++ ys) a.payload_eq ∙ append_assoc (payload u) xs ys;
  valid = b.valid;
  length_eq = omega (arith, a.length_eq, b.length_eq, length-append xs ys);
  capacity_eq = b.capacity_eq ∙ a.capacity_eq;
  endianness_eq = b.endianness_eq ∙ a.endianness_eq;
}

-- A chain of writes goes on after one that succeeded.
pub then_write-true :
    (f g : Write) (w : Writer) {w' : Writer} → f w ≡ (w', true) → (f then_write g) w ≡ g w'
then_write-true f g w e = ap (λ p. if p.1 then g p.0 else (p.0, false)) e

pub writer-IsValid : (n : ℕ) → n < size_mod → IsValid (writer (replicate n 0) n)
unfolding writer
writer-IsValid n h = record {
  within = omega arith;
  owned = sym (length-replicate {A = ℕ} n 0);
  addressable = h;
}
