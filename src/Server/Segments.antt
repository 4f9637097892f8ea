-- ===== src/Server/Segments.antt =====
-- The segments that Schedule and SendDataWithLimit cut the read buffer into.
use mathlib.Core.Path.{subst}
use dash_dim.Prelude.{
  All-append, ℕ, zero, suc, ◌+◌, ◌/◌, ◌≤◌, ◌≡◌, refl, sym, ap, ◌∙◌, List, [], ◌∷◌, ◌++◌, ltb, ◌==◌,
  length, take, drop, min, max, arith, if-intro, ==→≡, ==→≢, nil_of, All, take-append-drop,
  length-drop, length-take, append_assoc, append-nil,
}
use dash_dim.Frame.{packet_length_max}
use dash_dim.Server.{
  ReadyPath, Segment, limit_loop, send_data_with_limit, deal, goodput_kbps, min_payload_size,
}

-- The segments follow one another from one stream offset to another, none empty, none above the
-- limit of SendData.
abbrev pub Tiles : ℕ → List Segment → ℕ → Type 0
Tiles start [] end = start ≡ end
Tiles start (s ∷ ss) end =
    (s.offset ≡ start)
    × (1 ≤ length s.payload)
    × (length s.payload ≤ packet_length_max)
    × Tiles (start + length s.payload) ss end

abbrev pub payloads : List Segment → List ℕ
payloads [] = []
payloads (s ∷ ss) = s.payload ++ payloads ss

pub payloads-append : (ss ts : List Segment) → payloads (ss ++ ts) ≡ payloads ss ++ payloads ts
payloads-append [] ts = refl
payloads-append (s ∷ ss) ts =
    ap (λ r. s.payload ++ r) (payloads-append ss ts)
    ∙ sym (append_assoc s.payload (payloads ss) (payloads ts))

pub Tiles-append :
    (a b c : ℕ) (ss ts : List Segment) → Tiles a ss b → Tiles b ts c → Tiles a (ss ++ ts) c
Tiles-append a b c [] ts h k = subst (λ x. Tiles x ts c) (sym h) k
Tiles-append a b c (s ∷ ss) ts (o, l, u, h) k =
    (o, l, u, Tiles-append (a + length s.payload) b c ss ts h k)

-- The bytes of `data_` on connections that satisfy `P`, from `offset` on.
abbrev pub Covers : (ℕ → Type 0) → ℕ → List ℕ → List Segment → Type 0
Covers P offset data_ ss =
    (payloads ss ≡ data_) × (Tiles offset ss (offset + length data_)) × (All (λ s. P s.number) ss)

nothing-Covers : (P : ℕ → Type 0) (offset : ℕ) (pv : List ℕ) → length pv ≡ 0 → Covers P offset pv []
nothing-Covers P offset pv h = (sym (nil_of pv h), omega arith, tt)

-- The first `n` bytes and the rest.
Covers-split :
    (P : ℕ → Type 0) (offset n : ℕ) (pv : List ℕ) (ss ts : List Segment)
    → n ≤ length pv
    → Covers P offset (take n pv) ss
    → Covers P (offset + n) (drop n pv) ts
    → Covers P offset pv (ss ++ ts)
Covers-split P offset n pv ss ts small (a, b, c) (d, e, f) = (
  payloads-append ss ts
      ∙ ap (λ r. r ++ payloads ts) a
      ∙ ap (λ r. take n pv ++ r) d
      ∙ take-append-drop n pv,
  Tiles-append offset (offset + n) (offset + length pv) ss ts
      (subst (Tiles offset ss) (omega (arith, length-take n pv)) b)
      (subst (Tiles (offset + n) ts) (omega (arith, length-drop n pv)) e),
  All-append (λ s. P s.number) ss ts c f,
)

single-Covers :
    (P : ℕ → Type 0) (number offset : ℕ) (pv : List ℕ)
    → 1 ≤ length pv
    → length pv ≤ packet_length_max
    → P number
    → Covers P offset pv (record { number = number; offset = offset; payload = pv } ∷ [])
single-Covers P number offset pv some_bytes small at =
    (append-nil pv, (refl, some_bytes, small, refl), (at, tt))

limit_loop-Covers :
    (P : ℕ → Type 0) (fuel number offset : ℕ) (pv : List ℕ)
    → length pv ≤ fuel
    → P number
    → Covers P offset pv (limit_loop fuel number offset pv)
unfolding limit_loop
limit_loop-Covers P zero number offset pv h at = nothing-Covers P offset pv (omega arith)
limit_loop-Covers P (suc fuel) number offset pv h at =
    if-intro (length pv == 0) (Covers P offset pv)
      (λ e. nothing-Covers P offset pv (==→≡ (length pv) 0 e))
      (λ e.
        Covers-split P offset n pv
          (record { number = number; offset = offset; payload = take n pv } ∷ []) _ (omega arith)
          (single-Covers P number offset (take n pv)
            (omega (arith, length-take n pv, ==→≢ (length pv) 0 e))
            (omega (arith, length-take n pv)) at)
          (limit_loop-Covers P fuel number (offset + n) (drop n pv)
            (omega (arith, length-drop n pv, ==→≢ (length pv) 0 e)) at))
  where
    n : ℕ
    n = min (length pv) packet_length_max

send_data_with_limit-Covers :
    (P : ℕ → Type 0) (number offset : ℕ) (pv : List ℕ)
    → P number
    → Covers P offset pv (send_data_with_limit number offset pv)
unfolding send_data_with_limit
send_data_with_limit-Covers P number offset pv at =
    limit_loop-Covers P (length pv) number offset pv (omega arith) at

-- Schedule's dealing of bytes over a list of connections that is not empty, whatever the
-- shares and the total: the segments carry all the bytes, in order, tile the stream from the
-- given offset on, have 1 to 65535 bytes each, and stand on connections whose numbers have any
-- property that all numbers of the list have.
pub deal-Covers :
    (share : ℕ → ℕ → ℕ → ℕ) (P : ℕ → Type 0) (total : ℕ) (p : ReadyPath) (ps : List ReadyPath)
    (offset : ℕ) (data_ : List ℕ)
    → All (λ q. P q.number) (p ∷ ps)
    → Covers P offset data_ (deal share total (p ∷ ps) offset data_)
unfolding deal
deal-Covers share P total p [] offset data_ (at, _) =
    if-intro (ltb 0 (length data_)) (Covers P offset data_)
      (λ _. send_data_with_limit-Covers P p.number offset data_ at)
      (λ e. nothing-Covers P offset data_ (ground arith))
deal-Covers share P total p (q ∷ ps) offset data_ (at, rest) =
    if-intro (length data_ == 0) (Covers P offset data_)
      (λ e. nothing-Covers P offset data_ (==→≡ (length data_) 0 e))
      (λ _.
        Covers-split P offset sent data_ (send_data_with_limit p.number offset (take sent data_)) _
          (omega arith) (send_data_with_limit-Covers P p.number offset (take sent data_) at)
          (deal-Covers share P total q ps (offset + sent) (drop sent data_) rest))
  where
    sent : ℕ
    sent =
        min (max (share (goodput_kbps p) (total / 1000) (length data_)) min_payload_size)
          (length data_)
