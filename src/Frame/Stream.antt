-- ===== src/Frame/Stream.antt =====
-- A connection end to end, from SendData to Deliver.
use mathlib.Core.Path.{subst}
use dash_dim.Prelude.{
  All-append, All-left, ℕ, ◌^◌, ◌≤◌, ◌<◌, ◌≡◌, refl, sym, ap, ◌∙◌, Option, none, some, List, [],
  ◌∷◌, ◌++◌, length, arith, size_mod, length-append, All, append-nil, append_assoc, Bool, true,
  false, ◌||◌, if◌then◌else◌,
}
use dash_dim.Codec.Endian.{IsByte}
use dash_dim.Codec.VarInt62.{encoding62, encoding62-IsByte}
use dash_dim.Frame.Send.{frame, send_data-frame}
use dash_dim.Frame.Receive.{call_of, deliver-frame}
use dash_dim.Frame.Segments.{deliver-append, deliver-none}
use dash_dim.Frame.{
  Call, recv_data, perform, deliver, is_deliverable, send_data, packet_length_max, reserve_offset,
}

-- SendData for each of a list of offsets and bytes, in turn.
unfoldable pub send_all : List (ℕ × List ℕ) → List ℕ → Option (List ℕ)
send_all [] wb = some wb
send_all ((o, pv) ∷ fs) wb = elim (send_data true o pv wb) [
  | none ↦ none
  | some wb' ↦ send_all fs wb'
]

-- Data frames: an offset from kReserveOffset on, and at most 65535 bytes.
abbrev pub IsDataFrame : ℕ × List ℕ → Type 0
IsDataFrame f =
    (reserve_offset ≤ f.0) × (f.0 < 2 ^ 62) × (length f.1 ≤ packet_length_max) × All IsByte f.1

abbrev pub calls : List (ℕ × List ℕ) → List Call
calls [] = []
calls ((o, pv) ∷ fs) = recv_data o pv ∷ calls fs

stream : List (ℕ × List ℕ) → List ℕ
stream [] = []
stream ((o, pv) ∷ fs) = frame o pv ++ stream fs

send_all-stream :
    (fs : List (ℕ × List ℕ)) (wb : List ℕ)
    → All IsDataFrame fs
    → send_all fs wb ≡ some (wb ++ stream fs)
unfolding send_all stream
send_all-stream [] wb h = rw append-nil refl
send_all-stream ((o, pv) ∷ fs) wb h =
    rw (send_data-frame o pv wb h.0.1 h.0.2, send_all)
      (send_all-stream fs (wb ++ frame o pv) h.1
        ∙ ap some (append_assoc wb (frame o pv) (stream fs)))

frame-IsByte : (f : ℕ × List ℕ) → IsDataFrame f → All IsByte (frame f.0 f.1)
frame-IsByte (o, pv) h = All-append IsByte (encoding62 o) _ (encoding62-IsByte o h.1) (
    All-append IsByte (encoding62 (length pv)) pv (encoding62-IsByte (length pv) (omega arith)) h.3)

stream-IsByte : (fs : List (ℕ × List ℕ)) → All IsDataFrame fs → All IsByte (stream fs)
unfolding stream
stream-IsByte [] h = tt
stream-IsByte ((o, pv) ∷ fs) h =
    All-append IsByte (frame o pv) (stream fs) (frame-IsByte (o, pv) h.0) (stream-IsByte fs h.1)

deliver-stream :
    (fs : List (ℕ × List ℕ))
    → All IsDataFrame fs
    → length (stream fs) < size_mod
    → deliver (stream fs) ≡ (calls fs, [])
unfolding stream
deliver-stream [] h small = deliver-none [] (unfold is_deliverable in refl)
deliver-stream ((o, pv) ∷ fs) h small =
    let size = length-append (frame o pv) (stream fs) in
    let data_ : call_of o pv ≡ recv_data o pv ∷ [] = unfold call_of in ground (arith, h.0.0) in
    deliver-frame o pv (stream fs) h.0.1 (omega (arith, h.0.2)) (stream-IsByte ((o, pv) ∷ fs) h)
      small
    ∙ ap (λ (c : List Call). (c ++ (deliver (stream fs)).0, (deliver (stream fs)).1)) data_
    ∙ ap (λ (p : List Call × List ℕ). (recv_data o pv ∷ p.0, p.1))
        (deliver-stream fs h.1 (omega (arith, size)))

-- RecvData for each frame in turn.
abbrev pub received : {S : Type 0} → (Call → S → S) → List (ℕ × List ℕ) → S → S
received act [] s = s
received act ((o, pv) ∷ fs) s = received act fs (act (recv_data o pv) s)

abbrev pub is_empty : List (ℕ × List ℕ) → Bool
is_empty [] = true
is_empty (f ∷ fs) = false

checked :
    {A : Type 0} (b : Bool) (x : Option A) (y : A)
    → (b ≡ true → x ≡ some y)
    → (if b then x else none) ≡ (if b || false then some y else none)
checked true x y h = h refl
checked false x y h = refl

nothing_to_do : {A : Type 0} (b : Bool) (y : A) → some y ≡ (if b || true then some y else none)
nothing_to_do true y = refl
nothing_to_do false y = refl

perform-calls :
    {S : Type 0} (has_server : S → Bool) (act : Call → S → S) (fs : List (ℕ × List ℕ)) (s : S)
    → ((o : ℕ) (pv : List ℕ) (t : S) → has_server (act (recv_data o pv) t) ≡ has_server t)
    → perform has_server act (calls fs) s
      ≡ (if has_server s || is_empty fs then some (received act fs s) else none)
unfolding perform
perform-calls has_server act [] s keeps = nothing_to_do (has_server s) s
perform-calls has_server act ((o, pv) ∷ fs) s keeps =
    checked (has_server s) (perform has_server act (calls fs) (act (recv_data o pv) s))
      (received act fs (act (recv_data o pv) s))
      (λ h.
        perform-calls has_server act fs (act (recv_data o pv) s) keeps
        ∙ ap
            (λ (b : Bool).
              if b || is_empty fs then some (received act fs (act (recv_data o pv) s)) else none)
            (keeps o pv s ∙ h))

-- The data frames that SendData puts on an empty write buffer (offsets from kReserveOffset to
-- below 2^62, at most 65535 bytes each, all of them below 2^64 bytes) are cut out by Deliver
-- once each, in order and unchanged, with nothing left over, wherever the byte stream is cut
-- into two segments. Where RecvData leaves server_ alone and server_ is set, carrying the
-- calls out hands each frame to RecvData once, in order; where server_ is null and there is a
-- frame, it aborts.
pub deliver-send_all :
    {S : Type 0} (has_server : S → Bool) (act : Call → S → S) (s : S) (fs : List (ℕ × List ℕ))
    (sent xs ys : List ℕ)
    → ((o : ℕ) (pv : List ℕ) (t : S) → has_server (act (recv_data o pv) t) ≡ has_server t)
    → All IsDataFrame fs
    → send_all fs [] ≡ some sent
    → sent ≡ xs ++ ys
    → length sent < size_mod
    → ((deliver xs).0 ++ (deliver ((deliver xs).1 ++ ys)).0 ≡ calls fs)
      × ((deliver ((deliver xs).1 ++ ys)).1 ≡ [])
      × (perform has_server act ((deliver xs).0 ++ (deliver ((deliver xs).1 ++ ys)).0) s
          ≡ (if has_server s || is_empty fs then some (received act fs s) else none))
deliver-send_all has_server act s fs sent xs ys keeps h e cut small = (
  ap (λ p. p.0) whole,
  ap (λ p. p.1) whole,
  ap (λ (p : List Call × List ℕ). perform has_server act p.0 s) whole
      ∙ perform-calls has_server act fs s keeps,
)
  where
    same : xs ++ ys ≡ stream fs
    same = cc (e, cut, send_all-stream fs [] h)

    both : All IsByte (xs ++ ys)
    both = subst (All IsByte) (sym same) (stream-IsByte fs h)

    bounded : length (xs ++ ys) < size_mod
    bounded = omega (arith, ap length cut)

    whole :
        ◌≡◌ {A = List Call × List ℕ}
          ((deliver xs).0 ++ (deliver ((deliver xs).1 ++ ys)).0, (deliver ((deliver xs).1 ++ ys)).1)
          (calls fs, [])
    whole =
        sym (deliver-append xs ys both (All-left IsByte xs ys both) bounded)
        ∙ ap deliver same
        ∙ deliver-stream fs h (omega (arith, ap length same, ap length cut))
