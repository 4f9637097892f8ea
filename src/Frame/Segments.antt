-- ===== src/Frame/Segments.antt =====
-- Deliver and the segments in which the bytes arrive.
use mathlib.Core.List.{append_assoc}
use dash_dim.Prelude.{
  ℕ, zero, suc, ◌-◌, ◌≤◌, ◌<◌, ◌≡◌, refl, sym, ap, ◌∙◌, none, some, List, [], ◌∷◌, ◌++◌, length,
  drop, arith, size_mod, inl, inr, Option-cases, length-append, length-drop, All, All-drop,
  drop-append_le,
}
use dash_dim.Codec.Endian.{IsByte}
use mathlib.Core.Path.{subst}
use dash_dim.Frame.Header.{
  Delivers, is_deliverable-Delivers, Delivers-is_deliverable, Delivers-extended, calls_of-extended,
}
use dash_dim.Frame.{
  FrameHeader, Call, header, frame_size, is_deliverable, calls_of, deliver_loop, deliver,
}

-- The loop of Deliver by one frame.
deliver_loop-some :
    (fuel : ℕ) (xs : List ℕ) (h : FrameHeader)
    → is_deliverable xs ≡ some h
    → deliver_loop (suc fuel) xs ≡ (
      calls_of h xs ++ (deliver_loop fuel (drop (frame_size h) xs)).0,
      (deliver_loop fuel (drop (frame_size h) xs)).1,
    )
unfolding deliver_loop
deliver_loop-some fuel xs h e = rw (e, deliver_loop) refl

deliver_loop-none :
    (fuel : ℕ) (xs : List ℕ) → is_deliverable xs ≡ none → deliver_loop fuel xs ≡ ([], xs)
unfolding deliver_loop
deliver_loop-none zero xs e = refl
deliver_loop-none (suc fuel) xs e = rw (e, deliver_loop) refl

-- Fuel beyond the length of the buffer changes nothing: the loop ends by its test.
deliver_loop_fuel :
    (f g : ℕ) (xs : List ℕ)
    → All IsByte xs
    → length xs < size_mod
    → length xs ≤ f
    → length xs ≤ g
    → deliver_loop f xs ≡ deliver_loop g xs
deliver_loop_fuel zero zero xs bytes small hf hg = refl
deliver_loop_fuel zero (suc g) [] bytes small hf hg =
    deliver_loop-none zero [] (unfold is_deliverable in refl)
    ∙ sym (deliver_loop-none (suc g) [] (unfold is_deliverable in refl))
deliver_loop_fuel zero (suc g) (x ∷ xs) bytes small hf hg = absurd (omega arith)
deliver_loop_fuel (suc f) zero [] bytes small hf hg =
    deliver_loop-none (suc f) [] (unfold is_deliverable in refl)
    ∙ sym (deliver_loop-none zero [] (unfold is_deliverable in refl))
deliver_loop_fuel (suc f) zero (x ∷ xs) bytes small hf hg = absurd (omega arith)
deliver_loop_fuel (suc f) (suc g) xs bytes small hf hg = elim (Option-cases (is_deliverable xs)) [
  | inl e ↦ deliver_loop-none (suc f) xs e ∙ sym (deliver_loop-none (suc g) xs e)
  | inr (h, e) ↦
      let (o, l, d, same) = is_deliverable-Delivers xs h bytes small e in
      let size : 2 ≤ frame_size h = subst (λ k. 2 ≤ frame_size k) (sym same) d.nonempty in
      let left : length (drop (frame_size h) xs) ≡ length xs - frame_size h =
        length-drop (frame_size h) xs in
      let ih =
        deliver_loop_fuel f g (drop (frame_size h) xs) (All-drop IsByte _ xs bytes) (omega arith)
          (omega arith) (omega arith) in
      deliver_loop-some f xs h e
      ∙ ap (λ (p : List Call × List ℕ). (calls_of h xs ++ p.0, p.1)) ih
      ∙ sym (deliver_loop-some g xs h e)
]

pub deliver_some :
    (xs : List ℕ) (o l : ℕ)
    → All IsByte xs
    → length xs < size_mod
    → Delivers xs o l
    → deliver xs ≡ (
      calls_of (header o l) xs ++ (deliver (drop (frame_size (header o l)) xs)).0,
      (deliver (drop (frame_size (header o l)) xs)).1,
    )
unfolding deliver
deliver_some [] o l bytes small d = absurd (omega (arith, d.fits, d.nonempty))
deliver_some (x ∷ xs) o l bytes small d =
    let size : ℕ = frame_size (header o l) in
    let left = length-drop size (x ∷ xs) in
    deliver_loop-some (length xs) (x ∷ xs) (header o l) (Delivers-is_deliverable _ o l d)
    ∙ ap (λ (p : List Call × List ℕ). (calls_of (header o l) (x ∷ xs) ++ p.0, p.1))
        (deliver_loop_fuel (length xs) _ (drop size (x ∷ xs)) (All-drop IsByte size _ bytes)
          (omega (arith, left)) (omega (arith, left, d.nonempty)) (omega arith))

pub deliver-none : (xs : List ℕ) → is_deliverable xs ≡ none → deliver xs ≡ ([], xs)
unfolding deliver
deliver-none xs e = deliver_loop-none (length xs) xs e

abbrev joined : List Call → List Call × List ℕ → List Call × List ℕ
joined calls p = (calls ++ p.0, p.1)

-- More bytes may come: a segment delivers its frames, and what it leaves, with the next segment
-- behind it, delivers the others.
deliver-append_bounded :
    (n : ℕ) (xs ys : List ℕ)
    → length xs ≤ n
    → All IsByte (xs ++ ys)
    → All IsByte xs
    → length (xs ++ ys) < size_mod
    → deliver (xs ++ ys)
      ≡ ((deliver xs).0 ++ (deliver ((deliver xs).1 ++ ys)).0, (deliver ((deliver xs).1 ++ ys)).1)
deliver-append_bounded zero [] ys hn both bytes small =
    rw (deliver-none [] (unfold is_deliverable in refl)) refl
deliver-append_bounded zero (x ∷ xs) ys hn both bytes small = absurd (omega arith)
deliver-append_bounded (suc n) xs ys hn both bytes small = elim (Option-cases (is_deliverable xs)) [
  | inl e ↦ rw (deliver-none xs e) refl
  | inr (h, e) ↦
      let shorter : length xs < size_mod = omega (arith, length-append xs ys) in
      let (o, l, d, same) = is_deliverable-Delivers xs h bytes shorter e in
      let size : ℕ = frame_size (header o l) in
      let rest : List ℕ = drop size xs in
      let split : drop size (xs ++ ys) ≡ rest ++ ys = drop-append_le size xs ys d.fits in
      let left = length-drop size xs in
      let all = subst (All IsByte) split (All-drop IsByte size (xs ++ ys) both) in
      let ih =
        deliver-append_bounded n rest ys (omega (arith, left, d.nonempty)) all
          (All-drop IsByte size xs bytes)
          (omega (arith, left, length-append rest ys, length-append xs ys)) in
      rw (deliver_some xs o l bytes shorter d) (
        deliver_some (xs ++ ys) o l both small (Delivers-extended xs ys o l small d)
        ∙ ap (joined (calls_of (header o l) (xs ++ ys))) (ap deliver split ∙ ih)
        ∙ ap (λ c. joined c (joined (deliver rest).0 (deliver ((deliver rest).1 ++ ys))))
            (calls_of-extended xs ys o l d)
        ∙ ap (λ c. (c, (deliver ((deliver rest).1 ++ ys)).1))
            (sym (append_assoc (calls_of (header o l) xs) _ _)))
]

-- However a stream of bytes shorter than 2^64 is cut into two segments, Deliver makes the same
-- calls in the same order and leaves the same bytes as on the whole, where the second run
-- starts from what the first left.
pub deliver-append :
    (xs ys : List ℕ)
    → All IsByte (xs ++ ys)
    → All IsByte xs
    → length (xs ++ ys) < size_mod
    → deliver (xs ++ ys)
      ≡ ((deliver xs).0 ++ (deliver ((deliver xs).1 ++ ys)).0, (deliver ((deliver xs).1 ++ ys)).1)
deliver-append xs ys both bytes small =
    deliver-append_bounded (length xs) xs ys (omega arith) both bytes small
