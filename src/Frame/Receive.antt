-- ===== src/Frame/Receive.antt =====
-- Deliver on a buffer that starts with a frame.
use mathlib.Core.List.{append_assoc}
use dash_dim.Prelude.{
  ℕ, ◌+◌, ◌^◌, ◌≤◌, ◌<◌, ◌≡◌, refl, sym, ap, ◌∙◌, some, List, [], ◌∷◌, ◌++◌, ltb, leb,
  if◌then◌else◌, length, take, drop, arith, size_mod, length-append, All, drop-append, take-append,
}
use dash_dim.Codec.Endian.{IsByte}
use dash_dim.Codec.Reader.{Reader, reader, read_var_int62, advance_pos}
use dash_dim.Codec.Writer.{get_var_int62_len}
use dash_dim.Codec.VarInt62.{encoding62, read_var_int62-encoding62, get_var_int62_len-encoding62}
use dash_dim.Frame.Send.{frame, length-frame}
use dash_dim.Frame.Header.{Delivers, frame_size-bounds, read_header_of_steps}
use dash_dim.Frame.Segments.{deliver_some}
use dash_dim.Frame.{
  Call, recv_data, parse_message, header, frame_size, calls_of, deliver, reserve_offset,
}

-- A frame at the start of the read buffer, in the terms of IsDeliverable.
frame-Delivers :
    (o : ℕ) (pv tail : List ℕ)
    → o < 2 ^ 62
    → length pv < 2 ^ 62
    → length (frame o pv ++ tail) < size_mod
    → Delivers (frame o pv ++ tail) o (length pv)
unfolding reader
frame-Delivers o pv tail ho hl small =
    let (two, size) = frame_size-bounds o (length pv) ho hl in
    record {
      numbers = read_header_of_steps whole o (length pv) _ _ first second;
      fits = omega (arith, size, lo, ll, length-frame o pv, length-append (frame o pv) tail);
      size = size;
      nonempty = two;
    }
  where
    whole : List ℕ
    whole = frame o pv ++ tail

    lo : get_var_int62_len o ≡ length (encoding62 o)
    lo = get_var_int62_len-encoding62 o ho

    ll : get_var_int62_len (length pv) ≡ length (encoding62 (length pv))
    ll = get_var_int62_len-encoding62 (length pv) hl

    at : ℕ → Reader
    at p = record (reader whole (length whole)) { pos = p }

    split : whole ≡ encoding62 o ++ (encoding62 (length pv) ++ (pv ++ tail))
    split =
        append_assoc (encoding62 o) (encoding62 (length pv) ++ pv) tail
        ∙ ap (◌++◌ (encoding62 o)) (append_assoc (encoding62 (length pv)) pv tail)

    room : length (encoding62 o) + length (encoding62 (length pv)) ≤ length whole
    room = omega (arith, length-frame o pv, length-append (frame o pv) tail)

    first : read_var_int62 (at 0) ≡ (some o, at (length (encoding62 o)))
    first =
        read_var_int62-encoding62 o (encoding62 (length pv) ++ (pv ++ tail)) (at 0) ho
          (record { ahead = split; owned = omega (arith, room); addressable = small })
        ∙ unfold advance_pos in ap (λ (p : ℕ). (some o, at p)) (omega arith)

    second :
        read_var_int62 (at (length (encoding62 o)))
        ≡ (some (length pv), at (length (encoding62 o) + length (encoding62 (length pv))))
    second =
        read_var_int62-encoding62 (length pv) (pv ++ tail) (at (length (encoding62 o))) hl (record {
          ahead = ap (drop (length (encoding62 o))) split ∙ drop-append (encoding62 o) _;
          owned = room;
          addressable = small;
        })
        ∙ unfold advance_pos in refl

-- The body of a frame in the read buffer, and what follows the frame.
frame_parts :
    (o : ℕ) (pv tail : List ℕ)
    → o < 2 ^ 62
    → length pv < 2 ^ 62
    → (take
          (length pv)
          (drop (get_var_int62_len o + get_var_int62_len (length pv)) (frame o pv ++ tail))
        ≡ pv)
      × (drop (frame_size (header o (length pv))) (frame o pv ++ tail) ≡ tail)
frame_parts o pv tail ho hl = (body, rest)
  where
    front : List ℕ
    front = encoding62 o ++ encoding62 (length pv)

    size : get_var_int62_len o + get_var_int62_len (length pv) ≡ length front
    size = omega (
      arith,
      get_var_int62_len-encoding62 o ho,
      get_var_int62_len-encoding62 (length pv) hl,
      length-append (encoding62 o) (encoding62 (length pv)),
    )

    split : frame o pv ++ tail ≡ front ++ (pv ++ tail)
    split =
        ap (λ (l : List ℕ). l ++ tail) (sym (append_assoc (encoding62 o) _ pv))
        ∙ append_assoc front pv tail

    body :
        take
          (length pv)
          (drop (get_var_int62_len o + get_var_int62_len (length pv)) (frame o pv ++ tail))
        ≡ pv
    body = rw (size, split, drop-append front (pv ++ tail)) (take-append pv tail)

    rest : drop (frame_size (header o (length pv))) (frame o pv ++ tail) ≡ tail
    rest =
        ap (λ (n : ℕ). drop n (frame o pv ++ tail))
          (omega (
            arith,
            (frame_size-bounds o (length pv) ho hl).1,
            size,
            length-append (encoding62 o) (encoding62 (length pv)),
            length-frame o pv,
          ))
        ∙ drop-append (frame o pv) tail

-- The call that a frame makes.
unfoldable pub call_of : ℕ → List ℕ → List Call
call_of o pv =
    if leb reserve_offset o
    then recv_data o pv ∷ []
    else if ltb 0 (length pv)
    then parse_message o pv ∷ []
    else []

pub deliver-frame :
    (o : ℕ) (pv tail : List ℕ)
    → o < 2 ^ 62
    → length pv < 2 ^ 62
    → All IsByte (frame o pv ++ tail)
    → length (frame o pv ++ tail) < size_mod
    → deliver (frame o pv ++ tail) ≡ (call_of o pv ++ (deliver tail).0, (deliver tail).1)
unfolding call_of calls_of
deliver-frame o pv tail ho hl bytes small =
    let (body, rest) = frame_parts o pv tail ho hl in
    deliver_some (frame o pv ++ tail) o (length pv) bytes small
      (frame-Delivers o pv tail ho hl small)
    ∙ rw (body, rest) refl
