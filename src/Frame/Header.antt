-- ===== src/Frame/Header.antt =====
-- The header that IsDeliverable reads, and what it says of the bytes that are there.
use dash_dim.Prelude.{
  ℕ, zero, suc, ◌+◌, ◌^◌, ◌≤◌, ◌<◌, ◌≡◌, refl, sym, ap, ◌∙◌, some, List, [], ◌∷◌, ◌++◌, length,
  take, drop, get_or, arith, size_mod, inl, inr, Option-cases, length-append, length-drop, All,
  append-nil, drop-append_le, take-append_prefix,
}
use dash_dim.Codec.Reader.{Reader, reader, read_var_int62}
use dash_dim.Codec.Writer.{get_var_int62_len}
use dash_dim.Codec.Reader.{◌>>=◌, return}
use dash_dim.Codec.Endian.{IsByte}
use dash_dim.Codec.Advance.{>>=-some, >>=-eq-some}
use dash_dim.Codec.Range.{read_var_int62-lt}
use dash_dim.Codec.VarInt62.{get_var_int62_len-encoding62, length-encoding62}
use mathlib.Core.Path.{subst}
use dash_dim.Frame.{FrameHeader, header, frame_size, read_header, is_deliverable, calls_of}

get_or-drop-append :
    (p i : ℕ) (xs ys : List ℕ)
    → p + i < length xs
    → get_or (drop p (xs ++ ys)) i 0 ≡ get_or (drop p xs) i 0
get_or-drop-append p i [] ys h = absurd (omega arith)
get_or-drop-append zero zero (x ∷ xs) ys h = refl
get_or-drop-append zero (suc i) (x ∷ xs) ys h = get_or-drop-append zero i xs ys (omega arith)
get_or-drop-append (suc p) i (x ∷ xs) ys h = get_or-drop-append p i xs ys (omega arith)

-- The reader over the first segment, and over both.
abbrev at : List ℕ → ℕ → Reader
at xs p = record (reader xs (length xs)) { pos = p }

-- A number that was read stays readable when bytes are added behind the segment.
read_var_int62-extended :
    (xs ys : List ℕ) (p v : ℕ) (r : Reader)
    → p ≤ length xs
    → length (xs ++ ys) < size_mod
    → read_var_int62 (at xs p) ≡ (some v, r)
    → (r ≡ at xs r.pos)
      × (p < r.pos)
      × (r.pos ≤ length xs)
      × (read_var_int62 (at (xs ++ ys) p) ≡ (some v, at (xs ++ ys) r.pos))
unfolding read_var_int62 reader
read_var_int62-extended xs ys p v r h small e = ground (
  arith,
  length-append xs ys,
  get_or-drop-append p 0 xs ys,
  get_or-drop-append p 1 xs ys,
  get_or-drop-append p 2 xs ys,
  get_or-drop-append p 3 xs ys,
  get_or-drop-append p 4 xs ys,
  get_or-drop-append p 5 xs ys,
  get_or-drop-append p 6 xs ys,
  get_or-drop-append p 7 xs ys,
)

-- The two numbers at the start of a segment that has both.
read_header_steps :
    (xs : List ℕ) (o l : ℕ)
    → read_header xs ≡ some (o, l)
    → (r r' : Reader) × (read_var_int62 (at xs 0) ≡ (some o, r)) × (read_var_int62 r ≡ (some l, r'))
unfolding read_header reader
read_header_steps xs o l e =
    let (o', r, first, more) =
      >>=-eq-some read_var_int62 (λ o. read_var_int62 >>= λ l. return (o, l)) (at xs 0) e in
    let (l', r', second, last) = >>=-eq-some read_var_int62 (λ l. return (o', l)) r more in
    (r, r', cc, cc)

pub read_header_of_steps :
    (xs : List ℕ) (o l : ℕ) (r r' : Reader)
    → read_var_int62 (at xs 0) ≡ (some o, r)
    → read_var_int62 r ≡ (some l, r')
    → read_header xs ≡ some (o, l)
unfolding read_header reader
read_header_of_steps xs o l r r' first second =
    ap (λ p. p.0)
      (>>=-some read_var_int62 (λ o. read_var_int62 >>= λ l. return (o, l)) (at xs 0) first
        ∙ >>=-some read_var_int62 (λ l. return (o, l)) r second)

read_header-extended :
    (xs ys : List ℕ) (o l : ℕ)
    → length (xs ++ ys) < size_mod
    → read_header xs ≡ some (o, l)
    → read_header (xs ++ ys) ≡ some (o, l)
read_header-extended xs ys o l small e =
    let (r, r', first, second) = read_header_steps xs o l e in
    let (place, _, inside, first') =
      read_var_int62-extended xs ys 0 o r (omega arith) small first in
    let (_, _, _, second') =
      read_var_int62-extended xs ys r.pos l r' inside small
        (subst (λ q. read_var_int62 q ≡ (some l, r')) place second) in
    read_header_of_steps (xs ++ ys) o l _ _ first' second'

-- The numbers of a header are below 2 ^ 62, so the size of its frame does not wrap.
read_header-lt :
    (xs : List ℕ) (o l : ℕ)
    → All IsByte xs
    → length xs < size_mod
    → read_header xs ≡ some (o, l)
    → (o < 2 ^ 62) × (l < 2 ^ 62)
unfolding reader
read_header-lt xs o l bytes small e =
    let (r, r', first, second) = read_header_steps xs o l e in
    let (place, _, _, _) =
      read_var_int62-extended xs [] 0 o r (omega arith) (rw append-nil small) first in
    (
      read_var_int62-lt (at xs 0) bytes first,
      read_var_int62-lt r (subst (λ q. All IsByte q.memory) (sym place) bytes) second,
    )

-- The bytes that a deliverable frame takes up.
pub frame_size-bounds :
    (o l : ℕ)
    → o < 2 ^ 62
    → l < 2 ^ 62
    → (2 ≤ frame_size (header o l))
      × (frame_size (header o l) ≡ get_var_int62_len o + get_var_int62_len l + l)
frame_size-bounds o l ho hl = omega (
  arith,
  get_var_int62_len-encoding62 o ho,
  get_var_int62_len-encoding62 l hl,
  length-encoding62 o,
  length-encoding62 l,
)

-- What is known of a deliverable segment.
pub record Delivers (xs : List ℕ) (o l : ℕ) : Type 0 where
  pub numbers : read_header xs ≡ some (o, l)
  pub fits : frame_size (header o l) ≤ length xs
  pub size : frame_size (header o l) ≡ get_var_int62_len o + get_var_int62_len l + l
  pub nonempty : 2 ≤ frame_size (header o l)

is_deliverable_split :
    (xs : List ℕ) (h : FrameHeader)
    → is_deliverable xs ≡ some h
    → (o l : ℕ) × (read_header xs ≡ some (o, l))
      × (h ≡ header o l)
      × (frame_size (header o l) ≤ length xs)
unfolding is_deliverable
is_deliverable_split xs h e = elim (Option-cases (read_header xs)) [
  | inl none_read ↦ absurd (ground (arith, none_read))
  | inr ((o, l), was_read) ↦ (o, l, was_read, ground (arith, was_read), ground (arith, was_read))
]

pub is_deliverable-Delivers :
    (xs : List ℕ) (h : FrameHeader)
    → All IsByte xs
    → length xs < size_mod
    → is_deliverable xs ≡ some h
    → (o l : ℕ) × Delivers xs o l × (h ≡ header o l)
is_deliverable-Delivers xs h bytes small e =
    let (o, l, was_read, same, fits) = is_deliverable_split xs h e in
    let (ho, hl) = read_header-lt xs o l bytes small was_read in
    let (two, size) = frame_size-bounds o l ho hl in
    (o, l, record { numbers = was_read; fits = fits; size = size; nonempty = two }, same)

pub Delivers-is_deliverable :
    (xs : List ℕ) (o l : ℕ) → Delivers xs o l → is_deliverable xs ≡ some (header o l)
unfolding is_deliverable
Delivers-is_deliverable xs o l d = ground (arith, d.numbers, d.fits, d.nonempty)

-- More bytes behind the segment do not take a frame back, nor change what it holds.
pub Delivers-extended :
    (xs ys : List ℕ) (o l : ℕ)
    → length (xs ++ ys) < size_mod
    → Delivers xs o l
    → Delivers (xs ++ ys) o l
Delivers-extended xs ys o l small d = record {
  numbers = read_header-extended xs ys o l small d.numbers;
  fits = omega (arith, d.fits, length-append xs ys);
  size = d.size;
  nonempty = d.nonempty;
}

pub calls_of-extended :
    (xs ys : List ℕ) (o l : ℕ)
    → Delivers xs o l
    → calls_of (header o l) (xs ++ ys) ≡ calls_of (header o l) xs
unfolding calls_of
calls_of-extended xs ys o l d =
    let start : ℕ = get_var_int62_len o + get_var_int62_len l in
    let same : take l (drop start (xs ++ ys)) ≡ take l (drop start xs) =
      ap (take l) (drop-append_le start xs ys (omega (arith, d.fits, d.size)))
      ∙ take-append_prefix l (drop start xs) ys
          (omega (arith, length-drop start xs, d.fits, d.size)) in
    rw same refl
