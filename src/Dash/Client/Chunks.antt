-- ===== src/Dash/Client/Chunks.antt =====
-- A segment in several reads of one event: TCP may cut its bytes anywhere.
use dash_dim.Prelude.{
  ℕ, ◌+◌, ◌≤◌, ◌<◌, ◌≡◌, refl, sym, ap, ◌∙◌, false, Option, none, some, List, [], ◌∷◌, ◌++◌, ◌==◌,
  if◌then◌else◌, length, length-append, append-nil, arith, All, if-intro,
}
use dash_dim.Connection.{Read, bytes}
use dash_dim.Dash.Player.{Player, Algorithm}
use dash_dim.Dash.Client.{add_bytes, on_segment, on_read_event}

abbrev pub concat : List (List ℕ) → List ℕ
concat [] = []
concat (chunk ∷ chunks) = chunk ++ concat chunks

abbrev pub reads : List (List ℕ) → List Read
reads [] = []
reads (chunk ∷ chunks) = bytes chunk ∷ reads chunks

-- The first bytes of a segment set its start, and later ones leave it.
add_bytes-add_bytes :
    (now m n : ℕ) (p : Player)
    → 0 < m
    → add_bytes now n (add_bytes now m p) ≡ add_bytes now (m + n) p
unfolding add_bytes
add_bytes-add_bytes now m n p h =
    let started : (p.read_bytes + m == 0) ≡ false = ground arith in
    let sum : p.read_bytes + m + n ≡ p.read_bytes + (m + n) = omega arith in rw (started, sum) refl

same_read :
    (algorithm : Algorithm) (now : ℕ) (p q : Player) (xs ys : List ℕ)
    → add_bytes now (length xs) p ≡ add_bytes now (length ys) q
    → on_read_event algorithm now (bytes xs ∷ []) p ≡ on_read_event algorithm now (bytes ys ∷ []) q
unfolding on_read_event
same_read algorithm now p q xs ys same =
    ap
      (λ (r : Player).
        if r.read_bytes == r.segment_bytes
        then elim (on_segment algorithm now r) as (λ x. Option Player) [
          | none ↦ none
          | some (done, r') ↦ if done then some r' else some r'
        ]
        else some r)
      same

partial_read :
    (algorithm : Algorithm) (now : ℕ) (chunk : List ℕ) (more : List Read) (p : Player)
    → (p.read_bytes + length chunk == p.segment_bytes) ≡ false
    → on_read_event algorithm now (bytes chunk ∷ more) p
      ≡ on_read_event algorithm now more (add_bytes now (length chunk) p)
unfolding on_read_event add_bytes
partial_read algorithm now chunk more p open_ =
    if-intro
      ((add_bytes now (length chunk) p).read_bytes
        == (add_bytes now (length chunk) p).segment_bytes)
      (λ o. o ≡ on_read_event algorithm now more (add_bytes now (length chunk) p))
      (λ whole. absurd (ground (arith, open_))) (λ _. refl)

-- OnReadEvent on reads that are not empty and do not go past the segment's bytes does what it
-- does on one read of all of them, wherever they are cut.
pub on_read_event-concat :
    (algorithm : Algorithm) (now : ℕ) (chunk : List ℕ) (chunks : List (List ℕ)) (p : Player)
    → All (λ c. 0 < length c) (chunk ∷ chunks)
    → p.read_bytes + length (concat (chunk ∷ chunks)) ≤ p.segment_bytes
    → on_read_event algorithm now (reads (chunk ∷ chunks)) p
      ≡ on_read_event algorithm now (bytes (concat (chunk ∷ chunks)) ∷ []) p
on_read_event-concat algorithm now chunk [] p h size = rw append-nil refl
on_read_event-concat algorithm now chunk (next ∷ chunks) p (h, (k, hs)) size =
    first
    ∙ on_read_event-concat algorithm now next chunks (add_bytes now (length chunk) p) (k, hs)
        (unfold add_bytes in omega (arith, length-append chunk rest))
    ∙ same_read algorithm now (add_bytes now (length chunk) p) p rest (chunk ++ rest) (
        add_bytes-add_bytes now (length chunk) (length rest) p h
        ∙ ap (λ (n : ℕ). add_bytes now n p) (sym (length-append chunk rest)))
  where
    rest : List ℕ
    rest = concat (next ∷ chunks)

    open_ : (p.read_bytes + length chunk == p.segment_bytes) ≡ false
    open_ =
        let less : p.read_bytes + length chunk < p.segment_bytes =
          omega (arith, length-append chunk rest, length-append next (concat chunks)) in
        ground arith

    first :
        on_read_event algorithm now (reads (chunk ∷ (next ∷ chunks))) p
        ≡ on_read_event algorithm now (reads (next ∷ chunks)) (add_bytes now (length chunk) p)
    first = partial_read algorithm now chunk (reads (next ∷ chunks)) p open_
