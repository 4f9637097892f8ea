-- ===== src/Dash/Session/Pieces.antt =====
-- The bytes on their way to a client, cut as its read() takes them.
use dash_dim.Prelude.{
  ℕ, zero, suc, min, ◌-◌, ◌≤◌, ◌≡◌, refl, true, List, length-append, length, length-replicate, ltb,
  leb, ◌==◌, lt→ltb, ==→≢, ==→≡, arith, if-intro,
}
use dash_dim.Dash.Request.{buffer_size}
use dash_dim.Dash.Client.Chunks.{concat}
use dash_dim.Dash.Session.{can_read, all_nonempty}
use dash_dim.Dash.Session.Rounds.{everything, pieces, zeros}

le→leb : (a b : ℕ) → a ≤ b → leb a b ≡ true
le→leb a b h = ground arith

-- No piece is empty.
pub pieces_nonempty : (fuel n : ℕ) → all_nonempty (pieces fuel n) ≡ true
unfolding pieces
pieces_nonempty zero n = refl
pieces_nonempty (suc fuel) n =
    if-intro (n == 0) (λ (chunks : List (List ℕ)). all_nonempty chunks ≡ true) (λ _. refl)
      (λ some_.
        let full : ltb 0 (length (zeros (min buffer_size n))) ≡ true =
          lt→ltb _ _
            (omega (arith, length-replicate {A = ℕ} (min buffer_size n) 0, ==→≢ _ _ some_)) in
        rw full (pieces_nonempty fuel (n - buffer_size)))

-- A piece takes a byte at least, so `n` is enough fuel.
length-pieces : (fuel n : ℕ) → n ≤ fuel → length (concat (pieces fuel n)) ≡ n
unfolding pieces
length-pieces zero n h = omega arith
length-pieces (suc fuel) n h =
    if-intro (n == 0) (λ (chunks : List (List ℕ)). length (concat chunks) ≡ n)
      (λ none_. omega (arith, ==→≡ _ _ none_))
      (λ some_. omega (
        arith,
        length-append (zeros (min buffer_size n)) (concat (pieces fuel (n - buffer_size))),
        length-replicate {A = ℕ} (min buffer_size n) 0,
        length-pieces fuel (n - buffer_size) (omega (arith, ==→≢ _ _ some_)),
      ))

pub length-everything : (n : ℕ) → length (concat (everything n)) ≡ n
length-everything n = length-pieces n n (omega arith)

pub everything_lem : (n : ℕ) → can_read (everything n) n ≡ true
everything_lem n =
    let fits : leb (length (concat (everything n))) n ≡ true =
      le→leb _ _ (omega (arith, length-everything n)) in
    rw (pieces_nonempty n n, fits) refl
