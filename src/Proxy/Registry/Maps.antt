-- ===== src/Proxy/Registry/Maps.antt =====
-- The std::map operations of the registry, as a function of the key.
use mathlib.Core.Path.{subst}
use dash_dim.Prelude.{
  some_injective, All, ℕ, ◌≡◌, refl, sym, ap, ◌∙◌, true, false, Option, none, some, [], ◌∷◌, ◌==◌,
  if◌then◌else◌, arith, if-intro, ==→≡, Bool-cases, inl, inr,
}
use dash_dim.Proxy.Registry.{Map, find, erase, replace}

module _ {V : Type 0} where
  -- Each key once.
  abbrev pub IsDistinct : Map V → Type 0
  IsDistinct [] = Unit {0}
  IsDistinct ((k, v) ∷ rest) = (find k rest ≡ none) × IsDistinct rest

  pub find-cons :
      (key k : ℕ) (v : V) (m : Map V)
      → find key ((k, v) ∷ m) ≡ (if k == key then some v else find key m)
  unfolding find
  find-cons key k v m = refl

  pub find-erase :
      (key j : ℕ) (m : Map V)
      → IsDistinct m
      → find j (erase key m) ≡ (if key == j then none else find j m)
  unfolding find erase
  find-erase key j [] h = if-intro (key == j) (λ (o : Option V). none ≡ o) (λ _. refl) (λ _. refl)
  find-erase key j ((k, v) ∷ rest) (new, h) =
      let gone : k ≡ j → find j rest ≡ none = λ e. ap (λ (n : ℕ). find n rest) (sym e) ∙ new in
      let others : find j (erase key rest) ≡ (if key == j then none else find j rest) =
        find-erase key j rest h in
      elim (Bool-cases (k == key)) [
        | inl same ↦ elim (Bool-cases (key == j)) [
          | inl here ↦ rw (same, here) (gone (==→≡ _ _ same ∙ ==→≡ _ _ here))
          | inr there ↦ let apart : (k == j) ≡ false = ground arith in rw (same, there, apart) refl
        ]
        | inr differs ↦ elim (Bool-cases (key == j)) [
          | inl here ↦
              let apart : (k == j) ≡ false = ground arith in
              rw (differs, here, apart) (rw here at others)
          | inr there ↦
              rw (differs, there) (ap (λ o. if k == j then some v else o) (rw there at others))
        ]
      ]

  pub find-replace :
      (key j : ℕ) (new : V) (m : Map V) {old : V}
      → find key m ≡ some old
      → find j (replace key new m) ≡ (if key == j then some new else find j m)
  unfolding find replace
  find-replace key j new [] e = absurd (ground arith)
  find-replace key j new ((k, v) ∷ rest) e = elim (Bool-cases (k == key)) [
    | inl same ↦ elim (Bool-cases (key == j)) [
      | inl here ↦ let met : (k == j) ≡ true = ground arith in rw (same, here, met) refl
      | inr there ↦ let apart : (k == j) ≡ false = ground arith in rw (same, there, apart) refl
    ]
    | inr differs ↦
        let others = find-replace key j new rest (rw differs at e) in
        elim (Bool-cases (key == j)) [
          | inl here ↦
              let apart : (k == j) ≡ false = ground arith in
              rw (differs, here, apart) (rw here at others)
          | inr there ↦
              rw (differs, there) (ap (λ o. if k == j then some v else o) (rw there at others))
        ]
  ]

  pub erase-IsDistinct : (key : ℕ) (m : Map V) → IsDistinct m → IsDistinct (erase key m)
  unfolding erase
  erase-IsDistinct key [] h = h
  erase-IsDistinct key ((k, v) ∷ rest) (new, h) =
      if-intro (k == key) IsDistinct (λ _. h)
        (λ _. (
          find-erase key k rest h
              ∙ if-intro (key == k) (λ (o : Option V). o ≡ none) (λ _. refl) (λ _. new),
          erase-IsDistinct key rest h,
        ))

  -- A key that is not there stays away.
  find-replace-none :
      (key j : ℕ) (new : V) (m : Map V) → find j m ≡ none → find j (replace key new m) ≡ none
  unfolding find replace
  find-replace-none key j new [] e = e
  find-replace-none key j new ((k, v) ∷ rest) e = elim (Bool-cases (k == j)) [
    | inl here ↦ absurd (clash (rw here at e))
    | inr there ↦
        let away : find j rest ≡ none = rw there at e in
        let kept : find j (replace key new rest) ≡ none = find-replace-none key j new rest away in
        elim (Bool-cases (k == key)) [
          | inl same ↦ rw (same, there) away
          | inr differs ↦ rw (differs, there) kept
        ]
  ]
    where
      clash : {w : V} → some w ≡ none → ⊥
      clash h = ground arith

  pub replace-IsDistinct :
      (key : ℕ) (new : V) (m : Map V) → IsDistinct m → IsDistinct (replace key new m)
  unfolding replace
  replace-IsDistinct key new [] h = h
  replace-IsDistinct key new ((k, v) ∷ rest) (none_, h) =
      if-intro (k == key) IsDistinct (λ _. (none_, h))
        (λ _. (find-replace-none key k new rest none_, replace-IsDistinct key new rest h))

  pub All-erase :
      (P : V → Type 0) (key : ℕ) (m : Map V)
      → All (λ (kv : ℕ × V). P kv.1) m
      → All (λ (kv : ℕ × V). P kv.1) (erase key m)
  unfolding erase
  All-erase P key [] h = h
  All-erase P key ((k, v) ∷ rest) (h, hs) =
      if-intro (k == key) (All (λ (kv : ℕ × V). P kv.1)) (λ _. hs)
        (λ _. (h, All-erase P key rest hs))

  pub All-replace :
      (P : V → Type 0) (key : ℕ) (new : V) (m : Map V)
      → P new
      → All (λ (kv : ℕ × V). P kv.1) m
      → All (λ (kv : ℕ × V). P kv.1) (replace key new m)
  unfolding replace
  All-replace P key new [] p h = h
  All-replace P key new ((k, v) ∷ rest) p (h, hs) =
      if-intro (k == key) (All (λ (kv : ℕ × V). P kv.1)) (λ _. (p, hs))
        (λ _. (h, All-replace P key new rest p hs))

  pub All-find :
      (P : V → Type 0) (key : ℕ) (m : Map V) {v : V}
      → All (λ (kv : ℕ × V). P kv.1) m
      → find key m ≡ some v
      → P v
  unfolding find
  All-find P key [] h e = absurd (ground arith)
  All-find P key ((k, w) ∷ rest) (h, hs) e = elim (Bool-cases (k == key)) [
    | inl same ↦ subst P (some_injective (rw same at e)) h
    | inr differs ↦ All-find P key rest hs (rw differs at e)
  ]
