-- ===== src/Octopus/Transfer.antt =====
-- FlushBuffer and Sink: the bytes on their way through a relay's write buffer.
use mathlib.Core.Path.{subst}
use dash_dim.Prelude.{
  ℕ, zero, suc, ◌+◌, ◌≤◌, ◌≡◌, refl, sym, ap, ◌∙◌, ◌⊎◌, inl, inr, true, false, ◌&&◌, Option, none,
  some, List, [], ◌++◌, ◌==◌, length, take, drop, min, arith, if-intro, IfSome, IfSome-bind, ==→≡,
  ==→≢, nil_of, append_assoc, append-nil, take-append-drop, length-drop, length-append,
}
use dash_dim.Prelude.Int.{pos, ltb_ℤ, ◌≤ℤ◌}
use dash_dim.Socket.{Kernel, IsSend}
use dash_dim.Octopus.{Base, send, send_loop, flush_buffer, sink_rest, sink, segment_size}

-- `pv` more bytes are on their way, in order, and `send_bytes_` counts what left.
abbrev pub Carries : List ℕ → Base → Base → Type 0
Carries pv b b' =
    (b'.sent ++ b'.wb ≡ (b.sent ++ b.wb) ++ pv)
    × (b'.send_bytes + length b'.wb ≡ b.send_bytes + length b.wb + length pv)
    × (b'.fd ≡ b.fd)

module _ (kernel : Kernel) (law : IsSend kernel) where
  abbrev Sends : List ℕ → Base → List ℕ × Base → Type 0
  Sends data_ b (rest, b') =
      (b'.sent ++ rest ≡ b.sent ++ data_)
      × (b'.send_bytes + length rest ≡ b.send_bytes + length data_)
      × (b'.fd ≡ b.fd)
      × (b'.wb ≡ b.wb)

  send_loop-Sends :
      (fuel : ℕ) (data_ : List ℕ) (b : Base) → Sends data_ b (send_loop kernel fuel data_ b)
  unfolding send_loop send
  send_loop-Sends zero data_ b = (refl, refl, refl, refl)
  send_loop-Sends (suc fuel) data_ b =
      if-intro (length data_ == 0) (Sends data_ b) (λ _. (refl, refl, refl, refl))
        (λ _.
          if-intro (n == 0) (Sends data_ b) (λ e. refused (==→≡ n 0 e))
            (λ _.
              round (send_loop kernel fuel (drop n data_) next)
                (send_loop-Sends fuel (drop n data_) next)))
    where
      n : ℕ
      n = kernel b.calls (min segment_size (length data_))

      small : n ≤ length data_
      small = omega (arith, law b.calls (min segment_size (length data_)))

      next : Base
      next = record b {
        calls = b.calls + 1;
        sent = b.sent ++ take n data_;
        send_bytes = b.send_bytes + n;
      }

      refused : n ≡ 0 → Sends data_ b (data_, next)
      refused e = (
        ap (λ (k : ℕ). (b.sent ++ take k data_) ++ data_) e
            ∙ ap (λ r. r ++ data_) (append-nil b.sent),
        omega arith,
        refl,
        refl,
      )

      split : (b.sent ++ take n data_) ++ drop n data_ ≡ b.sent ++ data_
      split =
          append_assoc b.sent (take n data_) (drop n data_)
          ∙ ap (λ r. b.sent ++ r) (take-append-drop n data_)

      round : (r : List ℕ × Base) → Sends (drop n data_) next r → Sends data_ b r
      round (rest, b') (x, y, z, w) = ((x ∙ split), omega (arith, length-drop n data_), z, w)

  flush_buffer-Carries : (b : Base) → IfSome (Carries [] b) (flush_buffer kernel b)
  unfolding flush_buffer
  flush_buffer-Carries b =
      if-intro (ltb_ℤ b.fd (pos 0)) (IfSome (Carries [] b))
        (λ _. if-intro (length b.wb == 0) (IfSome (Carries [] b)) (λ _. stays) (λ _. tt))
        (λ _.
          flushed (send_loop kernel (length b.wb) b.wb b) (send_loop-Sends (length b.wb) b.wb b))
    where
      stays : Carries [] b b
      stays = (sym (append-nil (b.sent ++ b.wb)), omega arith, refl)

      flushed : (r : List ℕ × Base) → Sends b.wb b r → Carries [] b (record (r.1) { wb = r.0 })
      flushed (rest, b') (x, y, z, _) = (x ∙ sym (append-nil (b.sent ++ b.wb)), omega (arith, y), z)

  sink_rest-Carries : (pv : List ℕ) (b : Base) → Carries pv b (sink_rest kernel pv b)
  unfolding sink_rest
  sink_rest-Carries pv b =
      if-intro ((length b.wb == 0) && ltb_ℤ (pos 0) b.fd) (Carries pv b)
        (λ e.
          direct (send_loop kernel (length pv) pv b) (send_loop-Sends (length pv) pv b)
            (nil_of b.wb (ground (arith, e))))
        (λ _. (sym (append_assoc b.sent b.wb pv), omega (arith, length-append b.wb pv), refl))
    where
      direct :
          (r : List ℕ × Base)
          → Sends pv b r
          → b.wb ≡ []
          → Carries pv b (record (r.1) { wb = r.1.wb ++ r.0 })
      direct (rest, b') (x, y, z, w) empty = (
        ap (λ q. b'.sent ++ (q ++ rest)) (w ∙ empty)
            ∙ x
            ∙ ap (λ q. q ++ pv) (sym (append-nil b.sent) ∙ ap (λ q. b.sent ++ q) (sym empty)),
        omega (arith, y, length-append b'.wb rest, ap length w),
        z,
      )

  Carries-trans : (pv : List ℕ) (a b c : Base) → Carries [] a b → Carries pv b c → Carries pv a c
  Carries-trans pv a b c (x, y, z) (x', y', z') =
      (x' ∙ ap (λ r. r ++ pv) (x ∙ append-nil (a.sent ++ a.wb)), omega (arith, y, y'), z' ∙ z)

  flush_buffer-some :
      (b : Base) → (pos 0 ≤ℤ b.fd) ⊎ (b.wb ≡ []) → (b1 : Base) × (flush_buffer kernel b ≡ some b1)
  unfolding flush_buffer
  flush_buffer-some b h =
      if-intro (ltb_ℤ b.fd (pos 0)) Defined
        (λ e. if-intro (length b.wb == 0) Defined (λ _. (b, refl)) (λ f. absurd (stuck h e f)))
        (λ _. (_, refl))
    where
      Defined : Option Base → Type 0
      Defined o = (b1 : Base) × (o ≡ some b1)

      stuck :
          (pos 0 ≤ℤ b.fd) ⊎ (b.wb ≡ []) → ltb_ℤ b.fd (pos 0) ≡ true → (length b.wb == 0) ≡ false → ⊥
      stuck (inl g) e f = ground arith
      stuck (inr g) e f = ==→≢ (length b.wb) 0 f (ap length g)

  -- Sink of a hand or a dispatcher whose descriptor is open or whose buffer is empty: it has a
  -- result, in which what the peer reads followed by what is buffered has grown by exactly the
  -- new bytes, at its end, whatever send() accepts, send_bytes_ counts what left, and the
  -- descriptor is the same.
  pub sink-Carries :
      (pv : List ℕ) (b : Base)
      → (pos 0 ≤ℤ b.fd) ⊎ (b.wb ≡ [])
      → (b' : Base) × (sink kernel pv b ≡ some b') × Carries pv b b'
  unfolding sink
  sink-Carries pv b h =
      let (b1, e) = flush_buffer-some b h in
      (
        sink_rest kernel pv b1,
        ap
            (λ (o : Option Base). elim o as (λ x. Option Base) [
              | none ↦ none
              | some b' ↦ some (sink_rest kernel pv b')
            ])
            e,
        Carries-trans pv b b1 (sink_rest kernel pv b1)
            (subst (IfSome (Carries [] b)) e (flush_buffer-Carries b)) (sink_rest-Carries pv b1),
      )

  -- The descriptor stays what it was.
  pub flush_buffer-fd : (b : Base) → IfSome (λ (b' : Base). b'.fd ≡ b.fd) (flush_buffer kernel b)
  flush_buffer-fd b =
      elim (flush_buffer kernel b)
          as (λ o. IfSome (Carries [] b) o → IfSome (λ (b' : Base). b'.fd ≡ b.fd) o) [
            | none ↦ λ h. tt
            | some b' ↦ λ h. h.2
          ]
        (flush_buffer-Carries b)

  pub sink-fd : (pv : List ℕ) (b : Base) → IfSome (λ (b' : Base). b'.fd ≡ b.fd) (sink kernel pv b)
  unfolding sink
  sink-fd pv b =
      IfSome-bind (λ (b' : Base). b'.fd ≡ b.fd) (λ (b' : Base). b'.fd ≡ b.fd)
        (flush_buffer kernel b) (λ b'. some (sink_rest kernel pv b')) (flush_buffer-fd b)
        (λ b' e. (sink_rest-Carries pv b').2 ∙ e)
