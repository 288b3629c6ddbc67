-- ===== src/KernelBypass/Window.antt =====
-- What the frames of the ring hold after any number of ticks: the last 65536 of them.
use native.Mathlib.Nat.{add-mod_right, mod-eq_of_lt}
use native.Mathlib.Decide.{ℕ_discrete}
use nexus_trading.Base.{
  Floats, ℕ, zero, suc, ◌+◌, ◌%◌, ◌<◌, ◌≤◌, ◌≡◌, ◌≢◌, refl, sym, ap, ◌∙◌, ◌⊎◌, inl, inr, some, List,
  [], ◌∷◌, ◌++◌, length, length-append, get_elem?, arith,
}
use nexus_trading.Base.Bits.{bit_and_mask}
use nexus_trading.KernelBypass.Feed.{
  Tick, BypassFrame, KernelBypassFeed, new_feed, frame_offset, frame_of, zero_frame, put,
  produce_tick, ring_capacity,
}

pub offset-mod : (seq : ℕ) → frame_offset seq ≡ seq % ring_capacity
unfolding frame_offset
offset-mod seq = bit_and_mask 16 seq

pub get_elem?-last {ℓ} :
    {A : Type ℓ} (xs : List A) (y : A) → get_elem? (xs ++ y ∷ []) (length xs) ≡ some y
get_elem?-last [] y = refl
get_elem?-last (x ∷ xs) y = get_elem?-last xs y

pub get_elem?-append {ℓ} :
    {A : Type ℓ} (xs ys : List A) (y : A) (s : ℕ)
    → get_elem? xs s ≡ some y
    → get_elem? (xs ++ ys) s ≡ some y
get_elem?-append [] ys y s h = ground arith
get_elem?-append (x ∷ xs) ys y zero h = h
get_elem?-append (x ∷ xs) ys y (suc s) h = get_elem?-append xs ys y s h

module _ {F : Floats} where
  -- A frame that no tick has been written to, or that holds one of the last ticks.
  abbrev pub Held : List (ℕ × Tick F) → ℕ → BypassFrame F → Type 0
  Held sent i x =
      ((x ≡ zero_frame F) × (length sent ≤ i))
      ⊎ ((s : ℕ) × (now : ℕ) × (tick : Tick F) × (get_elem? sent s ≡ some (now, tick))
          × (x ≡ frame_of s now tick)
          × (s < length sent)
          × (length sent ≤ s + ring_capacity)
          × (s % ring_capacity ≡ i))

  pub record Holds (sent : List (ℕ × Tick F)) (f : KernelBypassFeed F) : Type 0 where
    pub counted : f.write_seq ≡ length sent
    pub held : (i : ℕ) → i < ring_capacity → Held sent i (f.frames i)

  pub new_feed-Holds : Holds [] (new_feed F)
  unfolding new_feed
  new_feed-Holds = record { counted = refl; held = λ i l. inl (refl, omega arith) }

  put_self : (f : ℕ → BypassFrame F) (i : ℕ) (x : BypassFrame F) → put f i x i ≡ x
  unfolding put
  put_self f i x = ground arith

  put_ne : (f : ℕ → BypassFrame F) (i j : ℕ) (x : BypassFrame F) → i ≢ j → put f i x j ≡ f j
  unfolding put
  put_ne f i j x h = ground arith

  -- A frame that the next tick is not written to.
  kept-Held :
      (sent : List (ℕ × Tick F)) (c : ℕ × Tick F) (i : ℕ) (x : BypassFrame F)
      → i < ring_capacity
      → length sent % ring_capacity ≢ i
      → Held sent i x
      → Held (sent ++ c ∷ []) i x
  kept-Held sent c i x l ne (inl (blank, unwritten)) =
      let long : length (sent ++ c ∷ []) ≡ length sent + 1 = length-append sent (c ∷ []) in
      let other : length sent ≢ i = (λ e. ne (ap (λ n. n % ring_capacity) e ∙ mod-eq_of_lt l)) in
      inl (blank, omega arith)
  kept-Held sent c i x l ne (inr (s, now, tick, at, is, below, recent, here)) =
      let long : length (sent ++ c ∷ []) ≡ length sent + 1 = length-append sent (c ∷ []) in
      let other : length sent ≢ s + ring_capacity =
        (λ e. ne (ap (λ n. n % ring_capacity) e ∙ add-mod_right s ring_capacity ∙ here)) in
      inr (
        s,
        now,
        tick,
        get_elem?-append sent (c ∷ []) (now, tick) s at,
        is,
        omega arith,
        omega arith,
        here,
      )

  pub produce-Holds :
      (sent : List (ℕ × Tick F)) (now : ℕ) (tick : Tick F) (f : KernelBypassFeed F)
      → Holds sent f
      → Holds (sent ++ (now, tick) ∷ []) (produce_tick now tick f)
  unfolding produce_tick
  produce-Holds sent now tick f h =
      let c : ℕ × Tick F = (now, tick) in
      let n : ℕ = length sent in
      let long : length (sent ++ c ∷ []) ≡ n + 1 = length-append sent (c ∷ []) in
      let x : BypassFrame F = frame_of n now tick in
      record {
        counted = omega (arith, h.counted);
        held = λ i l.
            rw (h.counted, offset-mod n)
              (elim (ℕ_discrete (n % ring_capacity) i) [
                | yes e ↦ inr (
                  n,
                  now,
                  tick,
                  get_elem?-last sent c,
                  ap (λ j. put f.frames (n % ring_capacity) x j) (sym e)
                      ∙ put_self f.frames (n % ring_capacity) x,
                  omega arith,
                  omega arith,
                  e,
                )
                | no ne ↦
                    rw (put_ne f.frames (n % ring_capacity) i x ne)
                      (kept-Held sent c i (f.frames i) l ne (h.held i l))
              ]);
      }
