-- ===== src/Disruptor/Window.antt =====
-- What the ring holds after any number of publications.
use native.Mathlib.Nat.{add-mod_right}
use native.Mathlib.Decide.{ℕ_discrete}
use nexus_trading.Base.{
  ℕ, zero, suc, ◌+◌, ◌^◌, ◌%◌, ◌<◌, ◌≤◌, ◌≡◌, ◌≢◌, refl, sym, ap, ◌∙◌, ◌⊎◌, inl, inr, true, some,
  List, [], ◌∷◌, ◌++◌, leb, le→leb, length, length-append, get_elem?, arith,
}
use nexus_trading.Base.Bits.{bit_and_mask, mod_distinct, pow_pos}
use nexus_trading.Disruptor.Buffer.{
  Content, RingSlot, RingBuffer, init, place, set_cursor, put, fill, publish,
}

abbrev pub size : RingBuffer → ℕ
size r = 2 ^ r.width

pub place-mod : (r : RingBuffer) (seq : ℕ) → place r seq ≡ seq % size r
unfolding place
place-mod r seq = bit_and_mask r.width seq

pub record Holds (sent : List Content) (r : RingBuffer) : Type 0 where
  pub published : r.cursor_next ≡ length sent
  pub claimed : r.claim_next ≡ length sent
  pub window :
      (s : ℕ) (c : Content)
      → get_elem? sent s ≡ some c
      → length sent ≤ s + size r
      → r.slots (s % size r) ≡ record { stamp = s + 1; content = c }
  pub marked :
      (i : ℕ)
      → i < size r
      → (r.slots i).stamp ≡ 0
        ⊎ ((s : ℕ) × ((r.slots i).stamp ≡ s + 1)
            × (length sent ≤ s + size r)
            × (s < length sent)
            × (s % size r ≡ i))

put_self : (f : ℕ → RingSlot) (i : ℕ) (s : RingSlot) → put f i s i ≡ s
unfolding put
put_self f i s = ground arith

put_ne : (f : ℕ → RingSlot) (i j : ℕ) (s : RingSlot) → i ≢ j → put f i s j ≡ f j
unfolding put
put_ne f i j s h = ground arith

get_elem?-last :
    (xs : List Content) (y z : Content) (s : ℕ)
    → get_elem? (xs ++ y ∷ []) s ≡ some z
    → ((s ≡ length xs) × (z ≡ y)) ⊎ ((s < length xs) × (get_elem? xs s ≡ some z))
get_elem?-last [] y z zero h = inl (refl, cc)
get_elem?-last [] y z (suc s) h = ground arith
get_elem?-last (x ∷ xs) y z zero h = inr (omega arith, h)
get_elem?-last (x ∷ xs) y z (suc s) h = elim (get_elem?-last xs y z s h) [
  | inl (e, f) ↦ inl (ap suc e, f)
  | inr (l, f) ↦ inr (omega arith, f)
]

-- The ring after one publication.
abbrev pub next_ring : Content → RingBuffer → RingBuffer
next_ring c r = record r {
  slots = put r.slots (r.claim_next % size r) (record { stamp = r.claim_next + 1; content = c });
  cursor_next = r.claim_next + 1;
  claim_next = r.claim_next + 1;
}

pub publish_step :
    (sent : List Content) (c : Content) (r : RingBuffer)
    → Holds sent r
    → publish c r ≡ some (next_ring c r)
unfolding publish fill set_cursor
publish_step sent c r h =
    let ready : leb (r.claim_next + 1) (2 ^ r.width + r.cursor_next) ≡ true =
      le→leb _ _ (omega (arith, pow_pos r.width, h.published, h.claimed)) in
    rw ready (rw (place-mod) refl)

pub next_ring-Holds :
    (sent : List Content) (c : Content) (r : RingBuffer)
    → Holds sent r
    → Holds (sent ++ c ∷ []) (next_ring c r)
next_ring-Holds sent c r h =
    let n : ℕ = size r in
    let at : r.claim_next ≡ length sent = h.claimed in
    let long : length (sent ++ c ∷ []) ≡ length sent + 1 = length-append sent (c ∷ []) in
    let slot : RingSlot = record { stamp = r.claim_next + 1; content = c } in
    record {
      published = omega arith;
      claimed = omega arith;
      window = λ s m e w. elim (get_elem?-last sent c m s e) [
        | inl (here, same) ↦
            ap (λ x. put r.slots (x % n) (record { stamp = x + 1; content = c }) (s % n))
              (at ∙ sym here)
            ∙ put_self r.slots (s % n) (record { stamp = s + 1; content = c })
            ∙ ap (λ x. record { stamp = s + 1; content = x }) (sym same)
        | inr (l, old) ↦
            put_ne r.slots (r.claim_next % n) (s % n) slot
              (λ e. mod_distinct n s r.claim_next (omega arith) (omega arith) (sym e))
            ∙ h.window s m old (omega arith)
      ];
      marked = λ i l. elim (ℕ_discrete (r.claim_next % n) i) [
        | yes e ↦
            let here : put r.slots (r.claim_next % n) slot i ≡ slot =
              ap (λ j. put r.slots (r.claim_next % n) slot j) (sym e)
              ∙ put_self r.slots (r.claim_next % n) slot in
            inr
              (r.claim_next, ap (λ x. x.stamp) here, omega (arith, pow_pos r.width), omega arith, e)
        | no ne ↦
            let same : put r.slots (r.claim_next % n) slot i ≡ r.slots i =
              put_ne r.slots (r.claim_next % n) i slot ne in
            elim (h.marked i l) [
              | inl blank ↦ inl (ap (λ x. x.stamp) same ∙ blank)
              | inr (s, stamped, recent, sent_s, slot_s) ↦
                  let kept : length sent ≢ s + n =
                    (λ e. ne (ap (λ x. x % n) (at ∙ e) ∙ add-mod_right s n ∙ slot_s)) in
                  inr (s, ap (λ x. x.stamp) same ∙ stamped, omega arith, omega arith, slot_s)
            ]
      ];
    }

pub init-Holds : (width : ℕ) → Holds [] (init width)
unfolding init
init-Holds width = record {
  published = refl;
  claimed = refl;
  window = λ s c e w. ground arith;
  marked = λ i l. inl refl;
}
