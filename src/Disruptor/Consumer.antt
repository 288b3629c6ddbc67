-- ===== src/Disruptor/Consumer.antt =====
-- One pass of an EventProcessor's loop: it hands on a slot, sleeps, or starts over at once.
use native.Mathlib.Nat.{mod-lt}
use nexus_trading.Base.{
  ℕ, zero, suc, ◌+◌, ◌%◌, ◌<◌, ◌≤◌, ◌≡◌, ◌≢◌, refl, ap, ◌∙◌, inl, inr, true, false, none, some,
  List, [], ◌∷◌, ◌++◌, leb, le→leb, ◌==◌, ==_iff, length, get_elem?, take, arith,
}
use nexus_trading.Base.Bits.{pow_pos}
use nexus_trading.Disruptor.Buffer.{
  Content, RingBuffer, get, EventProcessor, handles, sleeps, spins, turn, take_slot,
}
use nexus_trading.Disruptor.Window.{size, place-mod, Holds}

-- The passes of the consumer's loop.
abbrev pub turns : ℕ → RingBuffer → EventProcessor → EventProcessor
turns zero r p = p
turns (suc n) r p = turns n r (turn r p).1

pub get_elem?-lt :
    (xs : List Content) (i : ℕ) (c : Content) → get_elem? xs i ≡ some c → i < length xs
get_elem?-lt [] i c h = ground arith
get_elem?-lt (x ∷ xs) zero c h = omega arith
get_elem?-lt (x ∷ xs) (suc i) c h = omega (arith, get_elem?-lt xs i c h)

pub get_elem?-none : (xs : List Content) (i : ℕ) → get_elem? xs i ≡ none → length xs ≤ i
get_elem?-none [] i h = omega arith
get_elem?-none (x ∷ xs) zero h = ground arith
get_elem?-none (x ∷ xs) (suc i) h = omega (arith, get_elem?-none xs i h)

pub take-get_elem? :
    (xs : List Content) (i : ℕ) (c : Content)
    → get_elem? xs i ≡ some c
    → take (i + 1) xs ≡ take i xs ++ c ∷ []
take-get_elem? [] i c h = ground arith
take-get_elem? (x ∷ xs) zero c h = ground arith
take-get_elem? (x ∷ xs) (suc i) c h =
    let next : suc i + 1 ≡ suc (i + 1) = omega arith in
    rw next (ap (λ l. x ∷ l) (take-get_elem? xs i c h))

pub take-append : (xs ys : List Content) (i : ℕ) → i ≤ length xs → take i (xs ++ ys) ≡ take i xs
take-append xs ys zero h = refl
take-append [] ys (suc i) h = absurd (omega arith)
take-append (x ∷ xs) ys (suc i) h = ap (λ l. x ∷ l) (take-append xs ys i (omega arith))

not_equal : (a b : ℕ) → a ≢ b → (a == b) ≡ false
not_equal a b h = ground arith

not_leb : (a b : ℕ) → b < a → leb a b ≡ false
not_leb a b h = ground arith

stamp_gone :
    (sent : List Content) (r : RingBuffer) (s : ℕ)
    → Holds sent r
    → s + size r < length sent
    → (r.slots (s % size r)).stamp ≢ s + 1
stamp_gone sent r s h far e = elim (h.marked (s % size r) (mod-lt s (pow_pos r.width))) [
  | inl blank ↦ absurd (omega arith)
  | inr (t, stamped, recent, sent_t, slot_t) ↦ absurd (omega arith)
]

get-slot : (r : RingBuffer) (s : ℕ) → get r s ≡ r.slots (s % size r)
unfolding get
get-slot r s = ap r.slots (place-mod r s)

pub turn_handles :
    (sent : List Content) (r : RingBuffer) (p : EventProcessor) (c : Content)
    → Holds sent r
    → get_elem? sent p.sequence_next ≡ some c
    → length sent ≤ p.sequence_next + size r
    → turn r p
      ≡ (handles c, record { sequence_next = p.sequence_next + 1; handled = p.handled ++ c ∷ [] })
unfolding turn
turn_handles sent r p c h e w =
    let s : ℕ = p.sequence_next in
    let ready : leb (s + 1) r.cursor_next ≡ true =
      le→leb _ _ (omega (arith, h.published, get_elem?-lt sent s c e)) in
    let same : ((s + 1) == (s + 1)) ≡ true = (==_iff _ _).1 refl in
    rw ready
      (ap (λ slot. take_slot slot p) (get-slot r s ∙ h.window s c e w) ∙ rw (take_slot, same) refl)

pub turn_spins :
    (sent : List Content) (r : RingBuffer) (p : EventProcessor)
    → Holds sent r
    → p.sequence_next + size r < length sent
    → turn r p ≡ (spins, p)
unfolding turn
turn_spins sent r p h far =
    let s : ℕ = p.sequence_next in
    let ready : leb (s + 1) r.cursor_next ≡ true = le→leb _ _ (omega (arith, h.published)) in
    let gone : ((r.slots (s % size r)).stamp == (s + 1)) ≡ false =
      not_equal _ _ (stamp_gone sent r s h far) in
    rw ready (ap (λ slot. take_slot slot p) (get-slot r s) ∙ rw (take_slot, gone) refl)

pub turn_sleeps :
    (sent : List Content) (r : RingBuffer) (p : EventProcessor)
    → Holds sent r
    → length sent ≤ p.sequence_next
    → turn r p ≡ (sleeps, p)
unfolding turn
turn_sleeps sent r p h done =
    let empty : leb (p.sequence_next + 1) r.cursor_next ≡ false =
      not_leb _ _ (omega (arith, h.published)) in
    rw empty refl
