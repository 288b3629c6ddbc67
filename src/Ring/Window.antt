-- ===== src/Ring/Window.antt =====
-- What a slot of the ring holds after any number of writes: the last 2 ** width messages.
use native.Mathlib.Nat.{add-mod_right}
use native.Mathlib.Decide.{ℕ_discrete}
use nexus_trading.Base.{
  ℕ, zero, suc, ◌+◌, ◌^◌, ◌%◌, ◌<◌, ◌≤◌, ◌≡◌, ◌≢◌, refl, sym, ap, ◌∙◌, ◌⊎◌, inl, inr, true, some,
  List, [], ◌∷◌, ◌++◌, ltb, lt→ltb, length, length-append, take, drop, get_elem?, arith,
}
use nexus_trading.Base.Bits.{bit_and_mask, mod_distinct, pow_pos}
use nexus_trading.Ring.Buffer.{
  Ring, Slot, unwritten, payload, place, update, init, overlay, store_length, store_payload,
  publish, write,
}

abbrev pub size : Ring → ℕ
size r = 2 ^ r.width

pub place-mod : (r : Ring) (seq : ℕ) → place r seq ≡ seq % size r
unfolding place
place-mod r seq = bit_and_mask r.width seq

drop-nil : (n : ℕ) → drop {A = ℕ} n [] ≡ []
drop-nil zero = refl
drop-nil (suc n) = refl

pub take-overlay : (new old : List ℕ) → take (length new) (overlay new old) ≡ new
take-overlay [] old = refl
take-overlay (x ∷ new) [] = ap (λ l. x ∷ l) (rw (sym (drop-nil (length new))) (take-overlay new []))
take-overlay (x ∷ new) (y ∷ old) = ap (λ l. x ∷ l) (take-overlay new old)

-- The ring after the writes of `sent`: the slots of the last `size` messages hold them, and a
-- slot that holds no message is marked unwritten.
pub record Holds (sent : List (List ℕ)) (r : Ring) : Type 0 where
  pub counted : r.producer_seq ≡ length sent
  pub window :
      (s : ℕ) (d : List ℕ)
      → get_elem? sent s ≡ some d
      → length sent ≤ s + size r
      → let slot = r.slots (s % size r) in
        (slot.sequence ≡ s) × (take slot.length slot.bytes ≡ payload d)
  pub marked :
      (i : ℕ)
      → i < size r
      → let q = (r.slots i).sequence in
        (q ≡ unwritten) ⊎ ((q < length sent) × (length sent ≤ q + size r) × (q % size r ≡ i))

-- What a write stores, in one update.
abbrev pub written : List ℕ → Ring → Slot
written d r =
    let old = r.slots (r.producer_seq % size r) in
    record {
      sequence = r.producer_seq;
      length = length (payload d);
      bytes = overlay (payload d) old.bytes;
    }

pub update_self : (f : ℕ → Slot) (i : ℕ) (s : Slot) → update f i s i ≡ s
unfolding update
update_self f i s = ground arith

update_ne : (f : ℕ → Slot) (i j : ℕ) (s : Slot) → i ≢ j → update f i s j ≡ f j
unfolding update
update_ne f i j s h = ground arith

pub write-slots :
    (d : List ℕ) (r : Ring) (j : ℕ)
    → r.producer_seq < unwritten
    → ((write d r).1.slots j ≡ update r.slots (r.producer_seq % size r) (written d r) j)
      × ((write d r).1.producer_seq ≡ r.producer_seq + 1)
      × ((write d r).1.width ≡ r.width)
unfolding write publish store_length store_payload
write-slots d r j h =
    let fits : ltb r.producer_seq (unwritten + 1) ≡ true = lt→ltb _ _ (omega arith) in
    rw (fits, write)
      (elim (ℕ_discrete (r.producer_seq % size r) j) [
        | yes e ↦ (simp (place-mod, update_self, ← e), refl, refl)
        | no ne ↦ (simp (place-mod, update_ne _ _ _ _ ne), refl, refl)
      ])

get_elem?-append_last :
    (xs : List (List ℕ)) (y z : List ℕ) (s : ℕ)
    → get_elem? (xs ++ y ∷ []) s ≡ some z
    → ((s ≡ length xs) × (z ≡ y)) ⊎ ((s < length xs) × (get_elem? xs s ≡ some z))
get_elem?-append_last [] y z zero h = inl (refl, cc)
get_elem?-append_last [] y z (suc s) h = ground arith
get_elem?-append_last (x ∷ xs) y z zero h = inr (omega arith, h)
get_elem?-append_last (x ∷ xs) y z (suc s) h = elim (get_elem?-append_last xs y z s h) [
  | inl (e, f) ↦ inl (ap suc e, f)
  | inr (l, f) ↦ inr (omega arith, f)
]

place_others :
    (sent : List (List ℕ)) (r : Ring) (s : ℕ)
    → Holds sent r
    → s < length sent
    → length sent < s + size r
    → r.producer_seq % size r ≢ s % size r
place_others sent r s h l w e =
    mod_distinct (size r) s r.producer_seq (omega (arith, h.counted)) (omega (arith, h.counted))
      (sym e)

write-window :
    (sent : List (List ℕ)) (d : List ℕ) (r : Ring)
    → Holds sent r
    → (s : ℕ) (m : List ℕ) → get_elem? (sent ++ d ∷ []) s ≡ some m
    → length sent < s + size r
    → let slot = update r.slots (r.producer_seq % size r) (written d r) (s % size r) in
      (slot.sequence ≡ s) × (take slot.length slot.bytes ≡ payload m)
write-window sent d r h s m e w = elim (get_elem?-append_last sent d m s e) [
  | inl (here, same) ↦
      let at : r.producer_seq ≡ s = h.counted ∙ sym here in
      rw (at, same, update_self r.slots (s % size r))
        (refl, take-overlay (payload d) (r.slots (s % size r)).bytes)
  | inr (l, old) ↦
      rw (update_ne r.slots _ _ (written d r) (place_others sent r s h l w))
        (h.window s m old (omega arith))
]

abbrev Marked : ℕ → ℕ → ℕ → ℕ → Type 0
Marked count n i q = (q ≡ unwritten) ⊎ ((q < count) × (count ≤ q + n) × (q % n ≡ i))

write-Marked :
    (sent : List (List ℕ)) (d : List ℕ) (r : Ring)
    → Holds sent r
    → (i : ℕ) → i < size r
    → Marked
        (length sent + 1)
        (size r)
        i
        (update r.slots (r.producer_seq % size r) (written d r) i).sequence
write-Marked sent d r h i l = elim (ℕ_discrete (r.producer_seq % size r) i) [
  | yes e ↦
      rw (← e, update_self r.slots (r.producer_seq % size r))
        (inr (omega (arith, h.counted), omega (arith, h.counted, pow_pos r.width), refl))
  | no ne ↦ rw (update_ne r.slots _ _ (written d r) ne) (elim (h.marked i l) [
    | inl u ↦ inl u
    | inr (a, b, c) ↦
        let q : ℕ = (r.slots i).sequence in
        let out : length sent ≢ q + size r =
          (λ e. ne (rw (h.counted, e, add-mod_right q (size r)) c)) in
        inr (omega arith, omega arith, c)
  ])
]

-- The ring holds the messages of `sent` again when one more is written.
pub write-Holds :
    (sent : List (List ℕ)) (d : List ℕ) (r : Ring)
    → length sent < unwritten
    → Holds sent r
    → Holds (sent ++ d ∷ []) (write d r).1
write-Holds sent d r fits h =
    let small : r.producer_seq < unwritten = omega (arith, h.counted) in
    let long : length (sent ++ d ∷ []) ≡ length sent + 1 = length-append sent (d ∷ []) in
    let wide = (write-slots d r 0 small).2 in
    record {
      counted = rw ((write-slots d r 0 small).1, long, h.counted) refl;
      window = λ s m e w.
          rw (wide, (write-slots d r (s % size r) small).0)
            (write-window sent d r h s m e (omega (arith, long, rw wide at w)));
      marked = λ i l.
          rw (wide, (write-slots d r i small).0, long) (write-Marked sent d r h i (rw wide at l));
    }

pub init-Holds : (width : ℕ) (memory : ℕ → Slot) → Holds [] (init width memory)
unfolding init
init-Holds width memory = record {
  counted = refl;
  window = λ s d e w. ground arith;
  marked = λ i l. inl (rw (lt→ltb i (2 ^ width) l) refl);
}
