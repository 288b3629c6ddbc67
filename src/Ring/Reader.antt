-- ===== src/Ring/Reader.antt =====
-- What a consumer reads: every message while it is in the window, and nothing once it is overwritten.
use native.Mathlib.Nat.{mod-lt, add-mod_right}
use nexus_trading.Base.{
  ℕ, zero, suc, ◌+◌, ◌^◌, ◌%◌, ◌<◌, ◌≤◌, ◌≡◌, refl, ap, ◌∙◌, ◌⊎◌, inl, inr, true, false, none, some,
  List, [], ◌∷◌, ◌++◌, leb, leb→le, ◌==◌, ==_iff, if◌then◌else◌, length, length-append, get_elem?,
  arith, Bool-cases, Option-cases,
}
use mathlib.Core.List.{append-nil, append_assoc}
use mathlib.Core.Option.{map}
use nexus_trading.Base.Bits.{pow_pos}
use nexus_trading.Ring.Buffer.{
  Ring, Slot, unwritten, payload, init, store_length, store_payload, write, poll, read,
}
use nexus_trading.Ring.Window.{
  size, place-mod, Holds, write-Holds, init-Holds, write-slots, update_self, take-overlay,
}

-- All the writes of a producer.
abbrev pub write_all : List (List ℕ) → Ring → Ring
write_all [] r = r
write_all (d ∷ ds) r = write_all ds (write d r).1

length-get_elem? :
    (xs : List (List ℕ)) (s : ℕ) → s < length xs → (d : List ℕ) × (get_elem? xs s ≡ some d)
length-get_elem? [] s h = absurd (omega arith)
length-get_elem? (x ∷ xs) zero h = (x, refl)
length-get_elem? (x ∷ xs) (suc s) h = length-get_elem? xs s (omega arith)

write_all-Holds :
    (sent ds : List (List ℕ)) (r : Ring)
    → length sent + length ds ≤ unwritten
    → Holds sent r
    → Holds (sent ++ ds) (write_all ds r)
write_all-Holds sent [] r h p = rw (append-nil sent) p
write_all-Holds sent (d ∷ ds) r h p = rw (← append_assoc sent (d ∷ []) ds) (
    write_all-Holds (sent ++ d ∷ []) ds (write d r).1 (omega (arith, length-append sent (d ∷ [])))
      (write-Holds sent d r (omega arith) p))

poll-window :
    (sent : List (List ℕ)) (r : Ring) (s : ℕ) (d : List ℕ)
    → Holds sent r
    → get_elem? sent s ≡ some d
    → length sent ≤ s + size r
    → poll s r ≡ some (payload d)
unfolding poll
poll-window sent r s d h e w =
    let slot = h.window s d e w in
    let hit : ((r.slots (s % size r)).sequence == s) ≡ true = (==_iff _ _).1 slot.0 in
    rw (place-mod r s, hit, slot.1) refl

poll-outside :
    (sent : List (List ℕ)) (r : Ring) (s : ℕ)
    → Holds sent r
    → s < unwritten
    → ((length sent ≤ s) ⊎ (s + size r < length sent))
    → poll s r ≡ none
unfolding poll
poll-outside sent r s h u o =
    rw (place-mod r s) (elim (Bool-cases ((r.slots (s % size r)).sequence == s)) [
      | inr miss ↦ rw miss refl
      | inl hit ↦ absurd (elim (h.marked (s % size r) (mod-lt s (pow_pos r.width))) [
        | inl q ↦ omega (arith, (==_iff _ _).0 hit)
        | inr q ↦ omega (arith, (==_iff _ _).0 hit)
      ])
    ])

write_all-width :
    (ds : List (List ℕ)) (sent : List (List ℕ)) (r : Ring)
    → length sent + length ds ≤ unwritten
    → Holds sent r
    → (write_all ds r).width ≡ r.width
write_all-width [] sent r h p = refl
write_all-width (d ∷ ds) sent r h p =
    write_all-width ds (sent ++ d ∷ []) (write d r).1 (omega (arith, length-append sent (d ∷ [])))
      (write-Holds sent d r (omega arith) p)
    ∙ (write-slots d r 0 (omega (arith, p.counted))).2

abbrev pub after : ℕ → (ℕ → Slot) → List (List ℕ) → Ring
after width memory sent = write_all sent (init width memory)

after-Holds :
    (width : ℕ) (memory : ℕ → Slot) (sent : List (List ℕ))
    → length sent ≤ unwritten
    → Holds sent (after width memory sent) × (size (after width memory sent) ≡ 2 ^ width)
unfolding init
after-Holds width memory sent fits =
    let start = init-Holds width memory in
    (
      write_all-Holds [] sent (init width memory) (omega arith) start,
      ap (λ w. 2 ^ w) (write_all-width sent [] (init width memory) (omega arith) start),
    )

far_lt : (a b : ℕ) → leb a b ≡ false → b < a
far_lt a b h = ground arith

get_elem?-none : (xs : List (List ℕ)) (s : ℕ) → get_elem? xs s ≡ none → length xs ≤ s
get_elem?-none [] s h = omega arith
get_elem?-none (x ∷ xs) zero h = ground arith
get_elem?-none (x ∷ xs) (suc s) h = omega (arith, get_elem?-none xs s h)

-- After the writes of `sent` (fewer than 2 ** 64 - 1) into a new ring of any power-of-two size,
-- whatever its memory held, one look at the slot of a consumer's sequence number finds exactly that
-- message, cut at 8192 bytes, if the message is among the last `size` ones written, and finds
-- nothing if it is not yet written or already overwritten.
pub poll_sent :
    (width : ℕ) (memory : ℕ → Slot) (sent : List (List ℕ)) (s : ℕ)
    → length sent ≤ unwritten
    → s < unwritten
    → poll s (after width memory sent)
      ≡ (if leb (length sent) (s + 2 ^ width) then map payload (get_elem? sent s) else none)
poll_sent width memory sent s fits small =
    let h = (after-Holds width memory sent fits).0 in
    let wide = (after-Holds width memory sent fits).1 in
    elim (Bool-cases (leb (length sent) (s + 2 ^ width))) [
      | inr far ↦ rw far (poll-outside sent _ s h small (inr (omega (arith, wide, far_lt _ _ far))))
      | inl near ↦ elim (Option-cases (get_elem? sent s)) [
        | inl missing ↦
            rw (near, missing) (poll-outside sent _ s h small (inl (get_elem?-none sent s missing)))
        | inr (d, e) ↦
            rw (near, e) (poll-window sent _ s d h e (omega (arith, wide, leb→le _ _ near)))
      ]
    ]

-- The ring at each turn of `read`, with the writes that the producer makes before that turn.
abbrev pub views : List (List (List ℕ)) → Ring → List Ring
views [] r = []
views (ds ∷ batches) r = write_all ds r ∷ views batches (write_all ds r)

abbrev pub total : List (List (List ℕ)) → ℕ
total [] = 0
total (ds ∷ batches) = length ds + total batches

read-lapped :
    (batches : List (List (List ℕ))) (sent : List (List ℕ)) (r : Ring) (s : ℕ)
    → length sent + total batches ≤ unwritten
    → s < unwritten
    → Holds sent r
    → s + size r < length sent
    → read s (views batches r) ≡ none
unfolding read
read-lapped [] sent r s fits u h far = refl
read-lapped (ds ∷ batches) sent r s fits u h far =
    let fit : length sent + length ds ≤ unwritten = omega arith in
    let h' = write_all-Holds sent ds r fit h in
    let long = length-append sent ds in
    let wide : size (write_all ds r) ≡ size r = ap (λ w. 2 ^ w) (write_all-width ds sent r fit h) in
    rw
      (
        poll-outside (sent ++ ds) (write_all ds r) s h' u (inr (omega (arith, wide, long))),
        read-lapped batches (sent ++ ds) (write_all ds r) s (omega (arith, long)) u h'
            (omega (arith, wide, long)),
        read,
      )
      refl

-- Once more than `s + size` messages have been written, `read s` finds nothing in any turn of its
-- loop, whatever the producer writes before each turn (below 2 ** 64 - 1 messages in all). So a
-- consumer that has fallen behind by a lap, and advances on data only, waits for ever.
pub lapped_read :
    (width : ℕ) (memory : ℕ → Slot) (sent : List (List ℕ)) (batches : List (List (List ℕ))) (s : ℕ)
    → length sent + total batches ≤ unwritten
    → s + 2 ^ width < length sent
    → read s (views batches (after width memory sent)) ≡ none
lapped_read width memory sent batches s fits far =
    let h = (after-Holds width memory sent (omega arith)).0 in
    let wide = (after-Holds width memory sent (omega arith)).1 in
    read-lapped batches sent _ s fits (omega arith) h (omega (arith, wide))

poll_torn :
    (d : List ℕ) (r : Ring) (s : ℕ)
    → r.producer_seq % size r ≡ s % size r
    → (r.slots (s % size r)).sequence ≡ s
    → poll s (store_payload d (store_length d r)) ≡ some (payload d)
unfolding poll store_length store_payload
poll_torn d r s same old =
    let hit : ((r.slots (s % size r)).sequence == s) ≡ true = (==_iff _ _).1 old in
    rw (place-mod, same, place-mod)
      (simp (update_self, hit, take-overlay (payload d) (r.slots (s % size r)).bytes))

-- While the producer has stored the bytes of message `s + size` and not yet its sequence number,
-- a consumer that asks for message `s` is given the bytes of the new message in its place.
pub torn_read :
    (width : ℕ) (memory : ℕ → Slot) (sent : List (List ℕ)) (d : List ℕ) (s : ℕ)
    → length sent ≤ unwritten
    → length sent ≡ s + 2 ^ width
    → let r = after width memory sent in
      poll s (store_payload d (store_length d r)) ≡ some (payload d)
torn_read width memory sent d s fits lap =
    let r : Ring = after width memory sent in
    let h : Holds sent r = (after-Holds width memory sent fits).0 in
    let wide : size r ≡ 2 ^ width = (after-Holds width memory sent fits).1 in
    let same : r.producer_seq % size r ≡ s % size r =
      rw (h.counted, lap, wide, add-mod_right s (2 ^ width)) refl in
    let m = length-get_elem? sent s (omega (arith, pow_pos width)) in
    poll_torn d r s same (h.window s m.0 m.1 (omega (arith, wide))).0
