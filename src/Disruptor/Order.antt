-- ===== src/Disruptor/Order.antt =====
-- What an EventProcessor hands to its handler over any interleaving with publications.
use native.Mathlib.Decide.{dec_lt}
use nexus_trading.Base.{
  ℕ, zero, suc, ◌+◌, ◌<◌, ◌≤◌, ◌≡◌, refl, sym, ap, ◌∙◌, inl, inr, Option, none, some, List, [], ◌∷◌,
  ◌++◌, length, length-append, get_elem?, take, arith, Option-cases, subst,
}
use mathlib.Core.List.{append-nil, append_assoc}
use nexus_trading.Disruptor.Buffer.{Content, RingBuffer, init, publish, EventProcessor, spins, turn}
use nexus_trading.Disruptor.Window.{
  size, Holds, next_ring, publish_step, next_ring-Holds, init-Holds,
}
use nexus_trading.Disruptor.Consumer.{
  turns, turn_handles, turn_spins, turn_sleeps, get_elem?-lt, get_elem?-none, take-get_elem?,
  take-append,
}

-- A publication, or a pass of the consumer's loop.
pub data Event : Type 0 where
  publishes : Content → Event
  passes : Event

abbrev pub sent_by : List Event → List Content
sent_by [] = []
sent_by (publishes c ∷ es) = c ∷ sent_by es
sent_by (passes ∷ es) = sent_by es

-- The events in this order; `none` if a claim has to sleep.
unfoldable pub run : List Event → RingBuffer → EventProcessor → Option (RingBuffer × EventProcessor)
run [] r p = some (r, p)
run (publishes c ∷ es) r p = elim (publish c r) [ none ↦ none | some r' ↦ run es r' p ]
run (passes ∷ es) r p = run es r (turn r p).1

-- The consumer has handed on the messages before its sequence number, in order.
record InOrder (sent : List Content) (p : EventProcessor) : Type 0 where
  handed : p.handled ≡ take p.sequence_next sent
  not_ahead : p.sequence_next ≤ length sent

turn-InOrder :
    (sent : List Content) (r : RingBuffer) (p : EventProcessor)
    → Holds sent r
    → InOrder sent p
    → InOrder sent (turn r p).1
turn-InOrder sent r p h o = elim (Option-cases (get_elem? sent p.sequence_next)) [
  | inl missing ↦
      let done : length sent ≤ p.sequence_next = get_elem?-none sent p.sequence_next missing in
      subst (λ x. InOrder sent x.1) (sym (turn_sleeps sent r p h done)) o
  | inr (c, e) ↦ elim (dec_lt (p.sequence_next + size r) (length sent)) [
    | yes far ↦ subst (λ x. InOrder sent x.1) (sym (turn_spins sent r p h far)) o
    | no near ↦
        subst (λ x. InOrder sent x.1) (sym (turn_handles sent r p c h e (omega arith)))
          (record {
            handed = ap (λ l. l ++ c ∷ []) o.handed ∙ sym (take-get_elem? sent p.sequence_next c e);
            not_ahead = omega (arith, get_elem?-lt sent p.sequence_next c e);
          })
  ]
]

publish-InOrder :
    (sent : List Content) (c : Content) (p : EventProcessor)
    → InOrder sent p
    → InOrder (sent ++ c ∷ []) p
publish-InOrder sent c p o = record {
  handed = o.handed ∙ sym (take-append sent (c ∷ []) p.sequence_next o.not_ahead);
  not_ahead = omega (arith, o.not_ahead, length-append sent (c ∷ []));
}

Delivered : List Content → Option (RingBuffer × EventProcessor) → Type 0
Delivered sent o =
    (r : RingBuffer) × (p : EventProcessor) × (o ≡ some (r, p)) × Holds sent r × InOrder sent p

run-Delivered :
    (sent : List Content) (es : List Event) (r : RingBuffer) (p : EventProcessor)
    → Holds sent r
    → InOrder sent p
    → Delivered (sent ++ sent_by es) (run es r p)
unfolding run Delivered
run-Delivered sent [] r p h o = (r, p, refl, rw (append-nil sent) h, rw (append-nil sent) o)
run-Delivered sent (publishes c ∷ es) r p h o =
    rw (run, publish_step sent c r h, ← append_assoc sent (c ∷ []) (sent_by es))
      (run-Delivered (sent ++ c ∷ []) es (next_ring c r) p (next_ring-Holds sent c r h)
        (publish-InOrder sent c p o))
run-Delivered sent (passes ∷ es) r p h o =
    run-Delivered sent es r (turn r p).1 h (turn-InOrder sent r p h o)

abbrev pub new_processor : EventProcessor
new_processor = record { sequence_next = 0; handled = [] }

-- In every interleaving of publications and passes of the consumer's loop, from a new ring of any
-- power-of-two size, no claim ever has to sleep, however far the consumer is behind, and the
-- consumer has handed on a prefix of what was published, in order and without repetition.
pub delivered_in_order :
    (width : ℕ) (es : List Event)
    → (r : RingBuffer) × (p : EventProcessor) × (run es (init width) new_processor ≡ some (r, p))
      × (p.handled ≡ take p.sequence_next (sent_by es))
      × (p.sequence_next ≤ length (sent_by es))
unfolding Delivered
delivered_in_order width es =
    let (r, p, ran, holds, o) =
      run-Delivered [] es (init width) new_processor (init-Holds width)
        (record { handed = refl; not_ahead = omega arith }) in
    (r, p, ran, o.handed, o.not_ahead)

ring_of : RingBuffer → Option (RingBuffer × EventProcessor) → RingBuffer
ring_of d none = d
ring_of d (some (r, p)) = r

turns_spin : (n : ℕ) (r : RingBuffer) (p : EventProcessor) → turn r p ≡ (spins, p) → turns n r p ≡ p
turns_spin zero r p e = refl
turns_spin (suc n) r p e = ap (λ x. turns n r x.1) e ∙ turns_spin n r p e

-- After an interleaving that leaves the consumer more than `size` messages behind, every further
-- pass of its loop starts over at once, without a handler call or a sleep, and changes nothing. As
-- such a loop never gives way to another task, the event loop stands still.
pub lapped_spins :
    (width : ℕ) (es : List Event) (r : RingBuffer) (p : EventProcessor) (n : ℕ)
    → run es (init width) new_processor ≡ some (r, p)
    → p.sequence_next + size r < length (sent_by es)
    → (turns n r p ≡ p) × (turn r p ≡ (spins, p))
unfolding Delivered ring_of
lapped_spins width es r p n ran far =
    let (r', p', ran', holds, o) =
      run-Delivered [] es (init width) new_processor (init-Holds width)
        (record { handed = refl; not_ahead = omega arith }) in
    let same : r' ≡ r = ap (ring_of r) (sym ran' ∙ ran) in
    let e : turn r p ≡ (spins, p) =
      turn_spins (sent_by es) r p (subst (Holds (sent_by es)) same holds) far in
    (turns_spin n r p e, e)
