-- ===== src/Disruptor/Tests.antt =====
-- Runs of the disruptor, and the theorems at concrete interleavings.
use nexus_trading.Base.{ℕ, ◌≤◌, ◌≡◌, refl, some, List, [], ◌∷◌, length, take, arith}
use nexus_trading.Disruptor.Buffer.{
  Content, RingBuffer, EventProcessor, init, place, get, set_cursor, put, fill, publish, turn,
  spins,
}
use nexus_trading.Disruptor.Consumer.{turns}
use nexus_trading.Disruptor.Order.{
  Event, publishes, passes, sent_by, run, new_processor, delivered_in_order, lapped_spins,
}

abbrev message : ℕ → Content
message n = record { topic = "trade"; source = "agent"; payload = n ∷ []; ts_ns = n }

-- A ring of two slots: one message is handed on, and then three more come at once.
abbrev burst : List Event
burst =
    publishes (message 1)
    ∷ passes
    ∷ publishes (message 2)
    ∷ publishes (message 3)
    ∷ publishes (message 4)
    ∷ passes
    ∷ []

abbrev after_burst : RingBuffer
after_burst = record (init 1) {
  slots =
      put
        (put
          (put (put (init 1).slots 0 (record { stamp = 1; content = message 1 })) 1
            (record { stamp = 2; content = message 2 }))
          0 (record { stamp = 3; content = message 3 }))
        1 (record { stamp = 4; content = message 4 });
  cursor_next = 4;
  claim_next = 4;
}

abbrev behind : EventProcessor
behind = record { sequence_next = 1; handled = message 1 ∷ [] }

lapped_spins_case :
    (turns 100 after_burst behind ≡ behind) × (turn after_burst behind ≡ (spins, behind))
unfolding run publish fill set_cursor turn get place put init
lapped_spins_case = lapped_spins 1 burst after_burst behind 100 refl (omega arith)

delivered_in_order_example :
    (r : RingBuffer) × (p : EventProcessor) × (run burst (init 1) new_processor ≡ some (r, p))
    × (p.handled ≡ take p.sequence_next (sent_by burst))
    × (p.sequence_next ≤ length (sent_by burst))
delivered_in_order_example = delivered_in_order 1 burst
