-- ===== src/Ring/Tests.antt =====
-- Runs of the ring buffer, and the theorems at concrete rings.
use nexus_trading.Base.{ℕ, ◌≡◌, refl, none, some, List, [], ◌∷◌, arith}
use nexus_trading.Ring.Buffer.{
  Slot, init, store_length, store_payload, publish, write, poll, read, update, place,
}
use nexus_trading.Ring.Reader.{poll_sent, lapped_read, torn_read, after, views}

abbrev old_memory : ℕ → Slot
old_memory i = record { sequence = i; length = 3; bytes = 9 ∷ 9 ∷ 9 ∷ [] }

abbrev five : List (List ℕ)
five = (1 ∷ []) ∷ (2 ∷ 2 ∷ []) ∷ (3 ∷ []) ∷ (4 ∷ 4 ∷ 4 ∷ []) ∷ (5 ∷ []) ∷ []

-- A ring of four slots after five writes: message 0 is lost and message 1 is there.
lost : poll 0 (after 2 old_memory five) ≡ none
unfolding init write store_length store_payload publish poll update place
lost = refl

kept : read 1 (after 2 old_memory five ∷ []) ≡ some (2 ∷ 2 ∷ [])
unfolding init write store_length store_payload publish poll read update place
kept = refl

poll_sent_example : poll 3 (after 2 old_memory five) ≡ some (4 ∷ 4 ∷ 4 ∷ [])
poll_sent_example = poll_sent 2 old_memory five 3 (omega arith) (omega arith)

lapped_read_example : read 0 (views (((6 ∷ []) ∷ []) ∷ [] ∷ []) (after 2 old_memory five)) ≡ none
lapped_read_example =
    lapped_read 2 old_memory five (((6 ∷ []) ∷ []) ∷ [] ∷ []) 0 (omega arith) (omega arith)

torn_read_case :
    poll 1 (store_payload (6 ∷ []) (store_length (6 ∷ []) (after 2 old_memory five)))
    ≡ some (6 ∷ [])
torn_read_case = torn_read 2 old_memory five (6 ∷ []) 1 (omega arith) (omega arith)
