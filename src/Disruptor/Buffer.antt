-- ===== src/Disruptor/Buffer.antt =====
-- Sequence, RingBuffer, EventProcessor and DisruptorBus.publish. Sequence numbers start at -1: the
-- fields that end in `next`, and a slot's `stamp`, hold them plus one.
use Prim.Native.Nat.{bit_and}
use nexus_trading.Base.{
  ℕ, ◌+◌, ◌-◌, ◌^◌, Bool, Option, none, some, List, [], ◌∷◌, ◌++◌, String, leb, ◌==◌, if◌then◌else◌,
}

-- What one publication stores in a slot; the payload is the encoded message.
pub record Content : Type 0 where
  pub topic : String
  pub source : String
  pub payload : List ℕ
  pub ts_ns : ℕ

pub record RingSlot : Type 0 where
  pub stamp : ℕ
  pub content : Content

-- The ring has 2 ** width slots.
pub record RingBuffer : Type 0 where
  pub width : ℕ
  pub slots : ℕ → RingSlot
  pub cursor_next : ℕ
  pub claim_next : ℕ

abbrev pub empty_slot : RingSlot
empty_slot = record {
  stamp = 0;
  content = record { topic = ""; source = ""; payload = []; ts_ns = 0 };
}

unfoldable pub init : ℕ → RingBuffer
init width = record { width = width; slots = λ i. empty_slot; cursor_next = 0; claim_next = 0 }

-- The slot number of `get`.
unfoldable pub place : RingBuffer → ℕ → ℕ
place r sequence = bit_and sequence (2 ^ r.width - 1)

unfoldable pub get : RingBuffer → ℕ → RingSlot
get r sequence = r.slots (place r sequence)

-- `next_sequence`: the claim, and whether the loop ends at its first test, without a sleep.
unfoldable pub next_sequence : RingBuffer → ℕ × Bool × RingBuffer
next_sequence r =
    let seq = r.claim_next in
    (seq, leb (seq + 1) (2 ^ r.width + r.cursor_next), record r { claim_next = r.claim_next + 1 })

-- RingBuffer.publish
unfoldable pub set_cursor : ℕ → RingBuffer → RingBuffer
set_cursor sequence r = record r { cursor_next = sequence + 1 }

unfoldable pub put : (ℕ → RingSlot) → ℕ → RingSlot → ℕ → RingSlot
put f i s j = if i == j then s else f j

unfoldable pub fill : ℕ → Content → RingBuffer → RingBuffer
fill seq c r = record r {
  slots = put r.slots (place r seq) (record { stamp = seq + 1; content = c });
}

-- DisruptorBus.publish where the claim does not sleep; `none` where it does.
unfoldable pub publish : Content → RingBuffer → Option RingBuffer
unfolding next_sequence
publish c r =
    let (seq, ready, claimed) = next_sequence r in
    if ready then some (set_cursor seq (fill seq c claimed)) else none

pub record EventProcessor : Type 0 where
  pub sequence_next : ℕ
  pub handled : List Content

-- One pass of the loop of `run`: it hands a slot to the handler, or sleeps, or starts over at once.
pub data Turn : Type 0 where
  handles : Content → Turn
  sleeps : Turn
  spins : Turn

abbrev pub take_slot : RingSlot → EventProcessor → Turn × EventProcessor
take_slot slot p =
    if slot.stamp == p.sequence_next + 1
    then (
      handles slot.content,
      record { sequence_next = p.sequence_next + 1; handled = p.handled ++ slot.content ∷ [] },
    )
    else (spins, p)

unfoldable pub turn : RingBuffer → EventProcessor → Turn × EventProcessor
turn r p =
    let next = p.sequence_next in
    if leb (next + 1) r.cursor_next then take_slot (get r next) p else (sleeps, p)
