-- ===== src/Ring/Buffer.antt =====
-- class SharedRingBuffer: the slots, write (cut at its three stores), and read.
use Prim.Native.Nat.{bit_and}
use nexus_trading.Base.{
  ℕ, ◌+◌, ◌-◌, ◌^◌, Option, none, some, List, [], ◌∷◌, ◌++◌, ltb, ◌==◌, if◌then◌else◌, length, take,
  drop, Result, ok, err,
}

-- SLOT_DATA_SIZE
abbrev pub slot_data_size : ℕ
slot_data_size = 8192

-- _UNWRITTEN, 2 ** 64 - 1
abbrev pub unwritten : ℕ
unwritten = 0xFFFFFFFFFFFFFFFF

-- The sequence field, the length field and the data bytes.
pub record Slot : Type 0 where
  pub sequence : ℕ
  pub length : ℕ
  pub bytes : List ℕ

-- The ring has 2 ** width slots; a slot's offset in the memory is its place times SLOT_SIZE.
pub record Ring : Type 0 where
  pub width : ℕ
  pub slots : ℕ → Slot
  pub producer_seq : ℕ

abbrev pub mask : Ring → ℕ
mask r = 2 ^ r.width - 1

-- `_off`, in slots
unfoldable pub place : Ring → ℕ → ℕ
place r seq = bit_and seq (mask r)

unfoldable pub update : (ℕ → Slot) → ℕ → Slot → ℕ → Slot
update f i s j = if i == j then s else f j

-- The memory may be an old segment: only the sequence fields are written.
unfoldable pub init : ℕ → (ℕ → Slot) → Ring
init width memory = record {
  width = width;
  slots = λ i. if ltb i (2 ^ width) then record (memory i) { sequence = unwritten } else memory i;
  producer_seq = 0;
}

-- Bytes stored over the start of others.
abbrev pub overlay : List ℕ → List ℕ → List ℕ
overlay new old = new ++ drop (length new) old

abbrev pub payload : List ℕ → List ℕ
payload = take slot_data_size

-- The three stores of `write`, in the order of the source.
unfoldable pub store_length : List ℕ → Ring → Ring
unfolding place
store_length d r =
    let i = place r r.producer_seq in
    record r { slots = update r.slots i (record (r.slots i) { length = length (payload d) }) }

unfoldable pub store_payload : List ℕ → Ring → Ring
unfolding place
store_payload d r =
    let i = place r r.producer_seq in
    record r {
      slots =
          update r.slots i (record (r.slots i) { bytes = overlay (payload d) (r.slots i).bytes });
    }

unfoldable pub publish : Ring → Ring
unfolding place
publish r =
    let i = place r r.producer_seq in
    record r {
      slots = update r.slots i (record (r.slots i) { sequence = r.producer_seq });
      producer_seq = r.producer_seq + 1;
    }

pub data Error : Type 0 where
  struct_error : Error

-- `struct.pack("=Q", seq)` raises from 2 ** 64 on, after the first two stores.
unfoldable pub write : List ℕ → Ring → Result Error ℕ × Ring
unfolding store_length store_payload publish
write d r =
    let r' = store_payload d (store_length d r) in
    if ltb r.producer_seq (unwritten + 1)
    then (ok r.producer_seq, publish r')
    else (err struct_error, r')

-- One turn of the loop in `read`.
unfoldable pub poll : ℕ → Ring → Option (List ℕ)
unfolding place
poll consumer r =
    let s = r.slots (place r consumer) in
    if s.sequence == consumer then some (take s.length s.bytes) else none

-- `read`: the memories that the turns see until the deadline, which another process may change.
unfoldable pub read : ℕ → List Ring → Option (List ℕ)
unfolding poll
read consumer [] = none
read consumer (r ∷ rs) =
    let rest = read consumer rs in elim (poll consumer r) [ some d ↦ some d | none ↦ rest ]
