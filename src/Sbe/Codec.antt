-- ===== src/Sbe/Codec.antt =====
-- SBECodec.encode and decode on bytes. A topic is its number in the order of the enum, a text is its
-- UTF-8 bytes, and JSON and the test for UTF-8 are parameters.
use nexus_trading.Base.{
  ℕ, ◌+◌, ◌-◌, ◌*◌, ◌/◌, ◌%◌, Bool, Option, none, some, List, [], ◌∷◌, ◌++◌, ltb, ◌==◌,
  if◌then◌else◌, length, take, drop, replicate, Result, ok, err,
}

abbrev pub topic_count : ℕ
topic_count = 34

-- Topic.AGENT_HEARTBEAT
abbrev pub agent_heartbeat : ℕ
agent_heartbeat = 24

-- "unknown"
abbrev pub unknown : List ℕ
unknown = 117 ∷ 110 ∷ 107 ∷ 110 ∷ 111 ∷ 119 ∷ 110 ∷ []

-- Ids are numbers.
pub record BusMessage {ℓ} (P : Type ℓ) : Type ℓ where
  pub message_id : ℕ
  pub timestamp : ℕ
  pub correlation_id : Option ℕ
  pub topic : ℕ
  pub source_agent : Option (List ℕ)
  pub payload : P

-- What the factories of the defaulted fields give to a new message.
pub record Fresh : Type 0 where
  pub uid : ℕ
  pub now : ℕ

pub data Error : Type 0 where
  struct_error unicode_error json_error : Error

-- Unsigned numbers of two and four bytes, highest byte first.
abbrev pub pack_16 : ℕ → List ℕ
pack_16 n = n / 256 ∷ n % 256 ∷ []

abbrev pub pack_32 : ℕ → List ℕ
pack_32 n = n / 16777216 ∷ n / 65536 % 256 ∷ n / 256 % 256 ∷ n % 256 ∷ []

abbrev pub unpack : ℕ → List ℕ → ℕ
unpack acc [] = acc
unpack acc (b ∷ bytes) = unpack (acc * 256 + b) bytes

abbrev pub ljust : ℕ → List ℕ → List ℕ
ljust n bytes = bytes ++ replicate (n - length bytes) 0

abbrev strip_cons : ℕ → List ℕ → List ℕ
strip_cons b [] = if b == 0 then [] else b ∷ []
strip_cons b (c ∷ rest) = b ∷ c ∷ rest

-- `rstrip(b"\x00")`
abbrev pub rstrip : List ℕ → List ℕ
rstrip [] = []
rstrip (b ∷ bytes) = strip_cons b (rstrip bytes)

abbrev pub or_empty : Option (List ℕ) → List ℕ
or_empty none = []
or_empty (some s) = s

abbrev pub slice : ℕ → ℕ → List ℕ → List ℕ
slice from n bytes = take n (drop from bytes)

abbrev pub named : List ℕ → List ℕ
named [] = unknown
named (b ∷ bytes) = b ∷ bytes

module _ {ℓ} {P : Type ℓ} (dumps : P → List ℕ) (loads : List ℕ → Option P)
    (is_utf8 : List ℕ → Bool) where
  abbrev pub header : BusMessage P → List ℕ
  header m =
      replicate 16 0
      ++ pack_16 m.topic
      ++ ljust 16 (take 16 (or_empty m.source_agent))
      ++ pack_32 (length (dumps m.payload))

  -- `struct.pack` raises on a payload of 2 ** 32 bytes or more.
  unfoldable pub encode : BusMessage P → Result Error (List ℕ)
  encode m =
      if ltb (length (dumps m.payload)) 4294967296
      then ok (header m ++ dumps m.payload)
      else err struct_error

  abbrev pub with_payload : Fresh → ℕ → List ℕ → Option P → Result Error (BusMessage P)
  with_payload fresh topic source none = err json_error
  with_payload fresh topic source (some p) = ok (record {
    message_id = fresh.uid;
    timestamp = fresh.now;
    correlation_id = none;
    topic = topic;
    source_agent = some (named source);
    payload = p;
  })

  unfoldable pub decode : Fresh → List ℕ → Result Error (BusMessage P)
  decode fresh bytes =
      let topic_id = unpack 0 (slice 16 2 bytes) in
      let source = rstrip (slice 18 16 bytes) in
      let payload_len = unpack 0 (slice 34 4 bytes) in
      if ltb (length bytes) 38
      then err struct_error
      else if is_utf8 source
      then with_payload fresh (if ltb topic_id topic_count then topic_id else agent_heartbeat)
          source (loads (slice 38 payload_len bytes))
      else err unicode_error
