-- ===== src/Sbe/RoundTrip.antt =====
-- What decoding an encoded message gives back.
use mathlib.Core.List.{append_assoc}
use nexus_trading.Base.{
  ℕ, zero, suc, ◌+◌, ◌-◌, ◌≤◌, ◌<◌, ◌≡◌, refl, ap, ◌∙◌, Bool, true, false, Option, none, some, List,
  [], ◌∷◌, ◌++◌, ltb, lt→ltb, length, length-append, length-replicate, take, drop, replicate, ok,
  arith,
}
use nexus_trading.Sbe.Codec.{
  topic_count, BusMessage, Fresh, pack_16, pack_32, unpack, ljust, rstrip, slice, encode,
  with_payload, decode,
}

take-append_all : (a b : List ℕ) (n : ℕ) → length a ≡ n → take n (a ++ b) ≡ a
take-append_all [] b zero h = refl
take-append_all [] b (suc n) h = absurd (omega arith)
take-append_all (x ∷ a) b zero h = absurd (omega arith)
take-append_all (x ∷ a) b (suc n) h = ap (λ l. x ∷ l) (take-append_all a b n (omega arith))

drop-append_all : (a b : List ℕ) (n : ℕ) → length a ≡ n → drop n (a ++ b) ≡ b
drop-append_all [] b zero h = refl
drop-append_all [] b (suc n) h = absurd (omega arith)
drop-append_all (x ∷ a) b zero h = absurd (omega arith)
drop-append_all (x ∷ a) b (suc n) h = drop-append_all a b n (omega arith)

take_whole : (a : List ℕ) (n : ℕ) → length a ≤ n → take n a ≡ a
take_whole [] zero h = refl
take_whole [] (suc n) h = refl
take_whole (x ∷ a) zero h = absurd (omega arith)
take_whole (x ∷ a) (suc n) h = ap (λ l. x ∷ l) (take_whole a n (omega arith))

drop-nil : (n : ℕ) → drop {A = ℕ} n [] ≡ []
drop-nil zero = refl
drop-nil (suc n) = refl

drop-drop : (a b : ℕ) (xs : List ℕ) → drop (a + b) xs ≡ drop b (drop a xs)
drop-drop zero b xs = ap (λ n. drop n xs) (omega arith)
drop-drop (suc a) zero [] = drop-nil (suc a + zero)
drop-drop (suc a) (suc b) [] = drop-nil (suc a + suc b)
drop-drop (suc a) b (x ∷ xs) =
    let next : suc a + b ≡ suc (a + b) = omega arith in rw next (drop-drop a b xs)

rstrip-replicate : (k : ℕ) → rstrip (replicate k 0) ≡ []
rstrip-replicate zero = refl
rstrip-replicate (suc k) = rw (rstrip-replicate k) refl

rstrip-append : (a : List ℕ) (k : ℕ) → rstrip (a ++ replicate k 0) ≡ rstrip a
rstrip-append [] k = rstrip-replicate k
rstrip-append (x ∷ a) k = rw (rstrip-append a k) refl

length-ljust : (a : List ℕ) → length a ≤ 16 → length (ljust 16 a) ≡ 16
length-ljust a h = omega (
  arith,
  length-append a (replicate (16 - length a) 0),
  length-replicate {A = ℕ} (16 - length a) 0,
)

unpack-pack_16 : (n : ℕ) → unpack 0 (pack_16 n) ≡ n
unpack-pack_16 n = omega arith

unpack-pack_32 : (n : ℕ) → unpack 0 (pack_32 n) ≡ n
unpack-pack_32 n = omega arith

not_ltb : (a b : ℕ) → b ≤ a → ltb a b ≡ false
not_ltb a b h = ground arith

-- An encoded message, by its fields.
abbrev wire : ℕ → List ℕ → ℕ → List ℕ → List ℕ
wire topic source len body =
    (replicate 16 0 ++ pack_16 topic ++ ljust 16 source ++ pack_32 len) ++ body

module _ (topic len : ℕ) (source body : List ℕ) (short : length source ≤ 16) where
  abbrev tail_of : List ℕ
  tail_of = (ljust 16 source ++ pack_32 len) ++ body

  tail_split : tail_of ≡ ljust 16 source ++ (pack_32 len ++ body)
  tail_split = append_assoc (ljust 16 source) (pack_32 len) body

  slice-topic : slice 16 2 (wire topic source len body) ≡ pack_16 topic
  slice-topic = refl

  slice-source : slice 18 16 (wire topic source len body) ≡ ljust 16 source
  slice-source =
      ap (take 16) tail_split
      ∙ take-append_all (ljust 16 source) (pack_32 len ++ body) 16 (length-ljust source short)

  rest_of : drop 34 (wire topic source len body) ≡ pack_32 len ++ body
  rest_of =
      ap (drop 16) tail_split
      ∙ drop-append_all (ljust 16 source) (pack_32 len ++ body) 16 (length-ljust source short)

  slice-len : slice 34 4 (wire topic source len body) ≡ pack_32 len
  slice-len = ap (take 4) rest_of

  slice-body : length body ≡ len → slice 38 len (wire topic source len body) ≡ body
  slice-body h =
      ap (take len) (drop-drop 16 4 tail_of ∙ ap (drop 4) rest_of)
      ∙ take_whole body len (omega (arith, h))

-- A message as a decoder makes it, with a new id, the present time and no correlation.
abbrev pub message {ℓ} : {P : Type ℓ} → Fresh → ℕ → List ℕ → P → BusMessage P
message fresh topic source p = record {
  message_id = fresh.uid;
  timestamp = fresh.now;
  correlation_id = none;
  topic = topic;
  source_agent = some source;
  payload = p;
}

module _ {ℓ} {P : Type ℓ} (dumps : P → List ℕ) (loads : List ℕ → Option P) (is_utf8 : List ℕ → Bool)
    (fresh : Fresh) where
  decode_parts :
      (bytes : List ℕ) (t n : ℕ) (source : List ℕ)
      → ltb (length bytes) 38 ≡ false
      → unpack 0 (slice 16 2 bytes) ≡ t
      → rstrip (slice 18 16 bytes) ≡ source
      → unpack 0 (slice 34 4 bytes) ≡ n
      → ltb t topic_count ≡ true
      → is_utf8 source ≡ true
      → decode dumps loads is_utf8 fresh bytes
        ≡ with_payload dumps loads is_utf8 fresh t source (loads (slice 38 n bytes))
  unfolding decode
  decode_parts bytes t n source long topic name len known utf8 =
      rw (long, topic, name, len, utf8, known) refl

  length-wire :
      (topic : ℕ) (source : List ℕ) (len : ℕ) (body : List ℕ)
      → length source ≤ 16
      → length (wire topic source len body) ≡ 38 + length body
  length-wire topic source len body short = omega (
    arith,
    length-append (ljust 16 source ++ pack_32 len) body,
    length-append (ljust 16 source) (pack_32 len),
    length-ljust source short,
  )

  decode-wire :
      (topic b : ℕ) (bs : List ℕ) (p : P)
      → topic < topic_count
      → length (b ∷ bs) ≤ 16
      → rstrip (b ∷ bs) ≡ b ∷ bs
      → is_utf8 (b ∷ bs) ≡ true
      → loads (dumps p) ≡ some p
      → decode dumps loads is_utf8 fresh (wire topic (b ∷ bs) (length (dumps p)) (dumps p))
        ≡ ok (message fresh topic (b ∷ bs) p)
  decode-wire topic b bs p known short clean utf8 reads =
      let len : ℕ = length (dumps p) in
      let size = length-wire topic (b ∷ bs) len (dumps p) short in
      decode_parts (wire topic (b ∷ bs) len (dumps p)) topic len (b ∷ bs)
        (not_ltb _ 38 (omega (arith, size))) (unpack-pack_16 topic)
        (ap rstrip (slice-source topic len (b ∷ bs) (dumps p) short)
          ∙ rstrip-append (b ∷ bs) (16 - length (b ∷ bs))
          ∙ clean)
        (ap (unpack 0) (slice-len topic len (b ∷ bs) (dumps p) short) ∙ unpack-pack_32 len)
        (lt→ltb _ _ known) utf8
      ∙ ap (with_payload dumps loads is_utf8 fresh topic (b ∷ bs))
          (ap loads (slice-body topic len (b ∷ bs) (dumps p) short refl) ∙ reads)

  -- A message with a topic of the enum, a source of 1 to 16 bytes that is UTF-8 and does not end
  -- in a zero byte, and a payload of fewer than 2 ** 32 bytes that JSON reads back, is encoded in
  -- 38 bytes and those of its payload, and decoding them gives a message with the same topic, source
  -- and payload, a new id, the time of the decoding, and no correlation id, whatever these were.
  pub decode-encode :
      (id time : ℕ) (correlation : Option ℕ) (topic b : ℕ) (bs : List ℕ) (p : P)
      → topic < topic_count
      → length (b ∷ bs) ≤ 16
      → rstrip (b ∷ bs) ≡ b ∷ bs
      → is_utf8 (b ∷ bs) ≡ true
      → length (dumps p) < 4294967296
      → loads (dumps p) ≡ some p
      → let sent : BusMessage P = record {
        message_id = id;
        timestamp = time;
        correlation_id = correlation;
        topic = topic;
        source_agent = some (b ∷ bs);
        payload = p;
      } in
        (bytes : List ℕ) × (encode dumps loads is_utf8 sent ≡ ok bytes)
        × (length bytes ≡ 38 + length (dumps p))
        × (decode dumps loads is_utf8 fresh bytes
            ≡ ok (record sent {
              message_id = fresh.uid;
              timestamp = fresh.now;
              correlation_id = none;
            }))
  unfolding encode
  decode-encode id time correlation topic b bs p known short clean utf8 small reads =
      let len : ℕ = length (dumps p) in
      let fits : ltb len 4294967296 ≡ true = lt→ltb _ _ small in
      let whole : take 16 (b ∷ bs) ≡ b ∷ bs = take_whole (b ∷ bs) 16 short in
      (
        wire topic (b ∷ bs) len (dumps p),
        rw fits (ap (λ s. ok (wire topic s len (dumps p))) whole),
        length-wire topic (b ∷ bs) len (dumps p) short,
        decode-wire topic b bs p known short clean utf8 reads,
      )
