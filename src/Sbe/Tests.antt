-- ===== src/Sbe/Tests.antt =====
-- Runs of the codec, with payloads that are their own JSON and sources in ASCII.
use nexus_trading.Base.{
  ℕ, ◌≡◌, refl, Bool, true, false, none, some, List, [], ◌∷◌, ltb, if◌then◌else◌, length, replicate,
  Result, ok, err, arith,
}
use nexus_trading.Sbe.Codec.{BusMessage, Fresh, Error, struct_error, encode, decode, unknown}
use nexus_trading.Sbe.RoundTrip.{message, decode-encode}

abbrev same_json : List ℕ → List ℕ
same_json p = p

abbrev is_ascii : List ℕ → Bool
is_ascii [] = true
is_ascii (b ∷ bs) = if ltb b 128 then is_ascii bs else false

abbrev fresh : Fresh
fresh = record { uid = 900; now = 77 }

-- `{}` from "psa", in reply to the message 4
abbrev reply : BusMessage (List ℕ)
reply = record {
  message_id = 5;
  timestamp = 70;
  correlation_id = some 4;
  topic = 33;
  source_agent = some (112 ∷ 115 ∷ 97 ∷ []);
  payload = 123 ∷ 125 ∷ [];
}

decode-encode_example :
    (bytes : List ℕ) × (encode same_json some is_ascii reply ≡ ok bytes)
    × (length bytes ≡ 40)
    × (decode same_json some is_ascii fresh bytes
        ≡ ok (message fresh 33 (112 ∷ 115 ∷ 97 ∷ []) (123 ∷ 125 ∷ [])))
decode-encode_example =
    decode-encode same_json some is_ascii fresh 5 70 (some 4) 33 112 (115 ∷ 97 ∷ [])
      (123 ∷ 125 ∷ []) (omega arith) (omega arith) refl refl (omega arith) refl

abbrev sent_and_read : BusMessage (List ℕ) → Result Error (BusMessage (List ℕ))
sent_and_read m = elim (encode same_json some is_ascii m) [
  | ok bytes ↦ decode same_json some is_ascii fresh bytes
  | err e ↦ err e
]

-- A source of more than 16 bytes comes back cut, and a missing one as "unknown".
long_source :
    sent_and_read (message fresh 0 (replicate 20 65) []) ≡ ok (message fresh 0 (replicate 16 65) [])
unfolding encode decode
long_source = refl

no_source :
    sent_and_read (record (message fresh 0 [] []) { source_agent = none })
    ≡ ok (message fresh 0 unknown [])
unfolding encode decode
no_source = refl

short_data : decode same_json some is_ascii fresh (replicate 37 0) ≡ err struct_error
unfolding decode
short_data = refl
