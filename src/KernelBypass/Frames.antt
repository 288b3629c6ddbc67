-- ===== src/KernelBypass/Frames.antt =====
-- What a turn of the loop in `poll` makes of the frame that it looks at.
use native.Mathlib.Nat.{mod-eq_of_lt}
use nexus_trading.Base.{
  Floats, ℕ, ◌+◌, ◌-◌, ◌^◌, ◌%◌, ◌<◌, ◌≡◌, ◌≢◌, refl, ap, ◌∙◌, Bool, false, Option, none, some,
  List, [], ◌∷◌, ◌++◌, length, length-take, take, replicate, ◌==◌, ==_iff, arith,
}
use nexus_trading.KernelBypass.Feed.{
  Tick, BypassFrame, KernelBypassFeed, Received, frame_of, ring_capacity, look, see, received,
  decoded, or_else, until_zero, symbol_bytes,
}
use nexus_trading.KernelBypass.Window.{offset-mod}

take_padded :
    (xs : List ℕ) (n : ℕ) → take (length xs) (until_zero (xs ++ replicate n 0)) ≡ until_zero xs
take_padded [] n = refl
take_padded (x ∷ xs) n = ground (arith, take_padded xs n)

symbol-length : (s : Option (List ℕ)) → length (symbol_bytes s) % 256 ≡ length (symbol_bytes s)
symbol-length s = mod-eq_of_lt (omega (arith, length-take 8 (or_else s [])))

module _ {F : Floats} where
  -- What a reader gets of a tick produced at `now`.
  abbrev pub arrives : ℕ → Tick F → Received F
  arrives now tick = record {
    symbol = until_zero (take 8 (or_else tick.symbol []));
    timestamp_ns = or_else tick.timestamp_ns now % 2 ^ 64;
    bid = or_else tick.bid (F.float_of 0);
    ask = or_else tick.ask (F.float_of 0);
    last = or_else tick.last (F.float_of 0);
    volume = or_else tick.volume 0 % 2 ^ 32;
  }

  received-frame_of :
      (s now : ℕ) (tick : Tick F) → received (frame_of s now tick) ≡ arrives now tick
  unfolding frame_of
  received-frame_of s now tick =
      let sym = symbol_bytes tick.symbol in
      rw (symbol-length tick.symbol, take_padded sym (8 - length sym)) refl

  -- A turn of the loop looks at the frame of its number.
  pub look-see :
      (u : List ℕ → Bool) (f : KernelBypassFeed F) (x : BypassFrame F)
      → f.frames (f.read_seq % ring_capacity) ≡ x
      → look u f ≡ see u x f
  unfolding look
  look-see u f x e = ap (λ y. see u y f) (ap f.frames (offset-mod f.read_seq) ∙ e)

  pub see_own :
      (u : List ℕ → Bool) (f : KernelBypassFeed F) (now : ℕ) (tick : Tick F)
      → f.read_seq < 2 ^ 64
      → see u (frame_of f.read_seq now tick) f
        ≡ (some (decoded u (arrives now tick)), record f { read_seq = f.read_seq + 1 })
  unfolding frame_of
  see_own u f now tick l =
      rw (mod-eq_of_lt l, (==_iff f.read_seq f.read_seq).1 refl)
        (ap (λ r. (some (decoded u r), record f { read_seq = f.read_seq + 1 }))
          (received-frame_of f.read_seq now tick))

  pub see_other :
      (u : List ℕ → Bool) (f : KernelBypassFeed F) (s now : ℕ) (tick : Tick F)
      → f.read_seq ≢ s
      → s < 2 ^ 64
      → see u (frame_of s now tick) f ≡ (none, f)
  unfolding frame_of
  see_other u f s now tick ne l =
      let apart : (s == f.read_seq) ≡ false = ground arith in rw (mod-eq_of_lt l, apart) refl
