-- ===== src/KernelBypass/Feed.antt =====
-- BypassFrame and KernelBypassFeed. A text is its UTF-8 bytes, and the test for UTF-8 is a
-- parameter. The memory is its frames, and an offset is counted in frames.
use Prim.Native.Nat.{bit_and}
use nexus_trading.Base.{
  Floats, ℕ, ◌+◌, ◌-◌, ◌^◌, ◌%◌, Bool, ◌&&◌, Option, none, some, List, [], ◌∷◌, ◌++◌, ◌==◌,
  if◌then◌else◌, length, take, replicate, Result, ok, err,
}

-- MAGIC
abbrev pub magic_number : ℕ
magic_number = 0xDEADBEEF

-- RING_CAPACITY
abbrev pub ring_capacity : ℕ
ring_capacity = 65536

pub data Error : Type 0 where
  unicode_error : Error

abbrev pub or_else {ℓ} : {A : Type ℓ} → Option A → A → A
or_else none a = a
or_else (some b) a = b

abbrev pub until_zero : List ℕ → List ℕ
until_zero [] = []
until_zero (b ∷ bs) = if b == 0 then [] else b ∷ until_zero bs

module _ (F : Floats) where
  -- What `getattr` finds on the object given to `produce_tick`; the whole numbers are not negative.
  pub record Tick : Type 0 where
    pub symbol : Option (List ℕ)
    pub timestamp_ns : Option ℕ
    pub bid : Option F.Float
    pub ask : Option F.Float
    pub last : Option F.Float
    pub volume : Option ℕ

  pub record BypassFrame : Type 0 where
    pub magic : ℕ
    pub sequence : ℕ
    pub timestamp_ns : ℕ
    pub symbol_len : ℕ
    pub symbol : List ℕ
    pub bid : F.Float
    pub ask : F.Float
    pub last : F.Float
    pub volume : ℕ

  -- The namespace that `poll` returns.
  pub record Received : Type 0 where
    pub symbol : List ℕ
    pub timestamp_ns : ℕ
    pub bid : F.Float
    pub ask : F.Float
    pub last : F.Float
    pub volume : ℕ

  pub record KernelBypassFeed : Type 0 where
    pub frames : ℕ → BypassFrame
    pub write_seq : ℕ
    pub read_seq : ℕ

  -- A frame of zero bytes, as a new anonymous mapping has them.
  abbrev pub zero_frame : BypassFrame
  zero_frame = record {
    magic = 0;
    sequence = 0;
    timestamp_ns = 0;
    symbol_len = 0;
    symbol = replicate 8 0;
    bid = F.float_of 0;
    ask = F.float_of 0;
    last = F.float_of 0;
    volume = 0;
  }

  unfoldable pub new_feed : KernelBypassFeed
  new_feed = record { frames = λ i. zero_frame; write_seq = 0; read_seq = 0 }

-- `_frame_offset`, in frames
unfoldable pub frame_offset : ℕ → ℕ
frame_offset seq = bit_and seq (ring_capacity - 1)

abbrev pub symbol_bytes : Option (List ℕ) → List ℕ
symbol_bytes s = take 8 (or_else s [])

module _ {F : Floats} where
  -- The frame that is filled in `produce_tick`: each field is cut to its width.
  unfoldable pub frame_of : ℕ → ℕ → Tick F → BypassFrame F
  frame_of seq now tick =
      let sym = symbol_bytes tick.symbol in
      record {
        magic = magic_number;
        sequence = seq % 2 ^ 64;
        timestamp_ns = or_else tick.timestamp_ns now % 2 ^ 64;
        symbol_len = length sym % 2 ^ 8;
        symbol = sym ++ replicate (8 - length sym) 0;
        bid = or_else tick.bid (F.float_of 0);
        ask = or_else tick.ask (F.float_of 0);
        last = or_else tick.last (F.float_of 0);
        volume = or_else tick.volume 0 % 2 ^ 32;
      }

  unfoldable pub put : (ℕ → BypassFrame F) → ℕ → BypassFrame F → ℕ → BypassFrame F
  put f i x j = if i == j then x else f j

  -- `produce_tick`
  unfoldable pub produce_tick : ℕ → Tick F → KernelBypassFeed F → KernelBypassFeed F
  produce_tick now tick f = record f {
    frames = put f.frames (frame_offset f.write_seq) (frame_of f.write_seq now tick);
    write_seq = f.write_seq + 1;
  }

  -- A field of type `c_char * 8` reads up to its first zero byte.
  abbrev pub received : BypassFrame F → Received F
  received x = record {
    symbol = take x.symbol_len (until_zero x.symbol);
    timestamp_ns = x.timestamp_ns;
    bid = x.bid;
    ask = x.ask;
    last = x.last;
    volume = x.volume;
  }

  abbrev pub decoded : (List ℕ → Bool) → Received F → Result Error (Received F)
  decoded is_utf8 r = if is_utf8 r.symbol then ok r else err unicode_error

  abbrev pub see :
      (List ℕ → Bool)
      → BypassFrame F
      → KernelBypassFeed F
      → Option (Result Error (Received F)) × KernelBypassFeed F
  see is_utf8 frame f =
      if (frame.magic == magic_number) && (frame.sequence == f.read_seq)
      then (some (decoded is_utf8 (received frame)), record f { read_seq = f.read_seq + 1 })
      else (none, f)

  -- One turn of the loop in `poll`: what it returns or raises, if it ends the loop.
  unfoldable pub look :
      (List ℕ → Bool) → KernelBypassFeed F → Option (Result Error (Received F)) × KernelBypassFeed F
  look is_utf8 f = see is_utf8 (f.frames (frame_offset f.read_seq)) f
