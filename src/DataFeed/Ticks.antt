-- ===== src/DataFeed/Ticks.antt =====
-- AlpacaDataFeed: its caches and the handlers of quotes and bars. A symbol is a number.
use nexus_trading.Base.{
  Floats, if◌then◌else◌, ◌&&◌, ℕ, zero, suc, ◌+◌, Option, none, some, List, [], ◌∷◌, ◌++◌, map,
  find, store, add, discard, push_bounded, last,
}

module _ (F : Floats) where
  pub record MarketTick : Type 0 where
    pub symbol : ℕ
    pub timestamp : ℕ
    pub bid : F.Float
    pub ask : F.Float
    pub last : F.Float
    pub volume : ℕ
    pub sequence : ℕ

  pub record BarData : Type 0 where
    pub symbol : ℕ
    pub timestamp : ℕ
    pub open_price : F.Float
    pub high : F.Float
    pub low : F.Float
    pub close : F.Float
    pub volume : ℕ
    pub vwap : Option F.Float

  -- What the stream hands over: prices that may be missing.
  pub record Quote : Type 0 where
    pub symbol : ℕ
    pub timestamp : Option ℕ
    pub bid_price : Option F.Float
    pub ask_price : Option F.Float

  pub record Bar : Type 0 where
    pub symbol : ℕ
    pub timestamp : Option ℕ
    pub open_price : Option F.Float
    pub high : Option F.Float
    pub low : Option F.Float
    pub close : Option F.Float
    pub volume : Option ℕ
    pub vwap : Option F.Float

  -- A handler is a number, and `tick_calls` and `bar_calls` are the calls so far.
  pub record AlpacaDataFeed : Type 0 where
    pub tick_cache_size : ℕ
    pub subscribed_symbols : List ℕ
    pub tick_handlers : List ℕ
    pub bar_handlers : List ℕ
    pub latest_ticks : List (ℕ × MarketTick)
    pub tick_history : List (ℕ × List MarketTick)
    pub bar_history : List (ℕ × List BarData)
    pub sequence : List (ℕ × ℕ)
    pub tick_calls : List (ℕ × MarketTick)
    pub bar_calls : List (ℕ × BarData)

  unfoldable pub new_feed : ℕ → AlpacaDataFeed
  new_feed size = record {
    tick_cache_size = size;
    subscribed_symbols = [];
    tick_handlers = [];
    bar_handlers = [];
    latest_ticks = [];
    tick_history = [];
    bar_history = [];
    sequence = [];
    tick_calls = [];
    bar_calls = [];
  }

  -- What reaches the feed: a quote or a bar of the stream, or a call of its methods.
  pub data Event : Type 0 where
    quotes : ℕ → Quote → Event
    bars : ℕ → Bar → Event
    subscribes unsubscribes : List ℕ → Event
    adds_tick_handler adds_bar_handler : ℕ → Event

-- `a or b`, and a lookup in a defaultdict
abbrev pub or_else {ℓ} : {A : Type ℓ} → Option A → A → A
or_else none a = a
or_else (some b) a = b

-- `list(xs)[-n:]`
abbrev pub from_end {ℓ} : {A : Type ℓ} → ℕ → List A → List A
from_end zero xs = xs
from_end (suc n) xs = last (suc n) xs

-- `float(x) if x else None`: zero is false.
abbrev truthy : (F : Floats) → Option F.Float → Option F.Float
truthy F none = none
truthy F (some x) =
    if F.float_leb x (F.float_of 0) && F.float_leb (F.float_of 0) x then none else some x

abbrev pub price : (F : Floats) → Option F.Float → F.Float
price F p = or_else p (F.float_of 0)

module _ {F : Floats} where
  abbrev pub last_price : Option (MarketTick F) → Quote F → F.Float
  last_price none q = price F q.bid_price
  last_price (some t) q = t.last

  abbrev pub new_tick : ℕ → ℕ → Option (MarketTick F) → Quote F → MarketTick F
  new_tick now seq existing q = record {
    symbol = q.symbol;
    timestamp = or_else q.timestamp now;
    bid = price F q.bid_price;
    ask = price F q.ask_price;
    last = last_price existing q;
    volume = 0;
    sequence = seq;
  }

  -- `_on_quote`; an error that a handler raises is caught.
  unfoldable pub on_quote : ℕ → Quote F → AlpacaDataFeed F → AlpacaDataFeed F
  on_quote now q f =
      let seq = or_else (find f.sequence q.symbol) 0 in
      let tick = new_tick now seq (find f.latest_ticks q.symbol) q in
      record f {
        sequence = store f.sequence q.symbol (seq + 1);
        latest_ticks = store f.latest_ticks q.symbol tick;
        tick_history =
            store f.tick_history q.symbol
              (push_bounded f.tick_cache_size (or_else (find f.tick_history q.symbol) []) tick);
        tick_calls = f.tick_calls ++ map (λ h. (h, tick)) f.tick_handlers;
      }

  abbrev pub bar_data : ℕ → Bar F → BarData F
  bar_data now b = record {
    symbol = b.symbol;
    timestamp = or_else b.timestamp now;
    open_price = price F b.open_price;
    high = price F b.high;
    low = price F b.low;
    close = price F b.close;
    volume = or_else b.volume 0;
    vwap = truthy F b.vwap;
  }

  -- The tick cache after a bar.
  abbrev pub with_close :
      Option (MarketTick F) → Bar F → List (ℕ × MarketTick F) → List (ℕ × MarketTick F)
  with_close none b d = d
  with_close (some existing) b d =
      store d b.symbol (record existing { last = price F b.close; volume = or_else b.volume 0 })

  -- `_on_bar`
  unfoldable pub on_bar : ℕ → Bar F → AlpacaDataFeed F → AlpacaDataFeed F
  on_bar now b f = record f {
    bar_history =
        store f.bar_history b.symbol
          (push_bounded 200 (or_else (find f.bar_history b.symbol) []) (bar_data now b));
    latest_ticks = with_close (find f.latest_ticks b.symbol) b f.latest_ticks;
    bar_calls = f.bar_calls ++ map (λ h. (h, bar_data now b)) f.bar_handlers;
  }

  -- `symbol.upper()` is a parameter.
  unfoldable pub subscribe : (ℕ → ℕ) → List ℕ → AlpacaDataFeed F → AlpacaDataFeed F
  subscribe upper [] f = f
  subscribe upper (s ∷ ss) f =
      subscribe upper ss (record f { subscribed_symbols = add f.subscribed_symbols (upper s) })

  unfoldable pub unsubscribe : (ℕ → ℕ) → List ℕ → AlpacaDataFeed F → AlpacaDataFeed F
  unsubscribe upper [] f = f
  unsubscribe upper (s ∷ ss) f =
      unsubscribe upper ss
        (record f { subscribed_symbols = discard f.subscribed_symbols (upper s) })

  unfoldable pub get_latest_tick : (ℕ → ℕ) → ℕ → AlpacaDataFeed F → Option (MarketTick F)
  get_latest_tick upper s f = find f.latest_ticks (upper s)

  unfoldable pub get_tick_history : (ℕ → ℕ) → ℕ → ℕ → AlpacaDataFeed F → List (MarketTick F)
  get_tick_history upper s n f = from_end n (or_else (find f.tick_history (upper s)) [])

  unfoldable pub get_bar_history : (ℕ → ℕ) → ℕ → ℕ → AlpacaDataFeed F → List (BarData F)
  get_bar_history upper s n f = from_end n (or_else (find f.bar_history (upper s)) [])

  unfoldable pub step : (ℕ → ℕ) → Event F → AlpacaDataFeed F → AlpacaDataFeed F
  step upper (quotes now q) f = on_quote now q f
  step upper (bars now b) f = on_bar now b f
  step upper (subscribes ss) f = subscribe upper ss f
  step upper (unsubscribes ss) f = unsubscribe upper ss f
  step upper (adds_tick_handler h) f = record f { tick_handlers = f.tick_handlers ++ h ∷ [] }
  step upper (adds_bar_handler h) f = record f { bar_handlers = f.bar_handlers ++ h ∷ [] }

  unfoldable pub run : (ℕ → ℕ) → List (Event F) → AlpacaDataFeed F → AlpacaDataFeed F
  run upper [] f = f
  run upper (e ∷ es) f = run upper es (step upper e f)
