-- ===== src/Clearing/Engine.antt =====
-- TradeRecord, NetSettlement and DTCCClearingEngine, without the fields of a trade that the engine
-- does not read (id, venue, time). A symbol is the number of its text; prices are
-- whole numbers of a smallest unit, and an average price stays a pair of cost and shares.
use nexus_trading.Base.{
  ℕ, zero, suc, ◌+◌, ◌*◌, List, [], ◌∷◌, ◌++◌, ℤ, pos, negsuc, ◌+ℤ◌, ltb_ℤ, ◌==◌, if◌then◌else◌,
  length,
}

pub data OrderSide : Type 0 where
  buy sell sell_short buy_to_cover : OrderSide

pub data SettlementStatus : Type 0 where
  pending netted settled : SettlementStatus

pub record TradeRecord : Type 0 where
  pub symbol : ℕ
  pub side : OrderSide
  pub qty : ℕ
  pub price : ℕ
  pub status : SettlementStatus

abbrev pub negate : ℕ → ℤ
negate zero = pos 0
negate (suc n) = negsuc n

-- Every side but BUY counts as negative.
abbrev pub signed : OrderSide → ℕ → ℤ
signed buy qty = pos qty
signed _ qty = negate qty

abbrev pub signed_qty : TradeRecord → ℤ
signed_qty t = signed t.side t.qty

-- `avg_price` is cost / shares where there are shares, else 0.
pub record NetSettlement : Type 0 where
  pub net_qty : ℤ
  pub cost : ℕ
  pub gross_trades : ℕ
  pub gross_shares : ℕ

pub data Settlement : Type 0 where
  receive deliver : Settlement

unfoldable pub settlement_side : NetSettlement → Settlement
settlement_side s = if ltb_ℤ (pos 0) s.net_qty then receive else deliver

pub record Engine : Type 0 where
  pub trades : List TradeRecord
  pub settled_count : ℕ

unfoldable pub init : Engine
init = record { trades = []; settled_count = 0 }

-- The clearing id is CLR- and this number.
unfoldable pub submit_trade : TradeRecord → Engine → ℕ × Engine
submit_trade t e = (length e.trades, record e { trades = e.trades ++ t ∷ [] })

abbrev pub no_trades : NetSettlement
no_trades = record { net_qty = pos 0; cost = 0; gross_trades = 0; gross_shares = 0 }

abbrev pub add_trade : TradeRecord → NetSettlement → NetSettlement
add_trade t a = record {
  net_qty = a.net_qty +ℤ signed_qty t;
  cost = a.cost + t.qty * t.price;
  gross_trades = a.gross_trades + 1;
  gross_shares = a.gross_shares + t.qty;
}

-- The body of the loop of `net_positions`, on the dict in insertion order.
abbrev pub post : TradeRecord → List (ℕ × NetSettlement) → List (ℕ × NetSettlement)
post t [] = (t.symbol, add_trade t no_trades) ∷ []
post t ((symbol, a) ∷ rest) =
    if symbol == t.symbol then (symbol, add_trade t a) ∷ rest else (symbol, a) ∷ post t rest

abbrev pub post_all : List TradeRecord → List (ℕ × NetSettlement) → List (ℕ × NetSettlement)
post_all [] acc = acc
post_all (t ∷ ts) acc = post_all ts (post t acc)

unfoldable pub net_positions : Engine → List (ℕ × NetSettlement)
net_positions e = post_all e.trades []

abbrev pub shares : List TradeRecord → ℕ
shares [] = 0
shares (t ∷ ts) = t.qty + shares ts

-- abs
abbrev pub magnitude : ℤ → ℕ
magnitude (pos n) = n
magnitude (negsuc n) = suc n

abbrev pub net_shares : List (ℕ × NetSettlement) → ℕ
net_shares [] = 0
net_shares ((symbol, a) ∷ rest) = magnitude a.net_qty + net_shares rest

-- `netting_efficiency`, as the two numbers that it divides.
unfoldable pub netting_efficiency : Engine → ℕ × ℕ
unfolding net_positions
netting_efficiency e = (net_shares (net_positions e), shares e.trades)

unfoldable pub daily_reset : Engine → Engine
daily_reset e = record { trades = []; settled_count = e.settled_count + length e.trades }
