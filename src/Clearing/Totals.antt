-- ===== src/Clearing/Totals.antt =====
-- The net positions in plain sums.
use nexus_trading.Base.{
  ℕ, zero, suc, ◌+◌, ◌*◌, ◌≡◌, ap, ◌∙◌, none, some, List, [], ◌∷◌, sub_ℕ, ◌+ℤ◌, ◌==◌, inl, inr,
  if◌then◌else◌, find, arith, Bool-cases,
}
use nexus_trading.Clearing.Engine.{
  TradeRecord, OrderSide, buy, sell, sell_short, buy_to_cover, negate, signed, NetSettlement,
  Engine, net_positions,
}
use nexus_trading.Clearing.Netting.{own, traded, net_positions-own}

-- The shares that come in by a trade of a side, and those that go out: only a purchase that is not a
-- cover brings shares in.
abbrev pub bought_by : OrderSide → ℕ → ℕ
bought_by buy qty = qty
bought_by sell qty = 0
bought_by sell_short qty = 0
bought_by buy_to_cover qty = 0

abbrev pub sold_by : OrderSide → ℕ → ℕ
sold_by buy qty = 0
sold_by sell qty = qty
sold_by sell_short qty = qty
sold_by buy_to_cover qty = qty

-- The sum of an amount over the trades of one symbol.
abbrev pub total : (TradeRecord → ℕ) → ℕ → List TradeRecord → ℕ
total amount symbol [] = 0
total amount symbol (t ∷ ts) = (if t.symbol == symbol then amount t else 0) + total amount symbol ts

abbrev pub bought : TradeRecord → ℕ
bought t = bought_by t.side t.qty

abbrev pub sold : TradeRecord → ℕ
sold t = sold_by t.side t.qty

abbrev pub worth : TradeRecord → ℕ
worth t = t.qty * t.price

abbrev pub one : TradeRecord → ℕ
one t = 1

abbrev pub quantity : TradeRecord → ℕ
quantity t = t.qty

abbrev settlement : ℕ → ℕ → ℕ → ℕ → ℕ → NetSettlement
settlement incoming outgoing cost trades shares = record {
  net_qty = sub_ℕ incoming outgoing;
  cost = cost;
  gross_trades = trades;
  gross_shares = shares;
}

settlement_eq :
    {a a' b b' c c' d d' e e' : ℕ}
    → a ≡ a'
    → b ≡ b'
    → c ≡ c'
    → d ≡ d'
    → e ≡ e'
    → settlement a b c d e ≡ settlement a' b' c' d' e'
settlement_eq p q r s t = cc

sub_buy : (a b q : ℕ) → sub_ℕ a b +ℤ signed buy q ≡ sub_ℕ (a + q) b
unfolding ◌+ℤ◌
sub_buy a b q = ground arith

sub_negate : (a b q : ℕ) → sub_ℕ a b +ℤ negate q ≡ sub_ℕ a (b + q)
unfolding ◌+ℤ◌
sub_negate a b zero = ground arith
sub_negate a b (suc q) = ground arith

-- What a trade adds to a settlement.
sub_signed :
    (a b : ℕ) (side : OrderSide) (q : ℕ)
    → sub_ℕ a b +ℤ signed side q ≡ sub_ℕ (a + bought_by side q) (b + sold_by side q)
sub_signed a b buy q = sub_buy a b q ∙ ap (λ n. sub_ℕ (a + q) n) (omega arith)
sub_signed a b sell q = sub_negate a b q ∙ ap (λ n. sub_ℕ n (b + q)) (omega arith)
sub_signed a b sell_short q = sub_negate a b q ∙ ap (λ n. sub_ℕ n (b + q)) (omega arith)
sub_signed a b buy_to_cover q = sub_negate a b q ∙ ap (λ n. sub_ℕ n (b + q)) (omega arith)

own-total :
    (symbol : ℕ) (ts : List TradeRecord) (a b c d e : ℕ)
    → own symbol ts (settlement a b c d e)
      ≡ settlement
          (a + total bought symbol ts)
          (b + total sold symbol ts)
          (c + total worth symbol ts)
          (d + total one symbol ts)
          (e + total quantity symbol ts)
own-total symbol [] a b c d e =
    settlement_eq (omega arith) (omega arith) (omega arith) (omega arith) (omega arith)
own-total symbol (t ∷ ts) a b c d e = elim (Bool-cases (t.symbol == symbol)) [
  | inl same ↦
      rw (same, sub_signed a b t.side t.qty)
        (own-total symbol ts (a + bought t) (b + sold t) (c + worth t) (d + 1) (e + t.qty)
          ∙ settlement_eq (omega arith) (omega arith) (omega arith) (omega arith) (omega arith))
  | inr other ↦ rw other (
      own-total symbol ts a b c d e
      ∙ settlement_eq (omega arith) (omega arith) (omega arith) (omega arith) (omega arith))
]

-- With prices in whole numbers of a unit, the netting has one settlement for each symbol that was
-- traded and none for any other. For a traded symbol its net quantity is the sum of the quantities of
-- its purchases less that of its sales, short sales and covers; its cost is the sum of quantity times
-- price over all its trades; and it counts these trades and their shares, whatever trades of other
-- symbols lie between them.
pub net_positions_lem :
    (e : Engine) (symbol : ℕ)
    → find (net_positions e) symbol ≡ (
        if traded symbol e.trades
        then some (record {
          net_qty = sub_ℕ (total bought symbol e.trades) (total sold symbol e.trades);
          cost = total worth symbol e.trades;
          gross_trades = total one symbol e.trades;
          gross_shares = total quantity symbol e.trades;
        })
        else none)
net_positions_lem e symbol =
    net_positions-own e symbol
    ∙ ap (λ s. if traded symbol e.trades then some s else none)
        (own-total symbol e.trades 0 0 0 0 0
          ∙ settlement_eq (omega arith) (omega arith) (omega arith) (omega arith) (omega arith))
