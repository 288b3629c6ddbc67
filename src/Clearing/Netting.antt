-- ===== src/Clearing/Netting.antt =====
-- The net positions against the trades one by one.
use native.Mathlib.Decide.{ℕ_discrete}
use nexus_trading.Base.{
  ℕ, zero, suc, ◌+◌, ◌*◌, ◌≤◌, ◌≡◌, refl, sym, ap, ◌∙◌, Bool, true, false, Option, none, some, List,
  [], ◌∷◌, ℤ, pos, ◌+ℤ◌, ◌==◌, inl, inr, ==_iff, if◌then◌else◌, find, arith, Bool-cases,
}
use nexus_trading.Clearing.Engine.{
  TradeRecord, OrderSide, buy, sell, sell_short, buy_to_cover, negate, pending, init, submit_trade,
  signed, signed_qty, NetSettlement, Engine, no_trades, add_trade, post, post_all, net_positions,
  shares, magnitude, net_shares, netting_efficiency,
}

-- One symbol's trades, folded from the first to the last.
abbrev pub own : ℕ → List TradeRecord → NetSettlement → NetSettlement
own symbol [] a = a
own symbol (t ∷ ts) a = own symbol ts (if t.symbol == symbol then add_trade t a else a)

abbrev pub traded : ℕ → List TradeRecord → Bool
traded symbol [] = false
traded symbol (t ∷ ts) = if t.symbol == symbol then true else traded symbol ts

-- What the dict holds for a symbol.
abbrev pub or_no_trades : Option NetSettlement → NetSettlement
or_no_trades none = no_trades
or_no_trades (some a) = a

find-post :
    (t : TradeRecord) (acc : List (ℕ × NetSettlement)) (symbol : ℕ)
    → find (post t acc) symbol ≡ (
        if t.symbol == symbol
        then some (add_trade t (or_no_trades (find acc symbol)))
        else find acc symbol)
find-post t [] symbol = refl
find-post t ((s, a) ∷ acc) symbol =
    let again = find-post t acc symbol in
    elim (ℕ_discrete s t.symbol) [
      | yes e ↦
          let same : (s == t.symbol) ≡ true = (==_iff _ _).1 e in
          elim (ℕ_discrete s symbol) [
            | yes f ↦
                let here : (s == symbol) ≡ true = (==_iff _ _).1 f in
                let there : (t.symbol == symbol) ≡ true = (==_iff _ _).1 (sym e ∙ f) in
                rw (post, same, find, here, there) refl
            | no nf ↦
                let here : (s == symbol) ≡ false = ground arith in
                let there : (t.symbol == symbol) ≡ false = ground arith in
                rw (post, same, find, here, there) refl
          ]
      | no ne ↦
          let other : (s == t.symbol) ≡ false = ground arith in
          elim (ℕ_discrete s symbol) [
            | yes f ↦
                let here : (s == symbol) ≡ true = (==_iff _ _).1 f in
                let there : (t.symbol == symbol) ≡ false = ground arith in
                rw (post, other, find, here, there) refl
            | no nf ↦
                let here : (s == symbol) ≡ false = ground arith in
                rw (post, other, find, here) again
          ]
    ]

-- The result for one symbol, from what was held before.
abbrev pub netted_from : ℕ → List TradeRecord → Option NetSettlement → Option NetSettlement
netted_from symbol [] o = o
netted_from symbol (t ∷ ts) o =
    netted_from symbol ts (if t.symbol == symbol then some (add_trade t (or_no_trades o)) else o)

find-post_all :
    (ts : List TradeRecord) (acc : List (ℕ × NetSettlement)) (symbol : ℕ)
    → find (post_all ts acc) symbol ≡ netted_from symbol ts (find acc symbol)
find-post_all [] acc symbol = refl
find-post_all (t ∷ ts) acc symbol =
    find-post_all ts (post t acc) symbol ∙ ap (netted_from symbol ts) (find-post t acc symbol)

netted_some :
    (symbol : ℕ) (ts : List TradeRecord) (a : NetSettlement)
    → netted_from symbol ts (some a) ≡ some (own symbol ts a)
netted_some symbol [] a = refl
netted_some symbol (t ∷ ts) a = elim (Bool-cases (t.symbol == symbol)) [
  | inl same ↦ rw (netted_from, same, own) (netted_some symbol ts (add_trade t a))
  | inr other ↦ rw (netted_from, other, own) (netted_some symbol ts a)
]

netted_none :
    (symbol : ℕ) (ts : List TradeRecord)
    → netted_from symbol ts none
      ≡ (if traded symbol ts then some (own symbol ts no_trades) else none)
netted_none symbol [] = refl
netted_none symbol (t ∷ ts) = elim (Bool-cases (t.symbol == symbol)) [
  | inl same ↦ rw (netted_from, same, traded, own) (netted_some symbol ts (add_trade t no_trades))
  | inr other ↦ rw (netted_from, other, traded, own) (netted_none symbol ts)
]

pub net_positions-own :
    (e : Engine) (symbol : ℕ)
    → find (net_positions e) symbol
      ≡ (if traded symbol e.trades then some (own symbol e.trades no_trades) else none)
unfolding net_positions
net_positions-own e symbol = find-post_all e.trades [] symbol ∙ netted_none symbol e.trades

magnitude-+ℤ : (x y : ℤ) → magnitude (x +ℤ y) ≤ magnitude x + magnitude y
unfolding ◌+ℤ◌
magnitude-+ℤ x y = ground arith

magnitude-negate : (qty : ℕ) → magnitude (negate qty) ≡ qty
magnitude-negate zero = refl
magnitude-negate (suc n) = refl

magnitude-signed : (side : OrderSide) (qty : ℕ) → magnitude (signed side qty) ≡ qty
magnitude-signed buy qty = refl
magnitude-signed sell qty = magnitude-negate qty
magnitude-signed sell_short qty = magnitude-negate qty
magnitude-signed buy_to_cover qty = magnitude-negate qty

magnitude_add : (t : TradeRecord) (x : ℤ) → magnitude (x +ℤ signed_qty t) ≤ magnitude x + t.qty
magnitude_add t x = omega (arith, magnitude-+ℤ x (signed_qty t), magnitude-signed t.side t.qty)

net_shares-post :
    (t : TradeRecord) (acc : List (ℕ × NetSettlement))
    → net_shares (post t acc) ≤ net_shares acc + t.qty
net_shares-post t [] = omega (arith, magnitude_add t (pos 0))
net_shares-post t ((s, a) ∷ acc) = elim (Bool-cases (s == t.symbol)) [
  | inl same ↦ rw (post, same) (omega (arith, magnitude_add t a.net_qty))
  | inr other ↦ rw (post, other) (omega (arith, net_shares-post t acc))
]

net_shares-post_all :
    (ts : List TradeRecord) (acc : List (ℕ × NetSettlement))
    → net_shares (post_all ts acc) ≤ net_shares acc + shares ts
net_shares-post_all [] acc = omega arith
net_shares-post_all (t ∷ ts) acc =
    omega (arith, net_shares-post_all ts (post t acc), net_shares-post t acc)

-- For any trades, the shares that are left to settle after the netting, over all symbols, are at
-- most the shares that were traded: the netting efficiency is between 0 and 1.
pub efficiency_le : (e : Engine) → (netting_efficiency e).0 ≤ (netting_efficiency e).1
unfolding netting_efficiency net_positions
efficiency_le e = omega (arith, net_shares-post_all e.trades [])

abbrev pub trade_of : ℕ → OrderSide → ℕ → ℕ → TradeRecord
trade_of symbol side qty price = record {
  symbol = symbol;
  side = side;
  qty = qty;
  price = price;
  status = pending;
}

negate_twice : (q : ℕ) → pos 0 +ℤ negate q +ℤ negate q ≡ negate (q + q)
unfolding ◌+ℤ◌
negate_twice zero = refl
negate_twice (suc q) = ground arith

abbrev pub two_trades : ℤ → ℕ → ℕ → NetSettlement
two_trades net cost shares = record {
  net_qty = net;
  cost = cost;
  gross_trades = 2;
  gross_shares = shares;
}

two_trades_eq :
    {x y : ℤ} {c d g h : ℕ} → x ≡ y → c ≡ d → g ≡ h → two_trades x c g ≡ two_trades y d h
two_trades_eq e f g = cc

-- A short sale that is bought back in full on the same day is netted to twice its size to deliver,
-- not to nothing: a buy to cover counts as a sale.
pub cover_doubles_short :
    (symbol qty price back : ℕ)
    → let e =
        (submit_trade
          (trade_of symbol buy_to_cover qty back)
          (submit_trade (trade_of symbol sell_short qty price) init).1).1 in
      find (net_positions e) symbol
      ≡ some (two_trades (negate (qty + qty)) (qty * price + qty * back) (qty + qty))
unfolding submit_trade init
cover_doubles_short symbol qty price back =
    let e =
      (submit_trade (trade_of symbol buy_to_cover qty back)
        (submit_trade (trade_of symbol sell_short qty price) init).1).1 in
    let same : (symbol == symbol) ≡ true = (==_iff _ _).1 refl in
    net_positions-own e symbol
    ∙ rw (traded, same, own)
        (ap some (two_trades_eq (negate_twice qty) (omega arith) (omega arith)))
