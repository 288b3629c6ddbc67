-- ===== src/Broker/Router.antt =====
-- class PrimeBrokerRouter: the choice of a broker for an order, and the credit it takes.
use nexus_trading.Base.{
  ℕ, Bool, false, ◌&&◌, not, Option, none, some, List, [], ◌∷◌, ◌==◌, if◌then◌else◌,
}
use nexus_trading.Broker.Credit.{
  PrimeBroker, value, CreditLine, has_available, is_hard_limited, consume, release,
}

-- The dict of credit lines, in insertion order, by the brokers' numbers.
pub record Router : Type 0 where
  pub credit_lines : List (PrimeBroker × CreditLine)
  pub preferred : PrimeBroker

abbrev pub line_of : List (PrimeBroker × CreditLine) → PrimeBroker → Option CreditLine
line_of [] b = none
line_of ((k, line) ∷ rest) b = if value k == value b then some line else line_of rest b

abbrev pub replace_line :
    List (PrimeBroker × CreditLine) → PrimeBroker → CreditLine → List (PrimeBroker × CreditLine)
replace_line [] b new = []
replace_line ((k, line) ∷ rest) b new =
    if value k == value b then (k, new) ∷ rest else (k, line) ∷ replace_line rest b new

unfoldable pub has_capacity : ℕ → CreditLine → Bool
has_capacity notional line = not (is_hard_limited line) && has_available notional line

abbrev pub can_take : ℕ → List (PrimeBroker × CreditLine) → PrimeBroker → Bool
can_take notional lines b = elim (line_of lines b) [
  | none ↦ false
  | some line ↦ has_capacity notional line
]

abbrev pub first_with_capacity : ℕ → List (PrimeBroker × CreditLine) → Option PrimeBroker
first_with_capacity notional [] = none
first_with_capacity notional ((k, line) ∷ rest) =
    if has_capacity notional line then some k else first_with_capacity notional rest

unfoldable pub select_broker : ℕ → Option PrimeBroker → Router → Option PrimeBroker
select_broker notional wanted r =
    let candidate = elim wanted as (λ _. PrimeBroker) [ none ↦ r.preferred | some b ↦ b ] in
    if can_take notional r.credit_lines candidate
    then some candidate
    else if can_take notional r.credit_lines r.preferred
    then some r.preferred
    else first_with_capacity notional r.credit_lines

unfoldable pub consume_credit : PrimeBroker → ℕ → Router → Bool × Router
consume_credit b notional r = elim (line_of r.credit_lines b) [
  | none ↦ (false, r)
  | some line ↦
      let (accepted, line') = consume notional line in
      (accepted, record r { credit_lines = replace_line r.credit_lines b line' })
]

unfoldable pub release_credit : PrimeBroker → ℕ → Router → Router
release_credit b notional r = elim (line_of r.credit_lines b) [
  | none ↦ r
  | some line ↦ record r { credit_lines = replace_line r.credit_lines b (release notional line) }
]
