-- ===== src/Broker/Credit.antt =====
-- class CreditLine. Amounts are whole numbers of the smallest unit and not negative; the two
-- thresholds are percentages. Rounding of floats is left out.
use nexus_trading.Base.{ℕ, ◌+◌, ◌-◌, ◌*◌, Bool, true, false, ltb, leb, if◌then◌else◌}

pub data PrimeBroker : Type 0 where
  goldman_sachs morgan_stanley jp_morgan interactive_brokers alpaca : PrimeBroker

abbrev pub value : PrimeBroker → ℕ
value goldman_sachs = 0
value morgan_stanley = 1
value jp_morgan = 2
value interactive_brokers = 3
value alpaca = 4

pub record CreditLine : Type 0 where
  pub limit_usd : ℕ
  pub used_usd : ℕ
  pub warning_threshold : ℕ
  pub hard_limit : ℕ

unfoldable pub init : ℕ → CreditLine
init limit = record { limit_usd = limit; used_usd = 0; warning_threshold = 80; hard_limit = 95 }

-- `available_usd >= amount`; `available_usd` itself may be negative.
unfoldable pub has_available : ℕ → CreditLine → Bool
has_available amount line = leb (amount + line.used_usd) line.limit_usd

-- `utilisation >= percent / 100`, with a utilisation of 0 where there is no limit.
abbrev pub is_used_to : ℕ → CreditLine → Bool
is_used_to percent line =
    if ltb 0 line.limit_usd
    then leb (percent * line.limit_usd) (100 * line.used_usd)
    else leb percent 0

unfoldable pub is_warning : CreditLine → Bool
is_warning line = is_used_to line.warning_threshold line

unfoldable pub is_hard_limited : CreditLine → Bool
is_hard_limited line = is_used_to line.hard_limit line

unfoldable pub consume : ℕ → CreditLine → Bool × CreditLine
unfolding is_hard_limited
consume amount line =
    if is_hard_limited line
    then (false, line)
    else if ltb (line.hard_limit * line.limit_usd) (100 * (line.used_usd + amount))
    then (false, line)
    else (true, record line { used_usd = line.used_usd + amount })

-- `max(0.0, used_usd - amount_usd)`
unfoldable pub release : ℕ → CreditLine → CreditLine
release amount line = record line { used_usd = line.used_usd - amount }
