-- ===== src/Broker/Limits.antt =====
-- What a credit line lets through: never more than its hard limit, call by call.
use nexus_trading.Base.{ℕ, ◌+◌, ◌*◌, ◌≤◌, ◌<◌, ◌≡◌, ◌↔◌, true, if◌then◌else◌, arith}
use nexus_trading.Broker.Credit.{CreditLine, is_hard_limited, consume, release}

-- The credit in use is at most the hard limit's share of the limit.
abbrev pub WithinLimit : CreditLine → Type 0
WithinLimit line = 100 * line.used_usd ≤ line.hard_limit * line.limit_usd

pub consume-WithinLimit :
    (amount : ℕ) (line : CreditLine) → WithinLimit line → WithinLimit (consume amount line).1
unfolding consume
consume-WithinLimit amount line h = ground arith

pub release-WithinLimit :
    (amount : ℕ) (line : CreditLine) → WithinLimit line → WithinLimit (release amount line)
unfolding release
release-WithinLimit amount line h = omega arith

-- A request for credit is accepted exactly if the line is below its hard limit and the
-- amount fits under it; the amount is then in use, and otherwise the line is as it was.
pub consume_iff :
    (amount : ℕ) (line : CreditLine)
    → 0 < line.limit_usd
    → let (accepted, line') = consume amount line in
      ((accepted ≡ true) ↔ (
        (100 * line.used_usd < line.hard_limit * line.limit_usd)
        × (100 * (line.used_usd + amount) ≤ line.hard_limit * line.limit_usd)))
      × (line'.used_usd ≡ (if accepted then line.used_usd + amount else line.used_usd))
unfolding consume is_hard_limited
consume_iff amount line h = ground arith
