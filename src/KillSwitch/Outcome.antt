-- ===== src/KillSwitch/Outcome.antt =====
-- What a flatten task leaves behind, whatever the broker does, and a task that ends late.
use nexus_trading.Base.{
  ℕ, ◌≡◌, refl, ◌⊎◌, true, some, List, [], ◌∷◌, ◌++◌, String, get_elem?, arith, ok,
}
use nexus_trading.KillSwitch.State.{
  KillSwitch, flattened, acknowledged, restarting, FlattenError, cancel_timed_out, close_timed_out,
  cancel_error, close_error, Phase, finishing, restart_not_valid,
}
use nexus_trading.KillSwitch.Mfa.{Digest, validate_mfa}
use nexus_trading.KillSwitch.Handlers.{Env, restart_request}
use nexus_trading.KillSwitch.Flatten.{
  BrokerResult, count, other_value, timed_out, fails, segment, reschedule, advance,
}

-- The errors that the two calls of the broker leave.
abbrev pub cancel_errors : BrokerResult → List FlattenError
cancel_errors (count _) = []
cancel_errors other_value = []
cancel_errors timed_out = cancel_timed_out ∷ []
cancel_errors (fails e) = cancel_error e ∷ []

abbrev pub close_errors : BrokerResult → List FlattenError
close_errors (count _) = []
close_errors other_value = []
close_errors timed_out = close_timed_out ∷ []
close_errors (fails e) = close_error e ∷ []

-- The reported number after a call: a failed call leaves the old one.
abbrev pub reported : BrokerResult → ℕ → ℕ
reported (count n) old = n
reported other_value old = 0
reported timed_out old = old
reported (fails e) old = old

abbrev after_cancel : BrokerResult → KillSwitch → KillSwitch
after_cancel c k = record k {
  orders_cancelled = reported c k.orders_cancelled;
  flatten_errors = k.flatten_errors ++ cancel_errors c;
}

abbrev after_close : BrokerResult → KillSwitch → KillSwitch
after_close p k = record k {
  positions_closed = reported p k.positions_closed;
  flatten_errors = k.flatten_errors ++ close_errors p;
}

module _ (i : ℕ) where
  advance-segment :
      (now : ℕ) (r : BrokerResult) (p : Phase) (k : KillSwitch)
      → get_elem? k.tasks i ≡ some p
      → advance i now r k ≡ reschedule i (segment p now r k)
  unfolding advance
  advance-segment now r p k g = rw (g, advance)

  -- The switch after the task at place `i` has run from its start to its end, its segments at
  -- these times, and nothing in between.
  abbrev pub finish : ℕ → BrokerResult → ℕ → BrokerResult → ℕ → ℕ → KillSwitch → KillSwitch
  finish t1 c t2 p t3 t4 k =
      advance i t4 other_value (advance i t3 other_value (advance i t2 p (advance i t1 c k)))

-- A flatten task that ends after the operator has acknowledged, or has asked for the restart,
-- puts the switch back to `flattened`, and the next restart request is refused until somebody
-- acknowledges again.
pub late_flatten_reverts :
    (digest : Digest) (secret : String) (e : Env) (w t : String) (i now : ℕ) (r : BrokerResult)
    (k : KillSwitch)
    → get_elem? k.tasks i ≡ some finishing
    → (k.state ≡ acknowledged) ⊎ (k.state ≡ restarting)
    → validate_mfa digest secret e.now t w ≡ ok true
    → let k' = advance i now r k in
      (k'.state ≡ flattened)
      × (restart_request digest secret e w t k' ≡ (restart_not_valid flattened, k'))
unfolding segment restart_request
late_flatten_reverts digest secret e w t i now r k g s valid =
    rw (advance-segment i now r finishing k g) (refl, ground arith)
