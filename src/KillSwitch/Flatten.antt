-- ===== src/KillSwitch/Flatten.antt =====
-- KillSwitch._execute_flatten, cut at its awaits: cancel the orders, close the positions, set the
-- state under the lock, write the audit event.
use nexus_trading.Base.{
  ℕ, zero, suc, Option, none, some, List, [], ◌∷◌, ◌++◌, String, get_elem?, set,
}
use nexus_trading.KillSwitch.State.{
  KillSwitch, flattened, cancel_timed_out, close_timed_out, cancel_error, close_error,
  switch_flattened, Phase, cancelling, closing, finishing, recording,
}

-- How an awaited call of the broker ends: with an int, with another value, by the timeout of
-- `asyncio.wait_for`, or by an exception.
pub data BrokerResult : Type 0 where
  count : ℕ → BrokerResult
  other_value timed_out : BrokerResult
  fails : String → BrokerResult

abbrev pub cancelled : BrokerResult → KillSwitch → KillSwitch
cancelled (count n) k = record k { orders_cancelled = n }
cancelled other_value k = record k { orders_cancelled = 0 }
cancelled timed_out k = record k { flatten_errors = k.flatten_errors ++ cancel_timed_out ∷ [] }
cancelled (fails e) k = record k { flatten_errors = k.flatten_errors ++ cancel_error e ∷ [] }

abbrev pub closed : BrokerResult → KillSwitch → KillSwitch
closed (count n) k = record k { positions_closed = n }
closed other_value k = record k { positions_closed = 0 }
closed timed_out k = record k { flatten_errors = k.flatten_errors ++ close_timed_out ∷ [] }
closed (fails e) k = record k { flatten_errors = k.flatten_errors ++ close_error e ∷ [] }

-- One segment of a task, given how the call that it awaits ends: the phase that follows, if the
-- task goes on, and the switch. Where the audit log fails, the task ends without its event.
unfoldable pub segment : Phase → ℕ → BrokerResult → KillSwitch → Option Phase × KillSwitch
segment cancelling now r k = (some closing, cancelled r k)
segment closing now r k = (some finishing, closed r k)
segment finishing now r k =
    (some recording, record k { flatten_completed_at = some now; state = flattened })
segment recording now (fails e) k = (none, k)
segment recording now _ k = (
  none,
  record k {
    audit =
        k.audit
        ++ switch_flattened k.trigger_id k.orders_cancelled k.positions_closed k.flatten_errors
          ∷ [];
  },
)

abbrev pub remove_at : ℕ → List Phase → List Phase
remove_at i [] = []
remove_at zero (p ∷ ps) = ps
remove_at (suc i) (p ∷ ps) = p ∷ remove_at i ps

abbrev pub reschedule : ℕ → Option Phase × KillSwitch → KillSwitch
reschedule i (none, k) = record k { tasks = remove_at i k.tasks }
reschedule i (some p, k) = record k { tasks = set k.tasks i p }

-- The event loop lets the task at place `i` run up to its next await.
unfoldable pub advance : ℕ → ℕ → BrokerResult → KillSwitch → KillSwitch
unfolding segment
advance i now r k = elim (get_elem? k.tasks i) [
  | none ↦ k
  | some p ↦ reschedule i (segment p now r k)
]
