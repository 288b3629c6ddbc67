-- ===== src/KillSwitch/Order.antt =====
-- The order of the states over any interleaving of requests and flatten tasks.
use nexus_trading.Base.{
  ℕ, ◌≡◌, refl, ◌≢◌, inl, inr, Bool, true, false, some, List, [], ◌∷◌, String, Option-cases,
  get_elem?, is_some, arith, ok,
}
use nexus_trading.KillSwitch.State.{
  KillSwitch, KillSwitchState, armed, triggered, acknowledged, restarting, Phase, cancelling,
  closing, finishing, recording, init, http_status, status_of,
}
use nexus_trading.KillSwitch.Mfa.{Digest, validate_mfa}
use nexus_trading.KillSwitch.Handlers.{Env, trigger}
use nexus_trading.KillSwitch.Flatten.{BrokerResult, count, fails, advance, segment, reschedule}
use nexus_trading.KillSwitch.Steps.{
  Request, triggers, retries, acknowledges, restarts, Event, requests, advances, handle, step, run,
}

-- What each state says about the other fields, as tests on a state: a switch that has fired has a
-- trigger id, one whose flatten has ended has the time of it, and so on.
abbrev fired : KillSwitchState → Bool
fired armed = false
fired _ = true

abbrev past_flatten : KillSwitchState → Bool
past_flatten armed = false
past_flatten triggered = false
past_flatten _ = true

pub record IsValid (k : KillSwitch) : Type 0 where
  pub identified : is_some k.trigger_id ≡ fired k.state
  pub attributed : is_some k.triggered_by ≡ fired k.state
  pub quiet : k.state ≡ armed → k.tasks ≡ []
  pub completed : past_flatten k.state ≡ true → is_some k.flatten_completed_at ≡ true
  pub confirmed : k.state ≡ acknowledged → is_some k.acknowledged_by ≡ true
  pub requested : k.state ≡ restarting → is_some k.restart_requested_by ≡ true

-- A task is there only after a trigger.
busy :
    (i : ℕ) (p : Phase) (k : KillSwitch)
    → IsValid k
    → get_elem? k.tasks i ≡ some p
    → k.state ≢ armed
busy i p k v g a = let h = rw (v.quiet a) at g in cc

segment-IsValid :
    (i now : ℕ) (p : Phase) (r : BrokerResult) (k : KillSwitch)
    → IsValid k
    → k.state ≢ armed
    → IsValid (reschedule i (segment p now r k))
unfolding segment
segment-IsValid i now cancelling (count n) k v b = ground arith
segment-IsValid i now cancelling _ k v b = ground arith
segment-IsValid i now closing (count n) k v b = ground arith
segment-IsValid i now closing _ k v b = ground arith
segment-IsValid i now finishing r k v b = ground arith
segment-IsValid i now recording (fails e) k v b = ground arith
segment-IsValid i now recording _ k v b = ground arith

module _ (digest : Digest) (secret : String) where
  handle-IsValid :
      (e : Env) (q : Request) (k : KillSwitch) → IsValid k → IsValid (handle digest secret e q k).1
  unfolding handle
  handle-IsValid e (triggers w t r) k v = ground arith
  handle-IsValid e (retries w t) k v = ground arith
  handle-IsValid e (acknowledges w t) k v = ground arith
  handle-IsValid e (restarts w t) k v = ground arith

  advance-IsValid :
      (i now : ℕ) (r : BrokerResult) (k : KillSwitch) → IsValid k → IsValid (advance i now r k)
  unfolding advance
  advance-IsValid i now r k v = elim (Option-cases (get_elem? k.tasks i)) [
    | inl e ↦ rw (e, advance) v
    | inr (p, e) ↦ rw (e, advance) (segment-IsValid i now p r k v (busy i p k v e))
  ]

  step-IsValid : (v : Event) (k : KillSwitch) → IsValid k → IsValid (step digest secret v k)
  unfolding step
  step-IsValid (requests e q) k v = handle-IsValid e q k v
  step-IsValid (advances i now r) k v = advance-IsValid i now r k v

  run-IsValid : (vs : List Event) (k : KillSwitch) → IsValid k → IsValid (run digest secret vs k)
  unfolding run
  run-IsValid [] k v = v
  run-IsValid (x ∷ xs) k v = run-IsValid xs (step digest secret x k) (step-IsValid x k v)

  -- In every state that requests and flatten tasks can reach from the start, in any order: the
  -- switch has a trigger id and an initiator exactly when it has fired; no flatten task exists
  -- before; and the completion time, the acknowledging operator and the operator who asked for the
  -- restart are on record in the states that come after them.
  pub run-init-IsValid : (vs : List Event) → IsValid (run digest secret vs init)
  unfolding init
  run-init-IsValid vs = run-IsValid vs init (record {
    identified = refl;
    attributed = refl;
    quiet = λ a. refl;
    completed = λ a. cc;
    confirmed = λ a. cc;
    requested = λ a. cc;
  })

  step-fired :
      (x : Event) (k : KillSwitch) → k.state ≢ armed → (step digest secret x k).state ≢ armed
  unfolding step handle advance segment
  step-fired (requests e (triggers w t r)) k h = ground arith
  step-fired (requests e (retries w t)) k h = ground arith
  step-fired (requests e (acknowledges w t)) k h = ground arith
  step-fired (requests e (restarts w t)) k h = ground arith
  step-fired (advances i now (count n)) k h = ground arith
  step-fired (advances i now (fails e)) k h = ground arith
  step-fired (advances i now _) k h = ground arith

  run-fired :
      (xs : List Event) (k : KillSwitch) → k.state ≢ armed → (run digest secret xs k).state ≢ armed
  unfolding run
  run-fired [] k h = h
  run-fired (x ∷ xs) k h = run-fired xs (step digest secret x k) (step-fired x k h)

  -- A kill switch that has fired is never armed again, whatever requests and tasks follow, a
  -- completed restart request among them. A later trigger with a valid token therefore changes
  -- nothing and starts no flatten: it returns the status, which the server answers with 403.
  pub fires_once :
      (xs : List Event) (e : Env) (w t r : String) (k : KillSwitch)
      → k.state ≢ armed
      → validate_mfa digest secret e.now t w ≡ ok true
      → let k' = run digest secret xs k in
        (trigger digest secret e w t r k' ≡ (status_of k', k'))
        × (http_status (trigger digest secret e w t r k').0 ≡ 403)
  unfolding trigger http_status
  fires_once xs e w t r k h valid = ground (arith, run-fired xs k h)
