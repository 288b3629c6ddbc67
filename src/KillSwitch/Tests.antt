-- ===== src/KillSwitch/Tests.antt =====
-- The kill switch at concrete inputs, with a digest that spells the initiator and the window.
use nexus_trading.Base.{ok, ◌≡◌, refl, ◌⊎◌, inl, ◌↔◌, true, false, none, some, List, [], ◌∷◌}
use nexus_trading.KillSwitch.State.{
  KillSwitch, flattened, acknowledged, restarting, init, mfa_failed, status_of, http_status,
  restart_not_valid,
}
use nexus_trading.KillSwitch.Mfa.{Digest, window, minus_one, validate_mfa}
use nexus_trading.KillSwitch.Handlers.{Env, trigger, restart_request}
use nexus_trading.KillSwitch.Flatten.{count, timed_out, other_value, advance}
use nexus_trading.KillSwitch.Steps.{
  Request, triggers, retries, acknowledges, restarts, Event, requests, advances, handle, run,
}
use nexus_trading.KillSwitch.Access.{is_restart, handle_unauthorised, restart_iff}
use nexus_trading.KillSwitch.Order.{IsValid, run-init-IsValid, fires_once}
use nexus_trading.KillSwitch.Outcome.{late_flatten_reverts}

-- The initiator is the token, in even windows.
abbrev toy_digest : Digest
toy_digest secret initiator (window n) = initiator
toy_digest secret initiator minus_one = "none"

abbrev env : Env
env = record { now = 3000; uuid = 77; bus_error = none; audit_error = none }

abbrev stop_now : Request
stop_now = triggers "ops" "ops" "test"

-- The audit log is down.
abbrev no_log : Env
no_log = record env { audit_error = some "disk full" }

-- A retry while the first flatten runs, an acknowledgment, a restart, and the second flatten's end.
abbrev history : List Event
history =
    requests env stop_now
    ∷ requests env (retries "ops" "ops")
    ∷ advances 0 3001 (count 2)
    ∷ advances 0 3002 timed_out
    ∷ advances 0 3003 other_value
    ∷ requests env (acknowledges "ops" "ops")
    ∷ advances 1 3004 (count 0)
    ∷ advances 1 3005 (count 0)
    ∷ []

abbrev confirmed : KillSwitch
unfolding run init validate_mfa
confirmed = run toy_digest "key" history init

confirmed_state : confirmed.state ≡ acknowledged
unfolding run init validate_mfa
confirmed_state = refl

handle_unauthorised_example :
    let (r, k') = handle toy_digest "key" env (restarts "ops" "guess") init in
    (k' ≡ init)
    × (((true ≡ true) × (r ≡ mfa_failed) × (http_status r ≡ 403))
        ⊎ ((true ≡ false) × (http_status r ≡ 500)))
unfolding validate_mfa
handle_unauthorised_example =
    handle_unauthorised toy_digest "key" env (restarts "ops" "guess") init (λ h. cc)

restart_iff_example :
    ((handle toy_digest "key" env (restarts "ops" "ops") confirmed).1.state ≡ restarting) ↔ (
      (confirmed.state ≡ acknowledged)
      × (validate_mfa toy_digest "key" 3000 "ops" "ops" ≡ ok true)
      × (is_restart (restarts "ops" "ops") ≡ true))
unfolding run init validate_mfa
restart_iff_example = restart_iff toy_digest "key" env (restarts "ops" "ops") confirmed (λ h. cc)

run-init-IsValid_example : IsValid (run toy_digest "key" history init)
run-init-IsValid_example = run-init-IsValid toy_digest "key" history

fires_once_case :
    let k' = run toy_digest "key" (requests env (retries "ops" "ops") ∷ []) confirmed in
    (trigger toy_digest "key" env "ops" "ops" "again" k' ≡ (status_of k', k'))
    × (http_status (trigger toy_digest "key" env "ops" "ops" "again" k').0 ≡ 403)
unfolding run init validate_mfa
fires_once_case =
    fires_once toy_digest "key" (requests env (retries "ops" "ops") ∷ []) env "ops" "ops" "again"
      confirmed (λ h. cc) refl

abbrev fired : KillSwitch
unfolding run init validate_mfa
fired = run toy_digest "key" (requests env stop_now ∷ []) init

late_flatten_reverts_case :
    let k' = advance 1 3006 other_value confirmed in
    (k'.state ≡ flattened)
    × (restart_request toy_digest "key" env "ops" "ops" k' ≡ (restart_not_valid flattened, k'))
unfolding run init validate_mfa
late_flatten_reverts_case =
    late_flatten_reverts toy_digest "key" env "ops" "ops" 1 3006 other_value confirmed refl
      (inl refl) refl
