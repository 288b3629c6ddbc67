-- ===== src/KillSwitch/Access.antt =====
-- Who may do what: the token test and the state tests of the handlers.
use nexus_trading.Base.{
  ℕ, ◌/◌, ◌≡◌, refl, ◌≢◌, ◌⊎◌, inl, inr, ◌↔◌, Bool, true, false, ◌||◌, [], ◌∷◌, String, Bool-cases,
  ok, err, List, arith,
}
use nexus_trading.KillSwitch.State.{
  KillSwitch, KillSwitchState, armed, triggered, flattened, acknowledged, restarting, same_state,
  Phase, cancelling, AuditEvent, switch_triggered, switch_retry, switch_acknowledged,
  switch_restart_requested, Reply, mfa_failed, http_status,
}
use nexus_trading.KillSwitch.Mfa.{Digest, type_error, is_ascii, window_valid, validate_mfa}
use nexus_trading.KillSwitch.Handlers.{Env, when_valid}
use nexus_trading.KillSwitch.Steps.{Request, triggers, retries, acknowledges, restarts, handle}

abbrev pub token : Request → String
token (triggers _ t _) = t
token (retries _ t) = t
token (acknowledges _ t) = t
token (restarts _ t) = t

abbrev pub caller : Request → String
caller (triggers w _ _) = w
caller (retries w _) = w
caller (acknowledges w _) = w
caller (restarts w _) = w

-- The states in which a request is taken.
abbrev pub accepts : KillSwitchState → Request → Bool
accepts s (triggers _ _ _) = same_state s armed
accepts s (retries _ _) = same_state s flattened || same_state s triggered
accepts s (acknowledges _ _) = true
accepts s (restarts _ _) = same_state s acknowledged

-- The audit event of a request that is taken.
abbrev pub event_of : Env → Request → KillSwitch → AuditEvent
event_of e (triggers w _ r) k = switch_triggered e.uuid w r
event_of e (retries w _) k = switch_retry k.trigger_id w
event_of e (acknowledges w _) k = switch_acknowledged k.trigger_id w
event_of e (restarts w _) k = switch_restart_requested k.trigger_id w

abbrev pub is_restart : Request → Bool
is_restart (restarts _ _) = true
is_restart _ = false

-- The state in which a request that is taken leaves the switch.
abbrev pub entered : KillSwitchState → Request → KillSwitchState
entered s (triggers _ _ _) = triggered
entered s (retries _ _) = s
entered flattened (acknowledges _ _) = acknowledged
entered s (acknowledges _ _) = s
entered s (restarts _ _) = restarting

-- The flatten tasks that a request starts, where the audit log works and where it fails.
abbrev pub started : Request → List Phase
started (triggers _ _ _) = cancelling ∷ []
started (retries _ _) = cancelling ∷ []
started _ = []

abbrev pub started_anyway : Request → List Phase
started_anyway (retries _ _) = cancelling ∷ []
started_anyway _ = []

refused-cases :
    (digest : Digest) (secret : String) (now : ℕ) (t w : String)
    → validate_mfa digest secret now t w ≢ ok true
    → ((validate_mfa digest secret now t w ≡ ok false) × (is_ascii t ≡ true))
      ⊎ ((validate_mfa digest secret now t w ≡ err type_error) × (is_ascii t ≡ false))
unfolding validate_mfa
refused-cases digest String.[] now t w h = absurd (h refl)
refused-cases digest (String.◌∷◌ c s) now t w h = elim (Bool-cases (is_ascii t)) [
  | inl ascii ↦
      let test = window_valid digest (String.◌∷◌ c s) t w (now / 30) in
      elim (Bool-cases test) [
        | inl good ↦ absurd (h (rw (ascii, good) refl))
        | inr bad ↦ inl (rw (ascii, bad) refl, ascii)
      ]
  | inr other ↦ inr (rw other refl, other)
]

-- What is behind the test of a token that fails it is not reached.
when_valid-refused :
    (digest : Digest) (secret : String) (now : ℕ) (who token : String) (done : Reply × KillSwitch)
    (k : KillSwitch)
    → validate_mfa digest secret now token who ≢ ok true
    → let (r, k') = when_valid (validate_mfa digest secret now token who) done k in
      (k' ≡ k)
      × (((is_ascii token ≡ true) × (r ≡ mfa_failed) × (http_status r ≡ 403))
          ⊎ ((is_ascii token ≡ false) × (http_status r ≡ 500)))
unfolding http_status
when_valid-refused digest secret now who token done k h =
    elim (refused-cases digest secret now token who h) [
      | inl (f, a) ↦ rw f (refl, inl (a, refl, refl))
      | inr (f, a) ↦ rw f (refl, inr (a, refl))
    ]

module _ (digest : Digest) (secret : String) (e : Env) where
  -- A request that does not pass the token test changes nothing of the switch: no state, task,
  -- message or audit event. With a token in ASCII it is answered "MFA validation failed" with status
  -- 403; with any other the comparison of the tokens raises, and the server answers 500.
  pub handle_unauthorised :
      (q : Request) (k : KillSwitch)
      → validate_mfa digest secret e.now (token q) (caller q) ≢ ok true
      → let (r, k') = handle digest secret e q k in
        (k' ≡ k)
        × (((is_ascii (token q) ≡ true) × (r ≡ mfa_failed) × (http_status r ≡ 403))
            ⊎ ((is_ascii (token q) ≡ false) × (http_status r ≡ 500)))
  unfolding handle http_status
  handle_unauthorised (triggers w t r) k h = when_valid-refused digest secret e.now w t _ k h
  handle_unauthorised (retries w t) k h = when_valid-refused digest secret e.now w t _ k h
  handle_unauthorised (acknowledges w t) k h = when_valid-refused digest secret e.now w t _ k h
  handle_unauthorised (restarts w t) k h = when_valid-refused digest secret e.now w t _ k h

  -- The switch goes to `restarting` by one request only: a restart request with a valid token, in
  -- state `acknowledged`.
  pub restart_iff :
      (q : Request) (k : KillSwitch)
      → k.state ≢ restarting
      → ((handle digest secret e q k).1.state ≡ restarting) ↔ (
          (k.state ≡ acknowledged)
          × (validate_mfa digest secret e.now (token q) (caller q) ≡ ok true)
          × (is_restart q ≡ true))
  unfolding handle
  restart_iff (triggers w t r) k n = (λ h. ground arith, λ h. cc (h.2))
  restart_iff (retries w t) k n = (λ h. ground arith, λ h. cc (h.2))
  restart_iff (acknowledges w t) k n = (λ h. ground arith, λ h. cc (h.2))
  restart_iff (restarts w t) k n = (λ h. ground arith, λ h. ground arith)
