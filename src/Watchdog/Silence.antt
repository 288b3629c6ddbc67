-- ===== src/Watchdog/Silence.antt =====
-- `_check_agent_heartbeats` over a run: the alerts for an agent counted against its heartbeats.
use nexus_trading.Base.{
  ℕ, ◌+◌, ◌≤◌, ◌≡◌, refl, subst, inl, inr, Bool, true, false, ◌&&◌, not, Option, List, [], ◌∷◌,
  ◌++◌, ◌==◌, ==_iff, if◌then◌else◌, length, find, keys, elem, add, Result, ok, err, is_some, arith,
  Bool-cases, Option-cases, find-store_ne, elem-add, elem-add_ne, elem-discard_ne,
}
use native.Mathlib.Decide.{ℕ_discrete}
use nexus_trading.Watchdog.Monitor.{
  Watchdog, Event, bus_failure, bus_recovery, agent_timeout, heartbeat, init, note,
  update_agent_heartbeat, check_bus_health, Arrivals, arrive, first_of, rest_of, Error, is_late,
  mark, alert, scan, check_agent_heartbeats, Round, unless_raised, rounds, run, stop,
}

abbrev one_if : Bool → ℕ
one_if b = if b then 1 else 0

abbrev pub alerts_in : ℕ → Event → ℕ
alerts_in agent (agent_timeout b) = one_if (b == agent)
alerts_in agent _ = 0

abbrev pub beats_in : ℕ → Event → ℕ
beats_in agent (heartbeat b) = one_if (b == agent)
beats_in agent _ = 0

abbrev pub alerts : ℕ → List Event → ℕ
alerts agent [] = 0
alerts agent (e ∷ log) = alerts_in agent e + alerts agent log

abbrev pub beats : ℕ → List Event → ℕ
beats agent [] = 0
beats agent (e ∷ log) = beats_in agent e + beats agent log

alerts-append :
    (agent : ℕ) (log : List Event) (e : Event)
    → alerts agent (log ++ e ∷ []) ≡ alerts agent log + alerts_in agent e
alerts-append agent [] e = omega arith
alerts-append agent (x ∷ log) e = omega (arith, alerts-append agent log e)

beats-append :
    (agent : ℕ) (log : List Event) (e : Event)
    → beats agent (log ++ e ∷ []) ≡ beats agent log + beats_in agent e
beats-append agent [] e = omega arith
beats-append agent (x ∷ log) e = omega (arith, beats-append agent log e)

-- Whether the next late check would alert: the agent is known and not yet alerted.
abbrev armed : ℕ → Watchdog → Bool
armed agent w = is_some (find w.agent_last_seen agent) && not (elem agent w.alerted_agents)

abbrev Bounded : ℕ → Watchdog → Type 0
Bounded agent w = alerts agent w.log + one_if (armed agent w) ≤ beats agent w.log

one_if_le : (b : Bool) → one_if b ≤ 1
one_if_le true = omega arith
one_if_le false = omega arith

disarmed : (b : Bool) → one_if (b && not true) ≡ 0
disarmed true = refl
disarmed false = refl

module _ (agent : ℕ) where
  heartbeat-Bounded :
      (b now : ℕ) (w : Watchdog) → Bounded agent w → Bounded agent (update_agent_heartbeat b now w)
  unfolding update_agent_heartbeat
  heartbeat-Bounded b now w h =
      let silent = alerts-append agent w.log (heartbeat b) in
      let beat = beats-append agent w.log (heartbeat b) in
      elim (ℕ_discrete b agent) [
        | yes e ↦
            let same : (b == agent) ≡ true = (==_iff b agent).1 e in
            rw (silent, beat, same)
              (omega (
                arith,
                one_if_le (armed agent (update_agent_heartbeat b now w)),
                one_if_le (armed agent w),
              ))
        | no ne ↦
            rw
              (
                silent,
                beat,
                find-store_ne w.agent_last_seen b agent now ne,
                elem-discard_ne w.alerted_agents b agent ne,
              )
              (omega (arith, one_if_le (b == agent)))
      ]

  arrive-Bounded : (xs : Arrivals) (w : Watchdog) → Bounded agent w → Bounded agent (arrive xs w)
  arrive-Bounded [] w h = h
  arrive-Bounded ((b, now) ∷ xs) w h = arrive-Bounded xs _ (heartbeat-Bounded b now w h)

  health-Bounded :
      (answer : Option Bool) (w : Watchdog)
      → Bounded agent w
      → Bounded agent (check_bus_health answer w)
  unfolding check_bus_health
  health-Bounded answer w h = ground (
    arith,
    alerts-append agent w.log bus_failure,
    beats-append agent w.log bus_failure,
    alerts-append agent w.log bus_recovery,
    beats-append agent w.log bus_recovery,
  )

  late_armed : (b now : ℕ) (w : Watchdog) → is_late now b w ≡ true → armed b w ≡ true
  late_armed b now w late = elim (Option-cases (find w.agent_last_seen b)) [
    | inl missing ↦ ground arith
    | inr (seen, found) ↦ ground arith
  ]

  marked_elem : (b : ℕ) (w : Watchdog) → b ≡ agent → elem agent (add w.alerted_agents b) ≡ true
  marked_elem b w e =
      subst (λ x. elem x (add w.alerted_agents b) ≡ true) e (elem-add w.alerted_agents b)

  mark-Bounded : (b : ℕ) (w : Watchdog) → Bounded agent w → Bounded agent (mark b w)
  mark-Bounded b w h = elim (ℕ_discrete b agent) [
    | yes e ↦
        rw (marked_elem b w e) (omega (arith, disarmed (is_some (find w.agent_last_seen agent))))
    | no ne ↦ rw (elem-add_ne w.alerted_agents b agent ne) h
  ]

  told-Bounded :
      (b : ℕ) (w : Watchdog)
      → armed b w ≡ true
      → Bounded agent w
      → Bounded agent (note (agent_timeout b) (mark b w))
  told-Bounded b w late h =
      let more = alerts-append agent w.log (agent_timeout b) in
      let beat = beats-append agent w.log (agent_timeout b) in
      elim (ℕ_discrete b agent) [
        | yes e ↦
            let same : (b == agent) ≡ true = (==_iff b agent).1 e in
            let ready : armed agent w ≡ true = subst (λ x. armed x w ≡ true) e late in
            let left : alerts agent w.log + one_if true ≤ beats agent w.log = rw ready at h in
            rw (more, beat, same, marked_elem b w e)
              (omega (arith, disarmed (is_some (find w.agent_last_seen agent))))
        | no ne ↦
            let other : (b == agent) ≡ false = ground arith in
            rw (more, beat, other, elem-add_ne w.alerted_agents b agent ne) (omega arith)
      ]

  alert-Bounded :
      (b now : ℕ) (xs : Arrivals) (w : Watchdog)
      → is_late now b w ≡ true
      → Bounded agent w
      → Bounded agent (alert b xs w)
  unfolding alert
  alert-Bounded b now xs w late h = elim (Bool-cases w.has_timeout) [
    | inl told ↦ rw told (arrive-Bounded xs _ (told-Bounded b w (late_armed b now w late) h))
    | inr quiet ↦ rw quiet (mark-Bounded b w h)
  ]

  scan-Bounded :
      (now size : ℕ) (agents : List ℕ) (xs : List Arrivals) (w : Watchdog)
      → Bounded agent w
      → Bounded agent (scan now size agents xs w).1
  unfolding scan
  scan-Bounded now size [] xs w h = ground arith
  scan-Bounded now size (b ∷ agents) xs w h = elim (Bool-cases (length w.agent_last_seen == size)) [
    | inr grown ↦ rw grown h
    | inl same ↦ elim (Bool-cases (is_late now b w)) [
      | inl late ↦
          rw (same, late)
            (scan-Bounded now size agents (rest_of xs) _
              (alert-Bounded b now (first_of xs) w late h))
      | inr early ↦ rw (same, early) (scan-Bounded now size agents xs w h)
    ]
  ]

  unless_raised-Bounded :
      (o : Result Error Bool) (w : Watchdog) (next : Result Error Bool × Watchdog)
      → Bounded agent w
      → Bounded agent next.1
      → Bounded agent (unless_raised o w next).1
  unless_raised-Bounded (ok _) w next h h' = h'
  unless_raised-Bounded (err e) w next h h' = h

  if_Bounded :
      (b : Bool) (x y : Result Error Bool × Watchdog)
      → Bounded agent x.1
      → Bounded agent y.1
      → Bounded agent (if b then x else y).1
  if_Bounded true x y h h' = h
  if_Bounded false x y h h' = h'

  stop-Bounded :
      (b : Bool) (w : Watchdog) → Bounded agent w → Bounded agent (if b then stop w else w)
  unfolding stop
  stop-Bounded true w h = h
  stop-Bounded false w h = h

  rounds-Bounded :
      (rs : List Round) (w : Watchdog) → Bounded agent w → Bounded agent (rounds rs w).1
  unfolding rounds check_agent_heartbeats
  rounds-Bounded [] w h = h
  rounds-Bounded (r ∷ rs) w h =
      let polled : Watchdog = check_bus_health r.answer (arrive r.before w) in
      let outcome : Result Error Bool = (check_agent_heartbeats r.now r.meanwhile polled).0 in
      let checked : Watchdog = (check_agent_heartbeats r.now r.meanwhile polled).1 in
      let slept : Watchdog = arrive r.asleep checked in
      let later : Watchdog = if r.stopped then stop slept else slept in
      let p = health-Bounded r.answer _ (arrive-Bounded r.before w h) in
      let c : Bounded agent checked =
        scan-Bounded r.now _ (keys polled.agent_last_seen) r.meanwhile polled p in
      let l =
        rounds-Bounded rs later
          (stop-Bounded r.stopped slept (arrive-Bounded r.asleep checked c)) in
      if_Bounded w.running (unless_raised outcome checked (rounds rs later)) (ok true, w)
        (unless_raised-Bounded outcome checked (rounds rs later) c l) h

-- In any run of the watchdog from its start, whatever the health function answers, whichever
-- heartbeats arrive and whenever the rounds take place, an agent is never reported silent more often
-- than it has sent heartbeats.
pub alerts_bounded :
    (agent timeout : ℕ) (failure recovery silence : Bool) (rs : List Round)
    → let log = (run rs (init timeout failure recovery silence)).1.log in
      alerts agent log ≤ beats agent log
unfolding run init
alerts_bounded agent timeout failure recovery silence rs =
    let start = record (init timeout failure recovery silence) { running = true } in
    omega (arith, rounds-Bounded agent rs start (omega arith))
