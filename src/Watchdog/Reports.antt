-- ===== src/Watchdog/Reports.antt =====
-- One pass of `_check_agent_heartbeats`: whom it reports, and how it can raise.
use nexus_trading.Base.{
  ℕ, ◌+◌, ◌<◌, ◌≡◌, ◌≢◌, refl, ap, ◌∙◌, subst, inl, inr, true, false, ◌&&◌, not, none, some, List,
  [], ◌∷◌, ◌++◌, ltb, ◌==◌, ==_iff, length, find, store, keys, elem, add, ok, err, arith,
  Bool-cases, Option-cases, elem-add,
}
use native.Mathlib.Decide.{ℕ_discrete}
use nexus_trading.Watchdog.Monitor.{
  Watchdog, agent_timeout, heartbeat, note, update_agent_heartbeat, Arrivals, first_of, rest_of,
  changed_size, is_late, mark, alert, scan, check_agent_heartbeats,
}

add_marks : (s : List ℕ) (b x : ℕ) → elem x s ≡ true → elem x (add s b) ≡ true
add_marks s b x h = ground arith

quiet_alert :
    (now b : ℕ) (w : Watchdog)
    → let w' = alert b [] w in
      (w'.agent_last_seen ≡ w.agent_last_seen)
      × (w'.agent_timeout ≡ w.agent_timeout)
      × (w'.alerted_agents ≡ add w.alerted_agents b)
unfolding alert
quiet_alert now b w = elim (Bool-cases w.has_timeout) [
  | inl told ↦ rw told (refl, refl, refl)
  | inr quiet ↦ rw quiet (refl, refl, refl)
]

not_late :
    (now b : ℕ) (w w' : Watchdog)
    → w'.agent_last_seen ≡ w.agent_last_seen
    → w'.agent_timeout ≡ w.agent_timeout
    → (elem b w.alerted_agents ≡ true → elem b w'.alerted_agents ≡ true)
    → is_late now b w ≡ false
    → is_late now b w' ≡ false
not_late now b w w' seen wait kept h = elim (Option-cases (find w.agent_last_seen b)) [
  | inl missing ↦
      let missing' : find w'.agent_last_seen b ≡ none = rw seen missing in
      rw (is_late, missing') refl
  | inr (t, found) ↦
      let found' : find w'.agent_last_seen b ≡ some t = rw seen found in
      let was : (ltb (t + w.agent_timeout) now && not (elem b w.alerted_agents)) ≡ false =
        rw (is_late, found) at h in
      rw (is_late, found', wait) (ground arith)
]

module _ (now : ℕ) (w : Watchdog) where
  elem_split :
      (b x : ℕ) (agents : List ℕ)
      → elem x (b ∷ agents) ≡ true
      → is_late now b w ≡ false
      → (elem x agents ≡ true → is_late now x w ≡ false)
      → is_late now x w ≡ false
  elem_split b x agents m mine rest = elim (ℕ_discrete b x) [
    | yes e ↦ subst (λ y. is_late now y w ≡ false) e mine
    | no ne ↦ rest (ground arith)
  ]

alerted_not_late :
    (now b : ℕ) (w : Watchdog) → elem b w.alerted_agents ≡ true → is_late now b w ≡ false
alerted_not_late now b w h = elim (Option-cases (find w.agent_last_seen b)) [
  | inl missing ↦ rw (is_late, missing) refl
  | inr (t, found) ↦ rw (is_late, found, h) (ground arith)
]

scan_marks :
    (now size : ℕ) (agents : List ℕ) (w : Watchdog)
    → length w.agent_last_seen ≡ size
    → let (outcome, w') = scan now size agents [] w in
      (outcome ≡ ok true)
      × ((b : ℕ) → elem b agents ≡ true → is_late now b w' ≡ false)
      × ((b : ℕ) → is_late now b w ≡ false → is_late now b w' ≡ false)
      × (w'.agent_last_seen ≡ w.agent_last_seen)
      × (w'.agent_timeout ≡ w.agent_timeout)
unfolding scan
scan_marks now size [] w same =
    rw ((==_iff _ _).1 same) (refl, λ b h. ground arith, λ b h. h, refl, refl)
scan_marks now size (b ∷ agents) w same =
    let here : (length w.agent_last_seen == size) ≡ true = (==_iff _ _).1 same in
    elim (Bool-cases (is_late now b w)) [
      | inr early ↦
          let (fine, all, kept, seen', wait') = scan_marks now size agents w same in
          rw (here, early)
            (
              fine,
              λ x m.
                  elem_split now (scan now size agents [] w).1 b x agents m (kept b early) (all x),
              kept,
              seen',
              wait',
            )
      | inl late ↦
          let w' : Watchdog = alert b [] w in
          let (seen, wait, list) = quiet_alert now b w in
          let same' : length w'.agent_last_seen ≡ size = ap length seen ∙ same in
          let (fine, all, kept, seen', wait') = scan_marks now size agents w' same' in
          let mine : is_late now b w' ≡ false =
            alerted_not_late now b w' (rw list (elem-add w.alerted_agents b)) in
          let before : (x : ℕ) → is_late now x w ≡ false → is_late now x w' ≡ false = (λ x h.
            not_late now x w w' seen wait (λ m. rw list (add_marks w.alerted_agents b x m)) h) in
          rw (here, late)
            (
              fine,
              λ x m.
                  elem_split now (scan now size agents [] w').1 b x agents m (kept b mine) (all x),
              λ x h. kept x (before x h),
              seen' ∙ seen,
              wait' ∙ wait,
            )
    ]

elem-keys : (d : List (ℕ × ℕ)) (b t : ℕ) → find d b ≡ some t → elem b (keys d) ≡ true
elem-keys [] b t h = ground arith
elem-keys ((k, v) ∷ d) b t h = ground (arith, elem-keys d b t)

late_reported :
    (now b t : ℕ) (w : Watchdog)
    → find w.agent_last_seen b ≡ some t
    → t + w.agent_timeout < now
    → is_late now b w ≡ false
    → elem b w.alerted_agents ≡ true
late_reported now b t w found late h =
    let open_test : (ltb (t + w.agent_timeout) now && not (elem b w.alerted_agents)) ≡ false =
      rw (is_late, found) at h in
    ground arith

-- A check of the agents during which no heartbeat arrives ends without an error, and after it every
-- agent whose last heartbeat is older than the timeout is recorded as reported silent.
pub silent_reported :
    (now : ℕ) (w : Watchdog)
    → let (outcome, w') = check_agent_heartbeats now [] w in
      (outcome ≡ ok true)
      × ((b t : ℕ)
          → find w.agent_last_seen b ≡ some t
          → t + w.agent_timeout < now
          → elem b w'.alerted_agents ≡ true)
unfolding check_agent_heartbeats
silent_reported now w =
    let size = length w.agent_last_seen in
    let names = keys w.agent_last_seen in
    let w' : Watchdog = (scan now size names [] w).1 in
    let (fine, all, kept, seen, wait) = scan_marks now size names w refl in
    (
      fine,
      λ b t found late.
          late_reported now b t w' (rw seen found) (rw wait late)
            (all b (elem-keys w.agent_last_seen b t found)),
    )

length-store : (d : List (ℕ × ℕ)) (b t : ℕ) → find d b ≡ none → length (store d b t) ≡ length d + 1
length-store [] b t h = omega arith
length-store ((k, v) ∷ d) b t h = ground (arith, length-store d b t)

scan_grown :
    (now size : ℕ) (agents : List ℕ) (xs : List Arrivals) (w : Watchdog)
    → length w.agent_last_seen ≢ size
    → scan now size agents xs w ≡ (err changed_size, w)
unfolding scan
scan_grown now size [] xs w h = ground arith
scan_grown now size (b ∷ agents) xs w h = ground arith

alert_told :
    (a b t : ℕ) (w : Watchdog)
    → w.has_timeout ≡ true
    → alert a ((b, t) ∷ []) w ≡ update_agent_heartbeat b t (note (agent_timeout a) (mark a w))
unfolding alert
alert_told a b t w told = rw told refl

scan_first :
    (now a : ℕ) (agents : List ℕ) (xs : List Arrivals) (w : Watchdog)
    → is_late now a w ≡ true
    → scan now (length w.agent_last_seen) (a ∷ agents) xs w
      ≡ scan now (length w.agent_last_seen) agents (rest_of xs) (alert a (first_of xs) w)
unfolding scan
scan_first now a agents xs w late =
    let same : (length w.agent_last_seen == length w.agent_last_seen) ≡ true =
      (==_iff _ _).1 refl in
    rw (same, late) refl

-- If the first agent of the dict is late and not yet reported, and an agent that the watchdog has never
-- heard of sends its first heartbeat while the alert is awaited, then the check raises before it
-- looks at any other agent.
pub newcomer_raises :
    (now a seen b t : ℕ) (rest : List (ℕ × ℕ)) (xs : List Arrivals) (w : Watchdog)
    → w.has_timeout ≡ true
    → w.agent_last_seen ≡ (a, seen) ∷ rest
    → is_late now a w ≡ true
    → find w.agent_last_seen b ≡ none
    → let (outcome, w') = check_agent_heartbeats now (((b, t) ∷ []) ∷ xs) w in
      (outcome ≡ err changed_size) × (w'.log ≡ (w.log ++ agent_timeout a ∷ []) ++ heartbeat b ∷ [])
unfolding check_agent_heartbeats alert update_agent_heartbeat
newcomer_raises now a seen b t rest xs w told first late new =
    let size = length w.agent_last_seen in
    let w' : Watchdog = update_agent_heartbeat b t (note (agent_timeout a) (mark a w)) in
    let grown : length w'.agent_last_seen ≢ size =
      (λ e. absurd (omega (arith, length-store w.agent_last_seen b t new))) in
    let steps : scan now size (keys w.agent_last_seen) (((b, t) ∷ []) ∷ xs) w
        ≡ (err changed_size, w') =
      ap (λ d. scan now size (keys d) (((b, t) ∷ []) ∷ xs) w) first
      ∙ scan_first now a (keys rest) (((b, t) ∷ []) ∷ xs) w late
      ∙ ap (scan now size (keys rest) xs) (alert_told a b t w told)
      ∙ scan_grown now size (keys rest) xs w' grown in
    rw steps (refl, refl)
