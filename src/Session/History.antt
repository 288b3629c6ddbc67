-- ===== src/Session/History.antt =====
-- The transition history: bounded, linked from state to state, and lawful entry by entry.
use nexus_trading.Base.{
  ℕ, ◌≤◌, ◌≡◌, refl, sym, suc, Option, List, [], ◌∷◌, ◌++◌, ltb, length, length-append, Bool-cases,
  inl, inr, arith, String,
}
use nexus_trading.Session.States.{SessionState, booting}
use nexus_trading.Session.Machine.{
  Machine, World, Reason, Entry, Callback, init, enter, append_entry, pop_first,
}
use nexus_trading.Session.Allowed.{Allowed}
use nexus_trading.Session.Runs.{Call, step, run, step_keeps}

-- Every entry is an allowed move, starts where the one before it ended, and the last ends at `b`.
abbrev pub Linked : SessionState → List Entry → SessionState → Type 0
Linked a [] b = a ≡ b
Linked a (e ∷ es) b = (e.from ≡ a) × Allowed e.from e.to e.approved_by × Linked e.to es b

pub record IsValid (m : Machine) : Type 0 where
  pub bounded : length m.history ≤ 50
  pub linked : (start : SessionState) × Linked start m.history m.state

Linked-append :
    (a : SessionState) (es : List Entry) (e : Entry)
    → Linked a es e.from
    → Allowed e.from e.to e.approved_by
    → Linked a (es ++ e ∷ []) e.to
Linked-append a [] e l w = (sym l, w, refl)
Linked-append a (x ∷ es) e l w = (l.0, l.1, Linked-append x.to es e l.2 w)

abbrev Starts : List Entry → SessionState → Type 0
Starts es b = (start : SessionState) × Linked start es b

pop_first-Starts : (es : List Entry) (b : SessionState) → Starts es b → Starts (pop_first es) b
pop_first-Starts [] b s = s
pop_first-Starts (e ∷ es) b (a, l) = (e.to, l.2)

length-pop_first : (es : List Entry) (n : ℕ) → length es ≤ suc n → length (pop_first es) ≤ n
length-pop_first [] n h = omega arith
length-pop_first (e ∷ es) n h = omega arith

append_entry-Starts :
    (es : List Entry) (e : Entry)
    → Starts es e.from
    → Allowed e.from e.to e.approved_by
    → Starts (append_entry es e) e.to
unfolding append_entry
append_entry-Starts es e (a, l) w = elim (Bool-cases (ltb 50 (length (es ++ e ∷ [])))) [
  | inl long ↦ rw long (pop_first-Starts _ _ (a, Linked-append a es e l w))
  | inr short ↦ rw short (a, Linked-append a es e l w)
]

length-append_entry :
    (es : List Entry) (e : Entry) → length es ≤ 50 → length (append_entry es e) ≤ 50
unfolding append_entry
length-append_entry es e h = elim (Bool-cases (ltb 50 (length (es ++ e ∷ [])))) [
  | inl long ↦
      rw long (length-pop_first (es ++ e ∷ []) 50 (omega (arith, length-append es (e ∷ []))))
  | inr short ↦ rw short (ground arith)
]

enter-IsValid :
    (now : ℕ) (new : SessionState) (reason : Reason) (who : Option String) (m : Machine)
    → Allowed m.state new who
    → IsValid m
    → IsValid (enter now new reason who m)
unfolding enter
enter-IsValid now new reason who m a v = record {
  bounded = length-append_entry m.history _ v.bounded;
  linked = append_entry-Starts m.history _ v.linked a;
}

run-IsValid : (cs : List Call) (w : World) → IsValid w.machine → IsValid (run cs w).machine
unfolding run
run-IsValid [] w v = v
run-IsValid (c ∷ cs) w v = run-IsValid cs (step c w) (
    step_keeps IsValid (λ who. Unit {0})
      (λ now new reason who m o a v'. enter-IsValid now new reason who m a v') tt c w tt v)

-- After any sequence of calls and timers since the start, the history holds 50 entries at most;
-- every entry is an allowed move (with its approver where a halt is left for trading), begins
-- in the state in which the entry before it ends, and the last one ends in the current state.
pub history_IsValid :
    (callback : Option Callback) (now : ℕ) (cs : List Call)
    → IsValid (run cs (record { machine = init callback now; tasks = [] })).machine
unfolding init
history_IsValid callback now cs =
    run-IsValid cs _ (record { bounded = omega arith; linked = (booting, refl) })
