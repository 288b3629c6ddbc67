-- ===== src/Watchdog/Edges.antt =====
-- The bus callbacks are the edges of the bus's health.
use nexus_trading.Base.{
  ◌≡◌, refl, sym, ap, ◌∙◌, Bool, true, false, Option, none, some, List, [], ◌∷◌, ◌++◌, arith,
}
use mathlib.Core.List.{append_assoc, append-nil}
use nexus_trading.Watchdog.Monitor.{
  Watchdog, Event, bus_failure, bus_recovery, healthy, check_bus_health,
}

abbrev pub edge : Bool → Bool → List Event
edge true false = bus_failure ∷ []
edge false true = bus_recovery ∷ []
edge true true = []
edge false false = []

-- The edges of a series of answers, after a state of health.
abbrev pub edges : Bool → List (Option Bool) → List Event
edges up [] = []
edges up (answer ∷ rest) = edge up (healthy answer) ++ edges (healthy answer) rest

abbrev pub last_health : Bool → List (Option Bool) → Bool
last_health up [] = up
last_health up (answer ∷ rest) = last_health (healthy answer) rest

abbrev pub check_all : List (Option Bool) → Watchdog → Watchdog
check_all [] w = w
check_all (answer ∷ rest) w = check_all rest (check_bus_health answer w)

check_edge :
    (answer : Option Bool) (w : Watchdog)
    → w.has_failure ≡ true
    → w.has_recovery ≡ true
    → let w' = check_bus_health answer w in
      (w'.log ≡ w.log ++ edge w.bus_was_healthy (healthy answer))
      × (w'.bus_was_healthy ≡ healthy answer)
      × (w'.has_failure ≡ true)
      × (w'.has_recovery ≡ true)
unfolding check_bus_health
check_edge none w f r = ground (arith, append-nil w.log)
check_edge (some up) w f r = ground (arith, append-nil w.log)

-- From any state of a watchdog with both callbacks, a series of health checks awaits exactly the
-- callbacks of the edges of the answers, in order: a failure when the bus goes from healthy to not,
-- a late answer or an exception counting as not, and a recovery when it comes back.
pub check_all-edges :
    (answers : List (Option Bool)) (w : Watchdog)
    → w.has_failure ≡ true
    → w.has_recovery ≡ true
    → ((check_all answers w).log ≡ w.log ++ edges w.bus_was_healthy answers)
      × ((check_all answers w).bus_was_healthy ≡ last_health w.bus_was_healthy answers)
check_all-edges [] w f r = (sym (append-nil w.log), refl)
check_all-edges (answer ∷ rest) w f r =
    let (wrote, now, f', r') = check_edge answer w f r in
    let later = check_all-edges rest (check_bus_health answer w) f' r' in
    (
      rw
          (
            ← append_assoc w.log (edge w.bus_was_healthy (healthy answer))
                (edges (healthy answer) rest),
            ← wrote,
            ← now,
          )
          later.0,
      later.1 ∙ ap (λ b. last_health b rest) now,
    )
