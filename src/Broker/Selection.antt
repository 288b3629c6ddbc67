-- ===== src/Broker/Selection.antt =====
-- Which broker `select_broker` chooses, and what `consume_credit` then answers.
use nexus_trading.Base.{
  ℕ, ◌+◌, ◌*◌, ◌≤◌, ◌<◌, ◌≡◌, refl, sym, ap, ◌∙◌, ◌⊎◌, inl, inr, true, false, Option, none, some,
  List, [], ◌∷◌, ltb, lt→ltb, ◌==◌, if◌then◌else◌, arith, Bool-cases, Option-cases,
}
use nexus_trading.Broker.Credit.{
  PrimeBroker, value, CreditLine, has_available, is_hard_limited, consume,
}
use nexus_trading.Broker.Router.{
  Router, line_of, has_capacity, can_take, first_with_capacity, select_broker, consume_credit,
}
use nexus_trading.Broker.Accounts.{line_of_same, consume_credit_found}

-- No broker has two lines, as in a dict.
abbrev pub Distinct : List (PrimeBroker × CreditLine) → Type 0
Distinct [] = Unit
Distinct ((k, line) ∷ rest) = (line_of rest k ≡ none) × Distinct rest

-- A line below its hard limit (a line without a limit counts as unused) with an amount available.
abbrev pub Roomy : ℕ → CreditLine → Type 0
Roomy notional line =
    (((0 < line.limit_usd) × (100 * line.used_usd < line.hard_limit * line.limit_usd))
      ⊎ ((line.limit_usd ≡ 0) × (0 < line.hard_limit)))
    × (notional + line.used_usd ≤ line.limit_usd)

abbrev pub Full : ℕ → CreditLine → Type 0
Full notional line =
    ((0 < line.limit_usd) × (line.hard_limit * line.limit_usd ≤ 100 * line.used_usd))
    ⊎ ((line.limit_usd ≡ 0) × (line.hard_limit ≡ 0))
    ⊎ (line.limit_usd < notional + line.used_usd)

-- A broker that can take an amount, and one that cannot.
abbrev pub Able : ℕ → List (PrimeBroker × CreditLine) → PrimeBroker → Type 0
Able notional lines b = (line : CreditLine) × (line_of lines b ≡ some line) × Roomy notional line

abbrev pub Unable : ℕ → List (PrimeBroker × CreditLine) → PrimeBroker → Type 0
Unable notional lines b =
    (line_of lines b ≡ none)
    ⊎ ((line : CreditLine) × (line_of lines b ≡ some line) × Full notional line)

-- A choice in the order of preference: the wanted broker, or the preferred one if that cannot take
-- the amount, or another if neither can; and none only if no broker can.
abbrev pub Chooses :
    ℕ → List (PrimeBroker × CreditLine) → PrimeBroker → PrimeBroker → Option PrimeBroker → Type 0
Chooses notional lines wanted preferred none = (b : PrimeBroker) → Unable notional lines b
Chooses notional lines wanted preferred (some b) =
    Able notional lines b
    × ((b ≡ wanted)
        ⊎ (Unable notional lines wanted × ((b ≡ preferred) ⊎ Unable notional lines preferred)))

has_capacity-Roomy :
    (notional : ℕ) (line : CreditLine) → has_capacity notional line ≡ true → Roomy notional line
unfolding has_capacity is_hard_limited has_available
has_capacity-Roomy notional line h = ground (arith, h)

has_capacity-Full :
    (notional : ℕ) (line : CreditLine) → has_capacity notional line ≡ false → Full notional line
unfolding has_capacity is_hard_limited has_available
has_capacity-Full notional line h = ground (arith, h)

-- By the code's test: a chosen broker can take the order, and if there is none, no broker can.
abbrev Takes : ℕ → List (PrimeBroker × CreditLine) → Option PrimeBroker → Type 0
Takes notional lines none = (b : PrimeBroker) → can_take notional lines b ≡ false
Takes notional lines (some b) = can_take notional lines b ≡ true

same_value : (k : ℕ) → (k == k) ≡ true
same_value k = ground arith

module _ (notional : ℕ) where
  skip_line :
      (k b : PrimeBroker) (line : CreditLine) (rest : List (PrimeBroker × CreditLine))
      → line_of rest k ≡ none
      → can_take notional rest b ≡ true
      → can_take notional ((k, line) ∷ rest) b ≡ true
  skip_line k b line rest new h = elim (Bool-cases (value k == value b)) [
    | inr other ↦ rw (can_take, other) h
    | inl same ↦
        let missing : line_of rest b ≡ none = sym (line_of_same rest k b same) ∙ new in
        let closed : false ≡ true = rw (can_take, missing) at h in ground arith
  ]

  lift_choice :
      (o : Option PrimeBroker) (k : PrimeBroker) (line : CreditLine)
      (rest : List (PrimeBroker × CreditLine))
      → line_of rest k ≡ none
      → has_capacity notional line ≡ false
      → Takes notional rest o
      → Takes notional ((k, line) ∷ rest) o
  lift_choice (some b) k line rest new full h = skip_line k b line rest new h
  lift_choice none k line rest new full h = λ b. elim (Bool-cases (value k == value b)) [
    | inr other ↦ rw (can_take, other) (h b)
    | inl same ↦ rw (can_take, same) full
  ]

  first-Takes :
      (lines : List (PrimeBroker × CreditLine))
      → Distinct lines
      → Takes notional lines (first_with_capacity notional lines)
  first-Takes [] d = λ b. refl
  first-Takes ((k, line) ∷ rest) (new, d) = elim (Bool-cases (has_capacity notional line)) [
    | inl fits ↦ rw (first_with_capacity, fits) (rw (can_take, same_value (value k)) fits)
    | inr full ↦
        rw (first_with_capacity, full)
          (lift_choice (first_with_capacity notional rest) k line rest new full
            (first-Takes rest d))
  ]

can_take-Able :
    (notional : ℕ) (lines : List (PrimeBroker × CreditLine)) (b : PrimeBroker)
    → can_take notional lines b ≡ true
    → Able notional lines b
can_take-Able notional lines b h = elim (Option-cases (line_of lines b)) [
  | inl e ↦ absurd (ground (arith, h, e))
  | inr (line, e) ↦ (line, e, has_capacity-Roomy notional line (rw (can_take, e) at h))
]

can_take-Unable :
    (notional : ℕ) (lines : List (PrimeBroker × CreditLine)) (b : PrimeBroker)
    → can_take notional lines b ≡ false
    → Unable notional lines b
can_take-Unable notional lines b h = elim (Option-cases (line_of lines b)) [
  | inl e ↦ inl e
  | inr (line, e) ↦ inr (line, e, has_capacity-Full notional line (rw (can_take, e) at h))
]

-- The last resort, when neither the wanted nor the preferred broker can take the amount.
fallback-Chooses :
    (notional : ℕ) (lines : List (PrimeBroker × CreditLine)) (wanted preferred : PrimeBroker)
    (o : Option PrimeBroker)
    → Unable notional lines wanted
    → Unable notional lines preferred
    → Takes notional lines o
    → Chooses notional lines wanted preferred o
fallback-Chooses notional lines wanted preferred none w p h =
    λ b. can_take-Unable notional lines b (h b)
fallback-Chooses notional lines wanted preferred (some b) w p h =
    (can_take-Able notional lines b h, inr (w, inr p))

select-Chooses :
    (notional : ℕ) (lines : List (PrimeBroker × CreditLine)) (wanted preferred : PrimeBroker)
    → Distinct lines
    → Chooses notional lines wanted preferred (
        if can_take notional lines wanted
        then some wanted
        else if can_take notional lines preferred
        then some preferred
        else first_with_capacity notional lines)
select-Chooses notional lines wanted preferred d =
    elim (Bool-cases (can_take notional lines wanted)) [
      | inl w ↦ rw w (can_take-Able notional lines wanted w, inl refl)
      | inr w ↦
          let out = can_take-Unable notional lines wanted w in
          elim (Bool-cases (can_take notional lines preferred)) [
            | inl p ↦ rw (w, p) (can_take-Able notional lines preferred p, inr (out, inl refl))
            | inr p ↦
                rw (w, p)
                  (fallback-Chooses notional lines wanted preferred _ out
                    (can_take-Unable notional lines preferred p) (first-Takes notional lines d))
          ]
    ]

-- The broker that an order asks for, or else the preferred one.
abbrev pub wanted_or : Option PrimeBroker → PrimeBroker → PrimeBroker
wanted_or none preferred = preferred
wanted_or (some b) preferred = b

-- If no broker has two credit lines, then a broker that `select_broker` returns has a line with a
-- use below its hard limit and with the order's amount available; it is the broker that the order
-- asks for, or the preferred one if that cannot take the amount, or another if neither can. If none
-- is returned, then every broker is without a line, at its hard limit, or short of the amount.
pub select_broker_lem :
    (notional : ℕ) (wanted : Option PrimeBroker) (r : Router)
    → Distinct r.credit_lines
    → Chooses notional r.credit_lines
        (wanted_or wanted r.preferred)
        r.preferred
        (select_broker notional wanted r)
unfolding select_broker
select_broker_lem notional none r d =
    select-Chooses notional r.credit_lines r.preferred r.preferred d
select_broker_lem notional (some w) r d = select-Chooses notional r.credit_lines w r.preferred d

limited_test :
    (line : CreditLine)
    → 100 * line.used_usd < line.hard_limit * line.limit_usd
    → is_hard_limited line ≡ false
unfolding is_hard_limited
limited_test line under = ground arith

-- A broker whose line is below its hard limit and has the amount available is selected when it is
-- wanted, also if the amount would take its line over the hard limit: then `consume_credit`
-- refuses, whatever credit the other brokers have.
pub selected_then_refused :
    (notional : ℕ) (b : PrimeBroker) (line : CreditLine) (r : Router)
    → line_of r.credit_lines b ≡ some line
    → 100 * line.used_usd < line.hard_limit * line.limit_usd
    → notional + line.used_usd ≤ line.limit_usd
    → line.hard_limit * line.limit_usd < 100 * (line.used_usd + notional)
    → (select_broker notional (some b) r ≡ some b) × (consume_credit b notional r).0 ≡ false
unfolding select_broker has_capacity has_available consume
selected_then_refused notional b line r here under fits over =
    let below = limited_test line under in
    let roomy : has_capacity notional line ≡ true = rw below (ground arith) in
    let able : can_take notional r.credit_lines b ≡ true = rw (can_take, here) roomy in
    let too_much : ltb (line.hard_limit * line.limit_usd) (100 * (line.used_usd + notional))
        ≡ true =
      lt→ltb _ _ over in
    let refused : (consume notional line).0 ≡ false = rw (below, too_much) refl in
    (rw able refl, ap (λ x. x.0) (consume_credit_found b notional line r here) ∙ refused)
