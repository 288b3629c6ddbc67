-- ===== src/Broker/Routing.antt =====
-- Which venue `route_order` chooses.
use nexus_trading.Base.{
  ℕ, ◌≤◌, ◌≡◌, refl, sym, ◌∙◌, ◌⊎◌, inl, inr, ℤ, ◌≤ℤ◌, ltb_ℤ, Bool, true, false, List, [], ◌∷◌, ltb,
  ltb→lt, ◌==◌, if◌then◌else◌, arith, Bool-cases,
}
use nexus_trading.Broker.Venues.{
  OrderVenue, number, nasdaq, dark_pool, VenueCost, venue_costs, Urgency, normal, urgent, stealth,
  RoutingDecision, excludes, keep_allowed, min_by, cost_of, latency_of, is_dark, cheapest, dark_or,
  choose, route_order,
}

module _ (exclude : List OrderVenue) where
  excludes_same :
      (xs : List OrderVenue) (v w : OrderVenue)
      → (number v == number w) ≡ true
      → excludes xs v ≡ excludes xs w
  excludes_same [] v w h = refl
  excludes_same (x ∷ xs) v w h = ground (arith, excludes_same xs v w)

  -- None of the venues is excluded.
  abbrev Allowed : List VenueCost → Type 0
  Allowed [] = Unit
  Allowed (c ∷ cs) = (excludes exclude c.venue ≡ false) × Allowed cs

  keep_allowed-Allowed : (cs : List VenueCost) → Allowed (keep_allowed exclude cs)
  keep_allowed-Allowed [] = _
  keep_allowed-Allowed (c ∷ cs) = ground (arith, keep_allowed-Allowed cs)

  min_by-Allowed :
      (key : VenueCost → ℤ) (best : VenueCost) (cs : List VenueCost)
      → excludes exclude best.venue ≡ false
      → Allowed cs
      → excludes exclude (min_by key best cs).venue ≡ false
  min_by-Allowed key best [] b h = b
  min_by-Allowed key best (c ∷ cs) b (h, hs) = elim (Bool-cases (ltb_ℤ (key c) (key best))) [
    | inl less ↦ rw (min_by, less) (min_by-Allowed key c cs h hs)
    | inr more ↦ rw (min_by, more) (min_by-Allowed key best cs b hs)
  ]

  dark_or-Allowed :
      (cs : List VenueCost) (other : RoutingDecision)
      → Allowed cs
      → excludes exclude other.venue ≡ false
      → excludes exclude (dark_or cs other).venue ≡ false
  dark_or-Allowed [] other h o = o
  dark_or-Allowed (c ∷ cs) other (h, hs) o = elim (Bool-cases (is_dark c)) [
    | inl dark ↦ rw (dark_or, dark) (sym (excludes_same exclude c.venue dark_pool dark) ∙ h)
    | inr lit ↦ rw (dark_or, lit) (dark_or-Allowed cs other hs o)
  ]

  choose-Allowed :
      (is_aggressive : Bool) (mode : Urgency) (qty : ℕ) (c : VenueCost) (cs : List VenueCost)
      → Allowed (c ∷ cs)
      → excludes exclude (choose is_aggressive mode qty (c ∷ cs)).venue ≡ false
  unfolding choose
  choose-Allowed a normal qty c cs (h, hs) = min_by-Allowed (cost_of a) c cs h hs
  choose-Allowed a urgent qty c cs (h, hs) = min_by-Allowed latency_of c cs h hs
  choose-Allowed a stealth qty c cs (h, hs) = elim (Bool-cases (ltb 5000 qty)) [
    | inl large ↦
        rw large (
          dark_or-Allowed (c ∷ cs) (cheapest a c cs) (h, hs) (min_by-Allowed (cost_of a) c cs h hs))
    | inr small ↦ rw small (min_by-Allowed (cost_of a) c cs h hs)
  ]

routed :
    (a : Bool) (mode : Urgency) (qty : ℕ) (exclude : List OrderVenue) (cs : List VenueCost)
    → Allowed exclude cs
    → keep_allowed exclude venue_costs ≡ cs
    → (excludes exclude (choose a mode qty cs).venue ≡ false)
      ⊎ ((keep_allowed exclude venue_costs ≡ []) × ((choose a mode qty cs).venue ≡ nasdaq))
unfolding choose
routed a mode qty exclude [] h e = inr (e, refl)
routed a mode qty exclude (c ∷ cs) h e = inl (choose-Allowed exclude a mode qty c cs h)

ge_of_ltb : (a b : ℕ) → ltb a b ≡ false → b ≤ a
ge_of_ltb a b h = ground arith

module _ (key : VenueCost → ℤ) where
  -- No venue of the list has a lower key.
  abbrev pub Least : ℤ → List VenueCost → Type 0
  Least k [] = Unit
  Least k (c ∷ cs) = (k ≤ℤ key c) × Least k cs

  pub min_by-le : (cs : List VenueCost) (best : VenueCost) → key (min_by key best cs) ≤ℤ key best
  min_by-le [] best = omega arith
  min_by-le (c ∷ cs) best = elim (Bool-cases (ltb_ℤ (key c) (key best))) [
    | inl less ↦ rw (min_by, less) (omega (arith, min_by-le cs c, ltb→lt _ _ less))
    | inr more ↦ rw (min_by, more) (min_by-le cs best)
  ]

  abbrev better : VenueCost → VenueCost → VenueCost
  better c best = if ltb_ℤ (key c) (key best) then c else best

  better-le : (c best : VenueCost) → key (better c best) ≤ℤ key c
  better-le c best = elim (Bool-cases (ltb_ℤ (key c) (key best))) [
    | inl less ↦ rw (better, less) (omega arith)
    | inr more ↦ rw (better, more) (omega (arith, ge_of_ltb _ _ more))
  ]

  pub min_by-Least : (cs : List VenueCost) (best : VenueCost) → Least (key (min_by key best cs)) cs
  min_by-Least [] best = _
  min_by-Least (c ∷ cs) best = (
    omega (arith, min_by-le cs (better c best), better-le c best),
    min_by-Least cs (better c best),
  )

-- An order of any side, mode and size goes to a venue that is not excluded, or else every
-- venue of the table is excluded, and it goes to NASDAQ all the same.
pub route_order-allowed :
    (is_aggressive : Bool) (mode : Urgency) (qty : ℕ) (exclude : List OrderVenue)
    → let d = route_order is_aggressive mode qty exclude in
      (excludes exclude d.venue ≡ false)
      ⊎ ((keep_allowed exclude venue_costs ≡ []) × (d.venue ≡ nasdaq))
unfolding route_order choose
route_order-allowed a mode qty exclude =
    routed a mode qty exclude (keep_allowed exclude venue_costs)
      (keep_allowed-Allowed exclude venue_costs) refl
