-- ===== src/Broker/Costs.antt =====
-- The cost of a normal order against the table of venues.
use nexus_trading.Base.{
  ℕ, ◌≡◌, ◌≢◌, refl, sym, ap, ◌∙◌, subst, ◌⊎◌, inl, inr, ℤ, ◌+ℤ◌, ◌≤ℤ◌, ltb_ℤ, Bool, true, false,
  not, List, [], ◌∷◌, ◌==◌, ==_iff, if◌then◌else◌, arith, Bool-cases,
}
use nexus_trading.Broker.Venues.{
  OrderVenue, number, VenueCost, venue_costs, normal, excludes, keep_allowed, min_by, cost_of,
  total_taker_cost_bps, total_maker_cost_bps, choose, route_order,
}
use nexus_trading.Broker.Routing.{Least, min_by-le, min_by-Least}

abbrev pub Listed : OrderVenue → List OrderVenue → Type 0
Listed v [] = ⊥
Listed v (x ∷ xs) = (x ≡ v) ⊎ Listed v xs

abbrev pub Unlisted : OrderVenue → List OrderVenue → Type 0
Unlisted v [] = Unit
Unlisted v (x ∷ xs) = (x ≢ v) × Unlisted v xs

-- An entry of a table.
abbrev pub Among : VenueCost → List VenueCost → Type 0
Among c [] = ⊥
Among c (d ∷ ds) = (c ≡ d) ⊎ Among c ds

-- The taker's fee or the maker's rebate, with the fee of the exchange.
abbrev pub price_of : Bool → VenueCost → ℤ
price_of true c = c.taker_fee_bps +ℤ c.exchange_fee_bps
price_of false c = c.maker_rebate_bps +ℤ c.exchange_fee_bps

-- No entry of a table whose venue is not excluded has a lower price.
abbrev pub Cheapest : List OrderVenue → Bool → ℤ → List VenueCost → Type 0
Cheapest exclude is_aggressive cost [] = Unit
Cheapest exclude is_aggressive cost (c ∷ cs) =
    (Listed c.venue exclude ⊎ (cost ≤ℤ price_of is_aggressive c))
    × Cheapest exclude is_aggressive cost cs

number_inj : (v w : OrderVenue) → number v ≡ number w → v ≡ w
number_inj v w h = ground arith

excludes-Listed : (xs : List OrderVenue) (v : OrderVenue) → excludes xs v ≡ true → Listed v xs
excludes-Listed [] v h = absurd (ground (arith, h))
excludes-Listed (x ∷ xs) v h = elim (Bool-cases (number x == number v)) [
  | inl same ↦ inl (number_inj x v ((==_iff _ _).0 same))
  | inr other ↦ inr (excludes-Listed xs v (rw (excludes, other) at h))
]

excludes-Unlisted : (xs : List OrderVenue) (v : OrderVenue) → excludes xs v ≡ false → Unlisted v xs
excludes-Unlisted [] v h = _
excludes-Unlisted (x ∷ xs) v h = elim (Bool-cases (number x == number v)) [
  | inl same ↦ absurd (ground (arith, h, same))
  | inr other ↦ (λ e. ground (arith, other, e), excludes-Unlisted xs v (rw (excludes, other) at h))
]

Unlisted-excludes : (xs : List OrderVenue) (v : OrderVenue) → Unlisted v xs → excludes xs v ≡ false
Unlisted-excludes [] v h = refl
Unlisted-excludes (x ∷ xs) v (ne, h) = elim (Bool-cases (number x == number v)) [
  | inl same ↦ absurd (ne (number_inj x v ((==_iff _ _).0 same)))
  | inr other ↦ rw (excludes, other) (Unlisted-excludes xs v h)
]

cost_of-price_of : (a : Bool) (c : VenueCost) → cost_of a c ≡ price_of a c
unfolding cost_of total_taker_cost_bps total_maker_cost_bps
cost_of-price_of true c = refl
cost_of-price_of false c = refl

one_of : (b : Bool) (x y : VenueCost) → ((if b then x else y) ≡ x) ⊎ ((if b then x else y) ≡ y)
one_of true x y = inl refl
one_of false x y = inr refl

min_by-Among :
    (key : VenueCost → ℤ) (best : VenueCost) (cs : List VenueCost)
    → Among (min_by key best cs) (best ∷ cs)
min_by-Among key best [] = inl refl
min_by-Among key best (c ∷ cs) =
    let next : VenueCost = if ltb_ℤ (key c) (key best) then c else best in
    elim (min_by-Among key next cs) [
      | inr m ↦ inr (inr m)
      | inl e ↦ elim (one_of (ltb_ℤ (key c) (key best)) c best) [
        | inl f ↦ inr (inl (e ∙ f))
        | inr f ↦ inl (e ∙ f)
      ]
    ]

module _ (exclude : List OrderVenue) where
  keep_allowed-Among :
      (cs : List VenueCost) (b : VenueCost)
      → Among b (keep_allowed exclude cs)
      → Among b cs × Unlisted b.venue exclude
  keep_allowed-Among [] b h = elim h [ ]
  keep_allowed-Among (c ∷ cs) b h = elim (Bool-cases (excludes exclude c.venue)) [
    | inl out ↦ let (m, u) = keep_allowed-Among cs b (rw (keep_allowed, out) at h) in (inr m, u)
    | inr kept ↦
        let h' : Among b (c ∷ keep_allowed exclude cs) = rw (keep_allowed, kept) at h in
        elim h' [
          | inl e ↦ (inl e, rw e (excludes-Unlisted exclude c.venue kept))
          | inr m ↦ let (n, u) = keep_allowed-Among cs b m in (inr n, u)
        ]
  ]

  Least-Cheapest :
      (a : Bool) (k : ℤ) (cs : List VenueCost)
      → Least (cost_of a) k (keep_allowed exclude cs)
      → Cheapest exclude a k cs
  Least-Cheapest a k [] h = _
  Least-Cheapest a k (c ∷ cs) h = elim (Bool-cases (excludes exclude c.venue)) [
    | inl out ↦ (
      inl (excludes-Listed exclude c.venue out),
      Least-Cheapest a k cs (rw (keep_allowed, out) at h),
    )
    | inr kept ↦
        let both : Least (cost_of a) k (c ∷ keep_allowed exclude cs) =
          rw (keep_allowed, kept) at h in
        (inr (subst (λ x. k ≤ℤ x) (cost_of-price_of a c) both.0), Least-Cheapest a k cs both.1)
  ]

  not_empty :
      (cs : List VenueCost) (c : VenueCost)
      → Among c cs
      → excludes exclude c.venue ≡ false
      → (d : VenueCost) × (ds : List VenueCost) × (keep_allowed exclude cs ≡ d ∷ ds)
  not_empty [] c m h = elim m [ ]
  not_empty (d ∷ ds) c m h = elim (Bool-cases (excludes exclude d.venue)) [
    | inr kept ↦ (d, keep_allowed exclude ds, rw (keep_allowed, kept) refl)
    | inl out ↦ elim m [
      | inl e ↦
          let shut = subst (λ x. excludes exclude x.venue ≡ true) (sym e) out in
          absurd (ground (arith, h, shut))
      | inr n ↦ rw (keep_allowed, out) (not_empty ds c n h)
    ]
  ]

-- A normal order of any side and size, with at least one venue of the table not excluded, goes to a
-- venue of the table that is not excluded, at the price of that venue: for an aggressive order the
-- taker's fee and the exchange's, for any other the maker's rebate and the exchange's fee. No venue of
-- the table that is not excluded has a lower price.
pub normal_order-Cheapest :
    (is_aggressive : Bool) (qty : ℕ) (exclude : List OrderVenue) (c : VenueCost)
    → Among c venue_costs
    → Unlisted c.venue exclude
    → let d = route_order is_aggressive normal qty exclude in
      (best : VenueCost) × Among best venue_costs
      × Unlisted best.venue exclude
      × (d.venue ≡ best.venue)
      × (d.estimated_cost_bps ≡ price_of is_aggressive best)
      × (d.is_maker ≡ not is_aggressive)
      × Cheapest exclude is_aggressive d.estimated_cost_bps venue_costs
unfolding route_order choose
normal_order-Cheapest a qty exclude c here allowed =
    let (e, es, left) =
      not_empty exclude venue_costs c here (Unlisted-excludes exclude c.venue allowed) in
    let best : VenueCost = min_by (cost_of a) e es in
    let at = subst (Among best) (sym left) (min_by-Among (cost_of a) e es) in
    let (known, open_venue) = keep_allowed-Among exclude venue_costs best at in
    let least : Least (cost_of a) (cost_of a best) (keep_allowed exclude venue_costs) =
      subst (Least (cost_of a) (cost_of a best)) (sym left)
        (min_by-le (cost_of a) es e, min_by-Least (cost_of a) es e) in
    let cheapest = Least-Cheapest exclude a (cost_of a best) venue_costs least in
    let routed = ap (choose a normal qty) left in
    let cost = ap (λ d. d.estimated_cost_bps) routed in
    (
      best,
      known,
      open_venue,
      ap (λ d. d.venue) routed,
      cost ∙ cost_of-price_of a best,
      ap (λ d. d.is_maker) routed,
      subst (λ k. Cheapest exclude a k venue_costs) (sym cost) cheapest,
    )
