-- ===== src/Toxicity/Choice.antt =====
-- Which venue is chosen.
use nexus_trading.Base.{
  Floats, ℕ, ◌≡◌, ◌≢◌, refl, sym, ap, subst, inl, inr, ◌⊎◌, ◌==◌, true, false, Option, none, some,
  List, [], ◌∷◌, max, elem, if◌then◌else◌, Bool-cases, ==_iff, arith,
}
use nexus_trading.Broker.Venues.{iex, nasdaq, bats, dark_pool, number}
use nexus_trading.Toxicity.Tracker.{
  MathOps, Urgency, urgent, stealth, normal, VenueToxicityTracker, ucb1_score, is_toxic, remaining,
  or_first, preferred, best_of, select_venue, best_or_first, or_best, select_among,
  select_remaining,
}

remaining-elem :
    (v : ℕ) (exclude candidates : List ℕ)
    → elem v (remaining exclude candidates) ≡ true
    → (elem v candidates ≡ true) × (elem v exclude ≡ false)
remaining-elem v exclude [] h = absurd (ground (arith, h))
remaining-elem v exclude (c ∷ cs) h = elim (Bool-cases (elem c exclude)) [
  | inl out ↦
      let r = remaining-elem v exclude cs (ground (arith, h, out)) in (ground (arith, r.0), r.1)
  | inr stays ↦ elim (Bool-cases (c == v)) [
    | inl same ↦
        (ground (arith, same), subst (λ u. elem u exclude ≡ false) ((==_iff c v).0 same) stays)
    | inr other ↦
        let r = remaining-elem v exclude cs (ground (arith, h, stays, other)) in
        (ground (arith, r.0), r.1)
  ]
]

preferred-elem :
    (ps available : List ℕ) (v : ℕ) → preferred ps available ≡ some v → elem v available ≡ true
preferred-elem [] available v e = absurd (ground (arith, e))
preferred-elem (p ∷ ps) available v e = elim (Bool-cases (elem p available)) [
  | inl here ↦
      let same : some p ≡ some v =
        subst (λ b. (if b then some p else preferred ps available) ≡ some v) here e in
      ground (arith, here, same)
  | inr gone ↦
      preferred-elem ps available v
        (subst (λ b. (if b then some p else preferred ps available) ≡ some v) gone e)
]

elem_other : (w : ℕ) (ws : List ℕ) (u : ℕ) → elem u (w ∷ ws) ≡ true → w ≢ u → elem u ws ≡ true
elem_other w ws u i h = ground (arith, i, h)

module _ {F : Floats} (M : MathOps F) (k : VenueToxicityTracker F) (t : ℕ) where
  abbrev Chosen : Option ℕ → List ℕ → ℕ → Type 0
  Chosen best vs v = (best ≡ some v) ⊎ ((elem v vs ≡ true) × (is_toxic M k v ≡ false))

  later :
      (best : Option ℕ) (u : ℕ) (us : List ℕ) (v : ℕ) → Chosen best us v → Chosen best (u ∷ us) v
  later best u us v (inl e) = inl e
  later best u us v (inr h) = inr (ground (arith, h.0), h.1)

  picked :
      (best : Option ℕ) (u : ℕ) (us : List ℕ) (v : ℕ)
      → is_toxic M k u ≡ false
      → Chosen (some u) us v
      → Chosen best (u ∷ us) v
  picked best u us v clean (inl e) =
      let same : u ≡ v = ground (arith, e) in
      inr (ground (arith, same), subst (λ w. is_toxic M k w ≡ false) same clean)
  picked best u us v clean (inr h) = inr (ground (arith, h.0), h.1)

  -- What the loop returns is what it began with, or an available venue that is not toxic.
  best_of-elem :
      (best : Option ℕ) (score : F.Float) (vs : List ℕ) (v : ℕ)
      → best_of M k t best score vs ≡ some v
      → (best ≡ some v) ⊎ ((elem v vs ≡ true) × (is_toxic M k v ≡ false))
  best_of-elem best score [] v e = inl e
  best_of-elem best score (u ∷ us) v e = elim (Bool-cases (is_toxic M k u)) [
    | inl toxic ↦ later best u us v (best_of-elem best score us v (rw toxic at e))
    | inr clean ↦ elim (Bool-cases (F.float_ltb score (ucb1_score M k u t))) [
      | inl higher ↦
          picked best u us v clean (best_of-elem (some u) _ us v (rw (clean, higher) at e))
      | inr lower ↦ later best u us v (best_of-elem best score us v (rw (clean, lower) at e))
    ]
  ]

  -- A best venue is never given up for none.
  best_of-kept :
      (b : ℕ) (score : F.Float) (vs : List ℕ) → (v : ℕ) × (best_of M k t (some b) score vs ≡ some v)
  best_of-kept b score [] = (b, refl)
  best_of-kept b score (u ∷ us) = elim (Bool-cases (is_toxic M k u)) [
    | inl toxic ↦ rw toxic (best_of-kept b score us)
    | inr clean ↦ elim (Bool-cases (F.float_ltb score (ucb1_score M k u t))) [
      | inl higher ↦ rw (clean, higher) (best_of-kept u _ us)
      | inr lower ↦ rw (clean, lower) (best_of-kept b score us)
    ]
  ]

  toxic_other : (w u : ℕ) → w ≡ u → is_toxic M k w ≡ true → is_toxic M k u ≢ false
  toxic_other w u e h c =
      let d : is_toxic M k u ≡ true = subst (λ x. is_toxic M k x ≡ true) e h in ground (arith, c, d)

  lower_other :
      (score : F.Float) (w u : ℕ)
      → w ≡ u
      → F.float_ltb score (ucb1_score M k w t) ≡ false
      → F.float_ltb score (ucb1_score M k u t) ≢ true
  lower_other score w u e h c =
      let d : F.float_ltb score (ucb1_score M k u t) ≡ false =
        subst (λ x. F.float_ltb score (ucb1_score M k x t) ≡ false) e h in
      ground (arith, c, d)

  -- A venue that is not toxic and scores higher than the start is enough to find one.
  best_of-found :
      (score : F.Float) (vs : List ℕ) (u : ℕ)
      → elem u vs ≡ true
      → is_toxic M k u ≡ false
      → F.float_ltb score (ucb1_score M k u t) ≡ true
      → (v : ℕ) × (best_of M k t none score vs ≡ some v)
  best_of-found score [] u i c h = absurd (ground (arith, i))
  best_of-found score (w ∷ ws) u i c h = elim (Bool-cases (is_toxic M k w)) [
    | inl toxic ↦
        rw toxic
          (best_of-found score ws u (elem_other w ws u i (λ e. toxic_other w u e toxic c)) c h)
    | inr clean ↦ elim (Bool-cases (F.float_ltb score (ucb1_score M k w t))) [
      | inl higher ↦ rw (clean, higher) (best_of-kept w _ ws)
      | inr lower ↦
          rw (clean, lower)
            (best_of-found score ws u (elem_other w ws u i (λ e. lower_other score w u e lower h)) c
              h)
    ]
  ]

module _ {F : Floats} (M : MathOps F) (k : VenueToxicityTracker F) where
  -- The choice is one of the available venues, of which there is at least one.
  abbrev ChoosesFrom : List ℕ → Option ℕ → Type 0
  ChoosesFrom vs chosen = (v : ℕ) × (chosen ≡ some v) × (elem v vs ≡ true)

  first_from : (v : ℕ) (vs : List ℕ) → elem v (v ∷ vs) ≡ true
  first_from v vs = ground arith

  or_first_from :
      (best : Option ℕ) (v : ℕ) (vs : List ℕ)
      → ((w : ℕ) → best ≡ some w → elem w (v ∷ vs) ≡ true)
      → ChoosesFrom (v ∷ vs) (or_first best (v ∷ vs))
  or_first_from none v vs h = (v, refl, first_from v vs)
  or_first_from (some w) v vs h = (w, refl, h w refl)

  best_from : (v : ℕ) (vs : List ℕ) → ChoosesFrom (v ∷ vs) (best_or_first M k (v ∷ vs))
  best_from v vs =
      let t = max 1 k.total_selections in
      or_first_from _ v vs (λ w e. elim (best_of-elem M k t none M.minus_infinity (v ∷ vs) w e) [
        | inl none_yet ↦ absurd (ground (arith, none_yet))
        | inr h ↦ h.0
      ])

  or_best_from :
      (found : Option ℕ) (v : ℕ) (vs : List ℕ)
      → ((w : ℕ) → found ≡ some w → elem w (v ∷ vs) ≡ true)
      → ChoosesFrom (v ∷ vs) (or_best M found k (v ∷ vs))
  or_best_from none v vs h = best_from v vs
  or_best_from (some w) v vs h = (w, refl, h w refl)

  among :
      (how : Urgency) (v : ℕ) (vs : List ℕ) → ChoosesFrom (v ∷ vs) (select_among M k how (v ∷ vs))
  among urgent v vs =
      or_first_from _ v vs (preferred-elem (number iex ∷ number nasdaq ∷ number bats ∷ []) (v ∷ vs))
  among stealth v vs = or_best_from _ v vs (preferred-elem (number dark_pool ∷ []) (v ∷ vs))
  among normal v vs = best_from v vs

  nonempty_choice :
      (candidates exclude : List ℕ) (how : Urgency) (vs : List ℕ) (u : ℕ)
      → remaining exclude candidates ≡ vs
      → elem u vs ≡ true
      → (v : ℕ) × (select_remaining M k candidates how vs ≡ some v)
        × (elem v candidates ≡ true)
        × (elem v exclude ≡ false)
  nonempty_choice candidates exclude how [] u e h = absurd (ground (arith, h))
  nonempty_choice candidates exclude how (w ∷ ws) u e h =
      let (v, chosen, i) = among how w ws in
      let r = remaining-elem v exclude candidates (subst (λ l. elem v l ≡ true) (sym e) i) in
      (v, chosen, r.0, r.1)

  clean_choice :
      (candidates vs : List ℕ) (u : ℕ)
      → elem u vs ≡ true
      → is_toxic M k u ≡ false
      → F.float_ltb M.minus_infinity (ucb1_score M k u (max 1 k.total_selections)) ≡ true
      → (v : ℕ) × (select_remaining M k candidates normal vs ≡ some v) × (is_toxic M k v ≡ false)
  clean_choice candidates [] u i c s = absurd (ground (arith, i))
  clean_choice candidates (w ∷ ws) u i c s =
      let t = max 1 k.total_selections in
      let (v, found) = best_of-found M k t M.minus_infinity (w ∷ ws) u i c s in
      let clean : is_toxic M k v ≡ false =
        elim (best_of-elem M k t none M.minus_infinity (w ∷ ws) v found) [
          | inl none_yet ↦ absurd (ground (arith, none_yet))
          | inr h ↦ h.1
        ] in
      (v, ap (λ b. or_first b (w ∷ ws)) found, clean)

  -- With at least one candidate that is not excluded, the choice, whatever the urgency, is a
  -- candidate that is not excluded.
  pub select_venue_lem :
      (candidates exclude : List ℕ) (how : Urgency) (u : ℕ)
      → elem u (remaining exclude candidates) ≡ true
      → (v : ℕ) × (select_venue M k candidates how exclude ≡ some v)
        × (elem v candidates ≡ true)
        × (elem v exclude ≡ false)
  unfolding select_venue
  select_venue_lem candidates exclude how u h =
      nonempty_choice candidates exclude how (remaining exclude candidates) u refl h

  -- A normal choice is not toxic, when a candidate that is not excluded is not toxic and has a
  -- score above minus infinity.
  pub normal_choice_clean :
      (candidates exclude : List ℕ) (u : ℕ)
      → elem u (remaining exclude candidates) ≡ true
      → is_toxic M k u ≡ false
      → F.float_ltb M.minus_infinity (ucb1_score M k u (max 1 k.total_selections)) ≡ true
      → (v : ℕ) × (select_venue M k candidates normal exclude ≡ some v) × (is_toxic M k v ≡ false)
  unfolding select_venue
  normal_choice_clean candidates exclude u h c s =
      clean_choice candidates (remaining exclude candidates) u h c s
