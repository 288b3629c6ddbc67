-- ===== src/DarkPool/Runs.antt =====
-- Series of orders and inventory updates: the statistics and the shares that leave the inventory.
use nexus_trading.Base.{
  Floats, Division, ℕ, ◌+◌, ◌≡◌, refl, sym, ap, ◌∙◌, List, [], ◌∷◌, ◌++◌, Result, ok, ◌>>=◌, arith,
}
use nexus_trading.DarkPool.Ats.{
  Error, IncomingOrder, CrossedTrade, AtsStats, Parameters, DarkPoolAts, no_stats, new_ats,
  update_inventory, route,
}
use nexus_trading.DarkPool.Routes.{Routed, route_lem, count, crossed_qty, long_of}

module _ (F : Floats) where
  -- An order with the market that it meets, or an update: symbol, long, short, average cost.
  pub data Op : Type 0 where
    routes : IncomingOrder F → F.Float → F.Float → Op
    updates : ℕ → ℕ → ℕ → F.Float → Op

  unfoldable pub step : Parameters F → Op → DarkPoolAts F → Result Error (DarkPoolAts F)
  step c (routes o bid ask) a = route F c o bid ask a >>= λ r. ok (r.1)
  step c (updates symbol long short cost) a = ok (update_inventory F symbol long short cost a)

  unfoldable pub run : Parameters F → List Op → DarkPoolAts F → Result Error (DarkPoolAts F)
  unfolding step
  run c [] a = ok a
  run c (x ∷ xs) a = step c x a >>= λ b. run c xs b

  -- The statistics of a list of trades, and the shares of a symbol that they cross.
  abbrev pub tally : List (CrossedTrade F) → AtsStats F → AtsStats F
  tally [] s = s
  tally (t ∷ ts) s = tally ts (count t s)

  abbrev pub crossed_shares : ℕ → List (CrossedTrade F) → ℕ
  crossed_shares symbol [] = 0
  crossed_shares symbol (t ∷ ts) = crossed_qty symbol t + crossed_shares symbol ts

  -- No update of the inventory.
  abbrev pub only_routes : List (IncomingOrder F × F.Float × F.Float) → List Op
  only_routes [] = []
  only_routes ((o, bid, ask) ∷ rest) = routes o bid ask ∷ only_routes rest

module _ {F : Floats} where
  tally-append :
      (ts us : List (CrossedTrade F)) (s : AtsStats F)
      → tally F (ts ++ us) s ≡ tally F us (tally F ts s)
  tally-append [] us s = refl
  tally-append (t ∷ ts) us s = tally-append ts us (count t s)

  crossed_shares-append :
      (symbol : ℕ) (ts us : List (CrossedTrade F))
      → crossed_shares F symbol (ts ++ us) ≡ crossed_shares F symbol ts + crossed_shares F symbol us
  crossed_shares-append symbol [] us = omega arith
  crossed_shares-append symbol (t ∷ ts) us = omega (arith, crossed_shares-append symbol ts us)

  abbrev Tallied : DarkPoolAts F → Type 0
  Tallied a = a.stats ≡ tally F a.trades (no_stats F)

  Routed-Tallied :
      (c : Parameters F) (o : IncomingOrder F) (bid ask : F.Float) (a a' : DarkPoolAts F)
      (t : CrossedTrade F)
      → Routed c o bid ask a t a'
      → Tallied a
      → Tallied a'
  Routed-Tallied c o bid ask a a' t r h =
      r.counted
      ∙ ap (count t) h
      ∙ sym (tally-append a.trades (t ∷ []) (no_stats F))
      ∙ ap (λ ts. tally F ts (no_stats F)) (sym r.recorded)

  run-Tallied :
      (c : Parameters F) (xs : List (Op F)) (a : DarkPoolAts F)
      → Division F
      → Tallied a
      → (a' : DarkPoolAts F) × (run F c xs a ≡ ok a') × Tallied a'
  unfolding run step update_inventory
  run-Tallied c [] a d h = (a, refl, h)
  run-Tallied c (updates symbol long short cost ∷ xs) a d h =
      run-Tallied c xs (update_inventory F symbol long short cost a) d h
  run-Tallied c (routes o bid ask ∷ xs) a d h =
      let (t, b, e, r) = route_lem c o bid ask a d in
      let (a', f, g) = run-Tallied c xs b d (Routed-Tallied c o bid ask a b t r h) in
      (a', ap (λ q. (q >>= λ s. ok (s.1)) >>= λ s. run F c xs s) e ∙ f, g)

  -- Where divisions raise only by zero: any series of orders and inventory updates from the start
  -- raises nothing, and the statistics are those of the recorded trades, counted one by one in
  -- order: how many were crossed and how many went out, and their shares, payments and fees.
  pub run-stats :
      (c : Parameters F) (xs : List (Op F))
      → Division F
      → (a : DarkPoolAts F) × (run F c xs (new_ats F) ≡ ok a)
        × (a.stats ≡ tally F a.trades (no_stats F))
  unfolding new_ats
  run-stats c xs d = run-Tallied c xs (new_ats F) d refl

  -- Where divisions raise only by zero: between two updates of the inventory, the long quantity of
  -- a symbol and the shares of it that were crossed add up to the same number, whatever the orders:
  -- a cross takes its shares out of the inventory also when the client sells.
  pub shares_leave :
      (c : Parameters F) (os : List (IncomingOrder F × F.Float × F.Float)) (a : DarkPoolAts F)
      (symbol : ℕ)
      → Division F
      → (a' : DarkPoolAts F) × (run F c (only_routes F os) a ≡ ok a')
        × (long_of symbol a'.inventory + crossed_shares F symbol a'.trades
            ≡ long_of symbol a.inventory + crossed_shares F symbol a.trades)
  unfolding run step
  shares_leave c [] a symbol d = (a, refl, refl)
  shares_leave c ((o, bid, ask) ∷ os) a symbol d =
      let (t, b, e, r) = route_lem c o bid ask a d in
      let (a', f, g) = shares_leave c os b symbol d in
      let more : crossed_shares F symbol b.trades
          ≡ crossed_shares F symbol a.trades + crossed_qty symbol t =
        ap (crossed_shares F symbol) r.recorded
        ∙ crossed_shares-append symbol a.trades (t ∷ [])
        ∙ omega arith in
      let left = r.shares symbol in
      (
        a',
        ap (λ q. (q >>= λ s. ok (s.1)) >>= λ s. run F c (only_routes F os) s) e ∙ f,
        omega (arith, g, more, left),
      )
