-- ===== src/DataFeed/Gaps.antt =====
-- The test of the sequence numbers on the ticks that the feed makes.
use native.Mathlib.Decide.{dec_lt}
use nexus_trading.Base.{
  Floats, ℕ, ◌+◌, ◌-◌, ◌<◌, ◌≡◌, refl, sym, ap, ◌∙◌, true, false, none, some, List, [], ◌∷◌, ◌++◌,
  find, elem, if◌then◌else◌, ltb, lt→ltb, length, length-append, Option-cases, inl, inr, arith,
}
use nexus_trading.DataFeed.Ticks.{
  MarketTick, Quote, AlpacaDataFeed, Event, new_feed, get_latest_tick, run,
}
use nexus_trading.DataFeed.Caches.{part, map_option, newest, quotes_of, numbered, Cached}
use nexus_trading.DataFeed.Runs.{run-Cached, new_feed-Cached}
use nexus_trading.DataFeed.Sequence.{gap_after, check_sequence_gaps, gaps_of, check-gaps}

gap_window :
    (s old new : ℕ)
    → 0 < old
    → gap_after s (some (old - 1)) (old + new - 1) ≡ (
        if ltb 1 new
        then record { symbol = s; last_seq = old - 1; current_seq = old + new - 1 } ∷ []
        else [])
gap_window s old new l = elim (dec_lt 1 new) [
  | yes more ↦ rw (lt→ltb 1 new more, lt→ltb (old - 1 + 1) (old + new - 1) (omega arith)) refl
  | no few ↦
      let a : ltb 1 new ≡ false = ground arith in
      let b : ltb (old - 1 + 1) (old + new - 1) ≡ false = ground arith in rw (a, b) refl
]

some_inj : {a b : ℕ} → some a ≡ some b → a ≡ b
some_inj e = ground (arith, e)

newest-numbered :
    {F : Floats} (n : ℕ) (qs : List (Quote F))
    → 0 < length qs
    → map_option (λ p. p.sequence) (newest (numbered n qs)) ≡ some (n + length qs - 1)
newest-numbered n [] h = absurd (omega arith)
newest-numbered n (q ∷ []) h = ap some (omega arith)
newest-numbered n (q ∷ r ∷ qs) h =
    newest-numbered (n + 1) (r ∷ qs) (omega arith) ∙ ap some (omega arith)

module _ {F : Floats} where
  -- A symbol with quotes has a latest tick, numbered by them.
  latest-Cached :
      (upper : ℕ → ℕ) (s : ℕ) (qs : List (Quote F)) (f : AlpacaDataFeed F)
      → upper s ≡ s
      → 0 < length qs
      → Cached s qs f
      → (t : MarketTick F) × (get_latest_tick upper s f ≡ some t) × (t.sequence ≡ length qs - 1)
  unfolding get_latest_tick
  latest-Cached upper s qs f e l h = elim (Option-cases (find f.latest_ticks s)) [
    | inl missing ↦
        let chain : none ≡ some (0 + length qs - 1) =
          ap (map_option (λ p. p.sequence)) (ap (map_option part) (sym missing) ∙ h.latest)
          ∙ newest-numbered 0 qs l in
        absurd (ground (arith, chain))
    | inr (t, found) ↦ rw e (
      t,
      found,
      some_inj (
          ap (map_option (λ p. p.sequence)) (ap (map_option part) (sym found) ∙ h.latest)
          ∙ newest-numbered 0 qs l
          ∙ ap some (omega arith)),
    )
  ]

  -- A symbol that `upper` leaves alone and that the agent watches, with at least one quote before a
  -- check of the sequence numbers: the next check, after any further series of events, reports one
  -- gap for the symbol, from the number of its last quote before to that of its last quote now, when
  -- two quotes or more have arrived in between, and none otherwise; and yet no tick is missing.
  pub gaps_lem :
      (upper : ℕ → ℕ) (size : ℕ) (before between : List (Event F)) (watched : List ℕ) (s : ℕ)
      (seen : List (ℕ × ℕ))
      → upper s ≡ s
      → elem s watched ≡ true
      → 0 < length (quotes_of s before)
      → let f = run upper before (new_feed F size) in
        let g = run upper between f in
        let now_seen = (check_sequence_gaps upper watched f seen).1 in
        let old = length (quotes_of s before) in
        let new = length (quotes_of s between) in
        gaps_of s (check_sequence_gaps upper watched g now_seen).0 ≡ (
          if ltb 1 new
          then record { symbol = s; last_seq = old - 1; current_seq = old + new - 1 } ∷ []
          else [])
  gaps_lem upper size before between watched s seen e w l =
      let f = run upper before (new_feed F size) in
      let g = run upper between f in
      let h = run-Cached upper before s [] (new_feed F size) (new_feed-Cached size s) in
      let k = run-Cached upper between s (quotes_of s before) f h in
      let (t, lt, nt) = latest-Cached upper s (quotes_of s before) f e l h in
      let (u, lu, nu) =
        latest-Cached upper s (quotes_of s before ++ quotes_of s between) g e
          (omega (arith, length-append (quotes_of s before) (quotes_of s between))) k in
      let seen_now = (check-gaps upper s t watched f seen w lt).0 in
      (check-gaps upper s u watched g (check_sequence_gaps upper watched f seen).1 w lu).1
      ∙ ap (λ o. gap_after s o u.sequence) (seen_now ∙ ap some nt)
      ∙ ap (gap_after s (some (length (quotes_of s before) - 1)))
          (nu ∙ ap (λ n. n - 1) (length-append (quotes_of s before) (quotes_of s between)))
      ∙ gap_window s (length (quotes_of s before)) (length (quotes_of s between)) l
