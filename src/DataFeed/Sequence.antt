-- ===== src/DataFeed/Sequence.antt =====
-- DataIntegrityAgent._check_sequence_gaps on the ticks of the feed.
use mathlib.Core.List.{append-nil}
use native.Mathlib.Decide.{ℕ_discrete}
use nexus_trading.Base.{
  Floats, ℕ, ◌+◌, ◌==◌, ◌≡◌, ◌≢◌, refl, ap, ◌∙◌, true, Option, none, some, List, [], ◌∷◌, ◌++◌,
  find, store, find-store, find-store_ne, elem, if◌then◌else◌, ltb, arith,
}
use nexus_trading.DataFeed.Ticks.{MarketTick, AlpacaDataFeed, get_latest_tick}

-- One anomaly with its text: the symbol and the two numbers that the text has.
pub record Gap : Type 0 where
  pub symbol : ℕ
  pub last_seq : ℕ
  pub current_seq : ℕ

-- The test of one symbol against the number that was seen last.
abbrev pub gap_after : ℕ → Option ℕ → ℕ → List Gap
gap_after s none current = []
gap_after s (some seen) current =
    if ltb (seen + 1) current
    then record { symbol = s; last_seq = seen; current_seq = current } ∷ []
    else []

module _ {F : Floats} where
  abbrev pub check_symbol : ℕ → Option (MarketTick F) → List (ℕ × ℕ) → List Gap × List (ℕ × ℕ)
  check_symbol s none seen = ([], seen)
  check_symbol s (some tick) seen =
      (gap_after s (find seen s) tick.sequence, store seen s tick.sequence)

  -- `_check_sequence_gaps`: the anomalies, and the numbers seen last
  unfoldable pub check_sequence_gaps :
      (ℕ → ℕ) → List ℕ → AlpacaDataFeed F → List (ℕ × ℕ) → List Gap × List (ℕ × ℕ)
  check_sequence_gaps upper [] f seen = ([], seen)
  check_sequence_gaps upper (s ∷ ss) f seen =
      let (gaps, now_seen) = check_symbol s (get_latest_tick upper s f) seen in
      let (more, at_end) = check_sequence_gaps upper ss f now_seen in (gaps ++ more, at_end)

-- The anomalies of one symbol.
abbrev pub gaps_of : ℕ → List Gap → List Gap
gaps_of s [] = []
gaps_of s (g ∷ gs) = if g.symbol == s then g ∷ gaps_of s gs else gaps_of s gs

gaps_of-append : (s : ℕ) (xs ys : List Gap) → gaps_of s (xs ++ ys) ≡ gaps_of s xs ++ gaps_of s ys
gaps_of-append s [] ys = refl
gaps_of-append s (x ∷ xs) ys = ground (arith, gaps_of-append s xs ys)

gaps_of-gap_after : (s : ℕ) (o : Option ℕ) (n : ℕ) → gaps_of s (gap_after s o n) ≡ gap_after s o n
gaps_of-gap_after s none n = refl
gaps_of-gap_after s (some seen) n = ground arith

gaps_of_other : (s k : ℕ) (o : Option ℕ) (n : ℕ) → k ≢ s → gaps_of s (gap_after k o n) ≡ []
gaps_of_other s k none n ne = refl
gaps_of_other s k (some seen) n ne = ground arith

gap_after_self : (s n : ℕ) → gap_after s (some n) n ≡ []
gap_after_self s n = ground arith

gaps_of_own :
    (s : ℕ) (o : Option ℕ) (n : ℕ) (rest : List Gap)
    → gaps_of s rest ≡ []
    → gaps_of s (gap_after s o n ++ rest) ≡ gap_after s o n
gaps_of_own s o n rest e =
    gaps_of-append s (gap_after s o n) rest
    ∙ rw (gaps_of-gap_after s o n, e) (append-nil (gap_after s o n))

module _ {F : Floats} (upper : ℕ → ℕ) (s : ℕ) (t : MarketTick F) where
  other-seen :
      (k : ℕ) (o : Option (MarketTick F)) (seen : List (ℕ × ℕ))
      → k ≢ s
      → find (check_symbol k o seen).1 s ≡ find seen s
  other-seen k none seen ne = refl
  other-seen k (some x) seen ne = find-store_ne seen k s _ ne

  other-gaps :
      (k : ℕ) (o : Option (MarketTick F)) (seen : List (ℕ × ℕ))
      → k ≢ s
      → gaps_of s (check_symbol k o seen).0 ≡ []
  other-gaps k none seen ne = refl
  other-gaps k (some x) seen ne = gaps_of_other s k (find seen k) x.sequence ne

  -- A symbol whose latest tick was seen.
  seen_already :
      (ss : List ℕ) (f : AlpacaDataFeed F) (seen : List (ℕ × ℕ))
      → get_latest_tick upper s f ≡ some t
      → find seen s ≡ some t.sequence
      → (find (check_sequence_gaps upper ss f seen).1 s ≡ some t.sequence)
        × (gaps_of s (check_sequence_gaps upper ss f seen).0 ≡ [])
  unfolding check_sequence_gaps
  seen_already [] f seen l h = (h, refl)
  seen_already (k ∷ ss) f seen l h =
      let o = get_latest_tick upper k f in
      let next = (check_symbol k o seen).1 in
      elim (ℕ_discrete k s) [
        | yes e ↦
            let (a, b) =
              seen_already ss f (store seen s t.sequence) l (find-store seen s t.sequence) in
            rw (e, l)
              (a, gaps_of_own s (find seen s) t.sequence _ b ∙ rw h (gap_after_self s t.sequence))
        | no ne ↦
            let (a, b) = seen_already ss f next l (other-seen k o seen ne ∙ h) in
            (a, gaps_of-append s (check_symbol k o seen).0 _ ∙ rw (other-gaps k o seen ne) b)
      ]

  pub check-gaps :
      (ss : List ℕ) (f : AlpacaDataFeed F) (seen : List (ℕ × ℕ))
      → elem s ss ≡ true
      → get_latest_tick upper s f ≡ some t
      → (find (check_sequence_gaps upper ss f seen).1 s ≡ some t.sequence)
        × (gaps_of s (check_sequence_gaps upper ss f seen).0 ≡ gap_after s (find seen s) t.sequence)
  unfolding check_sequence_gaps
  check-gaps [] f seen e l = absurd (ground arith)
  check-gaps (k ∷ ss) f seen e l =
      let o = get_latest_tick upper k f in
      let next = (check_symbol k o seen).1 in
      elim (ℕ_discrete k s) [
        | yes same ↦
            let (a, b) =
              seen_already ss f (store seen s t.sequence) l (find-store seen s t.sequence) in
            rw (same, l) (a, gaps_of_own s (find seen s) t.sequence _ b)
        | no ne ↦
            let (a, b) = check-gaps ss f next (ground (arith, e)) l in
            (
              a,
              gaps_of-append s (check_symbol k o seen).0 _
                  ∙ rw (other-gaps k o seen ne)
                      (b ∙ ap (λ x. gap_after s x t.sequence) (other-seen k o seen ne)),
            )
      ]
