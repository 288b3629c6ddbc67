-- ===== src/Toxicity/Books.antt =====
-- Fills and their markouts: each markout is counted once.
use nexus_trading.Base.{
  Floats, ℕ, suc, ◌+◌, ◌≡◌, ◌≤◌, refl, sym, ap, subst, ◌∙◌, inl, inr, ◌==◌, Option, none, some,
  List, [], ◌∷◌, find, store, erase, find-erase, length, if◌then◌else◌, Bool-cases, arith,
}
use nexus_trading.Toxicity.Tracker.{
  MathOps, VenueStats, FillRecord, VenueToxicityTracker, new_tracker, stats_of, change_found,
  record_fill, reward_found, markout_found, record_markout, markout_of, rewarded, filled,
}

-- The selections of all venues together.
abbrev pub selections : {F : Floats} → List (ℕ × VenueStats F) → ℕ
selections [] = 0
selections ((v, s) ∷ rest) = s.n_selections + selections rest

abbrev selected : {F : Floats} → Option (VenueStats F) → ℕ
selected none = 0
selected (some x) = x.n_selections

selections-store :
    {F : Floats} (d : List (ℕ × VenueStats F)) (v : ℕ) (s s' : VenueStats F)
    → find d v ≡ some s
    → selections (store d v s') + s.n_selections ≡ selections d + s'.n_selections
selections-store [] v s s' e = absurd (ground (arith, e))
selections-store ((u, t) ∷ rest) v s s' e = elim (Bool-cases (u == v)) [
  | inl same ↦
      let k : some t ≡ some s = subst (λ b. (if b then some t else find rest v) ≡ some s) same e in
      let n : t.n_selections ≡ s.n_selections = ap selected k in rw same (omega (arith, n))
  | inr other ↦
      let k : find rest v ≡ some s =
        subst (λ b. (if b then some t else find rest v) ≡ some s) other e in
      rw other (omega (arith, selections-store rest v s s' k))
]

length-store :
    {V : Type 0} (d : List (ℕ × V)) (k : ℕ) (v : V) → length (store d k v) ≤ suc (length d)
length-store [] k v = omega arith
length-store ((j, u) ∷ rest) k v = ground (arith, length-store rest k v)

length-erase_le : {V : Type 0} (d : List (ℕ × V)) (k : ℕ) → length (erase d k) ≤ length d
length-erase_le [] k = omega arith
length-erase_le ((j, u) ∷ rest) k = ground (arith, length-erase_le rest k)

length-erase :
    {V : Type 0} (d : List (ℕ × V)) (k : ℕ) (v : V)
    → find d k ≡ some v
    → suc (length (erase d k)) ≤ length d
length-erase [] k v e = absurd (ground (arith, e))
length-erase ((j, u) ∷ rest) k v e = elim (Bool-cases (j == k)) [
  | inl same ↦ rw same (omega (arith, length-erase_le rest k))
  | inr other ↦
      let h : find rest k ≡ some v =
        subst (λ b. (if b then some u else find rest k) ≡ some v) other e in
      rw other (omega (arith, length-erase rest k v h))
]

module _ {F : Floats} (M : MathOps F) where
  -- Every counted selection is a venue's, and every fill is counted once at most.
  pub record Balanced (t : VenueToxicityTracker F) : Type 0 where
    pub venues : t.total_selections ≡ selections t.stats
    pub fills : t.total_selections + length t.fill_records ≤ t.fill_counter

  filled-selections :
      (found : Option (VenueStats F)) (v : ℕ) (d : List (ℕ × VenueStats F))
      → find d v ≡ found
      → selections (change_found M found v (filled M) d) ≡ selections d
  filled-selections none v d e = refl
  filled-selections (some s) v d e =
      let h = selections-store d v s (filled M s) e in omega (arith, h)

  fill-Balanced :
      (r : FillRecord F) (t : VenueToxicityTracker F) → Balanced t → Balanced (record_fill M r t).1
  unfolding record_fill
  fill-Balanced r t b = record {
    venues = b.venues ∙ sym (filled-selections _ r.venue t.stats refl);
    fills = omega (arith, b.fills, length-store t.fill_records (suc t.fill_counter) r);
  }

  reward-Balanced :
      (found : Option (VenueStats F)) (now venue id : ℕ) (markout : F.Float) (r : FillRecord F)
      (t : VenueToxicityTracker F)
      → find t.stats venue ≡ found
      → find t.fill_records id ≡ some r
      → Balanced t
      → Balanced (
          reward_found M found now venue markout
            (record t { fill_records = erase t.fill_records id }))
  reward-Balanced none now venue id markout r t e f b = record {
    venues = b.venues;
    fills = omega (arith, b.fills, length-erase t.fill_records id r f);
  }
  reward-Balanced (some s) now venue id markout r t e f b =
      let h = selections-store t.stats venue s (rewarded M now markout s) e in
      record {
        venues = omega (arith, h, b.venues);
        fills = omega (arith, b.fills, length-erase t.fill_records id r f);
      }

  markout-Balanced :
      (found : Option (FillRecord F)) (now venue id : ℕ) (mid : F.Float)
      (t : VenueToxicityTracker F)
      → find t.fill_records id ≡ found
      → Balanced t
      → Balanced (markout_found M found now venue mid id t)
  markout-Balanced none now venue id mid t e b = b
  markout-Balanced (some r) now venue id mid t e b =
      reward-Balanced _ now venue id (markout_of M r mid) r t refl e b

  -- A fill with its record, or a markout: time, venue, middle, number of the fill.
  pub data Op : Type 0 where
    fills : FillRecord F → Op
    marks : ℕ → ℕ → F.Float → ℕ → Op

  unfoldable pub step : Op → VenueToxicityTracker F → VenueToxicityTracker F
  step (fills r) t = (record_fill M r t).1
  step (marks now venue mid id) t = record_markout M now venue mid id t

  unfoldable pub run : List Op → VenueToxicityTracker F → VenueToxicityTracker F
  unfolding step
  run [] t = t
  run (x ∷ xs) t = run xs (step x t)

  run-Balanced : (xs : List Op) (t : VenueToxicityTracker F) → Balanced t → Balanced (run xs t)
  unfolding run record_markout
  run-Balanced [] t b = b
  run-Balanced (fills r ∷ xs) t b = run-Balanced xs _ (fill-Balanced r t b)
  run-Balanced (marks now venue mid id ∷ xs) t b =
      run-Balanced xs _ (markout-Balanced _ now venue id mid t refl b)

  no_selections :
      (lambda : F.Float) (now : ℕ) (vs : List ℕ) → 0 ≡ selections (stats_of M lambda now vs)
  no_selections lambda now [] = refl
  no_selections lambda now (v ∷ vs) = omega (arith, no_selections lambda now vs)

  -- After any series of fills and markouts of a new tracker, for any venues and fill numbers: the
  -- total of selections, by which the scores are computed, is the sum over the venues, and the
  -- selections and the fills still without a markout are no more than the fills recorded.
  pub tracker-Balanced :
      (venues : List ℕ) (lambda ucb_c : F.Float) (now : ℕ) (xs : List Op)
      → Balanced (run xs (new_tracker M venues lambda ucb_c now))
  unfolding new_tracker
  tracker-Balanced venues lambda ucb_c now xs =
      run-Balanced xs (new_tracker M venues lambda ucb_c now)
        (record { venues = no_selections lambda now venues; fills = omega arith })

  reward_gone :
      (found : Option (VenueStats F)) (now venue : ℕ) (markout : F.Float) (id : ℕ)
      (t : VenueToxicityTracker F)
      → find
          (reward_found M found now venue markout
            (record t { fill_records = erase t.fill_records id })).fill_records
          id
        ≡ none
  reward_gone none now venue markout id t = find-erase t.fill_records id
  reward_gone (some s) now venue markout id t = find-erase t.fill_records id

  markout_gone :
      (found : Option (FillRecord F)) (now venue id : ℕ) (mid : F.Float)
      (t : VenueToxicityTracker F)
      → find t.fill_records id ≡ found
      → find (markout_found M found now venue mid id t).fill_records id ≡ none
  markout_gone none now venue id mid t e = e
  markout_gone (some r) now venue id mid t e =
      reward_gone (find t.stats venue) now venue (markout_of M r mid) id t

  -- A second markout of a fill changes nothing, whatever the venue, the middle and the time.
  pub marked_once :
      (now now' venue venue' id : ℕ) (mid mid' : F.Float) (t : VenueToxicityTracker F)
      → record_markout M now' venue' mid' id (record_markout M now venue mid id t)
        ≡ record_markout M now venue mid id t
  unfolding record_markout
  marked_once now now' venue venue' id mid mid' t =
      let t' = markout_found M (find t.fill_records id) now venue mid id t in
      ap (λ f. markout_found M f now' venue' mid' id t') (markout_gone _ now venue id mid t refl)
