-- ===== src/Toxicity/Tracker.antt =====
-- VenueStats, VenueToxicityTracker and ToxicitySOR. A venue is its number in OrderVenue.
use nexus_trading.Base.{
  Floats, ℕ, suc, ◌-◌, ◌==◌, Bool, false, Option, none, some, List, [], ◌∷◌, max, elem, find, store,
  erase, keys, if◌then◌else◌,
}
use nexus_trading.Broker.Venues.{iex, nasdaq, bats, dark_pool, number}

-- What the code takes of the module math, the two infinities, and division by a count that is not
-- zero.
pub record MathOps (F : Floats) : Type 0 where
  pub infinity : F.Float
  pub minus_infinity : F.Float
  pub float_min : F.Float → F.Float → F.Float
  -- sqrt(log(t) / n)
  pub exploration : ℕ → ℕ → F.Float
  -- exp(-decay_lambda * elapsed)
  pub decay : F.Float → ℕ → F.Float
  -- total / n
  pub average : F.Float → ℕ → F.Float
  -- the decimal numbers of the source: 0.01, 0.05, 0.95, 0.99, 1 and -0.5
  pub c001 : F.Float
  pub c005 : F.Float
  pub c095 : F.Float
  pub c099 : F.Float
  pub one : F.Float
  pub minus_half : F.Float

pub data Urgency : Type 0 where
  urgent stealth normal : Urgency

pub data Direction : Type 0 where
  bought sold : Direction

module _ (F : Floats) where
  pub record VenueStats : Type 0 where
    pub n_selections : ℕ
    pub cumulative_reward : F.Float
    pub markout_score : F.Float
    pub decay_lambda : F.Float
    pub last_update_ns : ℕ
    pub fill_rate : F.Float

  pub record FillRecord : Type 0 where
    pub venue : ℕ
    pub fill_price : F.Float
    pub direction : Direction
    pub qty : F.Float
    pub mid_at_fill : F.Float

  pub record VenueToxicityTracker : Type 0 where
    pub stats : List (ℕ × VenueStats)
    pub total_selections : ℕ
    pub ucb_c : F.Float
    pub fill_records : List (ℕ × FillRecord)
    pub fill_counter : ℕ

-- `[v for v in candidates if v not in exclude]`
abbrev pub remaining : List ℕ → List ℕ → List ℕ
remaining exclude [] = []
remaining exclude (v ∷ vs) =
    if elem v exclude then remaining exclude vs else v ∷ remaining exclude vs

abbrev pub first_of : List ℕ → Option ℕ
first_of [] = none
first_of (v ∷ vs) = some v

abbrev pub or_first : Option ℕ → List ℕ → Option ℕ
or_first none vs = first_of vs
or_first (some v) vs = some v

-- The first of the preferred venues that is available.
abbrev pub preferred : List ℕ → List ℕ → Option ℕ
preferred [] available = none
preferred (p ∷ ps) available = if elem p available then some p else preferred ps available

module _ {F : Floats} (M : MathOps F) where
  abbrev new_stats : F.Float → ℕ → VenueStats F
  new_stats lambda now = record {
    n_selections = 0;
    cumulative_reward = F.float_of 0;
    markout_score = F.float_of 0;
    decay_lambda = lambda;
    last_update_ns = now;
    fill_rate = M.one;
  }

  abbrev pub stats_of : F.Float → ℕ → List ℕ → List (ℕ × VenueStats F)
  stats_of lambda now [] = []
  stats_of lambda now (v ∷ vs) = (v, new_stats lambda now) ∷ stats_of lambda now vs

  -- The constructor, for venues without repetition.
  unfoldable pub new_tracker : List ℕ → F.Float → F.Float → ℕ → VenueToxicityTracker F
  new_tracker venues lambda ucb_c now = record {
    stats = stats_of lambda now venues;
    total_selections = 0;
    ucb_c = ucb_c;
    fill_records = [];
    fill_counter = 0;
  }

  -- `stats = self._stats.get(venue)`, and what is done to it if it is there.
  abbrev pub change_found :
      Option (VenueStats F)
      → ℕ
      → (VenueStats F → VenueStats F)
      → List (ℕ × VenueStats F)
      → List (ℕ × VenueStats F)
  change_found none venue f d = d
  change_found (some s) venue f d = store d venue (f s)

  abbrev pub filled : VenueStats F → VenueStats F
  filled s = record s { fill_rate = M.float_min M.one (F.add (F.mul s.fill_rate M.c099) M.c001) }

  -- `record_fill`: the number of the fill id, and the tracker
  unfoldable pub record_fill : FillRecord F → VenueToxicityTracker F → ℕ × VenueToxicityTracker F
  record_fill r t =
      let id = suc t.fill_counter in
      (
        id,
        record t {
          fill_counter = id;
          fill_records = store t.fill_records id r;
          stats = change_found (find t.stats r.venue) r.venue filled t.stats;
        },
      )

  abbrev pub markout_of : FillRecord F → F.Float → F.Float
  markout_of r mid = elim r.direction [
    | bought ↦ F.sub r.fill_price mid
    | sold ↦ F.neg (F.sub r.fill_price mid)
  ]

  -- `_apply_decay`, the new score, and `update_reward`
  abbrev pub rewarded : ℕ → F.Float → VenueStats F → VenueStats F
  rewarded now markout s =
      let decayed = F.mul s.markout_score (M.decay s.decay_lambda (now - s.last_update_ns)) in
      record s {
        last_update_ns = now;
        markout_score = F.add (F.mul decayed M.c095) (F.mul markout M.c005);
        n_selections = suc s.n_selections;
        cumulative_reward = F.add s.cumulative_reward markout;
      }

  abbrev pub reward_found :
      Option (VenueStats F) → ℕ → ℕ → F.Float → VenueToxicityTracker F → VenueToxicityTracker F
  reward_found none now venue markout t = t
  reward_found (some s) now venue markout t = record t {
    stats = store t.stats venue (rewarded now markout s);
    total_selections = suc t.total_selections;
  }

  abbrev pub markout_found :
      Option (FillRecord F) → ℕ → ℕ → F.Float → ℕ → VenueToxicityTracker F → VenueToxicityTracker F
  markout_found none now venue mid id t = t
  markout_found (some r) now venue mid id t =
      reward_found (find t.stats venue) now venue (markout_of r mid)
        (record t { fill_records = erase t.fill_records id })

  -- `record_markout`
  unfoldable pub record_markout :
      ℕ → ℕ → F.Float → ℕ → VenueToxicityTracker F → VenueToxicityTracker F
  record_markout now venue mid id t = markout_found (find t.fill_records id) now venue mid id t

  abbrev score_found : Option (VenueStats F) → F.Float → ℕ → F.Float
  score_found none c t = M.infinity
  score_found (some s) c t =
      if s.n_selections == 0
      then M.infinity
      else F.add (M.average s.cumulative_reward s.n_selections)
          (F.mul c (M.exploration t s.n_selections))

  -- `ucb1_score`
  unfoldable pub ucb1_score : VenueToxicityTracker F → ℕ → ℕ → F.Float
  ucb1_score k venue t = score_found (find k.stats venue) k.ucb_c t

  abbrev toxic_found : Option (VenueStats F) → Bool
  toxic_found none = false
  toxic_found (some s) = F.float_ltb s.markout_score M.minus_half

  unfoldable pub is_toxic : VenueToxicityTracker F → ℕ → Bool
  is_toxic k v = toxic_found (find k.stats v)

  -- The loop over the available venues, from a best venue and its score.
  abbrev pub best_of : VenueToxicityTracker F → ℕ → Option ℕ → F.Float → List ℕ → Option ℕ
  best_of k t best score [] = best
  best_of k t best score (v ∷ vs) =
      let higher = best_of k t (some v) (ucb1_score k v t) vs in
      let as_before = best_of k t best score vs in
      if is_toxic k v
      then as_before
      else if F.float_ltb score (ucb1_score k v t)
      then higher
      else as_before

  abbrev pub best_or_first : VenueToxicityTracker F → List ℕ → Option ℕ
  best_or_first k available =
      or_first (best_of k (max 1 k.total_selections) none M.minus_infinity available) available

  abbrev pub or_best : Option ℕ → VenueToxicityTracker F → List ℕ → Option ℕ
  or_best none k available = best_or_first k available
  or_best (some v) k available = some v

  abbrev pub select_among : VenueToxicityTracker F → Urgency → List ℕ → Option ℕ
  select_among k urgent available =
      or_first (preferred (number iex ∷ number nasdaq ∷ number bats ∷ []) available) available
  select_among k stealth available =
      or_best (preferred (number dark_pool ∷ []) available) k available
  select_among k normal available = best_or_first k available

  abbrev pub select_remaining : VenueToxicityTracker F → List ℕ → Urgency → List ℕ → Option ℕ
  select_remaining k candidates how [] = or_first (first_of candidates) (keys k.stats)
  select_remaining k candidates how (v ∷ vs) = select_among k how (v ∷ vs)

  -- `select_venue`; none where the code raises IndexError
  unfoldable pub select_venue : VenueToxicityTracker F → List ℕ → Urgency → List ℕ → Option ℕ
  select_venue k candidates how exclude =
      select_remaining k candidates how (remaining exclude candidates)

  abbrev score_or_zero : Option (VenueStats F) → F.Float
  score_or_zero none = F.float_of 0
  score_or_zero (some s) = s.markout_score

  -- `ToxicitySOR.route`: the venue and its score
  unfoldable pub route : VenueToxicityTracker F → Urgency → Option (ℕ × F.Float)
  unfolding select_venue
  route k how = elim (select_venue k (keys k.stats) how []) [
    | none ↦ none
    | some v ↦ some (v, score_or_zero (find k.stats v))
  ]
