-- ===== src/Toxicity/Tests.antt =====
-- Concrete fills and choices, in whole numbers.
use nexus_trading.Base.{
  ℕ, ◌≡◌, refl, true, false, some, List, [], ◌∷◌, pos, negsuc, ltb_ℤ, elem, if◌then◌else◌,
}
use nexus_trading.Broker.Venues.{nyse, nasdaq, iex, number}
use nexus_trading.Toxicity.Tracker.{
  MathOps, FillRecord, VenueToxicityTracker, bought, urgent, normal, new_tracker, select_venue,
  markout_of, is_toxic, record_markout, record_fill, ucb1_score,
}
use nexus_trading.Toxicity.Choice.{select_venue_lem, normal_choice_clean}
use nexus_trading.Toxicity.Books.{Balanced, fills, marks, run, tracker-Balanced, marked_once}
use nexus_trading.Supervisor.Tests.{cents}

-- Whole numbers in place of the decimal ones.
abbrev ops : MathOps cents
ops = record {
  infinity = pos 1000000;
  minus_infinity = negsuc 999999;
  float_min = λ a b. if ltb_ℤ a b then a else b;
  exploration = λ t n. pos 0;
  decay = λ l t. pos 1;
  average = λ total n. total;
  c001 = pos 0;
  c005 = pos 1;
  c095 = pos 1;
  c099 = pos 1;
  one = pos 1;
  minus_half = negsuc 0;
}

abbrev venues : List ℕ
venues = number nyse ∷ number nasdaq ∷ number iex ∷ []

abbrev tracker : VenueToxicityTracker cents
tracker = record {
  stats = [];
  total_selections = 0;
  ucb_c = pos 1;
  fill_records = [];
  fill_counter = 0;
}

-- A purchase at 100 that is worth 107 five seconds later: its markout is -7, counted as toxic.
abbrev purchase : FillRecord cents
purchase = record {
  venue = number nasdaq;
  fill_price = pos 100;
  direction = bought;
  qty = pos 10;
  mid_at_fill = pos 100;
}

gain_is_toxic : markout_of ops purchase (pos 107) ≡ negsuc 6
gain_is_toxic = refl

good_fill_bars_venue :
    is_toxic ops
      (run ops
        (fills purchase ∷ marks 5 (number nasdaq) (pos 107) 1 ∷ [])
        (new_tracker ops venues (pos 0) (pos 1) 0))
      (number nasdaq)
    ≡ true
unfolding is_toxic run new_tracker record_fill record_markout
good_fill_bars_venue = refl

-- All candidates excluded: the choice is an excluded one.
excluded_is_chosen : select_venue ops tracker venues normal venues ≡ some (number nyse)
unfolding select_venue
excluded_is_chosen = refl

select_venue_lem_example :
    (v : ℕ) × (select_venue ops tracker venues urgent (number iex ∷ []) ≡ some v)
    × (elem v venues ≡ true)
    × (elem v (number iex ∷ []) ≡ false)
select_venue_lem_example =
    select_venue_lem ops tracker venues (number iex ∷ []) urgent (number nyse) refl

normal_choice_clean_case :
    (v : ℕ) × (select_venue ops tracker venues normal [] ≡ some v)
    × (is_toxic ops tracker v ≡ false)
unfolding is_toxic ucb1_score
normal_choice_clean_case = normal_choice_clean ops tracker venues [] (number nyse) refl refl refl

tracker-Balanced_case : Balanced ops (
    run ops
      (fills purchase ∷ marks 5 (number nasdaq) (pos 107) 1 ∷ [])
      (new_tracker ops venues (pos 0) (pos 1) 0))
tracker-Balanced_case =
    tracker-Balanced ops venues (pos 0) (pos 1) 0
      (fills purchase ∷ marks 5 (number nasdaq) (pos 107) 1 ∷ [])

marked_once_case :
    let t = run ops (fills purchase ∷ []) tracker in
    record_markout ops 9
      (number nyse)
      (pos 90)
      1
      (record_markout ops 5 (number nasdaq) (pos 107) 1 t)
    ≡ record_markout ops 5 (number nasdaq) (pos 107) 1 t
marked_once_case =
    marked_once ops 5 9 (number nasdaq) (number nyse) 1 (pos 107) (pos 90)
      (run ops (fills purchase ∷ []) tracker)
