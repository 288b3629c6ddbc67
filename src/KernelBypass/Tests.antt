-- ===== src/KernelBypass/Tests.antt =====
-- Runs of the ring of frames, and the theorem at a concrete series of events.
use nexus_trading.Base.{ℕ, ◌+◌, ◌≡◌, refl, Bool, true, false, none, some, List, [], ◌∷◌, pos}
use nexus_trading.Supervisor.Tests.{cents}
use nexus_trading.KernelBypass.Feed.{
  Tick, Received, new_feed, frame_offset, frame_of, put, produce_tick, look,
}
use nexus_trading.KernelBypass.Adapter.{
  Event, produces, looks, expires, stops, Handler, ended, handler_raised, start, step, run,
}
use nexus_trading.KernelBypass.Runs.{ring_run}

abbrev quote : List ℕ → ℕ → Tick cents
quote symbol price = record {
  symbol = some symbol;
  timestamp_ns = none;
  bid = some (pos price);
  ask = some (pos (price + 1));
  last = none;
  volume = some 4294967297;
}

-- Two ticks, a turn for each, and one too many.
abbrev two_ticks : List (Event (Tick cents))
two_ticks =
    produces 5 (quote (65 ∷ 66 ∷ []) 100)
    ∷ produces 6 (quote (65 ∷ 66 ∷ 67 ∷ 68 ∷ 69 ∷ 70 ∷ 71 ∷ 72 ∷ 73 ∷ []) 200)
    ∷ looks
    ∷ expires
    ∷ looks
    ∷ stops
    ∷ looks
    ∷ expires
    ∷ []

abbrev text : List ℕ → Bool
text bytes = true

abbrev got : List ℕ → ℕ → ℕ → Received cents
got symbol now price = record {
  symbol = symbol;
  timestamp_ns = now;
  bid = pos price;
  ask = pos (price + 1);
  last = pos 0;
  volume = 1;
}

-- The second handler raises for what is priced at 200.
abbrev first : Handler (Received cents)
first = record { number = 1; fails = λ r. false }

abbrev second : Handler (Received cents)
second = record { number = 2; fails = λ r. cents.float_leb (pos 200) r.bid }

abbrev one_handler : List (Handler (Received cents))
one_handler = first ∷ []

abbrev two_handlers : List (Handler (Received cents))
two_handlers = first ∷ second ∷ []

both_delivered :
    (ring_run text one_handler two_ticks).delivered
    ≡ (1, got (65 ∷ 66 ∷ []) 5 100)
      ∷ (1, got (65 ∷ 66 ∷ 67 ∷ 68 ∷ 69 ∷ 70 ∷ 71 ∷ 72 ∷ []) 6 200)
      ∷ []
unfolding run step start new_feed look produce_tick frame_offset frame_of put
both_delivered = refl

stopped : (ring_run text one_handler two_ticks).phase ≡ ended
unfolding run step start new_feed look produce_tick frame_offset frame_of put
stopped = refl

left_by_handler : (ring_run text two_handlers two_ticks).phase ≡ handler_raised
unfolding run step start new_feed look produce_tick frame_offset frame_of put
left_by_handler = refl
