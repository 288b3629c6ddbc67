-- ===== src/Dma/Tests.antt =====
-- Concrete orders on the path.
use nexus_trading.Base.{ℕ, ◌≡◌, refl, true, List, [], ◌∷◌, ◌++◌, pos}
use nexus_trading.Broker.Venues.{nasdaq, number}
use nexus_trading.Clearing.Engine.{buy}
use nexus_trading.Dma.Path.{
  ExchangeMember, Order, Ack, Rates, no_rebates, latency_advantage_ns, total_path_latency_ns,
  new_path,
}
use nexus_trading.Dma.Runs.{submits, wakes, resets, run, start}
use nexus_trading.Dma.Books.{Balanced, start-Balanced}
use nexus_trading.Supervisor.Tests.{cents}
use nexus_trading.Dma.Ids.{at_rest, same_id}

abbrev member : ExchangeMember
member = record { member_id = 1; cross_connect_latency_ns = 80; is_active = true }

abbrev members : List (ℕ × ExchangeMember)
members = (number nasdaq, member) ∷ []

abbrev order : ℕ → Order cents
order qty = record {
  venue = nasdaq;
  symbol = 7;
  side = buy;
  qty = qty;
  price = pos 100;
  is_maker = true;
}

abbrev rates : Rates cents
rates = record {
  nasdaq_rate = pos 200;
  nyse_rate = pos 150;
  bats_rate = pos 320;
  direct_dma_rate = pos 250;
  round_6 = λ x. x;
}

advantage : latency_advantage_ns nasdaq (new_path cents members) ≡ pos 1999780
unfolding latency_advantage_ns total_path_latency_ns new_path
advantage = refl

start-Balanced_example : Balanced rates (
    run rates
      (submits (order 100) ∷ submits (order 5) ∷ wakes 1 ∷ resets ∷ wakes 0 ∷ [])
      (start cents members))
start-Balanced_example =
    start-Balanced rates members
      (submits (order 100) ∷ submits (order 5) ∷ wakes 1 ∷ resets ∷ wakes 0 ∷ [])

same_id_case :
    (a : Ack cents) × (a' : Ack cents) × ((run rates
        (submits (order 100) ∷ submits (order 5) ∷ wakes 0 ∷ wakes 0 ∷ [])
        (at_rest members (no_rebates cents) 0 0 [] [])).today
      ≡ [] ++ a ∷ a' ∷ [])
    × (a.order ≡ order 100)
    × (a'.order ≡ order 5)
    × (a.order_id ≡ (nasdaq, 2))
    × (a'.order_id ≡ (nasdaq, 2))
same_id_case =
    same_id rates members (no_rebates cents) 0 0 [] [] (order 100) (order 5) member member refl refl
