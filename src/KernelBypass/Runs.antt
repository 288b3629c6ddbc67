-- ===== src/KernelBypass/Runs.antt =====
-- The adapter on the ring and the adapter on the queue, through any series of events.
use nexus_trading.Base.{Floats, ℕ, ◌≡◌, Bool, List, []}
use nexus_trading.KernelBypass.Feed.{Tick, KernelBypassFeed, Received, new_feed, produce_tick, look}
use nexus_trading.KernelBypass.Adapter.{KernelBypassAdapter, Handler, Event, start, run}
use nexus_trading.KernelBypass.Queue.{Queue, queue_look, queue_produce, Same}

module _ (F : Floats) (u : List ℕ → Bool) (handlers : List (Handler (Received F))) where
  abbrev pub Ring : Type 0
  Ring = KernelBypassAdapter (KernelBypassFeed F) (Received F)

  abbrev pub Line : Type 0
  Line = KernelBypassAdapter (Queue F) (Received F)

  -- Two adapters that have delivered the same, and will.
  record Alike (a : Ring) (b : Line) : Type 0 where
    same : Same a.feed b.feed
    running : a.running ≡ b.running
    phase : a.phase ≡ b.phase
    delivered : a.delivered ≡ b.delivered

-- The adapter over the feed, from its start, and over a queue.
module _ {F : Floats} where
  abbrev pub ring_run :
      (List ℕ → Bool)
      → List (Handler (Received F))
      → List (Event (Tick F))
      → KernelBypassAdapter (KernelBypassFeed F) (Received F)
  ring_run u handlers es = run (look u) produce_tick handlers es (start (new_feed F))

  abbrev pub queue_run :
      (List ℕ → Bool)
      → List (Handler (Received F))
      → List (Event (Tick F))
      → KernelBypassAdapter (Queue F) (Received F)
  queue_run u handlers es =
      run (queue_look u) queue_produce handlers es (start (record { sent = []; taken = 0 }))
